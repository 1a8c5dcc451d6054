-- ===== src/Socket/Connecting.antt =====
-- a4/rcs_t.cc: `connect`, which learns the port of the server's new socket.
use ece.Prelude.{
  length, get_or, All, size_mod, of_le16, ℕ, ◌+◌, ◌*◌, ◌<◌, ◌≡◌, refl, ap, ◌∙◌, true, false, List,
  [], ◌∷◌, ◌++◌, arith, ℤ, pos,
}
use ece.Msg.{Msg}
use ece.Buffer.Tokens.{byte, mark, stream, view}
use ece.Buffer.Invariant.{IsStored, IsBuffer}
use ece.Net.{Addr, Arrival, Os}
use ece.Socket.Low.{set_endpoint}
use ece.Socket.Methods.{hello, overlay, connect}
use ece.Socket.Monad.{Socket, State, ok, bind}
use ece.Socket.Sender.{send}
use ece.Socket.Receiver.{recv}
use ece.Socket.Quiet.{Core, Returns, Returns-bind}
use ece.Socket.Sending.{Acked, send-Acked}
use ece.Socket.Inbox.{Delivers}
use ece.Socket.Transfer.{recv-Received}

module _ (os : Os) where
  -- What follows `recv` in `connect`.
  abbrev pub told : List ℕ → Socket → Socket
  told bytes s =
      set_endpoint
        (record (s.end_point) {
          port = of_le16 (get_or (overlay os bytes) 0 0) (get_or (overlay os bytes) 1 0);
        })
        s

  pub connect-eq :
      (addr : Addr) (s : State)
      → connect os addr s
        ≡ bind (send os (hello os) (record s { sock = set_endpoint addr (s.sock) })) (λ r.
          bind (recv os 16 r.1) (λ q. ok (pos 0, record (q.1) { sock = told q.0.0 (q.1.sock) })))
  unfolding connect
  connect-eq addr s = refl

  -- What `connect` leaves: an open socket that sends to port `port`.
  pub record Connected (port : ℕ) (rest : List Arrival) (r : ℤ) (t : State) : Type 0 where
    pub code : r ≡ pos 0
    pub port_eq : t.sock.end_point.port ≡ port
    pub has_peer : t.sock.has_endpoint ≡ true
    pub none_left : view t.sock.buffer ≡ []
    pub buffer : IsBuffer t.sock.buffer
    pub arrivals : t.world.arrivals ≡ rest
    pub open_still : t.sock.is_closing ≡ false

  -- On an open socket with nothing left to read, `connect` returns 0 once its text has been
  -- acknowledged and a send of two bytes has arrived; it has then read that send to its end, and
  -- sends to the port that those bytes are. In between any timeouts, damaged packets and repeated
  -- messages may arrive.
  pub connect-Connected :
      (addr : Addr) (s : State) (ms : List Msg) (eos : Msg) (lo hi : ℕ) (middle rest : List Arrival)
      → s.sock.is_closing ≡ false
      → IsBuffer s.sock.buffer
      → view s.sock.buffer ≡ []
      → Acked 2 0 s.world.arrivals middle
      → 500 * (length ms + 1) < size_mod
      → All IsStored (ms ++ eos ∷ [])
      → stream (ms ++ eos ∷ []) ≡ byte lo ∷ byte hi ∷ mark ∷ []
      → Delivers 0 ms eos middle rest
      → Returns (connect os addr s) (Connected (of_le16 lo hi) rest)
  connect-Connected addr s ms eos lo hi middle rest open_ v none_left acked few stored bytes
        delivers =
      let s0 = record s { sock = set_endpoint addr (s.sock) } in
      rw (connect-eq addr s) (
        Returns-bind (send os (hello os) s0)
          (λ r t.
            bind (recv os 16 t) (λ q. ok (pos 0, record (q.1) { sock = told q.0.0 (q.1.sock) })))
          (send-Acked os (hello os) s0 middle open_ acked)
          λ r t (same, adv).
            let buf : t.sock.buffer ≡ s.sock.buffer = ap (λ (c : Core). c.buffer) adv.core_eq in
            Returns-bind (recv os 16 t) (λ q u. ok (pos 0, record u { sock = told q.0 (u.sock) }))
              (recv-Received os 16 ms eos (lo ∷ hi ∷ []) t rest (omega arith) (omega arith)
                (ap (λ (c : Core). c.is_closing) adv.core_eq ∙ open_) (rw buf v)
                (ap view buf ∙ none_left) few stored bytes (rw adv.arrivals_eq delivers))
              λ q u got. (
                _,
                _,
                refl,
                record {
                  code = refl;
                  port_eq = rw got.bytes refl;
                  has_peer = refl;
                  none_left = got.left;
                  buffer = got.buffer;
                  arrivals = got.arrivals;
                  open_still = got.open_still;
                },
              ))
