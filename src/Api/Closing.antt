-- ===== src/Api/Closing.antt =====
-- a4/rcs_t.cc and a4/rcs.cc: a listener that has been closed by its peer's FIN.
use ece.Prelude.{
  ltb, Bool-cases, length, ℕ, suc, ◌+◌, ◌*◌, ◌≡◌, refl, ap, ◌∙◌, inl, inr, Bool, true, false, not,
  ◌&&◌, List, [], pos,
}
use ece.Buffer.{empty}
use ece.Net.{Os}
use ece.Socket.Sender.{send, send_chunk, send_loop, send_eos}
use ece.Socket.Receiver.{recv, recv_round, recv_inner, recv_outer, recv_read}
use ece.Socket.Connecting.{connect-eq}
use ece.Socket.Low.{set_endpoint}
use ece.Socket.Methods.{hello, connect}
use ece.Net.{Addr}
use ece.Socket.Monad.{Socket, State, Run, ok, bind}

-- The other end has sent FIN, and nothing is left to read.
pub record IsFinished (s : Socket) : Type 0 where
  pub closing : s.is_closing ≡ true
  pub drained : empty s.buffer ≡ true

module _ (os : Os) where
  inner_closing :
      (fuel : ℕ) (t : State) → t.sock.is_closing ≡ true → recv_inner os (suc fuel) t ≡ ok (tt, t)
  unfolding recv_inner
  inner_closing fuel t closing =
      ap {B = Run (Unit {0} × State)}
        (λ (c : Bool). elim c [
          | true ↦ ok (tt, t)
          | false ↦
              bind (recv_round os t)
                λ r. elim r.0 [ true ↦ ok (tt, r.1) | false ↦ recv_inner os fuel r.1 ]
        ])
        closing

  abbrev pub restarted : State → State
  restarted s = record s { sock = record (s.sock) { recv_seqnum = 0 } }

  outer_closing :
      (fuel : ℕ) (s : State)
      → s.sock.is_closing ≡ true
      → recv_outer os (suc fuel) s ≡ ok (tt, restarted s)
  unfolding recv_outer
  outer_closing fuel s closing =
      let test : (empty s.sock.buffer && not s.sock.is_closing) ≡ false =
        elim (Bool-cases (empty s.sock.buffer)) [
          | inl e ↦ rw (e, closing) refl
          | inr e ↦ rw e refl
        ] in
      rw (inner_closing (length s.world.arrivals) (restarted s) closing) (
        ap {B = Run (Unit {0} × State)}
          (λ (c : Bool). elim c [
            | true ↦ recv_outer os fuel (restarted s)
            | false ↦ ok (tt, restarted s)
          ])
          test)

  -- Once the other end has sent FIN, `recv` waits for nothing and reads what there is.
  pub recv-closing :
      (size : ℕ) (s : State)
      → s.sock.is_closing ≡ true
      → recv os size s ≡ recv_read os size (restarted s)
  unfolding recv
  recv-closing size s closing = rw (outer_closing (length s.world.arrivals) s closing) refl

  read_finished : (size : ℕ) (t : State) → IsFinished t.sock → recv_read os size t ≡ ok (([], 0), t)
  unfolding recv_read
  read_finished size t f =
      let test : (t.sock.is_closing && empty t.sock.buffer) ≡ true =
        rw (f.closing, f.drained) refl in
      rw (recv_read, test) refl

  pub recv-finished :
      (size : ℕ) (s : State) → IsFinished s.sock → recv os size s ≡ ok (([], 0), restarted s)
  recv-finished size s f =
      recv-closing size s f.closing
      ∙ read_finished size (restarted s) (record { closing = f.closing; drained = f.drained })

  abbrev pub resent : State → State
  resent s = record s { sock = record (s.sock) { send_seqnum = 0 } }

  loop_finished :
      (fuel : ℕ) (bytes : List ℕ) (t : State)
      → IsFinished t.sock
      → send_loop os (suc fuel) bytes 0 t ≡ ok (tt, t)
  unfolding send_loop
  loop_finished fuel bytes t f =
      let test : (ltb 0 (length bytes) && not t.sock.is_closing) ≡ false =
        elim (Bool-cases (ltb 0 (length bytes))) [
          | inl e ↦ rw (e, f.closing) refl
          | inr e ↦ rw e refl
        ] in
      ap {B = Run (Unit {0} × State)}
        (λ (c : Bool). elim c [
          | true ↦ bind (send_chunk os bytes 0 t) (λ r. send_loop os fuel bytes (0 + 500) r.1)
          | false ↦ ok (tt, t)
        ])
        test

  eos_finished : (t : State) → IsFinished t.sock → send_eos os t ≡ ok (tt, t)
  unfolding send_eos
  eos_finished t f = rw (send_eos, f.closing) refl

  pub send-finished :
      (bytes : List ℕ) (s : State)
      → IsFinished s.sock
      → send os bytes s ≡ ok (length bytes, resent s)
  unfolding send
  send-finished bytes s f =
      let f0 : IsFinished (resent s).sock = record { closing = f.closing; drained = f.drained } in
      rw (loop_finished (length bytes) bytes (resent s) f0, eos_finished (resent s) f0) refl

  -- On a socket whose other end has sent FIN, with nothing left to read, `connect` sends nothing
  -- and hears nothing, and yet it returns 0, and takes the first two letters of its own text for
  -- the port of its peer.
  pub connect-finished :
      (addr : Addr) (s : State)
      → IsFinished s.sock
      → (t : State) × (connect os addr s ≡ ok (pos 0, t))
        × (t.sock.end_point.port ≡ 99 * 256 + 114)
        × (t.sock.end_point.ip ≡ addr.ip)
        × (t.world ≡ s.world)
  connect-finished addr s f =
      let s0 : State = record s { sock = set_endpoint addr (s.sock) } in
      let f0 : IsFinished s0.sock = record { closing = f.closing; drained = f.drained } in
      let f1 : IsFinished (resent s0).sock = record { closing = f.closing; drained = f.drained } in
      rw (connect-eq os addr s, send-finished (hello os) s0 f0, recv-finished 16 (resent s0) f1)
        (_, refl, refl, refl, refl)
