-- ===== src/Socket/Delivery.antt =====
-- `rcs_t::recv`, one message at a time: what it queues, skips and acknowledges.
use ece.Prelude.{
  ◌==◌, length, All, length-append, ℕ, zero, suc, ◌+◌, ◌<◌, ◌≡◌, refl, ap, ◌∙◌, ◌≢◌, ◌⊎◌, true,
  false, not, ◌&&◌, ◌||◌, none, some, List, [], ◌∷◌, ◌++◌, arith,
}
use ece.Msg.Flags
use ece.Msg.{Msg, default_msg, has_flag, valid}
use ece.Msg.Wire.{intact}
use ece.Net.{Arrival, failed, Os, eagain}
use ece.Socket.Low.{rawsend, rawrecv, set_timeout, recv_timeout, protocol_timeout}
use ece.Socket.Receiver.{finalize_loop, finalize_recv, take_message, reply, finish_round, answer}
use ece.Socket.Monad.{State, ok, bind}
use ece.Socket.Quiet.{
  core, heard, sendable, Returns, Left, Returns-bind, Left-trans, rawsend-Returns, rawrecv-heard,
  rawrecv-timeout,
}

-- An arrival that a receiver of message `seqnum` passes over: a timeout, a damaged packet, or an
-- intact message with another number that does not end a send.
abbrev pub Skipped : ℕ → Arrival → Type 0
Skipped seqnum a =
    (heard a ≡ none)
    ⊎ ((m : Msg) × (heard a ≡ some m)
        × (has_flag m Flags.fin ≡ false)
        × (has_flag m Flags.eos ≡ false)
        × (m.seqnum ≢ seqnum))

-- An arrival that it waits for.
abbrev pub Expected : ℕ → Msg → Arrival → Type 0
Expected seqnum m a = (heard a ≡ some m) × (has_flag m Flags.fin ≡ false) × (m.seqnum ≡ seqnum)

-- An intact message without data, such as an end-of-send message that is sent again.
abbrev pub Resent : Arrival → Type 0
Resent a = (m : Msg) × (heard a ≡ some m) × (has_flag m Flags.fin ≡ false) × (m.length ≡ 0)

-- The socket is as before but for the addresses and one more message received.
pub record Took (m : Msg) (s t : State) (rest : List Arrival) : Type 0 where
  pub core_eq : core t.sock ≡ core (take_message m s.sock)
  pub arrivals_eq : t.world.arrivals ≡ rest

module _ (os : Os) where
  finalize_loop-Left :
      (fuel : ℕ) (ack response : Msg) (s : State) (resent : List Arrival) (rest : List Arrival)
      → sendable ack ≡ true
      → s.world.arrivals ≡ resent ++ (failed eagain ∷ rest)
      → All Resent resent
      → length resent < fuel
      → Returns (finalize_loop os fuel ack response s) (λ r t. Left s t rest)
  unfolding finalize_loop
  finalize_loop-Left zero ack response s resent rest fits queue again enough = absurd (omega arith)
  finalize_loop-Left (suc fuel) ack response s [] rest fits queue again enough =
      Returns-bind (rawrecv os response s)
        (λ r t. elim (r.0 == 0 || valid (r.1) && (r.1.seqnum == 0 && not (r.1.length == 0))) [
          | true ↦ ok (tt, t)
          | false ↦ bind (rawsend os ack t) λ q. finalize_loop os fuel ack (r.1) q.1
        ])
        (rawrecv-timeout os response s rest queue) λ r t (z, l). rw z (tt, t, refl, l)
  finalize_loop-Left (suc fuel) ack response s (a ∷ resent) rest fits queue
        ((m, h, fin, short), again) enough =
      Returns-bind (rawrecv os response s)
        (λ r t. elim (r.0 == 0 || valid (r.1) && (r.1.seqnum == 0 && not (r.1.length == 0))) [
          | true ↦ ok (tt, t)
          | false ↦ bind (rawsend os ack t) λ q. finalize_loop os fuel ack (r.1) q.1
        ])
        (rawrecv-heard os response a m s (resent ++ (failed eagain ∷ rest)) queue h fin)
        λ r t (i, nz, same, l).
          let empty_msg : r.1.length ≡ 0 = rw same short in
          let goes_on : (r.0 == 0 || valid (r.1) && (r.1.seqnum == 0 && not (r.1.length == 0)))
              ≡ false =
            ground arith in
          rw goes_on (
            Returns-bind (rawsend os ack t) (λ q u. finalize_loop os fuel ack (r.1) u)
              (rawsend-Returns os ack t fits)
              λ q u (sock, arrivals).
                let (x, v, e, k) =
                  finalize_loop-Left fuel ack (r.1) u resent rest fits (arrivals ∙ l.arrivals_eq)
                    again (omega arith) in
                (
                  x,
                  v,
                  e,
                  record {
                    core_eq = k.core_eq ∙ ap core sock ∙ l.core_eq;
                    arrivals_eq = k.arrivals_eq;
                  },
                ))

  -- `finalizeRecv`, with an acknowledgement that passes the assertion of `rawsend`, ends at the
  -- first timeout, if until then only messages without data arrive,
  -- which it acknowledges again; but for the addresses the socket is as before.
  pub finalize_recv-Left :
      (ack : Msg) (s : State) (resent : List Arrival) (rest : List Arrival)
      → sendable ack ≡ true
      → s.world.arrivals ≡ resent ++ (failed eagain ∷ rest)
      → All Resent resent
      → Returns (finalize_recv os ack s) (λ r t. Left s t rest)
  unfolding finalize_recv set_timeout
  finalize_recv-Left ack s resent rest fits queue again =
      let fd = s.sock.ucp_socket in
      let s1 = record s {
        world = record (s.world) { timeouts = (fd, protocol_timeout) ∷ s.world.timeouts };
      } in
      let long : length s.world.arrivals ≡ length resent + suc (length rest) =
        ap length queue ∙ length-append resent (failed eagain ∷ rest) in
      Returns-bind
        (finalize_loop os (suc (length s.world.arrivals)) ack
          (default_msg (os.memory s.world.clock)) s1)
        (λ r t. ok (
          tt,
          record t {
            world = record (t.world) {
              timeouts = (t.sock.ucp_socket, recv_timeout) ∷ t.world.timeouts;
            };
          },
        ))
        (finalize_loop-Left (suc (length s.world.arrivals)) ack _ s1 resent rest fits queue again
          (omega arith))
        λ r t l. (tt, _, refl, record { core_eq = l.core_eq; arrivals_eq = l.arrivals_eq })

  reply-open :
      (ack : Msg) (s : State) → s.sock.is_closing ≡ false → reply os ack s ≡ rawsend os ack s
  unfolding reply
  reply-open ack s open_ = rw (open_, reply) refl

  reply-Left :
      (ack : Msg) (s : State) (rest : List Arrival)
      → sendable ack ≡ true
      → s.sock.is_closing ≡ false
      → s.world.arrivals ≡ rest
      → Returns (reply os ack s) (λ r t. Left s t rest)
  reply-Left ack s rest fits open_ queue =
      let (r, t, e, (sock, arrivals)) = rawsend-Returns os ack s fits in
      (
        r,
        t,
        reply-open ack s open_ ∙ e,
        record { core_eq = ap core sock; arrivals_eq = arrivals ∙ queue },
      )

  -- The end of a round that is not the end of a send.
  pub more-Left :
      (ack : Msg) (s : State) (rest : List Arrival)
      → sendable ack ≡ true
      → s.sock.is_closing ≡ false
      → s.world.arrivals ≡ rest
      → Returns (finish_round os ack false s) (λ b t. (b ≡ false) × Left s t rest)
  unfolding finish_round
  more-Left ack s rest fits open_ queue =
      Returns-bind (reply os ack s) (λ r t. ok (false, t)) (reply-Left ack s rest fits open_ queue)
        λ r t l. (_, t, refl, (refl, l))

  -- The end of a round that is.
  pub end-Left :
      (ack : Msg) (s : State) (resent : List Arrival) (rest : List Arrival)
      → sendable ack ≡ true
      → s.sock.is_closing ≡ false
      → s.world.arrivals ≡ resent ++ (failed eagain ∷ rest)
      → All Resent resent
      → Returns (finish_round os ack true s) (λ b t. (b ≡ true) × Left s t rest)
  unfolding finish_round
  end-Left ack s resent rest fits open_ queue again =
      Returns-bind (reply os ack s) (λ r t. bind (finalize_recv os ack t) (λ q. ok (true, q.1)))
        (reply-Left ack s (resent ++ (failed eagain ∷ rest)) fits open_ queue)
        λ r t l.
          Returns-bind (finalize_recv os ack t) (λ q u. ok (true, u))
            (finalize_recv-Left ack t resent rest fits l.arrivals_eq again)
            λ q u k. (_, u, refl, (refl, Left-trans l k))

  -- A round that passes an arrival over.
  pub skip-Left :
      (ack : Msg) (n : ℕ) (m : Msg) (s : State) (rest : List Arrival)
      → sendable ack ≡ true
      → s.sock.is_closing ≡ false
      → s.world.arrivals ≡ rest
      → (intact n m && m.seqnum == s.sock.recv_seqnum) ≡ false
      → (intact n m && has_flag m Flags.eos) ≡ false
      → Returns (answer os ack n m s) (λ b t. (b ≡ false) × Left s t rest)
  unfolding answer
  skip-Left ack n m s rest fits open_ queue unexpected no_end =
      rw (unexpected, no_end) (more-Left ack s rest fits open_ queue)
