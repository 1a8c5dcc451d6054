-- ===== src/Socket/Rounds.antt =====
-- One round of `rcs_t::recv`'s inner loop, by the arrival that it hears.
use ece.Prelude.{
  ◌==◌, ==-refl, ==_ne, if-elim, All, u16_mod, ℕ, ◌+◌, ◌-◌, ◌%◌, ◌≡◌, refl, sym, ap, ◌∙◌, inl, inr,
  Bool, true, false, ◌&&◌, List, ◌∷◌, ◌++◌, arith,
}
use ece.Msg.Flags
use ece.Msg.{Msg, control_msg, default_msg, has_flag}
use ece.Msg.Validity.{default_msg-invalid}
use ece.Msg.Wire.{intact}
use ece.Buffer.{queue_message}
use ece.Net.{Arrival, failed, Os, eagain}
use ece.Socket.Low.{rawrecv}
use ece.Socket.Receiver.{take_message, answer, on_result, recv_round}
use ece.Socket.Monad.{State, Run, bind}
use ece.Socket.Quiet.{
  Core, core, sendable, Returns, Left, Left-trans, Returns-bind, rawrecv-Unheard, rawrecv-heard,
}
use ece.Socket.Delivery.{Skipped, Expected, Resent, Took, skip-Left, more-Left, end-Left}

module _ (os : Os) where
  module _ (ack : Msg) (n : ℕ) (m : Msg) (s : State) (flag : ack.flags ≡ Flags.ack)
      (open_ : s.sock.is_closing ≡ false) (i : intact n m ≡ true)
      (seq : m.seqnum ≡ s.sock.recv_seqnum) where
    expected : (intact n m && m.seqnum == s.sock.recv_seqnum) ≡ true
    expected = rw (i, seq) (==-refl s.sock.recv_seqnum)

    fits : sendable (record ack { seqnum = s.sock.recv_seqnum }) ≡ true
    fits = ground arith

    -- A round that gets the message that it waits for, in the middle of a send.
    take-Took :
        (rest : List Arrival)
        → s.world.arrivals ≡ rest
        → has_flag m Flags.eos ≡ false
        → Returns (answer os ack n m s) (λ b t. (b ≡ false) × Took m s t rest)
    unfolding answer
    take-Took rest queue no_end =
        let (b, t, e, (p, l)) =
          more-Left os (record ack { seqnum = s.sock.recv_seqnum })
            (record s { sock = take_message m (s.sock) }) rest fits open_ queue in
        rw (expected, i, no_end)
          (b, t, e, (p, record { core_eq = l.core_eq; arrivals_eq = l.arrivals_eq }))

    -- And at its end.
    end-Took :
        (resent : List Arrival) (rest : List Arrival)
        → s.world.arrivals ≡ resent ++ (failed eagain ∷ rest)
        → All Resent resent
        → has_flag m Flags.eos ≡ true
        → Returns (answer os ack n m s) (λ b t. (b ≡ true) × Took m s t rest)
    unfolding answer
    end-Took resent rest queue again is_end =
        let (b, t, e, (p, l)) =
          end-Left os (record ack { seqnum = s.sock.recv_seqnum })
            (record s { sock = take_message m (s.sock) }) resent rest fits open_ queue again in
        rw (expected, i, is_end)
          (b, t, e, (p, record { core_eq = l.core_eq; arrivals_eq = l.arrivals_eq }))

  -- The acknowledgement that a round starts with: of the message before.
  abbrev pub last_ack : State → Msg
  last_ack s = record {
    checksum = 16;
    seqnum = (s.sock.recv_seqnum + u16_mod - 1) % u16_mod;
    length = 0;
    flags = Flags.ack;
    payload = os.memory s.world.clock;
  }

  pub recv_round-eq :
      (s : State)
      → recv_round os s
        ≡ bind
            (rawrecv os (default_msg (os.memory s.world.clock)) s)
            (λ r. on_result os (last_ack s) r.0 r.1)
  unfolding recv_round control_msg
  recv_round-eq s = refl

  pub result-answer :
      (ack : Msg) (r : ℕ × Msg) (t : State)
      → (r.0 == 0) ≡ false
      → on_result os ack r t ≡ answer os ack (r.0) (r.1) t
  unfolding on_result
  result-answer ack r t nz = rw (nz, on_result) refl

  -- What the core tells of the fields.
  still_open :
      (s t : State)
      → core t.sock ≡ core s.sock
      → s.sock.is_closing ≡ false
      → t.sock.is_closing ≡ false
  still_open s t e open_ = ap (λ (c : Core). c.is_closing) e ∙ open_

  same_seqnum : (s t : State) → core t.sock ≡ core s.sock → t.sock.recv_seqnum ≡ s.sock.recv_seqnum
  same_seqnum s t e = ap (λ (c : Core). c.recv_seqnum) e

  unheard-Left :
      (ack : Msg) (r : ℕ × Msg) (s t : State) (rest : List Arrival)
      → sendable ack ≡ true
      → s.sock.is_closing ≡ false
      → intact (r.0) (r.1) ≡ false
      → Left s t rest
      → Returns (on_result os ack r t) (λ b u. (b ≡ false) × Left s u rest)
  unfolding on_result
  unheard-Left ack r s t rest fits open_ bad l =
      if-elim (λ (q : Run (Bool × State)). Returns q (λ b u. (b ≡ false) × Left s u rest))
        (r.0 == 0) (λ _. (false, t, refl, (refl, l)))
        λ _.
          let (b, u, e, (p, k)) =
            skip-Left os ack (r.0) (r.1) t rest fits (still_open s t l.core_eq open_) l.arrivals_eq
              (rw bad refl) (rw bad refl) in
          (b, u, e, (p, Left-trans l k))

  -- A round that passes an arrival over leaves the socket as before.
  pub recv_round-skips :
      (s : State) (a : Arrival) (rest : List Arrival)
      → s.sock.is_closing ≡ false
      → s.world.arrivals ≡ a ∷ rest
      → Skipped s.sock.recv_seqnum a
      → Returns (recv_round os s) (λ b t. (b ≡ false) × Left s t rest)
  recv_round-skips s a rest open_ queue (inl h) = rw (recv_round-eq s) (
      Returns-bind (rawrecv os (default_msg (os.memory s.world.clock)) s)
        (λ r t. on_result os (last_ack s) r t)
        (rawrecv-Unheard os _ a s rest (default_msg-invalid _) queue h)
        λ r t (bad, l). unheard-Left (last_ack s) r s t rest refl open_ bad l)
  recv_round-skips s a rest open_ queue (inr (m, h, fin, no_end, other)) = rw (recv_round-eq s) (
      Returns-bind (rawrecv os (default_msg (os.memory s.world.clock)) s)
        (λ r t. on_result os (last_ack s) r t) (rawrecv-heard os _ a m s rest queue h fin)
        λ r t (i, nz, same, l).
          let n = t.sock.recv_seqnum in
          let differs : (m.seqnum == n) ≡ false =
            ==_ne m.seqnum n (rw (same_seqnum s t l.core_eq) other) in
          let (b, u, e, (p, k)) =
            skip-Left os (last_ack s) (r.0) (r.1) t rest refl (still_open s t l.core_eq open_)
              l.arrivals_eq (rw (i, same, differs) refl) (rw (i, same, no_end) refl) in
          (b, u, result-answer (last_ack s) r t nz ∙ e, (p, Left-trans l k)))

  Took-after :
      (m : Msg) (s t u : State) (q rest : List Arrival)
      → Left s t q
      → Took m t u rest
      → Took m s u rest
  Took-after m s t u q rest l k = record {
    core_eq =
        k.core_eq
        ∙ ap
            (λ (c : Core). record c {
              buffer = queue_message (c.buffer) m;
              recv_seqnum = (c.recv_seqnum + 1) % u16_mod;
            })
            l.core_eq;
    arrivals_eq = k.arrivals_eq;
  }

  -- A round that hears the message that it waits for takes it and goes on, if that does not end the
  -- send.
  pub recv_round-takes :
      (s : State) (a : Arrival) (m : Msg) (rest : List Arrival)
      → s.sock.is_closing ≡ false
      → s.world.arrivals ≡ a ∷ rest
      → Expected s.sock.recv_seqnum m a
      → has_flag m Flags.eos ≡ false
      → Returns (recv_round os s) (λ b t. (b ≡ false) × Took m s t rest)
  recv_round-takes s a m rest open_ queue (h, fin, seq) no_end = rw (recv_round-eq s) (
      Returns-bind (rawrecv os (default_msg (os.memory s.world.clock)) s)
        (λ r t. on_result os (last_ack s) r t) (rawrecv-heard os _ a m s rest queue h fin)
        λ r t (i, nz, same, l).
          let (b, u, e, (p, k)) =
            take-Took (last_ack s) (r.0) m t refl (still_open s t l.core_eq open_) (rw (← same) i)
              (seq ∙ sym (same_seqnum s t l.core_eq)) rest l.arrivals_eq no_end in
          (
            b,
            u,
            result-answer (last_ack s) r t nz
                ∙ ap (λ (x : Msg). answer os (last_ack s) (r.0) x t) same
                ∙ e,
            (p, Took-after m s t u rest rest l k),
          ))

  -- One that hears the end of the send that it waits for takes it, and ends the loop once a timeout
  -- has come.
  pub recv_round-ends :
      (s : State) (a : Arrival) (m : Msg) (resent : List Arrival) (rest : List Arrival)
      → s.sock.is_closing ≡ false
      → s.world.arrivals ≡ a ∷ (resent ++ (failed eagain ∷ rest))
      → Expected s.sock.recv_seqnum m a
      → has_flag m Flags.eos ≡ true
      → All Resent resent
      → Returns (recv_round os s) (λ b t. (b ≡ true) × Took m s t rest)
  recv_round-ends s a m resent rest open_ queue (h, fin, seq) is_end again =
      let q = resent ++ (failed eagain ∷ rest) in
      rw (recv_round-eq s) (
        Returns-bind (rawrecv os (default_msg (os.memory s.world.clock)) s)
          (λ r t. on_result os (last_ack s) r t) (rawrecv-heard os _ a m s q queue h fin)
          λ r t (i, nz, same, l).
            let (b, u, e, (p, k)) =
              end-Took (last_ack s) (r.0) m t refl (still_open s t l.core_eq open_) (rw (← same) i)
                (seq ∙ sym (same_seqnum s t l.core_eq)) resent rest l.arrivals_eq again is_end in
            (
              b,
              u,
              result-answer (last_ack s) r t nz
                  ∙ ap (λ (x : Msg). answer os (last_ack s) (r.0) x t) same
                  ∙ e,
              (p, Took-after m s t u q rest l k),
            ))
