-- ===== src/Socket/Fuel/Send.antt =====
-- That the loops of `acksend` and `send` do not run out of fuel.
use ece.Prelude.{
  ltb, ◌==◌, Bool-cases, if-elim, length, ℕ, zero, suc, ◌+◌, ◌-◌, ◌<◌, inl, inr, true, false, not,
  ◌&&◌, ◌||◌, List, arith,
}
use ece.Msg.Flags
use ece.Msg.{Msg, control_msg, default_msg}
use ece.Net.{Os}
use ece.Socket.Monad.{State, ok, asserted}
use ece.Socket.Low.{rawsend, lowrecv}
use ece.Socket.Sender.{
  ack_round, ack_loop, acksend, chunk_msg, send_chunk, send_loop, send_eos, send,
}
use ece.Socket.Fuel.{
  due, Takes, Takes-map, Takes-then, Takes-bind, rawsend-Takes, lowrecv-Takes, asserted-Takes,
}

module _ (os : Os) where
  ack_round-Takes : (msg : Msg) (s : State) → Takes 1 (due s) (ack_round os msg s)
  unfolding ack_round
  ack_round-Takes msg s =
      Takes-bind 0 1 (due s) (rawsend os msg s) _ (rawsend-Takes os msg s) λ _ t h.
        Takes-then 1 (due t) (lowrecv os (default_msg (os.memory t.world.clock)) t)
          (λ r u. ok (r.0 && r.1.seqnum == msg.seqnum, u)) (lowrecv-Takes os _ t)
          λ r u k. omega arith

  ack_loop-Takes :
      (fuel : ℕ) (msg : Msg) (s : State) → due s < fuel → Takes 0 (due s) (ack_loop os fuel msg s)
  unfolding ack_loop
  ack_loop-Takes zero msg s h = absurd (omega arith)
  ack_loop-Takes (suc fuel) msg s h =
      Takes-map 1 (due s) 0 (due s) _ (λ x e. omega arith)
        (Takes-then 1 (due s) (ack_round os msg s)
          (λ r t. elim (r || t.sock.is_closing) [
            | true ↦ ok (tt, t)
            | false ↦ ack_loop os fuel msg t
          ])
          (ack_round-Takes msg s)
          λ r t k. elim (Bool-cases (r || t.sock.is_closing)) [
            | inl e ↦ rw e (omega arith)
            | inr e ↦ rw e (ack_loop-Takes fuel msg t (omega arith))
          ])

  -- `acksend` does not run out of fuel.
  pub acksend-Takes : (msg : Msg) (s : State) → Takes 0 (due s) (acksend os msg s)
  unfolding acksend
  acksend-Takes msg s =
      Takes-then 0 (due s) (ack_loop os (suc (due s)) msg s)
        (λ _ t. ok (default_msg (os.memory s.world.clock), t))
        (ack_loop-Takes (suc (due s)) msg s (omega arith)) λ _ t h. omega arith

  send_chunk-Takes :
      (bytes : List ℕ) (processed : ℕ) (s : State)
      → Takes 0 (due s) (send_chunk os bytes processed s)
  unfolding send_chunk
  send_chunk-Takes bytes processed s =
      Takes-then 0 (due s)
        (asserted (chunk_msg (os.memory s.world.clock) s.sock.send_seqnum bytes processed) s) _
        (asserted-Takes os _ s)
        λ m t h. Takes-then 0 (due t) (acksend os m t) _ (acksend-Takes m t) λ _ u k. omega arith

  send_loop-Takes :
      (fuel : ℕ) (bytes : List ℕ) (processed : ℕ) (s : State)
      → length bytes - processed < fuel
      → Takes 0 (due s) (send_loop os fuel bytes processed s)
  unfolding send_loop
  send_loop-Takes zero bytes processed s h = absurd (omega arith)
  send_loop-Takes (suc fuel) bytes processed s h =
      elim (Bool-cases (ltb processed (length bytes) && not s.sock.is_closing)) [
        | inl e ↦
            let some_left : processed < length bytes = ground arith in
            rw (send_loop, e)
              (Takes-then 0 (due s) (send_chunk os bytes processed s)
                (λ _ t. send_loop os fuel bytes (processed + 500) t)
                (send_chunk-Takes bytes processed s)
                λ _ t k. send_loop-Takes fuel bytes (processed + 500) t (omega arith))
        | inr e ↦ rw (send_loop, e) (omega arith)
      ]

  send_eos-Takes : (s : State) → Takes 0 (due s) (send_eos os s)
  unfolding send_eos
  send_eos-Takes s =
      if-elim (Takes {A = Unit {0}} 0 (due s)) s.sock.is_closing (λ _. omega arith)
        (λ _.
          Takes-then 0 (due s)
            (acksend os (control_msg (os.memory s.world.clock) s.sock.send_seqnum Flags.eos) s)
            (λ _ t. ok (tt, t)) (acksend-Takes _ s) λ _ t h. omega arith)

  -- `send` does not run out of fuel, whatever arrives and in whatever state: it returns, with no
  -- more arrivals to come than before, waits for a packet or fails an assertion.
  pub send-Takes : (bytes : List ℕ) (s : State) → Takes 0 (due s) (send os bytes s)
  unfolding send
  send-Takes bytes s =
      let t = record s { sock = record (s.sock) { send_seqnum = 0 } } in
      Takes-then 0 (due s) (send_loop os (suc (length bytes)) bytes 0 t) _
        (send_loop-Takes (suc (length bytes)) bytes 0 t (omega arith))
        λ _ u h. Takes-then 0 (due u) (send_eos os u) _ (send_eos-Takes u) λ _ v k. omega arith
