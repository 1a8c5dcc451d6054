-- ===== src/Socket/Waiting.antt =====
-- `rcs_t::recv` waits for a new send of the peer, also where its buffer holds bytes.
use ece.Prelude.{
  length, All, ℕ, zero, suc, ◌<◌, ◌≡◌, refl, ap, ◌∙◌, Bool, false, List, [], ◌∷◌, arith,
}
use ece.Msg.{default_msg}
use ece.Net.{Arrival, Os}
use ece.Socket.Receiver.{on_result, recv_round, recv_inner, recv_outer, recv}
use ece.Socket.Monad.{State, Run, blocked, bind}
use ece.Socket.Quiet.{Core, rawrecv-blocked}
use ece.Socket.Delivery.{Skipped}
use ece.Socket.Rounds.{recv_round-eq, recv_round-skips, last_ack}

module _ (os : Os) where
  recv_round-blocked : (s : State) → s.world.arrivals ≡ [] → recv_round os s ≡ blocked
  recv_round-blocked s queue =
      recv_round-eq os s
      ∙ ap {B = Run (Bool × State)} (λ r. bind r (λ q. on_result os (last_ack os s) q.0 q.1))
          (rawrecv-blocked os (default_msg (os.memory s.world.clock)) s queue)

  recv_inner-blocked :
      (fuel : ℕ) (s : State) (junk : List Arrival)
      → s.sock.is_closing ≡ false
      → s.world.arrivals ≡ junk
      → All (Skipped s.sock.recv_seqnum) junk
      → length junk < fuel
      → recv_inner os fuel s ≡ blocked
  unfolding recv_inner
  recv_inner-blocked zero s junk open_ queue skipped enough = absurd (omega arith)
  recv_inner-blocked (suc fuel) s [] open_ queue skipped enough =
      rw (open_, recv_round-blocked s queue, recv_inner) refl
  recv_inner-blocked (suc fuel) s (a ∷ junk) open_ queue (skip, skipped) enough =
      let (b, t, e, (p, l)) = recv_round-skips os s a junk open_ queue skip in
      let still : t.sock.is_closing ≡ false = ap (λ (c : Core). c.is_closing) l.core_eq ∙ open_ in
      let seq : t.sock.recv_seqnum ≡ s.sock.recv_seqnum =
        ap (λ (c : Core). c.recv_seqnum) l.core_eq in
      rw (open_, e, p, recv_inner)
        (recv_inner-blocked fuel t junk still l.arrivals_eq (rw seq skipped) (omega arith))

  -- On an open socket `recv` waits as long as no message of a new send arrives, whatever its buffer
  -- still holds of the sends before.
  pub recv-blocked :
      (n : ℕ) (s : State)
      → s.sock.is_closing ≡ false
      → All (Skipped 0) s.world.arrivals
      → recv os n s ≡ blocked
  unfolding recv recv_outer
  recv-blocked n s open_ skipped =
      let t = record s { sock = record (s.sock) { recv_seqnum = 0 } } in
      rw
        (recv_inner-blocked (suc (length s.world.arrivals)) t s.world.arrivals open_ refl skipped
          (omega arith))
        refl
