-- ===== src/Socket/Acks.antt =====
-- `rcs_t::acksend`: it sends a message until an intact message with its sequence number arrives.
use ece.Prelude.{
  ◌==◌, ==-refl, ==_ne, length, All, length-append, ℕ, zero, suc, ◌+◌, ◌<◌, ◌≡◌, refl, ap, ◌∙◌, ◌≢◌,
  ◌⊎◌, inl, inr, Bool, true, false, ◌&&◌, ◌||◌, none, some, List, [], ◌∷◌, ◌++◌, arith,
}
use ece.Msg.Flags
use ece.Msg.{Msg, default_msg, has_flag, valid}
use ece.Msg.Validity.{default_msg-invalid}
use ece.Msg.Wire.{intact}
use ece.Net.{Arrival, Os}
use ece.Socket.Low.{rawsend, rawrecv, lowrecv}
use ece.Socket.Sender.{ack_round, ack_loop, acksend}
use ece.Socket.Monad.{State, Run, ok, bind}
use ece.Socket.Quiet.{
  Core, core, heard, sendable, Returns, Left, rawsend-Returns, rawrecv-Unheard, rawrecv-heard,
  Returns-bind, Left-trans,
}

-- An arrival that leaves a sender of message `seqnum` waiting: a timeout, a damaged packet, or an
-- intact message with another number.
abbrev pub Ignored : ℕ → Arrival → Type 0
Ignored seqnum a =
    (heard a ≡ none)
    ⊎ ((m : Msg) × (heard a ≡ some m) × (has_flag m Flags.fin ≡ false) × (m.seqnum ≢ seqnum))

-- An arrival that it takes for the acknowledgement.
abbrev pub Acks : ℕ → Arrival → Type 0
Acks seqnum a =
    (m : Msg) × (heard a ≡ some m) × (has_flag m Flags.fin ≡ false) × (m.seqnum ≡ seqnum)

module _ (os : Os) where
  -- The receiving part of a round.
  pub lowrecv-Ignored :
      (seqnum : ℕ) (out : Msg) (a : Arrival) (s : State) (rest : List Arrival)
      → valid out ≡ false
      → s.world.arrivals ≡ a ∷ rest
      → Ignored seqnum a
      → Returns (lowrecv os out s) (λ r t. ((r.0 && r.1.seqnum == seqnum) ≡ false) × Left s t rest)
  unfolding lowrecv
  lowrecv-Ignored seqnum out a s rest bad queue (inl h) =
      Returns-bind (rawrecv os out s) (λ r t. ok ((intact r.0 r.1, r.1), t))
        (rawrecv-Unheard os out a s rest bad queue h) λ r t (p, l). (_, t, refl, (rw p refl, l))
  lowrecv-Ignored seqnum out a s rest bad queue (inr (m, h, fin, other)) =
      Returns-bind (rawrecv os out s) (λ r t. ok ((intact r.0 r.1, r.1), t))
        (rawrecv-heard os out a m s rest queue h fin)
        λ r t (p, nz, same, l). (_, t, refl, (rw (p, same, ==_ne m.seqnum seqnum other) refl, l))

  pub lowrecv-Acks :
      (seqnum : ℕ) (out : Msg) (a : Arrival) (s : State) (rest : List Arrival)
      → s.world.arrivals ≡ a ∷ rest
      → Acks seqnum a
      → Returns (lowrecv os out s) (λ r t. ((r.0 && r.1.seqnum == seqnum) ≡ true) × Left s t rest)
  unfolding lowrecv
  lowrecv-Acks seqnum out a s rest queue (m, h, fin, same_seqnum) =
      Returns-bind (rawrecv os out s) (λ r t. ok ((intact r.0 r.1, r.1), t))
        (rawrecv-heard os out a m s rest queue h fin)
        λ r t (p, nz, same, l). (_, t, refl, (rw (p, same, same_seqnum) (==-refl seqnum), l))

  -- The end of a round, behind `rawsend`.
  after_send : Msg → State → Run (Bool × State)
  after_send msg t =
      bind (lowrecv os (default_msg (os.memory t.world.clock)) t)
        λ r. ok (r.0.0 && r.0.1.seqnum == msg.seqnum, r.1)

  ack_round-eq :
      (msg : Msg) (s : State)
      → ack_round os msg s ≡ bind (rawsend os msg s) (λ r. after_send msg r.1)
  unfolding ack_round after_send
  ack_round-eq msg s = refl

  -- A round that hears `a`, by what is known of the receiving part.
  pub round-Returns :
      (msg : Msg) (s : State) (a : Arrival) (rest : List Arrival) (b : Bool)
      → sendable msg ≡ true
      → s.world.arrivals ≡ a ∷ rest
      → ((out : Msg) (t : State)
          → valid out ≡ false
          → t.world.arrivals ≡ a ∷ rest
          → Returns
              (lowrecv os out t)
              (λ r u. ((r.0 && r.1.seqnum == msg.seqnum) ≡ b) × Left t u rest))
      → Returns (ack_round os msg s) (λ r t. (r ≡ b) × Left s t rest)
  unfolding after_send
  round-Returns msg s a rest b fits queue receive = rw (ack_round-eq msg s) (
      Returns-bind (rawsend os msg s) (λ r t. after_send msg t) (rawsend-Returns os msg s fits)
        λ r t (sock, arrivals).
          let out = default_msg (os.memory t.world.clock) in
          Returns-bind (lowrecv os out t) (λ r u. ok (r.0 && r.1.seqnum == msg.seqnum, u))
            (receive out t (default_msg-invalid _) (arrivals ∙ queue))
            λ r u (p, l). (
              _,
              u,
              refl,
              (p, record { core_eq = l.core_eq ∙ ap core sock; arrivals_eq = l.arrivals_eq }),
            ))

  -- While it hears only what it ignores and then its acknowledgement, `acksend`'s loop ends right
  -- behind that.
  ack_loop-acked :
      (fuel : ℕ) (msg : Msg) (s : State) (junk : List Arrival) (a : Arrival) (rest : List Arrival)
      → sendable msg ≡ true
      → s.sock.is_closing ≡ false
      → s.world.arrivals ≡ junk ++ (a ∷ rest)
      → All (Ignored msg.seqnum) junk
      → Acks msg.seqnum a
      → length junk < fuel
      → Returns (ack_loop os fuel msg s) (λ r t. Left s t rest)
  unfolding ack_loop
  ack_loop-acked zero msg s junk a rest fits open_ queue ignored acks enough = absurd (omega arith)
  ack_loop-acked (suc fuel) msg s [] a rest fits open_ queue ignored acks enough =
      Returns-bind (ack_round os msg s)
        (λ b t. elim (b || t.sock.is_closing) [
          | true ↦ ok (tt, t)
          | false ↦ ack_loop os fuel msg t
        ])
        (round-Returns msg s a rest true fits queue
          (λ out t bad q. lowrecv-Acks msg.seqnum out a t rest q acks))
        λ b t (p, l). rw p (tt, t, refl, l)
  ack_loop-acked (suc fuel) msg s (x ∷ junk) a rest fits open_ queue ignored acks enough =
      Returns-bind (ack_round os msg s)
        (λ b t. elim (b || t.sock.is_closing) [
          | true ↦ ok (tt, t)
          | false ↦ ack_loop os fuel msg t
        ])
        (round-Returns msg s x (junk ++ (a ∷ rest)) false fits queue
          (λ out t bad q. lowrecv-Ignored msg.seqnum out x t (junk ++ (a ∷ rest)) bad q ignored.0))
        λ b t (p, l).
          let still : t.sock.is_closing ≡ false =
            ap (λ (c : Core). c.is_closing) l.core_eq ∙ open_ in
          let (u, v, e, k) =
            ack_loop-acked fuel msg t junk a rest fits still l.arrivals_eq ignored.1 acks
              (omega arith) in
          rw (p, still) (u, v, e, Left-trans l k)

  -- On an open socket `acksend` of a message with data or a flag returns at the first
  -- acknowledgement that arrives, after any number of timeouts, damaged packets and other messages;
  -- it has taken the arrivals up to there, and but for the addresses the socket is as before. What
  -- it hands back in `*resp` is a default-constructed message, whatever arrived.
  pub acksend-acked :
      (msg : Msg) (s : State) (junk : List Arrival) (a : Arrival) (rest : List Arrival)
      → sendable msg ≡ true
      → s.sock.is_closing ≡ false
      → s.world.arrivals ≡ junk ++ (a ∷ rest)
      → All (Ignored msg.seqnum) junk
      → Acks msg.seqnum a
      → Returns
          (acksend os msg s)
          (λ r t. (r ≡ default_msg (os.memory s.world.clock)) × Left s t rest)
  unfolding acksend
  acksend-acked msg s junk a rest fits open_ queue ignored acks =
      let long : length s.world.arrivals ≡ length junk + length (a ∷ rest) =
        ap length queue ∙ length-append junk (a ∷ rest) in
      Returns-bind (ack_loop os (suc (length s.world.arrivals)) msg s)
        (λ r t. ok (default_msg (os.memory s.world.clock), t))
        (ack_loop-acked (suc (length s.world.arrivals)) msg s junk a rest fits open_ queue ignored
          acks (omega arith))
        λ r t l. (_, t, refl, (refl, l))
