-- ===== src/Socket/Inbox.antt =====
-- `rcs_t::recv`'s inner loop over a whole send of the peer.
use ece.Prelude.{
  length, All, length-append, u16_mod, ℕ, zero, suc, ◌+◌, ◌-◌, ◌%◌, ◌<◌, ◌≡◌, refl, ap, ◌∙◌, true,
  false, List, [], ◌∷◌, ◌++◌, arith,
}
use ece.Msg.Flags
use ece.Msg.{Msg, has_flag}
use ece.Buffer.{queue_message}
use ece.Net.{Arrival, failed, Os, eagain}
use ece.Socket.Receiver.{recv_round, recv_inner}
use ece.Socket.Monad.{State, ok}
use ece.Socket.Quiet.{Core, core, Returns, Left, Left-trans, Returns-bind}
use ece.Socket.Delivery.{Skipped, Expected, Resent}
use ece.Socket.Rounds.{recv_round-skips, recv_round-takes, recv_round-ends}

-- The first arrivals, up to `rest`, bring the messages `ms` in turn, from number `seqnum` on, and
-- then the end of the send, behind which messages without data may follow, and a timeout.
abbrev pub Delivers : ℕ → List Msg → Msg → List Arrival → List Arrival → Type 0
Delivers seqnum [] eos queue rest =
    (junk : List Arrival) × (a : Arrival) × (resent : List Arrival) × (queue
      ≡ junk ++ (a ∷ (resent ++ (failed eagain ∷ rest))))
    × All (Skipped seqnum) junk
    × Expected seqnum eos a
    × (has_flag eos Flags.eos ≡ true)
    × All Resent resent
Delivers seqnum (m ∷ ms) eos queue rest =
    (junk : List Arrival) × (a : Arrival) × (more : List Arrival) × (queue ≡ junk ++ (a ∷ more))
    × All (Skipped seqnum) junk
    × Expected seqnum m a
    × (has_flag m Flags.eos ≡ false)
    × Delivers ((seqnum + 1) % u16_mod) ms eos more rest

-- What taking messages does to a socket's fields.
abbrev pub taking : Msg → Core → Core
taking m c = record c {
  buffer = queue_message (c.buffer) m;
  recv_seqnum = (c.recv_seqnum + 1) % u16_mod;
}

abbrev pub taking_all : List Msg → Core → Core
taking_all [] c = c
taking_all (m ∷ ms) c = taking_all ms (taking m c)

module _ (os : Os) where
  go_on :
      (fuel : ℕ) (s : State) {P : State → Type 0} {Q : Unit {0} → State → Type 0}
      → s.sock.is_closing ≡ false
      → Returns (recv_round os s) (λ b t. (b ≡ false) × P t)
      → ((t : State) → P t → Returns (recv_inner os fuel t) Q)
      → Returns (recv_inner os (suc fuel) s) Q
  unfolding recv_inner
  go_on fuel s {Q} open_ round rest =
      rw (open_, recv_inner)
        (Returns-bind (recv_round os s)
          (λ b t. elim b [ true ↦ ok (tt, t) | false ↦ recv_inner os fuel t ]) {Q = Q} round
          λ b t (p, h). rw p (rest t h))

  break_off :
      (fuel : ℕ) (s : State) {P : State → Type 0}
      → s.sock.is_closing ≡ false
      → Returns (recv_round os s) (λ b t. (b ≡ true) × P t)
      → Returns (recv_inner os (suc fuel) s) (λ x t. P t)
  unfolding recv_inner
  break_off fuel s {P} open_ round =
      rw (open_, recv_inner)
        (Returns-bind (recv_round os s)
          (λ b t. elim b [ true ↦ ok (tt, t) | false ↦ recv_inner os fuel t ]) {Q = λ x t. P t}
          round λ b t (p, h). rw p (tt, t, refl, h))

  still_open :
      (s t : State)
      → core t.sock ≡ core s.sock
      → s.sock.is_closing ≡ false
      → t.sock.is_closing ≡ false
  still_open s t e open_ = ap (λ (c : Core). c.is_closing) e ∙ open_

  same_seqnum : (s t : State) → core t.sock ≡ core s.sock → t.sock.recv_seqnum ≡ s.sock.recv_seqnum
  same_seqnum s t e = ap (λ (c : Core). c.recv_seqnum) e

  -- The loop passes over what it skips.
  recv_inner-skips :
      (fuel : ℕ) (s : State) (junk queue : List Arrival) {Q : Unit {0} → State → Type 0}
      → s.sock.is_closing ≡ false
      → s.world.arrivals ≡ junk ++ queue
      → All (Skipped s.sock.recv_seqnum) junk
      → length junk + length queue < fuel
      → ((left : ℕ) (t : State)
          → Left s t queue
          → length queue < left
          → Returns (recv_inner os left t) Q)
      → Returns (recv_inner os fuel s) Q
  recv_inner-skips fuel s [] queue open_ arrivals skipped enough rest =
      rest fuel s (record { core_eq = refl; arrivals_eq = arrivals }) (omega arith)
  recv_inner-skips zero s (a ∷ junk) queue open_ arrivals skipped enough rest = absurd (omega arith)
  recv_inner-skips (suc fuel) s (a ∷ junk) queue {Q} open_ arrivals (skip, skipped) enough rest =
      go_on fuel s {Q = Q} open_ (recv_round-skips os s a (junk ++ queue) open_ arrivals skip)
        λ t l.
          let still : t.sock.is_closing ≡ false =
            ap (λ (c : Core). c.is_closing) l.core_eq ∙ open_ in
          let seq : t.sock.recv_seqnum ≡ s.sock.recv_seqnum =
            ap (λ (c : Core). c.recv_seqnum) l.core_eq in
          recv_inner-skips fuel t junk queue {Q = Q} still l.arrivals_eq (rw seq skipped)
            (omega arith) λ left u k. rest left u (Left-trans l k)

  -- It ends with all messages of the send taken, in order, each once.
  pub recv_inner-Delivers :
      (ms : List Msg) (eos : Msg) (fuel : ℕ) (s : State) (rest : List Arrival)
      → s.sock.is_closing ≡ false
      → length s.world.arrivals < fuel
      → Delivers s.sock.recv_seqnum ms eos s.world.arrivals rest
      → Returns (recv_inner os fuel s) (λ x t.
        (core t.sock ≡ taking_all (ms ++ eos ∷ []) (core s.sock)) × (t.world.arrivals ≡ rest))
  recv_inner-Delivers [] eos fuel s rest open_ enough
        (junk, a, resent, queue, skipped, expected, is_end, again) =
      recv_inner-skips fuel s junk (a ∷ (resent ++ (failed eagain ∷ rest))) open_ queue skipped
        (omega
          (arith, ap length queue, length-append junk (a ∷ (resent ++ (failed eagain ∷ rest)))))
        λ left t l more_fuel.
          let e : left ≡ suc (left - 1) = omega arith in
          rw e (
            break_off (left - 1) t
              {P = λ u. (core u.sock ≡ taking eos (core s.sock)) × (u.world.arrivals ≡ rest)}
              (still_open s t l.core_eq open_)
              (let (b, u, r, (p, k)) =
                  recv_round-ends os t a eos resent rest (still_open s t l.core_eq open_)
                    l.arrivals_eq (rw (same_seqnum s t l.core_eq) expected) is_end again in
                (b, u, r, (p, (k.core_eq ∙ ap (taking eos) l.core_eq, k.arrivals_eq)))))
  recv_inner-Delivers (m ∷ ms) eos fuel s rest open_ enough
        (junk, a, more, queue, skipped, expected, no_end, later) =
      recv_inner-skips fuel s junk (a ∷ more) open_ queue skipped
        (omega (arith, ap length queue, length-append junk (a ∷ more)))
        λ left t l more_fuel.
          let e : left ≡ suc (left - 1) = omega arith in
          rw e (
            go_on (left - 1) t (still_open s t l.core_eq open_)
              (recv_round-takes os t a m more (still_open s t l.core_eq open_) l.arrivals_eq
                (rw (same_seqnum s t l.core_eq) expected) no_end)
              λ u k.
                let took : core u.sock ≡ taking m (core s.sock) =
                  k.core_eq ∙ ap (taking m) l.core_eq in
                let open_u : u.sock.is_closing ≡ false =
                  ap (λ (c : Core). c.is_closing) took ∙ open_ in
                let seq : u.sock.recv_seqnum ≡ (s.sock.recv_seqnum + 1) % u16_mod =
                  ap (λ (c : Core). c.recv_seqnum) took in
                let (x, v, r, (c, q)) =
                  recv_inner-Delivers ms eos (left - 1) u rest open_u
                    (omega (arith, ap length k.arrivals_eq)) (rw (seq, k.arrivals_eq) later) in
                (x, v, r, (c ∙ ap (taking_all (ms ++ eos ∷ [])) took, q)))
