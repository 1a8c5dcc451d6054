-- ===== src/Protocol/Turns.antt =====
-- a4/rcs_t.cc: a run of `recv` is a sequence of the receiver's rounds.
use ece.Prelude.{
  ◌==◌, Bool-cases, if-elim, length, All, ℕ, zero, suc, ◌≡◌, refl, ap, subst, ◌∙◌, inl, inr, Bool,
  true, false, not, ◌&&◌, List, [],
}
use ece.Msg.{Msg, default_msg, has_flag}
use ece.Msg.Flags
use ece.Msg.Wire.{wire, intact}
use ece.Buffer.{empty}
use ece.Net.{Os}
use ece.Socket.Monad.{State, Run, ok, bind}
use ece.Socket.Low.{rawrecv}
use ece.Socket.Receiver.{
  take_message, finish_round, answer, on_result, recv_round, recv_inner, recv_outer, recv_read,
  recv,
}
use ece.Socket.Quiet.{Core, core}
use ece.Socket.Rounds.{last_ack, recv_round-eq}
use ece.Protocol.Kept.{NotFin, Ends, Ends-bind, Ends-ok, rawrecv-Kept, finish_round-Kept}
use ece.Protocol.Round.{Ends-map}
use ece.Protocol.Acking.{ok-bind, ok-injective, finished, IsOpen, any-Carried, any_log}

-- `recvSeqnum_ = 0`
abbrev pub restart : State → State
restart s = record s { sock = record (s.sock) { recv_seqnum = 0 } }

module _ (far : Os) where
  -- Rounds of the receiver up to the one that ends the inner loop.
  pub data Turns : State → State → Type 0 where
    ends : {s t : State} → recv_round far s ≡ ok (true, t) → Turns s t
    waits : {s u t : State} → recv_round far s ≡ ok (false, u) → Turns u t → Turns s t

  -- Turns of the outer loop, each from sequence number 0, up to one that leaves something to read.
  pub data Listens : State → State → Type 0 where
    hears : {s t : State} → Turns (restart s) t → empty t.sock.buffer ≡ false → Listens s t
    again :
        {s u t : State}
        → Turns (restart s) u
        → empty u.sock.buffer ≡ true
        → Listens u t
        → Listens s t

  finish_round-IsOpen :
      (ack : Msg) (is_end : Bool) (s : State)
      → IsOpen s
      → Ends (λ b t. IsOpen t) (finish_round far ack is_end s)
  finish_round-IsOpen ack is_end s o =
      Ends-map _ _ (finish_round far ack is_end s)
        (finish_round-Kept far (λ _. Unit) (core s.sock) ack is_end s
          (any-Carried far [] (wire ack))
          (record { core_eq = refl; log = any_log far [] s.world.sent; calm = o.no_fin }))
        λ b t (_, k). record {
          unclosed = ap (λ (c : Core). c.is_closing) k.core_eq ∙ o.unclosed;
          no_fin = k.calm;
        }

  on_result-IsOpen :
      (ack : Msg) (r : ℕ × Msg) (s : State)
      → IsOpen s
      → Ends (λ b t. IsOpen t) (on_result far ack r s)
  unfolding on_result answer
  on_result-IsOpen ack r s o =
      let Open = λ (q : Run (Bool × State)). Ends (λ b t. IsOpen t) q in
      let is_end = intact r.0 r.1 && has_flag r.1 Flags.eos in
      if-elim Open (r.0 == 0) (λ _. o)
        λ _.
          if-elim Open (intact r.0 r.1 && r.1.seqnum == s.sock.recv_seqnum)
            (λ _.
              finish_round-IsOpen (record ack { seqnum = s.sock.recv_seqnum }) is_end
                (record s { sock = take_message r.1 (s.sock) })
                (record { unclosed = o.unclosed; no_fin = o.no_fin }))
            (λ _. finish_round-IsOpen ack is_end s o)

  recv_round-IsOpen : (s : State) → IsOpen s → Ends (λ b t. IsOpen t) (recv_round far s)
  recv_round-IsOpen s o = rw (recv_round-eq far s) (
      Ends-bind _ _ (rawrecv far (default_msg (far.memory s.world.clock)) s)
        (λ r t. on_result far (last_ack far s) r t)
        (rawrecv-Kept far (λ _. Unit) (core s.sock) _ s
          (record { core_eq = refl; log = any_log far [] s.world.sent; calm = o.no_fin }))
        λ r t k. on_result-IsOpen (last_ack far s) r t (record {
          unclosed = ap (λ (c : Core). c.is_closing) k.core_eq ∙ o.unclosed;
          no_fin = k.calm;
        }))

  -- What follows a round, if the rest of the inner loop is known.
  round-Turns :
      (fuel : ℕ) (b : Bool) {s u t : State}
      → IsOpen u
      → ((v : State) → IsOpen v → recv_inner far fuel v ≡ finished t → Turns v t × IsOpen t)
      → recv_round far s ≡ ok (b, u)
      → (elim b [ true ↦ finished u | false ↦ recv_inner far fuel u ]) ≡ finished t
      → Turns s t × IsOpen t
  round-Turns fuel true {s} {u} {t} o loop run rest =
      let same : u ≡ t = ap (λ (q : Unit {0} × State). q.1) (ok-injective rest) in
      subst (λ (v : State). Turns s v × IsOpen v) same (ends run, o)
  round-Turns fuel false {s} {u} {t} o loop run rest =
      let (turns, still) = loop u o rest in (waits run turns, still)

  recv_inner-Turns :
      (fuel : ℕ) (s t : State)
      → IsOpen s
      → recv_inner far fuel s ≡ finished t
      → Turns s t × IsOpen t
  unfolding recv_inner
  recv_inner-Turns zero s t o e = absurd (cc)
  recv_inner-Turns (suc fuel) s t o e =
      let goes =
        subst
          (λ (c : Bool).
            (elim c [
              | true ↦ finished s
              | false ↦
                  bind (recv_round far s)
                    λ r. elim r.0 [ true ↦ finished r.1 | false ↦ recv_inner far fuel r.1 ]
            ])
            ≡ finished t)
          o.unclosed e in
      let (r, run, rest) =
        ok-bind (recv_round far s)
          (λ r. elim r.0 [ true ↦ finished r.1 | false ↦ recv_inner far fuel r.1 ]) (tt, t) goes in
      round-Turns fuel r.0 (Ends-ok _ (recv_round-IsOpen s o) run)
        (λ v still f. recv_inner-Turns fuel v t still f) run rest

  -- What follows the inner loop, if the rest of the outer one is known.
  turn-Listens :
      (fuel : ℕ) (s u t : State)
      → Turns (restart s) u
      → IsOpen u
      → ((v : State) → IsOpen v → recv_outer far fuel v ≡ finished t → Listens v t × IsOpen t)
      → (elim (empty u.sock.buffer && not u.sock.is_closing) [
        | true ↦ recv_outer far fuel u
        | false ↦ finished u
      ])
        ≡ finished t
      → Listens s t × IsOpen t
  turn-Listens fuel s u t turns o loop rest = elim (Bool-cases (empty u.sock.buffer)) [
    | inl none_left ↦
        let test : (empty u.sock.buffer && not u.sock.is_closing) ≡ true =
          rw (none_left, o.unclosed) refl in
        let later =
          subst
            (λ (c : Bool).
              (elim c [ true ↦ recv_outer far fuel u | false ↦ finished u ]) ≡ finished t)
            test rest in
        let (listens, still) = loop u o later in (again turns none_left listens, still)
    | inr some_left ↦
        let test : (empty u.sock.buffer && not u.sock.is_closing) ≡ false = rw some_left refl in
        let stops =
          subst
            (λ (c : Bool).
              (elim c [ true ↦ recv_outer far fuel u | false ↦ finished u ]) ≡ finished t)
            test rest in
        let same : u ≡ t = ap (λ (q : Unit {0} × State). q.1) (ok-injective stops) in
        subst (λ (v : State). Listens s v × IsOpen v) same (hears turns some_left, o)
  ]

  recv_outer-Listens :
      (fuel : ℕ) (s t : State)
      → IsOpen s
      → recv_outer far fuel s ≡ finished t
      → Listens s t × IsOpen t
  unfolding recv_outer
  recv_outer-Listens zero s t o e = absurd (cc)
  recv_outer-Listens (suc fuel) s t o e =
      let (u, run, rest) =
        ok-bind (recv_inner far (suc (length s.world.arrivals)) (restart s))
          (λ r. elim (empty r.1.sock.buffer && not r.1.sock.is_closing) [
            | true ↦ recv_outer far fuel r.1
            | false ↦ finished r.1
          ])
          (tt, t) e in
      let (turns, still) =
        recv_inner-Turns (suc (length s.world.arrivals)) (restart s) u.1
          (record { unclosed = o.unclosed; no_fin = o.no_fin }) run in
      turn-Listens fuel s u.1 t turns still (λ v k f. recv_outer-Listens fuel v t k f) rest

  -- Every run of `recv` that returns, on an open socket that hears no FIN, is a sequence of turns
  -- of the outer loop, each a sequence of the receiver's rounds from sequence number 0 up to the
  -- one that ends it; only behind the last of them is anything to read, and what `recv` returns is
  -- read from it.
  pub recv-Listens :
      (room : ℕ) (r : List ℕ × ℕ) (s t : State)
      → s.sock.is_closing ≡ false
      → All NotFin s.world.arrivals
      → recv far room s ≡ ok (r, t)
      → (u : State) × Listens s u × (u.sock.is_closing ≡ false) × (recv_read far room u ≡ ok (r, t))
  unfolding recv
  recv-Listens room r s t open_ no_fin e =
      let (u, run, rest) =
        ok-bind (recv_outer far (suc (length s.world.arrivals)) s) (λ q. recv_read far room q.1)
          (r, t) e in
      let (listens, still) =
        recv_outer-Listens (suc (length s.world.arrivals)) s u.1
          (record { unclosed = open_; no_fin = no_fin }) run in
      (u.1, listens, still.unclosed, rest)
