-- ===== src/Protocol/Acking.antt =====
-- a4/rcs_t.cc: the loop of `acksend` is a sequence of the sender's rounds.
use ece.Prelude.{
  length, All, ℕ, zero, suc, ◌≤◌, ◌≡◌, refl, ap, subst, ◌∙◌, Bool, true, false, ◌||◌, List, [], ◌∷◌,
}
use ece.Msg.{Msg}
use ece.Net.{Os, Packet}
use ece.Net.Logged.{Carried}
use ece.Msg.Wire.{wire}
use ece.Socket.Monad.{State, Run, ok, blocked, aborted, out_of_fuel, bind}
use ece.Socket.Sender.{ack_round, ack_loop, acksend}
use ece.Socket.Quiet.{Core, core}
use ece.Socket.Sending.{rounds}
use ece.Protocol.Kept.{NotFin, Ends-ok, ack_round-Kept}
use ece.Protocol.Steps.{Move, waits}

-- Moves of a sender, one after another.
pub data Moves (near : Os) (bytes : List ℕ) : ℕ → Msg → State → ℕ → Msg → State → Type 0 where
  done : {i : ℕ} {m : Msg} {s : State} → Moves near bytes i m s i m s
  move :
      {i j k : ℕ} {m x z : Msg} {s t u : State}
      → Move near bytes i m s j x t
      → Moves near bytes j x t k z u
      → Moves near bytes i m s k z u

pub Moves-trans :
    {near : Os} {bytes : List ℕ} {i j k : ℕ} {m x z : Msg} {s t u : State}
    → Moves near bytes i m s j x t
    → Moves near bytes j x t k z u
    → Moves near bytes i m s k z u
Moves-trans done n = n
Moves-trans (move a l) n = move a (Moves-trans l n)

-- A run that returned is one that returned and what followed.
pub ok-bind :
    {A B : Type 0} (r : Run A) (f : A → Run B) (b : B)
    → bind r f ≡ ok b
    → (a : A) × (r ≡ ok a) × (f a ≡ ok b)
ok-bind (ok a) f b e = (a, refl, e)
ok-bind blocked f b e = absurd (cc)
ok-bind aborted f b e = absurd (cc)
ok-bind out_of_fuel f b e = absurd (cc)

abbrev returned : {A : Type 0} → A → Run A → A
returned d (ok a) = a
returned d blocked = d
returned d aborted = d
returned d out_of_fuel = d

pub ok-injective : {A : Type 0} {a b : A} → ok a ≡ ok b → a ≡ b
ok-injective {A} {a} e = ap (returned a) e

pub bind_assoc :
    {A B C : Type 0} (r : Run A) (f : A → Run B) (g : B → Run C)
    → bind (bind r f) g ≡ bind r (λ a. bind (f a) g)
bind_assoc (ok a) f g = refl
bind_assoc blocked f g = refl
bind_assoc aborted f g = refl
bind_assoc out_of_fuel f g = refl

-- A run with no value that returned.
abbrev pub finished : State → Run (Unit {0} × State)
finished t = ok (tt, t)

-- An open socket that hears no FIN.
pub record IsOpen (s : State) : Type 0 where
  pub unclosed : s.sock.is_closing ≡ false
  pub no_fin : All NotFin s.world.arrivals

module _ (near : Os) (bytes : List ℕ) where
  pub any-Carried : (b : List ℕ) → Carried near (λ _. Unit) b
  any-Carried b = record { whole = tt; cut = λ n h. tt; noise = λ n w. tt }

  pub any_log : (log : List Packet) → All (λ (p : Packet). Unit {0}) log
  any_log [] = tt
  any_log (p ∷ log) = (tt, any_log log)

  ack_round-IsOpen :
      (m : Msg) {s t : State} {b : Bool}
      → IsOpen s
      → ack_round near m s ≡ ok (b, t)
      → IsOpen t × (t.sock.send_seqnum ≡ s.sock.send_seqnum)
  ack_round-IsOpen m {s} {t} {b} o e =
      let k =
        Ends-ok _
          (ack_round-Kept near (λ _. Unit) (core s.sock) m s (any-Carried (wire m))
            (record { core_eq = refl; log = any_log s.world.sent; calm = o.no_fin }))
          e in
      (
        record {
          unclosed = ap (λ (c : Core). c.is_closing) k.core_eq ∙ o.unclosed;
          no_fin = k.calm;
        },
        ap (λ (c : Core). c.send_seqnum) k.core_eq,
      )

  -- The loop of `acksend` on message `i`: the rounds up to the last, and that.
  pub record Acked (i : ℕ) (m : Msg) (s t : State) : Type 0 where
    pub before : State
    pub rounds_run : Moves near bytes i m s i m before
    pub last_round : ack_round near m before ≡ ok (true, t)
    pub open_still : IsOpen t
    pub same_number : t.sock.send_seqnum ≡ s.sock.send_seqnum

  -- What follows a round, if the rest of the loop is known.
  round-Acked :
      (fuel : ℕ) {i : ℕ} {m : Msg} {s t : State} (b : Bool) (u : State)
      → i ≤ rounds (length bytes)
      → IsOpen s
      → ((v : State) → IsOpen v → ack_loop near fuel m v ≡ ok (tt, t) → Acked i m v t)
      → ack_round near m s ≡ ok (b, u)
      → (elim (b || u.sock.is_closing) [ true ↦ ok (tt, u) | false ↦ ack_loop near fuel m u ])
        ≡ ok (tt, t)
      → Acked i m s t
  round-Acked fuel {i} {m} {s} {t} true u le o loop run rest =
      let same : u ≡ t = ap (λ (r : Unit {0} × State). r.1) (ok-injective rest) in
      let (still, number) = ack_round-IsOpen m o run in
      subst (Acked i m s) same (record {
        before = s;
        rounds_run = done;
        last_round = run;
        open_still = still;
        same_number = number;
      })
  round-Acked fuel {i} {m} {s} {t} false u le o loop run rest =
      let (still, number) = ack_round-IsOpen m o run in
      let later : ack_loop near fuel m u ≡ ok (tt, t) =
        subst
          (λ (c : Bool).
            (elim c [ true ↦ ok (tt, u) | false ↦ ack_loop near fuel m u ]) ≡ ok (tt, t))
          still.unclosed rest in
      let a = loop u still later in
      record {
        before = a.before;
        rounds_run = move (waits le run) a.rounds_run;
        last_round = a.last_round;
        open_still = a.open_still;
        same_number = a.same_number ∙ number;
      }

  ack_loop-Acked :
      (fuel : ℕ) {i : ℕ} (m : Msg) {s t : State}
      → i ≤ rounds (length bytes)
      → IsOpen s
      → ack_loop near fuel m s ≡ ok (tt, t)
      → Acked i m s t
  unfolding ack_loop
  ack_loop-Acked zero m le o e = absurd (cc)
  ack_loop-Acked (suc fuel) m {s} {t} le o e =
      let (a, run, rest) =
        ok-bind (ack_round near m s)
          (λ r. elim (r.0 || r.1.sock.is_closing) [
            | true ↦ ok (tt, r.1)
            | false ↦ ack_loop near fuel m r.1
          ])
          (tt, t) e in
      round-Acked fuel (a.0) (a.1) le o (λ v open_v later. ack_loop-Acked fuel m le open_v later)
        run rest

  pub acksend-Acked :
      {i : ℕ} (m : Msg) {r : Msg} {s t : State}
      → i ≤ rounds (length bytes)
      → IsOpen s
      → acksend near m s ≡ ok (r, t)
      → Acked i m s t
  unfolding acksend
  acksend-Acked {i} m {r} {s} {t} le o e =
      let (a, run, rest) = ok-bind (ack_loop near (suc (length s.world.arrivals)) m s) _ (r, t) e in
      let same : a.1 ≡ t = ap (λ (q : Msg × State). q.1) (ok-injective rest) in
      subst (Acked i m s) same (ack_loop-Acked (suc (length s.world.arrivals)) m le o run)
