-- ===== src/Buffer/Refine.antt =====
-- `msg_buffer_t::read` ends and returns what `taken` promises of the stream.
use mathlib.Core.Option.{some-injective}
use ece.Prelude.{
  ltb, ◌==◌, Bool-cases, length, size_mod, ℕ, zero, suc, ◌≤◌, ◌<◌, ◌≡◌, refl, sym, ap, subst, ◌∙◌,
  inl, inr, Bool, true, false, Option, some, List, [], ◌∷◌, append-nil, arith, dec_lt, ℕ_discrete,
}
use ece.Msg.Flags
use ece.Msg.{Msg, has_flag}
use ece.Buffer.{
  MsgBuffer, Reading, Turn, stop, go, visit, turn, read_loop, start, finish, read, empty,
}
use ece.Buffer.Tokens.{Token, view, count, taken, taken-count, taken-le, taken-pos}
use ece.Buffer.Invariant.{IsBuffer}
use ece.Buffer.Promise.{
  IsReading, Stops, Goes, Goes-Stops, todo, promised, measure, at, taken-nil, skip-Goes,
  break-Stops,
}
use ece.Buffer.Copy.{copy-Goes}

-- One turn either ends the loop with all that was promised, or keeps a promise of the rest.
abbrev Outcome : Reading → Turn → Type 0
Outcome s (stop t) = Stops s t
Outcome s (go t) = Goes s t

stays-Stops : (s : Reading) → IsReading s → promised s ≡ ([], todo s) → Stops s s
stays-Stops s v p = record {
  reading = v;
  dest = rw p (sym (append-nil s.dest));
  left = rw p refl;
  written = rw p (omega arith);
}

taken-zero : (ts : List Token) (w : Bool) → taken 0 ts w ≡ ([], ts)
unfolding taken
taken-zero ts w = refl

visit-Outcome :
    (s : Reading) (m : Msg) (ms : List Msg)
    → IsReading (at s (m ∷ ms))
    → 0 < s.remaining
    → Outcome (at s (m ∷ ms)) (visit (at s (m ∷ ms)) m ms)
unfolding visit
visit-Outcome s m ms v more = elim (Bool-cases (has_flag m Flags.eos)) [
  | inl e ↦ elim (ℕ_discrete s.written 0) [
    | yes z ↦
        let test : (s.written == 0) ≡ true = ground arith in
        rw (e, test) (skip-Goes s m ms v more e z)
    | no nz ↦
        let test : (s.written == 0) ≡ false = ground arith in
        rw (e, test) (break-Stops s m ms v more e nz)
  ]
  | inr e ↦ rw e (copy-Goes s m ms v e more)
]

nonempty-Outcome :
    (s : Reading) (queue : List Msg)
    → IsReading (at s queue)
    → 0 < s.remaining
    → Outcome (at s queue) (turn (at s queue))
unfolding turn
nonempty-Outcome s [] v more =
    let z : s.offset ≡ 0 = v.starts in
    let test : ltb 0 s.remaining ≡ true = ground arith in
    rw test (stays-Stops (at s []) v (rw z (taken-nil s.remaining (ltb 0 s.written))))
nonempty-Outcome s (m ∷ ms) v more =
    let test : ltb 0 s.remaining ≡ true = ground arith in rw test (visit-Outcome s m ms v more)

turn-Outcome : (s : Reading) → IsReading s → Outcome s (turn s)
unfolding turn
turn-Outcome s v = elim (dec_lt 0 s.remaining) [
  | yes more ↦ nonempty-Outcome s s.queue v more
  | no none_more ↦
      let z : s.remaining ≡ 0 = omega arith in
      let test : ltb 0 s.remaining ≡ false = ground arith in
      rw test (stays-Stops s v (rw z (taken-zero (todo s) (ltb 0 s.written))))
]

-- The next state of the loop, and what it comes to if the rest of the loop does its part.
abbrev next : (Reading → Option Reading) → Turn → Option Reading
next rest (stop t) = some t
next rest (go t) = rest t

next-Stops :
    (rest : Reading → Option Reading) (s : Reading) (r : Turn)
    → Outcome s r
    → ((t : Reading)
        → IsReading t
        → measure t < measure s
        → (u : Reading) × (rest t ≡ some u) × Stops t u)
    → (u : Reading) × (next rest r ≡ some u) × Stops s u
next-Stops rest s (stop t) o later = (t, refl, o)
next-Stops rest s (go t) o later =
    let (u, e, d) = later t o.reading o.falls in (u, e, Goes-Stops o d)

read_loop-next : (fuel : ℕ) (s : Reading) → read_loop (suc fuel) s ≡ next (read_loop fuel) (turn s)
unfolding read_loop
read_loop-next fuel s = ground arith

-- With more fuel than the measure the loop ends, in a state that has done all that was promised.
read_loop-Stops :
    (fuel : ℕ) (s : Reading)
    → measure s < fuel
    → IsReading s
    → (t : Reading) × (read_loop fuel s ≡ some t) × Stops s t
read_loop-Stops zero s m v = absurd (omega arith)
read_loop-Stops (suc fuel) s m v = rw (read_loop-next fuel s) (
    next-Stops (read_loop fuel) s (turn s) (turn-Outcome s v)
      λ t r f. read_loop-Stops fuel t (omega arith) r)

-- The result of a read that keeps the promise `taken`: the bytes, their number, and a well-formed
-- buffer with what is left.
pub record Reads (b : MsgBuffer) (n : ℕ) (r : List ℕ × ℕ × MsgBuffer) : Type 0 where
  pub bytes : r.0 ≡ (taken n (view b) false).0
  pub number : r.1 ≡ length r.0
  pub left : view r.2 ≡ (taken n (view b) false).1
  pub buffer : IsBuffer r.2

finish-Reads :
    (b : MsgBuffer) (n : ℕ) (t : Reading)
    → IsBuffer b
    → Stops (start b n) t
    → Reads b n (finish b t)
finish-Reads b n t v d = record {
  bytes = d.dest;
  number = rw d.dest (omega (arith, d.written));
  left = d.left;
  buffer = record {
    stored = d.reading.stored;
    starts = d.reading.starts;
    total =
        omega (arith, v.total, v.fits, d.written, ap count d.left, taken-count n (view b) false);
    fits = omega arith;
  };
}

-- A read of a well-formed buffer that is not empty, of a number of bytes that fits `size_t`,
-- returns; it copies exactly the bytes that the stream promises, counts them, and leaves a
-- well-formed buffer with the rest of the stream.
pub read-Reads :
    (b : MsgBuffer) (n : ℕ)
    → IsBuffer b
    → n < size_mod
    → empty b ≡ false
    → (r : List ℕ × ℕ × MsgBuffer) × (read b n ≡ some r) × Reads b n r
unfolding read
read-Reads b n v small full =
    let (t, e, d) =
      read_loop-Stops (suc (suc (length b.queue))) (start b n) (ground arith)
        (record { stored = v.stored; starts = v.starts; fits = omega arith }) in
    (finish b t, rw (full, e) refl, finish-Reads b n t v d)

-- Only a buffer with a byte in it can be read.
read-some_full :
    (b : MsgBuffer) (n : ℕ) {r : List ℕ × ℕ × MsgBuffer}
    → IsBuffer b
    → read b n ≡ some r
    → (empty b ≡ false) × (0 < count (view b))
unfolding read empty
read-some_full b n v e = ground (arith, v.total)

pub read-eq_some :
    (b : MsgBuffer) (n : ℕ) {r : List ℕ × ℕ × MsgBuffer}
    → IsBuffer b
    → n < size_mod
    → read b n ≡ some r
    → Reads b n r
read-eq_some b n {r} v small e =
    let (r', e', d) = read-Reads b n v small (read-some_full b n v e).0 in
    subst (Reads b n) (some-injective r' r (sym e' ∙ e)) d

-- A read of a well-formed buffer into room for at least one byte, if it returns, copies at least
-- one byte and no more than there is room for, and returns that number.
pub read-bounds :
    (b : MsgBuffer) (n : ℕ) {r : List ℕ × ℕ × MsgBuffer}
    → IsBuffer b
    → 0 < n
    → n < size_mod
    → read b n ≡ some r
    → (0 < r.1) × (r.1 ≤ n) × (length r.0 ≡ r.1)
read-bounds b n {r} v pos small e =
    let d = read-eq_some b n v small e in
    let len : length r.0 ≡ length (taken n (view b) false).0 = ap length d.bytes in
    let some_left : 0 < count (view b) = omega (arith, (read-some_full b n v e).1) in
    omega (arith, d.number, taken-le n (view b) false, taken-pos n (view b) pos some_left)
