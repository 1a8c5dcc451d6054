-- ===== src/Buffer/Promise.antt =====
-- What the loop of `msg_buffer_t::read` still owes at each turn, and its turns at the end of a
-- send.
use ece.Prelude.{
  ltb, if◌then◌else◌, length, drop, All, length-append, size_mod, ℕ, zero, suc, ◌+◌, ◌<◌, ◌≡◌, refl,
  sym, ◌≢◌, inl, inr, Bool, true, false, List, [], ◌∷◌, ◌++◌, append-nil, append_assoc, arith,
}
use ece.Msg.Flags
use ece.Msg.{Msg, has_flag}
use ece.Buffer.{Reading}
use ece.Buffer.Tokens.{Token, mark, stream, taken}
use ece.Buffer.Invariant.{IsStored, StartsIn}

-- The loop's variables: as for a buffer, and the counters do not wrap.
pub record IsReading (s : Reading) : Type 0 where
  pub stored : All IsStored s.queue
  pub starts : StartsIn s.offset s.queue
  pub fits : s.written + s.remaining < size_mod

abbrev pub todo : Reading → List Token
todo s = drop s.offset (stream s.queue)

abbrev pub promised : Reading → List ℕ × List Token
promised s = taken s.remaining (todo s) (ltb 0 s.written)

-- It falls with every turn that goes on.
abbrev pub measure : Reading → ℕ
measure s = length s.queue + (if ltb 0 s.remaining then 1 else 0)

-- A state in which the loop has done what was promised at `s`.
pub record Stops (s t : Reading) : Type 0 where
  pub reading : IsReading t
  pub dest : t.dest ≡ s.dest ++ (promised s).0
  pub left : todo t ≡ (promised s).1
  pub written : t.written ≡ s.written + length (promised s).0

-- A state that has done a part of it, and promises the rest.
pub record Goes (s t : Reading) : Type 0 where
  pub reading : IsReading t
  pub falls : measure t < measure s
  pub chunk : List ℕ
  pub dest : t.dest ≡ s.dest ++ chunk
  pub written : t.written ≡ s.written + length chunk
  pub promise : promised s ≡ (chunk ++ (promised t).0, (promised t).1)

pub Goes-Stops : {s t u : Reading} → Goes s t → Stops t u → Stops s u
Goes-Stops {s} {t} {u} g e = record {
  reading = e.reading;
  dest = rw (e.dest, g.dest, g.promise) (append_assoc s.dest g.chunk (promised t).0);
  left = rw g.promise e.left;
  written =
      rw g.promise (omega (arith, e.written, g.written, length-append g.chunk (promised t).0));
}

taken-mark_skip : (n : ℕ) (ts : List Token) → 0 < n → taken n (mark ∷ ts) false ≡ taken n ts false
unfolding taken
taken-mark_skip zero ts h = absurd (omega arith)
taken-mark_skip (suc n) ts h = refl

taken-mark_stop : (n : ℕ) (ts : List Token) → 0 < n → taken n (mark ∷ ts) true ≡ ([], ts)
unfolding taken
taken-mark_stop zero ts h = absurd (omega arith)
taken-mark_stop (suc n) ts h = refl

pub taken-nil : (n : ℕ) (w : Bool) → taken n [] w ≡ ([], [])
unfolding taken
taken-nil zero w = refl
taken-nil (suc n) w = refl

pub StartsIn-zero : (ms : List Msg) → StartsIn 0 ms
StartsIn-zero [] = refl
StartsIn-zero (m ∷ ms) = inl refl

-- A mark at the front is only there with nothing of the front read.
offset_at_mark :
    (s : Reading) (m : Msg) (ms : List Msg)
    → has_flag m Flags.eos ≡ true
    → StartsIn s.offset (m ∷ ms)
    → s.offset ≡ 0
offset_at_mark s m ms e (inl z) = z
offset_at_mark s m ms e (inr (d, lt)) = cc

-- `Reading` with its queue named.
abbrev pub at : Reading → List Msg → Reading
at s queue = record s { queue = queue }

module _ (s : Reading) (m : Msg) (ms : List Msg) (v : IsReading (at s (m ∷ ms)))
    (more : 0 < s.remaining) where
  pub skip-Goes : has_flag m Flags.eos ≡ true → s.written ≡ 0 → Goes (at s (m ∷ ms)) (at s ms)
  skip-Goes e none_yet =
      let z : s.offset ≡ 0 = offset_at_mark s m ms e v.starts in
      record {
        reading = record { stored = v.stored.1; starts = rw z (StartsIn-zero ms); fits = v.fits };
        falls = omega arith;
        chunk = [];
        dest = sym (append-nil s.dest);
        written = omega arith;
        promise = rw (z, e, none_yet) (taken-mark_skip s.remaining (stream ms) more);
      }

  pub break-Stops : has_flag m Flags.eos ≡ true → s.written ≢ 0 → Stops (at s (m ∷ ms)) (at s ms)
  break-Stops e some_yet =
      let z : s.offset ≡ 0 = offset_at_mark s m ms e v.starts in
      let w : ltb 0 s.written ≡ true = ground arith in
      let p : promised (at s (m ∷ ms)) ≡ ([], stream ms) =
        rw (z, e, w) (taken-mark_stop s.remaining (stream ms) more) in
      record {
        reading = record { stored = v.stored.1; starts = rw z (StartsIn-zero ms); fits = v.fits };
        dest = rw p (sym (append-nil s.dest));
        left = rw (p, z) refl;
        written = rw p (omega arith);
      }
