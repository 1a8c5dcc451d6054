-- ===== src/Buffer/Tokens.antt =====
-- What a buffer promises: a stream of bytes with a mark at the end of each send, of which a read
-- takes up to `n` bytes but no more than the rest of one send.
use ece.Prelude.{
  ltb, if◌then◌else◌, length, take, drop, ℕ, zero, suc, ◌+◌, ◌-◌, ◌≤◌, ◌<◌, ◌≡◌, refl, sym, ap,
  Bool, true, false, ◌||◌, List, [], ◌∷◌, ◌++◌, map, append_assoc, arith,
}
use ece.Msg.Flags
use ece.Msg.{Msg, has_flag}
use ece.Buffer.{MsgBuffer}

pub data Token : Type 0 where
  byte : ℕ → Token
  mark : Token

-- The stream of one message, of a queue, and of a buffer, whose front is partly read.
abbrev pub tokens : Msg → List Token
tokens m = if has_flag m Flags.eos then mark ∷ [] else map byte (take m.length m.payload)

abbrev pub stream : List Msg → List Token
stream [] = []
stream (m ∷ ms) = tokens m ++ stream ms

abbrev pub view : MsgBuffer → List Token
view b = drop b.offset (stream b.queue)

-- The number of bytes in a stream.
abbrev pub count : List Token → ℕ
count [] = 0
count (byte b ∷ ts) = suc (count ts)
count (mark ∷ ts) = count ts

-- `taken n ts w`: the bytes that a read of `n` bytes returns and the stream that it leaves, where
-- `w` says whether it has returned a byte already.
unfoldable pub taken : ℕ → List Token → Bool → List ℕ × List Token
taken zero ts w = ([], ts)
taken (suc n) [] w = ([], [])
taken (suc n) (mark ∷ ts) true = ([], ts)
taken (suc n) (mark ∷ ts) false = taken (suc n) ts false
taken (suc n) (byte b ∷ ts) w = let (bs, rest) = taken n ts true in (b ∷ bs, rest)

pub stream-append : (ms ns : List Msg) → stream (ms ++ ns) ≡ stream ms ++ stream ns
stream-append [] ns = refl
stream-append (m ∷ ms) ns =
    rw (stream-append ms ns) (sym (append_assoc (tokens m) (stream ms) (stream ns)))

pub count-append : (ts us : List Token) → count (ts ++ us) ≡ count ts + count us
count-append [] us = omega arith
count-append (byte b ∷ ts) us = omega (arith, count-append ts us)
count-append (mark ∷ ts) us = count-append ts us

pub count-bytes : (bs : List ℕ) → count (map byte bs) ≡ length bs
count-bytes [] = refl
count-bytes (b ∷ bs) = ap suc (count-bytes bs)

-- A read accounts for every byte: those it returns and those it leaves are those that were there.
pub taken-count :
    (n : ℕ) (ts : List Token) (w : Bool)
    → length (taken n ts w).0 + count (taken n ts w).1 ≡ count ts
unfolding taken
taken-count zero ts w = omega arith
taken-count (suc n) [] w = omega arith
taken-count (suc n) (mark ∷ ts) true = omega arith
taken-count (suc n) (mark ∷ ts) false = taken-count (suc n) ts false
taken-count (suc n) (byte b ∷ ts) w = omega (arith, taken-count n ts true)

pub taken-le : (n : ℕ) (ts : List Token) (w : Bool) → length (taken n ts w).0 ≤ n
unfolding taken
taken-le zero ts w = omega arith
taken-le (suc n) [] w = omega arith
taken-le (suc n) (mark ∷ ts) true = omega arith
taken-le (suc n) (mark ∷ ts) false = taken-le (suc n) ts false
taken-le (suc n) (byte b ∷ ts) w = omega (arith, taken-le n ts true)

-- A read of at least one byte from a stream with a byte in it returns at least one.
pub taken-pos : (n : ℕ) (ts : List Token) → 0 < n → 0 < count ts → 0 < length (taken n ts false).0
unfolding taken
taken-pos zero ts pos some_left = absurd (omega arith)
taken-pos (suc n) [] pos some_left = absurd (omega arith)
taken-pos (suc n) (mark ∷ ts) pos some_left = taken-pos (suc n) ts pos some_left
taken-pos (suc n) (byte b ∷ ts) pos some_left = omega arith

-- Reading `c` bytes of a run of bytes, then the rest.
pub taken-advance :
    (c n : ℕ) (bs : List ℕ) (ts : List Token) (w : Bool)
    → c ≤ n
    → c ≤ length bs
    → let r = taken (n - c) (map byte (drop c bs) ++ ts) (w || ltb 0 c) in
      taken n (map byte bs ++ ts) w ≡ (take c bs ++ r.0, r.1)
unfolding taken
taken-advance zero n bs ts w h k =
    let e : n - 0 ≡ n = omega arith in let f : (w || false) ≡ w = ground arith in rw (e, f) refl
taken-advance (suc c) zero bs ts w h k = absurd (omega arith)
taken-advance (suc c) (suc n) [] ts w h k = absurd (omega arith)
taken-advance (suc c) (suc n) (b ∷ bs) ts w h k =
    let e : suc n - suc c ≡ n - c = omega arith in
    let f : (w || ltb 0 (suc c)) ≡ true = ground arith in
    rw (e, f)
      (ap {A = List ℕ × List Token} {B = List ℕ × List Token} (λ r. (b ∷ r.0, r.1))
        (taken-advance c n bs ts true (omega arith) (omega arith)))
