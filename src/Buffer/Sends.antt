-- ===== src/Buffer/Sends.antt =====
-- `msg_buffer_t::read` and the sends of the peer: a read stays within one send, and the reads that
-- follow get the rest of it.
use ece.Prelude.{
  ltb, if◌then◌else◌, length, take, drop, length-take, take_all, drop_all, size_mod, ℕ, zero, suc,
  ◌+◌, ◌-◌, ◌<◌, min, ◌≡◌, refl, ap, ◌∙◌, Bool, true, false, some, List, [], ◌∷◌, ◌++◌, map,
  append-nil, arith, dec_lt,
}
use ece.Buffer.{MsgBuffer, read, empty}
use ece.Buffer.Tokens.{
  Token, byte, mark, view, count, taken, taken-advance, count-append, count-bytes,
}
use ece.Buffer.Invariant.{IsBuffer}
use ece.Buffer.Refine.{read-Reads}

taken-zero : (ts : List Token) (w : Bool) → taken 0 ts w ≡ ([], ts)
unfolding taken
taken-zero ts w = refl

taken-at_mark : (n : ℕ) (ts : List Token) → 0 < n → taken n (mark ∷ ts) true ≡ ([], ts)
unfolding taken
taken-at_mark zero ts h = absurd (omega arith)
taken-at_mark (suc n) ts h = refl

-- What is left of a send of `xs` after a read of `n` bytes: its mark goes with a read that has
-- room for more than the send.
abbrev pub rest_of_send : ℕ → List ℕ → List Token → List Token
rest_of_send n xs ts = if ltb (length xs) n then ts else map byte (drop n xs) ++ (mark ∷ ts)

taken-send :
    (n : ℕ) (xs : List ℕ) (ts : List Token)
    → 0 < length xs
    → taken n (map byte xs ++ (mark ∷ ts)) false ≡ (take n xs, rest_of_send n xs ts)
taken-send n xs ts pos = elim (dec_lt (length xs) n) [
  | yes room ↦
      let all_read : drop (length xs) xs ≡ [] = drop_all (length xs) xs (omega arith) in
      let w : ltb 0 (length xs) ≡ true = ground arith in
      let test : ltb (length xs) n ≡ true = ground arith in
      rw
        (
          taken-advance (length xs) n xs (mark ∷ ts) false (omega arith) (omega arith),
          all_read,
          w,
          taken-at_mark (n - length xs) ts (omega arith),
          test,
          take_all (length xs) xs (omega arith),
          take_all n xs (omega arith),
          append-nil xs,
        )
        refl
  | no tight ↦
      let none_more : n - n ≡ 0 = omega arith in
      let test : ltb (length xs) n ≡ false = ground arith in
      rw
        (
          taken-advance n n xs (mark ∷ ts) false (omega arith) (omega arith),
          none_more,
          taken-zero (map byte (drop n xs) ++ (mark ∷ ts)) (ltb 0 n),
          append-nil (take n xs),
          test,
        )
        refl
]

pub full_at_send :
    (b : MsgBuffer) (xs : List ℕ) (ts : List Token)
    → IsBuffer b
    → view b ≡ map byte xs ++ (mark ∷ ts)
    → 0 < length xs
    → empty b ≡ false
unfolding empty
full_at_send b xs ts v e pos =
    let bytes : count (view b) ≡ length xs + count (mark ∷ ts) =
      ap count e
      ∙ count-append (map byte xs) (mark ∷ ts)
      ∙ ap (λ k. k + count (mark ∷ ts)) (count-bytes xs) in
    ground (arith, bytes, v.total)

-- A read, of a number of bytes that fits `size_t`, from a well-formed buffer that begins with a
-- send of at least one byte returns the first `n` bytes of that send, or all of it, and leaves the
-- rest; what follows the send stays as it is.
pub read-send :
    (b : MsgBuffer) (n : ℕ) (xs : List ℕ) (ts : List Token)
    → IsBuffer b
    → n < size_mod
    → view b ≡ map byte xs ++ (mark ∷ ts)
    → 0 < length xs
    → (r : List ℕ × ℕ × MsgBuffer) × (read b n ≡ some r)
      × (r.0 ≡ take n xs)
      × (r.1 ≡ min n (length xs))
      × (view r.2 ≡ rest_of_send n xs ts)
read-send b n xs ts v small e pos =
    let (r, ok, d) = read-Reads b n v small (full_at_send b xs ts v e pos) in
    let t = taken-send n xs ts pos in
    let bytes : r.0 ≡ take n xs = d.bytes ∙ rw (e, t) refl in
    let number : r.1 ≡ min n (length xs) = d.number ∙ ap length bytes ∙ length-take n xs in
    (r, ok, bytes, number, d.left ∙ rw (e, t) refl)
