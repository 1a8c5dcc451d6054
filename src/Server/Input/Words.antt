-- ===== src/Server/Input/Words.antt =====
-- The words, numbers and names of a written group file, as a2/ServerMain.cc reads them.
use ece.Prelude.{
  ltb, ◌==◌, lt→ltb, ltb→lt, Bool-cases, if-elim, length, All, ℕ, zero, suc, ◌+◌, ◌-◌, ◌*◌, ◌/◌,
  ◌%◌, ◌^◌, ◌≤◌, ◌<◌, ◌≡◌, refl, ap, ◌∙◌, inl, inr, true, false, some, List, [], ◌∷◌, ◌++◌, arith,
}
use ece.Server.Groups.{digits}
use ece.Server.Input.{
  is_space, is_digit, skip_spaces, split_word, nonempty, read_word, read_digits, starts_with_digit,
  read_magnitude, read_signed, read_int, atoi, get_line, same_text, group_word,
}

digit : (n : ℕ) → n < 10 → (is_digit (48 + n) ≡ true) × (is_space (48 + n) ≡ false)
digit n h = (ground arith, ground arith)

pub read_digits-digits :
    (k n : ℕ) (rest : List ℕ) → n < 10 ^ k → read_digits 0 (digits k n rest) ≡ read_digits n rest
unfolding digits read_digits
read_digits-digits zero n rest h = let e : n ≡ 0 = omega arith in rw e refl
read_digits-digits (suc k) n rest h = elim (Bool-cases (ltb n 10)) [
  | inl e ↦
      let d = (digit n (ltb→lt n 10 e)).0 in
      let v : 0 + (48 + n - 48) ≡ n = omega arith in rw (e, d) (ap (λ z. read_digits z rest) v)
  | inr e ↦
      let d = (digit (n % 10) (omega arith)).0 in
      let v : 10 * (n / 10) + (48 + n % 10 - 48) ≡ n = omega arith in
      rw e (
        read_digits-digits k (n / 10) ((48 + n % 10) ∷ rest) (omega arith)
        ∙ rw (read_digits, d) (ap (λ z. read_digits z rest) v))
]

split_word-digits :
    (k n : ℕ) (rest word behind : List ℕ)
    → split_word rest ≡ (word, behind)
    → split_word (digits k n rest) ≡ (digits k n word, behind)
unfolding digits split_word
split_word-digits zero n rest word behind h = h
split_word-digits (suc k) n rest word behind h = elim (Bool-cases (ltb n 10)) [
  | inl e ↦
      let d = (digit n (ltb→lt n 10 e)).1 in
      rw (e, d) (ap (λ (p : List ℕ × List ℕ). ((48 + n) ∷ p.0, p.1)) h)
  | inr e ↦
      let d = (digit (n % 10) (omega arith)).1 in
      let one : split_word ((48 + n % 10) ∷ rest) ≡ ((48 + n % 10) ∷ word, behind) =
        rw (split_word, d) (ap (λ (p : List ℕ × List ℕ). ((48 + n % 10) ∷ p.0, p.1)) h) in
      rw e (split_word-digits k (n / 10) ((48 + n % 10) ∷ rest) ((48 + n % 10) ∷ word) behind one)
]

-- A printed number begins with a digit.
unfoldable pub Begins : List ℕ → Type 0
Begins text = (c : ℕ) × (cs : List ℕ) × (text ≡ c ∷ cs) × (is_digit c ≡ true)

digits-Begins : (k n d : ℕ) (rest : List ℕ) → is_digit d ≡ true → Begins (digits k n (d ∷ rest))
unfolding digits Begins
digits-Begins zero n d rest h = (_, _, refl, h)
digits-Begins (suc k) n d rest h = elim (Bool-cases (ltb n 10)) [
  | inl e ↦ rw e (_, _, refl, (digit n (ltb→lt n 10 e)).0)
  | inr e ↦
      rw e (digits-Begins k (n / 10) (48 + n % 10) (d ∷ rest) (digit (n % 10) (omega arith)).0)
]

pub printed-Begins : (k n : ℕ) (rest : List ℕ) → Begins (digits (suc k) n rest)
unfolding digits Begins
printed-Begins k n rest = elim (Bool-cases (ltb n 10)) [
  | inl e ↦ rw e (_, _, refl, (digit n (ltb→lt n 10 e)).0)
  | inr e ↦ rw e (digits-Begins k (n / 10) (48 + n % 10) rest (digit (n % 10) (omega arith)).0)
]

Begins-skip : (text : List ℕ) → Begins text → skip_spaces text ≡ text
unfolding skip_spaces Begins
Begins-skip text (c, cs, e, d) =
    let no_space : is_space c ≡ false = ground arith in rw e (rw (skip_spaces, no_space) refl)

Begins-nonempty : (text rest : List ℕ) → Begins text → nonempty (text, rest) ≡ some (text, rest)
unfolding Begins
Begins-nonempty text rest (c, cs, e, d) = rw e refl

pub Begins-no_group : (text : List ℕ) → Begins text → same_text text group_word ≡ false
unfolding same_text Begins
Begins-no_group text (c, cs, e, d) =
    let other : (c == 71) ≡ false = ground arith in rw e (rw (same_text, other) refl)

pub Begins-digit : (text : List ℕ) → Begins text → starts_with_digit text ≡ true
unfolding Begins
Begins-digit text (c, cs, e, d) = rw e d

Begins-signless : (text : List ℕ) → Begins text → read_signed text ≡ read_magnitude false text
unfolding Begins
Begins-signless text (c, cs, e, d) =
    let no_minus : (c == 45) ≡ false = ground arith in
    let no_plus : (c == 43) ≡ false = ground arith in rw e (rw (no_minus, no_plus) refl)

pub get_line-name :
    (name rest : List ℕ)
    → All (λ c. (c == 10) ≡ false) name
    → get_line (name ++ (10 ∷ rest)) ≡ (name, rest)
unfolding get_line
get_line-name [] rest h = refl
get_line-name (c ∷ cs) rest h =
    rw (h.0) (ap (λ (p : List ℕ × List ℕ). (c ∷ p.0, p.1)) (get_line-name cs rest h.1))

-- The parts of a student's line, and the number of a group's.
pub read_word-student :
    (n : ℕ) (rest : List ℕ) → read_word (digits 10 n (32 ∷ rest)) ≡ some (digits 10 n [], 32 ∷ rest)
unfolding read_word split_word
read_word-student n rest =
    rw
      (
        read_word,
        Begins-skip (digits 10 n (32 ∷ rest)) (printed-Begins 9 n (32 ∷ rest)),
        split_word-digits 10 n (32 ∷ rest) [] (32 ∷ rest) refl,
      )
      (Begins-nonempty (digits 10 n []) (32 ∷ rest) (printed-Begins 9 n []))

pub atoi-digits : (n : ℕ) → n < 2 ^ 31 → atoi (digits 10 n []) ≡ n
unfolding atoi read_digits
atoi-digits n h = rw (atoi, read_digits-digits 10 n [] (omega arith)) (omega arith)

pub read_int-group :
    (g : ℕ) (rest : List ℕ)
    → g < 2 ^ 31
    → read_int (32 ∷ digits 10 g (10 ∷ rest)) ≡ some (g, 10 ∷ rest)
unfolding read_int skip_spaces read_digits
read_int-group g rest h =
    let text = digits 10 g (10 ∷ rest) in
    let b = printed-Begins 9 g (10 ∷ rest) in
    let small : ltb g (2 ^ 31) ≡ true = lt→ltb g (2 ^ 31) h in
    rw
      (
        Begins-skip text b,
        Begins-signless text b,
        Begins-digit text b,
        read_digits-digits 10 g (10 ∷ rest) (omega arith),
        small,
      )
      refl

pub length-digits : (k n : ℕ) (rest : List ℕ) → length rest ≤ length (digits k n rest)
unfolding digits
length-digits zero n rest = omega arith
length-digits (suc k) n rest =
    let h = length-digits k (n / 10) ((48 + n % 10) ∷ rest) in
    if-elim (λ (r : List ℕ). length rest ≤ length r) (ltb n 10) (λ _. omega arith)
      (λ _. omega arith)
