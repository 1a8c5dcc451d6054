-- ===== src/Server/Input/Loading.antt =====
-- That the loop of a2/ServerMain.cc reads every group file, and what it makes of a printed one.
use ece.Prelude.{
  ltb, leb, ◌==◌, Option-cases, if-elim, length, ℕ, zero, suc, ◌+◌, ◌-◌, ◌*◌, ◌^◌, ◌≤◌, ◌<◌, ◌≡◌,
  refl, sym, subst, inl, inr, Bool, true, false, not, Option, none, some, List, [], ◌∷◌, arith,
}
use ece.Server.Groups.{Groups}
use ece.Server.Input.{
  is_space, is_digit, skip_spaces, split_word, nonempty, read_word, read_digits, starts_with_digit,
  read_magnitude, read_signed, read_int, get_line, same_text, group_word, Loaded, loaded, exits,
  out_of_fuel, load_from, load,
}

skip_spaces-shrinks : (input : List ℕ) → length (skip_spaces input) ≤ length input
unfolding skip_spaces
skip_spaces-shrinks [] = omega arith
skip_spaces-shrinks (c ∷ cs) =
    let h = skip_spaces-shrinks cs in
    if-elim (λ (r : List ℕ). length r ≤ suc (length cs)) (is_space c) (λ _. omega arith)
      (λ _. omega arith)

split_word-length :
    (input : List ℕ) → length (split_word input).0 + length (split_word input).1 ≡ length input
unfolding split_word
split_word-length [] = refl
split_word-length (c ∷ cs) =
    let h = split_word-length cs in
    if-elim (λ (r : List ℕ × List ℕ). length r.0 + length r.1 ≡ suc (length cs)) (is_space c)
      (λ _. omega arith) (λ _. omega arith)

nonempty-shrinks :
    (p : List ℕ × List ℕ) (word rest : List ℕ)
    → nonempty p ≡ some (word, rest)
    → length rest + 1 ≤ length p.0 + length p.1
nonempty-shrinks ([], r) word rest e = absurd (cc)
nonempty-shrinks (c ∷ cs, r) word rest e = let same : r ≡ rest = cc in rw (sym same) (omega arith)

-- `in >> command` takes at least one character.
read_word-shrinks :
    (input word rest : List ℕ) → read_word input ≡ some (word, rest) → length rest < length input
unfolding read_word
read_word-shrinks input word rest e =
    let h = nonempty-shrinks (split_word (skip_spaces input)) word rest e in
    let k = split_word-length (skip_spaces input) in
    let l = skip_spaces-shrinks input in omega arith

read_digits-shrinks : (v : ℕ) (input : List ℕ) → length (read_digits v input).1 ≤ length input
unfolding read_digits
read_digits-shrinks v [] = omega arith
read_digits-shrinks v (c ∷ cs) =
    let h = read_digits-shrinks (10 * v + (c - 48)) cs in
    if-elim (λ (r : ℕ × List ℕ). length r.1 ≤ suc (length cs)) (is_digit c) (λ _. omega arith)
      (λ _. omega arith)

get_line-shrinks : (input : List ℕ) → length (get_line input).1 ≤ length input
unfolding get_line
get_line-shrinks [] = omega arith
get_line-shrinks (c ∷ cs) =
    let h = get_line-shrinks cs in
    if-elim (λ (r : List ℕ × List ℕ). length r.1 ≤ suc (length cs)) (c == 10) (λ _. omega arith)
      (λ _. omega arith)

-- A read number leaves no more input than there was.
abbrev Shrinks : List ℕ → Option (ℕ × List ℕ) → Type 0
Shrinks input none = Unit
Shrinks input (some r) = length r.1 ≤ length input

read_magnitude-Shrinks :
    (minus : Bool) (input : List ℕ) → Shrinks input (read_magnitude minus input)
read_magnitude-Shrinks minus input =
    let h = read_digits-shrinks 0 input in
    if-elim (Shrinks input) (not (starts_with_digit input)) (λ _. tt)
      λ _.
        if-elim (Shrinks input) minus
          (λ _. if-elim (Shrinks input) (leb (read_digits 0 input).0 (2 ^ 31)) (λ _. h) (λ _. tt))
          (λ _. if-elim (Shrinks input) (ltb (read_digits 0 input).0 (2 ^ 31)) (λ _. h) (λ _. tt))

Shrinks-mono :
    (a b : List ℕ) (r : Option (ℕ × List ℕ)) → length a ≤ length b → Shrinks a r → Shrinks b r
Shrinks-mono a b none h k = tt
Shrinks-mono a b (some r) h k = omega arith

read_signed-Shrinks : (input : List ℕ) → Shrinks input (read_signed input)
read_signed-Shrinks [] = tt
read_signed-Shrinks (c ∷ cs) =
    let behind : (minus : Bool) → Shrinks (c ∷ cs) (read_magnitude minus cs) =
      λ minus. Shrinks-mono cs (c ∷ cs) _ (omega arith) (read_magnitude-Shrinks minus cs) in
    if-elim (Shrinks (c ∷ cs)) (c == 45) (λ _. behind true)
      λ _.
        if-elim (Shrinks (c ∷ cs)) (c == 43) (λ _. behind false)
          (λ _. read_magnitude-Shrinks false (c ∷ cs))

read_int-Shrinks : (input : List ℕ) → Shrinks input (read_int input)
unfolding read_int
read_int-Shrinks input =
    Shrinks-mono (skip_spaces input) input _ (skip_spaces-shrinks input)
      (read_signed-Shrinks (skip_spaces input))

-- The loop has not run out of fuel.
abbrev pub Finished : Loaded → Type 0
Finished (loaded g) = Unit
Finished (exits n) = Unit
Finished out_of_fuel = ⊥

load_from-Finished :
    (n : ℕ) (input : List ℕ) (group : Option ℕ) (groups : Groups)
    → length input < n
    → Finished (load_from n input group groups)
unfolding load_from
load_from-Finished zero input group groups h = absurd (omega arith)
load_from-Finished (suc n) input group groups h = elim (Option-cases (read_word input)) [
  | inl e ↦ rw (load_from, e) tt
  | inr ((word, rest), e) ↦
      let k = read_word-shrinks input word rest e in
      rw (load_from, e)
        (if-elim Finished (same_text word group_word)
          (λ _. elim (Option-cases (read_int rest)) [
            | inl f ↦ rw f tt
            | inr ((g, rest'), f) ↦
                let l : length rest' ≤ length rest =
                  subst (Shrinks rest) f (read_int-Shrinks rest) in
                rw f (load_from-Finished n rest' (some g) groups (omega arith))
          ])
          (λ _.
            if-elim Finished (starts_with_digit word)
              (λ _. elim (Option-cases group) [
                | inl f ↦ rw f tt
                | inr (g, f) ↦
                    let l = get_line-shrinks rest in
                    rw f (load_from-Finished n (get_line rest).1 (some g) _ (omega arith))
              ])
              (λ _. tt)))
]

-- The loop ends on every input: with the groups that the server runs with, or with an exit code.
pub load-Finished : (input : List ℕ) → Finished (load input)
unfolding load
load-Finished input = load_from-Finished (suc (length input)) input none [] (omega arith)
