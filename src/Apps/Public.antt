-- ===== src/Apps/Public.antt =====
-- a4/rcsapp-server.c, `getPublicIPAddr`.
use mathlib.Core.Option.{some-injective}
use ece.Prelude.{
  ltb, ◌==◌, if◌then◌else◌, Bool-cases, Option-cases, All, ℕ, zero, suc, ◌+◌, ◌/◌, ◌%◌, ◌^◌, ◌<◌,
  ◌≡◌, refl, sym, ap, subst, ◌∙◌, ◌≢◌, ◌⊎◌, inl, inr, Bool, true, false, not, ◌&&◌, none, some,
  List, [], ◌∷◌, ◌++◌, append_assoc, arith,
}
use ece.Net.{Addr}
use ece.Server.Groups.{print_int, digits}
use ece.Server.Input.{read_digits}
use ece.Server.Input.Words.{read_digits-digits}
use ece.Server.Listen.{Interface, af_inet, inet_ntoa}

-- `sscanf(as, "%d", &apart)` on the text of an address.
unfoldable pub first_number : ℕ → ℕ
first_number ip = (read_digits 0 (inet_ntoa ip)).0

abbrev pub is_public : Addr → Bool
is_public a = (a.family == af_inet) && (ltb 0 (first_number a.ip) && not (first_number a.ip == 127))

-- The loop over the interfaces; 0 is that none was found. The flags are not looked at.
unfoldable pub public_ip : List Interface → ℕ
public_ip [] = 0
public_ip (i ∷ rest) =
    let later = public_ip rest in
    elim i.address [ none ↦ later | some a ↦ if is_public a then a.ip else later ]

digits-append : (k n : ℕ) (rest more : List ℕ) → digits k n (rest ++ more) ≡ digits k n rest ++ more
unfolding digits
digits-append zero n rest more = refl
digits-append (suc k) n rest more = elim (Bool-cases (ltb n 10)) [
  | inl e ↦ rw e refl
  | inr e ↦ rw e (digits-append k (n / 10) ((48 + n % 10) ∷ rest) more)
]

print_small : (n : ℕ) → n < 256 → print_int n ≡ digits 10 n []
unfolding print_int
print_small n h = let small : ltb n (2 ^ 31) ≡ true = ground arith in rw (print_int, small) refl

-- The text of an address begins with its first byte and a dot.
inet_ntoa-eq : (ip : ℕ) → (tail : List ℕ) × (inet_ntoa ip ≡ print_int (ip % 256) ++ (46 ∷ tail))
unfolding inet_ntoa
inet_ntoa-eq ip =
    let a = print_int (ip % 256) in
    let b = 46 ∷ print_int (ip / 256 % 256) in
    let c = 46 ∷ print_int (ip / 65536 % 256) in
    let d = 46 ∷ print_int (ip / 16777216 % 256) in
    (_, append_assoc (a ++ b) c d ∙ append_assoc a b (c ++ d))

-- The number that `sscanf` reads is the first byte of the address.
first_number-eq : (ip : ℕ) → first_number ip ≡ ip % 256
unfolding first_number read_digits
first_number-eq ip =
    let n = ip % 256 in
    let (tail, e) = inet_ntoa-eq ip in
    ap (λ (t : List ℕ). (read_digits 0 t).0)
      (e
        ∙ ap (λ (d : List ℕ). d ++ (46 ∷ tail)) (print_small n (omega arith))
        ∙ sym (digits-append 10 n [] (46 ∷ tail)))
    ∙ ap (λ (r : ℕ × List ℕ). r.0) (read_digits-digits 10 n (46 ∷ tail) (omega arith))

-- An interface with an IPv4 address whose first byte is neither 0 nor 127.
abbrev pub IsPublic : Interface → ℕ → Type 0
IsPublic i ip =
    (a : Addr) × (i.address ≡ some a)
    × (a.family ≡ af_inet)
    × (a.ip ≡ ip)
    × (ip % 256 ≢ 0)
    × (ip % 256 ≢ 127)

-- What `getPublicIPAddr` returns: the address of the first such interface, or 0 if there is none.
abbrev pub First : List Interface → ℕ → Type 0
First interfaces ip =
    ((ip ≡ 0) × All (λ (i : Interface). (b : ℕ) → ¬ IsPublic i b) interfaces)
    ⊎ ((before : List Interface) × (after : List Interface) × (i : Interface) × (interfaces
          ≡ before ++ (i ∷ after))
        × All (λ (j : Interface). (b : ℕ) → ¬ IsPublic j b) before
        × IsPublic i ip)

is_public-cases :
    (a : Addr)
    → ((is_public a ≡ true) × (a.family ≡ af_inet) × (a.ip % 256 ≢ 0) × (a.ip % 256 ≢ 127))
      ⊎ ((is_public a ≡ false) × ¬ ((a.family ≡ af_inet) × (a.ip % 256 ≢ 0) × (a.ip % 256 ≢ 127)))
is_public-cases a = elim (Bool-cases (is_public a)) [
  | inl e ↦ inl (
    e,
    ground (arith, first_number-eq a.ip),
    ground (arith, first_number-eq a.ip),
    ground (arith, first_number-eq a.ip),
  )
  | inr e ↦ inr (e, λ h. ground (arith, first_number-eq a.ip))
]

First-behind :
    (i : Interface) (rest : List Interface) (ip : ℕ)
    → ((b : ℕ) → ¬ IsPublic i b)
    → First rest ip
    → First (i ∷ rest) ip
First-behind i rest ip not_i (inl (e, none_is)) = inl (e, (not_i, none_is))
First-behind i rest ip not_i (inr (before, after, j, e, others, h)) =
    inr (i ∷ before, after, j, ap (◌∷◌ i) e, (not_i, others), h)

-- `getPublicIPAddr` returns the address of the first interface with an IPv4 address whose first
-- byte is neither 0 nor 127, whatever its flags are, or 0 if there is none; interfaces with no
-- address are passed over.
pub public_ip-First : (interfaces : List Interface) → First interfaces (public_ip interfaces)
unfolding public_ip
public_ip-First [] = inl (refl, tt)
public_ip-First (i ∷ rest) = elim (Option-cases i.address) [
  | inl e ↦
      let passed : public_ip (i ∷ rest) ≡ public_ip rest = rw e refl in
      subst (First (i ∷ rest)) (sym passed)
        (First-behind i rest (public_ip rest) (λ b h. absurd (cc)) (public_ip-First rest))
  | inr (a, e) ↦ elim (is_public-cases a) [
    | inl (t, family, not_zero, not_loop) ↦
        let stopped : public_ip (i ∷ rest) ≡ a.ip = rw (e, t) refl in
        subst (First (i ∷ rest)) (sym stopped)
          (inr ([], rest, i, refl, tt, (a, e, family, refl, not_zero, not_loop)))
    | inr (f, no_public) ↦
        let passed : public_ip (i ∷ rest) ≡ public_ip rest = rw (e, f) refl in
        subst (First (i ∷ rest)) (sym passed) (
          First-behind i rest (public_ip rest)
            (λ b (c, at, family, ip, not_zero, not_loop).
              let same : c ≡ a = some-injective c a (sym at ∙ e) in
              let byte_of : a.ip % 256 ≡ b % 256 = rw (← same, ip) refl in
              no_public (rw (← same) family, rw byte_of not_zero, rw byte_of not_loop))
            (public_ip-First rest))
  ]
]
