-- ===== src/Server/Groups.antt =====
-- a2/Server.cc, `add_student` and `get`: the students' names by group and number. An `int` key is
-- the number that its 32 bits are, which is what a request holds.
use ece.Prelude.{
  ltb, ◌==◌, if◌then◌else◌, ltb→lt, Bool-cases, u32_mod, ℕ, zero, suc, ◌+◌, ◌-◌, ◌*◌, ◌/◌, ◌%◌, ◌^◌,
  ◌≤◌, ◌<◌, ◌≡◌, refl, ap, ◌∙◌, inl, inr, ◌&&◌, Option, none, some, List, [], ◌∷◌, ◌++◌, arith,
}

-- A `std::map` with `int` keys: the newest entry of a key is the one that counts.
abbrev pub IntMap {ℓ} : Type ℓ → Type ℓ
IntMap A = List (ℕ × A)

unfoldable pub lookup {ℓ} : {A : Type ℓ} → ℕ → IntMap A → Option A
lookup k [] = none
lookup k ((j, a) ∷ m) = if j == k then some a else lookup k m

unfoldable pub insert {ℓ} : {A : Type ℓ} → ℕ → A → IntMap A → IntMap A
insert k a [] = (k, a) ∷ []
insert k a ((j, b) ∷ m) = if j == k then (j, a) ∷ m else (j, b) ∷ insert k a m

pub lookup-insert {ℓ} :
    {A : Type ℓ} (k j : ℕ) (a : A) (m : IntMap A)
    → lookup j (insert k a m) ≡ (if k == j then some a else lookup j m)
unfolding lookup insert
lookup-insert k j a [] = refl
lookup-insert k j a ((i, b) ∷ m) = ground (arith, lookup-insert k j a m)

abbrev pub Groups : Type 0
Groups = IntMap (IntMap (List ℕ))

-- `groups_[group_id]`, which makes the group if it is not there.
abbrev pub group_of : ℕ → Groups → IntMap (List ℕ)
group_of g m = elim (lookup g m) [ none ↦ [] | some students ↦ students ]

-- `Server::add_student`
unfoldable pub add_student : ℕ → ℕ → List ℕ → Groups → Groups
add_student g n name m = insert g (insert n name (group_of g m)) m

-- The name of a student of a group.
unfoldable pub name_of : ℕ → ℕ → Groups → Option (List ℕ)
name_of g n m = elim (lookup g m) [ none ↦ none | some students ↦ lookup n students ]

-- The decimal digits of a number, as `operator<<` and `sprintf` print it, on enough fuel.
unfoldable pub digits : ℕ → ℕ → List ℕ → List ℕ
digits zero n rest = rest
digits (suc k) n rest =
    let more = digits k (n / 10) ((48 + n % 10) ∷ rest) in
    if ltb n 10 then (48 + n) ∷ rest else more

-- An `int` of 32 bits has at most ten digits.
unfoldable pub print_int : ℕ → List ℕ
print_int n = if ltb n (2 ^ 31) then digits 10 n [] else 45 ∷ digits 10 (u32_mod - n) []

-- "error: "
abbrev pub error_text : List ℕ
error_text = 101 ∷ 114 ∷ 114 ∷ 111 ∷ 114 ∷ 58 ∷ 32 ∷ []

-- `Server::get`
unfoldable pub get : ℕ → ℕ → Groups → List ℕ
get g n m = elim (name_of g n m) [
  | none ↦ error_text ++ print_int g ++ (32 ∷ print_int n)
  | some name ↦ name
]

same_group :
    (n k : ℕ) (name : List ℕ) (o : Option (IntMap (List ℕ)))
    → (if n == k then some name else lookup k (elim o [ none ↦ [] | some s ↦ s ]))
      ≡ (if n == k then some name else elim o [ none ↦ none | some s ↦ lookup k s ])
unfolding lookup
same_group n k name none = refl
same_group n k name (some s) = refl

-- After `add_student` a student of the group has the new name, and every other student, of that
-- group or another, has the name it had.
pub name_of-add_student :
    (g n h k : ℕ) (name : List ℕ) (m : Groups)
    → name_of h k (add_student g n name m)
      ≡ (if (g == h) && (n == k) then some name else name_of h k m)
unfolding add_student name_of lookup
name_of-add_student g n h k name m =
    let students = insert n name (group_of g m) in
    rw (name_of, add_student, lookup-insert g h students m)
      (elim (Bool-cases (g == h)) [
        | inl e ↦
            let same : h ≡ g = ground arith in
            rw (e, lookup-insert n k name (group_of g m))
              (rw same (same_group n k name (lookup g m)))
        | inr e ↦ rw e refl
      ])

-- What `get` answers after `add_student`: the new name of that student; any other answer is as
-- before.
pub get-add_student :
    (g n h k : ℕ) (name : List ℕ) (m : Groups)
    → get h k (add_student g n name m) ≡ (if (g == h) && (n == k) then name else get h k m)
unfolding get
get-add_student g n h k name m =
    rw (get, name_of-add_student g n h k name m)
      (elim (Bool-cases ((g == h) && (n == k))) [ inl e ↦ rw e refl | inr e ↦ rw e refl ])

-- The number that digits stand for, behind digits of value `v`.
abbrev pub value : ℕ → List ℕ → ℕ
value v [] = v
value v (d ∷ ds) = value (10 * v + (d - 48)) ds

value-digits : (k n : ℕ) (rest : List ℕ) → n < 10 ^ k → value 0 (digits k n rest) ≡ value n rest
unfolding digits
value-digits zero n rest h = let e : n ≡ 0 = omega arith in rw e refl
value-digits (suc k) n rest h = elim (Bool-cases (ltb n 10)) [
  | inl e ↦ let v : 0 + (48 + n - 48) ≡ n = omega arith in rw e (ap (λ z. value z rest) v)
  | inr e ↦
      let v : 10 * (n / 10) + (48 + n % 10 - 48) ≡ n = omega arith in
      rw e (value-digits k (n / 10) ((48 + n % 10) ∷ rest) (omega arith) ∙ rw v refl)
]

-- Reads a printed `int`.
abbrev pub read_int : List ℕ → ℕ
read_int [] = 0
read_int (d ∷ ds) = if d == 45 then u32_mod - value 0 ds else value 0 (d ∷ ds)

signless : (d : ℕ) (ds : List ℕ) → 48 ≤ d → read_int (d ∷ ds) ≡ value 0 (d ∷ ds)
signless d ds h = ground arith

signless-digits :
    (k n d : ℕ) (rest : List ℕ)
    → 48 ≤ d
    → read_int (digits k n (d ∷ rest)) ≡ value 0 (digits k n (d ∷ rest))
unfolding digits
signless-digits zero n d rest h = signless d rest h
signless-digits (suc k) n d rest h = elim (Bool-cases (ltb n 10)) [
  | inl e ↦ rw e (signless (48 + n) (d ∷ rest) (omega arith))
  | inr e ↦ rw e (signless-digits k (n / 10) (48 + n % 10) (d ∷ rest) (omega arith))
]

read_int-digits :
    (k n : ℕ) (rest : List ℕ) → read_int (digits (suc k) n rest) ≡ value 0 (digits (suc k) n rest)
unfolding digits
read_int-digits k n rest = elim (Bool-cases (ltb n 10)) [
  | inl e ↦ rw e (signless (48 + n) rest (omega arith))
  | inr e ↦ rw e (signless-digits k (n / 10) (48 + n % 10) rest (omega arith))
]

-- A printed number is read back, so ten digits are enough and different numbers differ in print.
pub read_int-print_int : (n : ℕ) → n < u32_mod → read_int (print_int n) ≡ n
unfolding print_int
read_int-print_int n h = elim (Bool-cases (ltb n (2 ^ 31))) [
  | inl e ↦
      let lt : n < 2 ^ 31 = ltb→lt n (2 ^ 31) e in
      rw e (read_int-digits 9 n [] ∙ value-digits 10 n [] (omega arith))
  | inr e ↦
      let ge : 2 ^ 31 ≤ n = ground arith in
      let v : value 0 (digits 10 (u32_mod - n) []) ≡ u32_mod - n =
        value-digits 10 (u32_mod - n) [] (omega arith) in
      let back : u32_mod - (u32_mod - n) ≡ n = omega arith in rw e (ap (λ z. u32_mod - z) v ∙ back)
]
