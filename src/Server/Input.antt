-- ===== src/Server/Input.antt =====
-- a2/ServerMain.cc, the loop of `main` that reads the groups from the input, and the stream
-- operations it uses. A character is a byte.
pub mod Loading
pub mod Words
pub mod Printed
use ece.Prelude.{
  ltb, leb, ◌==◌, if◌then◌else◌, length, u32_mod, ℕ, zero, suc, ◌+◌, ◌-◌, ◌*◌, ◌%◌, ◌^◌, min, Bool,
  true, false, not, ◌&&◌, ◌||◌, Option, none, some, List, [], ◌∷◌,
}
use ece.Server.Groups.{Groups, add_student}

abbrev pub is_space : ℕ → Bool
is_space c = (c == 32) || (leb 9 c && leb c 13)

abbrev pub is_digit : ℕ → Bool
is_digit c = leb 48 c && leb c 57

unfoldable pub skip_spaces : List ℕ → List ℕ
skip_spaces [] = []
skip_spaces (c ∷ cs) = let rest = skip_spaces cs in if is_space c then rest else c ∷ cs

-- The characters up to the next space, and what is behind them.
unfoldable pub split_word : List ℕ → List ℕ × List ℕ
split_word [] = ([], [])
split_word (c ∷ cs) =
    let (word, rest) = split_word cs in if is_space c then ([], c ∷ cs) else (c ∷ word, rest)

abbrev pub nonempty : List ℕ × List ℕ → Option (List ℕ × List ℕ)
nonempty ([], rest) = none
nonempty (c ∷ cs, rest) = some (c ∷ cs, rest)

-- `in >> command`; `none` is a stream that failed.
unfoldable pub read_word : List ℕ → Option (List ℕ × List ℕ)
read_word input = nonempty (split_word (skip_spaces input))

-- The value of the digits at the front, behind digits of value `v`.
unfoldable pub read_digits : ℕ → List ℕ → ℕ × List ℕ
read_digits v [] = (v, [])
read_digits v (c ∷ cs) =
    let more = read_digits (10 * v + (c - 48)) cs in if is_digit c then more else (v, c ∷ cs)

abbrev pub starts_with_digit : List ℕ → Bool
starts_with_digit [] = false
starts_with_digit (c ∷ cs) = is_digit c

-- The digits of an `int`, whose sign is read: a value out of range is a failure.
abbrev pub read_magnitude : Bool → List ℕ → Option (ℕ × List ℕ)
read_magnitude minus input =
    let (v, rest) = read_digits 0 input in
    if not (starts_with_digit input)
    then none
    else if minus
    then (if leb v (2 ^ 31) then some ((u32_mod - v) % u32_mod, rest) else none)
    else if ltb v (2 ^ 31)
    then some (v, rest)
    else none

abbrev pub read_signed : List ℕ → Option (ℕ × List ℕ)
read_signed [] = none
read_signed (c ∷ cs) =
    if c == 45
    then read_magnitude true cs
    else if c == 43
    then read_magnitude false cs
    else read_magnitude false (c ∷ cs)

-- `in >> n` for an `int`.
unfoldable pub read_int : List ℕ → Option (ℕ × List ℕ)
read_int input = read_signed (skip_spaces input)

-- `atoi` of text that begins with a digit: `strtol` stops at the largest `long`, and the cast to
-- `int` takes 32 bits.
unfoldable pub atoi : List ℕ → ℕ
atoi text = min (read_digits 0 text).0 (2 ^ 63 - 1) % u32_mod

-- `getline`: the characters up to the end of the line, and the input behind it.
unfoldable pub get_line : List ℕ → List ℕ × List ℕ
get_line [] = ([], [])
get_line (c ∷ cs) = let (line, rest) = get_line cs in if c == 10 then ([], cs) else (c ∷ line, rest)

-- A space at the front of a name is removed.
abbrev pub without_space : List ℕ → List ℕ
without_space [] = []
without_space (c ∷ cs) = if c == 32 then cs else c ∷ cs

unfoldable pub same_text : List ℕ → List ℕ → Bool
same_text [] [] = true
same_text (a ∷ as') (b ∷ bs) = (a == b) && same_text as' bs
same_text [] (b ∷ bs) = false
same_text (a ∷ as') [] = false

-- "Group"
abbrev pub group_word : List ℕ
group_word = 71 ∷ 114 ∷ 111 ∷ 117 ∷ 112 ∷ []

-- What the loop comes to: the groups that the server runs with, or an exit code.
pub data Loaded : Type 0 where
  loaded : Groups → Loaded
  exits : ℕ → Loaded
  out_of_fuel : Loaded

-- The loop, with the group that has been set.
unfoldable pub load_from : ℕ → List ℕ → Option ℕ → Groups → Loaded
load_from zero input group groups = out_of_fuel
load_from (suc n) input group groups = elim (read_word input) [
  | none ↦ loaded groups
  | some (command, rest) ↦
      if same_text command group_word
      then elim (read_int rest) [
        | none ↦ loaded groups
        | some (g, rest') ↦ load_from n rest' (some g) groups
      ]
      else if starts_with_digit command
      then elim group [
        | none ↦ exits 1
        | some g ↦
            load_from n (get_line rest).1 (some g)
              (add_student g (atoi command) (without_space (get_line rest).0) groups)
      ]
      else exits 2
]

-- Each pass of the loop reads at least one character.
unfoldable pub load : List ℕ → Loaded
load input = load_from (suc (length input)) input none []
