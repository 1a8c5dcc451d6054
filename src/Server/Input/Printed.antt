-- ===== src/Server/Input/Printed.antt =====
-- That the loop of a2/ServerMain.cc reads a group file back that is written line by line.
use ece.Prelude.{
  ◌==◌, length, All, length-append, ℕ, zero, suc, ◌^◌, ◌≤◌, ◌<◌, ◌≡◌, refl, ◌∙◌, false, Option,
  none, some, List, [], ◌∷◌, ◌++◌, arith,
}
use ece.Server.Groups.{Groups, add_student, digits}
use ece.Server.Input.{
  skip_spaces, split_word, read_word, get_line, same_text, group_word, Loaded, loaded, exits,
  load_from, load,
}
use ece.Server.Input.Words.{
  read_word-student, atoi-digits, read_int-group, get_line-name, printed-Begins, Begins-no_group,
  Begins-digit, length-digits,
}

-- A line of a group file.
pub data Line : Type 0 where
  group_line : ℕ → Line
  student_line : ℕ → List ℕ → Line

-- "Group <number>" or "<number> <name>", each with the end of the line.
abbrev pub text_of : List Line → List ℕ
text_of [] = []
text_of (group_line g ∷ ls) = group_word ++ (32 ∷ digits 10 g (10 ∷ text_of ls))
text_of (student_line n name ∷ ls) = digits 10 n (32 ∷ (name ++ (10 ∷ text_of ls)))

-- What the lines mean, with the group that has been set.
abbrev pub meaning : Option ℕ → List Line → Groups → Loaded
meaning group [] m = loaded m
meaning group (group_line g ∷ ls) m = meaning (some g) ls m
meaning none (student_line n name ∷ ls) m = exits 1
meaning (some g) (student_line n name ∷ ls) m = meaning (some g) ls (add_student g n name m)

-- The numbers are `int`s that are not negative, and a name is on one line.
abbrev pub IsLine : Line → Type 0
IsLine (group_line g) = g < 2 ^ 31
IsLine (student_line n name) = (n < 2 ^ 31) × All (λ c. (c == 10) ≡ false) name

-- The end of a line is skipped with the spaces in front of the next word.
load_from-newline :
    (k : ℕ) (input : List ℕ) (group : Option ℕ) (m : Groups)
    → load_from k (10 ∷ input) group m ≡ load_from k input group m
unfolding load_from read_word skip_spaces
load_from-newline zero input group m = refl
load_from-newline (suc k) input group m = refl

load_from-group :
    (k g : ℕ) (rest : List ℕ) (group : Option ℕ) (m : Groups)
    → g < 2 ^ 31
    → load_from (suc k) (group_word ++ (32 ∷ digits 10 g (10 ∷ rest))) group m
      ≡ load_from k rest (some g) m
unfolding load_from read_word skip_spaces split_word same_text
load_from-group k g rest group m h =
    rw (read_int-group g rest h) (load_from-newline k rest (some g) m)

load_from-student :
    (k n : ℕ) (name rest : List ℕ) (g : ℕ) (m : Groups)
    → IsLine (student_line n name)
    → load_from (suc k) (digits 10 n (32 ∷ (name ++ (10 ∷ rest)))) (some g) m
      ≡ load_from k rest (some g) (add_student g n name m)
unfolding load_from get_line
load_from-student k n name rest g m h =
    let b = printed-Begins 9 n [] in
    rw
      (
        load_from,
        read_word-student n (name ++ (10 ∷ rest)),
        Begins-no_group (digits 10 n []) b,
        Begins-digit (digits 10 n []) b,
        atoi-digits n h.0,
        get_line-name name rest h.1,
      )
      refl

load_from-no_group :
    (k n : ℕ) (rest : List ℕ) (m : Groups)
    → load_from (suc k) (digits 10 n (32 ∷ rest)) none m ≡ exits 1
unfolding load_from
load_from-no_group k n rest m =
    let b = printed-Begins 9 n [] in
    rw
      (
        load_from,
        read_word-student n rest,
        Begins-no_group (digits 10 n []) b,
        Begins-digit (digits 10 n []) b,
      )
      refl

load_from-text_of :
    (k : ℕ) (ls : List Line) (group : Option ℕ) (m : Groups)
    → length ls < k
    → All IsLine ls
    → load_from k (text_of ls) group m ≡ meaning group ls m
load_from-text_of zero ls group m h v = absurd (omega arith)
load_from-text_of (suc k) [] group m h v = unfold load_from read_word skip_spaces split_word in refl
load_from-text_of (suc k) (group_line g ∷ ls) group m h v =
    load_from-group k g (text_of ls) group m v.0
    ∙ load_from-text_of k ls (some g) m (omega arith) v.1
load_from-text_of (suc k) (student_line n name ∷ ls) none m h v =
    load_from-no_group k n (name ++ (10 ∷ text_of ls)) m
load_from-text_of (suc k) (student_line n name ∷ ls) (some g) m h v =
    load_from-student k n name (text_of ls) g m v.0
    ∙ load_from-text_of k ls (some g) (add_student g n name m) (omega arith) v.1

length-text_of : (ls : List Line) → length ls ≤ length (text_of ls)
length-text_of [] = omega arith
length-text_of (group_line g ∷ ls) =
    let h = length-text_of ls in let k = length-digits 10 g (10 ∷ text_of ls) in omega arith
length-text_of (student_line n name ∷ ls) =
    let h = length-text_of ls in
    let k = length-digits 10 n (32 ∷ (name ++ (10 ∷ text_of ls))) in
    let l = length-append name (10 ∷ text_of ls) in omega arith

-- A group file that is written line by line, with groups and numbers of 31 bits and each name on
-- one line, is read back as its lines mean: a student is added to the group of the last "Group"
-- line before, and a student in front of all of those ends the process with exit code 1.
pub load-text_of : (ls : List Line) → All IsLine ls → load (text_of ls) ≡ meaning none ls []
unfolding load
load-text_of ls v =
    load_from-text_of (suc (length (text_of ls))) ls none []
      (let h = length-text_of ls in omega arith) v
