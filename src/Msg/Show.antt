-- ===== src/Msg/Show.antt =====
-- a4/msg_t.cc, `operator<<`: the line that the debugging output prints for a packet.
use Prim.Native.String.{String}
use ece.Prelude.{
  ltb, ◌==◌, if◌then◌else◌, Bool-cases, take, ℕ, ◌≤◌, ◌≡◌, refl, ◌≢◌, ◌↔◌, inl, inr, true, not,
  Option, none, some, List, [], ◌∷◌, arith,
}
use ece.Msg.Flags
use ece.Msg.Validity.{valid_iff}
use ece.Msg.{Msg, valid, max_data_length}

-- What is sent to the stream: a literal, a number, or the characters of a C string.
pub data Piece : Type 0 where
  text : String → Piece
  num : ℕ → Piece
  chars : List ℕ → Piece

-- A C string ends before its first zero byte.
unfoldable pub c_string : List ℕ → List ℕ
c_string [] = []
c_string (c ∷ cs) = if c == 0 then [] else c ∷ c_string cs

unfoldable pub flag_name : ℕ → String
flag_name flags =
    if flags == Flags.ack
    then "ack/"
    else if flags == Flags.eos
    then "eos/"
    else if flags == Flags.fin
    then "fin/"
    else ""

-- `none` is the write of `buffer[msg.length] = 0` behind the end of `char buffer[500]`.
unfoldable pub show : Msg → Option (List Piece)
show m =
    if not (valid m)
    then some (text "msg_t[BAD]" ∷ [])
    else if ltb m.length max_data_length
    then some (
        text "msg_t["
        ∷ num m.seqnum
        ∷ text "] "
        ∷ text (flag_name m.flags)
        ∷ num m.length
        ∷ text ": "
        ∷ chars (c_string (take m.length m.payload))
        ∷ [])
    else none

-- With room for the end of the text nothing is written behind the buffer.
show-short : (m : Msg) → ltb m.length max_data_length ≡ true → show m ≢ none
unfolding show
show-short m short h = elim (Bool-cases (valid m)) [
  | inr bad ↦ let e : show m ≡ some (text "msg_t[BAD]" ∷ []) = rw (show, bad) refl in absurd (cc)
  | inl good ↦ let (p, e) = shown good in absurd (cc)
]
  where
    shown : valid m ≡ true → (p : List Piece) × (show m ≡ some p)
    shown good = rw (show, good, short) (_, refl)

-- `operator<<` writes behind the end of its buffer for exactly the accepted messages of the full
-- 500 bytes.
pub show_overruns : (m : Msg) → (show m ≡ none) ↔ ((valid m ≡ true) × (m.length ≡ max_data_length))
unfolding show
show_overruns m = (
  (λ h. elim (Bool-cases (valid m)) [
    | inr bad ↦ let e : show m ≡ some (text "msg_t[BAD]" ∷ []) = rw (show, bad) refl in absurd (cc)
    | inl good ↦
        let at_most : m.length ≤ max_data_length = ((valid_iff m).0 good).0 in
        elim (Bool-cases (ltb m.length max_data_length)) [
          | inl short ↦ absurd (show-short m short h)
          | inr long ↦ (good, ground arith)
        ]
  ]),
  λ h. rw (show, h.0, h.1) refl,
)
