-- ===== src/Server/Clients/Requests.antt =====
-- What a client sends.
use ece.Prelude.{
  ◌==◌, Bool-cases, Option-cases, if-elim, ℕ, ◌^◌, ◌≤◌, ◌<◌, ◌≡◌, refl, ◌⊎◌, inl, inr, Bool, true,
  false, ◌||◌, List, [], ◌∷◌, arith,
}
use ece.Server.Command
use ece.Server.Wire.{Message, bare}
use ece.Server.Input.{is_digit, read_word, read_int, same_text}
use ece.Server.Clients.{
  Event, sends, no_student_number, invalid_numbers, invalid_input, send_stop, stop_word,
  not_positive, on_numbers, on_line, client_main,
}

-- The messages among the events.
abbrev pub messages : List Event → List Message
messages [] = []
messages (sends m ∷ es) = m ∷ messages es
messages (no_student_number ∷ es) = messages es
messages (invalid_numbers g n ∷ es) = messages es
messages (invalid_input ∷ es) = messages es

-- A GET for a positive group and a positive student number, both of 31 bits.
pub record IsGet (m : Message) : Type 0 where
  pub command_eq : m.command ≡ Command.get
  pub group_positive : 1 ≤ m.param1
  pub group_fits : m.param1 < 2 ^ 31
  pub student_positive : 1 ≤ m.param2
  pub student_fits : m.param2 < 2 ^ 31

-- GETs, and behind them one STOP or STOP_SESSION.
pub data Conversation : List Message → Type 0 where
  asks : (m : Message) (ms : List Message) → IsGet m → Conversation ms → Conversation (m ∷ ms)
  stops : Conversation (bare Command.stop ∷ [])
  ends_session : Conversation (bare Command.stop_session ∷ [])

-- No message but a good GET.
abbrev pub Harmless : Event → Type 0
Harmless (sends m) = IsGet m
Harmless no_student_number = Unit
Harmless (invalid_numbers g n) = Unit
Harmless invalid_input = Unit

neither : (a b : Bool) → (a || b) ≡ false → (a ≡ false) × (b ≡ false)
neither true b h = absurd (cc)
neither false b h = (refl, h)

positive : (n : ℕ) → not_positive n ≡ false → (1 ≤ n) × (n < 2 ^ 31)
positive n h = ground arith

on_numbers-Harmless : (line : List ℕ) → Harmless (on_numbers line)
unfolding on_numbers
on_numbers-Harmless line = elim (Option-cases (read_int line)) [
  | inl e ↦ rw (on_numbers, e) tt
  | inr ((g, rest), e) ↦ elim (Option-cases (read_int rest)) [
    | inl f ↦ rw (on_numbers, e, f) tt
    | inr ((n, rest'), f) ↦ elim (Bool-cases (not_positive g || not_positive n)) [
      | inl bad ↦ rw (on_numbers, e, f, bad) tt
      | inr good ↦
          let (gp, np) = neither (not_positive g) (not_positive n) good in
          let (g1, g2) = positive g gp in
          let (n1, n2) = positive n np in
          rw (on_numbers, e, f, good)
            (record {
              command_eq = refl;
              group_positive = g1;
              group_fits = g2;
              student_positive = n1;
              student_fits = n2;
            })
    ]
  ]
]

-- A line that ends the process sends a STOP, and any other is harmless.
abbrev pub Line : Event × Bool → Type 0
Line r = ((r.1 ≡ true) × (r.0 ≡ send_stop)) ⊎ ((r.1 ≡ false) × Harmless r.0)

pub on_line-Line : (line : List ℕ) → Line (on_line line)
unfolding on_line
on_line-Line [] = inr (refl, tt)
on_line-Line (c ∷ cs) =
    let ignored : Line (invalid_input, false) = inr (refl, tt) in
    if-elim Line (c == 83)
      (λ _. elim (Option-cases (read_word (c ∷ cs))) [
        | inl e ↦ rw e ignored
        | inr ((word, rest), e) ↦
            rw e (if-elim Line (same_text word stop_word) (λ _. inl (refl, refl)) (λ _. ignored))
      ])
      (λ _.
        if-elim Line (is_digit c) (λ _. inr (refl, on_numbers-Harmless (c ∷ cs))) (λ _. ignored))

Harmless-Conversation :
    (e : Event) (es : List Event)
    → Harmless e
    → Conversation (messages es)
    → Conversation (messages (e ∷ es))
Harmless-Conversation (sends m) es h k = asks m (messages es) h k
Harmless-Conversation no_student_number es h k = k
Harmless-Conversation (invalid_numbers g n) es h k = k
Harmless-Conversation invalid_input es h k = k

-- Whatever its input is, a client sends GET requests for positive numbers of 31 bits, and then one
-- STOP or STOP_SESSION, and nothing behind it.
pub client_main-Conversation : (lines : List (List ℕ)) → Conversation (messages (client_main lines))
unfolding client_main
client_main-Conversation [] = ends_session
client_main-Conversation (line ∷ lines) = elim (on_line-Line line) [
  | inl (e, stop) ↦ rw (e, stop, client_main) stops
  | inr (e, h) ↦
      rw (client_main, e)
        (Harmless-Conversation (on_line line).0 (client_main lines) h
          (client_main-Conversation lines))
]
