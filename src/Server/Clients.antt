-- ===== src/Server/Clients.antt =====
-- a2/ClientMain.cc and a2/Client.cc: what a client makes of the lines of its input. The two
-- implementations of `send_message` exchange one request for one reply.
pub mod Requests
use ece.Prelude.{
  leb, ◌==◌, if◌then◌else◌, ℕ, ◌^◌, Bool, true, false, ◌||◌, none, some, List, [], ◌∷◌,
}
use ece.Server.Command
use ece.Server.Wire.{Message, bare}
use ece.Server.Input.{is_digit, read_word, read_int, same_text}

-- What `main` does with a line, and at the end.
pub data Event : Type 0 where
  sends : Message → Event
  no_student_number : Event
  invalid_numbers : ℕ → ℕ → Event
  invalid_input : Event

-- `Client::send_get`, `send_stop` and `send_stop_session`
abbrev pub send_get : ℕ → ℕ → Event
send_get g n = sends (record { command = Command.get; param1 = g; param2 = n })

abbrev pub send_stop : Event
send_stop = sends (bare Command.stop)

abbrev pub send_stop_session : Event
send_stop_session = sends (bare Command.stop_session)

-- "STOP"
abbrev pub stop_word : List ℕ
stop_word = 83 ∷ 84 ∷ 79 ∷ 80 ∷ []

-- `n <= 0` for the `int` of these 32 bits
abbrev pub not_positive : ℕ → Bool
not_positive n = (n == 0) || leb (2 ^ 31) n

-- A line that begins with a digit.
unfoldable pub on_numbers : List ℕ → Event
on_numbers line = elim (read_int line) [
  | none ↦ no_student_number
  | some (g, rest) ↦ elim (read_int rest) [
    | none ↦ no_student_number
    | some (n, rest') ↦
        if not_positive g || not_positive n then invalid_numbers g n else send_get g n
  ]
]

-- The body of the loop: what it does, and whether the process ends.
unfoldable pub on_line : List ℕ → Event × Bool
on_line [] = (invalid_input, false)
on_line (c ∷ cs) =
    if c == 83
    then elim (read_word (c ∷ cs)) [
      | none ↦ (invalid_input, false)
      | some (command, rest) ↦
          if same_text command stop_word then (send_stop, true) else (invalid_input, false)
    ]
    else if is_digit c
    then (on_numbers (c ∷ cs), false)
    else (invalid_input, false)

-- `main`, over the lines of the input.
unfoldable pub client_main : List (List ℕ) → List Event
client_main [] = send_stop_session ∷ []
client_main (line ∷ lines) =
    let later = client_main lines in
    let (event, ends) = on_line line in if ends then event ∷ [] else event ∷ later
