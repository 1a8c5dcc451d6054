-- ===== src/Msg/Flags.antt =====
-- a4/msg_t.h, `msg_t::flags_t`.
use ece.Prelude.{ℕ}

abbrev pub none : ℕ
none = 0

abbrev pub ack : ℕ
ack = 1

-- the end of a `send`
abbrev pub eos : ℕ
eos = 2

-- the channel is closed
abbrev pub fin : ℕ
fin = 4
