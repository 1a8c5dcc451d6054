-- ===== src/Server/Command.antt =====
-- a2/Message.h, `Message::Command`.
use ece.Prelude.{ℕ}

abbrev pub get : ℕ
get = 0

abbrev pub stop : ℕ
stop = 1

abbrev pub stop_session : ℕ
stop_session = 2
