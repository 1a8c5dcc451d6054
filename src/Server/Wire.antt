-- ===== src/Server/Wire.antt =====
-- a2/Message.h, the twelve bytes of a request.
use ece.Prelude.{get_or, u32_mod, le32, of_le32, of_le32-le32, ℕ, ◌+◌, ◌<◌, ◌≡◌, refl, List, ◌++◌}

-- `Message`; `command` is the number of the enumerator.
pub record Message : Type 0 where
  pub command : ℕ
  pub param1 : ℕ
  pub param2 : ℕ

-- The constructor of a request with no parameters.
abbrev pub bare : ℕ → Message
bare c = record { command = c; param1 = 0; param2 = 0 }

-- `Message::serialize`
unfoldable pub serialize : Message → List ℕ
serialize m = le32 m.command ++ le32 m.param1 ++ le32 m.param2

abbrev pub word_at : List ℕ → ℕ → ℕ
word_at b i = of_le32 (get_or b i 0) (get_or b (i + 1) 0) (get_or b (i + 2) 0) (get_or b (i + 3) 0)

-- `Message::deserialize`
unfoldable pub deserialize : List ℕ → Message
deserialize b = record { command = word_at b 0; param1 = word_at b 4; param2 = word_at b 8 }

-- The words of a message fit their fields.
pub record IsMessage (m : Message) : Type 0 where
  pub command_fits : m.command < u32_mod
  pub param1_fits : m.param1 < u32_mod
  pub param2_fits : m.param2 < u32_mod

-- A request is read back from its bytes, whatever stands behind them in the buffer.
pub deserialize-serialize_append :
    (m : Message) (rest : List ℕ) → IsMessage m → deserialize (serialize m ++ rest) ≡ m
unfolding deserialize serialize
deserialize-serialize_append m rest h =
    rw
      (
        of_le32-le32 m.command h.command_fits,
        of_le32-le32 m.param1 h.param1_fits,
        of_le32-le32 m.param2 h.param2_fits,
      )
      refl
