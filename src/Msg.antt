-- ===== src/Msg.antt =====
-- a4/msg_t.h and a4/msg_t.cc: the packet of the protocol.
-- A `char` is a signed byte, integers are stored least significant byte first and the object has
-- no padding, as on the x86 machines that the program is written for: `checksum` is at offset 0,
-- `seqnum` at 4, `length` at 6, `flags` at 8 and `data` at 12 of 512 bytes.
pub mod Flags
pub mod Validity
pub mod Layout
pub mod Wire
pub mod Show
mod Tests
use ece.Prelude.{
  ℕ, ◌+◌, ◌%◌, ◌-◌, ◌*◌, ◌<◌, ◌≡◌, Bool, ◌&&◌, List, ◌++◌, Option, none, some, bit_and, bit_or,
  if◌then◌else◌, ltb, leb, ◌==◌, length, get_or, take, drop, u16_mod, u32_mod, sub_size, le16, le32,
  of_le16, of_le32, All, IsByte,
}
use Flags

abbrev pub max_data_length : ℕ
max_data_length = 500

-- `sizeof(msg_t)`
abbrev pub sizeof_msg : ℕ
sizeof_msg = 512

-- `msg_t`. `payload` is the array `data`, all of its 500 bytes.
pub record Msg : Type 0 where
  pub checksum : ℕ
  pub seqnum : ℕ
  pub length : ℕ
  pub flags : ℕ
  pub payload : List ℕ

abbrev pub msg_checksum : ℕ
msg_checksum = 16

-- `c + 1` for a `char c`, converted to `uint32_t`: a byte from 128 up is a negative `char`.
abbrev pub char_plus_one : ℕ → ℕ
char_plus_one b = if ltb b 128 then b + 1 else (u32_mod + b - 255) % u32_mod

-- `MSG_CHECKSUM * (c + 1)` in `uint32_t`
unfoldable pub checksum_of : ℕ → ℕ
checksum_of b = (msg_checksum * char_plus_one b) % u32_mod

-- The default constructor. `data` is not initialised: `garbage` is what the memory held.
unfoldable pub default_msg : List ℕ → Msg
default_msg garbage = record {
  checksum = 0;
  seqnum = 0;
  length = 0;
  flags = Flags.none;
  payload = garbage;
}

-- The constructor of a message with no data.
unfoldable pub control_msg : List ℕ → ℕ → ℕ → Msg
control_msg garbage seqnum flags = record {
  checksum = msg_checksum;
  seqnum = seqnum;
  length = 0;
  flags = flags;
  payload = garbage;
}

-- The constructor of a message with the first `len` bytes of `src`; `none` is the assertion.
-- The callers pass `len` from 1 up, so `srcData[len - 1]` is a byte of `src`.
unfoldable pub data_msg : List ℕ → ℕ → List ℕ → ℕ → ℕ → Option Msg
data_msg garbage seqnum src len flags =
    if leb len max_data_length
    then some (record {
      checksum = checksum_of (get_or src (len - 1) 0);
      seqnum = seqnum;
      length = len % u16_mod;
      flags = flags;
      payload = take len src ++ drop len garbage;
    })
    else none

-- `msg_t::serialize`: the bytes of the object.
unfoldable pub serialize : Msg → List ℕ
serialize m = le32 m.checksum ++ (le16 m.seqnum ++ (le16 m.length ++ (le32 m.flags ++ m.payload)))

abbrev pub byte_at : List ℕ → ℕ → ℕ
byte_at buffer i = get_or buffer i 0

-- `msg_t::deserialize`: the buffer read as an object.
unfoldable pub deserialize : List ℕ → Msg
deserialize b = record {
  checksum = of_le32 (byte_at b 0) (byte_at b 1) (byte_at b 2) (byte_at b 3);
  seqnum = of_le16 (byte_at b 4) (byte_at b 5);
  length = of_le16 (byte_at b 6) (byte_at b 7);
  flags = of_le32 (byte_at b 8) (byte_at b 9) (byte_at b 10) (byte_at b 11);
  payload = take 500 (drop 12 b);
}

-- `data[length - 1]`, at offset `12 + length - 1` of the object. With no data this is `data[-1]`,
-- the byte before the array, which is the highest byte of `flags`.
unfoldable pub last_byte : Msg → ℕ
last_byte m = byte_at (serialize m) (11 + m.length)

-- `msg_t::valid`
unfoldable pub valid : Msg → Bool
valid m = leb m.length max_data_length && m.checksum == checksum_of (last_byte m)

-- `msg_t::hasFlag`
unfoldable pub has_flag : Msg → ℕ → Bool
has_flag m mask = bit_and m.flags mask == mask

-- `operator|` on flags
unfoldable pub or_flags : ℕ → ℕ → ℕ
or_flags a b = bit_or a b

-- `msg_t::getTotalLength`, in `size_t`
unfoldable pub get_total_length : Msg → ℕ
get_total_length m = sub_size sizeof_msg (sub_size max_data_length m.length)

-- What the integer fields and the array can hold.
pub record IsMsg (m : Msg) : Type 0 where
  pub checksum_word : m.checksum < u32_mod
  pub seqnum_word : m.seqnum < u16_mod
  pub length_word : m.length < u16_mod
  pub flags_word : m.flags < u32_mod
  pub payload_size : length m.payload ≡ max_data_length
  pub payload_bytes : All IsByte m.payload
