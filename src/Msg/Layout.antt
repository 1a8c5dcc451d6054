-- ===== src/Msg/Layout.antt =====
-- The object's bytes: `serialize` and `deserialize` are inverse, and the length of a packet.
use ece.Prelude.{length, take_all, u16_mod, of_le16-le16, of_le32-le32, ◌+◌, ◌<◌, ◌≡◌, arith}
use ece.Msg.{Msg, IsMsg, serialize, deserialize, get_total_length, sizeof_msg}

-- For every `length` that fits its field, wrap-around included, `getTotalLength` is the size of
-- the header and the length.
pub get_total_length-eq : (m : Msg) → m.length < u16_mod → get_total_length m ≡ 12 + m.length
unfolding get_total_length
get_total_length-eq m h = omega arith

pub length-serialize : (m : Msg) → length m.payload ≡ 500 → length (serialize m) ≡ sizeof_msg
unfolding serialize
length-serialize m h = omega arith

-- A message that is serialised and read back is the same message.
pub deserialize-serialize : {m : Msg} → IsMsg m → deserialize (serialize m) ≡ m
unfolding deserialize serialize
deserialize-serialize {m} v = λ i. record {
  checksum = of_le32-le32 m.checksum v.checksum_word i;
  seqnum = of_le16-le16 m.seqnum v.seqnum_word i;
  length = of_le16-le16 m.length v.length_word i;
  flags = of_le32-le32 m.flags v.flags_word i;
  payload = take_all 500 m.payload (omega (arith, v.payload_size)) i;
}
