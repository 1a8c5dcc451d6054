-- ===== src/Msg/Wire.antt =====
-- A packet on its way: `rcs_t::rawsend` hands the first `getTotalLength()` bytes of the object to
-- the network, and `rcs_t::rawrecv` reads a datagram into a zeroed buffer of 512 bytes, as a
-- message. `rcs_t::lowrecv` and `rcs_t::recv` then test that the message is whole.
use ece.Prelude.{
  ◌==◌, length, take, replicate, length-append, length-take, length-replicate, take_all,
  get_or-pad_in, get_or-pad_out, le16, le32, of_le16-le16, of_le32-le32, ℕ, suc, ◌+◌, ◌-◌, ◌/◌, ◌%◌,
  ◌≤◌, ◌<◌, min, ◌≡◌, refl, sym, ◌∙◌, ◌⊎◌, inl, inr, Bool, true, false, ◌&&◌, List, ◌++◌, arith,
  dec_lt, ℕ_discrete,
}
use ece.Msg.{
  Msg, IsMsg, byte_at, serialize, deserialize, last_byte, valid, get_total_length, sizeof_msg,
}
use ece.Msg.Layout.{get_total_length-eq}
use ece.Msg.Validity.{last_byte-zero, last_byte-suc, valid_iff}

unfoldable pub wire : Msg → List ℕ
wire m = take (get_total_length m) (serialize m)

-- `recvfrom` into `char data[sizeof(msg_t)] = {0}`: a longer datagram loses its end.
unfoldable pub buffer_of : List ℕ → List ℕ
buffer_of d = take sizeof_msg d ++ replicate (sizeof_msg - length (take sizeof_msg d)) 0

-- The number of bytes that `recvfrom` reports.
abbrev pub byte_count : List ℕ → ℕ
byte_count d = min sizeof_msg (length d)

-- The test of `lowrecv`, `rawrecv` and `recv` on the number of bytes and the message.
unfoldable pub intact : ℕ → Msg → Bool
intact result m = valid m && result == get_total_length m

-- The message with the bytes behind its data set to zero.
abbrev pub zeroed : Msg → Msg
zeroed m = record m { payload = take m.length m.payload ++ replicate (500 - m.length) 0 }

take-wire :
    (m : Msg)
    → m.length ≤ 500
    → wire m
      ≡ le32 m.checksum
        ++ (le16 m.seqnum ++ (le16 m.length ++ (le32 m.flags ++ take m.length m.payload)))
unfolding wire serialize
take-wire m h =
    let twelve : get_total_length m
        ≡ suc (suc (suc (suc (suc (suc (suc (suc (suc (suc (suc (suc m.length))))))))))) =
      get_total_length-eq m (omega arith) ∙ omega arith in
    rw twelve refl

pub length-wire :
    (m : Msg) → m.length ≤ 500 → length m.payload ≡ 500 → length (wire m) ≡ 12 + m.length
length-wire m h size = rw (take-wire m h) (omega (arith, length-take m.length m.payload))

buffer_of-short : (d : List ℕ) → length d ≤ 512 → buffer_of d ≡ d ++ replicate (512 - length d) 0
unfolding buffer_of
buffer_of-short d h = rw (take_all 512 d h) refl

pub valid-zeroed : (m : Msg) → m.length ≤ 500 → length m.payload ≡ 500 → valid (zeroed m) ≡ valid m
unfolding valid
valid-zeroed m h size = elim (ℕ_discrete m.length 0) [
  | yes e ↦ rw (last_byte-zero (zeroed m) e, last_byte-zero m e) refl
  | no ne ↦
      let same : last_byte (zeroed m) ≡ last_byte m =
        last_byte-suc (zeroed m) (m.length - 1) (omega arith)
        ∙ get_or-pad_in (m.length - 1) m.length m.payload _ 0 (omega arith) (omega arith)
        ∙ sym (last_byte-suc m (m.length - 1) (omega arith)) in
      rw same refl
]

pub zeroed_size :
    (m : Msg)
    → m.length ≤ 500
    → length m.payload ≡ 500
    → length (take m.length m.payload ++ replicate {A = ℕ} (500 - m.length) 0) ≤ 500
zeroed_size m h size = omega (
  arith,
  length-append (take m.length m.payload) (replicate (500 - m.length) 0),
  length-take m.length m.payload,
  length-replicate {A = ℕ} (500 - m.length) 0,
)

-- A message with at most 500 bytes of data that arrives whole is read back with all its fields and
-- its data; the bytes behind the data are zero.
pub unwire : {m : Msg} → IsMsg m → m.length ≤ 500 → deserialize (buffer_of (wire m)) ≡ zeroed m
unfolding deserialize
unwire {m} v h =
    let len : length (wire m) ≡ 12 + m.length = length-wire m h v.payload_size in
    let pad : 512 - length (wire m) ≡ 500 - m.length = omega arith in
    rw (buffer_of-short (wire m) (omega arith), pad, take-wire m h)
      (λ i. record {
        checksum = of_le32-le32 m.checksum v.checksum_word i;
        seqnum = of_le16-le16 m.seqnum v.seqnum_word i;
        length = of_le16-le16 m.length v.length_word i;
        flags = of_le32-le32 m.flags v.flags_word i;
        payload =
            take_all 500 (take m.length m.payload ++ replicate (500 - m.length) 0)
              (zeroed_size m h v.payload_size) i;
      })

-- A valid message that arrives whole passes the receiver's test of the number of bytes and the
-- checksum.
pub intact-wire :
    {m : Msg}
    → IsMsg m
    → valid m ≡ true
    → intact (byte_count (wire m)) (deserialize (buffer_of (wire m))) ≡ true
unfolding intact
intact-wire {m} v ok =
    let h : m.length ≤ 500 = ((valid_iff m).0 ok).0 in
    let len : length (wire m) ≡ 12 + m.length = length-wire m h v.payload_size in
    let count : byte_count (wire m) ≡ 12 + m.length = omega arith in
    rw (unwire v h, valid-zeroed m h v.payload_size, ok, count)
      (ground (arith, get_total_length-eq (zeroed m)))

-- What the receiver's buffer holds of the first `t` bytes of a datagram.
byte_at-cut_in :
    (t i : ℕ) (d : List ℕ)
    → i < t
    → t ≤ length d
    → t ≤ 512
    → byte_at (buffer_of (take t d)) i ≡ byte_at d i
byte_at-cut_in t i d lt le small =
    rw (buffer_of-short (take t d) (omega (arith, length-take t d)))
      (get_or-pad_in i t d _ 0 lt (omega arith))

byte_at-cut_out : (t i : ℕ) (d : List ℕ) → t ≤ i → t ≤ 512 → byte_at (buffer_of (take t d)) i ≡ 0
byte_at-cut_out t i d le small =
    rw (buffer_of-short (take t d) (omega (arith, length-take t d))) (get_or-pad_out i t _ d 0 le)

-- The `length` field of what is received of the first `t` bytes of a packet: the packet's, or, if
-- `t` is below 8, a part of it.
cut_length-eq :
    (t : ℕ) (m : Msg)
    → m.length ≤ 500
    → length m.payload ≡ 500
    → t < 12 + m.length
    → (8 ≤ t) × ((deserialize (buffer_of (take t (wire m)))).length ≡ m.length)
      ⊎ (t < 8) × ((deserialize (buffer_of (take t (wire m)))).length < 256)
unfolding deserialize
cut_length-eq t m h size lt =
    let len = length-wire m h size in
    let six : byte_at (wire m) 6 ≡ m.length % 256 = rw (take-wire m h) refl in
    let seven : byte_at (wire m) 7 ≡ m.length / 256 % 256 = rw (take-wire m h) refl in
    elim (dec_lt 7 t) [
      | yes big ↦ inl (
        big,
        omega (
          arith,
          byte_at-cut_in t 6 (wire m) (omega arith) (omega arith) (omega arith),
          byte_at-cut_in t 7 (wire m) (omega arith) (omega arith) (omega arith),
        ),
      )
      | no small ↦ elim (dec_lt 6 t) [
        | yes six_in ↦ inr (
          omega arith,
          omega (
            arith,
            byte_at-cut_in t 6 (wire m) (omega arith) (omega arith) (omega arith),
            byte_at-cut_out t 7 (wire m) (omega arith) (omega arith),
          ),
        )
        | no six_out ↦ inr (
          omega arith,
          omega (
            arith,
            byte_at-cut_out t 6 (wire m) (omega arith) (omega arith),
            byte_at-cut_out t 7 (wire m) (omega arith) (omega arith),
          ),
        )
      ]
    ]

-- The packet of a valid message that the network cut short never passes the receiver's test,
-- wherever it was cut.
pub intact-cut :
    (t : ℕ) {m : Msg}
    → IsMsg m
    → valid m ≡ true
    → t < length (wire m)
    → intact t (deserialize (buffer_of (take t (wire m)))) ≡ false
unfolding intact
intact-cut t {m} v ok lt =
    let h : m.length ≤ 500 = ((valid_iff m).0 ok).0 in
    let len : length (wire m) ≡ 12 + m.length = length-wire m h v.payload_size in
    let short : t < 12 + m.length = omega arith in
    let r = deserialize (buffer_of (take t (wire m))) in
    ground (arith, cut_length-eq t m h v.payload_size short, get_total_length-eq r)
