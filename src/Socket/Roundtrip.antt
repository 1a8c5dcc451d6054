-- ===== src/Socket/Roundtrip.antt =====
-- What `rcs_t::send` makes of its bytes, sent over the channel, is what `rcs_t::recv` returns.
use ece.Prelude.{
  length, take, drop, replicate, All, length-append, length-take, length-drop, length-replicate,
  take_all, take-append_left, u16_mod, IsByte, ℕ, ◌-◌, ◌≤◌, ◌<◌, min, ◌≡◌, refl, ap, ◌∙◌, false,
  some, List, [], ◌∷◌, ◌++◌, map, arith,
}
use ece.Msg.Flags
use ece.Msg.{Msg, has_flag, max_data_length}
use ece.Msg.Validity.{data_msg-Carries, valid_iff}
use ece.Msg.Wire.{wire, zeroed}
use ece.Buffer.Tokens.{byte, mark, tokens, stream}
use ece.Buffer.Invariant.{IsStored}
use ece.Net.{Addr, Arrival, datagram}
use ece.Socket.Sender.{chunk_msg}
use ece.Socket.Delivery.{Expected}
use ece.Socket.Inbox.{Delivers}
use ece.Socket.Chunks.{IsMemory, heard-wire, chunk-IsMsg}

no_flags :
    (m : Msg)
    → m.flags ≡ Flags.none
    → (has_flag m Flags.fin ≡ false) × (has_flag m Flags.eos ≡ false)
unfolding has_flag
no_flags m e = rw e (refl, refl)

pub length-zeroed :
    (m : Msg)
    → m.length ≤ 500
    → length m.payload ≡ 500
    → length (take m.length m.payload ++ replicate {A = ℕ} (500 - m.length) 0) ≡ 500
length-zeroed m h size = omega (
  arith,
  length-append (take m.length m.payload) (replicate (500 - m.length) 0),
  length-take m.length m.payload,
  length-replicate {A = ℕ} (500 - m.length) 0,
)

zeroed-data :
    (m : Msg)
    → length m.payload ≡ 500
    → m.length ≤ 500
    → take m.length (take m.length m.payload ++ replicate (500 - m.length) 0)
      ≡ take m.length m.payload
zeroed-data m size h =
    take-append_left m.length (take m.length m.payload) _
      (omega (arith, length-take m.length m.payload))
    ∙ take_all m.length (take m.length m.payload) (omega (arith, length-take m.length m.payload))

-- What one message of `send` is for the receiver.
pub record Chunk (seqnum processed : ℕ) (bytes : List ℕ) (from : Addr) (m : Msg) (a : Arrival)
    : Type 0 where
  pub expected : Expected seqnum (zeroed m) a
  pub no_end : has_flag (zeroed m) Flags.eos ≡ false
  pub stored : IsStored (zeroed m)
  pub tokens_eq :
      tokens (zeroed m)
      ≡ map byte (take (min (length bytes - processed) max_data_length) (drop processed bytes))

pub chunk_msg-Chunk :
    (garbage : List ℕ) (seqnum : ℕ) (bytes : List ℕ) (processed : ℕ) (from : Addr) {m : Msg}
    → IsMemory garbage
    → seqnum < u16_mod
    → All IsByte bytes
    → processed < length bytes
    → chunk_msg garbage seqnum bytes processed ≡ some m
    → Chunk seqnum processed bytes from m (datagram (wire m) from)
chunk_msg-Chunk garbage seqnum bytes processed from {m} memory small all_bytes more e =
    let v = chunk-IsMsg garbage seqnum bytes processed memory small all_bytes e in
    let c =
      data_msg-Carries garbage seqnum (drop processed bytes)
        (min (length bytes - processed) max_data_length) Flags.none (omega arith)
        (omega (arith, length-drop processed bytes)) e in
    let short : m.length ≤ 500 = ((valid_iff m).0 c.is_valid).0 in
    let (fin, eos) = no_flags (zeroed m) c.flags_eq in
    record {
      expected = (heard-wire from v c.is_valid, fin, c.seqnum_eq);
      no_end = eos;
      stored = (short, length-zeroed m short v.payload_size, λ h. cc);
      tokens_eq = rw eos (ap (map byte) (zeroed-data m v.payload_size short ∙ c.carried));
    }

-- The messages that a transit brings, and that they are the bytes.
record Brought (k seqnum processed : ℕ) (bytes : List ℕ) (queue rest : List Arrival) : Type 0 where
  ms : List Msg
  eos : Msg
  number : length ms ≡ k
  delivers : Delivers seqnum ms eos queue rest
  stored : All IsStored (ms ++ eos ∷ [])
  bytes_eq : stream (ms ++ eos ∷ []) ≡ map byte (drop processed bytes) ++ (mark ∷ [])
