-- ===== src/Socket/Tests.antt =====
-- Examples of the theorems on sockets: "AB" is sent and received.
use ece.Prelude.{
  replicate, All, All-replicate, u16_mod, IsByte, ℕ, ◌<◌, ◌≡◌, refl, inl, true, false, some, List,
  [], ◌∷◌, ◌++◌, map, arith, pos,
}
use ece.Msg.Flags
use ece.Msg.{Msg, IsMsg, default_msg, valid, has_flag}
use ece.Msg.Wire.{wire, zeroed}
use ece.Buffer.{new_buffer}
use ece.Buffer.Tokens.{byte, mark, stream}
use ece.Buffer.Invariant.{IsStored, IsBuffer, new_buffer-IsBuffer}
use ece.Net.{Arrival, datagram, failed, eagain}
use ece.Net.Sample.{calm, world_with, host}
use ece.Socket.Monad.{Socket, State, blocked}
use ece.Socket.Quiet.{heard, Returns}
use ece.Socket.Acks.{Ignored, Acks}
use ece.Socket.Receiver.{recv}
use ece.Socket.Inbox.{Delivers}
use ece.Api.{Process}
use ece.Socket.Methods.{connect}
use ece.Socket.Connecting.{Connected, connect-Connected}
use ece.Socket.Waiting.{recv-blocked}
use ece.Socket.Chunks.{IsMemory, heard-wire}

abbrev zeros : List ℕ
zeros = replicate 500 0

abbrev text : List ℕ
text = 65 ∷ 66 ∷ []

zeros-IsMemory : IsMemory zeros
zeros-IsMemory = (refl, All-replicate IsByte 500 0 (omega arith))

abbrev socket_3 : Socket
socket_3 = record {
  ucp_socket = pos 3;
  is_listener = false;
  end_point = host;
  buffer = record { queue = []; total_size = 0; offset = 0 };
  send_seqnum = 0;
  recv_seqnum = 0;
  has_endpoint = true;
  from_endpoint = host;
  is_closing = false;
}

abbrev with_arrivals : List Arrival → State
with_arrivals arrivals = record { sock = socket_3; world = world_with arrivals }

-- A message with no data, and a chunk.
abbrev bare : ℕ → ℕ → Msg
bare seqnum flags = record {
  checksum = 16;
  seqnum = seqnum;
  length = 0;
  flags = flags;
  payload = zeros;
}

abbrev chunk : Msg
chunk = record {
  checksum = 1072;
  seqnum = 0;
  length = 2;
  flags = 0;
  payload = 65 ∷ 66 ∷ replicate 498 0;
}

bare-IsMsg : (seqnum flags : ℕ) → seqnum < u16_mod → flags < 8 → IsMsg (bare seqnum flags)
bare-IsMsg seqnum flags h k = record {
  checksum_word = omega arith;
  seqnum_word = h;
  length_word = omega arith;
  flags_word = omega arith;
  payload_size = refl;
  payload_bytes = zeros-IsMemory.1;
}

chunk-IsMsg : IsMsg chunk
chunk-IsMsg = record {
  checksum_word = omega arith;
  seqnum_word = omega arith;
  length_word = omega arith;
  flags_word = omega arith;
  payload_size = refl;
  payload_bytes = (omega arith, (omega arith, All-replicate IsByte 498 0 (omega arith)));
}

chunk_valid : valid chunk ≡ true
unfolding valid ece.Msg.checksum_of ece.Msg.last_byte ece.Msg.serialize
chunk_valid = refl

bare-valid :
    (seqnum : ℕ) → (valid (bare seqnum Flags.ack) ≡ true) × (valid (bare seqnum Flags.eos) ≡ true)
unfolding valid ece.Msg.checksum_of ece.Msg.last_byte ece.Msg.serialize
bare-valid seqnum = (refl, refl)

abbrev ack : ℕ → Arrival
ack n = datagram (wire (bare n Flags.ack)) host

ack-Acks : (n : ℕ) → n < u16_mod → Acks n (ack n)
unfolding has_flag
ack-Acks n h = (
  zeroed (bare n Flags.ack),
  heard-wire host (bare-IsMsg n Flags.ack h (omega arith)) (bare-valid n).0,
  refl,
  refl,
)

timeout : Ignored 0 (failed eagain)
unfolding heard
timeout = inl refl

abbrev acks : List Arrival
acks = failed eagain ∷ ack 0 ∷ ack 1 ∷ []

abbrev eos : Arrival
eos = datagram (wire (bare 1 Flags.eos)) host

abbrev sent : List Arrival
sent = failed eagain ∷ datagram (wire chunk) host ∷ eos ∷ eos ∷ failed eagain ∷ []

empty-IsBuffer : IsBuffer socket_3.buffer
empty-IsBuffer = unfold new_buffer in new_buffer-IsBuffer

abbrev heard_eos : Msg
heard_eos = zeroed (bare 1 Flags.eos)

eos_heard : heard eos ≡ some heard_eos
eos_heard = heard-wire host (bare-IsMsg 1 Flags.eos (omega arith) (omega arith)) (bare-valid 1).1

abbrev Again : Arrival → Type 0
Again a = (m : Msg) × (heard a ≡ some m) × (has_flag m Flags.fin ≡ false) × (m.length ≡ 0)

eos-Again : Again eos
unfolding has_flag
eos-Again = (heard_eos, eos_heard, refl, refl)

abbrev heard_chunk : Msg
heard_chunk = zeroed chunk

heard-IsStored : All IsStored (heard_chunk ∷ heard_eos ∷ [])
unfolding has_flag
heard-IsStored = ((omega arith, refl, λ h. absurd (cc)), ((omega arith, refl, λ h. refl), tt))

heard_stream : stream (heard_chunk ∷ heard_eos ∷ []) ≡ map byte text ++ (mark ∷ [])
unfolding has_flag
heard_stream = refl

delivered : Delivers 0 (heard_chunk ∷ []) heard_eos sent []
unfolding heard has_flag
delivered = (
  failed eagain ∷ [],
  datagram (wire chunk) host,
  eos ∷ eos ∷ failed eagain ∷ [],
  refl,
  (inl refl, tt),
  (heard-wire host chunk-IsMsg chunk_valid, refl, refl),
  refl,
  ([], eos, eos ∷ [], refl, tt, (eos_heard, refl, refl), refl, (eos-Again, tt)),
)

recv-blocked_example : recv calm 10 (with_arrivals (failed eagain ∷ [])) ≡ blocked
recv-blocked_example =
    recv-blocked calm 10 (with_arrivals (failed eagain ∷ [])) refl (unfold heard in (inl refl, tt))

abbrev accepted : List Arrival
accepted = acks ++ sent

-- The server's port, 66 * 256 + 65, behind the acknowledgements.
connect-Connected_example :
    Returns (connect calm host (with_arrivals accepted)) (Connected calm 16961 [])
connect-Connected_example =
    connect-Connected calm host (with_arrivals accepted) (heard_chunk ∷ []) heard_eos 65 66 sent []
      refl empty-IsBuffer refl
      (
        failed eagain ∷ [],
        ack 0,
        ack 1 ∷ sent,
        refl,
        (timeout, tt),
        ack-Acks 0 (omega arith),
        ([], ack 1, sent, refl, tt, ack-Acks 1 (omega arith), refl),
      )
      (omega arith) heard-IsStored heard_stream delivered

-- A listener on descriptor 4, and a client that sends "AB".
abbrev calling : List Arrival
calling = sent ++ acks

abbrev with_listener : Process
with_listener = record {
  table = record { sockets = (4, record socket_3 { is_listener = true }) ∷ []; next_id = 5 };
  world = world_with calling;
}
