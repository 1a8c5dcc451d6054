-- ===== src/Protocol/Delivered.antt =====
-- a4/rcs_t.cc: that a send arrives over channels that lose, cut, corrupt, repeat and reorder.
use ece.Prelude.{
  ltb, length, All, take_all, size_mod, IsByte, ℕ, ◌+◌, ◌*◌, ◌≤◌, ◌<◌, ◌≡◌, refl, ◌∙◌, ◌⊎◌, true,
  List, [], ◌∷◌, ◌++◌, map, arith,
}
use ece.Msg.Flags
use ece.Buffer.Tokens.{byte, mark, view}
use ece.Net.{Os}
use ece.Socket.Receiver.{recv_read}
use ece.Socket.Quiet.{Returns}
use ece.Socket.Sending.{rounds}
use ece.Socket.Transfer.{Received, recv_read-Received}
use ece.Socket.Chunks.{IsMemory}
use ece.Protocol.Echo.{IsUnforged}
use ece.Protocol.Messages.{delivered}
use ece.Protocol.Steps.{System, Reach, IsStart}
use ece.Protocol.Invariant.{Reach-IsAgreed}

delivered_all :
    (bytes : List ℕ) (k : ℕ)
    → k ≡ rounds (length bytes) + 1
    → delivered bytes k ≡ map byte bytes ++ mark ∷ []
delivered_all bytes k e =
    let at_end : ltb (rounds (length bytes)) k ≡ true = ground arith in
    rw (at_end, take_all (500 * k) bytes (omega arith)) refl

module _ (near far : Os) (bytes : List ℕ) (all_bytes : All IsByte bytes)
    (few : rounds (length bytes) < 65535) (near_noise : IsUnforged near)
    (far_noise : IsUnforged far) (memory : (t : ℕ) → IsMemory (far.memory t)) where
  -- A send makes fewer than 65535 messages with data, the receiver starts with nothing left to
  -- read, neither has sent a packet yet, and noise never passes for a message. Then after any
  -- rounds of both in any order, whatever the channels made of the packets and in whatever order,
  -- however often or never the network delivered them, the receiver's buffer holds the first whole
  -- messages of the send, each once and in order, and no more than one that the sender has not
  -- seen acknowledged.
  pub Reach-delivered :
      {y z : System}
      → IsStart near far bytes y
      → Reach near far bytes y z
      → (view z.receiver.sock.buffer ≡ delivered bytes z.receiver.sock.recv_seqnum)
        × (z.turn ≤ z.receiver.sock.recv_seqnum)
        × (z.receiver.sock.recv_seqnum ≤ z.turn + 1)
        × (z.receiver.sock.recv_seqnum ≤ rounds (length bytes) + 1)
  Reach-delivered i r =
      let v = Reach-IsAgreed near far bytes all_bytes few near_noise far_noise memory i r in
      (v.view_eq, v.ahead, v.one_ahead, v.last)

  -- A send makes fewer than 65535 messages with data, the receiver starts with nothing left to
  -- read, neither has sent a packet yet, and noise never passes for a message. Then once the send,
  -- of at least one byte, has returned, or the receiver has left its inner loop, the end of `recv`
  -- with a caller's buffer below 2 ^ 64 bytes returns the bytes of the send, all or as many as
  -- there is room for, and keeps the rest.
  pub Reach-Received :
      {y z : System} (room : ℕ)
      → room < size_mod
      → 0 < length bytes
      → IsStart near far bytes y
      → Reach near far bytes y z
      → (z.turn ≡ rounds (length bytes) + 1) ⊎ (z.received ≡ true)
      → Returns (recv_read far room z.receiver) (Received room bytes z.receiver.world.arrivals)
  Reach-Received {y} {z} room small some_bytes i r finished =
      let v = Reach-IsAgreed near far bytes all_bytes few near_noise far_noise memory i r in
      let k : z.receiver.sock.recv_seqnum ≡ rounds (length bytes) + 1 =
        ground (arith, v.ahead, v.last, v.done) in
      recv_read-Received far room bytes z.receiver.world.arrivals z.receiver small some_bytes
        (record {
          listening = refl;
          buffer = v.buffer;
          bytes = v.view_eq ∙ delivered_all bytes z.receiver.sock.recv_seqnum k;
          arrivals = refl;
          open_still = v.receiver_open;
        })
