-- ===== src/Protocol/Tests.antt =====
-- Examples of the theorems on a sender and a receiver: "AB" is sent and received.
use mathlib.Core.Option.{some-injective}
use ece.Prelude.{
  length, replicate, All, All-replicate, IsByte, ℕ, ◌≤◌, ◌≡◌, refl, sym, ◌∙◌, inl, inr, Bool, true,
  false, some, List, [], ◌∷◌, arith, pos,
}
use ece.Msg.Flags
use ece.Msg.{Msg, control_msg, get_total_length, data_msg, valid, has_flag, deserialize}
use ece.Msg.Wire.{wire, buffer_of, intact}
use ece.Buffer.{new_buffer, empty, read, read_loop, turn, visit, copy}
use ece.Buffer.Tokens.{view}
use ece.Buffer.Invariant.{new_buffer-IsBuffer}
use ece.Net.{Arrival, Packet, datagram, failed, eagain}
use ece.Net.Ucp.{get_rand, send_out, ucp_send_to}
use ece.Net.Sample.{calm, world_with, host}
use ece.Socket.Monad.{State, Run, ok}
use ece.Socket.Low.{set_timeout, rawsend, rawrecv, lowrecv, on_arrival, got_packet}
use ece.Socket.Sender.{ack_round, ack_loop, acksend, send_chunk, send_loop, send_eos, send}
use ece.Socket.Receiver.{
  recv, recv_outer, recv_inner, recv_read, recv_round, on_result, answer, finish_round, reply,
  finalize_recv, finalize_loop,
}
use ece.Buffer.{queue_message}
use ece.Socket.Quiet.{Returns, heard}
use ece.Socket.Transfer.{Received}
use ece.Socket.Chunks.{IsMemory}
use ece.Protocol.Noise.{calm-IsUnforged}
use ece.Protocol.Echo.{Comes}
use ece.Protocol.Messages.{Made, delivered}
use ece.Protocol.Steps.{
  System, give, advance, sends, waits, goes_on, receives, Reach, here, next, IsStart,
}
use ece.Protocol.Kept.{NotFin}
use ece.Protocol.Acking.{Moves}
use ece.Protocol.Runs.{send-Moves}
use ece.Protocol.Turns.{Listens, recv-Listens}
use ece.Protocol.Delivered.{Reach-delivered, Reach-Received}

abbrev zeros : List ℕ
zeros = replicate 500 0

abbrev text : List ℕ
text = 65 ∷ 66 ∷ []

zeros-IsMemory : IsMemory zeros
zeros-IsMemory = (refl, All-replicate IsByte 500 0 (omega arith))

abbrev start_state : State
start_state = record {
  sock = record {
    ucp_socket = pos 3;
    is_listener = false;
    end_point = host;
    buffer = record { queue = []; total_size = 0; offset = 0 };
    send_seqnum = 0;
    recv_seqnum = 0;
    has_endpoint = true;
    from_endpoint = host;
    is_closing = false;
  };
  world = world_with [];
}

abbrev chunk : Msg
chunk = record {
  checksum = 1072;
  seqnum = 0;
  length = 2;
  flags = 0;
  payload = 65 ∷ 66 ∷ replicate 498 0;
}

abbrev state_of : State → Run (Bool × State) → State
state_of s (ok r) = r.1
state_of s _ = s

abbrev timeout : List Arrival
timeout = failed eagain ∷ []

abbrev packet : Msg → Arrival
packet m = datagram (wire m) host

abbrev bare : ℕ → ℕ → Msg
bare seqnum flags = record {
  checksum = 16;
  seqnum = seqnum;
  length = 0;
  flags = flags;
  payload = zeros;
}

-- The bytes are sent and received, and acknowledged; then the end of the send is.
abbrev sender_1 : State
sender_1 = state_of start_state (ack_round calm chunk (give timeout start_state))

abbrev receiver_1 : State
receiver_1 = state_of start_state (recv_round calm (give (packet chunk ∷ []) start_state))

abbrev sender_2 : State
sender_2 =
    state_of start_state (ack_round calm chunk (give (packet (bare 0 Flags.ack) ∷ []) sender_1))

abbrev sender_3 : State
sender_3 =
    state_of start_state (ack_round calm (bare 1 Flags.eos) (give timeout (advance sender_2)))

abbrev receiver_2 : State
receiver_2 =
    state_of start_state (recv_round calm (give (packet (bare 1 Flags.eos) ∷ timeout) receiver_1))

rounds_run :
    (ack_round calm chunk (give timeout start_state) ≡ ok (false, sender_1))
    × (recv_round calm (give (packet chunk ∷ []) start_state) ≡ ok (false, receiver_1))
    × (ack_round calm chunk (give (packet (bare 0 Flags.ack) ∷ []) sender_1) ≡ ok (true, sender_2))
    × (ack_round calm (bare 1 Flags.eos) (give timeout (advance sender_2)) ≡ ok (false, sender_3))
    × (recv_round calm (give (packet (bare 1 Flags.eos) ∷ timeout) receiver_1)
        ≡ ok (true, receiver_2))
unfolding ack_round rawsend lowrecv rawrecv on_arrival got_packet ucp_send_to get_rand send_out wire
    ece.Msg.serialize intact valid ece.Msg.checksum_of ece.Msg.last_byte ece.Msg.default_msg
    get_total_length buffer_of deserialize has_flag control_msg recv_round on_result answer
    finish_round reply finalize_recv finalize_loop set_timeout queue_message
rounds_run = (refl, refl, refl, refl, refl)

packets_come :
    Comes sender_1.world.sent (packet chunk)
    × Comes receiver_1.world.sent (packet (bare 0 Flags.ack))
    × Comes sender_3.world.sent (packet (bare 1 Flags.eos))
unfolding ack_round rawsend lowrecv rawrecv on_arrival got_packet ucp_send_to get_rand send_out wire
    ece.Msg.serialize intact valid ece.Msg.checksum_of ece.Msg.last_byte ece.Msg.default_msg
    get_total_length buffer_of deserialize has_flag control_msg recv_round on_result answer
    finish_round reply finalize_recv finalize_loop set_timeout queue_message
packets_come = (inl (host, refl), inl (host, refl), inl (host, refl))

timeout-Comes : (log : List Packet) → Comes log (failed eagain)
unfolding heard
timeout-Comes [] = refl
timeout-Comes (p ∷ log) = inr (timeout-Comes log)

chunk-Made : Made text 0 0 chunk
unfolding data_msg ece.Msg.checksum_of
chunk-Made = (zeros, zeros-IsMemory, inl (omega arith, refl))

end-Made : Made text 1 (advance sender_2).sock.send_seqnum (bare 1 Flags.eos)
unfolding ack_round rawsend lowrecv rawrecv on_arrival got_packet ucp_send_to get_rand send_out wire
    ece.Msg.serialize intact valid ece.Msg.checksum_of ece.Msg.last_byte ece.Msg.default_msg
    get_total_length buffer_of deserialize has_flag control_msg recv_round on_result answer
    finish_round reply finalize_recv finalize_loop set_timeout queue_message
end-Made = (zeros, zeros-IsMemory, inr (refl, refl))

abbrev start_system : System
start_system = record {
  turn = 0;
  msg = chunk;
  sender = start_state;
  receiver = start_state;
  received = false;
}

abbrev end_system : System
end_system = record {
  turn = 1;
  msg = bare 1 Flags.eos;
  sender = sender_3;
  receiver = receiver_2;
  received = true;
}

abbrev halfway : System
halfway = record {
  turn = 0;
  msg = chunk;
  sender = sender_1;
  receiver = receiver_1;
  received = false;
}

start_system-IsStart : IsStart calm calm text start_system
start_system-IsStart = record {
  first = refl;
  made = chunk-Made;
  sender_open = refl;
  receiver_open = refl;
  send_zero = refl;
  recv_zero = refl;
  sender_silent = refl;
  receiver_silent = refl;
  buffer = unfold new_buffer in new_buffer-IsBuffer;
  none_left = refl;
  waiting = refl;
}

half_of_the_way : Reach calm calm text start_system halfway
half_of_the_way =
    next
      (next here
        (sends (failed eagain) [] (timeout-Comes [], tt) (waits (omega arith) rounds_run.0)))
      (receives (packet chunk) [] refl (packets_come.0, tt) rounds_run.1)

all_the_way : Reach calm calm text start_system end_system
all_the_way =
    next
      (next
        (next half_of_the_way (
          sends (packet (bare 0 Flags.ack)) [] (packets_come.1, tt)
            (goes_on (bare 1 Flags.eos) (omega arith) rounds_run.2 end-Made)))
        (sends (failed eagain) [] (timeout-Comes receiver_1.world.sent, tt)
          (waits (omega arith) rounds_run.3)))
      (receives (packet (bare 1 Flags.eos)) timeout refl
        (packets_come.2, (timeout-Comes sender_3.world.sent, tt)) rounds_run.4)

text-bytes : All IsByte text
text-bytes = (omega arith, (omega arith, tt))

Reach-delivered_example :
    (view receiver_2.sock.buffer ≡ delivered text receiver_2.sock.recv_seqnum)
    × (1 ≤ receiver_2.sock.recv_seqnum)
    × (receiver_2.sock.recv_seqnum ≤ 2)
    × (receiver_2.sock.recv_seqnum ≤ 2)
Reach-delivered_example =
    Reach-delivered calm calm text text-bytes (omega arith) calm-IsUnforged calm-IsUnforged
      (λ t. zeros-IsMemory) start_system-IsStart all_the_way

Reach-Received_example :
    Returns (recv_read calm 1 receiver_2) (Received 1 text receiver_2.world.arrivals)
Reach-Received_example =
    Reach-Received calm calm text text-bytes (omega arith) calm-IsUnforged calm-IsUnforged
      (λ t. zeros-IsMemory) 1 (omega arith) (omega arith) start_system-IsStart all_the_way
      (inr refl)

abbrev acks : List Arrival
acks = failed eagain ∷ packet (bare 0 Flags.ack) ∷ packet (bare 1 Flags.ack) ∷ []

abbrev sent_state : Run (ℕ × State) → State
sent_state (ok r) = r.1
sent_state _ = start_state

abbrev all_sent : State
all_sent = sent_state (send calm text (give acks start_state))

send_run : send calm text (give acks start_state) ≡ ok (2, all_sent)
unfolding ack_round rawsend lowrecv rawrecv on_arrival got_packet ucp_send_to get_rand send_out wire
    ece.Msg.serialize intact valid ece.Msg.checksum_of ece.Msg.last_byte ece.Msg.default_msg
    get_total_length buffer_of deserialize has_flag control_msg recv_round on_result answer
    finish_round reply finalize_recv finalize_loop set_timeout queue_message heard send send_loop
    send_chunk send_eos acksend ack_loop data_msg
send_run = refl

acks-heard :
    (heard (packet (bare 0 Flags.ack)) ≡ some (bare 0 Flags.ack))
    × (heard (packet (bare 1 Flags.ack)) ≡ some (bare 1 Flags.ack))
unfolding ack_round rawsend lowrecv rawrecv on_arrival got_packet ucp_send_to get_rand send_out wire
    ece.Msg.serialize intact valid ece.Msg.checksum_of ece.Msg.last_byte ece.Msg.default_msg
    get_total_length buffer_of deserialize has_flag control_msg recv_round on_result answer
    finish_round reply finalize_recv finalize_loop set_timeout queue_message heard
acks-heard = (refl, refl)

heard-NotFin : (a : Arrival) (m : Msg) → heard a ≡ some m → has_flag m Flags.fin ≡ false → NotFin a
heard-NotFin a m e f x h = rw (← some-injective m x (sym e ∙ h)) f

timeout-NotFin : NotFin (failed eagain)
unfolding heard
timeout-NotFin m h = absurd (cc)

send-Moves_example :
    (2 ≡ length text)
    × (first : Msg) × (last : Msg) × Made text 0 0 first
    × Moves calm text 0 first (give acks start_state) 2 last all_sent
send-Moves_example =
    send-Moves calm text 2 (give acks start_state) all_sent (λ t. zeros-IsMemory) refl
      (
        timeout-NotFin,
        (
          heard-NotFin _ (bare 0 Flags.ack) acks-heard.0 (unfold has_flag in refl),
          (heard-NotFin _ (bare 1 Flags.ack) acks-heard.1 (unfold has_flag in refl), tt),
        ),
      )
      send_run

abbrev packets : List Arrival
packets = packet chunk ∷ packet (bare 1 Flags.eos) ∷ timeout

abbrev received_state : Run ((List ℕ × ℕ) × State) → State
received_state (ok r) = r.1
received_state _ = start_state

abbrev all_received : State
all_received = received_state (recv calm 10 (give packets start_state))

recv_run : recv calm 10 (give packets start_state) ≡ ok ((text, 2), all_received)
unfolding rawsend rawrecv on_arrival got_packet ucp_send_to get_rand send_out wire ece.Msg.serialize
    intact valid ece.Msg.checksum_of ece.Msg.last_byte ece.Msg.default_msg get_total_length
    buffer_of deserialize has_flag control_msg recv_round on_result answer finish_round reply
    finalize_recv finalize_loop set_timeout queue_message recv recv_outer recv_inner recv_read empty
    read read_loop turn visit copy
recv_run = refl

packets-heard :
    (heard (packet chunk) ≡ some chunk)
    × (heard (packet (bare 1 Flags.eos)) ≡ some (bare 1 Flags.eos))
unfolding wire ece.Msg.serialize intact valid ece.Msg.checksum_of ece.Msg.last_byte get_total_length
    buffer_of deserialize heard
packets-heard = (refl, refl)

recv-Listens_example :
    (u : State) × Listens calm (give packets start_state) u
    × (u.sock.is_closing ≡ false)
    × (recv_read calm 10 u ≡ ok ((text, 2), all_received))
recv-Listens_example =
    recv-Listens calm 10 (text, 2) (give packets start_state) all_received refl
      (
        heard-NotFin _ chunk packets-heard.0 (unfold has_flag in refl),
        (
          heard-NotFin _ (bare 1 Flags.eos) packets-heard.1 (unfold has_flag in refl),
          (timeout-NotFin, tt),
        ),
      )
      recv_run
