-- ===== src/Buffer/Tests.antt =====
-- A run of the buffer, and examples of its theorems.
use ece.Prelude.{replicate, ℕ, ◌≡◌, refl, false, some, List, [], ◌∷◌, ◌++◌, map, arith}
use ece.Msg.{Msg, control_msg}
use ece.Buffer.{MsgBuffer, new_buffer, queue_message, empty, read}
use ece.Buffer.Tokens.{byte, mark, view}
use ece.Buffer.Invariant.{IsStored, IsBuffer, new_buffer-IsBuffer, queue_message-IsBuffer}
use ece.Buffer.Refine.{Reads, read-Reads}

-- "AB", and the end of that send
abbrev chunk : Msg
chunk = record {
  checksum = 1072;
  seqnum = 0;
  length = 2;
  flags = 0;
  payload = 65 ∷ 66 ∷ replicate 498 0;
}

abbrev end_of_send : Msg
end_of_send = record { checksum = 16; seqnum = 1; length = 0; flags = 2; payload = replicate 500 0 }

chunk-IsStored : IsStored chunk
unfolding ece.Msg.has_flag
chunk-IsStored = (omega arith, refl, λ h. absurd (cc))

end_of_send-IsStored : IsStored end_of_send
end_of_send-IsStored = (omega arith, refl, λ h. refl)

one : MsgBuffer
one = queue_message new_buffer chunk

one-IsBuffer : IsBuffer one
unfolding one
one-IsBuffer =
    queue_message-IsBuffer chunk chunk-IsStored (unfold new_buffer in omega arith)
      new_buffer-IsBuffer

both : MsgBuffer
both = queue_message one end_of_send

both_total : both.total_size ≡ 2
unfolding both one queue_message new_buffer
both_total = refl

both-view : view both ≡ map byte (65 ∷ 66 ∷ []) ++ (mark ∷ [])
unfolding both one queue_message new_buffer ece.Msg.has_flag
both-view = refl

both_full : empty both ≡ false
unfolding empty both one queue_message new_buffer
both_full = refl

both-IsBuffer : IsBuffer both
unfolding both one
both-IsBuffer =
    queue_message-IsBuffer end_of_send end_of_send-IsStored
      (unfold new_buffer queue_message in omega arith) one-IsBuffer

first_byte : (b : MsgBuffer) × (read both 1 ≡ some (65 ∷ [], 1, b))
unfolding read both one queue_message new_buffer ece.Buffer.read_loop ece.Buffer.turn
    ece.Buffer.visit ece.Buffer.copy ece.Buffer.empty ece.Msg.has_flag
first_byte = (_, refl)

queue_message-IsBuffer_example : IsBuffer (queue_message one end_of_send)
queue_message-IsBuffer_example =
    queue_message-IsBuffer end_of_send end_of_send-IsStored
      (unfold one new_buffer queue_message in omega arith) one-IsBuffer

read-Reads_example : (r : List ℕ × ℕ × MsgBuffer) × (read both 1 ≡ some r) × Reads both 1 r
read-Reads_example = read-Reads both 1 both-IsBuffer (omega arith) both_full
