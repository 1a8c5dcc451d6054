-- ===== src/Buffer/Invariant.antt =====
-- When a buffer is well formed, and that `queueMessage` keeps it so and adds the message's stream.
use ece.Prelude.{
  Bool-cases, length, take, drop, All, length-append, length-take, drop-append_left, length-map,
  All-append, size_mod, ℕ, ◌+◌, ◌≤◌, ◌<◌, ◌≡◌, refl, sym, ◌∙◌, ◌↔◌, ◌⊎◌, inl, inr, true, false,
  List, [], ◌∷◌, ◌++◌, append-nil, append_assoc, arith,
}
use ece.Msg.Flags
use ece.Msg.{Msg, has_flag, max_data_length}
use ece.Buffer.{MsgBuffer, new_buffer, queue_message, empty}
use ece.Buffer.Tokens.{byte, tokens, stream, view, count, stream-append, count-append, count-bytes}

-- A message as `rcs_t::recv` queues it: no longer than the array, and without data if it ends a
-- send.
abbrev pub IsStored : Msg → Type 0
IsStored m =
    (m.length ≤ max_data_length)
    × (length m.payload ≡ max_data_length)
    × (has_flag m Flags.eos ≡ true → m.length ≡ 0)

-- The offset lies inside the data of the front message.
abbrev pub StartsIn : ℕ → List Msg → Type 0
StartsIn offset [] = offset ≡ 0
StartsIn offset (m ∷ ms) = (offset ≡ 0) ⊎ (has_flag m Flags.eos ≡ false) × (offset < m.length)

pub record IsBuffer (b : MsgBuffer) : Type 0 where
  pub stored : All IsStored b.queue
  pub starts : StartsIn b.offset b.queue
  pub total : b.total_size ≡ count (view b)
  pub fits : b.total_size < size_mod

pub length-tokens :
    (m : Msg) → IsStored m → has_flag m Flags.eos ≡ false → length (tokens m) ≡ m.length
length-tokens m st e =
    rw e (omega (arith, length-map byte (take m.length m.payload), length-take m.length m.payload))

pub count-tokens : (m : Msg) → IsStored m → count (tokens m) ≡ m.length
count-tokens m st = elim (Bool-cases (has_flag m Flags.eos)) [
  | inl e ↦ rw e (omega (arith, st.2 e))
  | inr e ↦
      rw e (omega (arith, count-bytes (take m.length m.payload), length-take m.length m.payload))
]

-- The start of the front message's stream, without what has been read of it.
pub drop-stream :
    (offset : ℕ) (m : Msg) (ms ns : List Msg)
    → IsStored m
    → StartsIn offset (m ∷ ms)
    → drop offset (stream ((m ∷ ms) ++ ns)) ≡ drop offset (stream (m ∷ ms)) ++ stream ns
drop-stream offset m ms ns st (inl e) =
    rw (e, stream-append ms ns) (sym (append_assoc (tokens m) (stream ms) (stream ns)))
drop-stream offset m ms ns st (inr (data_front, lt)) =
    let len = length-tokens m st data_front in
    rw
      (
        stream-append ms ns,
        ← append_assoc (tokens m) (stream ms) (stream ns),
        drop-append_left offset (tokens m ++ stream ms) (stream ns)
            (omega (arith, length-append (tokens m) (stream ms))),
      )
      refl

view-append :
    (offset : ℕ) (ms ns : List Msg)
    → All IsStored ms
    → StartsIn offset ms
    → drop offset (stream (ms ++ ns)) ≡ drop offset (stream ms) ++ stream ns
view-append offset [] ns st e = rw e refl
view-append offset (m ∷ ms) ns st e = drop-stream offset m ms ns st.0 e

-- In a well-formed buffer a queued message's bytes come behind all that was there; an end-of-send
-- message adds a mark.
pub view-queue_message :
    {b : MsgBuffer} (m : Msg) → IsBuffer b → view (queue_message b m) ≡ view b ++ tokens m
unfolding queue_message
view-queue_message {b} m v =
    view-append b.offset b.queue (m ∷ []) v.stored v.starts ∙ rw (append-nil (tokens m)) refl

StartsIn-append :
    (offset : ℕ) (ms : List Msg) (m : Msg) → StartsIn offset ms → StartsIn offset (ms ++ m ∷ [])
StartsIn-append offset [] m e = inl e
StartsIn-append offset (x ∷ ms) m e = e

-- `queueMessage` keeps a buffer well formed, if the message has at most 500 bytes of data, and none
-- if it ends a send, and the total fits `size_t`.
pub queue_message-IsBuffer :
    {b : MsgBuffer} (m : Msg)
    → IsStored m
    → b.total_size + m.length < size_mod
    → IsBuffer b
    → IsBuffer (queue_message b m)
queue_message-IsBuffer {b} m st small v = record {
  stored = unfold queue_message in All-append IsStored b.queue (m ∷ []) v.stored (st, tt);
  starts = unfold queue_message in StartsIn-append b.offset b.queue m v.starts;
  total = total_ok;
  fits = unfold queue_message in omega arith;
}
  where
    total_ok : (queue_message b m).total_size ≡ count (view (queue_message b m))
    total_ok =
        rw (view-queue_message m v, count-append (view b) (tokens m), count-tokens m st)
          (unfold queue_message in omega (arith, v.total))

pub new_buffer-IsBuffer : IsBuffer new_buffer
unfolding new_buffer
new_buffer-IsBuffer = record { stored = tt; starts = refl; total = refl; fits = omega arith }

-- `empty` is true of a well-formed buffer exactly if its stream holds no byte.
pub empty_iff : {b : MsgBuffer} → IsBuffer b → (empty b ≡ true) ↔ (count (view b) ≡ 0)
unfolding empty
empty_iff v = (λ h. ground (arith, v.total), λ h. ground (arith, v.total))

-- Below the limit of `size_t` the total just grows.
pub total_size-queue_message :
    (b : MsgBuffer) (m : Msg)
    → b.total_size + m.length < size_mod
    → (queue_message b m).total_size ≡ b.total_size + m.length
unfolding queue_message
total_size-queue_message b m h = omega arith
