-- ===== src/Buffer.antt =====
-- a4/msg_buffer_t.h and a4/msg_buffer_t.cc: the bytes that a socket has received and the program
-- has not read yet. One exists per socket. Sizes are `size_t`, and wrap at 2 ^ 64.
pub mod Tokens
pub mod Invariant
pub mod Promise
pub mod Copy
pub mod Refine
pub mod Sends
mod Tests
use ece.Prelude.{
  ltb, leb, ◌==◌, if◌then◌else◌, length, take, drop, add_size, sub_size, ℕ, zero, suc, ◌+◌, min,
  Bool, Option, none, some, List, [], ◌∷◌, ◌++◌, map,
}
use mathlib.Core.Option
use ece.Msg.Flags
use ece.Msg.{Msg, has_flag}

-- `msg_buffer_t`; the head of `queue` is the front of the deque.
pub record MsgBuffer : Type 0 where
  pub queue : List Msg
  pub total_size : ℕ
  pub offset : ℕ

unfoldable pub new_buffer : MsgBuffer
new_buffer = record { queue = []; total_size = 0; offset = 0 }

-- `msg_buffer_t::queueMessage`
unfoldable pub queue_message : MsgBuffer → Msg → MsgBuffer
queue_message b m = record b {
  queue = b.queue ++ (m ∷ []);
  total_size = add_size b.total_size m.length;
}

-- `msg_buffer_t::empty`
unfoldable pub empty : MsgBuffer → Bool
empty b = b.total_size == 0

-- The variables of the loop of `read`. `remaining` is `length`, and `dest` what has been copied to
-- the caller's buffer so far.
pub record Reading : Type 0 where
  pub queue : List Msg
  pub offset : ℕ
  pub remaining : ℕ
  pub written : ℕ
  pub dest : List ℕ

pub data Turn : Type 0 where
  stop : Reading → Turn
  go : Reading → Turn

-- The copying part of the loop's body.
unfoldable pub copy : Reading → Msg → List Msg → Reading
copy s front rest =
    let to_copy = min s.remaining (sub_size front.length s.offset) in
    let offset = add_size s.offset to_copy in
    record {
      queue = if leb front.length offset then rest else front ∷ rest;
      offset = if leb front.length offset then 0 else offset;
      remaining = sub_size s.remaining to_copy;
      written = add_size s.written to_copy;
      dest = s.dest ++ take to_copy (drop s.offset front.payload);
    }

-- The body of the loop at a front message; `break` is `stop`.
unfoldable pub visit : Reading → Msg → List Msg → Turn
visit s front rest =
    if has_flag front Flags.eos
    then (if s.written == 0
        then go (record s { queue = rest })
        else stop (record s { queue = rest }))
    else go (copy s front rest)

-- The test of the loop, and its body.
unfoldable pub turn : Reading → Turn
unfolding visit copy
turn s =
    if ltb 0 s.remaining
    then elim s.queue [ [] ↦ stop s | front ∷ rest ↦ visit s front rest ]
    else stop s

-- The loop, with fuel; `none` means that the fuel ran out.
unfoldable pub read_loop : ℕ → Reading → Option Reading
unfolding turn
read_loop zero s = none
read_loop (suc fuel) s = elim (turn s) [ stop s' ↦ some s' | go s' ↦ read_loop fuel s' ]

abbrev pub start : MsgBuffer → ℕ → Reading
start b n = record { queue = b.queue; offset = b.offset; remaining = n; written = 0; dest = [] }

abbrev pub finish : MsgBuffer → Reading → List ℕ × ℕ × MsgBuffer
finish b s = (
  s.dest,
  s.written,
  record { queue = s.queue; total_size = sub_size b.total_size s.written; offset = s.offset },
)

-- `msg_buffer_t::read`: the bytes written to `dest`, their number, and the buffer afterwards.
-- `none` is the assertion `!empty()`, or fuel that ran out; two turns more than there are messages
-- are enough.
unfoldable pub read : MsgBuffer → ℕ → Option (List ℕ × ℕ × MsgBuffer)
unfolding read_loop empty
read b n =
    if empty b
    then none
    else Option.map (finish b) (read_loop (suc (suc (length b.queue))) (start b n))
