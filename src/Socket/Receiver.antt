-- ===== src/Socket/Receiver.antt =====
-- a4/rcs_t.cc, the receiving side: `finalizeRecv` and `recv`. A loop has one unit of fuel more than
-- there are arrivals, since each of its turns takes at least one.
use ece.Prelude.{
  ◌==◌, if◌then◌else◌, length, u16_mod, ℕ, zero, suc, ◌+◌, ◌-◌, ◌%◌, Bool, true, false, not, ◌&&◌,
  ◌||◌, List, [], ℤ, failure,
}
use ece.Msg.Flags
use ece.Msg.{Msg, control_msg, default_msg, has_flag, valid}
use ece.Msg.Wire.{intact}
use ece.Buffer.{queue_message, empty, read}
use ece.Net.{Os}
use ece.Socket.Low.{memory, rawsend, rawrecv, set_timeout, recv_timeout, protocol_timeout}
use ece.Socket.Monad.{Socket, ok, out_of_fuel, bind, M, ◌>>=◌, ◌>>◌, get, asserted}

-- A message that `recv` waits for: it is queued, and the next one is expected.
abbrev pub take_message : Msg → Socket → Socket
take_message m s = record s {
  buffer = queue_message (s.buffer) m;
  recv_seqnum = (s.recv_seqnum + 1) % u16_mod;
}

module _ (os : Os) where
  -- The loop of `finalizeRecv`, with the variable `response`.
  unfoldable pub finalize_loop : ℕ → Msg → Msg → M (Unit {0})
  finalize_loop zero ack response s = out_of_fuel
  finalize_loop (suc fuel) ack response s = bind (rawrecv os response s) λ r.
      elim (r.0.0 == 0 || valid (r.0.1) && (r.0.1.seqnum == 0 && not (r.0.1.length == 0))) [
        | true ↦ ok (tt, r.1)
        | false ↦ bind (rawsend os ack r.1) λ q. finalize_loop fuel ack (r.0.1) q.1
      ]

  -- `rcs_t::finalizeRecv`
  unfoldable pub finalize_recv : Msg → M (Unit {0})
  finalize_recv ack = do
    set_timeout protocol_timeout
    garbage ← memory os
    s ← get
    finalize_loop (suc (length (s.world.arrivals))) ack (default_msg garbage)
    set_timeout recv_timeout

  -- `if (!isClosing_) rawsend(ack)`
  unfoldable pub reply : Msg → M ℤ
  reply ack s = if s.sock.is_closing then ok (failure, s) else rawsend os ack s

  -- The end of the inner loop's body: the acknowledgement, and at the end of a send its
  -- finalization. The value says whether the body ends by its `break`.
  unfoldable pub finish_round : Msg → Bool → M Bool
  finish_round ack is_end s =
      bind (reply ack s)
        λ r. if is_end then bind (finalize_recv ack r.1) (λ q. ok (true, q.1)) else ok (false, r.1)

  -- The inner loop's body behind `rawrecv`, at `bytes` other than 0. `ack` is the acknowledgement
  -- of the message before.
  unfoldable pub answer : Msg → ℕ → Msg → M Bool
  answer ack bytes m s =
      let is_end = intact bytes m && has_flag m Flags.eos in
      if intact bytes m && m.seqnum == s.sock.recv_seqnum
      then finish_round (record ack { seqnum = s.sock.recv_seqnum }) is_end
          (record s { sock = take_message m (s.sock) })
      else finish_round ack is_end s

  -- `if ((bytes = rawrecv(&response)))`
  unfoldable pub on_result : Msg → ℕ × Msg → M Bool
  on_result ack r s = if r.0 == 0 then ok (false, s) else answer ack (r.0) (r.1) s

  -- The body of the inner loop of `recv`.
  unfoldable pub recv_round : M Bool
  recv_round = do
    garbage ← memory os
    s ← get
    let ack = control_msg garbage ((s.sock.recv_seqnum + u16_mod - 1) % u16_mod) Flags.ack
    r ← rawrecv os (default_msg garbage)
    on_result ack r

  -- The inner loop of `recv`.
  unfoldable pub recv_inner : ℕ → M (Unit {0})
  recv_inner zero s = out_of_fuel
  recv_inner (suc fuel) s = elim s.sock.is_closing [
    | true ↦ ok (tt, s)
    | false ↦
        bind (recv_round s) λ r. elim r.0 [ true ↦ ok (tt, r.1) | false ↦ recv_inner fuel r.1 ]
  ]

  -- The outer loop of `recv`.
  unfoldable pub recv_outer : ℕ → M (Unit {0})
  recv_outer zero s = out_of_fuel
  recv_outer (suc fuel) s =
      let t = record s { sock = record (s.sock) { recv_seqnum = 0 } } in
      bind (recv_inner (suc (length t.world.arrivals)) t) λ r.
        elim (empty r.1.sock.buffer && not r.1.sock.is_closing) [
          | true ↦ recv_outer fuel r.1
          | false ↦ ok (tt, r.1)
        ]

  -- The end of `recv`: what it writes to the caller's buffer, and its result.
  unfoldable pub recv_read : ℕ → M (List ℕ × ℕ)
  recv_read max_length s =
      if s.sock.is_closing && empty s.sock.buffer
      then ok (([], 0), s)
      else bind (asserted (read s.sock.buffer max_length) s)
          λ r. ok ((r.0.0, r.0.1), record s { sock = record (s.sock) { buffer = r.0.2 } })

  -- `rcs_t::recv`
  unfoldable pub recv : ℕ → M (List ℕ × ℕ)
  recv max_length = do s ← get; recv_outer (suc (length (s.world.arrivals))); recv_read max_length
