-- ===== src/Socket/Sender.antt =====
-- a4/rcs_t.cc, the sending side: `acksend` and `send`. A loop has one unit of fuel more than there
-- are arrivals, or bytes, since each of its turns takes at least one.
use ece.Prelude.{
  ltb, ◌==◌, if◌then◌else◌, length, drop, u16_mod, ℕ, zero, suc, ◌+◌, ◌-◌, ◌%◌, min, Bool, true,
  false, not, ◌&&◌, ◌||◌, Option, List,
}
use ece.Msg.Flags
use ece.Msg.{Msg, control_msg, data_msg, default_msg, max_data_length}
use ece.Net.{Os}
use ece.Socket.Low.{memory, rawsend, lowrecv}
use ece.Socket.Monad.{ok, out_of_fuel, bind, M, pure, ◌>>=◌, ◌>>◌, get, modify_sock, asserted}

-- The message that the loop of `send` makes at `processed`.
abbrev pub chunk_msg : List ℕ → ℕ → List ℕ → ℕ → Option Msg
chunk_msg garbage seqnum bytes processed =
    data_msg garbage seqnum (drop processed bytes) (min (length bytes - processed) max_data_length)
      Flags.none

module _ (os : Os) where
  -- One round of the loop of `acksend`: whether the loop ends by its `break`.
  unfoldable pub ack_round : Msg → M Bool
  ack_round msg = do
    _ ← rawsend os msg
    garbage ← memory os
    r ← lowrecv os (default_msg garbage)
    pure (r.0 && r.1.seqnum == msg.seqnum)

  -- The loop of `acksend`.
  unfoldable pub ack_loop : ℕ → Msg → M (Unit {0})
  ack_loop zero msg s = out_of_fuel
  ack_loop (suc fuel) msg s =
      bind (ack_round msg s) λ r. elim (r.0 || r.1.sock.is_closing) [
        | true ↦ ok (tt, r.1)
        | false ↦ ack_loop fuel msg r.1
      ]

  -- `rcs_t::acksend`: what it copies to `*resp`. The loop's `response` is another variable than the
  -- one that is copied.
  unfoldable pub acksend : Msg → M Msg
  acksend msg = do
    garbage ← memory os
    s ← get
    ack_loop (suc (length (s.world.arrivals))) msg
    pure (default_msg garbage)

  -- The body of the loop of `send`.
  unfoldable pub send_chunk : List ℕ → ℕ → M (Unit {0})
  send_chunk bytes processed = do
    s ← get
    garbage ← memory os
    msg ← asserted (chunk_msg garbage (s.sock.send_seqnum) bytes processed)
    _ ← acksend msg
    modify_sock (λ s. record s { send_seqnum = (s.send_seqnum + 1) % u16_mod })

  -- The loop of `send`; a round sends at least one byte, so one more than there are bytes is enough
  -- fuel.
  unfoldable pub send_loop : ℕ → List ℕ → ℕ → M (Unit {0})
  send_loop zero bytes processed s = out_of_fuel
  send_loop (suc fuel) bytes processed s =
      elim (ltb processed (length bytes) && not (s.sock.is_closing)) [
        | true ↦
            bind (send_chunk bytes processed s)
              λ r. send_loop fuel bytes (processed + max_data_length) r.1
        | false ↦ ok (tt, s)
      ]

  -- The end of `send`.
  unfoldable pub send_eos : M (Unit {0})
  send_eos s =
      if s.sock.is_closing
      then ok (tt, s)
      else ((do
        garbage ← memory os
        _ ← acksend (control_msg garbage (s.sock.send_seqnum) Flags.eos)
        pure tt)
          s)

  -- `rcs_t::send`
  unfoldable pub send : List ℕ → M ℕ
  send bytes = do
    modify_sock (λ s. record s { send_seqnum = 0 })
    send_loop (suc (length bytes)) bytes 0
    send_eos
    pure (length bytes)
