-- ===== src/Socket/Low.antt =====
-- a4/rcs_t.cc, the methods next to the channel: `rawsend`, `close`, `rawrecv` and `lowrecv`.
use ece.Prelude.{◌==◌, if◌then◌else◌, ℕ, zero, suc, Bool, true, ◌&&◌, List, [], ◌∷◌, ℤ}
use ece.Msg.Flags
use ece.Msg.{Msg, control_msg, deserialize, has_flag}
use ece.Msg.Wire.{wire, buffer_of, byte_count, intact}
use ece.Net.{Addr, Arrival, datagram, failed, Os, tick, eagain}
use ece.Net.Ucp.{ucp_send_to}
use ece.Socket.Monad.{
  Socket, State, ok, blocked, aborted, M, pure, ◌>>=◌, ◌>>◌, get, modify_sock, modify_world,
}

abbrev pub recv_timeout : ℕ
recv_timeout = 10

abbrev pub protocol_timeout : ℕ
protocol_timeout = 500

-- `rcs_t::setEndpoint`
abbrev pub set_endpoint : Addr → Socket → Socket
set_endpoint addr s = record s { end_point = addr; has_endpoint = true }

-- `rcs_t::setTimeout`
unfoldable pub set_timeout : ℕ → M (Unit {0})
set_timeout ms s =
    modify_world (λ w. record w { timeouts = (s.sock.ucp_socket, ms) ∷ w.timeouts }) s

module _ (os : Os) where
  -- What the next local variable that is not initialised holds.
  abbrev pub memory : M (List ℕ)
  memory s = ok (os.memory s.world.clock, s)

  -- `rcs_t::rawsend`
  unfoldable pub rawsend : Msg → M ℤ
  rawsend m s =
      if m.length == 0 && m.flags == Flags.none
      then aborted
      else (let (r, w) = ucp_send_to os s.sock.ucp_socket (wire m) s.sock.end_point s.world in
          ok (r, record s { world = w }))

  -- The loop of `close`.
  unfoldable pub send_fins : ℕ → M (Unit {0})
  send_fins zero = pure tt
  send_fins (suc n) = do
    garbage ← memory
    _ ← rawsend (control_msg garbage 666 Flags.fin)
    send_fins n

  abbrev pub fin_count : ℕ
  fin_count = 2048

  -- `rcs_t::close`
  unfoldable pub close : M (Unit {0})
  close = do
    modify_sock (λ s. record s { is_closing = true })
    send_fins fin_count
    s ← get
    modify_world (λ w. record w { closed = s.sock.ucp_socket ∷ w.closed })

  -- `if (!hasEndpoint_) setEndpoint(&fromEndpoint_)`
  abbrev pub adopt_endpoint : State → State
  adopt_endpoint s =
      if s.sock.has_endpoint
      then s
      else record s { sock = set_endpoint s.sock.from_endpoint s.sock }

  -- The end of `rawrecv`, at a packet of `n` bytes that reads as `m`.
  unfoldable pub got_packet : ℕ → Msg → M (ℕ × Msg)
  got_packet n m = do if intact n m && has_flag m Flags.fin then close else pure tt; pure (n, m)

  -- The rest of `rawrecv` behind the call of `recvfrom`. An empty datagram leaves `errno` as it
  -- was.
  unfoldable pub on_arrival : Msg → Arrival → M (ℕ × Msg)
  on_arrival out (failed e) s = ok (
    (if e == eagain then 0 else 1, out),
    adopt_endpoint (record s { world = record (s.world) { errno = e } }),
  )
  on_arrival out (datagram d from) s =
      let t = adopt_endpoint (record s { sock = record (s.sock) { from_endpoint = from } }) in
      if byte_count d == 0
      then ok ((if t.world.errno == eagain then 0 else 1, out), t)
      else got_packet (byte_count d) (deserialize (buffer_of d)) t

  -- `rcs_t::rawrecv`: its result, and what it leaves in `*out`.
  unfoldable pub rawrecv : Msg → M (ℕ × Msg)
  rawrecv out s = elim s.world.arrivals [
    | [] ↦ blocked
    | a ∷ rest ↦ on_arrival out a (record s { world = record (tick s.world) { arrivals = rest } })
  ]

  -- `rcs_t::lowrecv`
  unfoldable pub lowrecv : Msg → M (Bool × Msg)
  lowrecv out = do r ← rawrecv out; pure (intact r.0 r.1, r.1)
