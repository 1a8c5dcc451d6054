-- ===== src/Socket/Fuel.antt =====
-- That no loop of a socket runs out of fuel: a round of a loop that waits takes an arrival.
pub mod Send
pub mod Receive
use ece.Prelude.{
  ltb, leb, ◌==◌, if◌then◌else◌, lt→ltb, ge→ltb, le→leb, ltb→lt, leb→le, ==_iff, ==-refl, ==_ne,
  tests, Bool-cases, Option-cases, passes_below, passes_below_lem, if-elim, length, get_or, set,
  take, drop, replicate, All, length-append, length-take, length-drop, length-replicate,
  take-append-drop, take_all, take-append_left, drop_all, drop-drop, get_or-pad_in,
  get_or-replicate, get_or-pad_out, get_or-All, get_or-set_ne, drop-append_left, take-drop-take,
  drop-map, length-map, All-append, All-replicate, u16_mod, u32_mod, size_mod, add_size, sub_size,
  IsByte, le16, le32, of_le16, of_le32, of_le16-le16, of_le32-le32, ℕ, zero, suc, ◌+◌, ◌-◌, ◌*◌,
  ◌/◌, ◌%◌, ◌^◌, ◌≤◌, ◌<◌, min, bit_and, bit_or, ◌≡◌, refl, sym, ap, ap₂, subst, ◌∙◌, ◌≢◌, ◌↔◌, ◌⊎◌,
  inl, inr, Bool, true, false, not, ◌&&◌, ◌||◌, Option, none, some, List, [], ◌∷◌, ◌++◌, map,
  append-nil, append_assoc, arith, dec_lt, dec_le, ℕ_discrete, ℤ, pos, negsuc, failure, is_negative,
  is_below, is_failure,
}
use ece.Msg.Flags
use ece.Msg.{Msg, control_msg, default_msg, has_flag, valid}
use ece.Msg.Wire.{wire, buffer_of, byte_count, intact}
use ece.Buffer.{MsgBuffer, empty, read}
use ece.Net.{Arrival, datagram, failed, Os, World, eagain}
use ece.Net.Ucp.{ucp_send_to, ucp_send_to-SameBut}
use ece.Socket.Monad.{Socket, State, Run, ok, blocked, aborted, out_of_fuel, bind, M, asserted}
use ece.Socket.Low.{
  rawsend, send_fins, fin_count, close, adopt_endpoint, got_packet, on_arrival, rawrecv, lowrecv,
  set_timeout,
}
use ece.Socket.Quiet.{received, rawrecv-arrival, rawrecv-blocked}
use ece.Socket.Sender.{
  ack_round, ack_loop, acksend, chunk_msg, send_chunk, send_loop, send_eos, send,
}
use ece.Socket.Receiver.{
  finalize_loop, finalize_recv, take_message, reply, finish_round, answer, on_result, recv_round,
  recv_inner, recv_outer, recv_read, recv,
}

-- The number of arrivals that are to come.
abbrev pub due : State → ℕ
due s = length s.world.arrivals

-- A run that has fuel, and takes at least `k` of `n` arrivals if it returns.
abbrev pub Takes : {A : Type 0} → ℕ → ℕ → Run (A × State) → Type 0
Takes k n (ok r) = due r.1 + k ≤ n
Takes k n blocked = Unit
Takes k n aborted = Unit
Takes k n out_of_fuel = ⊥

pub Takes-map :
    {A : Type 0} (k n j m : ℕ) (r : Run (A × State))
    → ((x : ℕ) → x + k ≤ n → x + j ≤ m)
    → Takes k n r
    → Takes j m r
Takes-map k n j m (ok r) h t = h (due r.1) t
Takes-map k n j m blocked h t = tt
Takes-map k n j m aborted h t = tt
Takes-map k n j m out_of_fuel h t = t

-- One run after another takes what both take.
pub Takes-bind :
    {A B : Type 0} (k j n : ℕ) (r : Run (A × State)) (f : A → State → Run (B × State))
    → Takes k n r
    → ((a : A) (t : State) → due t + k ≤ n → Takes j (due t) (f a t))
    → Takes (k + j) n (bind r (λ q. f q.0 q.1))
Takes-bind k j n (ok (a, t)) f h g =
    Takes-map j (due t) (k + j) n (f a t) (λ x e. omega arith) (g a t h)
Takes-bind k j n blocked f h g = tt
Takes-bind k j n aborted f h g = tt
Takes-bind k j n out_of_fuel f h g = h

-- The same, where what is taken behind the first run does not matter.
pub Takes-then :
    {A B : Type 0} (k n : ℕ) (r : Run (A × State)) (f : A → State → Run (B × State))
    → Takes k n r
    → ((a : A) (t : State) → due t + k ≤ n → Takes 0 (due t) (f a t))
    → Takes k n (bind r (λ q. f q.0 q.1))
Takes-then k n r f h g =
    Takes-map (k + 0) n k n (bind r (λ q. f q.0 q.1)) (λ x e. omega arith)
      (Takes-bind k 0 n r f h g)

module _ (os : Os) where
  pub rawsend-Takes : (m : Msg) (s : State) → Takes 0 (due s) (rawsend os m s)
  unfolding rawsend
  rawsend-Takes m s =
      let same = ucp_send_to-SameBut os s.sock.ucp_socket (wire m) s.sock.end_point s.world in
      if-elim (Takes {A = ℤ} 0 (due s)) (m.length == 0 && m.flags == Flags.none) (λ _. tt)
        (λ _. omega (arith, ap (length {A = Arrival}) same.arrivals))

  send_fins-Takes : (n : ℕ) (s : State) → Takes 0 (due s) (send_fins os n s)
  unfolding send_fins
  send_fins-Takes zero s = omega arith
  send_fins-Takes (suc n) s =
      Takes-then 0 (due s) (rawsend os (control_msg (os.memory s.world.clock) 666 Flags.fin) s)
        (λ _ t. send_fins os n t) (rawsend-Takes _ s) λ _ t h. send_fins-Takes n t

  close-Takes : (s : State) → Takes 0 (due s) (close os s)
  unfolding close
  close-Takes s =
      let t = record s { sock = record (s.sock) { is_closing = true } } in
      Takes-then 0 (due s) (send_fins os (fin_count os) t)
        (λ _ u. ok (
          tt,
          record u { world = record (u.world) { closed = u.sock.ucp_socket ∷ u.world.closed } },
        ))
        (send_fins-Takes (fin_count os) t) λ _ u h. omega arith

  adopt_endpoint-due : (s : State) → due (adopt_endpoint os s) ≡ due s
  adopt_endpoint-due s =
      if-elim (λ (t : State). due t ≡ due s) s.sock.has_endpoint (λ _. refl) (λ _. refl)

  got_packet-Takes : (n : ℕ) (m : Msg) (s : State) → Takes 0 (due s) (got_packet os n m s)
  unfolding got_packet
  got_packet-Takes n m s =
      let r : Run (Unit {0} × State) =
        (if intact n m && has_flag m Flags.fin then close os else (λ t. ok (tt, t))) s in
      Takes-then 0 (due s) r (λ _ t. ok ((n, m), t))
        (if-elim (λ (c : M (Unit {0})). Takes {A = Unit {0}} 0 (due s) (c s))
          (intact n m && has_flag m Flags.fin) (λ _. close-Takes s) (λ _. omega arith))
        λ _ t h. omega arith

  on_arrival-Takes : (out : Msg) (a : Arrival) (s : State) → Takes 0 (due s) (on_arrival os out a s)
  unfolding on_arrival
  on_arrival-Takes out (failed e) s =
      let h = adopt_endpoint-due (record s { world = record (s.world) { errno = e } }) in
      omega arith
  on_arrival-Takes out (datagram d from) s =
      let t = adopt_endpoint os (record s { sock = record (s.sock) { from_endpoint = from } }) in
      let h = adopt_endpoint-due (record s { sock = record (s.sock) { from_endpoint = from } }) in
      if-elim (Takes {A = ℕ × Msg} 0 (due s)) (byte_count d == 0) (λ _. omega arith)
        λ _. Takes-map 0 (due t) 0 (due s) _ (λ x e. omega arith) (got_packet-Takes _ _ t)

  rawrecv-from :
      (out : Msg) (queue : List Arrival) (s : State)
      → s.world.arrivals ≡ queue
      → Takes 1 (due s) (rawrecv os out s)
  rawrecv-from out [] s e = rw (rawrecv-blocked os out s e) tt
  rawrecv-from out (a ∷ rest) s e =
      let one : due s ≡ suc (length rest) = ap length e in
      rw (rawrecv-arrival os out a s rest e) (
        Takes-map 0 (length rest) 1 (due s) _ (λ x h. omega arith)
          (on_arrival-Takes out a (received os s rest)))

  -- `rawrecv` takes an arrival, or waits for one.
  pub rawrecv-Takes : (out : Msg) (s : State) → Takes 1 (due s) (rawrecv os out s)
  rawrecv-Takes out s = rawrecv-from out s.world.arrivals s refl

  pub lowrecv-Takes : (out : Msg) (s : State) → Takes 1 (due s) (lowrecv os out s)
  unfolding lowrecv
  lowrecv-Takes out s =
      Takes-then 1 (due s) (rawrecv os out s) (λ r t. ok ((intact r.0 r.1, r.1), t))
        (rawrecv-Takes out s) λ r t h. omega arith

  pub asserted-Takes : {A : Type 0} (o : Option A) (s : State) → Takes 0 (due s) (asserted o s)
  asserted-Takes none s = tt
  asserted-Takes (some a) s = omega arith
