-- ===== src/Protocol/Kept.antt =====
-- a4/rcs_t.cc: what a method keeps, whatever it hears short of FIN, if it returns: the socket but
-- for its addresses, and a property of the packets sent.
use ece.Prelude.{
  ◌==◌, Bool-cases, if-elim, length, All, ℕ, zero, suc, ◌≡◌, refl, sym, subst, inl, inr, Bool, true,
  false, not, ◌&&◌, ◌||◌, some, List, [], ◌∷◌, ℤ,
}
use ece.Msg.Flags
use ece.Msg.{Msg, deserialize, default_msg, has_flag, valid}
use ece.Msg.Wire.{wire, buffer_of, byte_count, intact}
use ece.Net.{Arrival, datagram, failed, Os}
use ece.Net.Ucp.{ucp_send_to-SameBut}
use ece.Net.Logged.{Logged, Carried, ucp_send_to-Logged}
use ece.Socket.Monad.{State, Run, ok, blocked, aborted, out_of_fuel, bind}
use ece.Socket.Low.{
  set_timeout, rawsend, adopt_endpoint, got_packet, on_arrival, rawrecv, lowrecv, recv_timeout,
  protocol_timeout,
}
use ece.Socket.Sender.{ack_round}
use ece.Socket.Receiver.{finalize_loop, finalize_recv, reply, finish_round}
use ece.Socket.Quiet.{Core, core, heard, received, rawrecv-arrival, rawrecv-blocked}

-- If the run returns, its value and state have the property.
abbrev pub Ends : {A : Type 0} → (A → State → Type 0) → Run (A × State) → Type 0
Ends Q (ok r) = Q r.0 r.1
Ends Q blocked = Unit
Ends Q aborted = Unit
Ends Q out_of_fuel = Unit

pub Ends-bind :
    {A B : Type 0} (P : A → State → Type 0) (Q : B → State → Type 0) (m : Run (A × State))
    (f : A → State → Run (B × State))
    → Ends P m
    → ((a : A) (t : State) → P a t → Ends Q (f a t))
    → Ends Q (bind m (λ r. f r.0 r.1))
Ends-bind P Q (ok r) f p k = k r.0 r.1 p
Ends-bind P Q blocked f p k = tt
Ends-bind P Q aborted f p k = tt
Ends-bind P Q out_of_fuel f p k = tt

pub Ends-ok :
    {A : Type 0} (Q : A → State → Type 0) {m : Run (A × State)} {a : A} {t : State}
    → Ends Q m
    → m ≡ ok (a, t)
    → Q a t
Ends-ok Q h e = subst (Ends Q) e h

-- An arrival that does not make `rawrecv` close the socket.
abbrev pub NotFin : Arrival → Type 0
NotFin a = (m : Msg) → heard a ≡ some m → has_flag m Flags.fin ≡ false

pub record Kept (P : List ℕ → Type 0) (c : Core) (s : State) : Type 0 where
  pub core_eq : core s.sock ≡ c
  pub log : Logged P s.world
  pub calm : All NotFin s.world.arrivals

module _ (os : Os) (P : List ℕ → Type 0) (c : Core) where
  pub rawsend-Kept :
      (m : Msg) (s : State)
      → Carried os P (wire m)
      → Kept P c s
      → Ends (λ r t. Kept P c t) (rawsend os m s)
  unfolding rawsend
  rawsend-Kept m s carried k =
      if-elim (λ (q : Run (ℤ × State)). Ends (λ r t. Kept P c t) q)
        (m.length == 0 && m.flags == Flags.none) (λ _. tt)
        λ _. record {
          core_eq = k.core_eq;
          log =
              ucp_send_to-Logged os P s.sock.ucp_socket (wire m) s.sock.end_point carried s.world
                k.log;
          calm =
              let same =
                ucp_send_to-SameBut os s.sock.ucp_socket (wire m) s.sock.end_point s.world in
              subst (All NotFin) (sym same.arrivals) k.calm;
        }

  adopt_endpoint-Kept : (s : State) → Kept P c s → Kept P c (adopt_endpoint os s)
  adopt_endpoint-Kept s k =
      if-elim (λ (t : State). Kept P c t) s.sock.has_endpoint (λ _. k)
        λ _. record { core_eq = k.core_eq; log = k.log; calm = k.calm }

  on_arrival-Kept :
      (out : Msg) (a : Arrival) (s : State)
      → NotFin a
      → Kept P c s
      → Ends (λ r t. Kept P c t) (on_arrival os out a s)
  unfolding on_arrival got_packet heard
  on_arrival-Kept out (failed e) s fin k =
      adopt_endpoint-Kept (record s { world = record (s.world) { errno = e } })
        (record { core_eq = k.core_eq; log = k.log; calm = k.calm })
  on_arrival-Kept out (datagram d from) s fin k =
      let t = record s { sock = record (s.sock) { from_endpoint = from } } in
      let kept =
        adopt_endpoint-Kept t (record { core_eq = k.core_eq; log = k.log; calm = k.calm }) in
      let n = byte_count d in
      let m = deserialize (buffer_of d) in
      elim (Bool-cases (n == 0)) [
        | inl e ↦ rw e kept
        | inr e ↦ elim (Bool-cases (intact n m)) [
          | inl i ↦
              let f : has_flag m Flags.fin ≡ false = fin m (rw (e, i) refl) in
              rw (e, got_packet, i, f) kept
          | inr i ↦ rw (e, got_packet, i) kept
        ]
      ]

  pub rawrecv-Kept :
      (out : Msg) (s : State) → Kept P c s → Ends (λ r t. Kept P c t) (rawrecv os out s)
  rawrecv-Kept out s k = from_queue s.world.arrivals refl
    where
      from_queue :
          (q : List Arrival) → s.world.arrivals ≡ q → Ends (λ r t. Kept P c t) (rawrecv os out s)
      from_queue [] e = subst (Ends (λ r t. Kept P c t)) (sym (rawrecv-blocked os out s e)) tt
      from_queue (a ∷ rest) e =
          let calm = subst (All NotFin) e k.calm in
          rw (rawrecv-arrival os out a s rest e) (
            on_arrival-Kept out a (received os s rest) calm.0
              (record { core_eq = k.core_eq; log = k.log; calm = calm.1 }))

  lowrecv-Kept : (out : Msg) (s : State) → Kept P c s → Ends (λ r t. Kept P c t) (lowrecv os out s)
  unfolding lowrecv
  lowrecv-Kept out s k =
      Ends-bind _ _ (rawrecv os out s) (λ r t. ok ((intact r.0 r.1, r.1), t)) (rawrecv-Kept out s k)
        λ r t h. h

  -- A round of `acksend`.
  pub ack_round-Kept :
      (m : Msg) (s : State)
      → Carried os P (wire m)
      → Kept P c s
      → Ends (λ b t. Kept P c t) (ack_round os m s)
  unfolding ack_round
  ack_round-Kept m s carried k =
      Ends-bind _ _ (rawsend os m s) _ (rawsend-Kept m s carried k) λ r t h.
        Ends-bind _ _ (lowrecv os (default_msg (os.memory t.world.clock)) t)
          (λ q u. ok (q.0 && q.1.seqnum == m.seqnum, u)) (lowrecv-Kept _ t h) λ q u g. g

  finalize_loop-Kept :
      (fuel : ℕ) (ack response : Msg) (s : State)
      → Carried os P (wire ack)
      → Kept P c s
      → Ends (λ r t. Kept P c t) (finalize_loop os fuel ack response s)
  unfolding finalize_loop
  finalize_loop-Kept zero ack response s carried k = tt
  finalize_loop-Kept (suc fuel) ack response s carried k =
      Ends-bind _ _ (rawrecv os response s)
        (λ r t. elim (r.0 == 0 || valid (r.1) && (r.1.seqnum == 0 && not (r.1.length == 0))) [
          | true ↦ ok (tt, t)
          | false ↦ bind (rawsend os ack t) λ q. finalize_loop os fuel ack (r.1) q.1
        ])
        (rawrecv-Kept response s k)
        λ r t h.
          elim (Bool-cases
            (r.0 == 0 || valid (r.1) && (r.1.seqnum == 0 && not (r.1.length == 0)))) [
              | inl e ↦ rw e h
              | inr e ↦ rw e (
                  Ends-bind _ _ (rawsend os ack t) (λ q u. finalize_loop os fuel ack (r.1) u)
                    (rawsend-Kept ack t carried h)
                    λ q u g. finalize_loop-Kept fuel ack (r.1) u carried g)
            ]

  finalize_recv-Kept :
      (ack : Msg) (s : State)
      → Carried os P (wire ack)
      → Kept P c s
      → Ends (λ r t. Kept P c t) (finalize_recv os ack s)
  unfolding finalize_recv set_timeout
  finalize_recv-Kept ack s carried k =
      let s1 = record s {
        world = record (s.world) {
          timeouts = (s.sock.ucp_socket, protocol_timeout) ∷ s.world.timeouts;
        };
      } in
      Ends-bind _ _
        (finalize_loop os (suc (length s.world.arrivals)) ack
          (default_msg (os.memory s.world.clock)) s1)
        (λ r t. ok (
          tt,
          record t {
            world = record (t.world) {
              timeouts = (t.sock.ucp_socket, recv_timeout) ∷ t.world.timeouts;
            };
          },
        ))
        (finalize_loop-Kept _ ack _ s1 carried
          (record { core_eq = k.core_eq; log = k.log; calm = k.calm }))
        λ r t h. record { core_eq = h.core_eq; log = h.log; calm = h.calm }

  reply-Kept :
      (ack : Msg) (s : State)
      → Carried os P (wire ack)
      → Kept P c s
      → Ends (λ r t. Kept P c t) (reply os ack s)
  unfolding reply
  reply-Kept ack s carried k =
      if-elim (λ (q : Run (ℤ × State)). Ends (λ r t. Kept P c t) q) s.sock.is_closing (λ _. k)
        λ _. rawsend-Kept ack s carried k

  -- The end of a round of `recv`, which ends the inner loop exactly if the send is at its end.
  pub finish_round-Kept :
      (ack : Msg) (is_end : Bool) (s : State)
      → Carried os P (wire ack)
      → Kept P c s
      → Ends (λ b t. (b ≡ is_end) × Kept P c t) (finish_round os ack is_end s)
  unfolding finish_round
  finish_round-Kept ack true s carried k =
      Ends-bind _ _ (reply os ack s) (λ r t. bind (finalize_recv os ack t) (λ q. ok (true, q.1)))
        (reply-Kept ack s carried k)
        λ r t h.
          Ends-bind _ _ (finalize_recv os ack t) (λ q u. ok (true, u))
            (finalize_recv-Kept ack t carried h) λ q u g. (refl, g)
  finish_round-Kept ack false s carried k =
      Ends-bind _ _ (reply os ack s) (λ r t. ok (false, t)) (reply-Kept ack s carried k)
        λ r t h. (refl, h)
