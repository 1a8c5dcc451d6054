-- ===== src/Protocol/Round.antt =====
-- a4/rcs_t.cc: one round of `recv`'s inner loop and one of `acksend`'s loop, if they return, by the
-- first thing that they hear.
use ece.Prelude.{
  ◌==◌, ==-refl, ==_ne, if-elim, u16_mod, ℕ, ◌+◌, ◌%◌, ◌≡◌, refl, sym, ap, subst, ◌∙◌, ◌≢◌, inl,
  inr, Bool, true, false, ◌&&◌, none, some, List, ◌∷◌, ℕ_discrete,
}
use ece.Msg.Flags
use ece.Msg.{Msg, default_msg, has_flag, valid}
use ece.Msg.Validity.{default_msg-invalid}
use ece.Msg.Wire.{wire, intact}
use ece.Buffer.{queue_message}
use ece.Net.{Arrival, Os}
use ece.Net.Logged.{Carried}
use ece.Socket.Monad.{State, Run, ok, blocked, aborted, out_of_fuel}
use ece.Socket.Low.{rawrecv, lowrecv}
use ece.Socket.Sender.{ack_round}
use ece.Socket.Receiver.{take_message, answer, on_result, recv_round}
use ece.Socket.Quiet.{Core, core, heard, Returns, Left, sendable, rawrecv-Unheard, rawrecv-heard}
use ece.Socket.Acks.{lowrecv-Ignored, lowrecv-Acks, round-Returns}
use ece.Socket.Rounds.{last_ack, recv_round-eq, result-answer}
use ece.Protocol.Kept.{
  Ends, Ends-bind, Ends-ok, Kept, rawrecv-Kept, ack_round-Kept, finish_round-Kept,
}

Ends-Returns :
    {A : Type 0} (P Q : A → State → Type 0) (m : Run (A × State))
    → Returns m P
    → Ends Q m
    → Ends (λ r t. P r t × Q r t) m
Ends-Returns P Q m (r, t, e, p) q = subst (Ends (λ r t. P r t × Q r t)) (sym e) (p, Ends-ok Q q e)

pub Ends-map :
    {A : Type 0} (P Q : A → State → Type 0) (m : Run (A × State))
    → Ends P m
    → ((a : A) (t : State) → P a t → Q a t)
    → Ends Q m
Ends-map P Q (ok r) p f = f r.0 r.1 p
Ends-map P Q blocked p f = tt
Ends-map P Q aborted p f = tt
Ends-map P Q out_of_fuel p f = tt

module _ (os : Os) (P : List ℕ → Type 0) (c : Core) where
  -- The rest of a round that heard no intact message.
  unheard-Kept :
      (ack : Msg) (r : ℕ × Msg) (s : State)
      → Carried os P (wire ack)
      → intact (r.0) (r.1) ≡ false
      → Kept P c s
      → Ends (λ b t. (b ≡ false) × Kept P c t) (on_result os ack r s)
  unfolding on_result answer
  unheard-Kept ack r s carried bad k =
      if-elim (λ (q : Run (Bool × State)). Ends (λ b t. (b ≡ false) × Kept P c t) q) (r.0 == 0)
        (λ _. (refl, k)) (λ _. rw bad (finish_round-Kept os P c ack false s carried k))

  -- The rest of one that heard an intact message with another number than the next.
  other-Kept :
      (ack : Msg) (n : ℕ) (m : Msg) (s : State)
      → Carried os P (wire ack)
      → intact n m ≡ true
      → m.seqnum ≢ s.sock.recv_seqnum
      → Kept P c s
      → Ends (λ b t. (b ≡ has_flag m Flags.eos) × Kept P c t) (answer os ack n m s)
  unfolding answer
  other-Kept ack n m s carried i other k =
      rw (i, ==_ne m.seqnum s.sock.recv_seqnum other)
        (finish_round-Kept os P c ack (has_flag m Flags.eos) s carried k)

  -- The rest of one that heard the message that is waited for.
  next-Kept :
      (ack : Msg) (n : ℕ) (m : Msg) (s : State) (d : Core)
      → Carried os P (wire (record ack { seqnum = s.sock.recv_seqnum }))
      → intact n m ≡ true
      → m.seqnum ≡ s.sock.recv_seqnum
      → core (take_message m s.sock) ≡ d
      → Kept P c s
      → Ends (λ b t. (b ≡ has_flag m Flags.eos) × Kept P d t) (answer os ack n m s)
  unfolding answer
  next-Kept ack n m s d carried i same taken k =
      let next : (m.seqnum == s.sock.recv_seqnum) ≡ true = rw same (==-refl s.sock.recv_seqnum) in
      rw (i, next)
        (finish_round-Kept os P d (record ack { seqnum = s.sock.recv_seqnum })
          (has_flag m Flags.eos) (record s { sock = take_message m (s.sock) }) carried
          (record { core_eq = taken; log = k.log; calm = k.calm }))

module _ (os : Os) (P : List ℕ → Type 0) (s : State) (a : Arrival) (rest : List Arrival)
    (queue : s.world.arrivals ≡ a ∷ rest) (k : Kept P (core s.sock) s) where
  -- A round that hears nothing, or a damaged packet.
  pub recv_round-unheard :
      heard a ≡ none
      → Carried os P (wire (last_ack os s))
      → Ends (λ b t. (b ≡ false) × Kept P (core s.sock) t) (recv_round os s)
  recv_round-unheard h carried = rw (recv_round-eq os s) (
      Ends-bind _ _ (rawrecv os (default_msg (os.memory s.world.clock)) s)
        (λ r t. on_result os (last_ack os s) r t)
        (Ends-Returns _ _ _ (rawrecv-Unheard os _ a s rest (default_msg-invalid _) queue h)
          (rawrecv-Kept os P (core s.sock) _ s k))
        λ r t (p, q). unheard-Kept os P (core s.sock) (last_ack os s) r t carried p.0 q)

  -- One that hears an intact message with another number than the next.
  pub recv_round-other :
      (m : Msg)
      → heard a ≡ some m
      → has_flag m Flags.fin ≡ false
      → m.seqnum ≢ s.sock.recv_seqnum
      → Carried os P (wire (last_ack os s))
      → Ends (λ b t. (b ≡ has_flag m Flags.eos) × Kept P (core s.sock) t) (recv_round os s)
  recv_round-other m h fin other carried = rw (recv_round-eq os s) (
      Ends-bind _ _ (rawrecv os (default_msg (os.memory s.world.clock)) s)
        (λ r t. on_result os (last_ack os s) r t)
        (Ends-Returns _ _ _ (rawrecv-heard os _ a m s rest queue h fin)
          (rawrecv-Kept os P (core s.sock) _ s k))
        λ r t (p, q).
          let (i, nz, same, l) = p in
          let n : t.sock.recv_seqnum ≡ s.sock.recv_seqnum =
            ap (λ (c : Core). c.recv_seqnum) l.core_eq in
          rw (result-answer os (last_ack os s) r t nz, same)
            (other-Kept os P (core s.sock) (last_ack os s) (r.0) m t carried (rw (← same) i)
              (rw n other) q))

  -- One that hears the message that it waits for.
  pub recv_round-next :
      (m : Msg)
      → heard a ≡ some m
      → has_flag m Flags.fin ≡ false
      → m.seqnum ≡ s.sock.recv_seqnum
      → Carried os P (wire (record (last_ack os s) { seqnum = s.sock.recv_seqnum }))
      → Ends
          (λ b t. (b ≡ has_flag m Flags.eos) × Kept P (core (take_message m s.sock)) t)
          (recv_round os s)
  recv_round-next m h fin next carried = rw (recv_round-eq os s) (
      Ends-bind _ _ (rawrecv os (default_msg (os.memory s.world.clock)) s)
        (λ r t. on_result os (last_ack os s) r t)
        (Ends-Returns _ _ _ (rawrecv-heard os _ a m s rest queue h fin)
          (rawrecv-Kept os P (core s.sock) _ s k))
        λ r t (p, q).
          let (i, nz, same, l) = p in
          let n : t.sock.recv_seqnum ≡ s.sock.recv_seqnum =
            ap (λ (c : Core). c.recv_seqnum) l.core_eq in
          let taken : core (take_message m t.sock) ≡ core (take_message m s.sock) =
            ap
              (λ (c : Core). record c {
                buffer = queue_message (c.buffer) m;
                recv_seqnum = (c.recv_seqnum + 1) % u16_mod;
              })
              l.core_eq in
          rw (result-answer os (last_ack os s) r t nz, same)
            (next-Kept os P (core s.sock) (last_ack os s) (r.0) m t (core (take_message m s.sock))
              (rw n carried) (rw (← same) i) (next ∙ sym n) taken q))

module _ (os : Os) (P : List ℕ → Type 0) (msg : Msg) (s : State) (a : Arrival) (rest : List Arrival)
    (fits : sendable msg ≡ true) (queue : s.world.arrivals ≡ a ∷ rest) (k : Kept P (core s.sock) s)
    (carried : Carried os P (wire msg)) where
  ack_round-hears :
      (b : Bool)
      → ((out : Msg) (t : State)
          → valid out ≡ false
          → t.world.arrivals ≡ a ∷ rest
          → Returns
              (lowrecv os out t)
              (λ r u. ((r.0 && r.1.seqnum == msg.seqnum) ≡ b) × Left t u rest))
      → Ends (λ r t. (r ≡ b) × Kept P (core s.sock) t) (ack_round os msg s)
  ack_round-hears b receive =
      Ends-map _ _ (ack_round os msg s)
        (Ends-Returns _ _ _ (round-Returns os msg s a rest b fits queue receive)
          (ack_round-Kept os P (core s.sock) msg s carried k))
        λ r t (p, q). (p.0, q)

  -- A round of the sender of `msg` that hears nothing, or a damaged packet.
  pub ack_round-unheard :
      heard a ≡ none → Ends (λ b t. (b ≡ false) × Kept P (core s.sock) t) (ack_round os msg s)
  ack_round-unheard h =
      ack_round-hears false λ out t bad q. lowrecv-Ignored os msg.seqnum out a t rest bad q (inl h)

  -- One that hears an intact message takes it for the acknowledgement exactly if it has the number.
  pub ack_round-heard :
      (m : Msg)
      → heard a ≡ some m
      → has_flag m Flags.fin ≡ false
      → Ends (λ b t. (b ≡ (m.seqnum == msg.seqnum)) × Kept P (core s.sock) t) (ack_round os msg s)
  ack_round-heard m h fin = elim (ℕ_discrete m.seqnum msg.seqnum) [
    | yes e ↦
        let same : (m.seqnum == msg.seqnum) ≡ true = rw e (==-refl msg.seqnum) in
        rw same (
          ack_round-hears true
            λ out t bad q. lowrecv-Acks os msg.seqnum out a t rest q (m, h, fin, e))
    | no ne ↦ rw (==_ne m.seqnum msg.seqnum ne) (
        ack_round-hears false
          λ out t bad q. lowrecv-Ignored os msg.seqnum out a t rest bad q (inr (m, h, fin, ne)))
  ]
