-- ===== src/Protocol/Receives.antt =====
-- a4/rcs_t.cc: one round of the receiver.
use ece.Prelude.{
  ltb, ◌==◌, length, All, u16_mod, size_mod, ℕ, ◌+◌, ◌-◌, ◌%◌, ◌≤◌, ◌<◌, ◌≡◌, refl, sym, ap, subst,
  ◌∙◌, ◌⊎◌, inl, inr, Bool, false, List, ◌∷◌, ◌++◌, arith, ℕ_discrete,
}
use ece.Msg.Flags
use ece.Msg.{Msg, control_msg, has_flag}
use ece.Msg.Wire.{wire}
use ece.Buffer.{queue_message}
use ece.Buffer.Tokens.{Token, tokens, view, count}
use ece.Buffer.Invariant.{IsBuffer, view-queue_message, queue_message-IsBuffer}
use ece.Net.{Arrival, Os}
use ece.Net.Logged.{Logged, Carried}
use ece.Socket.Monad.{State, ok}
use ece.Socket.Receiver.{take_message, recv_round}
use ece.Socket.Quiet.{Core, core}
use ece.Socket.Rounds.{last_ack}
use ece.Socket.Sending.{rounds}
use ece.Socket.Chunks.{IsMemory}
use ece.Protocol.Kept.{Kept, Ends-ok}
use ece.Protocol.Round.{recv_round-unheard, recv_round-other, recv_round-next}
use ece.Protocol.Echo.{IsUnforged, Echo, Comes, Comes-heard, Logged-mono}
use ece.Protocol.Messages.{
  Content, delivered, Sent, AckTo, AckTo-mono, ack-Carried, count-delivered,
}
use ece.Protocol.Steps.{System, give}
use ece.Protocol.Agreed.{IsAgreed, Comes-calm}

-- What a round leaves of a receiver: as before, or with the message that was under way.
pub record Keeps (bytes : List ℕ) (y : System) (b : Bool) (t : State) (k : ℕ) : Type 0 where
  pub number : t.sock.recv_seqnum ≡ k
  pub unclosed : t.sock.is_closing ≡ false
  pub buffer : IsBuffer t.sock.buffer
  pub view_eq : view t.sock.buffer ≡ delivered bytes k
  pub log : Logged (Echo (AckTo k)) t.world
  pub ended : b ≡ ltb (rounds (length bytes)) k

abbrev pub Moves : List ℕ → System → Bool → State → Type 0
Moves bytes y b t =
    let k = y.receiver.sock.recv_seqnum in
    Keeps bytes y b t k ⊎ (k ≡ y.turn) × (k ≤ rounds (length bytes)) × Keeps bytes y b t (k + 1)

module _ (bytes : List ℕ) {y : System} (v : IsAgreed bytes y) (waiting : y.received ≡ false) where
  -- A receiver whose socket is as before.
  same-Keeps :
      {t : State}
      → Kept (Echo (AckTo y.receiver.sock.recv_seqnum)) (core y.receiver.sock) t
      → Keeps bytes y false t y.receiver.sock.recv_seqnum
  same-Keeps {t} q =
      let field = λ (f : Core → ℕ). ap f q.core_eq in
      let buffer_eq : t.sock.buffer ≡ y.receiver.sock.buffer =
        ap (λ (c : Core). c.buffer) q.core_eq in
      record {
        number = ap (λ (c : Core). c.recv_seqnum) q.core_eq;
        unclosed = ap (λ (c : Core). c.is_closing) q.core_eq ∙ v.receiver_open;
        buffer = subst IsBuffer (sym buffer_eq) v.buffer;
        view_eq = ap view buffer_eq ∙ v.view_eq;
        log = q.log;
        ended = sym waiting ∙ v.done;
      }

  -- One that has taken the message that was under way.
  took-Keeps :
      {t : State} {b : Bool} (m : Msg)
      → rounds (length bytes) < 65535
      → y.receiver.sock.recv_seqnum ≤ rounds (length bytes)
      → Content bytes y.receiver.sock.recv_seqnum m
      → b ≡ has_flag m Flags.eos
      → Kept
          (Echo (AckTo (y.receiver.sock.recv_seqnum + 1)))
          (core (take_message m y.receiver.sock))
          t
      → Keeps bytes y b t (y.receiver.sock.recv_seqnum + 1)
  took-Keeps {t} {b} m few more content ended q =
      let k = y.receiver.sock.recv_seqnum in
      let buffer_eq : t.sock.buffer ≡ queue_message y.receiver.sock.buffer m =
        ap (λ (c : Core). c.buffer) q.core_eq in
      let room : y.receiver.sock.buffer.total_size + m.length < size_mod =
        omega
          (arith, v.buffer.total, ap count v.view_eq, count-delivered bytes k, content.stored.0) in
      record {
        number = ap (λ (c : Core). c.recv_seqnum) q.core_eq ∙ (omega arith);
        unclosed = ap (λ (c : Core). c.is_closing) q.core_eq ∙ v.receiver_open;
        buffer =
            subst IsBuffer (sym buffer_eq) (queue_message-IsBuffer m content.stored room v.buffer);
        view_eq =
            ap view buffer_eq
            ∙ view-queue_message m v.buffer
            ∙ ap (λ (ts : List Token). ts ++ tokens m) v.view_eq
            ∙ sym content.adds
            ∙ ap (delivered bytes) (omega arith);
        log = q.log;
        ended = ended ∙ content.eos_eq ∙ (ground arith);
      }

module _ (far : Os) (bytes : List ℕ) (few : rounds (length bytes) < 65535)
    (unforged : IsUnforged far) (memory : (t : ℕ) → IsMemory (far.memory t)) where
  pub recv_round-Moves :
      {y : System} {t : State} {b : Bool} (a : Arrival) (rest : List Arrival)
      → IsAgreed bytes y
      → y.received ≡ false
      → All (Comes y.sender.world.sent) (a ∷ rest)
      → recv_round far (give (a ∷ rest) y.receiver) ≡ ok (b, t)
      → Moves bytes y b t
  recv_round-Moves {y} {t} {b} a rest v waiting come e =
      let k = y.receiver.sock.recv_seqnum in
      let n = rounds (length bytes) in
      let s = give (a ∷ rest) y.receiver in
      let calm =
        Comes-calm (Sent bytes y.turn) y.sender.world.sent (a ∷ rest) (λ m h. h.3.fin_eq)
          v.sender_log come in
      let kept : Kept (Echo (AckTo k)) (core s.sock) s = record {
        core_eq = refl;
        log = v.receiver_log;
        calm = calm;
      } in
      let more : k ≤ n = ground (arith, v.done) in
      let last : Carried far (Echo (AckTo k)) (wire (last_ack far s)) =
        unfold control_msg in
        ack-Carried far (far.memory s.world.clock) ((k + u16_mod - 1) % u16_mod) k k unforged
          (memory s.world.clock) (omega arith) (omega arith) in
      elim (Comes-heard (Sent bytes y.turn) y.sender.world.sent a v.sender_log come.0) [
        | inl h ↦
            let (stays, q) =
              Ends-ok _ (recv_round-unheard far (Echo (AckTo k)) s a rest refl kept h last) e in
            inl (rw stays (same-Keeps bytes v waiting q))
        | inr (m, h, (j, le, small, content)) ↦ elim (ℕ_discrete j k) [
          | yes now ↦
              let next : Content bytes k m = subst (λ (i : ℕ). Content bytes i m) now content in
              let kept_next : Kept (Echo (AckTo (k + 1))) (core s.sock) s = record {
                core_eq = refl;
                log =
                    Logged-mono (AckTo k) (AckTo (k + 1)) y.receiver.world
                      (λ m h. AckTo-mono m (omega arith) h) v.receiver_log;
                calm = calm;
              } in
              let ack : Carried far (Echo (AckTo (k + 1)))
                  (wire (record (last_ack far s) { seqnum = k })) =
                unfold control_msg in
                ack-Carried far (far.memory s.world.clock) k (k + 1) (k + 1) unforged
                  (memory s.world.clock) (omega arith) (omega arith) in
              let (ended, q) =
                Ends-ok _
                  (recv_round-next far (Echo (AckTo (k + 1))) s a rest refl kept_next m h
                    next.fin_eq next.seqnum_eq ack)
                  e in
              inr (omega (arith, v.ahead), more, took-Keeps bytes v waiting m few more next ended q)
          | no old ↦
              let (stays, q) =
                Ends-ok _
                  (recv_round-other far (Echo (AckTo k)) s a rest refl kept m h content.fin_eq
                    (λ same. old (sym content.seqnum_eq ∙ same)) last)
                  e in
              let no_end : (j == n) ≡ false = ground arith in
              inl (rw (stays, content.eos_eq, no_end) (same-Keeps bytes v waiting q))
        ]
      ]
