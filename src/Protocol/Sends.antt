-- ===== src/Protocol/Sends.antt =====
-- a4/rcs_t.cc: one round of the sender.
use ece.Prelude.{
  length, All, IsByte, ℕ, ◌+◌, ◌≤◌, ◌<◌, ◌≡◌, refl, inl, inr, Bool, true, List, ◌∷◌, arith,
}
use ece.Msg.Wire.{wire}
use ece.Net.{Arrival, Os}
use ece.Net.Logged.{Logged, Carried}
use ece.Socket.Monad.{State, ok}
use ece.Socket.Sender.{ack_round}
use ece.Socket.Quiet.{core}
use ece.Socket.Sending.{rounds}
use ece.Protocol.Kept.{Kept, Ends-ok}
use ece.Protocol.Round.{ack_round-unheard, ack_round-heard}
use ece.Protocol.Echo.{IsUnforged, Echo, Comes, Comes-heard, wire-Carried}
use ece.Protocol.Messages.{Made-Content, Made-sendable, Sent, AckTo}
use ece.Protocol.Steps.{System, give}
use ece.Protocol.Agreed.{IsAgreed, Comes-calm}

-- What a round leaves of a sender.
pub record Keeps (bytes : List ℕ) (y : System) (b : Bool) (t : State) : Type 0 where
  pub core_eq : core t.sock ≡ core y.sender.sock
  pub log : Logged (Echo (Sent bytes y.turn)) t.world
  pub acked : b ≡ true → y.turn + 1 ≤ y.receiver.sock.recv_seqnum

module _ (near : Os) (bytes : List ℕ) (all_bytes : All IsByte bytes)
    (few : rounds (length bytes) < 65535) (unforged : IsUnforged near) where
  pub ack_round-Keeps :
      {y : System} {t : State} {b : Bool} (a : Arrival) (rest : List Arrival)
      → IsAgreed bytes y
      → y.turn ≤ rounds (length bytes)
      → All (Comes y.receiver.world.sent) (a ∷ rest)
      → ack_round near y.msg (give (a ∷ rest) y.sender) ≡ ok (b, t)
      → Keeps bytes y b t
  ack_round-Keeps {y} {t} {b} a rest v more come e =
      let made = v.made more in
      let (is_msg, is_valid, content) = Made-Content bytes y.turn all_bytes (omega arith) made in
      let k = y.receiver.sock.recv_seqnum in
      let P = Echo (Sent bytes y.turn) in
      let s = give (a ∷ rest) y.sender in
      let fits = Made-sendable bytes y.turn made in
      let carried : Carried near P (wire y.msg) =
        wire-Carried near (Sent bytes y.turn) unforged is_msg is_valid
          (y.turn, omega arith, more, content) in
      let kept : Kept P (core s.sock) s = record {
        core_eq = refl;
        log = v.sender_log;
        calm =
            Comes-calm (AckTo k) y.receiver.world.sent (a ∷ rest) (λ m h. h.1) v.receiver_log come;
      } in
      elim (Comes-heard (AckTo k) y.receiver.world.sent a v.receiver_log come.0) [
        | inl h ↦
            let (not_yet, q) =
              Ends-ok _ (ack_round-unheard near P y.msg s a rest fits refl kept carried h) e in
            record { core_eq = q.core_eq; log = q.log; acked = λ yes_. absurd (cc) }
        | inr (m, h, (j, fin, le, number)) ↦
            let (same, q) =
              Ends-ok _ (ack_round-heard near P y.msg s a rest fits refl kept carried m h fin) e in
            record {
              core_eq = q.core_eq;
              log = q.log;
              acked = λ yes_. ground (arith, content.seqnum_eq);
            }
      ]
