-- ===== src/Protocol/Agreed.antt =====
-- a4/rcs_t.cc: when a sender and a receiver agree on the message that is under way, and the
-- receiver has the bytes of those before it.
use mathlib.Core.Option.{some-injective}
use ece.Prelude.{
  ltb, length, All, ℕ, ◌+◌, ◌≤◌, ◌≡◌, sym, ◌∙◌, ◌⊎◌, inl, inr, false, none, some, List, [], ◌∷◌,
}
use ece.Msg.Flags
use ece.Msg.{Msg, has_flag}
use ece.Buffer.Tokens.{view}
use ece.Buffer.Invariant.{IsBuffer}
use ece.Net.{Arrival, Packet}
use ece.Net.Logged.{Logged}
use ece.Socket.Quiet.{heard}
use ece.Socket.Sending.{rounds}
use ece.Protocol.Kept.{NotFin}
use ece.Protocol.Echo.{Echo, Comes, Comes-heard}
use ece.Protocol.Messages.{Made, delivered, Sent, AckTo}
use ece.Protocol.Steps.{System}

pub record IsAgreed (bytes : List ℕ) (y : System) : Type 0 where
  pub ahead : y.turn ≤ y.receiver.sock.recv_seqnum
  pub one_ahead : y.receiver.sock.recv_seqnum ≤ y.turn + 1
  pub last : y.receiver.sock.recv_seqnum ≤ rounds (length bytes) + 1
  pub made : y.turn ≤ rounds (length bytes) → Made bytes y.turn y.turn y.msg
  pub numbered : y.turn ≤ rounds (length bytes) → y.sender.sock.send_seqnum ≡ y.turn
  pub sender_open : y.sender.sock.is_closing ≡ false
  pub receiver_open : y.receiver.sock.is_closing ≡ false
  pub sender_log : Logged (Echo (Sent bytes y.turn)) y.sender.world
  pub receiver_log : Logged (Echo (AckTo y.receiver.sock.recv_seqnum)) y.receiver.world
  pub buffer : IsBuffer y.receiver.sock.buffer
  pub view_eq : view y.receiver.sock.buffer ≡ delivered bytes y.receiver.sock.recv_seqnum
  pub done : y.received ≡ ltb (rounds (length bytes)) y.receiver.sock.recv_seqnum

heard-NotFin :
    (H : Msg → Type 0) (a : Arrival)
    → ((m : Msg) → H m → has_flag m Flags.fin ≡ false)
    → (heard a ≡ none) ⊎ ((m : Msg) × (heard a ≡ some m) × H m)
    → NotFin a
heard-NotFin H a no_fin (inl e) m h = absurd (cc)
heard-NotFin H a no_fin (inr (x, e, p)) m h =
    let same : x ≡ m = some-injective x m (sym e ∙ h) in rw (← same) (no_fin x p)

pub Comes-calm :
    (H : Msg → Type 0) (log : List Packet) (arrivals : List Arrival)
    → ((m : Msg) → H m → has_flag m Flags.fin ≡ false)
    → All (λ (p : Packet). Echo H p.bytes) log
    → All (Comes log) arrivals
    → All NotFin arrivals
Comes-calm H log [] no_fin all c = tt
Comes-calm H log (a ∷ rest) no_fin all c =
    (heard-NotFin H a no_fin (Comes-heard H log a all c.0), Comes-calm H log rest no_fin all c.1)
