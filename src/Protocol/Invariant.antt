-- ===== src/Protocol/Invariant.antt =====
-- a4/rcs_t.cc: what holds of a sender and a receiver after any steps.
use ece.Prelude.{
  ltb, length, All, u16_mod, IsByte, ℕ, ◌+◌, ◌%◌, ◌≤◌, ◌<◌, ◌≡◌, refl, sym, ap, subst, ◌∙◌, inl,
  inr, Bool, true, false, List, [], arith,
}
use ece.Msg.{Msg}
use ece.Net.{Os, Packet, World}
use ece.Net.Logged.{Logged}
use ece.Socket.Monad.{State}
use ece.Socket.Quiet.{Core}
use ece.Socket.Sending.{rounds}
use ece.Socket.Chunks.{IsMemory}
use ece.Protocol.Echo.{IsUnforged, Echo, Logged-mono}
use ece.Protocol.Messages.{Made, Sent, AckTo, Sent-mono}
use ece.Protocol.Steps.{
  System, advance, Step, sends, waits, goes_on, returns, receives, Reach, here, next, IsStart,
}
use ece.Protocol.Agreed.{IsAgreed}
use ece.Protocol.Sends
use ece.Protocol.Receives

silent-Logged : (P : List ℕ → Type 0) (w : World) → w.sent ≡ [] → Logged P w
silent-Logged P w e = subst (All (λ (p : Packet). P p.bytes)) (sym e) tt

IsStart-IsAgreed :
    (bytes : List ℕ) (near far : Os) (y : System) → IsStart near far bytes y → IsAgreed bytes y
IsStart-IsAgreed bytes near far y i = record {
  ahead = omega (arith, i.first, i.recv_zero);
  one_ahead = omega (arith, i.first, i.recv_zero);
  last = omega (arith, i.recv_zero);
  made = λ _. rw i.first i.made;
  numbered = λ _. i.send_zero ∙ sym i.first;
  sender_open = i.sender_open;
  receiver_open = i.receiver_open;
  sender_log = silent-Logged (Echo (Sent bytes y.turn)) y.sender.world i.sender_silent;
  receiver_log =
      silent-Logged (Echo (AckTo y.receiver.sock.recv_seqnum)) y.receiver.world i.receiver_silent;
  buffer = i.buffer;
  view_eq =
      let no_mark : ltb (rounds (length bytes)) 0 ≡ false = ground arith in
      rw (i.recv_zero, no_mark) i.none_left;
  done = i.waiting ∙ ground (arith, i.recv_zero);
}

-- A round of the sender that leaves it at the same message.
waits-IsAgreed :
    (bytes : List ℕ) (y : System) (t : State)
    → IsAgreed bytes y
    → Sends.Keeps bytes y false t
    → IsAgreed bytes (record y { sender = t })
waits-IsAgreed bytes y t v q = record {
  ahead = v.ahead;
  one_ahead = v.one_ahead;
  last = v.last;
  made = v.made;
  numbered = λ more. ap (λ (c : Core). c.send_seqnum) q.core_eq ∙ v.numbered more;
  sender_open = ap (λ (c : Core). c.is_closing) q.core_eq ∙ v.sender_open;
  receiver_open = v.receiver_open;
  sender_log = q.log;
  receiver_log = v.receiver_log;
  buffer = v.buffer;
  view_eq = v.view_eq;
  done = v.done;
}

-- One that brings it to the next message.
goes_on-IsAgreed :
    (bytes : List ℕ) (y : System) (t : State) (m : Msg)
    → rounds (length bytes) < 65535
    → y.turn < rounds (length bytes)
    → Made bytes (y.turn + 1) (advance t).sock.send_seqnum m
    → IsAgreed bytes y
    → Sends.Keeps bytes y true t
    → IsAgreed bytes (record y { turn = y.turn + 1; msg = m; sender = advance t })
goes_on-IsAgreed bytes y t m few lt made v q =
    let number : (t.sock.send_seqnum + 1) % u16_mod ≡ y.turn + 1 =
      omega (arith, ap (λ (c : Core). c.send_seqnum) q.core_eq, v.numbered (omega arith)) in
    record {
      ahead = q.acked refl;
      one_ahead = omega (arith, v.one_ahead);
      last = v.last;
      made = λ _. subst (λ (i : ℕ). Made bytes (y.turn + 1) i m) number made;
      numbered = λ _. number;
      sender_open = ap (λ (c : Core). c.is_closing) q.core_eq ∙ v.sender_open;
      receiver_open = v.receiver_open;
      sender_log =
          Logged-mono (Sent bytes y.turn) (Sent bytes (y.turn + 1)) t.world
            (λ x h. Sent-mono bytes x (omega arith) h) q.log;
      receiver_log = v.receiver_log;
      buffer = v.buffer;
      view_eq = v.view_eq;
      done = v.done;
    }

-- The last one.
returns-IsAgreed :
    (bytes : List ℕ) (y : System) (t : State)
    → y.turn ≡ rounds (length bytes)
    → IsAgreed bytes y
    → Sends.Keeps bytes y true t
    → IsAgreed bytes (record y { turn = y.turn + 1; sender = t })
returns-IsAgreed bytes y t at_end v q = record {
  ahead = q.acked refl;
  one_ahead = omega (arith, v.one_ahead);
  last = v.last;
  made = λ more. absurd (omega arith);
  numbered = λ more. absurd (omega arith);
  sender_open = ap (λ (c : Core). c.is_closing) q.core_eq ∙ v.sender_open;
  receiver_open = v.receiver_open;
  sender_log =
      Logged-mono (Sent bytes y.turn) (Sent bytes (y.turn + 1)) t.world
        (λ x h. Sent-mono bytes x (omega arith) h) q.log;
  receiver_log = v.receiver_log;
  buffer = v.buffer;
  view_eq = v.view_eq;
  done = v.done;
}

-- A round of the receiver.
receives-IsAgreed :
    (bytes : List ℕ) (y : System) (t : State) (b : Bool) (k : ℕ)
    → y.turn ≤ k
    → k ≤ y.turn + 1
    → k ≤ rounds (length bytes) + 1
    → IsAgreed bytes y
    → Receives.Keeps bytes y b t k
    → IsAgreed bytes (record y { receiver = t; received = b })
receives-IsAgreed bytes y t b k lo hi small v q = record {
  ahead = rw q.number lo;
  one_ahead = rw q.number hi;
  last = rw q.number small;
  made = v.made;
  numbered = v.numbered;
  sender_open = v.sender_open;
  receiver_open = q.unclosed;
  sender_log = v.sender_log;
  receiver_log = rw q.number q.log;
  buffer = q.buffer;
  view_eq = rw q.number q.view_eq;
  done = rw q.number q.ended;
}

module _ (near far : Os) (bytes : List ℕ) (all_bytes : All IsByte bytes)
    (few : rounds (length bytes) < 65535) (near_noise : IsUnforged near)
    (far_noise : IsUnforged far) (memory : (t : ℕ) → IsMemory (far.memory t)) where
  Step-IsAgreed : {y z : System} → Step near far bytes y z → IsAgreed bytes y → IsAgreed bytes z
  Step-IsAgreed (sends a rest come (waits {t = t} more e)) v =
      waits-IsAgreed bytes _ t v
        (Sends.ack_round-Keeps near bytes all_bytes few near_noise a rest v more come e)
  Step-IsAgreed (sends a rest come (goes_on {t = t} m lt e made)) v =
      goes_on-IsAgreed bytes _ t m few lt made v
        (Sends.ack_round-Keeps near bytes all_bytes few near_noise a rest v (omega arith) come e)
  Step-IsAgreed (sends a rest come (returns {t = t} at_end e)) v =
      returns-IsAgreed bytes _ t at_end v
        (Sends.ack_round-Keeps near bytes all_bytes few near_noise a rest v (omega arith) come e)
  Step-IsAgreed (receives {t = t} {b = b} a rest waiting come e) v =
      elim (Receives.recv_round-Moves far bytes few far_noise memory a rest v waiting come e) [
        | inl q ↦ receives-IsAgreed bytes _ t b _ v.ahead v.one_ahead v.last v q
        | inr (now, more, q) ↦
            receives-IsAgreed bytes _ t b _ (omega arith) (omega arith) (omega arith) v q
      ]

  pub Reach-IsAgreed :
      {y z : System} → IsStart near far bytes y → Reach near far bytes y z → IsAgreed bytes z
  Reach-IsAgreed i here = IsStart-IsAgreed bytes near far _ i
  Reach-IsAgreed i (next r st) = Step-IsAgreed st (Reach-IsAgreed i r)
