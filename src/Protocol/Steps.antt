-- ===== src/Protocol/Steps.antt =====
-- a4/rcs_t.cc: a sender in `send` and a receiver in `recv`, each over its own host's channel, round
-- by round and in any order. The network delivers to each what it likes of the packets that the
-- other has sent: it may lose, repeat and reorder them.
use ece.Prelude.{length, All, u16_mod, ℕ, ◌+◌, ◌%◌, ◌≤◌, ◌<◌, ◌≡◌, Bool, true, false, List, [], ◌∷◌}
use ece.Msg.{Msg}
use ece.Buffer.Invariant.{IsBuffer}
use ece.Buffer.Tokens.{view}
use ece.Net.{Arrival, Os}
use ece.Socket.Monad.{State, ok}
use ece.Socket.Sender.{ack_round}
use ece.Socket.Receiver.{recv_round}
use ece.Socket.Sending.{rounds}
use ece.Protocol.Echo.{Comes}
use ece.Protocol.Messages.{Made}

-- `turn` is the number of messages that the sender has had acknowledged, and `msg` the one that it
-- sends now; behind the one that ends the send it has returned. `received` says that the receiver
-- has left its inner loop.
pub record System : Type 0 where
  pub turn : ℕ
  pub msg : Msg
  pub sender : State
  pub receiver : State
  pub received : Bool

-- The results of the calls of `recvfrom` that are to come.
abbrev pub give : List Arrival → State → State
give arrivals s = record s { world = record (s.world) { arrivals = arrivals } }

-- `++sendSeqnum_`
abbrev pub advance : State → State
advance s = record s { sock = record (s.sock) { send_seqnum = (s.sock.send_seqnum + 1) % u16_mod } }

-- A round of the sender with number `i` and message `m`: it waits on, or goes on to the next
-- message, or `send` returns.
pub data Move (near : Os) (bytes : List ℕ) : ℕ → Msg → State → ℕ → Msg → State → Type 0 where
  waits :
      {i : ℕ} {m : Msg} {s t : State}
      → i ≤ rounds (length bytes)
      → ack_round near m s ≡ ok (false, t)
      → Move near bytes i m s i m t
  goes_on :
      {i : ℕ} {m : Msg} {s t : State} (after : Msg)
      → i < rounds (length bytes)
      → ack_round near m s ≡ ok (true, t)
      → Made bytes (i + 1) (advance t).sock.send_seqnum after
      → Move near bytes i m s (i + 1) after (advance t)
  returns :
      {i : ℕ} {m : Msg} {s t : State}
      → i ≡ rounds (length bytes)
      → ack_round near m s ≡ ok (true, t)
      → Move near bytes i m s (i + 1) m t

module _ (near far : Os) (bytes : List ℕ) where
  pub data Step : System → System → Type 0 where
    sends :
        {y : System} {j : ℕ} {m : Msg} {t : State} (a : Arrival) (rest : List Arrival)
        → All (Comes y.receiver.world.sent) (a ∷ rest)
        → Move near bytes y.turn y.msg (give (a ∷ rest) y.sender) j m t
        → Step y (record y { turn = j; msg = m; sender = t })
    receives :
        {y : System} {t : State} {b : Bool} (a : Arrival) (rest : List Arrival)
        → y.received ≡ false
        → All (Comes y.sender.world.sent) (a ∷ rest)
        → recv_round far (give (a ∷ rest) y.receiver) ≡ ok (b, t)
        → Step y (record y { receiver = t; received = b })

  pub data Reach (y : System) : System → Type 0 where
    here : Reach y y
    next : {z u : System} → Reach y z → Step z u → Reach y u

  -- An open sender that has made its first message, and an open receiver that has nothing left to
  -- read; neither has sent a packet.
  pub record IsStart (y : System) : Type 0 where
    pub first : y.turn ≡ 0
    pub made : Made bytes 0 0 y.msg
    pub sender_open : y.sender.sock.is_closing ≡ false
    pub receiver_open : y.receiver.sock.is_closing ≡ false
    pub send_zero : y.sender.sock.send_seqnum ≡ 0
    pub recv_zero : y.receiver.sock.recv_seqnum ≡ 0
    pub sender_silent : y.sender.world.sent ≡ []
    pub receiver_silent : y.receiver.world.sent ≡ []
    pub buffer : IsBuffer y.receiver.sock.buffer
    pub none_left : view y.receiver.sock.buffer ≡ []
    pub waiting : y.received ≡ false
