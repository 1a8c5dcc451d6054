-- ===== src/Api/Accepting.antt =====
-- a4/rcs_t.cc and a4/rcs.cc: `rcsAccept` where a client connects.
use ece.Prelude.{
  length, All, size_mod, ℕ, ◌+◌, ◌*◌, ◌<◌, ◌≡◌, true, false, some, List, [], ◌∷◌, ◌++◌, map, pos,
}
use ece.Msg.{Msg}
use ece.Buffer.Tokens.{byte, mark, stream, view}
use ece.Buffer.Invariant.{IsStored, IsBuffer}
use ece.Net.{Arrival}
use ece.Socket.Monad.{Socket}
use ece.Socket.Sending.{Acked}
use ece.Socket.Inbox.{Delivers}
use ece.Api.Sockets.{Below}
use ece.Api.{Process, get_socket}

-- A listener that can hear a client: it is open, and nothing is left to read.
pub record IsReady (s : Socket) : Type 0 where
  pub listening : s.is_listener ≡ true
  pub unclosed : s.is_closing ≡ false
  pub buffer : IsBuffer s.buffer
  pub none_left : view s.buffer ≡ []

-- A client's first send, of fewer than 32 bytes, arrives, and then the acknowledgements of the two
-- messages that answer it.
pub record Connects (arrivals rest : List Arrival) : Type 0 where
  pub texts : List Msg
  pub last : Msg
  pub bytes : List ℕ
  pub middle : List Arrival
  pub some_bytes : 0 < length bytes
  pub short : length bytes < 32
  pub few : 500 * (length texts + 1) < size_mod
  pub stored : All IsStored (texts ++ last ∷ [])
  pub sent : stream (texts ++ last ∷ []) ≡ map byte bytes ++ (mark ∷ [])
  pub delivers : Delivers 0 texts last arrivals middle
  pub acked : Acked 2 0 middle rest

-- What a call of `rcsAccept` leaves: a listener that is ready again, and a socket with a peer.
pub record Served (id child : ℕ) (rest : List Arrival) (q : Process) : Type 0 where
  pub listener : Socket
  pub at_id : get_socket (pos id) q ≡ some listener
  pub ready : IsReady listener
  pub socket : Socket
  pub at_child : get_socket (pos child) q ≡ some socket
  pub has_peer : socket.has_endpoint ≡ true
  pub arrivals : q.world.arrivals ≡ rest
  pub next_eq : q.table.next_id ≡ child + 1
  pub below : Below q.table.next_id q.table.sockets
