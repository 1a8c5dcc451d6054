-- ===== src/Api/Accepts.antt =====
-- a4/rcs_t.cc and a4/rcs.cc: `rcsAccept` on a listener that a FIN has closed.
use ece.Prelude.{ℕ, ◌+◌, ◌≡◌, true, false, some, ◌∷◌, pos}
use ece.Net.{Addr, Os}
use ece.Socket.Monad.{Socket, State}
use ece.Api.Sockets.{Below}
use ece.Api.{Process, get_socket}
use ece.Api.Closing.{IsFinished}

-- What a call of `rcsAccept` leaves of its listener, with the new descriptor `child`.
pub record Accepted (id child : ℕ) (p q : Process) : Type 0 where
  pub listener : Socket
  pub at_id : get_socket (pos id) q ≡ some listener
  pub still_listener : listener.is_listener ≡ true
  pub still_finished : IsFinished listener
  pub none_taken : q.world.arrivals ≡ p.world.arrivals
  pub next_eq : q.table.next_id ≡ child + 1
  pub below : Below q.table.next_id q.table.sockets

module _ (os : Os) (garbage : Addr) (id : ℕ) where
  -- The wait for a client of a listener that is finished.
  abbrev waited : State → State
  waited s = record s {
    sock = record (s.sock) { has_endpoint = false; recv_seqnum = 0 };
    world = record (s.world) { timeouts = (s.sock.ucp_socket, 0) ∷ s.world.timeouts };
  }
