-- ===== src/Api/Tests.antt =====
-- Runs of the C interface, and examples of its theorems.
use ece.Prelude.{ℕ, ◌≡◌, refl, ◌≢◌, true, false, none, some, [], ◌∷◌, arith, pos}
use ece.Net.Sample.{calm, world_with, host}
use ece.Socket.Monad.{Socket, ok}
use ece.Api.Sockets.{find, Below}
use ece.Api.{Process, get_socket, rcs_socket, rcs_close}
use ece.Api.Closing.{connect-finished}
use ece.Socket.Methods.{connect}
use ece.Socket.Monad.{State}
use ece.Api.Later.{Later}
use ece.Buffer.{empty}
use ece.Api.Descriptors.{rcs_close-forgets}

abbrev fresh_process : Process
fresh_process = record { table = record { sockets = []; next_id = 0 }; world = world_with [] }

abbrev socket_0 : Socket
socket_0 = record {
  ucp_socket = pos 3;
  is_listener = false;
  end_point = host;
  buffer = record { queue = []; total_size = 0; offset = 0 };
  send_seqnum = 0;
  recv_seqnum = 0;
  has_endpoint = false;
  from_endpoint = host;
  is_closing = false;
}

abbrev with_socket : Process
with_socket = record {
  table = record { sockets = (0, socket_0) ∷ []; next_id = 1 };
  world = world_with [];
}

found : get_socket (pos 0) with_socket ≡ some socket_0
unfolding get_socket find
found = refl

-- The first descriptor is 0.
first_descriptor : (q : Process) × (rcs_socket calm host fresh_process ≡ ok (pos 0, q))
unfolding rcs_socket ece.Api.make_socket find
first_descriptor = (_, refl)

rcs_close-forgets_example :
    (q : Process) × (rcs_close calm (pos 0) with_socket ≡ ok (pos 0, q))
    × (get_socket (pos 0) q ≡ none)
    × ((j : ℕ) → j ≢ 0 → get_socket (pos j) q ≡ get_socket (pos j) with_socket)
    × (q.table.next_id ≡ 1)
    × Below q.table.next_id q.table.sockets
rcs_close-forgets_example = rcs_close-forgets calm 0 socket_0 with_socket found (omega arith, tt)

-- A listener on descriptor 0 that a FIN has closed.
abbrev closed_listener : Socket
closed_listener = record socket_0 { is_listener = true; is_closing = true }

abbrev with_listener : Process
with_listener = record with_socket {
  table = record { sockets = (0, closed_listener) ∷ []; next_id = 1 };
}

listener_empty : empty closed_listener.buffer ≡ true
unfolding empty
listener_empty = refl

-- Socket 0 is closed, and another one opened.
closing :
    (q : Process) × (rcs_close calm (pos 0) with_socket ≡ ok (pos 0, q))
    × (q.table.next_id ≡ 1)
    × Below q.table.next_id q.table.sockets
closing =
    let (q, ran, _, _, next, below) =
      rcs_close-forgets calm 0 socket_0 with_socket found (omega arith, tt) in
    (q, ran, next, below)

connect-finished_example :
    (t : State) × (connect calm host (record { sock = closed_listener; world = world_with [] })
      ≡ ok (pos 0, t))
    × (t.sock.end_point.port ≡ 25458)
    × (t.sock.end_point.ip ≡ 16777343)
    × (t.world ≡ world_with [])
connect-finished_example =
    connect-finished calm host (record { sock = closed_listener; world = world_with [] })
      (record { closing = refl; drained = listener_empty })
