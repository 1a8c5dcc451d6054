-- ===== src/Apps/Tests.antt =====
-- Examples of the theorems on the applications.
use ece.Prelude.{
  length, replicate, ℕ, ◌≡◌, refl, inl, true, false, none, some, List, [], ◌∷◌, ◌++◌, map, arith,
  pos,
}
use ece.Msg.{Msg, control_msg}
use ece.Msg.Wire.{wire}
use ece.Net.{Arrival, datagram}
use ece.Net.Sample.{calm, world_with, host}
use ece.Server.Listen.{Interface}
use ece.Buffer.{empty, read, read_loop, turn, visit, copy}
use ece.Socket.Monad.{Socket, ok, bind}
use ece.Socket.Receiver.{recv, recv_outer, recv_inner, recv_read}
use ece.Api.Sockets.{find, put}
use ece.Api.{Process, get_socket, on_socket, rcs_close}
use ece.Api.Descriptors.{rcs_close-forgets}
use ece.Apps.{rcs_recv_into}
use ece.Apps.Copy.{copy_loop, send_each, close_up, copy_loop-send_each}
use ece.Apps.Public.{public_ip, First, public_ip-First}
use ece.Buffer.Invariant.{IsStored}
use ece.Buffer.Tokens.{view}
use ece.Apps.Drain.{Ended, Written, data_of, Ended-Written}
use ece.Apps.Service.{Files, Host, quits, writes, Serving, closed_both, wrote, Serving-Closed}

-- "AB" and the end of that send, with the FIN behind them: `queue` is what is left to read.
abbrev socket_with : List Msg → ℕ → Socket
socket_with queue size = record {
  ucp_socket = pos 3;
  is_listener = false;
  end_point = host;
  buffer = record { queue = queue; total_size = size; offset = 0 };
  send_seqnum = 0;
  recv_seqnum = 0;
  has_endpoint = true;
  from_endpoint = host;
  is_closing = true;
}

abbrev process_with : Socket → List Arrival → Process
process_with s arrivals = record {
  table = record { sockets = (7, s) ∷ []; next_id = 8 };
  world = world_with arrivals;
}

abbrev chunk : Msg
chunk = record {
  checksum = 1072;
  seqnum = 0;
  length = 2;
  flags = 0;
  payload = 65 ∷ 66 ∷ replicate 498 0;
}

abbrev at_first : Process
at_first = process_with (socket_with (chunk ∷ []) 2) []

abbrev at_end : Process
at_end = process_with (socket_with [] 0) []

-- `open` returns 5, and `write` takes all it is given.
abbrev files : Files
files = record {
  open_file = λ t. pos 5;
  write = λ t fd bytes. pos (length bytes);
  create_thread = λ t. pos 0;
}

abbrev start : Host
start = record { process = at_first; clock = 1; written = []; closed = []; started = [] }

abbrev behind : Host
behind = wrote (pos 5) (65 ∷ 66 ∷ []) at_end start

reads :
    (rcs_recv_into calm (pos 7) 256 at_first ≡ ok ((pos 2, 65 ∷ 66 ∷ []), at_end))
    × (rcs_recv_into calm (pos 7) 256 at_end ≡ ok ((pos 0, []), at_end))
unfolding rcs_recv_into on_socket find put recv recv_outer recv_inner recv_read empty read read_loop
    turn visit copy ece.Msg.has_flag
reads = (refl, refl)

at_end_socket : get_socket (pos 7) at_end ≡ some (socket_with [] 0)
unfolding get_socket find
at_end_socket = refl

closing :
    (q : Process) × (rcs_close calm (pos 7) at_end ≡ ok (pos 0, q)) × (get_socket (pos 7) q ≡ none)
closing =
    let r = rcs_close-forgets calm 7 (socket_with [] 0) at_end at_end_socket (omega arith, tt) in
    (r.0, r.1, r.2)

serves : Serving calm files (pos 7) (pos 5) start (closed_both (pos 5) closing.0 behind)
serves = writes {k = 1} reads.0 refl (quits reads.1 refl closing.1)

Serving-Closed_example :
    ((closed_both (pos 5) closing.0 behind).closed ≡ pos 5 ∷ [])
    × (get_socket (pos 7) closing.0 ≡ none)
    × ((chunks : List (List ℕ)) × ((closed_both (pos 5) closing.0 behind).written
          ≡ map (λ b. (pos 5, b)) chunks ++ []))
Serving-Closed_example = Serving-Closed calm files (pos 7) (pos 5) serves

-- The loopback interface, one with no address, and another.
abbrev interfaces : List Interface
interfaces =
    record { flags = 8; address = some (record { family = 2; ip = 16777343; port = 0 }) }
    ∷ record { flags = 0; address = none }
    ∷ record { flags = 0; address = some (record { family = 2; ip = 33663168; port = 0 }) }
    ∷ []

public_ip-First_example : First interfaces (public_ip interfaces)
public_ip-First_example = public_ip-First interfaces

abbrev ack : ℕ → Arrival
ack seqnum = datagram (wire (control_msg (replicate 500 0) seqnum 1)) host

abbrev ready : Process
ready =
    process_with (record (socket_with [] 0) { is_closing = false })
      (ack 0 ∷ ack 1 ∷ ack 2 ∷ ack 0 ∷ ack 1 ∷ [])

ready_socket : get_socket (pos 7) ready ≡ some (record (socket_with [] 0) { is_closing = false })
unfolding get_socket find
ready_socket = refl

copy_loop-send_each_example :
    copy_loop calm (pos 7) ((65 ∷ 66 ∷ []) ∷ (67 ∷ []) ∷ [] ∷ []) ready
    ≡ bind
        (send_each calm (pos 7) ((65 ∷ 66 ∷ []) ∷ (67 ∷ []) ∷ [] ∷ []) ready)
        (λ r. close_up calm (pos 7) r.1)
copy_loop-send_each_example =
    copy_loop-send_each calm 7 ((65 ∷ 66 ∷ []) ∷ (67 ∷ []) ∷ [] ∷ []) ready _ ready_socket

chunk-IsStored : IsStored chunk
unfolding ece.Msg.has_flag
chunk-IsStored = (omega arith, refl, λ h. absurd (cc))

at_first-Ended : Ended 7 (socket_with (chunk ∷ []) 2) at_first
unfolding find ece.Msg.has_flag
at_first-Ended = record {
  at_id = refl;
  closing = refl;
  buffer = record {
    stored = (chunk-IsStored, tt);
    starts = inl refl;
    total = refl;
    fits = omega arith;
  };
}

Ended-Written_example :
    (z : Host) × Serving calm files (pos 7) (pos 5) start z
    × Written (pos 5) (data_of (view (socket_with (chunk ∷ []) 2).buffer)) start z
Ended-Written_example =
    Ended-Written calm 7 files (λ t fd bytes. refl) (pos 5) (socket_with (chunk ∷ []) 2) start
      at_first-Ended
