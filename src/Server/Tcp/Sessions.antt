-- ===== src/Server/Tcp/Sessions.antt =====
-- What `TCPServer::run` makes of the requests of one connection, and of the connections it accepts.
use ece.Prelude.{
  ◌==◌, if◌then◌else◌, ℕ, ◌≡◌, refl, sym, ◌∙◌, Bool, true, false, List, [], ◌∷◌, ◌++◌, map,
  append-nil, append_assoc, ℤ,
}
use ece.Net.{eagain}
use ece.Server.Command
use ece.Server.Wire.{Message, serialize, IsMessage}
use ece.Server.Groups.{Groups, get}
use ece.Server.Run.{Run, ok, exits}
use ece.Server.Tcp.{TcpServer, Answer, failed, got, make_poll, fill, accept_loop, receive_loop}

-- How the requests of a connection end: it stays open, it is to be closed, or the server stops.
pub data Ending : Type 0 where
  stays : Ending
  session_over : Ending
  server_stopped : Ending

abbrev pub ending : List Message → Ending
ending [] = stays
ending (m ∷ ms) =
    if m.command == Command.stop_session
    then session_over
    else if m.command == Command.stop
    then server_stopped
    else ending ms

-- The replies on connection `fd`, the newest first, in front of what was sent before.
abbrev pub replies : Groups → ℤ → List Message → List (ℤ × List ℕ) → List (ℤ × List ℕ)
replies g fd [] sent = sent
replies g fd (m ∷ ms) sent =
    if m.command == Command.stop_session
    then sent
    else if m.command == Command.stop
    then sent
    else replies g fd ms
        (if m.command == Command.get then (fd, get m.param1 m.param2 g) ∷ sent else sent)

-- What a run of the loop comes to at an ending.
abbrev pub outcome : Ending → TcpServer → Run TcpServer Bool
outcome stays s = ok true s
outcome session_over s = ok false s
outcome server_stopped s = exits 0 s

-- Requests, and behind them the error that says that there is no more to read.
abbrev pub requests : List Message → List (Answer (List ℕ)) → List (Answer (List ℕ))
requests [] more = failed eagain ∷ more
requests (m ∷ ms) more = got (serialize m) ∷ requests ms more

-- The loop, at what ends the requests and with what it sends; the connections stay as they are.
abbrev pub Ran : Ending → List (ℤ × List ℕ) → TcpServer → Run TcpServer Bool → Type 0
Ran e sent s r =
    (t : TcpServer) × (r ≡ outcome e t)
    × (t.net.sent ≡ sent)
    × (t.clients ≡ s.clients)
    × (t.groups ≡ s.groups)
    × (t.net.closed ≡ s.net.closed)

-- The descriptors that `accept` returns before there are no more.
abbrev pub accepted : List ℤ → List (Answer ℤ) → List (Answer ℤ)
accepted [] more = failed eagain ∷ more
accepted (c ∷ cs) more = got c ∷ accepted cs more

-- Each in front of those before it.
abbrev pub pushed : List ℤ → List ℤ → List ℤ
pushed [] fds = fds
pushed (c ∷ cs) fds = pushed cs (c ∷ fds)

-- The accepting loop puts every connection that is waiting behind the others, in their order, sets
-- each non-blocking, and leaves what `accept` returns later.
pub accept_loop-accepted :
    (cs : List ℤ) (more : List (Answer ℤ)) (s : TcpServer)
    → (t : TcpServer) × (accept_loop (accepted cs more) s ≡ ok tt t)
      × (t.clients ≡ s.clients ++ map make_poll cs)
      × (t.net.accepts ≡ more)
      × (t.net.non_blocking ≡ pushed cs s.net.non_blocking)
      × (t.net.sent ≡ s.net.sent)
unfolding accept_loop
accept_loop-accepted [] more s = (_, refl, sym (append-nil s.clients), refl, refl, refl)
accept_loop-accepted (c ∷ cs) more s =
    let next = record s {
      clients = s.clients ++ make_poll c ∷ [];
      net = record (s.net) { accepts = accepted cs more; non_blocking = c ∷ s.net.non_blocking };
    } in
    let (t, r, clients, q, n, o) = accept_loop-accepted cs more next in
    (t, r, clients ∙ append_assoc s.clients (make_poll c ∷ []) (map make_poll cs), q, n, o)

-- `recv` returns 0 when the peer has closed the connection, which the loop does not look at: the
-- request that the buffer holds from before is answered again, for as long as `recv` returns 0.
pub receive_loop-peer_closed :
    (fd : ℤ) (m : Message) (more : List (Answer (List ℕ))) (old : List ℕ) (s : TcpServer)
    → IsMessage m
    → receive_loop fd (got [] ∷ more) (fill (serialize m) old) s
      ≡ receive_loop fd (got (serialize m) ∷ more) (fill (serialize m) old) s
unfolding receive_loop serialize
receive_loop-peer_closed fd m more old s h = refl
