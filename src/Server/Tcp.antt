-- ===== src/Server/Tcp.antt =====
-- a2/TCPServer.cc: the server that polls its connections. The results of `poll`, `accept` and
-- `recv` that are to come are lists; `revents` are the events that `poll` reports.
pub mod Sessions
pub mod Listener
use ece.Prelude.{
  ◌==◌, if◌then◌else◌, length, take, drop, ℕ, zero, suc, ◌+◌, Bool, true, false, some, List, [],
  ◌∷◌, ◌++◌, map, ℤ, pos, negsuc, is_negative, is_below, is_failure,
}
use ece.Net.{Addr, Os, World, tick, eagain}
use ece.Server.Command
use ece.Server.Wire.{Message, deserialize}
use ece.Server.Groups.{Groups, get}
use ece.Server.Listen.{af_inet, get_port_and_bind}
use ece.Server.Run.{Run, ok, exits, waits, crashes, bind}

-- `pollfd`; `events` is always `POLLIN`.
pub record PollFd : Type 0 where
  pub fd : ℤ
  pub revents : ℕ

-- What `poll` returns: an error, a timeout, or the events of each connection.
pub data Polled : Type 0 where
  poll_failed : Polled
  timed_out : Polled
  ready : List ℕ → Polled

-- What `accept` and `recv` return: an error number, or a descriptor, or bytes.
pub data Answer (A : Type 0) : Type 0 where
  failed : ℕ → Answer A
  got : A → Answer A

-- What the process sees and does of the network. `sent` are the calls of `send`, `closed` those of
-- `close`, `non_blocking` those of `fcntl`, the newest first.
pub record Net : Type 0 where
  pub accepts : List (Answer ℤ)
  pub receipts : List (Answer (List ℕ))
  pub sent : List (ℤ × List ℕ)
  pub closed : List ℤ
  pub non_blocking : List ℤ

-- `TCPServer`; `clients` begins with the listener.
pub record TcpServer : Type 0 where
  pub groups : Groups
  pub clients : List PollFd
  pub net : Net

-- `make_poll`; `revents` is not initialised, and `poll` sets it before it is read.
abbrev pub make_poll : ℤ → PollFd
make_poll sock = record { fd = sock; revents = 0 }

-- `TCPServer::respond`
unfoldable pub respond : ℤ → List ℕ → TcpServer → TcpServer
respond client response s = record s {
  net = record (s.net) { sent = (client, response) ∷ s.net.sent };
}

-- The switch of `TCPServer::handle_msg`, and `stop`.
unfoldable pub dispatch : ℤ → Message → TcpServer → Run TcpServer Bool
dispatch client msg s =
    if msg.command == Command.get
    then ok true (respond client (get msg.param1 msg.param2 s.groups) s)
    else if msg.command == Command.stop_session
    then ok false s
    else if msg.command == Command.stop
    then exits 0 s
    else ok true s

-- `TCPServer::handle_msg`
unfoldable pub handle_msg : ℤ → List ℕ → TcpServer → Run TcpServer Bool
handle_msg client buffer s = dispatch client (deserialize buffer) s

abbrev pub buffer_size : ℕ
buffer_size = 1024

-- What `recv` leaves in the buffer, which held `old`.
abbrev pub fill : List ℕ → List ℕ → List ℕ
fill bytes old = take buffer_size bytes ++ drop (length (take buffer_size bytes)) old

-- The loop of `run` that accepts connections, over what `accept` is to return.
unfoldable pub accept_loop : List (Answer ℤ) → TcpServer → Run TcpServer (Unit {0})
accept_loop [] s = waits s
accept_loop (failed e ∷ rest) s =
    let t = record s { net = record (s.net) { accepts = rest } } in
    if e == eagain then ok tt t else exits e t
accept_loop (got client ∷ rest) s = accept_loop rest (record s {
  clients = s.clients ++ make_poll client ∷ [];
  net = record (s.net) { accepts = rest; non_blocking = client ∷ s.net.non_blocking };
})

-- The loop of `run` that receives from one connection, over what `recv` is to return: whether the
-- session goes on. `old` is what the local array holds, which is the same memory each time.
unfoldable pub receive_loop : ℤ → List (Answer (List ℕ)) → List ℕ → TcpServer → Run TcpServer Bool
receive_loop fd [] old s = waits s
receive_loop fd (failed e ∷ rest) old s =
    let t = record s { net = record (s.net) { receipts = rest } } in
    if e == eagain then ok true t else exits e t
receive_loop fd (got bytes ∷ rest) old s =
    let t = record s { net = record (s.net) { receipts = rest } } in
    bind (handle_msg fd (fill bytes old) t)
      λ go u. if go then receive_loop fd rest (fill bytes old) u else ok false u

-- `clients_.erase(it)`, at a place of the list.
unfoldable pub erase_at : ℕ → List PollFd → List PollFd
erase_at n [] = []
erase_at zero (c ∷ cs) = cs
erase_at (suc n) (c ∷ cs) = c ∷ erase_at n cs

-- `close(conn.fd)` and the erasure of the session at place `i`.
unfoldable pub end_session : ℕ → ℤ → TcpServer → TcpServer
end_session i fd s = record s {
  clients = erase_at i s.clients;
  net = record (s.net) { closed = fd ∷ s.net.closed };
}

-- The test `conn.fd == sock`.
unfoldable pub same_fd : ℤ → ℤ → Bool
same_fd (pos m) (pos n) = m == n
same_fd (negsuc m) (negsuc n) = m == n
same_fd (pos m) (negsuc n) = false
same_fd (negsuc m) (pos n) = false

-- The loop of `run` over the connections, from place `i` on. A connection is added only where the
-- loop ends, so that the list it walks is the one it began with.
unfoldable pub visit : ℤ → List ℕ → ℕ → List PollFd → TcpServer → Run TcpServer (Unit {0})
visit sock old i [] s = ok tt s
visit sock old i (conn ∷ rest) s =
    let later = visit sock old (i + 1) rest in
    if conn.revents == 0
    then later s
    else if same_fd conn.fd sock
    then accept_loop s.net.accepts s
    else bind (receive_loop conn.fd s.net.receipts old s)
        λ go t. if go then later t else ok tt (end_session i conn.fd t)

-- The events that `poll` writes.
unfoldable pub with_events : List ℕ → List PollFd → List PollFd
with_events es [] = []
with_events [] (c ∷ cs) = (record c { revents = 0 }) ∷ with_events [] cs
with_events (e ∷ es) (c ∷ cs) = (record c { revents = e }) ∷ with_events es cs

-- `TCPServer::run`, over what `poll` is to return; `sock` is the descriptor at the first place.
unfoldable pub poll_loop : ℤ → List ℕ → List Polled → TcpServer → Run TcpServer (Unit {0})
poll_loop sock old [] s = waits s
poll_loop sock old (poll_failed ∷ rest) s = exits 1 s
poll_loop sock old (timed_out ∷ rest) s = exits 1 s
poll_loop sock old (ready events ∷ rest) s =
    let clients = with_events events s.clients in
    bind (visit sock old 0 clients (record s { clients = clients }))
      λ _ t. poll_loop sock old rest t

unfoldable pub run : List ℕ → List Polled → TcpServer → Run TcpServer (Unit {0})
run old polls s = elim s.clients [ [] ↦ crashes | conn ∷ rest ↦ poll_loop conn.fd old polls s ]

-- `TCPServer::init`; `inet_pton` gives its result and the address it reads, `listen` its result.
unfoldable pub init : Os → (List ℕ → ℤ × ℕ) → (ℤ → ℤ) → List ℕ → World → TcpServer → Run TcpServer ℕ
init os inet_pton listen address w s =
    let sock = os.socket w.clock in
    let (read, ip) = inet_pton address in
    let addr : Addr = record { family = af_inet; ip = ip; port = 0 } in
    let (bound, port, v) = get_port_and_bind os sock (some addr) 0 (tick w) in
    let opened = record s { net = record (s.net) { non_blocking = sock ∷ s.net.non_blocking } } in
    let shut = record opened { net = record (opened.net) { closed = sock ∷ s.net.closed } } in
    let listening = record opened { clients = s.clients ++ make_poll sock ∷ [] } in
    if is_failure sock
    then exits 1 s
    else if is_below read 1
    then exits 1 shut
    else if is_negative bound
    then exits 1 shut
    else if is_failure (listen sock)
    then exits 1 listening
    else ok port listening

-- The descriptors that the destructor closes.
abbrev pub destructor : TcpServer → TcpServer
destructor s = record s {
  clients = [];
  net = record (s.net) { closed = map (λ (c : PollFd). c.fd) s.clients ++ s.net.closed };
}
