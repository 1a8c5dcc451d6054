-- ===== src/Server/Udp.antt =====
-- a2/UDPServer.cc: the server that numbers its clients by address and answers each datagram.
pub mod Numbers
pub mod Answers
use ece.Prelude.{
  ◌==◌, if◌then◌else◌, length, take, drop, ℕ, zero, suc, ◌+◌, Bool, true, false, ◌&&◌, Option, none,
  some, List, [], ◌∷◌, ◌++◌, ℤ, is_below, is_failure,
}
use ece.Net.{Addr, Arrival, datagram, failed, Os, World, tick}
use ece.Server.Command
use ece.Server.Wire.{Message, deserialize}
use ece.Server.Groups.{Groups, get}
use ece.Server.Listen.{af_inet, get_port_and_bind}
use ece.Server.Run.{Run, ok, exits, waits, crashes, bind}

-- `UDPServer`, with the fields of `Server` and what the process sees of the network.
pub record UdpServer : Type 0 where
  pub groups : Groups
  pub address : List ℕ
  pub port : ℕ
  pub sock : ℤ
  pub clients : List Addr
  pub world : World

-- The test of the loop of `get_client_num`.
abbrev pub same_client : Addr → Addr → Bool
same_client a b = (a.port == b.port) && (a.ip == b.ip)

-- `UDPServer::get_client_num`: the number, and the clients from number `i` on.
unfoldable pub client_num_from : ℕ → Addr → List Addr → ℕ × List Addr
client_num_from i source [] = (i, source ∷ [])
client_num_from i source (c ∷ cs) =
    let (n, ds) = client_num_from (i + 1) source cs in
    if same_client c source then (i, c ∷ cs) else (n, c ∷ ds)

unfoldable pub get_client_num : Addr → UdpServer → ℕ × UdpServer
get_client_num source s =
    let (n, clients) = client_num_from 0 source s.clients in (n, record s { clients = clients })

-- `clients_.at(n)`, which throws out of range.
unfoldable pub client_at : ℕ → List Addr → Option Addr
client_at n [] = none
client_at zero (c ∷ cs) = some c
client_at (suc n) (c ∷ cs) = client_at n cs

abbrev pub buffer_size : ℕ
buffer_size = 1024

-- What `recvfrom` leaves in the buffer: a datagram's bytes, cut to the size, over what was there.
abbrev pub fill : List ℕ → List ℕ → List ℕ
fill bytes buffer = take buffer_size bytes ++ drop (length (take buffer_size bytes)) buffer

-- `UDPServer::respond`
unfoldable pub respond : ℕ → List ℕ → UdpServer → Run UdpServer (Unit {0})
respond client reply s = elim (client_at client s.clients) [
  | none ↦ crashes
  | some to ↦ ok tt (record s {
    world = record (tick s.world) {
      sent = record { socket = s.sock; to = to; bytes = reply } ∷ s.world.sent;
    };
  })
]

-- `close(sock_)`
abbrev pub close_socket : UdpServer → UdpServer
close_socket s = record s { world = record (s.world) { closed = s.sock ∷ s.world.closed } }

-- `UDPServer::stop`
unfoldable pub stop : {A : Type 0} → UdpServer → Run UdpServer A
stop s = exits 1 (close_socket s)

-- The switch of `UDPServer::handle_msg`
unfoldable pub dispatch : ℕ → Message → UdpServer → Run UdpServer Bool
dispatch client msg s =
    if msg.command == Command.get
    then bind (respond client (get msg.param1 msg.param2 s.groups) s) (λ _ t. ok true t)
    else if msg.command == Command.stop_session
    then ok false s
    else if msg.command == Command.stop
    then stop s
    else ok true s

-- `UDPServer::handle_msg`
unfoldable pub handle_msg : ℕ → List ℕ → UdpServer → Run UdpServer Bool
handle_msg client buffer s = dispatch client (deserialize buffer) s

-- `UDPServer::run`, over what `recvfrom` is to return. `buffer` is what the local array holds.
unfoldable pub run : List Arrival → List ℕ → UdpServer → Run UdpServer (Unit {0})
run [] buffer s = waits s
run (failed e ∷ rest) buffer s = exits 1 s
run (datagram bytes source ∷ rest) buffer s =
    let (n, t) = get_client_num source s in
    bind (handle_msg n (fill bytes buffer) t) λ _ u. run rest (fill bytes buffer) u

-- `UDPServer::init`; `inet_pton` gives its result and the address it reads.
unfoldable pub init : Os → (List ℕ → ℤ × ℕ) → UdpServer → Run UdpServer (Unit {0})
init os inet_pton s =
    let t = record s { sock = os.socket s.world.clock; world = tick s.world } in
    let (read, ip) = inet_pton s.address in
    let addr : Addr = record { family = af_inet; ip = ip; port = 0 } in
    let (bound, port, w) = get_port_and_bind os t.sock (some addr) t.port t.world in
    if is_failure t.sock
    then exits 1 (close_socket t)
    else if is_below read 1
    then exits 1 (close_socket t)
    else if is_failure bound
    then exits 1 (close_socket (record t { port = port; world = w }))
    else ok tt (record t { port = port; world = w })
