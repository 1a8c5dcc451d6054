-- ===== src/Client/Udp.antt =====
-- a2/UDPClient.cc: the client that exchanges datagrams.
use ece.Prelude.{if◌then◌else◌, ℕ, ◌%◌, none, some, List, [], ◌∷◌, ℤ, is_negative, is_failure}
use ece.Net.{Addr, Arrival, datagram, failed, Os, World, tick}
use ece.Net.Bind.{htons}
use ece.Server.Listen.{af_inet}
use ece.Server.Wire.{Message, serialize}
use ece.Server.Run.{Run, ok, exits, waits, crashes}
use ece.Client.{Client}
use ece.Client.Resolve.{Host, first_inet, int_of, is_request_size, reply_text}

-- `UDPClient`, and what the process sees of the network.
pub record UdpClient : Type 0 where
  pub sock : ℤ
  pub addr : Addr
  pub host_addr : Addr
  pub world : World

module _ (os : Os) where
  -- The constructor.
  unfoldable pub construct : UdpClient → Run UdpClient (Unit {0})
  construct s =
      let t = record s { sock = os.socket s.world.clock; world = tick s.world } in
      let any : Addr = record { family = af_inet; ip = 0; port = htons 0 } in
      let u = record t { addr = any; world = tick t.world } in
      if is_failure t.sock
      then exits 1 t
      else if is_negative (os.bind t.world.clock t.sock any)
      then exits 1 u
      else ok tt u

  -- The rest of `send_message` behind the call of `recvfrom`, which stores the sender of a datagram
  -- in `host_addr_`.
  unfoldable pub on_reply : Arrival → UdpClient → Run UdpClient (List ℕ)
  on_reply (failed e) s = crashes
  on_reply (datagram bytes from) s = elim (reply_text bytes) [
    | none ↦ crashes
    | some reply ↦ ok reply (record s { host_addr = from })
  ]

  -- `UDPClient::send_message`
  unfoldable pub send_message : Message → UdpClient → Run UdpClient (List ℕ)
  send_message msg s =
      let t = record s {
        world = record (tick s.world) {
          sent = record { socket = s.sock; to = s.host_addr; bytes = serialize msg } ∷ s.world.sent;
        };
      } in
      if is_request_size (os.sendto s.world.clock)
      then elim t.world.arrivals [
        | [] ↦ waits t
        | a ∷ rest ↦ on_reply a (record t { world = record (t.world) { arrivals = rest } })
      ]
      else exits 1 t

-- `UDPClient::~UDPClient`
unfoldable pub destructor : UdpClient → UdpClient
destructor s =
    if is_failure s.sock
    then s
    else record s { world = record (s.world) { closed = s.sock ∷ s.world.closed } }

-- `UDPClient::set_host_info`
unfoldable pub set_host_info : Host → List ℕ → List ℕ → UdpClient → Run UdpClient (Unit {0})
set_host_info host address port s =
    let (result, found) = host.getaddrinfo address port in
    if is_negative result then exits 1 s else elim (first_inet found) [
      | none ↦ exits 1 s
      | some a ↦ ok tt (record s {
        host_addr = record a { family = af_inet; port = htons (int_of port % 65536) };
      })
    ]

abbrev pub udp_client : Os → Host → Client UdpClient
udp_client os host = record { set_host_info = set_host_info host; send_message = send_message os }
