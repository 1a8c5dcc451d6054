-- ===== src/Client/Tcp.antt =====
-- a2/TCPClient.cc: the client that keeps one connection. The results of `recv` that are to come are
-- a list.
use ece.Prelude.{leb, if◌then◌else◌, ℕ, ◌+◌, none, some, List, [], ◌∷◌, ℤ, is_negative, is_failure}
use ece.Net.{Addr, Os}
use ece.Net.Bind.{htons}
use ece.Server.Listen.{af_inet}
use ece.Server.Tcp.{Answer, failed, got}
use ece.Server.Wire.{Message, serialize}
use ece.Server.Run.{Run, ok, exits, waits, crashes}
use ece.Client.{Client}
use ece.Client.Resolve.{Found, Host, first_inet, int_of, is_request_size, reply_text}

-- `TCPClient`, and what the process sees and does of the network: `sent`, `shut` and `closed` are
-- the calls of `send`, `shutdown` and `close`, the newest first.
pub record TcpClient : Type 0 where
  pub sock : ℤ
  pub addr : Addr
  pub host_addr : Addr
  pub host_port : ℕ
  pub clock : ℕ
  pub receipts : List (Answer (List ℕ))
  pub sent : List (ℤ × List ℕ)
  pub shut : List ℤ
  pub closed : List ℤ

abbrev pub sizeof_sockaddr_in : ℕ
sizeof_sockaddr_in = 16

module _ (os : Os) where
  -- The constructor. The second assignment to `sin_family` was meant for `sin_port`.
  unfoldable pub construct : TcpClient → Run TcpClient (Unit {0})
  construct s =
      let t = record s { sock = os.socket s.clock; clock = s.clock + 1 } in
      let zeroed : Addr = record { family = 0; ip = 0; port = 0 } in
      let first : Addr = record zeroed { family = af_inet } in
      let second : Addr = record first { family = htons 0 } in
      if is_failure t.sock then exits 1 t else ok tt (record t { addr = second })

  -- The rest of `send_message` behind the call of `recv`; its test is on `bytes`, which holds the
  -- size of an address.
  unfoldable pub on_reply : Answer (List ℕ) → TcpClient → Run TcpClient (List ℕ)
  on_reply a s = if leb sizeof_sockaddr_in 0 then exits 1 s else elim a [
    | failed e ↦ crashes
    | got bytes ↦ elim (reply_text bytes) [ none ↦ crashes | some reply ↦ ok reply s ]
  ]

  -- `TCPClient::send_message`
  unfoldable pub send_message : Message → TcpClient → Run TcpClient (List ℕ)
  send_message msg s =
      let t = record s { clock = s.clock + 1; sent = (s.sock, serialize msg) ∷ s.sent } in
      if is_request_size (os.sendto s.clock)
      then elim t.receipts [ [] ↦ waits t | a ∷ rest ↦ on_reply a (record t { receipts = rest }) ]
      else exits 1 t

-- `TCPClient::~TCPClient`
unfoldable pub destructor : TcpClient → TcpClient
destructor s = record s { shut = s.sock ∷ s.shut; closed = s.sock ∷ s.closed }

-- The rest of `TCPClient::set_host_info` behind the lookup.
unfoldable pub on_found : Host → List Found → TcpClient → Run TcpClient (Unit {0})
on_found host found s = elim (first_inet found) [
  | none ↦ exits 1 s
  | some a ↦
      if is_failure (host.connect s.sock a)
      then exits 1 (record s { host_addr = a; closed = s.sock ∷ s.closed })
      else ok tt (record s { host_addr = a })
]

-- `TCPClient::set_host_info`
unfoldable pub set_host_info : Host → List ℕ → List ℕ → TcpClient → Run TcpClient (Unit {0})
set_host_info host address port s =
    let t = record s { host_port = int_of port } in
    let (result, found) = host.getaddrinfo address port in
    if is_negative result then exits 1 t else on_found host found t

abbrev pub tcp_client : Os → Host → Client TcpClient
tcp_client os host = record { set_host_info = set_host_info host; send_message = send_message os }
