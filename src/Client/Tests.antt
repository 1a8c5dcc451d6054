-- ===== src/Client/Tests.antt =====
-- Runs of the clients: the input "1 2" and the reply "Al".
use ece.Prelude.{if◌then◌else◌, ℕ, ◌≡◌, refl, List, [], ◌∷◌, arith, pos}
use ece.Net.{Os}
use ece.Net.Sample.{calm, world_with, host, any_port}
use ece.Server.Groups.{Groups}
use ece.Server.Run.{ok, exits}
use ece.Server.Clients.{client_main}
use ece.Net.{datagram}
use ece.Server.Tcp.{got}
use ece.Client.{Session, main_loop}
use ece.Client.Resolve.{Found, Host, IsText}
use ece.Client.Udp.{UdpClient}
use ece.Client.Tcp.{TcpClient, tcp_client}
use ece.Client.Printed.{ending, newest_first}
use ece.Client.Answered.{replies_to, IsSending, Stream, main_loop-Ends}

abbrev al : List ℕ
al = 65 ∷ 108 ∷ []

abbrev groups : Groups
groups = (1, (2, al) ∷ []) ∷ []

-- "1 2"
abbrev lines : List (List ℕ)
lines = (49 ∷ 32 ∷ 50 ∷ []) ∷ []

-- An IPv6 address and an IPv4 address.
abbrev found : List Found
found = record { family = 10; address = any_port } ∷ record { family = 2; address = host } ∷ []

abbrev resolver : Host
resolver = record { getaddrinfo = λ name port. (pos 0, found); connect = λ fd addr. pos 0 }

abbrev sending_os : Os
sending_os = record calm { sendto = λ t. pos 12 }

sending_os-IsSending : IsSending sending_os
sending_os-IsSending t = refl

al-IsText : IsText al
al-IsText = record { fits = omega arith; no_zero = (omega arith, (omega arith, tt)) }

abbrev udp : Session UdpClient
udp = record {
  client = record {
    sock = pos 3;
    addr = any_port;
    host_addr = host;
    world = world_with (datagram al host ∷ []);
  };
  printed = [];
}

abbrev tcp : Session TcpClient
tcp = record {
  client = record {
    sock = pos 3;
    addr = any_port;
    host_addr = host;
    host_port = 4135;
    clock = 0;
    receipts = got al ∷ got [] ∷ [];
    sent = [];
    shut = [];
    closed = [];
  };
  printed = [];
}

replies_known : replies_to groups lines ≡ al ∷ []
unfolding client_main ece.Server.Clients.on_line ece.Server.Clients.on_numbers
    ece.Server.Input.read_int ece.Server.Input.read_digits ece.Server.Input.skip_spaces
    ece.Server.Groups.get ece.Server.Groups.lookup ece.Server.Groups.name_of
replies_known = refl

tcp-Stream : Stream (replies_to groups lines) tcp.client
tcp-Stream = rw replies_known ((al-IsText, tt), refl)

main_loop-Ends_example :
    (q : Session TcpClient) × (main_loop (tcp_client sending_os resolver) lines tcp
      ≡ (if (ending lines).1 then exits 0 q else ok tt q))
    × (q.printed ≡ newest_first (replies_to groups lines) [])
main_loop-Ends_example =
    main_loop-Ends sending_os resolver sending_os-IsSending groups lines tcp tcp-Stream
