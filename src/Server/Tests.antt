-- ===== src/Server/Tests.antt =====
-- Runs of the group servers and the client, and examples of their theorems.
use ece.Prelude.{replicate, ℕ, ◌≡◌, refl, true, none, some, List, [], ◌∷◌, map, arith, pos}
use ece.Net.Sample.{world_with, host, any_port}
use ece.Net.{eagain}
use ece.Server.Command
use ece.Server.Wire.{Message, bare, IsMessage, serialize}
use ece.Server.Groups.{
  Groups, add_student, get, print_int, read_int, get-add_student, read_int-print_int,
}
use ece.Server.Listen.{Interface, choose_from}
use ece.Server.Listen.Choose.{Chosen, choose_from-Chosen}
use ece.Server.Udp.{UdpServer, run}
use ece.Server.Udp.Answers.{has_stop, Request, arrival, replies, Served, run-Served}
use ece.Server.Tcp
use ece.Server.Tcp.Sessions
use ece.Server.Tcp.Listener
use ece.Server.Input.{Loaded, loaded, load}
use ece.Server.Input.Printed.{Line, group_line, student_line, text_of, meaning, load-text_of}
use ece.Server.Session.{from_client, gets, reply_each, client_main-Served}
use ece.Server.Input.Loading.{Finished, load-Finished}
use ece.Server.Clients.{client_main}
use ece.Server.Clients.Requests.{messages}

-- "Al"
abbrev al : List ℕ
al = 65 ∷ 108 ∷ []

abbrev groups : Groups
groups = (1, (2, al) ∷ []) ∷ []

-- "Group 1\n2 Al\n"
abbrev group_file : List ℕ
group_file = 71 ∷ 114 ∷ 111 ∷ 117 ∷ 112 ∷ 32 ∷ 49 ∷ 10 ∷ 50 ∷ 32 ∷ 65 ∷ 108 ∷ 10 ∷ []

reads_groups : load group_file ≡ loaded groups
unfolding load ece.Server.Input.load_from ece.Server.Input.read_word ece.Server.Input.split_word
    ece.Server.Input.skip_spaces ece.Server.Input.read_int ece.Server.Input.read_digits
    ece.Server.Input.same_text ece.Server.Input.get_line ece.Server.Input.atoi add_student
    ece.Server.Groups.insert ece.Server.Groups.lookup
reads_groups = refl

abbrev ask : Message
ask = record { command = 0; param1 = 1; param2 = 2 }

ask-IsMessage : IsMessage ask
ask-IsMessage = record {
  command_fits = omega arith;
  param1_fits = omega arith;
  param2_fits = omega arith;
}

stop-IsMessage : IsMessage (bare Command.stop)
stop-IsMessage = record {
  command_fits = omega arith;
  param1_fits = omega arith;
  param2_fits = omega arith;
}

abbrev buffer : List ℕ
buffer = replicate 1024 0

abbrev udp : UdpServer
udp = record {
  groups = groups;
  address = [];
  port = 10000;
  sock = pos 3;
  clients = host ∷ [];
  world = world_with [];
}

get-add_student_example : get 1 2 (add_student 1 3 (66 ∷ []) groups) ≡ get 1 2 groups
get-add_student_example = get-add_student 1 3 1 2 (66 ∷ []) groups

-- The loopback interface, and one with the address 10.0.0.1.
abbrev loopback : Interface
loopback = record { flags = 9; address = some host }

abbrev ethernet : Interface
ethernet = record { flags = 1; address = some (record { family = 2; ip = 16777226; port = 0 }) }

choose_from-Chosen_example :
    Chosen (loopback ∷ ethernet ∷ []) (choose_from loopback (ethernet ∷ []))
choose_from-Chosen_example =
    choose_from-Chosen loopback (ethernet ∷ []) ((λ e. absurd (cc)), ((λ e. absurd (cc)), tt))

abbrev reqs : List Request
reqs = (ask, any_port) ∷ (bare Command.stop, host) ∷ []

run-Served_example : Served true (replies groups reqs []) (run (map arrival reqs) buffer udp)
run-Served_example = run-Served reqs buffer udp (ask-IsMessage, (stop-IsMessage, tt))

abbrev listener : Tcp.PollFd
listener = record { fd = pos 3; revents = 0 }

abbrev tcp : Tcp.TcpServer
tcp = record {
  groups = groups;
  clients = listener ∷ record { fd = pos 4; revents = 0 } ∷ [];
  net = record {
    accepts = [];
    receipts = Tcp.got (serialize ask) ∷ Tcp.failed eagain ∷ [];
    sent = [];
    closed = [];
    non_blocking = [];
  };
}

run-Listening_example :
    Listener.Ends (Listener.Listening (pos 3)) (Tcp.run buffer (Tcp.ready (0 ∷ 1 ∷ []) ∷ []) tcp)
run-Listening_example =
    Listener.run-Listening (pos 3) buffer (Tcp.ready (0 ∷ 1 ∷ []) ∷ []) tcp
      (listener, record { fd = pos 4; revents = 0 } ∷ [], refl, refl)

load-Finished_example : Finished (load group_file)
load-Finished_example = load-Finished group_file

abbrev file_lines : List Line
file_lines = group_line 1 ∷ student_line 2 al ∷ []

load-text_of_example : load (text_of file_lines) ≡ meaning none file_lines []
load-text_of_example =
    load-text_of file_lines (omega arith, ((omega arith, (refl, (refl, tt))), tt))

-- "1 2", and "STOP"
abbrev input_lines : List (List ℕ)
input_lines = (49 ∷ 32 ∷ 50 ∷ []) ∷ (83 ∷ 84 ∷ 79 ∷ 80 ∷ []) ∷ []

client_main-Served_example :
    Served
      (has_stop (from_client host (messages (client_main input_lines))))
      (reply_each groups host (gets (messages (client_main input_lines))) [])
      (run (map arrival (from_client host (messages (client_main input_lines)))) buffer udp)
client_main-Served_example = client_main-Served input_lines host buffer udp
