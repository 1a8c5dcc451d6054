-- ===== src/Server/Session.antt =====
-- A client of a2/ClientMain.cc and the server of a2/UDPServer.cc together, if no datagram is lost.
use ece.Prelude.{
  if◌then◌else◌, All, u32_mod, ℕ, ◌<◌, ◌≡◌, refl, sym, true, List, [], ◌∷◌, map, arith,
}
use ece.Net.{Addr}
use ece.Server.Command
use ece.Server.Wire.{Message, bare, IsMessage}
use ece.Server.Groups.{Groups, get}
use ece.Server.Clients.{client_main}
use ece.Server.Clients.Requests.{
  messages, IsGet, Conversation, asks, stops, ends_session, client_main-Conversation,
}
use ece.Server.Udp.{UdpServer, run}
use ece.Server.Udp.Answers.{
  Request, arrival, Reply, reply_of, is_get, replies, has_stop, Served, run-Served,
}

-- The requests of one client.
abbrev pub from_client : Addr → List Message → List Request
from_client a = map (λ m. (m, a))

-- The GET requests among the messages.
abbrev pub gets : List Message → List Message
gets [] = []
gets (m ∷ ms) = if is_get m then m ∷ gets ms else gets ms

-- A reply to each, the newest first, in front of those sent before.
abbrev pub reply_each : Groups → Addr → List Message → List Reply → List Reply
reply_each g a [] sent = sent
reply_each g a (m ∷ ms) sent = reply_each g a ms ((a.ip, a.port, get m.param1 m.param2 g) ∷ sent)

pub IsGet-is_get : (m : Message) → IsGet m → is_get m ≡ true
IsGet-is_get m h = let e = h.command_eq in ground arith

IsGet-IsMessage : (m : Message) → IsGet m → IsMessage m
IsGet-IsMessage m h = record {
  command_fits = (let e = h.command_eq in omega arith);
  param1_fits = (let e = h.group_fits in omega arith);
  param2_fits = (let e = h.student_fits in omega arith);
}

bare-IsMessage : (c : ℕ) → c < u32_mod → IsMessage (bare c)
bare-IsMessage c h = record {
  command_fits = h;
  param1_fits = omega arith;
  param2_fits = omega arith;
}

Conversation-IsMessage :
    (a : Addr) (ms : List Message)
    → Conversation ms
    → All (λ (r : Request). IsMessage r.0) (from_client a ms)
Conversation-IsMessage a _ (asks m ms h c) = (IsGet-IsMessage m h, Conversation-IsMessage a ms c)
Conversation-IsMessage a _ stops = (bare-IsMessage Command.stop (omega arith), tt)
Conversation-IsMessage a _ ends_session = (bare-IsMessage Command.stop_session (omega arith), tt)

replies-Conversation :
    (g : Groups) (a : Addr) (ms : List Message) (sent : List Reply)
    → Conversation ms
    → replies g (from_client a ms) sent ≡ reply_each g a (gets ms) sent
replies-Conversation g a _ sent (asks m ms h c) =
    rw (IsGet-is_get m h) (replies-Conversation g a ms _ c)
replies-Conversation g a _ sent stops = refl
replies-Conversation g a _ sent ends_session = refl

-- Whatever the client's input is, a server that receives the client's datagrams, all and in their
-- order, sends that client one reply to each GET request, in their order, with the name that `get`
-- finds, and nothing else; and it ends exactly if the client sends a STOP.
pub client_main-Served :
    (lines : List (List ℕ)) (a : Addr) (buffer : List ℕ) (s : UdpServer)
    → Served
        (has_stop (from_client a (messages (client_main lines))))
        (reply_each s.groups a (gets (messages (client_main lines))) (map reply_of s.world.sent))
        (run (map arrival (from_client a (messages (client_main lines)))) buffer s)
client_main-Served lines a buffer s =
    let ms = messages (client_main lines) in
    let c = client_main-Conversation lines in
    rw (sym (replies-Conversation s.groups a ms (map reply_of s.world.sent) c))
      (run-Served (from_client a ms) buffer s (Conversation-IsMessage a ms c))
