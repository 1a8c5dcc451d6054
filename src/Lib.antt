-- ===== src/Lib.antt =====
-- A verification library for this repository's two network programs.
--
-- a4 is a reliable datagram socket library. `ucp.c` is a channel over UDP that loses, cuts or
-- corrupts packets on purpose and `mybind.c` binds to a port; `msg_t` is the packet, `msg_buffer_t`
-- what a receiver has stored and not yet read, `rcs_t` a socket with a stop-and-wait protocol and
-- `rcs.cc` the C interface with a table of sockets. a2 is a service that looks up names of
-- students: `Message` is a request, `Server` the part that `UDPServer` and `TCPServer` share, and
-- `ServerMain` and `ClientMain` are the programs.
--
-- Prelude.antt: names, tests, lists and machine words that all files share.
-- Msg.antt: a4/msg_t.h and a4/msg_t.cc, one definition per constructor and method. Msg/Wire.antt is
--   the way of a packet over the network (`rawsend`, `rawrecv`), Msg/Show.antt the printing.
-- Buffer.antt: a4/msg_buffer_t.cc; Buffer/Tokens.antt is what a buffer promises: a stream of bytes
--   with marks at the ends of sends.
-- Net.antt: the system calls, which are a parameter `Os`, and what a process sees of them, `World`.
--   Net/Ucp.antt is a4/ucp.c, Net/Bind.antt a4/mybind.c; Net/Sample.antt is a system for examples.
-- Socket.antt: a4/rcs_t.h and a4/rcs_t.cc. Socket/Monad.antt is the state of a socket and what a
--   run comes to, Socket/Low.antt `rawsend`, `rawrecv`, `lowrecv` and `close`, Socket/Sender.antt
--   `acksend` and `send`, Socket/Receiver.antt `recv` and `finalizeRecv`, Socket/Methods.antt the
--   rest. The other files of the folder are about those, Socket/Connecting.antt about `connect`.
-- Api.antt: a4/rcs.cc and the static members of `rcs_t`; Api/Accept.antt is `accept`, which
--   works on two sockets, and Api/Sockets.antt the table. Api/Pairs.antt follows the two sockets,
--   Api/Accepting.antt is about a client that connects, Api/Closing.antt and Api/Accepts.antt
--   about sockets whose peer has sent FIN, Api/Later.antt, Api/Opening.antt and Api/Histories.antt
--   about programs that make several calls.
-- Apps.antt: the programs over that interface. Apps/Copy.antt is a4/rcsapp-client.c.
--   a4/rcsapp-server.c is Apps/Public.antt for its choice of an address and Apps/Service.antt for
--   the rest, and Apps/Drain.antt is about the end of a connection.
-- Protocol.antt: a sender and a receiver of a4/rcs_t.cc, each over its own channel of a4/ucp.c.
--   Protocol/Steps.antt lets them do rounds of `acksend` and `recv` in any order, while the network
--   delivers what it likes of the packets that were sent; Protocol/Runs.antt ties the sender's
--   rounds to `send` and Protocol/Turns.antt the receiver's to `recv`; the other files are about
--   what arrives.
-- Server/Wire.antt: a2/Message.h. Server/Groups.antt and Server/Listen.antt: a2/Server.cc.
--   Server/Udp.antt: a2/UDPServer.cc. Server/Tcp.antt: a2/TCPServer.cc. Server/Input.antt:
--   a2/ServerMain.cc. Server/Clients.antt: a2/ClientMain.cc and a2/Client.cc. Server/Session.antt
--   puts the client and the UDP server together.
-- Client.antt: a2/Client.h, a2/Client.cc and `main` of a2/ClientMain.cc over any client.
--   Client/Tcp.antt is a2/TCPClient.cc, Client/Udp.antt a2/UDPClient.cc, Client/Resolve.antt what
--   both have; the other files are about what is printed.
--
-- State. A method of a socket is a function from the socket and the world to a run, which returns a
-- value and the new state, waits in `recvfrom` for an arrival that does not come, or fails an
-- assertion. The results of `recvfrom`, `accept`, `recv` and `poll` that are to come are lists in
-- the state; the packets sent and the descriptors closed are logs. The other system calls are
-- functions of the time of the call, so that a statement holds for every behaviour of theirs. What
-- memory that is not initialised holds is such a function too. The threads of the server
-- application are relations, each over a process of its own: what another thread does in between is
-- not modelled.
--
-- Numbers. Integers are natural numbers with the wrap-around of their width written out; a `char`
-- from 128 up is negative; objects are laid out as on x86. An `int` of the group service is the
-- number that its 32 bits are.
--
-- Fuel. A loop that waits for packets has one unit more than there are arrivals, since each round
-- takes one; the loop of `send` one more than there are bytes; the loop of `msg_buffer_t::read` two
-- more than there are messages; the loop of `ServerMain` one more than there are characters.
--
-- Not modelled: time (a timeout is an arrival), the debugging output of packets but for its text,
-- diagnostics on stderr, the random pauses of the client application, the test programs of a4 with
-- harness.cc, which runs them, and a7, which is a report.
pub mod Prelude
pub mod Msg
pub mod Buffer
pub mod Net
pub mod Socket
pub mod Api
pub mod Protocol
pub mod Client
pub mod Apps
pub mod Server
