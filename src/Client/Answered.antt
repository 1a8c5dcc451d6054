-- ===== src/Client/Answered.antt =====
-- a2/UDPClient.cc and a2/TCPClient.cc with a server that answers each GET: what is printed, and
-- that the one waits for ever and the other ends.
use ece.Prelude.{
  ◌==◌, if◌then◌else◌, if-elim, All, ℕ, ◌≡◌, refl, ◌∙◌, Bool, true, false, some, List, [], ◌∷◌,
  ◌++◌, map,
}
use ece.Net.{Addr, datagram, Os}
use ece.Server.Command
use ece.Server.Wire.{Message}
use ece.Server.Groups.{Groups, get}
use ece.Server.Tcp.{got}
use ece.Server.Run.{ok, exits}
use ece.Server.Clients.{on_line}
use ece.Client.{Session, perform, main_loop}
use ece.Client.Resolve.{Host, is_request_size, IsText, reply_text, reply_text-IsText}
use ece.Client.Udp
use ece.Client.Udp.{UdpClient}
use ece.Client.Tcp
use ece.Client.Tcp.{TcpClient, tcp_client}
use ece.Client.Printed.{Answers, ending, newest_first, asked, main_loop-Printed}

-- What a server with these groups answers.
abbrev pub reply_to : Groups → Message → List ℕ
reply_to g m = get m.param1 m.param2 g

abbrev pub replies_to : Groups → List (List ℕ) → List (List ℕ)
replies_to g lines = map (reply_to g) (asked lines)

-- `sendto` and `send` send the whole request.
abbrev pub IsSending : Os → Type 0
IsSending os = (t : ℕ) → is_request_size (os.sendto t) ≡ true

-- The replies to come, from one address.
abbrev pub Datagrams : Addr → List (List ℕ) → UdpClient → Type 0
Datagrams server rs s = All IsText rs × (s.world.arrivals ≡ map (λ r. datagram r server) rs)

-- The replies to come, each by one call of `recv`, and the end of the connection.
abbrev pub Stream : List (List ℕ) → TcpClient → Type 0
Stream rs s = All IsText rs × (s.receipts ≡ map (λ r. got r) rs ++ (got [] ∷ []))

-- The last message is no GET.
ending_quiet : (lines : List (List ℕ)) → ((ending lines).0.command == Command.get) ≡ false
ending_quiet [] = refl
ending_quiet (line ∷ lines) =
    if-elim (λ (r : Message × Bool). (r.0.command == Command.get) ≡ false) (on_line line).1
      (λ _. refl) (λ _. ending_quiet lines)

module _ (os : Os) (host : Host) (sending : IsSending os) where
  tcp-Answers : Answers (tcp_client os host) Stream
  unfolding Tcp.send_message Tcp.on_reply
  tcp-Answers = record {
    answered = λ m r rs s (texts, queue).
        rw (sending s.clock, queue) (rw (reply_text-IsText r texts.0) (_, refl, (texts.1, refl)));
  }

  -- At the end of the connection it returns the empty text.
  tcp-ends :
      (m : Message) (s : TcpClient)
      → s.receipts ≡ got [] ∷ []
      → (t : TcpClient) × (Tcp.send_message os m s ≡ ok [] t)
  unfolding Tcp.send_message Tcp.on_reply
  tcp-ends m s queue =
      let empty : reply_text [] ≡ some [] = unfold reply_text ece.Msg.Show.c_string in refl in
      rw (sending s.clock, queue, empty) (_, refl)

  -- A TCP client that gets the same by one call of `recv` each, and then the end of the connection,
  -- prints the same and ends: `main` returns, or exits with 0 if its input had a STOP. Each call of
  -- `send` sends the whole request.
  pub main_loop-Ends :
      (g : Groups) (lines : List (List ℕ)) (p : Session TcpClient)
      → Stream (replies_to g lines) p.client
      → (q : Session TcpClient) × (main_loop (tcp_client os host) lines p
          ≡ (if (ending lines).1 then exits 0 q else ok tt q))
        × (q.printed ≡ newest_first (replies_to g lines) p.printed)
  unfolding perform
  main_loop-Ends g lines p next =
      let (u, done, runs) =
        main_loop-Printed (tcp_client os host) Stream tcp-Answers (reply_to g) lines p next in
      let (t, e) = tcp-ends (ending lines).0 u done.1 in
      (
        record { client = t; printed = newest_first (replies_to g lines) p.printed },
        runs ∙ (rw (e, ending_quiet lines) refl),
        refl,
      )
