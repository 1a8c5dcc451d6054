-- ===== src/Server/Udp/Answers.antt =====
-- What `UDPServer::run` answers to requests.
use ece.Prelude.{
  ◌==◌, if◌then◌else◌, Bool-cases, drop, All, ℕ, ◌≡◌, refl, ap, ◌∙◌, inl, inr, Bool, true, false,
  ◌||◌, some, List, [], ◌∷◌, ◌++◌, map, arith,
}
use ece.Net.{Addr, Arrival, datagram, Packet}
use ece.Server.Command
use ece.Server.Wire.{Message, serialize, deserialize, IsMessage, deserialize-serialize_append}
use ece.Server.Groups.{Groups, get}
use ece.Server.Run.{Run, ok, exits, waits, bind}
use ece.Server.Udp.{
  UdpServer, same_client, get_client_num, client_at, fill, respond, close_socket, stop, dispatch,
  handle_msg, run,
}
use ece.Server.Udp.Numbers.{get_client_num-Answers}

-- A request and its sender, and how it arrives.
abbrev pub Request : Type 0
Request = Message × Addr

abbrev pub arrival : Request → Arrival
arrival r = datagram (serialize r.0) r.1

-- A packet by where it goes to and what it holds.
abbrev pub Reply : Type 0
Reply = ℕ × ℕ × List ℕ

abbrev pub reply_of : Packet → Reply
reply_of p = (p.to.ip, p.to.port, p.bytes)

abbrev pub is_get : Message → Bool
is_get m = m.command == Command.get

abbrev pub is_stop : Message → Bool
is_stop m = m.command == Command.stop

-- The replies to requests, up to the first STOP, the newest first, in front of those sent before.
abbrev pub replies : Groups → List Request → List Reply → List Reply
replies g [] sent = sent
replies g ((m, a) ∷ rest) sent =
    if is_get m
    then replies g rest ((a.ip, a.port, get m.param1 m.param2 g) ∷ sent)
    else if is_stop m
    then sent
    else replies g rest sent

-- Whether a STOP is among the requests.
abbrev pub has_stop : List Request → Bool
has_stop [] = false
has_stop ((m, a) ∷ rest) = is_stop m || has_stop rest

same_reply :
    (c a : Addr) (bytes : List ℕ)
    → same_client c a ≡ true
    → ◌≡◌ {A = Reply} (c.ip, c.port, bytes) (a.ip, a.port, bytes)
same_reply c a bytes h =
    let i : c.ip ≡ a.ip = ground arith in let p : c.port ≡ a.port = ground arith in rw (i, p) refl

fill-serialize :
    (m : Message) (buffer : List ℕ) → fill (serialize m) buffer ≡ serialize m ++ drop 12 buffer
unfolding serialize
fill-serialize m buffer = refl

read_back :
    (m : Message) (buffer : List ℕ) → IsMessage m → deserialize (fill (serialize m) buffer) ≡ m
read_back m buffer h =
    rw (fill-serialize m buffer) (deserialize-serialize_append m (drop 12 buffer) h)

-- A run that ended by STOP, with the socket closed and exit code 1, or waits for a datagram; and
-- what it has sent.
abbrev pub Served : Bool → List Reply → Run UdpServer (Unit {0}) → Type 0
Served stopped sent r =
    (t : UdpServer) × (r ≡ (if stopped then exits 1 (close_socket t) else waits t))
    × (map reply_of t.world.sent ≡ sent)

-- The switch on a GET, a STOP and any other request.
dispatch-get :
    (n : ℕ) (c : Addr) (m : Message) (s : UdpServer)
    → (m.command == Command.get) ≡ true
    → client_at n s.clients ≡ some c
    → (t : UdpServer) × (dispatch n m s ≡ ok true t)
      × (t.groups ≡ s.groups)
      × (t.world.sent
          ≡ record { socket = s.sock; to = c; bytes = get m.param1 m.param2 s.groups }
            ∷ s.world.sent)
unfolding dispatch respond
dispatch-get n c m s getting at = rw (dispatch, getting, respond, at) (_, refl, refl, refl)

dispatch-stop :
    (n : ℕ) (m : Message) (s : UdpServer)
    → is_stop m ≡ true
    → dispatch n m s ≡ exits 1 (close_socket s)
unfolding dispatch stop
dispatch-stop n m s h =
    let not_get : (m.command == Command.get) ≡ false = ground arith in
    let not_end : (m.command == Command.stop_session) ≡ false = ground arith in
    let at_stop : (m.command == Command.stop) ≡ true = ground arith in
    rw (dispatch, not_get, not_end, at_stop) refl

dispatch-other :
    (n : ℕ) (m : Message) (s : UdpServer)
    → (m.command == Command.get) ≡ false
    → is_stop m ≡ false
    → (b : Bool) × (dispatch n m s ≡ ok b s)
unfolding dispatch
dispatch-other n m s not_get h = elim (Bool-cases (m.command == Command.stop_session)) [
  | inl e ↦ rw (dispatch, not_get, e) (_, refl)
  | inr e ↦
      let not_stop : (m.command == Command.stop) ≡ false = ground arith in
      rw (dispatch, not_get, e, not_stop) (_, refl)
]

on_request :
    (m : Message) (a : Addr) (rest : List Arrival) (buffer : List ℕ) (s : UdpServer)
    → IsMessage m
    → run (arrival (m, a) ∷ rest) buffer s
      ≡ bind
          (dispatch (get_client_num a s).0 m (get_client_num a s).1)
          (λ _ u. run rest (fill (serialize m) buffer) u)
unfolding run handle_msg
on_request m a rest buffer s h = rw (run, handle_msg, read_back m buffer h) refl

-- `run` answers each GET request it receives, up to a STOP, with one datagram to its sender that
-- holds what `get` returns, and sends nothing else. It ends, with the socket closed and exit code
-- 1, exactly if a STOP arrives.
pub run-Served :
    (reqs : List Request) (buffer : List ℕ) (s : UdpServer)
    → All (λ r. IsMessage r.0) reqs
    → Served
        (has_stop reqs)
        (replies s.groups reqs (map reply_of s.world.sent))
        (run (map arrival reqs) buffer s)
unfolding get_client_num run
run-Served [] buffer s h = (s, refl, refl)
run-Served ((m, a) ∷ rest) buffer s h =
    let (n, u) = get_client_num a s in
    let b = fill (serialize m) buffer in
    let sent = map reply_of s.world.sent in
    let step = on_request m a (map arrival rest) buffer s h.0 in
    elim (Bool-cases (is_get m)) [
      | inl getting ↦
          let no_stop : is_stop m ≡ false = ground arith in
          let (c, at, same) = get_client_num-Answers a s in
          let (t, e, groups, out) = dispatch-get n c m u getting at in
          let reply = same_reply c a (get m.param1 m.param2 s.groups) same in
          let sent' : map reply_of t.world.sent
              ≡ (a.ip, a.port, get m.param1 m.param2 s.groups) ∷ sent =
            ap (map reply_of) out ∙ ap (λ (r : Reply). r ∷ sent) reply in
          let (v, r, q) = run-Served rest b t h.1 in
          (v, rw (step, e, no_stop) r, q ∙ rw (groups, sent', getting) refl)
      | inr other ↦ elim (Bool-cases (is_stop m)) [
        | inl stopping ↦
            (u, rw (step, dispatch-stop n m u stopping, stopping) refl, rw (other, stopping) refl)
        | inr going ↦
            let (answer, e) = dispatch-other n m u other going in
            let (v, r, q) = run-Served rest b u h.1 in
            (v, rw (step, e, going) r, q ∙ rw (other, going) refl)
      ]
    ]

-- The size of a datagram is not looked at: an empty datagram is answered as the request that the
-- buffer holds from before.
pub run-stale :
    (m : Message) (a : Addr) (rest : List Arrival) (buffer : List ℕ) (s : UdpServer)
    → IsMessage m
    → run (datagram [] a ∷ rest) (fill (serialize m) buffer) s
      ≡ run (arrival (m, a) ∷ rest) (fill (serialize m) buffer) s
unfolding run serialize
run-stale m a rest buffer s h = refl
