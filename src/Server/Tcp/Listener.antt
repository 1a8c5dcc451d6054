-- ===== src/Server/Tcp/Listener.antt =====
-- The listener stays the first connection of a `TCPServer`, whatever arrives.
use ece.Prelude.{
  ◌==◌, ==-refl, if-elim, ℕ, zero, suc, ◌+◌, ◌≤◌, ◌≡◌, refl, ap, subst, ◌∙◌, Bool, true, List, [],
  ◌∷◌, ◌++◌, arith, ℤ, pos, negsuc,
}
use ece.Net.{eagain}
use ece.Server.Command
use ece.Server.Wire.{Message, deserialize}
use ece.Server.Run.{Run, ok, exits, waits, crashes, bind}
use ece.Server.Tcp.{
  TcpServer, PollFd, Polled, poll_failed, timed_out, ready, Answer, failed, got, make_poll, respond,
  dispatch, handle_msg, fill, accept_loop, receive_loop, erase_at, end_session, same_fd, visit,
  with_events, poll_loop, run,
}

-- The first connection is the listener.
abbrev pub Listening : ℤ → TcpServer → Type 0
Listening sock s =
    (conn : PollFd) × (rest : List PollFd) × (s.clients ≡ conn ∷ rest) × (conn.fd ≡ sock)

-- A run that does not read out of range, and in whose last state something holds.
abbrev pub Ends : {A : Type 0} → (TcpServer → Type 0) → Run TcpServer A → Type 0
Ends P (ok a s) = P s
Ends P (exits n s) = P s
Ends P (waits s) = P s
Ends P crashes = ⊥

Ends-bind :
    {A B : Type 0} (P Q : TcpServer → Type 0) (r : Run TcpServer A)
    (f : A → TcpServer → Run TcpServer B)
    → Ends P r
    → ((s : TcpServer) → P s → Q s)
    → ((a : A) (s : TcpServer) → P s → Ends Q (f a s))
    → Ends Q (bind r f)
Ends-bind P Q (ok a s) f h k g = g a s h
Ends-bind P Q (exits n s) f h k g = k s h
Ends-bind P Q (waits s) f h k g = k s h
Ends-bind P Q crashes f h k g = h

-- `handle_msg` leaves the connections.
dispatch-clients :
    (fd : ℤ) (m : Message) (s : TcpServer) → Ends (λ t. t.clients ≡ s.clients) (dispatch fd m s)
unfolding dispatch respond
dispatch-clients fd m s =
    let P = Ends {A = Bool} (λ t. t.clients ≡ s.clients) in
    if-elim P (m.command == Command.get) (λ _. refl)
      λ _.
        if-elim P (m.command == Command.stop_session) (λ _. refl)
          λ _. if-elim P (m.command == Command.stop) (λ _. refl) (λ _. refl)

receive_loop-clients :
    (fd : ℤ) (rs : List (Answer (List ℕ))) (old : List ℕ) (s : TcpServer)
    → Ends (λ t. t.clients ≡ s.clients) (receive_loop fd rs old s)
unfolding receive_loop handle_msg
receive_loop-clients fd [] old s = refl
receive_loop-clients fd (failed e ∷ rs) old s =
    if-elim (Ends {A = Bool} (λ t. t.clients ≡ s.clients)) (e == eagain) (λ _. refl) (λ _. refl)
receive_loop-clients fd (got bytes ∷ rs) old s =
    let t = record s { net = record (s.net) { receipts = rs } } in
    let P : TcpServer → Type 0 = λ u. u.clients ≡ s.clients in
    Ends-bind P P (dispatch fd (deserialize (fill bytes old)) t) _
      (dispatch-clients fd (deserialize (fill bytes old)) t) (λ u e. e)
      λ go u e.
        if-elim (Ends {A = Bool} P) go
          (λ _.
            subst
              (λ c. Ends {A = Bool} (λ v. v.clients ≡ c) (receive_loop fd rs (fill bytes old) u)) e
              (receive_loop-clients fd rs (fill bytes old) u))
          (λ _. e)

accept_loop-Listening :
    (sock : ℤ) (rs : List (Answer ℤ)) (s : TcpServer)
    → Listening sock s
    → Ends (Listening sock) (accept_loop rs s)
unfolding accept_loop
accept_loop-Listening sock [] s h = h
accept_loop-Listening sock (failed e ∷ rs) s h =
    if-elim (Ends {A = Unit {0}} (Listening sock)) (e == eagain) (λ _. h) (λ _. h)
accept_loop-Listening sock (got c ∷ rs) s (conn, rest, split, first) =
    accept_loop-Listening sock rs _
      (conn, rest ++ make_poll c ∷ [], ap (λ cs. cs ++ make_poll c ∷ []) split, first)

erased-Listening :
    (sock : ℤ) (i : ℕ) (fd : ℤ) (s : TcpServer)
    → 1 ≤ i
    → Listening sock s
    → Listening sock (end_session i fd s)
unfolding end_session erase_at
erased-Listening sock zero fd s h l = absurd (omega arith)
erased-Listening sock (suc j) fd s h (conn, rest, split, first) =
    (conn, erase_at j rest, ap (erase_at (suc j)) split, first)

same_fd_refl : (n : ℤ) → same_fd n n ≡ true
unfolding same_fd
same_fd_refl (pos n) = ==-refl n
same_fd_refl (negsuc n) = ==-refl n

with_events-first :
    (events : List ℕ) (sock : ℤ) (conn : PollFd) (rest : List PollFd)
    → conn.fd ≡ sock
    → (c : PollFd) × (cs : List PollFd) × (with_events events (conn ∷ rest) ≡ c ∷ cs)
      × (c.fd ≡ sock)
unfolding with_events
with_events-first [] sock conn rest h = (_, _, refl, h)
with_events-first (e ∷ events) sock conn rest h = (_, _, refl, h)

-- From the second place on, whatever ends a session leaves the first.
visit-later :
    (sock : ℤ) (old : List ℕ) (i : ℕ) (conns : List PollFd) (s : TcpServer)
    → 1 ≤ i
    → Listening sock s
    → Ends (Listening sock) (visit sock old i conns s)
unfolding visit end_session erase_at
visit-later sock old i [] s h1 h = h
visit-later sock old i (conn ∷ conns) s h1 h =
    let P = Ends {A = Unit {0}} (Listening sock) in
    let L : TcpServer → Type 0 = Listening sock in
    if-elim P (conn.revents == 0) (λ _. visit-later sock old (i + 1) conns s (omega arith) h)
      λ _.
        if-elim P (same_fd conn.fd sock) (λ _. accept_loop-Listening sock s.net.accepts s h)
          λ _.
            Ends-bind (λ t. t.clients ≡ s.clients) L (receive_loop conn.fd s.net.receipts old s) _
              (receive_loop-clients conn.fd s.net.receipts old s) (λ t e. (h.0, h.1, e ∙ h.2, h.3))
              λ go t e.
                if-elim P go
                  (λ _. visit-later sock old (i + 1) conns t (omega arith) (h.0, h.1, e ∙ h.2, h.3))
                  (λ _. erased-Listening sock i conn.fd t h1 (h.0, h.1, e ∙ h.2, h.3))

-- The loop over all connections, which begin with the listener.
visit-Listening :
    (sock : ℤ) (old : List ℕ) (conn : PollFd) (rest : List PollFd) (s : TcpServer)
    → s.clients ≡ conn ∷ rest
    → conn.fd ≡ sock
    → Ends (Listening sock) (visit sock old 0 (conn ∷ rest) s)
unfolding visit
visit-Listening sock old conn rest s split first =
    let P = Ends {A = Unit {0}} (Listening sock) in
    let same : same_fd conn.fd sock ≡ true = rw first (same_fd_refl sock) in
    if-elim P (conn.revents == 0)
      (λ _. visit-later sock old 1 rest s (omega arith) (conn, rest, split, first))
      (λ _. rw same (accept_loop-Listening sock s.net.accepts s (conn, rest, split, first)))

poll_loop-Listening :
    (sock : ℤ) (old : List ℕ) (polls : List Polled) (s : TcpServer)
    → Listening sock s
    → Ends (Listening sock) (poll_loop sock old polls s)
unfolding poll_loop
poll_loop-Listening sock old [] s h = h
poll_loop-Listening sock old (poll_failed ∷ polls) s h = h
poll_loop-Listening sock old (timed_out ∷ polls) s h = h
poll_loop-Listening sock old (ready events ∷ polls) s (conn, rest, split, first) =
    let L : TcpServer → Type 0 = Listening sock in
    let (c, cs, split', first') = with_events-first events sock conn rest first in
    let start : with_events events s.clients ≡ c ∷ cs = rw split split' in
    Ends-bind L L _ _
      (rw start (visit-Listening sock old c cs (record s { clients = c ∷ cs }) refl first'))
      (λ t l. l) (λ u t l. poll_loop-Listening sock old polls t l)

-- Once the server has its listener, `run` keeps it at the first place of the connections in all
-- that can arrive, until the process ends, and reads no connection out of range.
pub run-Listening :
    (sock : ℤ) (old : List ℕ) (polls : List Polled) (s : TcpServer)
    → Listening sock s
    → Ends (Listening sock) (run old polls s)
unfolding run
run-Listening sock old polls s (conn, rest, split, first) =
    rw (run, split, first) (poll_loop-Listening sock old polls s (conn, rest, split, first))
