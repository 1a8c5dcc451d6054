-- ===== src/Apps/Service.antt =====
-- a4/rcsapp-server.c, `serviceConnection` and `main`. Their loops may go on for ever and are
-- relations; a thread is a descriptor that was passed to `pthread_create`.
use mathlib.Core.List.{map-append}
use ece.Prelude.{
  ◌==◌, if◌then◌else◌, ==-refl, Option-cases, ℕ, suc, ◌+◌, ◌≡◌, refl, sym, ap, subst, ◌∙◌, inl, inr,
  Bool, true, false, Option, none, some, List, [], ◌∷◌, ◌++◌, map, append_assoc, ℤ, pos, negsuc,
  failure, is_negative, is_below,
}
use ece.Net.{Addr, Os, World}
use ece.Server.Listen.{Interface, af_inet}
use ece.Socket.Monad.{Socket, Run, ok, bind}
use ece.Socket.Low.{close}
use ece.Api.Sockets.{find, erase, find-erase}
use ece.Api.{Process, get_socket, destroy_socket, rcs_socket, rcs_bind, rcs_listen, rcs_close}
use ece.Api.Accept.{rcs_accept}
use ece.Protocol.Acking.{ok-bind, ok-injective}
use ece.Apps.{rcs_recv_into, rcs_name_into}
use ece.Apps.Public.{public_ip}

-- The answers of `open`, `write` and `pthread_create` by the time of the call, that of `write` also
-- by its arguments.
pub record Files : Type 0 where
  pub open_file : ℕ → ℤ
  pub write : ℕ → ℤ → List ℕ → ℤ
  pub create_thread : ℕ → ℤ

-- The sockets, and the calls of `write`, `close` and `pthread_create` so far, the newest first.
pub record Host : Type 0 where
  pub process : Process
  pub clock : ℕ
  pub written : List (ℤ × List ℕ)
  pub closed : List ℤ
  pub started : List ℤ

abbrev pub chunk_size : ℕ
chunk_size = 256

-- `write(wfd, buf, recvlen)`
abbrev pub wrote : ℤ → List ℕ → Process → Host → Host
wrote wfd bytes p y = record y {
  process = p;
  clock = y.clock + 1;
  written = (wfd, bytes) ∷ y.written;
}

-- `close(wfd)` and `rcsClose(s)`, which left the sockets `p`.
abbrev pub closed_both : ℤ → Process → Host → Host
closed_both wfd p y = record y { process = p; closed = wfd ∷ y.closed }

-- `err` of `pthread_create` is 0.
abbrev pub is_zero : ℤ → Bool
is_zero (pos n) = n == 0
is_zero (negsuc n) = false

module _ (os : Os) (files : Files) where
  -- The loop of `serviceConnection` and what follows it.
  pub data Serving (fd wfd : ℤ) : Host → Host → Type 0 where
    quits :
        {y : Host} {n r : ℤ} {bytes : List ℕ} {p q : Process}
        → rcs_recv_into os fd chunk_size y.process ≡ ok ((n, bytes), p)
        → is_below n 1 ≡ true
        → rcs_close os fd p ≡ ok (r, q)
        → Serving fd wfd y (closed_both wfd q y)
    writes_too_few :
        {y : Host} {k : ℕ} {r : ℤ} {bytes : List ℕ} {p q : Process}
        → rcs_recv_into os fd chunk_size y.process ≡ ok ((pos (suc k), bytes), p)
        → is_below (files.write y.clock wfd bytes) (suc k) ≡ true
        → rcs_close os fd p ≡ ok (r, q)
        → Serving fd wfd y (closed_both wfd q (wrote wfd bytes p y))
    writes :
        {y z : Host} {k : ℕ} {bytes : List ℕ} {p : Process}
        → rcs_recv_into os fd chunk_size y.process ≡ ok ((pos (suc k), bytes), p)
        → is_below (files.write y.clock wfd bytes) (suc k) ≡ false
        → Serving fd wfd (wrote wfd bytes p y) z
        → Serving fd wfd y z

  -- `serviceConnection`; if the file cannot be opened, the socket stays open.
  pub data Service (fd : ℤ) : Host → Host → Type 0 where
    not_opened :
        {y : Host}
        → is_negative (files.open_file y.clock) ≡ true
        → Service fd y (record y { clock = y.clock + 1 })
    opened :
        {y z : Host}
        → is_negative (files.open_file y.clock) ≡ false
        → Serving fd (files.open_file y.clock) (record y { clock = y.clock + 1 }) z
        → Service fd y z

  -- The loop of `main`, which ends with `return 0` or `exit(1)`; `garbage` is what the members of a
  -- new socket hold.
  pub data Accepting (garbage : Addr) (fd : ℤ) : Host → ℕ → Host → Type 0 where
    no_socket :
        {y : Host} {n : ℤ} {p : Process}
        → rcs_accept os garbage fd y.process ≡ ok (n, p)
        → is_below n 1 ≡ true
        → Accepting garbage fd y 0 (record y { process = p })
    no_thread :
        {y : Host} {k : ℕ} {p : Process}
        → rcs_accept os garbage fd y.process ≡ ok (pos (suc k), p)
        → is_zero (files.create_thread y.clock) ≡ false
        → Accepting garbage fd y 1 (record y { process = p; clock = y.clock + 1 })
    starts :
        {y z : Host} {k n : ℕ} {p : Process}
        → rcs_accept os garbage fd y.process ≡ ok (pos (suc k), p)
        → is_zero (files.create_thread y.clock) ≡ true
        → Accepting garbage fd
            (record y { process = p; clock = y.clock + 1; started = pos (suc k) ∷ y.started })
            n
            z
        → Accepting garbage fd y n z

  -- `main` up to the loop: the listener and the process, or the end with exit code 0.
  unfoldable pub open_listener : Addr → List Interface → Process → Run (Option ℤ × Process)
  open_listener garbage interfaces p = bind (rcs_socket os garbage p) λ s.
      let ip = public_ip interfaces in
      let addr : Addr = record { family = af_inet; ip = ip; port = 0 } in
      if ip == 0
      then ok (none, s.1)
      else bind (rcs_bind os s.0 (some addr) s.1) λ b. elim (is_negative b.0) [
        | true ↦ ok (none, b.1)
        | false ↦ bind (rcs_name_into os s.0 addr b.1) λ n. elim (is_negative n.0.0) [
          | true ↦ ok (none, n.1)
          | false ↦
              bind (rcs_listen os s.0 n.1)
                λ l. elim (is_negative l.0) [ true ↦ ok (none, l.1) | false ↦ ok (some s.0, l.1) ]
        ]
      ]

  abbrev erased : ℕ → Process → World → Run (Unit {0} × Process)
  erased id p w =
      ok (
        tt,
        record { table = record (p.table) { sockets = erase id (p.table.sockets) }; world = w },
      )

  -- Behind `destroySocket` the descriptor is no socket.
  destroyed-missing :
      (id : ℕ) (p : Process) (s : Socket) (a : Unit {0} × Process)
      → find id p.table.sockets ≡ some s
      → destroy_socket os (pos id) p ≡ ok a
      → find id a.1.table.sockets ≡ none
  unfolding destroy_socket
  destroyed-missing id p s a f ran =
      let closing : bind (close os (record { sock = s; world = p.world }))
            (λ c. erased id p c.1.world)
          ≡ ok a =
        sym (rw (destroy_socket, f) refl) ∙ ran in
      let (c, shut, same) =
        ok-bind (close os (record { sock = s; world = p.world })) (λ c. erased id p c.1.world) a
          closing in
      subst (λ (x : Unit {0} × Process). find id x.1.table.sockets ≡ none) (ok-injective same)
        (find-erase id id p.table.sockets ∙ rw (==-refl id) refl)

  abbrev failed : Process → Run (ℤ × Process)
  failed p = ok (failure, p)

  -- Behind `rcsClose` the descriptor is no socket.
  rcs_close-missing :
      (fd : ℤ) (p q : Process) (r : ℤ) → rcs_close os fd p ≡ ok (r, q) → get_socket fd q ≡ none
  unfolding rcs_close destroy_socket get_socket
  rcs_close-missing (negsuc n) p q r e = refl
  rcs_close-missing (pos id) p q r e = elim (Option-cases (find id p.table.sockets)) [
    | inl f ↦
        let failed_eq =
          subst
            (λ (c : Option Socket).
              (elim c [
                | none ↦ failed p
                | some s ↦ bind (destroy_socket os (pos id) p) (λ r. ok (pos 0, r.1))
              ])
              ≡ ok (r, q))
            f e in
        subst (λ (x : Process). find id x.table.sockets ≡ none)
          (ap (λ (x : ℤ × Process). x.1) (ok-injective failed_eq)) f
    | inr (s, f) ↦
        let destroyed =
          subst
            (λ (c : Option Socket).
              (elim c [
                | none ↦ failed p
                | some s ↦ bind (destroy_socket os (pos id) p) (λ r. ok (pos 0, r.1))
              ])
              ≡ ok (r, q))
            f e in
        let (a, ran, same) =
          ok-bind (destroy_socket os (pos id) p) (λ r. ok (pos 0, r.1)) (r, q) destroyed in
        subst (λ (x : Process). find id x.table.sockets ≡ none)
          (ap (λ (x : ℤ × Process). x.1) (ok-injective same)) (destroyed-missing id p s a f ran)
  ]

  -- However the loop of `serviceConnection` ends, it has called `close` on the file alone and once,
  -- the socket's descriptor is no socket any more, and `write` was called on that file only.
  pub Serving-Closed :
      (fd wfd : ℤ) {y z : Host}
      → Serving fd wfd y z
      → (z.closed ≡ wfd ∷ y.closed)
        × (get_socket fd z.process ≡ none)
        × ((chunks : List (List ℕ)) × (z.written ≡ map (λ b. (wfd, b)) chunks ++ y.written))
  Serving-Closed fd wfd (quits {p = p} {q = q} got few shut) =
      (refl, rcs_close-missing fd p q _ shut, ([], refl))
  Serving-Closed fd wfd (writes_too_few {bytes = bytes} {p = p} {q = q} got few shut) =
      (refl, rcs_close-missing fd p q _ shut, (bytes ∷ [], refl))
  Serving-Closed fd wfd {y} (writes {bytes = bytes} {p = p} got all more) =
      let (closed, missing, (chunks, log)) = Serving-Closed fd wfd more in
      (
        closed,
        missing,
        (
          chunks ++ (bytes ∷ []),
          log
              ∙ sym (append_assoc (map (λ b. (wfd, b)) chunks) ((wfd, bytes) ∷ []) y.written)
              ∙ ap (λ (l : List (ℤ × List ℕ)). l ++ y.written)
                  (sym (map-append (λ b. (wfd, b)) chunks (bytes ∷ []))),
        ),
      )
