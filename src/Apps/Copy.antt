-- ===== src/Apps/Copy.antt =====
-- a4/rcsapp-client.c: it sends what it reads from its input, until the end of that. The results of
-- `read` are a list of at most 256 bytes each; behind them `read` returns 0 or -1. The sleep
-- between two calls is not modelled.
use ece.Prelude.{
  if◌then◌else◌, ==-refl, ℕ, ◌%◌, ◌≡◌, refl, sym, ap, subst, ◌∙◌, true, false, Option, none, some,
  List, [], ◌∷◌, ℤ, pos, is_negative,
}
use ece.Net.{Addr, Os}
use ece.Net.Bind.{htons}
use ece.Server.Listen.{af_inet}
use ece.Socket.Monad.{Socket, State, Run, ok, blocked, aborted, out_of_fuel, bind}
use ece.Socket.Sender.{send}
use ece.Api.Sockets.{find, put, find-put}
use ece.Api.{Process, get_socket, on_socket, rcs_socket, rcs_bind, rcs_connect, rcs_send, rcs_close}
use ece.Client.Resolve.{int_of}
use ece.Protocol.Acking.{ok-bind, bind_assoc, ok-injective}
use ece.Apps.{End, returned, exited, rcs_name_into}

-- `inet_aton` fills in the address and returns 1, or returns 0.
abbrev pub aton_result : Option ℕ → ℤ
aton_result none = pos 0
aton_result (some ip) = pos 1

abbrev pub aton_ip : Option ℕ → ℕ → ℕ
aton_ip none ip = ip
aton_ip (some new) ip = new

-- What follows a run matters only where it returned.
bind_agree :
    {A B C : Type 0} (run : Run A) (f : A → Run C) (g : A → Run B) (h : B → Run C)
    → ((a : A) → run ≡ ok a → f a ≡ bind (g a) h)
    → bind run f ≡ bind (bind run g) h
bind_agree (ok a) f g h k = k a refl
bind_agree blocked f g h k = refl
bind_agree aborted f g h k = refl
bind_agree out_of_fuel f g h k = refl

module _ (os : Os) where
  -- The end of `main`.
  unfoldable pub close_up : ℤ → Process → Run (End × Process)
  close_up fd p = bind (rcs_close os fd p) λ r. ok (returned 0, r.1)

  -- The loop of `main`, and what follows it.
  unfoldable pub copy_loop : ℤ → List (List ℕ) → Process → Run (End × Process)
  copy_loop fd [] p = close_up fd p
  copy_loop fd ([] ∷ rest) p = close_up fd p
  copy_loop fd ((b ∷ bs) ∷ rest) p =
      bind (rcs_send os fd (b ∷ bs) p)
        λ r. elim (is_negative r.0) [ true ↦ ok (exited 1, r.1) | false ↦ copy_loop fd rest r.1 ]

  -- `main` from the call of `inet_aton` on; `a` is what `rcsGetSockName` left in the address.
  unfoldable pub connect_to :
      (List ℕ → Option ℕ)
      → List ℕ
      → List ℕ
      → ℤ
      → Addr
      → List (List ℕ)
      → Process
      → Run (End × Process)
  connect_to inet_aton ip port fd a input p =
      let answer = inet_aton ip in
      let target : Addr = record {
        family = af_inet;
        ip = aton_ip answer a.ip;
        port = htons (int_of port % 65536);
      } in
      if is_negative (aton_result answer)
      then ok (exited 1, p)
      else bind (rcs_connect os fd target p)
          λ c. elim (is_negative c.0) [ true ↦ ok (exited 1, c.1) | false ↦ copy_loop fd input c.1 ]

  -- `main`; `garbage` is what the new socket's members hold.
  unfoldable pub copy_main :
      (List ℕ → Option ℕ) → Addr → List (List ℕ) → List (List ℕ) → Process → Run (End × Process)
  copy_main inet_aton garbage (name ∷ ip ∷ port ∷ more) input p =
      let any : Addr = record { family = af_inet; ip = 0; port = 0 } in
      bind (rcs_socket os garbage p) λ s. bind (rcs_bind os s.0 (some any) s.1) λ b.
        elim (is_negative b.0) [
          | true ↦ ok (exited 1, b.1)
          | false ↦ bind (rcs_name_into os s.0 any b.1) λ n. elim (is_negative n.0.0) [
            | true ↦ ok (exited 0, n.1)
            | false ↦ connect_to inet_aton ip port s.0 n.0.1 input n.1
          ]
        ]
  copy_main inet_aton garbage args input p = ok (exited 0, p)

  -- The chunks up to the end of the input, each sent after the one before.
  abbrev pub send_each : ℤ → List (List ℕ) → Process → Run (Unit {0} × Process)
  send_each fd [] p = ok (tt, p)
  send_each fd ([] ∷ rest) p = ok (tt, p)
  send_each fd ((b ∷ bs) ∷ rest) p = bind (rcs_send os fd (b ∷ bs) p) λ r. send_each fd rest r.1

  -- The process behind a call on socket `id` that left the socket and network `t`.
  abbrev stored : ℕ → Process → State → Process
  stored id p t = record {
    table = record (p.table) { sockets = put id t.sock (p.table.sockets) };
    world = t.world;
  }

  rcs_send-eq :
      (id : ℕ) (bytes : List ℕ) (p : Process) (s : Socket)
      → get_socket (pos id) p ≡ some s
      → rcs_send os (pos id) bytes p
        ≡ bind
            (send os bytes (record { sock = s; world = p.world }))
            (λ r. ok (pos r.0, stored id p r.1))
  unfolding rcs_send on_socket get_socket
  rcs_send-eq id bytes p s e =
      let f : find id p.table.sockets ≡ some s = e in
      rw (on_socket, f) (bind_assoc (send os bytes (record { sock = s; world = p.world })) _ _)

  -- A call of `rcsSend` on a socket, if it returns, returns no error, and the socket stays.
  rcs_send-keeps :
      (id : ℕ) (bytes : List ℕ) (p q : Process) (r : ℤ) (s : Socket)
      → get_socket (pos id) p ≡ some s
      → rcs_send os (pos id) bytes p ≡ ok (r, q)
      → (is_negative r ≡ false) × (t : Socket) × (get_socket (pos id) q ≡ some t)
  unfolding get_socket
  rcs_send-keeps id bytes p q r s e ran =
      let f : find id p.table.sockets ≡ some s = e in
      let (a, sent, same) =
        ok-bind (send os bytes (record { sock = s; world = p.world }))
          (λ a. ok (pos a.0, stored id p a.1)) (r, q) (sym (rcs_send-eq id bytes p s e) ∙ ran) in
      let value = ok-injective same in
      let found : find id (put id a.1.sock p.table.sockets) ≡ some a.1.sock =
        rw (find-put id id a.1.sock p.table.sockets, ==-refl id, f) refl in
      (
        sym (ap (λ (x : ℤ × Process). is_negative x.0) value),
        a.1.sock,
        subst (λ (x : Process). find id x.table.sockets ≡ some a.1.sock)
            (ap (λ (x : ℤ × Process). x.1) value) found,
      )

  -- On a socket the program sends every chunk of its input in order, and then closes the socket and
  -- returns 0; it never takes the way out for an error of `rcsSend`.
  pub copy_loop-send_each :
      (id : ℕ) (input : List (List ℕ)) (p : Process) (s : Socket)
      → get_socket (pos id) p ≡ some s
      → copy_loop (pos id) input p ≡ bind (send_each (pos id) input p) (λ r. close_up (pos id) r.1)
  unfolding copy_loop
  copy_loop-send_each id [] p s e = refl
  copy_loop-send_each id ([] ∷ rest) p s e = refl
  copy_loop-send_each id ((b ∷ bs) ∷ rest) p s e =
      bind_agree (rcs_send os (pos id) (b ∷ bs) p) _ _ _ λ r ran.
        let (fine, t, still) = rcs_send-keeps id (b ∷ bs) p r.1 r.0 s e ran in
        rw fine (copy_loop-send_each id rest r.1 t still)
