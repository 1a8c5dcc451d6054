-- ===== src/Api/Accept.antt =====
-- a4/rcs_t.cc, `rcs_t::accept`, and `rcsAccept`: they work on two sockets, the listener and the new
-- one.
use ece.Prelude.{if◌then◌else◌, le16, false, not, Option, none, some, ℤ, pos, failure}
use ece.Net.{Addr, Os}
use ece.Socket.Low.{set_endpoint, set_timeout}
use ece.Socket.Sender.{send}
use ece.Socket.Receiver.{recv}
use ece.Socket.Methods.{bind_socket, get_sock_name}
use ece.Socket.Monad.{Run, ok, bind, M, ◌>>=◌, ◌>>◌, get, modify_sock}
use ece.Api.{Process, get_socket, on_socket, make_socket}

-- One call after another on sockets that are in the map.
infixl 5 ◌>=>◌
abbrev pub ◌>=>◌ :
    {A : Type 0} → Run (Option A × Process) → (A → Process → Run (ℤ × Process)) → Run (ℤ × Process)
r >=> f = bind r λ q. elim q.0 [ none ↦ ok (failure, q.1) | some a ↦ f a q.1 ]

-- What `bind` leaves in the address.
abbrev pub bound_addr : Addr → ℤ × Option Addr → Addr
bound_addr me (r, none) = me
bound_addr me (r, some a) = a

module _ (os : Os) where
  -- The wait for a client on the listener: `setTimeout(0)`, `hasEndpoint_ = false` and `recv`; the
  -- value is `fromEndpoint_`.
  unfoldable pub wait_for_client : M Addr
  wait_for_client = do
    set_timeout 0
    modify_sock (λ s. record s { has_endpoint = false })
    _ ← recv os 32
    s ← get
    λ t. ok (s.sock.from_endpoint, t)

  -- `rcs_t::accept` on a listener.
  unfoldable pub accept_client : Addr → ℤ → Process → Run (ℤ × Process)
  accept_client garbage fd p = on_socket fd (get_sock_name os) p >=> λ name p1.
      let me : Addr = record (name.1) { port = 0 } in
      let (child, p2) = make_socket os garbage p1 in
      on_socket (pos child) (bind_socket os (some me)) p2 >=> λ b p3.
      on_socket fd wait_for_client p3 >=> λ from p4.
      on_socket (pos child) (modify_sock (set_endpoint from)) p4 >=> λ _ p5.
      on_socket fd (send os (le16 ((bound_addr me b).port))) p5 >=> λ _ p6. ok (pos child, p6)

  -- `rcsAccept`
  unfoldable pub rcs_accept : Addr → ℤ → Process → Run (ℤ × Process)
  rcs_accept garbage fd p = elim (get_socket fd p) [
    | none ↦ ok (failure, p)
    | some s ↦ if not s.is_listener then ok (failure, p) else accept_client garbage fd p
  ]
