-- ===== src/Api.antt =====
-- a4/rcs.cc, the C interface of the sockets, and the static members of `rcs_t` that keep them.
pub mod Sockets
pub mod Accept
pub mod Lookup
pub mod Descriptors
pub mod Closing
pub mod Pairs
pub mod Accepts
pub mod Accepting
pub mod Later
pub mod Opening
pub mod Histories
mod Tests
use ece.Prelude.{size_mod, ℕ, ◌+◌, ◌-◌, ◌%◌, Option, none, some, List, ◌∷◌, ℤ, pos, negsuc, failure}
use ece.Net.{Addr, Os, World}
use ece.Socket.Low.{close, set_endpoint, set_timeout}
use ece.Socket.Sender.{send}
use ece.Socket.Receiver.{recv}
use ece.Socket.Methods.{new_socket, connect, bind_socket, get_sock_name, listen}
use ece.Socket.Monad.{Socket, State, Run, ok, bind, M, pure, ◌>>=◌, ◌>>◌, get, modify_sock}
use Sockets.{Table, find, put, erase}

-- What the calls of a program share.
pub record Process : Type 0 where
  pub table : Table
  pub world : World

-- `rcs_t::getSocket`; a negative number is no key of the map.
unfoldable pub get_socket : ℤ → Process → Option Socket
get_socket (pos id) p = find id p.table.sockets
get_socket (negsuc n) p = none

-- A method called through the pointer that `getSocket` returns; `none` is `CHECK_SOCKET`'s return.
unfoldable pub on_socket : {A : Type 0} → ℤ → M A → Process → Run (Option A × Process)
on_socket (negsuc n) m p = ok (none, p)
on_socket (pos id) m p = elim (find id p.table.sockets) [
  | none ↦ ok (none, p)
  | some s ↦ bind (m (record { sock = s; world = p.world })) λ r. ok (
    some r.0,
    record {
      table = record (p.table) { sockets = put id r.1.sock (p.table.sockets) };
      world = r.1.world;
    },
  )
]

-- An error code out of a method's value.
abbrev pub code {ℓ} : {A : Type ℓ} → (A → ℤ) → Run (Option A × Process) → Run (ℤ × Process)
code f r = bind r λ q. ok (elim q.0 [ none ↦ failure | some a ↦ f a ], q.1)

-- `static_cast<size_t>(size)`
abbrev pub to_size : ℤ → ℕ
to_size (pos n) = n
to_size (negsuc n) = size_mod - n - 1

module _ (os : Os) where
  -- `rcs_t::makeSocket`, with what the new object's uninitialised members hold.
  unfoldable pub make_socket : Addr → Process → ℕ × Process
  make_socket garbage p =
      let id = p.table.next_id in
      let next = (id + 1) % size_mod in
      elim (find id p.table.sockets) [
        | some s ↦ (id, record p { table = record (p.table) { next_id = next } })
        | none ↦
            let (s, w) = new_socket os garbage p.world in
            (
              id,
              record {
                table = record { sockets = (id, s) ∷ p.table.sockets; next_id = next };
                world = w;
              },
            )
      ]

  -- `rcs_t::destroySocket`
  unfoldable pub destroy_socket : ℤ → Process → Run (Unit {0} × Process)
  destroy_socket (negsuc n) p = ok (tt, p)
  destroy_socket (pos id) p = elim (find id p.table.sockets) [
    | none ↦ ok (tt, p)
    | some s ↦ bind (close os (record { sock = s; world = p.world })) λ r. ok (
      tt,
      record {
        table = record (p.table) { sockets = erase id (p.table.sockets) };
        world = r.1.world;
      },
    )
  ]

  unfoldable pub rcs_socket : Addr → Process → Run (ℤ × Process)
  rcs_socket garbage p = let (id, q) = make_socket garbage p in ok (pos id, q)

  unfoldable pub rcs_bind : ℤ → Option Addr → Process → Run (ℤ × Process)
  rcs_bind fd addr p = code (λ r. r.0) (on_socket fd (bind_socket os addr) p)

  unfoldable pub rcs_get_sock_name : ℤ → Process → Run (ℤ × Process)
  rcs_get_sock_name fd p = code (λ r. r.0) (on_socket fd (get_sock_name os) p)

  unfoldable pub rcs_listen : ℤ → Process → Run (ℤ × Process)
  rcs_listen fd p = code (λ r. pos 0) (on_socket fd (listen os) p)

  unfoldable pub rcs_connect : ℤ → Addr → Process → Run (ℤ × Process)
  rcs_connect fd addr p = code (λ r. r) (on_socket fd (connect os addr) p)

  unfoldable pub rcs_recv : ℤ → ℤ → Process → Run (ℤ × Process)
  rcs_recv fd size p = code (λ r. pos r.1) (on_socket fd (recv os (to_size size)) p)

  unfoldable pub rcs_send : ℤ → List ℕ → Process → Run (ℤ × Process)
  rcs_send fd bytes p = code (λ r. pos r) (on_socket fd (send os bytes) p)

  unfoldable pub rcs_close : ℤ → Process → Run (ℤ × Process)
  rcs_close fd p = elim (get_socket fd p) [
    | none ↦ ok (failure, p)
    | some s ↦ bind (destroy_socket fd p) λ r. ok (pos 0, r.1)
  ]
