-- ===== src/Api/Histories.antt =====
-- a4/rcs.cc: the calls of a program, one after another.
use ece.Prelude.{size_mod, ℕ, ◌+◌, ◌≤◌, ◌<◌, ◌≡◌, Option, List, [], ◌∷◌, ℤ, pos, failure}
use ece.Net.{Addr, Os}
use ece.Socket.Monad.{Socket, ok}
use ece.Api.{
  Process, rcs_socket, rcs_bind, rcs_get_sock_name, rcs_listen, rcs_connect, rcs_recv, rcs_send,
  rcs_close,
}
use ece.Api.Accept.{rcs_accept}
use ece.Api.Later.{Later}

-- Numbers from `n` on that increase strictly.
abbrev pub Climbs : ℕ → List ℕ → Type 0
Climbs n [] = Unit
Climbs n (d ∷ ds) = (n ≤ d) × Climbs (d + 1) ds

module _ (os : Os) where
  -- A call that returns and gives out no descriptor.
  pub data Call (p q : Process) : Type 0 where
    binds : {r : ℤ} (fd : ℤ) (addr : Option Addr) → rcs_bind os fd addr p ≡ ok (r, q) → Call p q
    names : {r : ℤ} (fd : ℤ) → rcs_get_sock_name os fd p ≡ ok (r, q) → Call p q
    listens : {r : ℤ} (fd : ℤ) → rcs_listen os fd p ≡ ok (r, q) → Call p q
    connects : {r : ℤ} (fd : ℤ) (addr : Addr) → rcs_connect os fd addr p ≡ ok (r, q) → Call p q
    receives : {r : ℤ} (fd size : ℤ) → rcs_recv os fd size p ≡ ok (r, q) → Call p q
    sends : {r : ℤ} (fd : ℤ) (bytes : List ℕ) → rcs_send os fd bytes p ≡ ok (r, q) → Call p q
    closes : {r : ℤ} (fd : ℤ) → rcs_close os fd p ≡ ok (r, q) → Call p q
    accepts_none :
        (garbage : Addr) (fd : ℤ)
        → p.table.next_id + 1 < size_mod
        → rcs_accept os garbage fd p ≡ ok (failure, q)
        → Call p q

  -- Calls of a program while descriptors last, and the descriptors that `rcsSocket` and `rcsAccept`
  -- gave out, in order.
  pub data History : Process → List ℕ → Process → Type 0 where
    here : {p : Process} → History p [] p
    calls : {p q z : Process} {given : List ℕ} → Call p q → History q given z → History p given z
    opens :
        {p q z : Process} {n : ℕ} {given : List ℕ} (garbage : Addr)
        → p.table.next_id + 1 < size_mod
        → rcs_socket os garbage p ≡ ok (pos n, q)
        → History q given z
        → History p (n ∷ given) z
    accepts :
        {p q z : Process} {n : ℕ} {given : List ℕ} (garbage : Addr) (fd : ℤ)
        → p.table.next_id + 1 < size_mod
        → rcs_accept os garbage fd p ≡ ok (pos n, q)
        → History q given z
        → History p (n ∷ given) z
