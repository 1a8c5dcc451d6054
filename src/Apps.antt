-- ===== src/Apps.antt =====
-- a4/rcsapp-client.c and a4/rcsapp-server.c, the programs that copy a file over the C interface.
pub mod Copy
pub mod Public
pub mod Service
pub mod Drain
mod Tests
use ece.Prelude.{ℕ, none, some, List, [], ℤ, pos, failure}
use ece.Net.{Addr, Os}
use ece.Socket.Methods.{get_sock_name}
use ece.Socket.Monad.{Run, ok, bind}
use ece.Socket.Receiver.{recv}
use ece.Api.{Process, on_socket}

-- How a program ends: `main` returns, or calls `exit`.
pub data End : Type 0 where
  returned : ℕ → End
  exited : ℕ → End

module _ (os : Os) where
  -- `rcsRecv`, with what it leaves in the caller's buffer.
  unfoldable pub rcs_recv_into : ℤ → ℕ → Process → Run ((ℤ × List ℕ) × Process)
  rcs_recv_into fd size p =
      bind (on_socket fd (recv os size) p)
        λ q. ok (elim q.0 [ none ↦ (failure, []) | some r ↦ (pos r.1, r.0) ], q.1)

  -- `rcsGetSockName`, with what it leaves in the caller's address `a`.
  unfoldable pub rcs_name_into : ℤ → Addr → Process → Run ((ℤ × Addr) × Process)
  rcs_name_into fd a p =
      bind (on_socket fd (get_sock_name os) p)
        λ q. ok (elim q.0 [ none ↦ (failure, a) | some r ↦ r ], q.1)
