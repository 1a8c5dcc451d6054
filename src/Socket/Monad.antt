-- ===== src/Socket/Monad.antt =====
-- a4/rcs_t.h: the fields of an `rcs_t`, and what a method's run comes to.
use ece.Prelude.{ℕ, Bool, Option, none, some, ℤ}
use ece.Buffer.{MsgBuffer}
use ece.Net.{Addr, World}

-- `rcs_t`
pub record Socket : Type 0 where
  pub ucp_socket : ℤ
  pub is_listener : Bool
  pub end_point : Addr
  pub buffer : MsgBuffer
  pub send_seqnum : ℕ
  pub recv_seqnum : ℕ
  pub has_endpoint : Bool
  pub from_endpoint : Addr
  pub is_closing : Bool

pub record State : Type 0 where
  pub sock : Socket
  pub world : World

-- A run returns, or waits in `recvfrom` for an arrival that does not come, or fails an assertion,
-- or, for a loop, has used up its fuel.
pub data Run {ℓ} (A : Type ℓ) : Type ℓ where
  ok : A → Run A
  blocked : Run A
  aborted : Run A
  out_of_fuel : Run A

abbrev pub bind {ℓ κ} : {A : Type ℓ} {B : Type κ} → Run A → (A → Run B) → Run B
bind (ok a) f = f a
bind blocked f = blocked
bind aborted f = aborted
bind out_of_fuel f = out_of_fuel

-- A method: it changes its socket and the network, and returns a value.
abbrev pub M : Type 0 → Type 0
M A = State → Run (A × State)

abbrev pub pure : {A : Type 0} → A → M A
pure a s = ok (a, s)

infixl 5 ◌>>=◌ ◌>>◌
abbrev pub ◌>>=◌ : {A B : Type 0} → M A → (A → M B) → M B
◌>>=◌ m f s = bind (m s) (λ r. f r.0 r.1)

abbrev pub ◌>>◌ : {A : Type 0} → M (Unit {0}) → M A → M A
first >> second = first >>= λ done. second

abbrev pub get : M State
get s = ok (s, s)

abbrev pub modify_sock : (Socket → Socket) → M (Unit {0})
modify_sock f s = ok (tt, record s { sock = f s.sock })

abbrev pub modify_world : (World → World) → M (Unit {0})
modify_world f s = ok (tt, record s { world = f s.world })

abbrev pub abort : {A : Type 0} → M A
abort s = aborted

-- The value of an assertion that holds.
abbrev pub asserted : {A : Type 0} → Option A → M A
asserted none = abort
asserted (some a) = pure a
