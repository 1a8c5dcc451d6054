-- ===== src/Net.antt =====
-- a4/ucp.c and a4/mybind.c, the unreliable channel below the sockets, over the system calls. What
-- the operating system answers is `Os`, a parameter of all that uses it; what the program sees and
-- does of the network is `World`, which every call passes on.
pub mod Ucp
pub mod Logged
pub mod Bind
pub mod Ports
pub mod Sample
mod Tests
use ece.Prelude.{ℕ, ◌+◌, List, ℤ}

-- `sockaddr_in`
pub record Addr : Type 0 where
  pub family : ℕ
  pub ip : ℕ
  pub port : ℕ

-- What `recvfrom` returns: a datagram and its sender, or an error number.
pub data Arrival : Type 0 where
  datagram : List ℕ → Addr → Arrival
  failed : ℕ → Arrival

-- A call of `sendto`.
pub record Packet : Type 0 where
  pub socket : ℤ
  pub to : Addr
  pub bytes : List ℕ

-- The answers of the system calls, each by the time of the call: /dev/urandom, `socket`, `bind`,
-- `getsockname` and `sendto`, and what uninitialised memory holds.
pub record Os : Type 0 where
  pub urandom : ℕ → ℕ
  pub socket : ℕ → ℤ
  pub bind : ℕ → ℤ → Addr → ℤ
  pub getsockname : ℕ → ℤ → ℤ × Addr
  pub sendto : ℕ → ℤ
  pub memory : ℕ → List ℕ

-- `arrivals` are the results of the calls of `recvfrom` that are to come; `sent`, `timeouts` and
-- `closed` are the calls of `sendto`, `setsockopt` and `close` so far, the newest first.
pub record World : Type 0 where
  pub clock : ℕ
  pub arrivals : List Arrival
  pub errno : ℕ
  pub sent : List Packet
  pub timeouts : List (ℤ × ℕ)
  pub closed : List ℤ

abbrev pub einval : ℕ
einval = 22

-- `EAGAIN` and `EWOULDBLOCK`
abbrev pub eagain : ℕ
eagain = 11

abbrev pub tick : World → World
tick w = record w { clock = w.clock + 1 }
