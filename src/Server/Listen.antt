-- ===== src/Server/Listen.antt =====
-- a2/Server.cc, the constructor, `is_good_interface`, `get_port_and_bind` and
-- `get_client_connection_string`: where a server listens.
pub mod Choose
use ece.Prelude.{
  ◌==◌, if◌then◌else◌, ℕ, ◌+◌, ◌/◌, ◌%◌, bit_and, Bool, false, not, Option, none, some, List, [],
  ◌∷◌, ◌++◌, ℤ, failure, is_negative, is_below,
}
use ece.Net.{Addr, Os, World}
use ece.Net.Bind.{ntohs, bind_in_range}
use ece.Server.Groups.{print_int}

-- `ifaddrs`: the flags of an interface, and its address unless the pointer is null.
pub record Interface : Type 0 where
  pub flags : ℕ
  pub address : Option Addr

abbrev pub iff_loopback : ℕ
iff_loopback = 8

abbrev pub af_inet : ℕ
af_inet = 2

-- `Server::is_good_interface`; `none` is a read through a null pointer.
unfoldable pub is_good_interface : Interface → Option Bool
is_good_interface i =
    if not (bit_and i.flags iff_loopback == 0)
    then some false
    else elim i.address [ none ↦ none | some a ↦ some (a.family == af_inet) ]

-- The loop of the constructor: the interface it stops at, none, or a read through a null pointer.
pub data Choice : Type 0 where
  chosen : Interface → Choice
  no_good_interface : Choice
  null_read : Choice

unfoldable pub choose_from : Interface → List Interface → Choice
choose_from i [] = elim (is_good_interface i) [
  | none ↦ null_read
  | some good ↦ if good then chosen i else no_good_interface
]
choose_from i (j ∷ rest) =
    let later = choose_from j rest in
    elim (is_good_interface i) [ none ↦ null_read | some good ↦ if good then chosen i else later ]

unfoldable pub choose_interface : List Interface → Choice
choose_interface [] = null_read
choose_interface (i ∷ rest) = choose_from i rest

-- `inet_ntoa`: the four bytes of an address, in decimal with dots between.
unfoldable pub inet_ntoa : ℕ → List ℕ
inet_ntoa ip =
    print_int (ip % 256)
    ++ (46 ∷ print_int (ip / 256 % 256))
    ++ (46 ∷ print_int (ip / 65536 % 256))
    ++ (46 ∷ print_int (ip / 16777216 % 256))

-- `Server::get_port_and_bind`, with the port that it stores; `none` is a null pointer.
module _ (os : Os) (fd : ℤ) where
  unfoldable pub get_port_and_bind : Option Addr → ℕ → World → ℤ × ℕ × World
  get_port_and_bind none port w = (failure, port, w)
  get_port_and_bind (some addr) port w =
      if is_below fd 1
      then (failure, port, w)
      else if not (addr.port == 0)
      then (failure, port, w)
      else (let (r, a, v) = bind_in_range os fd addr w in
          (r, if is_negative r then port else ntohs a.port, v))

-- `Server::get_client_connection_string`
unfoldable pub get_client_connection_string : List ℕ → ℕ → List ℕ
get_client_connection_string address port = address ++ (32 ∷ print_int port)

-- The constructor: the address to listen on; `none` is `exit(1)`, a crash of its own.
pub data Construction : Type 0 where
  listening_on : List ℕ → Construction
  exit_failure : Construction
  crash : Construction

abbrev pub construct : List Interface → Construction
construct interfaces = elim (choose_interface interfaces) [
  | null_read ↦ crash
  | no_good_interface ↦ exit_failure
  | chosen i ↦ elim i.address [ none ↦ crash | some a ↦ listening_on (inet_ntoa a.ip) ]
]
