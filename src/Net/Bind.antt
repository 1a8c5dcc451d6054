-- ===== src/Net/Bind.antt =====
-- a4/mybind.c: `bind` to the first free port of a range. a2/Server.cc has the same loop.
use ece.Prelude.{
  ltb, ◌==◌, if◌then◌else◌, ℕ, zero, suc, ◌+◌, ◌-◌, ◌*◌, ◌/◌, ◌%◌, not, Option, none, some, ℤ, pos,
  failure, is_negative, is_below,
}
use ece.Net.{Addr, Os, World, tick}

abbrev pub port_range_lo : ℕ
port_range_lo = 10000

abbrev pub port_range_hi : ℕ
port_range_hi = 10100

-- `htons` and `ntohs` exchange the two bytes.
unfoldable pub htons : ℕ → ℕ
htons p = p % 256 * 256 + p / 256

unfoldable pub ntohs : ℕ → ℕ
ntohs p = p % 256 * 256 + p / 256

-- What `bind` to port `p` asks for.
abbrev pub with_port : Addr → ℕ → Addr
with_port addr p = record addr { port = htons p }

module _ (os : Os) (fd : ℤ) where
  -- The loop, with the number of ports left in the range; the port behind the range is the result
  -- if every call of `bind` fails.
  unfoldable pub bind_from : ℕ → ℕ → Addr → World → ℕ × Addr × World
  bind_from zero p addr w = (p, addr, w)
  bind_from (suc n) p addr w =
      let rest = bind_from n (p + 1) (with_port addr p) (tick w) in
      if is_negative (os.bind w.clock fd (with_port addr p))
      then rest
      else (p, with_port addr p, tick w)

  -- The loop and the test behind it.
  unfoldable pub bind_in_range : Addr → World → ℤ × Addr × World
  bind_in_range addr w =
      let (p, addr', w') = bind_from (port_range_hi + 1 - port_range_lo) port_range_lo addr w in
      (if ltb port_range_hi p then failure else pos 0, addr', w')

  -- `mybind`; `none` is a null pointer.
  unfoldable pub mybind : Option Addr → World → ℤ × Option Addr × World
  unfolding bind_in_range
  mybind none w = (failure, none, w)
  mybind (some addr) w =
      if is_below fd 1
      then (failure, some addr, w)
      else if not (addr.port == 0)
      then (failure, some addr, w)
      else (let (r, addr', w') = bind_in_range addr w in (r, some addr', w'))
