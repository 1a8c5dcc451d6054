-- ===== src/Net/Ports.antt =====
-- Which port the loop of `mybind` and `get_port_and_bind` finds.
use ece.Prelude.{
  ltb, ◌==◌, if◌then◌else◌, lt→ltb, ge→ltb, if-elim, u16_mod, ℕ, zero, suc, ◌+◌, ◌≤◌, ◌<◌, ◌≡◌,
  refl, sym, ◌≢◌, ◌⊎◌, inl, inr, true, false, Option, none, some, arith, ℤ, pos, failure,
  is_negative, is_below,
}
use ece.Net.{Addr, Os, World, tick}
use ece.Net.Bind.{
  port_range_lo, port_range_hi, htons, ntohs, with_port, bind_from, bind_in_range, mybind,
}

-- A port survives the way to network order and back, and both forms fit 16 bits.
pub ntohs-htons : (p : ℕ) → p < u16_mod → (ntohs (htons p) ≡ p) × (htons p < u16_mod)
unfolding ntohs htons
ntohs-htons p h = omega arith

module _ (os : Os) (fd : ℤ) where
  -- Of the `bind` calls from time `t` on, for the ports from `p` on, the first `k` fail.
  abbrev pub Refused : ℕ → ℕ → ℕ → Addr → Type 0
  Refused zero t p addr = Unit {0}
  Refused (suc k) t p addr =
      (is_negative (os.bind t fd (with_port addr p)) ≡ true) × Refused k (t + 1) (p + 1) addr

  -- What the loop comes to: the first port that can be bound, or none of `n`.
  pub data Found (n p : ℕ) (addr : Addr) (w : World) (r : ℕ × Addr × World) : Type 0 where
    found :
        (k : ℕ)
        → k < n
        → Refused k w.clock p addr
        → is_negative (os.bind (w.clock + k) fd (with_port addr (p + k))) ≡ false
        → r.0 ≡ p + k
        → r.1 ≡ with_port addr (p + k)
        → Found n p addr w r
    exhausted : Refused n w.clock p addr → r.0 ≡ p + n → Found n p addr w r

  Found-step :
      (n p : ℕ) (addr : Addr) (w : World) (r : ℕ × Addr × World)
      → is_negative (os.bind w.clock fd (with_port addr p)) ≡ true
      → Found n (p + 1) addr (tick w) r
      → Found (suc n) p addr w r
  Found-step n p addr w r no_luck (found k lt before luck port addr_eq) =
      let t : w.clock + suc k ≡ w.clock + 1 + k = omega arith in
      let q : p + suc k ≡ p + 1 + k = omega arith in
      found (suc k) (omega arith) (no_luck, before) (rw (t, q) luck) (rw q port) (rw q addr_eq)
  Found-step n p addr w r no_luck (exhausted all port) = exhausted (no_luck, all) (omega arith)

  -- The port of the address passed in does not matter.
  Refused-port : (k t p q : ℕ) (addr : Addr) → Refused k t p (with_port addr q) → Refused k t p addr
  Refused-port zero t p q addr h = tt
  Refused-port (suc k) t p q addr h = (h.0, Refused-port k (t + 1) (p + 1) q addr h.1)

  Found-port :
      (n p q : ℕ) (addr : Addr) (w : World) (r : ℕ × Addr × World)
      → Found n p (with_port addr q) w r
      → Found n p addr w r
  Found-port n p q addr w r (found k lt before luck port addr_eq) =
      found k lt (Refused-port k w.clock p q addr before) luck port addr_eq
  Found-port n p q addr w r (exhausted all port) =
      exhausted (Refused-port n w.clock p q addr all) port

  bind_from-Found :
      (n p : ℕ) (addr : Addr) (w : World) → Found n p addr w (bind_from os fd n p addr w)
  unfolding bind_from
  bind_from-Found zero p addr w = exhausted tt (omega arith)
  bind_from-Found (suc n) p addr w =
      if-elim (Found (suc n) p addr w) (is_negative (os.bind w.clock fd (with_port addr p)))
        (λ no_luck. Found-step n p addr w _ no_luck (
          Found-port n (p + 1) p addr (tick w) _
            (bind_from-Found n (p + 1) (with_port addr p) (tick w))))
        λ luck.
          let t : w.clock + 0 ≡ w.clock = omega arith in
          let q : p + 0 ≡ p = omega arith in
          found 0 (omega arith) tt (rw (t, q) luck) (sym q) (rw q refl)

  -- The result of a search of the whole range.
  pub data Bound (addr : Addr) (w : World) (r : ℤ × Addr × World) : Type 0 where
    bound :
        (k : ℕ)
        → port_range_lo + k ≤ port_range_hi
        → Refused k w.clock port_range_lo addr
        → is_negative (os.bind (w.clock + k) fd (with_port addr (port_range_lo + k))) ≡ false
        → r.0 ≡ pos 0
        → r.1 ≡ with_port addr (port_range_lo + k)
        → Bound addr w r
    all_refused : Refused 101 w.clock port_range_lo addr → r.0 ≡ failure → Bound addr w r

  Found-Bound :
      (addr : Addr) (w : World) (f : ℕ × Addr × World)
      → Found 101 port_range_lo addr w f
      → Bound addr w (if ltb port_range_hi f.0 then failure else pos 0, f.1, f.2)
  Found-Bound addr w f (found k lt before luck port addr_eq) =
      let test : ltb port_range_hi f.0 ≡ false = ge→ltb port_range_hi f.0 (omega arith) in
      bound k (omega arith) before luck (rw test refl) addr_eq
  Found-Bound addr w f (exhausted all port) =
      let test : ltb port_range_hi f.0 ≡ true = lt→ltb port_range_hi f.0 (omega arith) in
      all_refused all (rw test refl)

  pub bind_in_range-Bound : (addr : Addr) (w : World) → Bound addr w (bind_in_range os fd addr w)
  unfolding bind_in_range
  bind_in_range-Bound addr w = Found-Bound addr w _ (bind_from-Found 101 port_range_lo addr w)

  -- On a socket and an address with port 0, `mybind` returns 0 with the lowest port of the range
  -- that `bind` accepts, in network order, or -1 if `bind` refuses every port of the range.
  pub mybind-Bound :
      (addr : Addr) (w : World)
      → is_below fd 1 ≡ false
      → addr.port ≡ 0
      → (a : Addr) × (v : World) × (mybind os fd (some addr) w
          ≡ ((mybind os fd (some addr) w).0, some a, v))
        × Bound addr w ((mybind os fd (some addr) w).0, a, v)
  unfolding mybind
  mybind-Bound addr w good zero_port =
      let test : (addr.port == 0) ≡ true = ground arith in
      rw (good, test)
        (
          (bind_in_range os fd addr w).1,
          (bind_in_range os fd addr w).2,
          refl,
          bind_in_range-Bound addr w,
        )

  -- A bad socket, a null pointer or a port that is set already is refused, with no system call and
  -- the address left as it is.
  pub mybind-refuses :
      (addr : Option Addr) (w : World)
      → (addr ≡ none) ⊎ (is_below fd 1 ≡ true) ⊎ ((a : Addr) × (addr ≡ some a) × (a.port ≢ 0))
      → mybind os fd addr w ≡ (failure, addr, w)
  unfolding mybind
  mybind-refuses none w h = refl
  mybind-refuses (some a) w (inl e) = cc
  mybind-refuses (some a) w (inr (inl bad)) = rw bad refl
  mybind-refuses (some a) w (inr (inr (b, e, set_port))) =
      let test : (a.port == 0) ≡ false = ground arith in
      if-elim (λ r. r ≡ (failure, some a, w)) (is_below fd 1) (λ _. refl) (λ _. rw test refl)
