-- ===== src/Server/Listen/Choose.antt =====
-- Which interface and which port a server listens on.
use ece.Prelude.{
  ◌==◌, if◌then◌else◌, Bool-cases, Option-cases, All, ℕ, ◌+◌, ◌≤◌, bit_and, ◌≡◌, refl, ap, ◌≢◌, ◌⊎◌,
  inl, inr, true, false, none, some, List, [], ◌∷◌, ◌++◌, arith, ℤ, pos, failure, is_negative,
  is_below,
}
use ece.Net.{Addr, Os, World}
use ece.Net.Bind.{ntohs, htons, with_port, port_range_lo, port_range_hi}
use ece.Net.Ports.{ntohs-htons, Refused, Bound, bound, all_refused, bind_in_range-Bound}
use ece.Server.Listen.{
  Interface, iff_loopback, af_inet, is_good_interface, Choice, chosen, no_good_interface,
  choose_from, get_port_and_bind,
}

-- Not a loopback interface, and its address is IPv4.
abbrev Good : Interface → Type 0
Good i = is_good_interface i ≡ some true

abbrev Bad : Interface → Type 0
Bad i = is_good_interface i ≡ some false

abbrev HasAddress : Interface → Type 0
HasAddress i = i.address ≢ none

-- What the loop comes to on a list of interfaces.
pub data Chosen (all : List Interface) (c : Choice) : Type 0 where
  first_good :
      (before : List Interface) (i : Interface) (behind : List Interface)
      → all ≡ before ++ i ∷ behind
      → All Bad before
      → Good i
      → c ≡ chosen i
      → Chosen all c
  none_good : All Bad all → c ≡ no_good_interface → Chosen all c

decided : (i : Interface) → HasAddress i → Good i ⊎ Bad i
unfolding is_good_interface
decided i h = elim (Bool-cases (bit_and i.flags iff_loopback == 0)) [
  | inr e ↦ inr (rw (is_good_interface, e) refl)
  | inl e ↦ elim (Option-cases i.address) [
    | inl n ↦ absurd (h n)
    | inr (a, q) ↦ elim (Bool-cases (a.family == af_inet)) [
      | inl f ↦ inl (rw (is_good_interface, e, q, f) refl)
      | inr f ↦ inr (rw (is_good_interface, e, q, f) refl)
    ]
  ]
]

-- With an address at every interface the constructor takes the first that is good, and finds none
-- only if each is bad.
pub choose_from-Chosen :
    (i : Interface) (rest : List Interface)
    → All HasAddress (i ∷ rest)
    → Chosen (i ∷ rest) (choose_from i rest)
unfolding choose_from
choose_from-Chosen i [] h = elim (decided i h.0) [
  | inl good ↦ first_good [] i [] refl tt good (rw (choose_from, good) refl)
  | inr bad ↦ none_good (bad, tt) (rw (choose_from, bad) refl)
]
choose_from-Chosen i (j ∷ rest) h = elim (decided i h.0) [
  | inl good ↦ first_good [] i (j ∷ rest) refl tt good (rw (choose_from, good) refl)
  | inr bad ↦
      rw (choose_from, bad)
        (elim (choose_from-Chosen j rest h.1) [
          | first_good before k behind split skipped good eq ↦
              first_good (i ∷ before) k behind (ap (◌∷◌ i) split) (bad, skipped) good eq
          | none_good all_bad eq ↦ none_good (bad, all_bad) eq
        ])
]

module _ (os : Os) (fd : ℤ) where
  -- What `get_port_and_bind` comes to: its result and the port that is stored.
  pub data Lowest (addr : Addr) (port : ℕ) (w : World) (r : ℤ × ℕ × World) : Type 0 where
    lowest :
        (k : ℕ)
        → port_range_lo + k ≤ port_range_hi
        → Refused os fd k w.clock port_range_lo addr
        → is_negative (os.bind (w.clock + k) fd (with_port addr (port_range_lo + k))) ≡ false
        → r.0 ≡ pos 0
        → r.1 ≡ port_range_lo + k
        → Lowest addr port w r
    nowhere :
        Refused os fd 101 w.clock port_range_lo addr
        → r.0 ≡ failure
        → r.1 ≡ port
        → Lowest addr port w r

  Bound-Lowest :
      (addr : Addr) (port : ℕ) (w : World) (b : ℤ × Addr × World)
      → Bound os fd addr w b
      → Lowest addr port w (b.0, if is_negative b.0 then port else ntohs b.1.port, b.2)
  Bound-Lowest addr port w b (bound k fits before luck zero_result addr_eq) =
      let p = port_range_lo + k in
      let back : ntohs (htons p) ≡ p = (ntohs-htons p (omega arith)).0 in
      lowest k fits before luck zero_result (rw (zero_result, addr_eq) back)
  Bound-Lowest addr port w b (all_refused all result) = nowhere all result (rw result refl)

  -- On a socket and an address with port 0, `get_port_and_bind` either returns 0 and stores the
  -- lowest port from 10000 to 10100 that `bind` accepts, or `bind` refuses all of them, it returns
  -- -1 and stores nothing.
  pub get_port_and_bind-Lowest :
      (addr : Addr) (port : ℕ) (w : World)
      → is_below fd 1 ≡ false
      → addr.port ≡ 0
      → Lowest addr port w (get_port_and_bind os fd (some addr) port w)
  unfolding get_port_and_bind
  get_port_and_bind-Lowest addr port w good zero_port =
      let test : (addr.port == 0) ≡ true = ground arith in
      rw (good, test) (Bound-Lowest addr port w _ (bind_in_range-Bound os fd addr w))
