-- ===== src/Protocol/Echo.antt =====
-- a4/ucp.c and a4/rcs_t.cc: what becomes of a packet on its way to the other side.
use ece.Prelude.{
  ◌==◌, if-elim, length, take, All, length-take, ℕ, ◌≤◌, ◌<◌, ◌≡◌, refl, ◌⊎◌, inl, inr, true,
  Option, none, some, List, [], ◌∷◌, arith,
}
use ece.Msg.{Msg, IsMsg, valid}
use ece.Msg.Validity.{valid_iff}
use ece.Msg.Wire.{wire, byte_count, zeroed, intact-cut, length-wire}
use ece.Net.{Addr, Arrival, Packet, datagram, Os, World}
use ece.Net.Ucp.{random_bytes}
use ece.Net.Logged.{Logged, Carried}
use ece.Socket.Quiet.{heard}
use ece.Socket.Chunks.{heard-wire}

-- No noise that this host's channel makes passes for a message.
abbrev pub IsUnforged : Os → Type 0
IsUnforged os =
    (n : ℕ) (w : World) (from : Addr) → heard (datagram (random_bytes os n w).0 from) ≡ none

-- Whoever gets these bytes hears nothing or a message with the property.
abbrev pub Echo : (Msg → Type 0) → List ℕ → Type 0
Echo H bytes =
    (from : Addr)
    → (heard (datagram bytes from) ≡ none)
      ⊎ ((m : Msg) × (heard (datagram bytes from) ≡ some m) × H m)

heard-cut :
    (t : ℕ) {m : Msg} (from : Addr)
    → IsMsg m
    → valid m ≡ true
    → t < length (wire m)
    → heard (datagram (take t (wire m)) from) ≡ none
unfolding heard
heard-cut t {m} from v ok lt =
    let small : m.length ≤ 500 = ((valid_iff m).0 ok).0 in
    let len = length-wire m small v.payload_size in
    let all : byte_count (take t (wire m)) ≡ t = omega (arith, length-take t (wire m)) in
    let bad = intact-cut t v ok lt in
    rw (all, bad) (if-elim (λ (r : Option Msg). r ≡ none) (t == 0) (λ _. refl) (λ _. refl))

-- Whatever the channel makes of the packet of a valid message is heard as that message, or not at
-- all.
pub wire-Carried :
    {m : Msg} (os : Os) (H : Msg → Type 0)
    → IsUnforged os
    → IsMsg m
    → valid m ≡ true
    → H (zeroed m)
    → Carried os (Echo H) (wire m)
wire-Carried {m} os H unforged v ok h = record {
  whole = λ from. inr (zeroed m, heard-wire from v ok, h);
  cut = λ n lt from. inl (heard-cut n from v ok lt);
  noise = λ n w from. inl (unforged n w from);
}

-- An arrival that the network may deliver of the packets of a log: nothing that passes for a
-- message, or a packet of the log, in any order and any number of times.
abbrev pub Comes : List Packet → Arrival → Type 0
Comes [] a = heard a ≡ none
Comes (p ∷ log) a = ((from : Addr) × (a ≡ datagram p.bytes from)) ⊎ Comes log a

pub Comes-heard :
    (H : Msg → Type 0) (log : List Packet) (a : Arrival)
    → All (λ (p : Packet). Echo H p.bytes) log
    → Comes log a
    → (heard a ≡ none) ⊎ ((m : Msg) × (heard a ≡ some m) × H m)
Comes-heard H [] a all e = inl e
Comes-heard H (p ∷ log) a all (inl (from, e)) = rw e (all.0 from)
Comes-heard H (p ∷ log) a all (inr c) = Comes-heard H log a all.1 c

pub Logged-mono :
    (H G : Msg → Type 0) (w : World)
    → ((m : Msg) → H m → G m)
    → Logged (Echo H) w
    → Logged (Echo G) w
Logged-mono H G w f = each w.sent
  where
    echo : (b : List ℕ) → Echo H b → Echo G b
    echo b h from = elim (h from) [ inl e ↦ inl e | inr (m, e, x) ↦ inr (m, e, f m x) ]

    each :
        (log : List Packet)
        → All (λ (p : Packet). Echo H p.bytes) log
        → All (λ (p : Packet). Echo G p.bytes) log
    each [] h = tt
    each (p ∷ log) h = (echo p.bytes h.0, each log h.1)
