-- ===== src/Client/Resolve.antt =====
-- a2/TCPClient.cc and a2/UDPClient.cc, what both have of `set_host_info` and `send_message`.
use ece.Prelude.{
  ltb, ◌==◌, if◌then◌else◌, ==_ne, length, take, All, take_all, u32_mod, ℕ, ◌-◌, ◌%◌, ◌^◌, ◌<◌, min,
  ◌≡◌, refl, ap, ◌≢◌, Bool, true, false, Option, none, some, List, [], ◌∷◌, ◌++◌, arith, ℕ_discrete,
  ℤ, pos, negsuc,
}
use ece.Net.{Addr}
use ece.Msg.Show.{c_string}
use ece.Server.Listen.{af_inet}
use ece.Server.Input.{skip_spaces, read_digits, atoi}

-- An element of the list of `getaddrinfo`: its `ai_family` and `ai_addr`.
pub record Found : Type 0 where
  pub family : ℕ
  pub address : Addr

-- The answers of `getaddrinfo`, with the list that it stores, and of `connect`.
pub record Host : Type 0 where
  pub getaddrinfo : List ℕ → List ℕ → ℤ × List Found
  pub connect : ℤ → Addr → ℤ

-- The loop over the list: the address that is copied, if the loop does not run to the end.
unfoldable pub first_inet : List Found → Option Addr
first_inet [] = none
first_inet (x ∷ xs) =
    let later = first_inet xs in if x.family == af_inet then some x.address else later

-- `atoi`: spaces, a sign and digits, where a value out of range is the nearest `long`, of which the
-- `int` has 32 bits.
abbrev signed_int : List ℕ → ℕ
signed_int [] = 0
signed_int (c ∷ cs) =
    if c == 45
    then (u32_mod - min (read_digits 0 cs).0 (2 ^ 63) % u32_mod) % u32_mod
    else if c == 43
    then atoi cs
    else atoi (c ∷ cs)

unfoldable pub int_of : List ℕ → ℕ
int_of s = signed_int (skip_spaces s)

-- `result != sizeof(Message)`
abbrev pub is_request_size : ℤ → Bool
is_request_size (pos n) = n == 12
is_request_size (negsuc n) = false

abbrev pub buffer_size : ℕ
buffer_size = 1024

-- `buffer[result] = '\0'` and the conversion to a string; `none` is a write behind the buffer.
unfoldable pub reply_text : List ℕ → Option (List ℕ)
reply_text bytes =
    if ltb (length (take buffer_size bytes)) buffer_size
    then some (c_string (take buffer_size bytes))
    else none

-- The loop stops at the first IPv4 address in the list, and at none only if the list has none.
abbrev pub Resolved : List Found → Option Addr → Type 0
Resolved xs none = All (λ (x : Found). x.family ≢ af_inet) xs
Resolved xs (some a) =
    (before : List Found) × (after : List Found) × (x : Found) × (xs ≡ before ++ (x ∷ after))
    × All (λ (y : Found). y.family ≢ af_inet) before
    × (x.family ≡ af_inet)
    × (x.address ≡ a)

Resolved-behind :
    (x : Found) (xs : List Found) (r : Option Addr)
    → x.family ≢ af_inet
    → Resolved xs r
    → Resolved (x ∷ xs) r
Resolved-behind x xs none ne h = (ne, h)
Resolved-behind x xs (some a) ne (before, after, y, e, others, inet, at) =
    (x ∷ before, after, y, ap (◌∷◌ x) e, (ne, others), inet, at)

-- The loop over the resolved addresses finds the first IPv4 address, and finds none only if there
-- is none.
pub first_inet-Resolved : (xs : List Found) → Resolved xs (first_inet xs)
unfolding first_inet
first_inet-Resolved [] = tt
first_inet-Resolved (x ∷ xs) = elim (ℕ_discrete x.family af_inet) [
  | yes e ↦
      let hit : (x.family == af_inet) ≡ true = rw e refl in rw hit ([], xs, x, refl, tt, e, refl)
  | no ne ↦
      rw (==_ne x.family af_inet ne)
        (Resolved-behind x xs (first_inet xs) ne (first_inet-Resolved xs))
]

-- A text that fits the buffer, with no zero byte in it.
pub record IsText (bytes : List ℕ) : Type 0 where
  pub fits : length bytes < buffer_size
  pub no_zero : All (λ (b : ℕ). b ≢ 0) bytes

c_string-all : (bytes : List ℕ) → All (λ (b : ℕ). b ≢ 0) bytes → c_string bytes ≡ bytes
unfolding c_string
c_string-all [] h = refl
c_string-all (b ∷ bs) h = rw (==_ne b 0 h.0) (ap (◌∷◌ b) (c_string-all bs h.1))

pub reply_text-IsText : (bytes : List ℕ) → IsText bytes → reply_text bytes ≡ some bytes
unfolding reply_text
reply_text-IsText bytes t =
    let fits = t.fits in
    rw (take_all buffer_size bytes (omega arith), c_string-all bytes t.no_zero)
      (let room : ltb (length bytes) buffer_size ≡ true = ground arith in rw room refl)
