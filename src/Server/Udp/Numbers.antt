-- ===== src/Server/Udp/Numbers.antt =====
-- The client numbers of `UDPServer::get_client_num`.
use ece.Prelude.{
  if-elim, length, All, All-append, ℕ, ◌+◌, ◌≡◌, refl, ap, true, false, some, List, [], ◌∷◌, ◌++◌,
  arith,
}
use ece.Net.{Addr}
use ece.Server.Udp.{UdpServer, same_client, client_num_from, get_client_num, client_at}

-- No client of the list has the address of `source`.
abbrev pub Unknown : Addr → List Addr → Type 0
Unknown source = All (λ c. same_client c source ≡ false)

-- What the loop comes to: the first client with that address, or a new one at the end.
pub data Numbered (i : ℕ) (source : Addr) (cs : List Addr) (r : ℕ × List Addr) : Type 0 where
  known :
      (before : List Addr) (c : Addr) (behind : List Addr)
      → cs ≡ before ++ c ∷ behind
      → Unknown source before
      → same_client c source ≡ true
      → r.0 ≡ i + length before
      → r.1 ≡ cs
      → Numbered i source cs r
  newcomer :
      Unknown source cs → r.0 ≡ i + length cs → r.1 ≡ cs ++ source ∷ [] → Numbered i source cs r

Numbered-step :
    (i : ℕ) (source c : Addr) (cs : List Addr) (r : ℕ × List Addr)
    → same_client c source ≡ false
    → Numbered (i + 1) source cs r
    → Numbered i source (c ∷ cs) (r.0, c ∷ r.1)
Numbered-step i source c cs r other (known before d behind split skipped same number kept) =
    known (c ∷ before) d behind (ap (◌∷◌ c) split) (other, skipped) same (omega arith)
      (ap (◌∷◌ c) kept)
Numbered-step i source c cs r other (newcomer none_known number kept) =
    newcomer (other, none_known) (omega arith) (ap (◌∷◌ c) kept)

client_num_from-Numbered :
    (i : ℕ) (source : Addr) (cs : List Addr) → Numbered i source cs (client_num_from i source cs)
unfolding client_num_from
client_num_from-Numbered i source [] = newcomer tt (omega arith) refl
client_num_from-Numbered i source (c ∷ cs) =
    if-elim (Numbered i source (c ∷ cs)) (same_client c source)
      (λ same. known [] c cs refl tt same (omega arith) refl)
      (λ other. Numbered-step i source c cs _ other (client_num_from-Numbered (i + 1) source cs))

-- `get_client_num` gives the place of the first client with that address and port and leaves the
-- clients as they are, or, if there is none, puts the address behind them and gives its place.
pub get_client_num-Numbered :
    (source : Addr) (s : UdpServer)
    → Numbered 0 source s.clients ((get_client_num source s).0, (get_client_num source s).1.clients)
unfolding get_client_num
get_client_num-Numbered source s = client_num_from-Numbered 0 source s.clients

client_at-append :
    (before : List Addr) (c : Addr) (behind : List Addr)
    → client_at (length before) (before ++ c ∷ behind) ≡ some c
unfolding client_at
client_at-append [] c behind = refl
client_at-append (b ∷ before) c behind = client_at-append before c behind

-- The address at a number that was given out.
abbrev pub Answers : Addr → ℕ → List Addr → Type 0
Answers source n cs = (c : Addr) × (client_at n cs ≡ some c) × (same_client c source ≡ true)

same_client_refl : (a : Addr) → same_client a a ≡ true
same_client_refl a = ground arith

Numbered-Answers :
    (source : Addr) (cs : List Addr) (r : ℕ × List Addr)
    → Numbered 0 source cs r
    → Answers source r.0 r.1
Numbered-Answers source cs r (known before c behind split skipped same number kept) =
    let e : r.0 ≡ length before = omega arith in
    (c, rw (e, kept, split) (client_at-append before c behind), same)
Numbered-Answers source cs r (newcomer none_known number kept) =
    let e : r.0 ≡ length cs = omega arith in
    (source, rw (e, kept) (client_at-append cs source []), same_client_refl source)

-- `clients_.at` does not throw at the number that `get_client_num` gives, and finds a client with
-- the address and port of the source.
pub get_client_num-Answers :
    (source : Addr) (s : UdpServer)
    → Answers source (get_client_num source s).0 (get_client_num source s).1.clients
get_client_num-Answers source s =
    Numbered-Answers source s.clients
      ((get_client_num source s).0, (get_client_num source s).1.clients)
      (get_client_num-Numbered source s)

-- No two clients have the same address and port.
unfoldable pub Distinct : List Addr → Type 0
Distinct [] = Unit {0}
Distinct (c ∷ cs) = All (λ d. same_client c d ≡ false) cs × Distinct cs

Distinct-snoc :
    (cs : List Addr) (source : Addr)
    → Distinct cs
    → Unknown source cs
    → Distinct (cs ++ source ∷ [])
unfolding Distinct
Distinct-snoc [] source d u = (tt, tt)
Distinct-snoc (c ∷ cs) source d u =
    (All-append _ cs (source ∷ []) d.0 (u.0, tt), Distinct-snoc cs source d.1 u.1)

Numbered-Distinct :
    (source : Addr) (cs : List Addr) (r : ℕ × List Addr)
    → Distinct cs
    → Numbered 0 source cs r
    → Distinct r.1
Numbered-Distinct source cs r d (known before c behind split skipped same number kept) = rw kept d
Numbered-Distinct source cs r d (newcomer none_known number kept) =
    rw kept (Distinct-snoc cs source d none_known)

-- `get_client_num` gives no address and port a second number.
pub get_client_num-Distinct :
    (source : Addr) (s : UdpServer)
    → Distinct s.clients
    → Distinct (get_client_num source s).1.clients
get_client_num-Distinct source s d =
    Numbered-Distinct source s.clients
      ((get_client_num source s).0, (get_client_num source s).1.clients) d
      (get_client_num-Numbered source s)
