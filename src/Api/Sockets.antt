-- ===== src/Api/Sockets.antt =====
-- a4/rcs_t.h, `sockets_t`: the map from descriptors to sockets, and the next descriptor.
use ece.Prelude.{
  ◌==◌, if◌then◌else◌, All, ℕ, ◌≤◌, ◌<◌, ◌≡◌, refl, Option, none, some, List, [], ◌∷◌, arith,
}
use ece.Socket.Monad.{Socket}

pub record Table : Type 0 where
  pub sockets : List (ℕ × Socket)
  pub next_id : ℕ

unfoldable pub find : ℕ → List (ℕ × Socket) → Option Socket
find id [] = none
find id ((k, s) ∷ m) = if k == id then some s else find id m

-- Writing through a pointer to the socket of a key that is in the map.
unfoldable pub put : ℕ → Socket → List (ℕ × Socket) → List (ℕ × Socket)
put id v [] = []
put id v ((k, s) ∷ m) = if k == id then (k, v) ∷ m else (k, s) ∷ put id v m

unfoldable pub erase : ℕ → List (ℕ × Socket) → List (ℕ × Socket)
erase id [] = []
erase id ((k, s) ∷ m) = if k == id then erase id m else (k, s) ∷ erase id m

pub find-put :
    (id j : ℕ) (v : Socket) (m : List (ℕ × Socket))
    → find j (put id v m)
      ≡ (if id == j then elim (find id m) [ none ↦ none | some s ↦ some v ] else find j m)
unfolding find put
find-put id j v [] = ground arith
find-put id j v ((k, s) ∷ m) = ground (arith, find-put id j v m)

pub find-erase :
    (id j : ℕ) (m : List (ℕ × Socket)) → find j (erase id m) ≡ (if id == j then none else find j m)
unfolding find erase
find-erase id j [] = ground arith
find-erase id j ((k, s) ∷ m) = ground (arith, find-erase id j m)

-- All keys are below the next one.
abbrev pub Below : ℕ → List (ℕ × Socket) → Type 0
Below n = All (λ e. e.0 < n)

pub find-above : (n id : ℕ) (m : List (ℕ × Socket)) → Below n m → n ≤ id → find id m ≡ none
unfolding find
find-above n id [] b h = refl
find-above n id ((k, s) ∷ m) b h = ground (arith, find-above n id m b.1)

pub put-Below : (n id : ℕ) (v : Socket) (m : List (ℕ × Socket)) → Below n m → Below n (put id v m)
unfolding put
put-Below n id v [] b = tt
put-Below n id v ((k, s) ∷ m) b = ground (arith, put-Below n id v m b.1)

pub erase-Below : (n id : ℕ) (m : List (ℕ × Socket)) → Below n m → Below n (erase id m)
unfolding erase
erase-Below n id [] b = tt
erase-Below n id ((k, s) ∷ m) b = ground (arith, erase-Below n id m b.1)

pub Below-mono : (n k : ℕ) (m : List (ℕ × Socket)) → n ≤ k → Below n m → Below k m
Below-mono n k [] h b = tt
Below-mono n k (e ∷ m) h b = (omega arith, Below-mono n k m h b.1)
