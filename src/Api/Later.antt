-- ===== src/Api/Later.antt =====
-- a4/rcs.cc and the static members of a4/rcs_t.cc: what every call does to the table of sockets.
use ece.Prelude.{
  ◌==◌, Bool-cases, Option-cases, ℕ, ◌≤◌, ◌<◌, ◌≡◌, refl, subst, ◌∙◌, inl, inr, Option, none, some,
  arith, ℤ, pos, negsuc, failure,
}
use ece.Net.{World}
use ece.Socket.Monad.{Socket, State, Run, ok, blocked, aborted, out_of_fuel, bind, M}
use ece.Api.Sockets.{find, put, find-put, Below, put-Below}
use ece.Api.{Process, on_socket, code}
use ece.Api.Accept.{◌>=>◌}

-- What was before a call and is behind it. A descriptor that was below the next one and no socket
-- is no socket still.
pub record Later (p q : Process) : Type 0 where
  pub next_le : p.table.next_id ≤ q.table.next_id
  pub below : Below q.table.next_id q.table.sockets
  pub gone :
      (j : ℕ) → j < p.table.next_id → find j p.table.sockets ≡ none → find j q.table.sockets ≡ none

-- The call made no descriptor.
pub record Same (p q : Process) : Type 0 where
  pub next_eq : q.table.next_id ≡ p.table.next_id
  pub later : Later p q

pub Later-refl : (p : Process) → Below p.table.next_id p.table.sockets → Later p p
Later-refl p b = record { next_le = omega arith; below = b; gone = λ j lt e. e }

pub Later-trans : {p q r : Process} → Later p q → Later q r → Later p r
Later-trans h k = record {
  next_le = (let a = h.next_le in let b = k.next_le in omega arith);
  below = k.below;
  gone = λ j lt e. k.gone j (let a = h.next_le in omega arith) (h.gone j lt e);
}

-- If the run returns, its value and process have the property.
abbrev pub After : {A : Type 0} → (A → Process → Type 0) → Run (A × Process) → Type 0
After Q (ok r) = Q r.0 r.1
After Q blocked = Unit
After Q aborted = Unit
After Q out_of_fuel = Unit

pub After-ok :
    {A : Type 0} (Q : A → Process → Type 0) {m : Run (A × Process)} {a : A} {q : Process}
    → After Q m
    → m ≡ ok (a, q)
    → Q a q
After-ok Q h e = subst (After Q) e h

-- A run of a method with a process made of what it leaves.
After-run :
    {A B : Type 0} (Q : B → Process → Type 0) (m : Run (A × State)) (f : A → State → B × Process)
    → ((a : A) (t : State) → Q (f a t).0 (f a t).1)
    → After Q (bind m (λ r. ok (f r.0 r.1)))
After-run Q (ok r) f k = k r.0 r.1
After-run Q blocked f k = tt
After-run Q aborted f k = tt
After-run Q out_of_fuel f k = tt

-- What follows, at a socket that is in the map or is not.
pub After-then :
    {A : Type 0} (P : Process → Type 0) (Q : ℤ → Process → Type 0) (m : Run (Option A × Process))
    (f : A → Process → Run (ℤ × Process))
    → After (λ a q. P q) m
    → ((q : Process) → P q → Q failure q)
    → ((a : A) (q : Process) → P q → After Q (f a q))
    → After Q (m >=> f)
After-then P Q (ok (none, q)) f h fails goes_on = fails q h
After-then P Q (ok (some a, q)) f h fails goes_on = goes_on a q h
After-then P Q blocked f h fails goes_on = tt
After-then P Q aborted f h fails goes_on = tt
After-then P Q out_of_fuel f h fails goes_on = tt

pub code-After :
    {A : Type 0} (P : Process → Type 0) (f : A → ℤ) (m : Run (Option A × Process))
    → After (λ a q. P q) m
    → After (λ a q. P q) (code f m)
code-After P f (ok r) h = h
code-After P f blocked h = tt
code-After P f aborted h = tt
code-After P f out_of_fuel h = tt

-- Behind a method, the socket it was called on is in the map if it was before.
put-Same :
    (id : ℕ) (s : Socket) (w : World) (p : Process)
    → Below p.table.next_id p.table.sockets
    → Same p
        (record { table = record (p.table) { sockets = put id s (p.table.sockets) }; world = w })
put-Same id s w p b = record {
  next_eq = refl;
  later = record {
    next_le = omega arith;
    below = put-Below p.table.next_id id s p.table.sockets b;
    gone = λ j lt e. find-put id j s p.table.sockets ∙ elim (Bool-cases (id == j)) [
      | inl t ↦
          let same : id ≡ j = ground arith in
          let missing : find id p.table.sockets ≡ none = rw same e in rw (t, missing) refl
      | inr f ↦ rw f e
    ];
  };
}

pub on_socket-Same :
    {A : Type 0} (fd : ℤ) (m : M A) (p : Process)
    → Below p.table.next_id p.table.sockets
    → After (λ a q. Same p q) (on_socket fd m p)
unfolding on_socket
on_socket-Same (negsuc n) m p b = record { next_eq = refl; later = Later-refl p b }
on_socket-Same (pos id) m p b = elim (Option-cases (find id p.table.sockets)) [
  | inl e ↦ rw (on_socket, e) (record { next_eq = refl; later = Later-refl p b })
  | inr (s, e) ↦
      rw (on_socket, e)
        (After-run (λ a q. Same p q) (m (record { sock = s; world = p.world })) _
          λ a t. put-Same id t.sock t.world p b)
]
