-- ===== src/Api/Opening.antt =====
-- a4/rcs.cc: `rcsSocket`, `rcsAccept` and `rcsClose`, and the table of sockets.
use ece.Prelude.{
  ◌==◌, ==_ne, Bool-cases, Option-cases, if-elim, size_mod, le16, ◌+◌, ◌%◌, ◌<◌, ◌≡◌, refl, sym,
  subst, ◌∙◌, ◌⊎◌, inl, inr, false, not, none, some, ◌∷◌, arith, ℤ, pos, negsuc, failure,
}
use ece.Net.{Addr, Os}
use ece.Socket.Low.{set_endpoint}
use ece.Socket.Monad.{Run, ok, blocked, aborted, out_of_fuel, modify_sock}
use ece.Socket.Methods.{new_socket, bind_socket, get_sock_name}
use ece.Socket.Sender.{send}
use ece.Api.Sockets.{find, find-erase, Below, find-above, erase-Below, Below-mono}
use ece.Api.{Process, get_socket, on_socket, make_socket, destroy_socket, rcs_socket, rcs_close}
use ece.Api.Accept.{wait_for_client, bound_addr, accept_client, rcs_accept}
use ece.Api.Descriptors.{close-Returns}
use ece.Api.Later.{Later, Same, Later-refl, Later-trans, After, After-then, on_socket-Same}

-- A call that may make a socket: it fails, or returns the next descriptor.
pub record Opened (p : Process) (r : ℤ) (q : Process) : Type 0 where
  pub later : Later p q
  pub made : (r ≡ failure) ⊎ ((r ≡ pos p.table.next_id) × (q.table.next_id ≡ p.table.next_id + 1))

-- The calls before the one that makes a socket, and those behind it.
Opened-behind : {p q z : Process} {r : ℤ} → Same p q → Opened q r z → Opened p r z
Opened-behind s o = record {
  later = Later-trans s.later o.later;
  made = elim o.made [ inl e ↦ inl e | inr (e, n) ↦ inr (rw (← s.next_eq) e, rw (← s.next_eq) n) ];
}

Opened-then : {p q z : Process} {r : ℤ} → Opened p r q → Same q z → Opened p r z
Opened-then o s = record {
  later = Later-trans o.later s.later;
  made = elim o.made [ inl e ↦ inl e | inr (e, n) ↦ inr (e, s.next_eq ∙ n) ];
}

failed-Opened : {p q : Process} {r : ℤ} → Opened p r q → Opened p failure q
failed-Opened o = record { later = o.later; made = inl refl }

then-Opened :
    {A : Type 0} {p q : Process} {r : ℤ}
    → Opened p r q
    → (m : Run (A × Process)) → After (λ a z. Same q z) m
    → After (λ a z. Opened p r z) m
then-Opened o (ok a) h = Opened-then o h
then-Opened o blocked h = tt
then-Opened o aborted h = tt
then-Opened o out_of_fuel h = tt

module _ (os : Os) where
  make_socket-Opened :
      (garbage : Addr) (p : Process)
      → Below p.table.next_id p.table.sockets
      → p.table.next_id + 1 < size_mod
      → Opened p (pos (make_socket os garbage p).0) (make_socket os garbage p).1
  unfolding make_socket find
  make_socket-Opened garbage p b room =
      let id = p.table.next_id in
      let missing : find id p.table.sockets ≡ none =
        find-above id id p.table.sockets b (omega arith) in
      let next : (id + 1) % size_mod ≡ id + 1 = omega arith in
      let s = (new_socket os garbage p.world).0 in
      rw (missing, make_socket)
        (record {
          later = record {
            next_le = omega arith;
            below =
                subst (λ n. Below n ((id, s) ∷ p.table.sockets)) (sym next)
                  (omega arith, Below-mono id (id + 1) p.table.sockets (omega arith) b);
            gone = λ j lt e.
                (let test : (id == j) ≡ false = ==_ne id j (λ same. omega arith) in
                  rw (test, find) e);
          };
          made = inr (refl, next);
        })

  pub rcs_close-Same :
      (fd : ℤ) (p : Process)
      → Below p.table.next_id p.table.sockets
      → After (λ r q. Same p q) (rcs_close os fd p)
  unfolding rcs_close destroy_socket get_socket
  rcs_close-Same (negsuc n) p b = record { next_eq = refl; later = Later-refl p b }
  rcs_close-Same (pos id) p b = elim (Option-cases (find id p.table.sockets)) [
    | inl e ↦ rw (rcs_close, get_socket, e) (record { next_eq = refl; later = Later-refl p b })
    | inr (s, e) ↦
        let (a, t, ran, _) = close-Returns os (record { sock = s; world = p.world }) in
        rw (rcs_close, get_socket, e, destroy_socket, e, ran)
          (record {
            next_eq = refl;
            later = record {
              next_le = omega arith;
              below = erase-Below p.table.next_id id p.table.sockets b;
              gone = λ j lt f.
                  find-erase id j p.table.sockets
                  ∙ elim (Bool-cases (id == j)) [ inl t ↦ rw t refl | inr u ↦ rw u f ];
            };
          })
  ]

  -- `accept`, from the new socket on.
  accept_client-Opened :
      (garbage : Addr) (fd : ℤ) (p : Process)
      → Below p.table.next_id p.table.sockets
      → p.table.next_id + 1 < size_mod
      → After (Opened p) (accept_client os garbage fd p)
  unfolding accept_client
  accept_client-Opened garbage fd p b room =
      After-then (Same p) (Opened p) (on_socket fd (get_sock_name os) p) _ (on_socket-Same fd _ p b)
        (λ q s. record { later = s.later; made = inl refl })
        λ name p1 s1.
          let me : Addr = record (name.1) { port = 0 } in
          let p2 = (make_socket os garbage p1).1 in
          let child = pos (make_socket os garbage p1).0 in
          let o =
            Opened-behind s1 (make_socket-Opened garbage p1 s1.later.below (rw s1.next_eq room)) in
          After-then (Opened p child) (Opened p) (on_socket child (bind_socket os (some me)) p2) _
            (then-Opened o (on_socket child (bind_socket os (some me)) p2)
              (on_socket-Same child _ p2 o.later.below))
            (λ q k. failed-Opened k)
            λ b p3 o3.
              After-then (Opened p child) (Opened p) (on_socket fd (wait_for_client os) p3) _
                (then-Opened o3 (on_socket fd (wait_for_client os) p3)
                  (on_socket-Same fd _ p3 o3.later.below))
                (λ q k. failed-Opened k)
                λ from p4 o4.
                  After-then (Opened p child) (Opened p)
                    (on_socket child (modify_sock (set_endpoint from)) p4) _
                    (then-Opened o4 (on_socket child (modify_sock (set_endpoint from)) p4)
                      (on_socket-Same child _ p4 o4.later.below))
                    (λ q k. failed-Opened k)
                    λ u p5 o5.
                      After-then (Opened p child) (Opened p)
                        (on_socket fd (send os (le16 ((bound_addr me b).port))) p5) _
                        (then-Opened o5 (on_socket fd (send os (le16 ((bound_addr me b).port))) p5)
                          (on_socket-Same fd _ p5 o5.later.below))
                        (λ q k. failed-Opened k) λ n p6 o6. o6

  pub rcs_accept-Opened :
      (garbage : Addr) (fd : ℤ) (p : Process)
      → Below p.table.next_id p.table.sockets
      → p.table.next_id + 1 < size_mod
      → After (Opened p) (rcs_accept os garbage fd p)
  unfolding rcs_accept
  rcs_accept-Opened garbage fd p b room =
      let fails : Opened p failure p = record { later = Later-refl p b; made = inl refl } in
      elim (Option-cases (get_socket fd p)) [
        | inl e ↦ rw (rcs_accept, e) fails
        | inr (s, e) ↦
            rw (rcs_accept, e)
              (if-elim (After (Opened p)) (not s.is_listener) (λ _. fails)
                (λ _. accept_client-Opened garbage fd p b room))
      ]

  pub rcs_socket-Opened :
      (garbage : Addr) (p : Process)
      → Below p.table.next_id p.table.sockets
      → p.table.next_id + 1 < size_mod
      → After (Opened p) (rcs_socket os garbage p)
  unfolding rcs_socket
  rcs_socket-Opened garbage p b room = make_socket-Opened garbage p b room
