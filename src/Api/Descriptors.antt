-- ===== src/Api/Descriptors.antt =====
-- The descriptors that `rcsSocket` gives out and `rcsClose` ends.
use ece.Prelude.{
  ◌==◌, ==-refl, ==_ne, size_mod, ℕ, zero, suc, ◌+◌, ◌%◌, ◌<◌, ◌≡◌, refl, sym, ap, subst, ◌∙◌, ◌≢◌,
  true, false, none, some, ◌∷◌, arith, pos,
}
use ece.Msg.Flags
use ece.Msg.{control_msg}
use ece.Net.{Addr, Os}
use ece.Socket.Low.{rawsend, send_fins, fin_count, close}
use ece.Socket.Methods.{new_socket}
use ece.Socket.Monad.{Socket, State, ok}
use ece.Socket.Quiet.{Returns, Returns-bind, rawsend-Returns}
use ece.Api.Sockets.{find, find-erase, Below, find-above, erase-Below, Below-mono}
use ece.Api.{Process, get_socket, make_socket, destroy_socket, rcs_socket, rcs_close}

-- Every descriptor in the map is below the next one, and the next one has a successor.
pub record IsProcess (p : Process) : Type 0 where
  pub below : Below p.table.next_id p.table.sockets
  pub room : p.table.next_id + 1 < size_mod

module _ (os : Os) where
  -- The loop of `close` ends, and leaves the socket as it is.
  send_fins-Returns : (n : ℕ) (s : State) → Returns (send_fins os n s) (λ _ t. t.sock ≡ s.sock)
  unfolding send_fins
  send_fins-Returns zero s = (_, _, refl, refl)
  send_fins-Returns (suc n) s =
      let m = control_msg (os.memory s.world.clock) 666 Flags.fin in
      Returns-bind (rawsend os m s) (λ _ t. send_fins os n t)
        (rawsend-Returns os m s (unfold control_msg in refl))
        λ _ t e. let (a, u, r, q) = send_fins-Returns n t in (a, u, r, q ∙ e.0)

  pub close-Returns : (s : State) → Returns (close os s) (λ _ t. t.sock.is_closing ≡ true)
  unfolding close
  close-Returns s =
      let t = record s { sock = record (s.sock) { is_closing = true } } in
      let (a, u, r, q) = send_fins-Returns (fin_count os) t in
      rw r (_, _, refl, ap (λ (v : Socket). v.is_closing) q)

  -- If the next descriptor is above all in use, `rcsSocket` returns it. It was no socket before,
  -- it is one now, which is not closing and expects sequence number 0, and every other descriptor
  -- is what it was.
  pub rcs_socket-fresh :
      (garbage : Addr) (p : Process)
      → IsProcess p
      → (q : Process) × (rcs_socket os garbage p ≡ ok (pos p.table.next_id, q))
        × (get_socket (pos p.table.next_id) p ≡ none)
        × ((s : Socket) × (get_socket (pos p.table.next_id) q ≡ some s)
            × (s.is_closing ≡ false)
            × (s.recv_seqnum ≡ 0))
        × ((j : ℕ) → j ≢ p.table.next_id → get_socket (pos j) q ≡ get_socket (pos j) p)
        × (q.table.next_id ≡ p.table.next_id + 1)
        × Below q.table.next_id q.table.sockets
  unfolding rcs_socket make_socket get_socket find new_socket
  rcs_socket-fresh garbage p h =
      let id = p.table.next_id in
      let missing : find id p.table.sockets ≡ none =
        find-above id id p.table.sockets h.below (omega arith) in
      let next : (id + 1) % size_mod ≡ id + 1 = (let r = h.room in omega arith) in
      rw (missing, make_socket)
        (
          _,
          refl,
          refl,
          ((new_socket os garbage p.world).0, rw (==-refl id) refl, refl, refl),
          (λ j ne.
              let test : (id == j) ≡ false = ==_ne id j (λ e. ne (sym e)) in rw (test, find) refl),
          next,
          subst (λ n. Below n ((id, (new_socket os garbage p.world).0) ∷ p.table.sockets))
              (sym next)
              (omega arith, Below-mono id (id + 1) p.table.sockets (omega arith) h.below),
        )

  -- `rcsClose` of a socket always returns 0. Its descriptor is no socket from then on, every other
  -- descriptor is what it was, and the next descriptor is the same, still above all in use.
  pub rcs_close-forgets :
      (id : ℕ) (s : Socket) (p : Process)
      → get_socket (pos id) p ≡ some s
      → Below p.table.next_id p.table.sockets
      → (q : Process) × (rcs_close os (pos id) p ≡ ok (pos 0, q))
        × (get_socket (pos id) q ≡ none)
        × ((j : ℕ) → j ≢ id → get_socket (pos j) q ≡ get_socket (pos j) p)
        × (q.table.next_id ≡ p.table.next_id)
        × Below q.table.next_id q.table.sockets
  unfolding rcs_close destroy_socket get_socket
  rcs_close-forgets id s p e b =
      let m = p.table.sockets in
      let (_, t, r, _) = close-Returns (record { sock = s; world = p.world }) in
      let f : find id m ≡ some s = e in
      rw (rcs_close, get_socket, f, destroy_socket, f, r)
        (
          _,
          refl,
          find-erase id id m ∙ rw (==-refl id) refl,
          (λ j ne. find-erase id j m ∙ rw (==_ne id j (λ q. ne (sym q))) refl),
          refl,
          erase-Below p.table.next_id id m b,
        )
