-- ===== src/Api/Pairs.antt =====
-- a4/rcs_t.cc and a4/rcs.cc: the two sockets that `rcsAccept` works on, call by call.
use ece.Prelude.{
  ◌==◌, ==-refl, ==_ne, if-elim, size_mod, le16, ℕ, zero, suc, ◌+◌, ◌%◌, ◌<◌, ◌≡◌, refl, ap, ◌∙◌,
  ◌≢◌, true, false, not, Option, none, some, List, arith, dec_lt, ℤ, pos, is_negative, is_below,
}
use ece.Net.{Addr, Arrival, Os, World, tick}
use ece.Net.Bind.{with_port, bind_from, bind_in_range, mybind}
use ece.Socket.Low.{set_endpoint}
use ece.Socket.Sender.{send}
use ece.Socket.Methods.{new_socket, bind_socket, get_sock_name}
use ece.Socket.Monad.{Socket, State, Run, ok, M, modify_sock}
use ece.Api.Sockets.{find, put, find-put, Below, find-above, put-Below, Below-mono}
use ece.Api.{Process, get_socket, on_socket, make_socket}
use ece.Api.Accept.{wait_for_client, bound_addr, accept_client, rcs_accept}

bind_from-arrivals :
    (os : Os) (fd : ℤ) (n k : ℕ) (addr : Addr) (w : World)
    → (bind_from os fd n k addr w).2.arrivals ≡ w.arrivals
unfolding bind_from
bind_from-arrivals os fd zero k addr w = refl
bind_from-arrivals os fd (suc n) k addr w =
    if-elim (λ (r : ℕ × Addr × World). r.2.arrivals ≡ w.arrivals)
      (is_negative (os.bind w.clock fd (with_port addr k)))
      (λ _. bind_from-arrivals os fd n (k + 1) (with_port addr k) (tick w)) (λ _. refl)

pub mybind-arrivals :
    (os : Os) (fd : ℤ) (addr : Option Addr) (w : World)
    → (mybind os fd addr w).2.arrivals ≡ w.arrivals
unfolding mybind bind_in_range
mybind-arrivals os fd none w = refl
mybind-arrivals os fd (some addr) w =
    if-elim (λ (r : ℤ × Option Addr × World). r.2.arrivals ≡ w.arrivals) (is_below fd 1) (λ _. refl)
      λ _.
        if-elim (λ (r : ℤ × Option Addr × World). r.2.arrivals ≡ w.arrivals) (not (addr.port == 0))
          (λ _. refl) (λ _. bind_from-arrivals os fd _ _ addr w)

-- Two descriptors that are sockets, what is to arrive, and that the next descriptor is above all in
-- use.
pub record Holds (i j : ℕ) (s c : Socket) (arrivals : List Arrival) (next : ℕ) (p : Process)
    : Type 0 where
  pub first : find i p.table.sockets ≡ some s
  pub second : find j p.table.sockets ≡ some c
  pub waiting : p.world.arrivals ≡ arrivals
  pub next_eq : p.table.next_id ≡ next
  pub below : Below next p.table.sockets

pub Holds-swap :
    {i j : ℕ} {s c : Socket} {arrivals : List Arrival} {next : ℕ} {p : Process}
    → Holds i j s c arrivals next p
    → Holds j i c s arrivals next p
Holds-swap h = record {
  first = h.second;
  second = h.first;
  waiting = h.waiting;
  next_eq = h.next_eq;
  below = h.below;
}

-- A method on the first of them, which may take arrivals.
pub on_socket-Takes :
    {A : Type 0} (i j : ℕ) (s c : Socket) (arrivals rest : List Arrival) (next : ℕ) (p : Process)
    (m : M A) (a : A) (t : State)
    → i ≢ j
    → Holds i j s c arrivals next p
    → m (record { sock = s; world = p.world }) ≡ ok (a, t)
    → t.world.arrivals ≡ rest
    → (q : Process) × (on_socket (pos i) m p ≡ ok (some a, q)) × Holds i j t.sock c rest next q
unfolding on_socket
on_socket-Takes i j s c arrivals rest next p m a t ne h ran left =
    let f = h.first in
    rw (on_socket, f, ran)
      (
        _,
        refl,
        record {
          first = find-put i i t.sock p.table.sockets ∙ rw (==-refl i, f) refl;
          second = find-put i j t.sock p.table.sockets ∙ rw (==_ne i j ne) h.second;
          waiting = left;
          next_eq = h.next_eq;
          below = put-Below next i t.sock p.table.sockets h.below;
        },
      )

-- One that takes no arrival.
pub on_socket-Holds :
    {A : Type 0} (i j : ℕ) (s c : Socket) (arrivals : List Arrival) (next : ℕ) (p : Process)
    (m : M A) (a : A) (t : State)
    → i ≢ j
    → Holds i j s c arrivals next p
    → m (record { sock = s; world = p.world }) ≡ ok (a, t)
    → t.world.arrivals ≡ p.world.arrivals
    → (q : Process) × (on_socket (pos i) m p ≡ ok (some a, q)) × Holds i j t.sock c arrivals next q
on_socket-Holds i j s c arrivals next p m a t ne h ran same =
    on_socket-Takes i j s c arrivals arrivals next p m a t ne h ran (same ∙ h.waiting)

pub found_lt :
    (n i : ℕ) (m : List (ℕ × Socket)) {s : Socket} → Below n m → find i m ≡ some s → i < n
found_lt n i m {s} b f = elim (dec_lt i n) [
  | yes lt ↦ lt
  | no ge ↦ let missing = find-above n i m b (omega arith) in absurd (cc)
]

module _ (os : Os) (garbage : Addr) (id : ℕ) where
  -- The listener and the new socket behind `makeSocket`.
  pub makes-Holds :
      (p : Process) (s : Socket)
      → find id p.table.sockets ≡ some s
      → Below p.table.next_id p.table.sockets
      → p.table.next_id + 1 < size_mod
      → (q : Process) × (make_socket os garbage p ≡ (p.table.next_id, q))
        × Holds id p.table.next_id s
            (new_socket os garbage p.world).0
            p.world.arrivals
            (p.table.next_id + 1)
            q
  unfolding make_socket find new_socket
  makes-Holds p s f b room =
      let n = p.table.next_id in
      let missing : find n p.table.sockets ≡ none =
        find-above n n p.table.sockets b (omega arith) in
      let other : (n == id) ≡ false = let lt = found_lt n id p.table.sockets b f in ground arith in
      let next : (n + 1) % size_mod ≡ n + 1 = omega arith in
      rw (make_socket, missing)
        (
          _,
          refl,
          record {
            first = rw (other, f) refl;
            second = rw (==-refl n) refl;
            waiting = refl;
            next_eq = next;
            below = (omega arith, Below-mono n (n + 1) p.table.sockets (omega arith) b);
          },
        )

  pub named :
      (p : Process) (s : Socket)
      → find id p.table.sockets ≡ some s
      → on_socket (pos id) (get_sock_name os) p
        ≡ ok (
          some (os.getsockname p.world.clock s.ucp_socket),
          record {
            table = record (p.table) { sockets = put id s (p.table.sockets) };
            world = tick p.world;
          },
        )
  unfolding on_socket get_sock_name
  named p s f = rw (on_socket, f) refl

  -- A call of `rcsAccept` by its six calls of methods.
  pub accept_by_calls :
      (p p1 p2 p3 p4 p5 p6 : Process) (s : Socket) (name : ℤ × Addr) (child : ℕ)
      (b : ℤ × Option Addr) (from : Addr) (sent : ℕ)
      → get_socket (pos id) p ≡ some s
      → s.is_listener ≡ true
      → on_socket (pos id) (get_sock_name os) p ≡ ok (some name, p1)
      → make_socket os garbage p1 ≡ (child, p2)
      → on_socket (pos child) (bind_socket os (some (record (name.1) { port = 0 }))) p2
        ≡ ok (some b, p3)
      → on_socket (pos id) (wait_for_client os) p3 ≡ ok (some from, p4)
      → on_socket (pos child) (modify_sock (set_endpoint from)) p4 ≡ ok (some tt, p5)
      → on_socket (pos id) (send os (le16 ((bound_addr (record (name.1) { port = 0 }) b).port))) p5
        ≡ ok (some sent, p6)
      → rcs_accept os garbage (pos id) p ≡ ok (pos child, p6)
  unfolding rcs_accept accept_client
  accept_by_calls p p1 p2 p3 p4 p5 p6 s name child b from sent e listening e1 e2 e3 e4 e5 e6 =
      rw (rcs_accept, e, listening, accept_client, e1, e2, e3, e4)
        (rw (e2, e5)
          (rw e6 (ap {B = Run (ℤ × Process)} (λ (r : ℕ × Process). ok (pos r.0, p6)) e2)))
