-- ===== src/Socket/Quiet.antt =====
-- What one call of `rawsend` or `rawrecv` does to a socket, by what it hears.
use mathlib.Core.Option.{some-injective}
use ece.Prelude.{
  ◌==◌, if◌then◌else◌, Bool-cases, if-elim, ℕ, ◌≡◌, refl, sym, ap, ◌∙◌, inl, inr, Bool, true, false,
  not, ◌&&◌, Option, none, some, List, [], ◌∷◌, arith, ℤ,
}
use ece.Msg.Flags
use ece.Msg.{Msg, deserialize, has_flag, valid}
use ece.Msg.Wire.{wire, buffer_of, byte_count, intact}
use ece.Buffer.{MsgBuffer}
use ece.Net.{Addr, Arrival, datagram, failed, Os, World, tick, eagain}
use ece.Net.Ucp.{ucp_send_to-SameBut}
use ece.Socket.Low.{rawsend, rawrecv, on_arrival, got_packet, adopt_endpoint}
use ece.Socket.Monad.{Socket, State, Run, ok, blocked, bind}

-- The fields of a socket but for the two addresses.
pub record Core : Type 0 where
  pub ucp_socket : ℤ
  pub is_listener : Bool
  pub buffer : MsgBuffer
  pub send_seqnum : ℕ
  pub recv_seqnum : ℕ
  pub is_closing : Bool

abbrev pub core : Socket → Core
core s = record {
  ucp_socket = s.ucp_socket;
  is_listener = s.is_listener;
  buffer = s.buffer;
  send_seqnum = s.send_seqnum;
  recv_seqnum = s.recv_seqnum;
  is_closing = s.is_closing;
}

-- The intact message that an arrival holds, if it holds one.
unfoldable pub heard : Arrival → Option Msg
heard (failed e) = none
heard (datagram d from) =
    if byte_count d == 0
    then none
    else if intact (byte_count d) (deserialize (buffer_of d))
    then some (deserialize (buffer_of d))
    else none

-- `rawsend` asserts this.
abbrev pub sendable : Msg → Bool
sendable m = not (m.length == 0 && m.flags == Flags.none)

-- A run that returned: its value and state, of which something holds.
abbrev pub Returns {κ} : {A : Type 0} → Run (A × State) → (A → State → Type κ) → Type κ
Returns {A} r P = (a : A) × (t : State) × (r ≡ ok (a, t)) × P a t

-- The core is as before, and the arrivals are `rest`.
pub record Left (s t : State) (rest : List Arrival) : Type 0 where
  pub core_eq : core t.sock ≡ core s.sock
  pub arrivals_eq : t.world.arrivals ≡ rest

module _ (os : Os) where
  -- `rawsend` returns for every message that passes its assertion, and takes no arrival.
  pub rawsend-Returns :
      (m : Msg) (s : State)
      → sendable m ≡ true
      → Returns (rawsend os m s) (λ r t. (t.sock ≡ s.sock) × (t.world.arrivals ≡ s.world.arrivals))
  unfolding rawsend
  rawsend-Returns m s h =
      let test : (m.length == 0 && m.flags == Flags.none) ≡ false = ground arith in
      let same = ucp_send_to-SameBut os s.sock.ucp_socket (wire m) s.sock.end_point s.world in
      rw test (_, _, refl, (refl, same.arrivals))

  adopt_endpoint-core :
      (s : State)
      → (core (adopt_endpoint os s).sock ≡ core s.sock) × ((adopt_endpoint os s).world ≡ s.world)
  adopt_endpoint-core s =
      if-elim (λ (t : State). (core t.sock ≡ core s.sock) × (t.world ≡ s.world)) s.sock.has_endpoint
        (λ _. (refl, refl)) (λ _. (refl, refl))

  -- What `rawrecv` comes to at an arrival that is no intact message: no number and message that
  -- pass the test, if `*out` did not.
  abbrev Unheard : State → List Arrival → ℕ × Msg → State → Type 0
  Unheard s rest r t = (intact r.0 r.1 ≡ false) × Left s t rest

  adopted-Left :
      (s t : State) (rest : List Arrival)
      → core t.sock ≡ core s.sock
      → t.world.arrivals ≡ rest
      → Left s (adopt_endpoint os t) rest
  adopted-Left s t rest c a =
      let (same, w) = adopt_endpoint-core t in
      record { core_eq = same ∙ c; arrivals_eq = ap (λ (v : World). v.arrivals) w ∙ a }

  invalid-intact : (n : ℕ) (m : Msg) → valid m ≡ false → intact n m ≡ false
  unfolding intact
  invalid-intact n m h = rw h refl

  datagram-Unheard :
      (out : Msg) (d : List ℕ) (from : Addr) (s t : State) (rest : List Arrival)
      → valid out ≡ false
      → heard (datagram d from) ≡ none
      → core t.sock ≡ core s.sock
      → t.world.arrivals ≡ rest
      → Returns (on_arrival os out (datagram d from) t) (Unheard s rest)
  unfolding on_arrival got_packet heard
  datagram-Unheard out d from s t rest bad h c a =
      let n = byte_count d in
      let m = deserialize (buffer_of d) in
      elim (Bool-cases (n == 0)) [
        | inl e ↦ rw e (_, _, refl, (invalid-intact _ out bad, adopted-Left s _ rest c a))
        | inr e ↦ elim (Bool-cases (intact n m)) [
          | inl i ↦ let h' : heard (datagram d from) ≡ some m = rw (e, i) refl in absurd (cc)
          | inr i ↦ rw (e, i, got_packet) (_, _, refl, (i, adopted-Left s _ rest c a))
        ]
      ]

  abbrev pub received : State → List Arrival → State
  received s rest = record s { world = record (tick s.world) { arrivals = rest } }

  -- `rawrecv` takes the first arrival.
  pub rawrecv-arrival :
      (out : Msg) (a : Arrival) (s : State) (rest : List Arrival)
      → s.world.arrivals ≡ a ∷ rest
      → rawrecv os out s ≡ on_arrival os out a (received s rest)
  unfolding rawrecv
  rawrecv-arrival out a s rest queue =
      ap {B = Run ((ℕ × Msg) × State)}
        (λ (q : List Arrival). elim q [
          | [] ↦ blocked
          | b ∷ more ↦ on_arrival os out b (received s more)
        ])
        queue

  on_arrival-Unheard :
      (out : Msg) (a : Arrival) (s : State) (rest : List Arrival)
      → valid out ≡ false
      → heard a ≡ none
      → Returns (on_arrival os out a (received s rest)) (Unheard s rest)
  unfolding on_arrival
  on_arrival-Unheard out (failed e) s rest bad h =
      (_, _, refl, (invalid-intact _ out bad, adopted-Left s _ rest refl refl))
  on_arrival-Unheard out (datagram d from) s rest bad h =
      datagram-Unheard out d from s (received s rest) rest bad h refl refl

  -- At anything else than an intact message `rawrecv` returns, its result and message do not pass
  -- the test, and the socket is as before.
  pub rawrecv-Unheard :
      (out : Msg) (a : Arrival) (s : State) (rest : List Arrival)
      → valid out ≡ false
      → s.world.arrivals ≡ a ∷ rest
      → heard a ≡ none
      → Returns (rawrecv os out s) (Unheard s rest)
  rawrecv-Unheard out a s rest bad queue h =
      rw (rawrecv-arrival out a s rest queue) (on_arrival-Unheard out a s rest bad h)

  -- What it comes to at an intact message.
  abbrev Heard : Msg → State → List Arrival → ℕ × Msg → State → Type 0
  Heard m s rest r t = (intact r.0 r.1 ≡ true) × ((r.0 == 0) ≡ false) × (r.1 ≡ m) × Left s t rest

  on_arrival-heard :
      (out : Msg) (a : Arrival) (m : Msg) (s : State) (rest : List Arrival)
      → heard a ≡ some m
      → has_flag m Flags.fin ≡ false
      → Returns (on_arrival os out a (received s rest)) (Heard m s rest)
  unfolding on_arrival heard got_packet
  on_arrival-heard out (failed e) m s rest h fin = cc
  on_arrival-heard out (datagram d from) m s rest h fin =
      let n = byte_count d in
      let got = deserialize (buffer_of d) in
      elim (Bool-cases (n == 0)) [
        | inl e ↦ let h' : heard (datagram d from) ≡ none = rw e refl in absurd (cc)
        | inr e ↦ elim (Bool-cases (intact n got)) [
          | inl i ↦
              let h' : heard (datagram d from) ≡ some got = rw (e, i) refl in
              let same : got ≡ m = some-injective got m (sym h' ∙ h) in
              let f : has_flag got Flags.fin ≡ false = rw same fin in
              rw (e, got_packet, i, f) (_, _, refl, (i, e, same, adopted-Left s _ rest refl refl))
          | inr i ↦ let h' : heard (datagram d from) ≡ none = rw (e, i) refl in absurd (cc)
        ]
      ]

  -- At an intact message that is not FIN `rawrecv` returns that message and a result that passes
  -- the test, and the socket is as before.
  pub rawrecv-heard :
      (out : Msg) (a : Arrival) (m : Msg) (s : State) (rest : List Arrival)
      → s.world.arrivals ≡ a ∷ rest
      → heard a ≡ some m
      → has_flag m Flags.fin ≡ false
      → Returns (rawrecv os out s) (Heard m s rest)
  rawrecv-heard out a m s rest queue h fin =
      rw (rawrecv-arrival out a s rest queue) (on_arrival-heard out a m s rest h fin)

-- A run after a run that returned.
pub Returns-bind {κ ρ} :
    {A B : Type 0} (m : Run (A × State)) (f : A → State → Run (B × State)) {P : A → State → Type κ}
    {Q : B → State → Type ρ}
    → Returns m P
    → ((a : A) (t : State) → P a t → Returns (f a t) Q)
    → Returns (bind m (λ r. f r.0 r.1)) Q
Returns-bind m f (a, t, e, p) k = rw e (k a t p)

pub Left-trans : {s t u : State} {q r : List Arrival} → Left s t q → Left t u r → Left s u r
Left-trans h k = record { core_eq = k.core_eq ∙ h.core_eq; arrivals_eq = k.arrivals_eq }

module _ (os : Os) where
  -- At a timeout `rawrecv` returns 0, and the socket is as before.
  pub rawrecv-timeout :
      (out : Msg) (s : State) (rest : List Arrival)
      → s.world.arrivals ≡ failed eagain ∷ rest
      → Returns (rawrecv os out s) (λ r t. (r.0 ≡ 0) × Left s t rest)
  rawrecv-timeout out s rest queue =
      rw (rawrecv-arrival os out (failed eagain) s rest queue)
        (unfold on_arrival in (_, _, refl, (refl, adopted-Left os s _ rest refl refl)))

  -- With no arrival left it waits.
  pub rawrecv-blocked : (out : Msg) (s : State) → s.world.arrivals ≡ [] → rawrecv os out s ≡ blocked
  unfolding rawrecv
  rawrecv-blocked out s queue =
      ap {B = Run ((ℕ × Msg) × State)}
        (λ (q : List Arrival). elim q [
          | [] ↦ blocked
          | b ∷ more ↦ on_arrival os out b (received os s more)
        ])
        queue
