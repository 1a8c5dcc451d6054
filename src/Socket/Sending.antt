-- ===== src/Socket/Sending.antt =====
-- `rcs_t::send`: it sends the data in messages of up to 500 bytes and an end-of-send message, each
-- until it is acknowledged.
use ece.Prelude.{
  ltb, ◌==◌, lt→ltb, ge→ltb, ==_ne, length, drop, All, u16_mod, ℕ, zero, suc, ◌+◌, ◌-◌, ◌/◌, ◌%◌,
  ◌<◌, min, ◌≡◌, refl, ap, ◌∙◌, true, false, not, ◌&&◌, List, ◌∷◌, ◌++◌, arith,
}
use ece.Msg.Flags
use ece.Msg.{control_msg, max_data_length}
use ece.Msg.Validity.{data_msg-small, filled}
use ece.Net.{Arrival, Os}
use ece.Socket.Sender.{acksend, send_chunk, send_loop, send_eos, send}
use ece.Socket.Monad.{State, ok, bind}
use ece.Socket.Quiet.{Core, core, sendable, Returns, Left, Returns-bind}
use ece.Socket.Acks.{Ignored, Acks, acksend-acked}

-- The first arrivals, up to `rest`, acknowledge `n` messages in turn, from number `seqnum` on.
abbrev pub Acked : ℕ → ℕ → List Arrival → List Arrival → Type 0
Acked zero seqnum queue rest = queue ≡ rest
Acked (suc n) seqnum queue rest =
    (junk : List Arrival) × (a : Arrival) × (more : List Arrival) × (queue ≡ junk ++ (a ∷ more))
    × All (Ignored seqnum) junk
    × Acks seqnum a
    × Acked n ((seqnum + 1) % u16_mod) more rest

-- The number of messages that `left` bytes take.
abbrev pub rounds : ℕ → ℕ
rounds left = (left + 499) / 500

-- The socket is as before but for the addresses and the next sequence number to send.
pub record Advanced (s t : State) (seqnum : ℕ) (rest : List Arrival) : Type 0 where
  pub core_eq : core t.sock ≡ record (core s.sock) { send_seqnum = seqnum }
  pub arrivals_eq : t.world.arrivals ≡ rest

Advanced-trans :
    {s t u : State} {m n : ℕ} {q r : List Arrival}
    → Advanced s t m q
    → Advanced t u n r
    → Advanced s u n r
Advanced-trans {n} h k = record {
  core_eq = k.core_eq ∙ ap (λ (c : Core). record c { send_seqnum = n }) h.core_eq;
  arrivals_eq = k.arrivals_eq;
}

-- The sequence number behind `n` messages.
abbrev pub after : ℕ → ℕ → ℕ
after zero seqnum = seqnum
after (suc n) seqnum = after n ((seqnum + 1) % u16_mod)

pub after-eq : (n seqnum : ℕ) → seqnum < u16_mod → after n seqnum ≡ (seqnum + n) % u16_mod
after-eq zero seqnum h = omega arith
after-eq (suc n) seqnum h = omega (arith, after-eq n ((seqnum + 1) % u16_mod) (omega arith))

-- The last of the acknowledgements, apart.
Acked-last :
    (n seqnum : ℕ) (queue rest : List Arrival)
    → Acked (suc n) seqnum queue rest
    → (mid : List Arrival) × Acked n seqnum queue mid × Acked 1 (after n seqnum) mid rest
Acked-last zero seqnum queue rest h = (queue, refl, h)
Acked-last (suc n) seqnum queue rest (junk, a, more, e, ignored, acks, h) =
    let (mid, first, last) = Acked-last n ((seqnum + 1) % u16_mod) more rest h in
    (mid, (junk, a, more, e, ignored, acks, first), last)

module _ (os : Os) where
  send_chunk-acked :
      (bytes : List ℕ) (processed : ℕ) (s : State) (junk : List Arrival) (a : Arrival)
      (rest : List Arrival)
      → processed < length bytes
      → s.sock.is_closing ≡ false
      → s.world.arrivals ≡ junk ++ (a ∷ rest)
      → All (Ignored s.sock.send_seqnum) junk
      → Acks s.sock.send_seqnum a
      → Returns
          (send_chunk os bytes processed s)
          (λ r t. Advanced s t ((s.sock.send_seqnum + 1) % u16_mod) rest)
  unfolding send_chunk
  send_chunk-acked bytes processed s junk a rest more open_ queue ignored acks =
      let garbage = os.memory s.world.clock in
      let len = min (length bytes - processed) max_data_length in
      let src = drop processed bytes in
      let msg = filled garbage s.sock.send_seqnum src len Flags.none in
      let made = data_msg-small garbage s.sock.send_seqnum src len Flags.none (omega arith) in
      let nonempty : (len % u16_mod == 0) ≡ false = ==_ne (len % u16_mod) 0 (omega arith) in
      let fits : sendable msg ≡ true = rw nonempty refl in
      rw made (
        Returns-bind (acksend os msg s)
          (λ r t. ok (
            tt,
            record t {
              sock = record (t.sock) { send_seqnum = (t.sock.send_seqnum + 1) % u16_mod };
            },
          ))
          (acksend-acked os msg s junk a rest fits open_ queue ignored acks)
          λ r t (same, l). (
            tt,
            _,
            refl,
            record {
              core_eq =
                  ap (λ (c : Core). record c { send_seqnum = (c.send_seqnum + 1) % u16_mod })
                    l.core_eq;
              arrivals_eq = l.arrivals_eq;
            },
          ))

  send_loop-Acked :
      (n fuel : ℕ) (bytes : List ℕ) (processed : ℕ) (s : State) (rest : List Arrival)
      → n ≡ rounds (length bytes - processed)
      → n < fuel
      → s.sock.is_closing ≡ false
      → Acked n s.sock.send_seqnum s.world.arrivals rest
      → Returns
          (send_loop os fuel bytes processed s)
          (λ r t. Advanced s t (after n s.sock.send_seqnum) rest)
  unfolding send_loop
  send_loop-Acked n zero bytes processed s rest left enough open_ acked = absurd (omega arith)
  send_loop-Acked zero (suc fuel) bytes processed s rest left enough open_ acked =
      let test : ltb processed (length bytes) ≡ false =
        ge→ltb processed (length bytes) (omega arith) in
      let cond : (ltb processed (length bytes) && not s.sock.is_closing) ≡ false = rw test refl in
      rw (cond, send_loop) (tt, s, refl, record { core_eq = refl; arrivals_eq = acked })
  send_loop-Acked (suc n) (suc fuel) bytes processed s rest left enough open_
        (junk, a, more, queue, ignored, acks, acked) =
      let test : ltb processed (length bytes) ≡ true =
        lt→ltb processed (length bytes) (omega arith) in
      let cond : (ltb processed (length bytes) && not s.sock.is_closing) ≡ true =
        rw (test, open_) refl in
      rw (cond, send_loop)
        (Returns-bind (send_chunk os bytes processed s)
          (λ r t. send_loop os fuel bytes (processed + max_data_length) t)
          (send_chunk-acked bytes processed s junk a more (omega arith) open_ queue ignored acks)
          λ r t adv.
            let seq : t.sock.send_seqnum ≡ (s.sock.send_seqnum + 1) % u16_mod =
              ap (λ (c : Core). c.send_seqnum) adv.core_eq in
            let still : t.sock.is_closing ≡ false =
              ap (λ (c : Core). c.is_closing) adv.core_eq ∙ open_ in
            let (u, v, e, k) =
              send_loop-Acked n fuel bytes (processed + max_data_length) t rest (omega arith)
                (omega arith) still (rw (seq, adv.arrivals_eq) acked) in
            (u, v, e, rw seq at (Advanced-trans adv k)))

  send_eos-open :
      (s : State)
      → s.sock.is_closing ≡ false
      → send_eos os s
        ≡ bind
            (acksend os (control_msg (os.memory s.world.clock) s.sock.send_seqnum Flags.eos) s)
            (λ r. ok (tt, r.1))
  unfolding send_eos
  send_eos-open s open_ = rw (open_, send_eos) refl

  send_eos-acked :
      (s : State) (junk : List Arrival) (a : Arrival) (rest : List Arrival)
      → s.sock.is_closing ≡ false
      → s.world.arrivals ≡ junk ++ (a ∷ rest)
      → All (Ignored s.sock.send_seqnum) junk
      → Acks s.sock.send_seqnum a
      → Returns (send_eos os s) (λ r t. Left s t rest)
  send_eos-acked s junk a rest open_ queue ignored acks =
      let msg = control_msg (os.memory s.world.clock) s.sock.send_seqnum Flags.eos in
      rw (send_eos-open s open_) (
        Returns-bind (acksend os msg s) (λ r t. ok (tt, t))
          (acksend-acked os msg s junk a rest (unfold control_msg in refl) open_ queue
            (unfold control_msg in ignored) (unfold control_msg in acks))
          λ r t (same, l). (tt, t, refl, l))

  pub send-Acked :
      (bytes : List ℕ) (s : State) (rest : List Arrival)
      → s.sock.is_closing ≡ false
      → Acked (suc (rounds (length bytes))) 0 s.world.arrivals rest
      → Returns
          (send os bytes s)
          (λ r t. (r ≡ length bytes) × Advanced s t (rounds (length bytes) % u16_mod) rest)
  unfolding send
  send-Acked bytes s rest open_ acked =
      let n = rounds (length bytes) in
      let s0 = record s { sock = record (s.sock) { send_seqnum = 0 } } in
      let (mid, first, (junk, a, more, queue, ignored, acks, last)) =
        Acked-last n 0 s.world.arrivals rest acked in
      Returns-bind (send_loop os (suc (length bytes)) bytes 0 s0)
        (λ r t. bind (send_eos os t) (λ q. ok (length bytes, q.1)))
        (send_loop-Acked n (suc (length bytes)) bytes 0 s0 mid (omega arith) (omega arith) open_
          first)
        λ r t adv.
          let still : t.sock.is_closing ≡ false =
            ap (λ (c : Core). c.is_closing) adv.core_eq ∙ open_ in
          let seq : t.sock.send_seqnum ≡ after n 0 = ap (λ (c : Core). c.send_seqnum) adv.core_eq in
          let num : after n 0 ≡ n % u16_mod = omega (arith, after-eq n 0) in
          Returns-bind (send_eos os t) (λ q u. ok (length bytes, u))
            (send_eos-acked t junk a more still (adv.arrivals_eq ∙ queue) (rw seq ignored)
              (rw seq acks))
            λ q u l. (
              _,
              u,
              refl,
              (
                refl,
                record {
                  core_eq = l.core_eq ∙ rw (← num) adv.core_eq;
                  arrivals_eq = l.arrivals_eq ∙ last;
                },
              ),
            )
