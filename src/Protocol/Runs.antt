-- ===== src/Protocol/Runs.antt =====
-- a4/rcs_t.cc: a run of `send` is a sequence of the sender's rounds.
use ece.Prelude.{
  ltb, if◌then◌else◌, Option-cases, length, All, ℕ, zero, suc, ◌+◌, ◌*◌, ◌≤◌, ◌<◌, ◌≡◌, refl, sym,
  ap, subst, ◌∙◌, inl, inr, Bool, true, false, not, ◌&&◌, Option, List, arith, dec_lt,
}
use ece.Msg.Flags
use ece.Msg.{Msg, control_msg}
use ece.Net.{Os}
use ece.Socket.Monad.{State, ok, aborted, bind, asserted}
use ece.Socket.Sender.{acksend, chunk_msg, send_chunk, send_loop, send_eos, send}
use ece.Socket.Sending.{rounds}
use ece.Socket.Chunks.{IsMemory}
use ece.Protocol.Kept.{NotFin}
use ece.Protocol.Messages.{Made}
use ece.Protocol.Steps.{advance, goes_on, returns}
use ece.Protocol.Acking.{
  Moves, done, move, Moves-trans, ok-bind, bind_assoc, ok-injective, finished, IsOpen, Acked,
  acksend-Acked,
}

module _ (near : Os) (bytes : List ℕ) where
  -- The run of `send` from message `i` on.
  record Finishes (i : ℕ) (s t : State) : Type 0 where
    first : Msg
    last : Msg
    made : Made bytes i s.sock.send_seqnum first
    moves : Moves near bytes i first s (rounds (length bytes) + 1) last t

  send_eos-Finishes :
      (memory : (t : ℕ) → IsMemory (near.memory t)) {s t : State}
      → IsOpen s
      → send_eos near s ≡ ok (tt, t)
      → Finishes (rounds (length bytes)) s t
  unfolding send_eos
  send_eos-Finishes memory {s} {t} o e =
      let m = control_msg (near.memory s.world.clock) s.sock.send_seqnum Flags.eos in
      let sent : bind (acksend near m s) (λ r. ok (tt, r.1)) ≡ ok (tt, t) =
        subst
          (λ (c : Bool).
            (if c then finished s else bind (acksend near m s) (λ r. finished r.1)) ≡ finished t)
          o.unclosed e in
      let (a, run, rest) = ok-bind (acksend near m s) (λ r. ok (tt, r.1)) (tt, t) sent in
      let same : a.1 ≡ t = ap (λ (q : Unit {0} × State). q.1) (ok-injective rest) in
      let k = acksend-Acked near bytes m (omega arith) o run in
      record {
        first = m;
        last = m;
        made = (near.memory s.world.clock, memory s.world.clock, inr (refl, refl));
        moves =
            subst (Moves near bytes (rounds (length bytes)) m s (rounds (length bytes) + 1) m) same
              (Moves-trans k.rounds_run (move (returns refl k.last_round) done));
      }

  never : {t : State} → aborted ≡ finished t → ⊥
  never e = cc

  -- The body of the loop of `send`, at message `i`.
  record Chunk (i : ℕ) (s t : State) : Type 0 where
    first : Msg
    made : Made bytes i s.sock.send_seqnum first
    acked_at : State
    acked : Acked near bytes i first s acked_at
    advanced : t ≡ advance acked_at

  send_chunk-Chunk :
      (memory : (t : ℕ) → IsMemory (near.memory t)) (i : ℕ) {s t : State}
      → i < rounds (length bytes)
      → IsOpen s
      → send_chunk near bytes (500 * i) s ≡ ok (tt, t)
      → Chunk i s t
  unfolding send_chunk
  send_chunk-Chunk memory i {s} {t} lt o e =
      let garbage = near.memory s.world.clock in
      let then_sent : Option Msg → Type 0 = λ c.
        bind (asserted c s) (λ r. bind (acksend near r.0 r.1) (λ q. finished (advance q.1)))
        ≡ finished t in
      elim (Option-cases (chunk_msg garbage s.sock.send_seqnum bytes (500 * i))) [
        | inl none_made ↦ absurd (never (subst then_sent none_made e))
        | inr (m, some_made) ↦
            let sent = subst then_sent some_made e in
            let (a, run, rest) =
              ok-bind (acksend near m s) (λ r. ok (tt, advance r.1)) (tt, t) sent in
            record {
              first = m;
              made = (garbage, memory s.world.clock, inl (lt, some_made));
              acked_at = a.1;
              acked = acksend-Acked near bytes m (omega arith) o run;
              advanced = sym (ap (λ (q : Unit {0} × State). q.1) (ok-injective rest));
            }
      ]

  send_loop-Finishes :
      (memory : (t : ℕ) → IsMemory (near.memory t)) (fuel i : ℕ) {s t : State}
      → i ≤ rounds (length bytes)
      → IsOpen s
      → bind (send_loop near fuel bytes (500 * i) s) (λ r. send_eos near r.1) ≡ ok (tt, t)
      → Finishes i s t
  unfolding send_loop
  send_loop-Finishes memory zero i le o e = absurd (cc)
  send_loop-Finishes memory (suc fuel) i {s} {t} le o e = elim (dec_lt i (rounds (length bytes))) [
    | yes lt ↦
        let goes : (ltb (500 * i) (length bytes) && not s.sock.is_closing) ≡ true =
          rw o.unclosed (ground arith) in
        let chunked =
          subst
            (λ (c : Bool).
              bind
                (elim c [
                  | true ↦
                      bind (send_chunk near bytes (500 * i) s)
                        (λ r. send_loop near fuel bytes (500 * i + 500) r.1)
                  | false ↦ finished s
                ])
                (λ r. send_eos near r.1)
              ≡ finished t)
            goes e in
        let (c, ran, later) =
          ok-bind (send_chunk near bytes (500 * i) s) _ (tt, t)
            (sym (bind_assoc (send_chunk near bytes (500 * i) s) _ (λ r. send_eos near r.1))
              ∙ chunked) in
        let ch = send_chunk-Chunk memory i lt o ran in
        let from_next : bind (send_loop near fuel bytes (500 * (i + 1)) (advance ch.acked_at))
              (λ r. send_eos near r.1)
            ≡ finished t =
          let more : 500 * (i + 1) ≡ 500 * i + 500 = omega arith in
          rw (more, ← ch.advanced) later in
        let still : IsOpen (advance ch.acked_at) = record {
          unclosed = ch.acked.open_still.unclosed;
          no_fin = ch.acked.open_still.no_fin;
        } in
        let f = send_loop-Finishes memory fuel (i + 1) (omega arith) still from_next in
        record {
          first = ch.first;
          last = f.last;
          made = ch.made;
          moves =
              Moves-trans ch.acked.rounds_run
                (move (goes_on f.first lt ch.acked.last_round f.made) f.moves);
        }
    | no ge ↦
        let ends : (ltb (500 * i) (length bytes) && not s.sock.is_closing) ≡ false = ground arith in
        let at_end : i ≡ rounds (length bytes) = omega arith in
        let eos =
          subst
            (λ (c : Bool).
              bind
                (elim c [
                  | true ↦
                      bind (send_chunk near bytes (500 * i) s)
                        (λ r. send_loop near fuel bytes (500 * i + 500) r.1)
                  | false ↦ finished s
                ])
                (λ r. send_eos near r.1)
              ≡ finished t)
            ends e in
        subst (λ (k : ℕ). Finishes k s t) (sym at_end) (send_eos-Finishes memory o eos)
  ]

  -- Every run of `send` that returns, on an open socket that hears no FIN, is a sequence of the
  -- sender's moves, from its first message to behind its last; what uninitialised memory holds are
  -- 500 bytes.
  pub send-Moves :
      (r : ℕ) (s t : State)
      → ((t : ℕ) → IsMemory (near.memory t))
      → s.sock.is_closing ≡ false
      → All NotFin s.world.arrivals
      → send near bytes s ≡ ok (r, t)
      → (r ≡ length bytes)
        × (first : Msg) × (last : Msg) × Made bytes 0 0 first
        × Moves near bytes 0 first
            (record s { sock = record (s.sock) { send_seqnum = 0 } })
            (rounds (length bytes) + 1)
            last
            t
  unfolding send
  send-Moves r s t memory open_ no_fin e =
      let s0 = record s { sock = record (s.sock) { send_seqnum = 0 } } in
      let o : IsOpen s0 = record { unclosed = open_; no_fin = no_fin } in
      let (a, looped, later) =
        ok-bind (send_loop near (suc (length bytes)) bytes 0 s0)
          (λ q. bind (send_eos near q.1) (λ p. ok (length bytes, p.1))) (r, t) e in
      let (b, ended, last_) =
        ok-bind (send_eos near a.1) (λ p. ok (length bytes, p.1)) (r, t) later in
      let same : b.1 ≡ t = ap (λ (q : ℕ × State). q.1) (ok-injective last_) in
      let whole : bind (send_loop near (suc (length bytes)) bytes 0 s0) (λ q. send_eos near q.1)
          ≡ finished t =
        rw (looped, ended) (ap finished same) in
      let f = send_loop-Finishes memory (suc (length bytes)) 0 (omega arith) o whole in
      (sym (ap (λ (q : ℕ × State). q.0) (ok-injective last_)), f.first, f.last, f.made, f.moves)
