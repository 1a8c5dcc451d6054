-- ===== src/Buffer/Copy.antt =====
-- The turn of `msg_buffer_t::read` that copies bytes of the front message.
use ece.Prelude.{
  ltb, leb, if◌then◌else◌, length, take, drop, length-take, length-drop, drop_all, drop-drop,
  drop-append_left, take-drop-take, drop-map, length-map, add_size, sub_size, ℕ, ◌+◌, ◌-◌, ◌≤◌, ◌<◌,
  min, ◌≡◌, refl, subst, inr, true, false, ◌||◌, List, [], ◌∷◌, ◌++◌, map, arith, dec_lt,
}
use ece.Msg.Flags
use ece.Msg.{Msg, has_flag}
use ece.Buffer.{Reading, copy}
use ece.Buffer.Tokens.{Token, byte, stream, taken, taken-advance}
use ece.Buffer.Promise.{IsReading, Goes, todo, promised, at, StartsIn-zero}

module _ (s : Reading) (m : Msg) (ms : List Msg) (v : IsReading (at s (m ∷ ms)))
    (e : has_flag m Flags.eos ≡ false) where
  -- The number of bytes that one turn copies, and the data that is left of the message.
  abbrev copied : ℕ
  copied = min s.remaining (m.length - s.offset)

  abbrev unread : List ℕ
  unread = drop s.offset (take m.length m.payload)

  offset-le : s.offset ≤ m.length
  offset-le = ground (arith, v.starts)

  length-unread : length unread ≡ m.length - s.offset
  length-unread = omega (
    arith,
    length-drop s.offset (take m.length m.payload),
    length-take m.length m.payload,
    v.stored.0.0,
    v.stored.0.1,
  )

  todo_before : todo (at s (m ∷ ms)) ≡ map byte unread ++ stream ms
  todo_before =
      rw
        (
          e,
          drop-append_left s.offset (map byte (take m.length m.payload)) (stream ms) (
              omega (
                arith,
                offset-le,
                v.stored.0.0,
                v.stored.0.1,
                length-map byte (take m.length m.payload),
                length-take m.length m.payload,
              )),
          drop-map s.offset byte (take m.length m.payload),
        )
        refl

  -- The loop's variables after the turn: the message is read to its end, or goes on.
  abbrev popped : Reading
  popped = record {
    queue = ms;
    offset = 0;
    remaining = s.remaining - copied;
    written = s.written + copied;
    dest = s.dest ++ take copied (drop s.offset m.payload);
  }

  abbrev kept : Reading
  kept = record popped { queue = m ∷ ms; offset = s.offset + copied }

  copy-eq : copy (at s (m ∷ ms)) m ms ≡ (if leb m.length (s.offset + copied) then popped else kept)
  unfolding copy
  copy-eq =
      let small : m.length ≤ 500 = v.stored.0.0 in
      let a : sub_size m.length s.offset ≡ m.length - s.offset = omega (arith, offset-le) in
      let b : add_size s.offset copied ≡ s.offset + copied = omega (arith, offset-le) in
      let c : sub_size s.remaining copied ≡ s.remaining - copied = omega (arith, v.fits) in
      let d : add_size s.written copied ≡ s.written + copied = omega (arith, v.fits) in
      rw (a, b, c, d) (ground arith)

  abbrev promise_after : List ℕ × List Token
  promise_after =
      taken (s.remaining - copied) (map byte (drop copied unread) ++ stream ms)
        (ltb 0 (s.written + copied))

  promise_before :
      promised (at s (m ∷ ms))
      ≡ (take copied (drop s.offset m.payload) ++ promise_after.0, promise_after.1)
  promise_before =
      let w : (ltb 0 s.written || ltb 0 copied) ≡ ltb 0 (s.written + copied) = ground arith in
      let t : take copied unread ≡ take copied (drop s.offset m.payload) =
        take-drop-take copied s.offset m.length m.payload (omega (arith, offset-le)) in
      rw
        (
          todo_before,
          taken-advance copied s.remaining unread (stream ms) (ltb 0 s.written) (omega arith)
              (omega (arith, length-unread)),
          w,
          t,
        )
        refl

  promise_via :
      {ts : List Token}
      → map byte (drop copied unread) ++ stream ms ≡ ts
      → let r = taken (s.remaining - copied) ts (ltb 0 (s.written + copied)) in
        promised (at s (m ∷ ms)) ≡ (take copied (drop s.offset m.payload) ++ r.0, r.1)
  promise_via h =
      subst
        (λ ts.
          let r = taken (s.remaining - copied) ts (ltb 0 (s.written + copied)) in
          promised (at s (m ∷ ms)) ≡ (take copied (drop s.offset m.payload) ++ r.0, r.1))
        h promise_before

  todo-kept : s.offset + copied ≤ m.length → map byte (drop copied unread) ++ stream ms ≡ todo kept
  todo-kept h =
      rw
        (
          e,
          drop-append_left (s.offset + copied) (map byte (take m.length m.payload)) (stream ms) (
              omega (
                arith,
                v.stored.0.0,
                v.stored.0.1,
                length-map byte (take m.length m.payload),
                length-take m.length m.payload,
              )),
          drop-map (s.offset + copied) byte (take m.length m.payload),
          drop-drop copied s.offset (take m.length m.payload),
        )
        refl

  length-chunk : length (take copied (drop s.offset m.payload)) ≡ copied
  length-chunk = omega (
    arith,
    length-take copied (drop s.offset m.payload),
    length-drop s.offset m.payload,
    v.stored.0.0,
    v.stored.0.1,
  )

  popped-Goes : m.length ≤ s.offset + copied → Goes (at s (m ∷ ms)) popped
  popped-Goes all_read =
      let done : drop copied unread ≡ [] = drop_all copied unread (omega (arith, length-unread)) in
      record {
        reading = record {
          stored = v.stored.1;
          starts = StartsIn-zero ms;
          fits = omega (arith, v.fits);
        };
        falls = ground arith;
        chunk = take copied (drop s.offset m.payload);
        dest = refl;
        written = rw length-chunk refl;
        promise = promise_via (rw done refl);
      }

  kept-Goes : 0 < s.remaining → s.offset + copied < m.length → Goes (at s (m ∷ ms)) kept
  kept-Goes more not_all = record {
    reading = record { stored = v.stored; starts = inr (e, not_all); fits = omega (arith, v.fits) };
    falls = ground arith;
    chunk = take copied (drop s.offset m.payload);
    dest = refl;
    written = rw length-chunk refl;
    promise = promise_via (todo-kept (omega arith));
  }

  pub copy-Goes : 0 < s.remaining → Goes (at s (m ∷ ms)) (copy (at s (m ∷ ms)) m ms)
  copy-Goes more = elim (dec_lt (s.offset + copied) m.length) [
    | yes not_all ↦
        let test : leb m.length (s.offset + copied) ≡ false = ground arith in
        rw (copy-eq, test) (kept-Goes more not_all)
    | no all_read ↦
        let test : leb m.length (s.offset + copied) ≡ true = ground arith in
        rw (copy-eq, test) (popped-Goes (omega arith))
  ]
