-- ===== src/Socket/Transfer.antt =====
-- `rcs_t::recv` as a whole: what the caller gets of a send of the peer.
use ece.Prelude.{
  length, take, All, length-append, size_mod, ℕ, suc, ◌+◌, ◌*◌, ◌<◌, min, ◌≡◌, refl, sym, ap, subst,
  ◌∙◌, Bool, true, false, not, ◌&&◌, List, [], ◌∷◌, ◌++◌, map, append-nil, append_assoc, arith,
}
use ece.Msg.{Msg}
use ece.Buffer.{MsgBuffer, empty}
use ece.Buffer.Tokens.{byte, mark, stream, view, count}
use ece.Buffer.Invariant.{
  IsStored, IsBuffer, queue_message-IsBuffer, view-queue_message, total_size-queue_message,
}
use ece.Buffer.Refine.{read-eq_some}
use ece.Buffer.Sends.{rest_of_send, read-send, full_at_send}
use ece.Net.{Arrival, Os}
use ece.Socket.Receiver.{recv_inner, recv_outer, recv_read, recv}
use ece.Socket.Monad.{State, ok}
use ece.Socket.Quiet.{Core, core, Returns, Returns-bind}
use ece.Socket.Inbox.{Delivers, taking, taking_all, recv_inner-Delivers}

-- The buffer behind a run of messages.
pub record Filled (b : MsgBuffer) (ms : List Msg) (c : Core) : Type 0 where
  pub buffer : IsBuffer c.buffer
  pub bytes : view c.buffer ≡ view b ++ stream ms

taking_all-Filled :
    (ms : List Msg) (c : Core)
    → All IsStored ms
    → IsBuffer c.buffer
    → c.buffer.total_size + 500 * length ms < size_mod
    → Filled c.buffer ms (taking_all ms c)
taking_all-Filled [] c st v small = record { buffer = v; bytes = sym (append-nil (view c.buffer)) }
taking_all-Filled (m ∷ ms) c st v small =
    let fits : c.buffer.total_size + m.length < size_mod = omega (arith, st.0.0) in
    let f =
      taking_all-Filled ms (taking m c) st.1 (queue_message-IsBuffer m st.0 fits v)
        (omega (arith, total_size-queue_message c.buffer m fits, st.0.0)) in
    record {
      buffer = f.buffer;
      bytes =
          f.bytes
          ∙ ap (λ ts. ts ++ stream ms) (view-queue_message m v)
          ∙ append_assoc (view c.buffer) _ (stream ms);
    }

taking_all-is_closing : (ms : List Msg) (c : Core) → (taking_all ms c).is_closing ≡ c.is_closing
taking_all-is_closing [] c = refl
taking_all-is_closing (m ∷ ms) c = taking_all-is_closing ms (taking m c)

taking_all-is_listener : (ms : List Msg) (c : Core) → (taking_all ms c).is_listener ≡ c.is_listener
taking_all-is_listener [] c = refl
taking_all-is_listener (m ∷ ms) c = taking_all-is_listener ms (taking m c)

-- What `recv` gives of a send with the bytes `xs`.
pub record Received (n : ℕ) (xs : List ℕ) (rest : List Arrival) (r : List ℕ × ℕ) (t : State)
    : Type 0 where
  pub bytes : r.0 ≡ take n xs
  pub number : r.1 ≡ min n (length xs)
  pub left : view t.sock.buffer ≡ rest_of_send n xs []
  pub buffer : IsBuffer t.sock.buffer
  pub arrivals : t.world.arrivals ≡ rest
  pub open_still : t.sock.is_closing ≡ false

-- The buffer holds one send, and the loops have ended.
pub record Loaded (listener : Bool) (xs : List ℕ) (rest : List Arrival) (t : State) : Type 0 where
  pub listening : t.sock.is_listener ≡ listener
  pub buffer : IsBuffer t.sock.buffer
  pub bytes : view t.sock.buffer ≡ map byte xs ++ (mark ∷ [])
  pub arrivals : t.world.arrivals ≡ rest
  pub open_still : t.sock.is_closing ≡ false

module _ (os : Os) where
  recv_read-Listening :
      (listener : Bool) (n : ℕ) (xs : List ℕ) (rest : List Arrival) (t : State)
      → n < size_mod
      → 0 < length xs
      → Loaded listener xs rest t
      → Returns (recv_read os n t) (λ r u. Received n xs rest r u × (u.sock.is_listener ≡ listener))
  unfolding recv_read
  recv_read-Listening listener n xs rest t small some_bytes l =
      let (r, e, bytes, number, left) =
        read-send t.sock.buffer n xs [] l.buffer small l.bytes some_bytes in
      let reads = read-eq_some t.sock.buffer n l.buffer small e in
      let test : (t.sock.is_closing && empty t.sock.buffer) ≡ false = rw l.open_still refl in
      rw (test, e, recv_read)
        (
          _,
          _,
          refl,
          (
            record {
              bytes = bytes;
              number = number;
              left = left;
              buffer = reads.buffer;
              arrivals = l.arrivals;
              open_still = l.open_still;
            },
            l.listening,
          ),
        )

  pub recv_read-Received :
      (n : ℕ) (xs : List ℕ) (rest : List Arrival) (t : State)
      → n < size_mod
      → 0 < length xs
      → Loaded t.sock.is_listener xs rest t
      → Returns (recv_read os n t) (Received n xs rest)
  recv_read-Received n xs rest t small some_bytes l =
      let (r, u, e, p) = recv_read-Listening t.sock.is_listener n xs rest t small some_bytes l in
      (r, u, e, p.0)

  recv_outer-Loaded :
      (listener : Bool) (fuel : ℕ) (xs : List ℕ) (rest : List Arrival) (s : State)
      → 0 < length xs
      → ((t : State)
          → t.world.arrivals ≡ s.world.arrivals
          → core t.sock ≡ record (core s.sock) { recv_seqnum = 0 }
          → Returns
              (recv_inner os (suc (length t.world.arrivals)) t)
              (λ x u. Loaded listener xs rest u))
      → Returns (recv_outer os (suc fuel) s) (λ x t. Loaded listener xs rest t)
  unfolding recv_outer
  recv_outer-Loaded listener fuel xs rest s some_bytes inner =
      let t = record s { sock = record (s.sock) { recv_seqnum = 0 } } in
      Returns-bind (recv_inner os (suc (length t.world.arrivals)) t)
        (λ x u. elim (empty u.sock.buffer && not u.sock.is_closing) [
          | true ↦ recv_outer os fuel u
          | false ↦ ok (tt, u)
        ])
        (inner t refl refl)
        λ x u l.
          let full : empty u.sock.buffer ≡ false =
            full_at_send u.sock.buffer xs [] l.buffer l.bytes some_bytes in
          rw full (tt, u, refl, l)

  -- A `recv` leaves a listener one.
  pub recv-Listening :
      (n : ℕ) (ms : List Msg) (eos : Msg) (xs : List ℕ) (s : State) (rest : List Arrival)
      → n < size_mod
      → 0 < length xs
      → s.sock.is_closing ≡ false
      → IsBuffer s.sock.buffer
      → view s.sock.buffer ≡ []
      → 500 * (length ms + 1) < size_mod
      → All IsStored (ms ++ eos ∷ [])
      → stream (ms ++ eos ∷ []) ≡ map byte xs ++ (mark ∷ [])
      → Delivers 0 ms eos s.world.arrivals rest
      → Returns
          (recv os n s)
          (λ r u. Received n xs rest r u × (u.sock.is_listener ≡ s.sock.is_listener))
  unfolding recv
  recv-Listening n ms eos xs s rest small some_bytes open_ v none_left few stored bytes delivers =
      let all = ms ++ eos ∷ [] in
      let room : s.sock.buffer.total_size + 500 * length all < size_mod =
        omega (arith, v.total, ap count none_left, length-append ms (eos ∷ [])) in
      Returns-bind (recv_outer os (suc (length s.world.arrivals)) s) (λ x t. recv_read os n t)
        (recv_outer-Loaded s.sock.is_listener (length s.world.arrivals) xs rest s some_bytes
          λ t arrivals fields.
            let open_t : t.sock.is_closing ≡ false =
              ap (λ (c : Core). c.is_closing) fields ∙ open_ in
            let seq : t.sock.recv_seqnum ≡ 0 = ap (λ (c : Core). c.recv_seqnum) fields in
            let buf : t.sock.buffer ≡ s.sock.buffer = ap (λ (c : Core). c.buffer) fields in
            let (x, u, e, (taken, left)) =
              recv_inner-Delivers os ms eos (suc (length t.world.arrivals)) t rest open_t
                (omega arith) (rw (seq, arrivals) delivers) in
            let f = taking_all-Filled all (core t.sock) stored (rw buf v) (rw buf room) in
            (
              x,
              u,
              e,
              record {
                listening =
                    ap (λ (c : Core). c.is_listener) taken
                    ∙ taking_all-is_listener all (core t.sock)
                    ∙ ap (λ (c : Core). c.is_listener) fields;
                buffer = subst IsBuffer (sym (ap (λ (c : Core). c.buffer) taken)) f.buffer;
                bytes =
                    ap (λ (c : Core). view c.buffer) taken
                    ∙ f.bytes
                    ∙ ap (λ ts. ts ++ stream all) (ap view buf ∙ none_left)
                    ∙ bytes;
                arrivals = left;
                open_still =
                    ap (λ (c : Core). c.is_closing) taken
                    ∙ taking_all-is_closing all (core t.sock)
                    ∙ open_t;
              },
            ))
        λ x t l. recv_read-Listening s.sock.is_listener n xs rest t small some_bytes l

  pub recv-Received :
      (n : ℕ) (ms : List Msg) (eos : Msg) (xs : List ℕ) (s : State) (rest : List Arrival)
      → n < size_mod
      → 0 < length xs
      → s.sock.is_closing ≡ false
      → IsBuffer s.sock.buffer
      → view s.sock.buffer ≡ []
      → 500 * (length ms + 1) < size_mod
      → All IsStored (ms ++ eos ∷ [])
      → stream (ms ++ eos ∷ []) ≡ map byte xs ++ (mark ∷ [])
      → Delivers 0 ms eos s.world.arrivals rest
      → Returns (recv os n s) (Received n xs rest)
  recv-Received n ms eos xs s rest small some_bytes open_ v none_left few stored bytes delivers =
      let (r, u, e, p) =
        recv-Listening n ms eos xs s rest small some_bytes open_ v none_left few stored bytes
          delivers in
      (r, u, e, p.0)
