-- ===== src/Apps/Drain.antt =====
-- a4/rcsapp-server.c: what a connection's thread does with the bytes that have arrived, once the
-- other end has sent FIN.
use mathlib.Core.List.{map-append}
use ece.Prelude.{
  ==-refl, Bool-cases, length, ℕ, zero, suc, ◌-◌, ◌<◌, ◌≡◌, refl, sym, ap, subst, ◌∙◌, ◌⊎◌, inl,
  inr, Bool, true, false, ◌&&◌, some, List, [], ◌∷◌, ◌++◌, map, append-nil, append_assoc, arith, ℤ,
  pos, is_below,
}
use ece.Buffer.{MsgBuffer, empty, read}
use ece.Buffer.Tokens.{Token, byte, mark, view, count, taken, taken-count, taken-pos}
use ece.Buffer.Invariant.{IsBuffer}
use ece.Buffer.Refine.{read-Reads}
use ece.Net.{Os}
use ece.Socket.Monad.{Socket, State, ok}
use ece.Socket.Receiver.{recv_read}
use ece.Api.Sockets.{find, put, find-put}
use ece.Api.{Process, get_socket, on_socket, destroy_socket, rcs_close}
use ece.Api.Descriptors.{close-Returns}
use ece.Api.Closing.{restarted, recv-closing, recv-finished}
use ece.Apps.{rcs_recv_into}
use ece.Apps.Service.{Files, Host, quits, writes, Serving, closed_both, wrote}

-- The bytes of a stream, without the marks at the ends of sends.
abbrev pub data_of : List Token → List ℕ
data_of [] = []
data_of (byte b ∷ ts) = b ∷ data_of ts
data_of (mark ∷ ts) = data_of ts

-- Chunks put together, the newest first.
abbrev pub joined : List (List ℕ) → List ℕ
joined [] = []
joined (b ∷ bs) = joined bs ++ b

taken-data_of :
    (n : ℕ) (ts : List Token) (w : Bool) → (taken n ts w).0 ++ data_of (taken n ts w).1 ≡ data_of ts
unfolding taken
taken-data_of zero ts w = refl
taken-data_of (suc n) [] w = refl
taken-data_of (suc n) (mark ∷ ts) true = refl
taken-data_of (suc n) (mark ∷ ts) false = taken-data_of (suc n) ts false
taken-data_of (suc n) (byte b ∷ ts) w = ap (◌∷◌ b) (taken-data_of n ts true)

count-zero : (ts : List Token) → count ts ≡ 0 → data_of ts ≡ []
count-zero [] e = refl
count-zero (byte b ∷ ts) e = absurd (omega arith)
count-zero (mark ∷ ts) e = count-zero ts e

joined-append : (bs : List (List ℕ)) (b : List ℕ) → joined (bs ++ (b ∷ [])) ≡ b ++ joined bs
joined-append [] b = sym (append-nil b)
joined-append (c ∷ bs) b = rw (joined-append bs b) (append_assoc b (joined bs) c)

empty-count :
    (b : MsgBuffer) → IsBuffer b → (empty b ≡ true) ⊎ ((empty b ≡ false) × (0 < count (view b)))
unfolding empty
empty-count b v = elim (Bool-cases (empty b)) [
  | inl e ↦ inl e
  | inr e ↦ inr (e, ground (arith, v.total))
]

empty-data_of : (b : MsgBuffer) → IsBuffer b → empty b ≡ true → data_of (view b) ≡ []
unfolding empty
empty-data_of b v e = count-zero (view b) (ground (arith, v.total))

-- What was written to the file between two states, put together, is `data`.
pub record Written (wfd : ℤ) (data_left : List ℕ) (y z : Host) : Type 0 where
  pub chunks : List (List ℕ)
  pub log : z.written ≡ map (λ b. (wfd, b)) chunks ++ y.written
  pub whole : joined chunks ≡ data_left

wrote-Written :
    {wfd : ℤ} {bytes later : List ℕ} {p : Process} {y z : Host}
    → Written wfd later (wrote wfd bytes p y) z
    → Written wfd (bytes ++ later) y z
wrote-Written {wfd} {bytes} {later} {p} {y} w = record {
  chunks = w.chunks ++ (bytes ∷ []);
  log =
      w.log
      ∙ sym (append_assoc (map (λ b. (wfd, b)) w.chunks) ((wfd, bytes) ∷ []) y.written)
      ∙ ap (λ (l : List (ℤ × List ℕ)). l ++ y.written)
          (sym (map-append (λ b. (wfd, b)) w.chunks (bytes ∷ [])));
  whole = joined-append w.chunks bytes ∙ ap (λ (l : List ℕ). bytes ++ l) w.whole;
}

-- The descriptor is a socket whose other end has sent FIN.
pub record Ended (id : ℕ) (s : Socket) (p : Process) : Type 0 where
  pub at_id : find id p.table.sockets ≡ some s
  pub closing : s.is_closing ≡ true
  pub buffer : IsBuffer s.buffer

module _ (os : Os) (id : ℕ) where
  -- The process behind a call of `rcsRecv` that left the buffer `b`.
  abbrev left_with : MsgBuffer → Socket → Process → Process
  left_with b s p = record p {
    table = record (p.table) {
      sockets = put id (record s { recv_seqnum = 0; buffer = b }) (p.table.sockets);
    };
  }

  Ended-left :
      {s : Socket} {p : Process} (b : MsgBuffer)
      → Ended id s p
      → IsBuffer b
      → Ended id (record s { recv_seqnum = 0; buffer = b }) (left_with b s p)
  Ended-left {s} {p} b h v =
      let f = h.at_id in
      record {
        at_id =
            find-put id id (record s { recv_seqnum = 0; buffer = b }) p.table.sockets
            ∙ rw (==-refl id, f) refl;
        closing = h.closing;
        buffer = v;
      }

  -- With nothing left, `rcsRecv` returns 0.
  recv_into-empty :
      {s : Socket} {p : Process}
      → Ended id s p
      → empty s.buffer ≡ true
      → rcs_recv_into os (pos id) 256 p ≡ ok ((pos 0, []), left_with s.buffer s p)
  unfolding rcs_recv_into on_socket
  recv_into-empty {s} {p} h none_left =
      let f = h.at_id in
      let t : State = record { sock = s; world = p.world } in
      let ran = recv-finished os 256 t (record { closing = h.closing; drained = none_left }) in
      rw (on_socket, f, ran) refl

  recv_read-Reads :
      (t : State) {r : List ℕ × ℕ × MsgBuffer}
      → empty t.sock.buffer ≡ false
      → read t.sock.buffer 256 ≡ some r
      → recv_read os 256 t ≡ ok ((r.0, r.1), record t { sock = record (t.sock) { buffer = r.2 } })
  unfolding recv_read
  recv_read-Reads t full e =
      let test : (t.sock.is_closing && empty t.sock.buffer) ≡ false = ground (arith, full) in
      rw (recv_read, test, e) refl

  -- With something left, it returns what `msg_buffer_t::read` does.
  recv_into-full :
      {s : Socket} {p : Process} {r : List ℕ × ℕ × MsgBuffer}
      → Ended id s p
      → empty s.buffer ≡ false
      → read s.buffer 256 ≡ some r
      → rcs_recv_into os (pos id) 256 p ≡ ok ((pos r.1, r.0), left_with r.2 s p)
  unfolding rcs_recv_into on_socket
  recv_into-full {s} {p} {r} h full e =
      let f = h.at_id in
      let t : State = record { sock = s; world = p.world } in
      let ran = recv-closing os 256 t h.closing ∙ recv_read-Reads (restarted os t) full e in
      rw (on_socket, f, ran) refl

  rcs_close-returns :
      {s : Socket} (p : Process)
      → find id p.table.sockets ≡ some s
      → (q : Process) × (rcs_close os (pos id) p ≡ ok (pos 0, q))
  unfolding rcs_close destroy_socket get_socket
  rcs_close-returns {s} p e =
      let (a, t, ran, _) = close-Returns os (record { sock = s; world = p.world }) in
      rw (rcs_close, get_socket, e, destroy_socket, e, ran) (_, refl)

  module _ (files : Files)
      (writes_all : (t : ℕ) (fd : ℤ) (bytes : List ℕ) → files.write t fd bytes ≡ pos (length bytes))
      (wfd : ℤ) where
    serves-Written :
        (fuel : ℕ) (s : Socket) (y : Host)
        → count (view s.buffer) < fuel
        → Ended id s y.process
        → (z : Host) × Serving os files (pos id) wfd y z × Written wfd (data_of (view s.buffer)) y z
    serves-Written zero s y lt h = absurd (omega arith)
    serves-Written (suc fuel) s y lt h = elim (empty-count s.buffer h.buffer) [
      | inl none_left ↦
          let p = left_with s.buffer s y.process in
          let (q, shut) = rcs_close-returns p (Ended-left s.buffer h h.buffer).at_id in
          (
            closed_both wfd q y,
            quits (recv_into-empty h none_left) refl shut,
            record {
              chunks = [];
              log = refl;
              whole = sym (empty-data_of s.buffer h.buffer none_left);
            },
          )
      | inr (full, some_left) ↦
          let (r, e, d) = read-Reads s.buffer 256 h.buffer (omega arith) full in
          let ts = view s.buffer in
          let some_read = taken-pos 256 ts (omega arith) some_left in
          let less = taken-count 256 ts false in
          let size : length r.0 ≡ length (taken 256 ts false).0 = ap length d.bytes in
          let left : count (view r.2) ≡ count (taken 256 ts false).1 = ap count d.left in
          let k = r.1 - 1 in
          let number : r.1 ≡ suc k = (let n = d.number in omega arith) in
          let p = left_with r.2 s y.process in
          let got : rcs_recv_into os (pos id) 256 y.process ≡ ok ((pos (suc k), r.0), p) =
            recv_into-full h full e ∙ ap (λ (n : ℕ). ok ((pos n, r.0), p)) number in
          let all_written : is_below (files.write y.clock wfd r.0) (suc k) ≡ false =
            (let n = d.number in rw (writes_all y.clock wfd r.0) (ground arith)) in
          let (z, more, w) =
            serves-Written fuel (record s { recv_seqnum = 0; buffer = r.2 }) (wrote wfd r.0 p y)
              (omega arith) (Ended-left r.2 h d.buffer) in
          let same : r.0 ++ data_of (view r.2) ≡ data_of ts =
            rw (d.bytes, d.left) (taken-data_of 256 ts false) in
          (
            z,
            writes got all_written more,
            subst (λ (l : List ℕ). Written wfd l y z) same (wrote-Written w),
          )
    ]

    -- Where `write` takes all it is given: the loop of `serviceConnection` on a socket whose other
    -- end has sent FIN, with a well-formed buffer, ends, and by then it has written to the file,
    -- one after another, exactly the bytes that were in the buffer.
    pub Ended-Written :
        (s : Socket) (y : Host)
        → Ended id s y.process
        → (z : Host) × Serving os files (pos id) wfd y z × Written wfd (data_of (view s.buffer)) y z
    Ended-Written s y h = serves-Written (suc (count (view s.buffer))) s y (omega arith) h
