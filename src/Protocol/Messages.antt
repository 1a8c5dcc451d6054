-- ===== src/Protocol/Messages.antt =====
-- a4/rcs_t.cc: the messages of one send and the acknowledgements, as the other side hears them.
use mathlib.Core.List.{map-append}
use ece.Prelude.{
  ltb, ◌==◌, if◌then◌else◌, if-elim, length, take, drop, All, length-take, length-drop, take_all,
  u16_mod, IsByte, ℕ, zero, suc, ◌+◌, ◌-◌, ◌*◌, ◌%◌, ◌≤◌, ◌<◌, min, ◌≡◌, refl, sym, ap, subst, ◌∙◌,
  ◌⊎◌, inl, inr, true, false, some, List, [], ◌∷◌, ◌++◌, map, append-nil, arith, dec_lt,
}
use ece.Msg.Flags
use ece.Msg.{Msg, IsMsg, control_msg, has_flag, max_data_length, valid}
use ece.Msg.Validity.{control_msg-valid, data_msg-Carries}
use ece.Msg.Wire.{wire, zeroed}
use ece.Buffer.Tokens.{Token, byte, mark, tokens, count, count-append, count-bytes}
use ece.Buffer.Invariant.{IsStored}
use ece.Net.{Addr, Os}
use ece.Net.Logged.{Carried}
use ece.Protocol.Echo.{IsUnforged, Echo, wire-Carried}
use ece.Socket.Sender.{chunk_msg}
use ece.Socket.Quiet.{sendable}
use ece.Socket.Sending.{rounds}
use ece.Socket.Chunks.{IsMemory, chunk-IsMsg, control-IsMsg}
use ece.Socket.Roundtrip.{chunk_msg-Chunk, length-zeroed}

-- The message of number `seqnum` that `send` makes at its turn `turn`: one with data, or behind
-- those the one that ends the send.
abbrev pub Made : List ℕ → ℕ → ℕ → Msg → Type 0
Made bytes turn seqnum m =
    (garbage : List ℕ) × IsMemory garbage
    × ((turn < rounds (length bytes)) × (chunk_msg garbage seqnum bytes (500 * turn) ≡ some m)
        ⊎ (turn ≡ rounds (length bytes)) × (m ≡ control_msg garbage seqnum Flags.eos))

-- What the receiver's buffer holds once it has taken the first `k` messages of a send.
abbrev pub delivered : List ℕ → ℕ → List Token
delivered bytes k =
    map byte (take (500 * k) bytes) ++ (if ltb (rounds (length bytes)) k then mark ∷ [] else [])

-- What the receiver hears of message `turn`.
pub record Content (bytes : List ℕ) (turn : ℕ) (m : Msg) : Type 0 where
  pub seqnum_eq : m.seqnum ≡ turn
  pub fin_eq : has_flag m Flags.fin ≡ false
  pub eos_eq : has_flag m Flags.eos ≡ (turn == rounds (length bytes))
  pub stored : IsStored m
  pub adds : delivered bytes (suc turn) ≡ delivered bytes turn ++ tokens m

take-drop : (a b : ℕ) (xs : List ℕ) → take (a + b) xs ≡ take a xs ++ take b (drop a xs)
take-drop zero b xs = let e : zero + b ≡ b = omega arith in rw e refl
take-drop (suc a) zero [] = let e : suc a + zero ≡ suc a = omega arith in rw e refl
take-drop (suc a) (suc b) [] = let e : suc a + suc b ≡ suc (a + suc b) = omega arith in rw e refl
take-drop (suc a) b (x ∷ xs) =
    let e : suc a + b ≡ suc (a + b) = omega arith in rw e (ap (◌∷◌ x) (take-drop a b xs))

take-min : (b : ℕ) (xs : List ℕ) → take (min (length xs) b) xs ≡ take b xs
take-min b xs = elim (dec_lt (length xs) b) [
  | yes lt ↦
      let all : min (length xs) b ≡ length xs = omega arith in
      rw (all, take_all (length xs) xs (omega arith), take_all b xs (omega arith)) refl
  | no ge ↦ let all : min (length xs) b ≡ b = omega arith in rw all refl
]

Content-data :
    (bytes : List ℕ) (turn : ℕ)
    → turn < rounds (length bytes)
    → delivered bytes (suc turn)
      ≡ delivered bytes turn
        ++ map byte
            (take (min (length bytes - 500 * turn) max_data_length) (drop (500 * turn) bytes))
Content-data bytes turn lt =
    let old : ltb (rounds (length bytes)) turn ≡ false = ground arith in
    let new : ltb (rounds (length bytes)) (suc turn) ≡ false = ground arith in
    let more : 500 * suc turn ≡ 500 * turn + 500 = omega arith in
    rw
      (
        old,
        new,
        more,
        take-drop (500 * turn) 500 bytes,
        ← length-drop (500 * turn) bytes,
        take-min max_data_length (drop (500 * turn) bytes),
        append-nil,
        append-nil,
      )
      (map-append byte (take (500 * turn) bytes) (take 500 (drop (500 * turn) bytes)))

Content-eos :
    (bytes : List ℕ) (turn : ℕ)
    → turn ≡ rounds (length bytes)
    → delivered bytes (suc turn) ≡ delivered bytes turn ++ mark ∷ []
Content-eos bytes turn last =
    let old : ltb (rounds (length bytes)) turn ≡ false = ground arith in
    let new : ltb (rounds (length bytes)) (suc turn) ≡ true = ground arith in
    rw
      (
        old,
        new,
        take_all (500 * suc turn) bytes (omega arith),
        take_all (500 * turn) bytes (omega arith),
      )
      (rw append-nil refl)

pub Made-Content :
    (bytes : List ℕ) (turn : ℕ) {m : Msg}
    → All IsByte bytes
    → turn < 65536
    → Made bytes turn turn m
    → IsMsg m × (valid m ≡ true) × Content bytes turn (zeroed m)
Made-Content bytes turn {m} all_bytes small (garbage, memory, inl (lt, made)) =
    let v = chunk-IsMsg garbage turn bytes (500 * turn) memory small all_bytes made in
    let any : Addr = record { family = 0; ip = 0; port = 0 } in
    let c =
      chunk_msg-Chunk garbage turn bytes (500 * turn) any memory small all_bytes (omega arith)
        made in
    let carries =
      data_msg-Carries garbage turn (drop (500 * turn) bytes)
        (min (length bytes - 500 * turn) max_data_length) Flags.none (omega arith)
        (omega (arith, length-drop (500 * turn) bytes)) made in
    let short : (turn == rounds (length bytes)) ≡ false = ground arith in
    (
      v,
      carries.is_valid,
      record {
        seqnum_eq = c.expected.2;
        fin_eq = c.expected.1;
        eos_eq = c.no_end ∙ sym short;
        stored = c.stored;
        adds =
            Content-data bytes turn lt
            ∙ ap (λ (ts : List Token). delivered bytes turn ++ ts) (sym c.tokens_eq);
      },
    )
Made-Content bytes turn {m} all_bytes small (garbage, memory, inr (last, made)) =
    let v = control-IsMsg garbage turn Flags.eos memory small (omega arith) in
    let ok = (control_msg-valid garbage turn Flags.eos (omega arith)).0 in
    let is_end : (turn == rounds (length bytes)) ≡ true = ground arith in
    subst (λ (x : Msg). IsMsg x × (valid x ≡ true) × Content bytes turn (zeroed x)) (sym made)
      (
        v,
        ok,
        record {
          seqnum_eq = unfold control_msg in refl;
          fin_eq = unfold has_flag control_msg in refl;
          eos_eq = unfold has_flag control_msg in sym is_end;
          stored = (
            unfold control_msg in omega arith,
            length-zeroed (control_msg garbage turn Flags.eos) (unfold control_msg in omega arith)
                v.payload_size,
            λ h. unfold control_msg in refl,
          );
          adds = unfold has_flag control_msg in Content-eos bytes turn last;
        },
      )

pub Made-sendable :
    (bytes : List ℕ) (turn : ℕ) {m : Msg} → Made bytes turn turn m → sendable m ≡ true
Made-sendable bytes turn {m} (garbage, memory, inl (lt, made)) =
    let carries =
      data_msg-Carries garbage turn (drop (500 * turn) bytes)
        (min (length bytes - 500 * turn) max_data_length) Flags.none (omega arith)
        (omega (arith, length-drop (500 * turn) bytes)) made in
    let some_bytes : (m.length == 0) ≡ false = ground (arith, carries.len_eq) in rw some_bytes refl
Made-sendable bytes turn {m} (garbage, memory, inr (last, made)) =
    rw made (unfold control_msg in refl)

-- The sender has sent no message but the first ones up to `turn`.
abbrev pub Sent : List ℕ → ℕ → Msg → Type 0
Sent bytes turn m = (j : ℕ) × (j ≤ turn) × (j ≤ rounds (length bytes)) × Content bytes j m

-- The receiver has acknowledged no message but the first `k`; the acknowledgement of none has the
-- number 65535.
abbrev pub AckTo : ℕ → Msg → Type 0
AckTo k m = (j : ℕ) × (has_flag m Flags.fin ≡ false) × (j ≤ k) × (m.seqnum ≡ (j + 65535) % u16_mod)

pub Sent-mono : (bytes : List ℕ) {i j : ℕ} (m : Msg) → i ≤ j → Sent bytes i m → Sent bytes j m
Sent-mono bytes m le (x, lt, small, c) = (x, omega arith, small, c)

pub AckTo-mono : {i j : ℕ} (m : Msg) → i ≤ j → AckTo i m → AckTo j m
AckTo-mono m le (x, fin, lt, e) = (x, fin, omega arith, e)

-- The acknowledgement of the first `j` messages.
pub ack-Carried :
    (os : Os) (garbage : List ℕ) (seqnum j k : ℕ)
    → IsUnforged os
    → IsMemory garbage
    → j ≤ k
    → seqnum ≡ (j + 65535) % u16_mod
    → Carried os (Echo (AckTo k)) (wire (control_msg garbage seqnum Flags.ack))
ack-Carried os garbage seqnum j k unforged memory le e =
    wire-Carried os (AckTo k) unforged
      (control-IsMsg garbage seqnum Flags.ack memory (omega arith) (omega arith))
      (control_msg-valid garbage seqnum Flags.ack (omega arith)).0
      (j, (unfold has_flag control_msg in refl), le, (unfold control_msg in e))

pub count-delivered : (bytes : List ℕ) (k : ℕ) → count (delivered bytes k) ≤ 500 * k
count-delivered bytes k =
    let sent_bytes = map byte (take (500 * k) bytes) in
    let no_mark : count (if ltb (rounds (length bytes)) k then mark ∷ [] else []) ≡ 0 =
      if-elim (λ (ts : List Token). count ts ≡ 0) (ltb (rounds (length bytes)) k) (λ _. refl)
        (λ _. refl) in
    omega (
      arith,
      count-append sent_bytes (if ltb (rounds (length bytes)) k then mark ∷ [] else []),
      count-bytes (take (500 * k) bytes),
      length-take (500 * k) bytes,
      no_mark,
    )
