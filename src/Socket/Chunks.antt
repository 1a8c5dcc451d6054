-- ===== src/Socket/Chunks.antt =====
-- The messages that `rcs_t::send` makes, on their way to a receiver.
use ece.Prelude.{
  ◌==◌, ==_ne, length, take, drop, All, length-append, length-take, length-drop, All-append,
  u16_mod, u32_mod, IsByte, ℕ, zero, suc, ◌+◌, ◌-◌, ◌%◌, ◌≤◌, ◌<◌, min, ◌≡◌, ap, subst, true, false,
  Option, some, List, [], ◌∷◌, ◌++◌, arith,
}
use ece.Msg.Flags
use ece.Msg.{Msg, IsMsg, control_msg, valid, checksum_of, max_data_length}
use ece.Msg.Validity.{data_msg-eq_some, valid_iff}
use ece.Msg.Wire.{wire, byte_count, zeroed, unwire, intact-wire, length-wire}
use ece.Net.{Addr, Arrival, datagram, failed, eagain}
use ece.Socket.Sender.{chunk_msg}
use ece.Socket.Quiet.{heard}
use ece.Socket.Delivery.{Skipped, Resent}

-- What 500 bytes of memory may hold.
abbrev pub IsMemory : List ℕ → Type 0
IsMemory garbage = (length garbage ≡ 500) × All IsByte garbage

-- The first arrivals, up to `rest`, bring the `k` messages of `send` from `processed` and number
-- `seqnum` on, each whole, in order, with anything that a receiver passes over in between; then the
-- end-of-send message and, behind repetitions of it, a timeout.
abbrev pub Transit : ℕ → ℕ → List ℕ → ℕ → List Arrival → List Arrival → Type 0
Transit zero seqnum bytes processed queue rest =
    (junk : List Arrival) × (garbage : List ℕ) × (from : Addr) × (resent : List Arrival) × IsMemory
      garbage
    × (queue
        ≡ junk
          ++ (datagram (wire (control_msg garbage seqnum Flags.eos)) from
              ∷ (resent ++ (failed eagain ∷ rest))))
    × All (Skipped seqnum) junk
    × All Resent resent
Transit (suc k) seqnum bytes processed queue rest =
    (junk : List Arrival) × (garbage : List ℕ) × (m : Msg) × (from : Addr) × (more : List Arrival)
    × IsMemory garbage
    × (chunk_msg garbage seqnum bytes processed ≡ some m)
    × (queue ≡ junk ++ (datagram (wire m) from ∷ more))
    × All (Skipped seqnum) junk
    × Transit k ((seqnum + 1) % u16_mod) bytes (processed + 500) more rest

-- The receiver hears a whole packet as its message.
pub heard-wire :
    {m : Msg} (from : Addr)
    → IsMsg m
    → valid m ≡ true
    → heard (datagram (wire m) from) ≡ some (zeroed m)
unfolding heard
heard-wire {m} from v ok =
    let small : m.length ≤ 500 = ((valid_iff m).0 ok).0 in
    let some_bytes : (byte_count (wire m) == 0) ≡ false =
      ==_ne (byte_count (wire m)) 0 (omega (arith, length-wire m small v.payload_size)) in
    let whole = intact-wire v ok in
    rw (some_bytes, whole) (ap {B = Option Msg} (λ x. some x) (unwire v small))

chunk_size :
    (len : ℕ) (src garbage : List ℕ)
    → len ≤ length src
    → len ≤ 500
    → length garbage ≡ 500
    → length (take len src ++ drop len garbage) ≡ 500
chunk_size len src garbage fits small size = omega (
  arith,
  length-append (take len src) (drop len garbage),
  length-take len src,
  length-drop len garbage,
)

All-take {ℓ κ} : {A : Type ℓ} (P : A → Type κ) (n : ℕ) (xs : List A) → All P xs → All P (take n xs)
All-take P zero xs h = tt
All-take P (suc n) [] h = tt
All-take P (suc n) (x ∷ xs) h = (h.0, All-take P n xs h.1)

All-drop {ℓ κ} : {A : Type ℓ} (P : A → Type κ) (n : ℕ) (xs : List A) → All P xs → All P (drop n xs)
All-drop P zero xs h = h
All-drop P (suc n) [] h = tt
All-drop P (suc n) (x ∷ xs) h = All-drop P n xs h.1

checksum_of-lt : (b : ℕ) → checksum_of b < u32_mod
unfolding checksum_of
checksum_of-lt b = omega arith

-- A message of `send` fits its fields.
pub chunk-IsMsg :
    (garbage : List ℕ) (seqnum : ℕ) (bytes : List ℕ) (processed : ℕ) {m : Msg}
    → IsMemory garbage
    → seqnum < u16_mod
    → All IsByte bytes
    → chunk_msg garbage seqnum bytes processed ≡ some m
    → IsMsg m
chunk-IsMsg garbage seqnum bytes processed memory small all_bytes e =
    let len = min (length bytes - processed) max_data_length in
    let src = drop processed bytes in
    let (len_ok, made) = data_msg-eq_some garbage seqnum src len Flags.none e in
    subst IsMsg made (record {
      checksum_word = checksum_of-lt _;
      seqnum_word = small;
      length_word = omega arith;
      flags_word = omega arith;
      payload_size =
          chunk_size len src garbage (omega (arith, length-drop processed bytes)) (omega arith)
            memory.0;
      payload_bytes =
          All-append IsByte (take len src) (drop len garbage)
            (All-take IsByte len src (All-drop IsByte processed bytes all_bytes))
            (All-drop IsByte len garbage memory.1);
    })

pub control-IsMsg :
    (garbage : List ℕ) (seqnum flags : ℕ)
    → IsMemory garbage
    → seqnum < u16_mod
    → flags < 65536
    → IsMsg (control_msg garbage seqnum flags)
unfolding control_msg
control-IsMsg garbage seqnum flags memory small bits = record {
  checksum_word = omega arith;
  seqnum_word = small;
  length_word = omega arith;
  flags_word = omega arith;
  payload_size = memory.0;
  payload_bytes = memory.1;
}
