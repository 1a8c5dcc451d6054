-- ===== src/Msg/Validity.antt =====
-- `msg_t::valid` and `msg_t::hasFlag`: what they accept, and what the constructors make.
use ece.Prelude.{
  ◌==◌, if◌then◌else◌, le→leb, passes_below, passes_below_lem, length, get_or, set, take, drop,
  length-take, take_all, take-append_left, get_or-pad_in, get_or-set_ne, u16_mod, IsByte, ℕ, suc,
  ◌+◌, ◌-◌, ◌/◌, ◌%◌, ◌≤◌, ◌<◌, bit_and, bit_or, ◌≡◌, refl, sym, ap, subst, ◌∙◌, ◌↔◌, ◌⊎◌, Bool,
  true, false, not, ◌&&◌, ◌||◌, some, List, ◌++◌, arith, ℕ_discrete,
}
use ece.Msg.Layout.{get_total_length-eq}
use ece.Msg.{
  Msg, serialize, last_byte, valid, checksum_of, control_msg, data_msg, default_msg, has_flag,
  or_flags, get_total_length, max_data_length,
}

pub last_byte-zero : (m : Msg) → m.length ≡ 0 → last_byte m ≡ m.flags / 16777216 % 256
unfolding last_byte serialize
last_byte-zero m e = rw e refl

pub last_byte-suc : (m : Msg) (k : ℕ) → m.length ≡ suc k → last_byte m ≡ get_or m.payload k 0
unfolding last_byte serialize
last_byte-suc m k e =
    let twelve : 11 + m.length
        ≡ suc (suc (suc (suc (suc (suc (suc (suc (suc (suc (suc (suc k))))))))))) =
      omega arith in
    rw twelve refl

-- The byte that the checksum is computed from.
abbrev pub checked_byte : Msg → ℕ
checked_byte m =
    if m.length == 0 then m.flags / 16777216 % 256 else get_or m.payload (m.length - 1) 0

pub last_byte-eq : (m : Msg) → last_byte m ≡ checked_byte m
last_byte-eq m = elim (ℕ_discrete m.length 0) [
  | yes e ↦ ground (arith, last_byte-zero m e)
  | no ne ↦ ground (arith, last_byte-suc m (m.length - 1))
]

bool_eq : Bool → Bool → Bool
bool_eq true b = b
bool_eq false b = not b

-- A message is accepted exactly when its length is at most 500 and its checksum is that of the
-- last byte of its data, or of the highest byte of its flags where it has no data.
pub valid_iff :
    (m : Msg)
    → (valid m ≡ true)
      ↔ ((m.length ≤ max_data_length) × (m.checksum ≡ checksum_of (checked_byte m)))
unfolding valid
valid_iff m = (λ h. ground (arith, last_byte-eq m), λ h. ground (arith, last_byte-eq m))

-- A control message with flags below 2 ^ 24 is accepted whatever the memory held, and has the
-- length of the header.
pub control_msg-valid :
    (garbage : List ℕ) (seqnum flags : ℕ)
    → flags < 16777216
    → (valid (control_msg garbage seqnum flags) ≡ true)
      × (get_total_length (control_msg garbage seqnum flags) ≡ 12)
unfolding valid control_msg checksum_of get_total_length
control_msg-valid garbage seqnum flags h =
    let m = control_msg garbage seqnum flags in
    let z : flags / 16777216 % 256 ≡ 0 = omega arith in (rw (last_byte-zero m refl, z) refl, refl)

-- A default-constructed message is never accepted.
pub default_msg-invalid : (garbage : List ℕ) → valid (default_msg garbage) ≡ false
unfolding valid default_msg checksum_of
default_msg-invalid garbage = let m = default_msg garbage in rw (last_byte-zero m refl) refl

-- What the data constructor makes.
pub record Carries (m : Msg) (seqnum : ℕ) (src : List ℕ) (len flags : ℕ) : Type 0 where
  pub is_valid : valid m ≡ true
  pub total : get_total_length m ≡ 12 + len
  pub carried : take m.length m.payload ≡ take len src
  pub len_eq : m.length ≡ len
  pub seqnum_eq : m.seqnum ≡ seqnum
  pub flags_eq : m.flags ≡ flags

get_or-take_append :
    (n : ℕ) (xs ys : List ℕ) (i : ℕ)
    → i < n
    → n ≤ length xs
    → get_or (take n xs ++ ys) i 0 ≡ get_or xs i 0
get_or-take_append n xs ys i h k = get_or-pad_in i n xs ys 0 h (omega arith)

-- The message that the constructor makes if its assertion holds.
abbrev pub filled : List ℕ → ℕ → List ℕ → ℕ → ℕ → Msg
filled garbage seqnum src len flags = record {
  checksum = checksum_of (get_or src (len - 1) 0);
  seqnum = seqnum;
  length = len % u16_mod;
  flags = flags;
  payload = take len src ++ drop len garbage;
}

pub data_msg-eq_some :
    (garbage : List ℕ) (seqnum : ℕ) (src : List ℕ) (len flags : ℕ) {m : Msg}
    → data_msg garbage seqnum src len flags ≡ some m
    → (len ≤ max_data_length) × (filled garbage seqnum src len flags ≡ m)
unfolding data_msg
data_msg-eq_some garbage seqnum src len flags e = ground arith

pub data_msg-small :
    (garbage : List ℕ) (seqnum : ℕ) (src : List ℕ) (len flags : ℕ)
    → len ≤ max_data_length
    → data_msg garbage seqnum src len flags ≡ some (filled garbage seqnum src len flags)
unfolding data_msg
data_msg-small garbage seqnum src len flags h = rw (le→leb len max_data_length h) refl

filled-Carries :
    (garbage : List ℕ) (seqnum : ℕ) (src : List ℕ) (len flags : ℕ)
    → 0 < len
    → len ≤ length src
    → len ≤ max_data_length
    → Carries (filled garbage seqnum src len flags) seqnum src len flags
unfolding valid
filled-Carries garbage seqnum src len flags pos fits small =
    let m = filled garbage seqnum src len flags in
    let len_ok : len % u16_mod ≡ len = omega arith in
    let last : last_byte m ≡ get_or src (len - 1) 0 =
      last_byte-suc m (len - 1) (omega arith)
      ∙ get_or-take_append len src (drop len garbage) (len - 1) (omega arith) fits in
    record {
      is_valid = ground (arith, last);
      total = get_total_length-eq m (omega arith) ∙ ap (λ k. 12 + k) len_ok;
      carried = rw len_ok (
          take-append_left len (take len src) (drop len garbage)
            (omega (arith, length-take len src))
          ∙ take_all len (take len src) (omega (arith, length-take len src)));
      len_eq = len_ok;
      seqnum_eq = refl;
      flags_eq = refl;
    }

-- A message made from 1 to 500 bytes is accepted, carries exactly those bytes, the sequence number
-- and the flags, and is as long as the header and the bytes.
pub data_msg-Carries :
    (garbage : List ℕ) (seqnum : ℕ) (src : List ℕ) (len flags : ℕ) {m : Msg}
    → 0 < len
    → len ≤ length src
    → data_msg garbage seqnum src len flags ≡ some m
    → Carries m seqnum src len flags
data_msg-Carries garbage seqnum src len flags pos fits e =
    let (small, made) = data_msg-eq_some garbage seqnum src len flags e in
    subst (λ m. Carries m seqnum src len flags) made
      (filled-Carries garbage seqnum src len flags pos fits small)

checksum_of-injective : (a b : ℕ) → IsByte a → IsByte b → checksum_of a ≡ checksum_of b → a ≡ b
unfolding checksum_of
checksum_of-injective a b ha hb e = ground arith

-- The checksum finds any change of the last byte: two accepted messages with the same checksum
-- agree on the byte that it is computed from.
pub valid-last_byte :
    (m n : Msg)
    → valid m ≡ true
    → valid n ≡ true
    → m.checksum ≡ n.checksum
    → IsByte (checked_byte m)
    → IsByte (checked_byte n)
    → checked_byte m ≡ checked_byte n
valid-last_byte m n hm hn e bm bn =
    checksum_of-injective (checked_byte m) (checked_byte n) bm bn
      (sym ((valid_iff m).0 hm).1 ∙ e ∙ ((valid_iff n).0 hn).1)

-- The checksum finds no other change: an accepted message stays accepted whatever is written to its
-- sequence number and to a byte of its data before the last.
pub valid-blind :
    (m : Msg) (seqnum i b : ℕ)
    → i + 1 < m.length
    → valid (record m { seqnum = seqnum; payload = set m.payload i b }) ≡ valid m
unfolding valid
valid-blind m seqnum i b h =
    let n = record m { seqnum = seqnum; payload = set m.payload i b } in
    let same : last_byte n ≡ last_byte m =
      last_byte-suc n (m.length - 1) (omega arith)
      ∙ get_or-set_ne m.payload i (m.length - 1) b 0 (omega arith)
      ∙ sym (last_byte-suc m (m.length - 1) (omega arith)) in
    rw same refl

or_test : ℕ → ℕ → ℕ → Bool
unfolding bool_eq
or_test a b c = bool_eq (bit_and (bit_or a b) c == c) (bit_and a c == c || bit_and b c == c)

or_tests : ℕ → ℕ → Bool
or_tests a b = or_test a b 1 && (or_test a b 2 && or_test a b 4)

or_table : passes_below (λ a. passes_below (or_tests a) 8) 8 ≡ true
unfolding passes_below or_test or_tests
or_table = refl

bool_eq_sound : (x y : Bool) → bool_eq x y ≡ true → x ≡ y
unfolding bool_eq
bool_eq_sound true y h = sym h
bool_eq_sound false y h = ground arith

-- Of flags that are combined, exactly those are set that one side has, for each of the three flags.
pub has_flag-or_flags :
    (m : Msg) (a b c : ℕ)
    → a < 8
    → b < 8
    → (c ≡ 1) ⊎ (c ≡ 2) ⊎ (c ≡ 4)
    → has_flag (record m { flags = or_flags a b }) c
      ≡ (has_flag (record m { flags = a }) c || has_flag (record m { flags = b }) c)
unfolding has_flag or_flags or_test or_tests
has_flag-or_flags m a b c ha hb hc =
    let all_b = passes_below_lem (λ a. passes_below (or_tests a) 8) 8 ha or_table in
    let h : or_tests a b ≡ true = passes_below_lem (or_tests a) 8 hb all_b in
    bool_eq_sound _ _ (ground arith)
