-- ===== src/Msg/Tests.antt =====
-- Runs of the packet's operations, and examples of its theorems.
use ece.Prelude.{
  take, replicate, All-replicate, IsByte, ℕ, ◌≤◌, ◌≡◌, refl, ◌↔◌, true, false, none, some, List, [],
  ◌∷◌, arith,
}
use ece.Msg.Flags
use ece.Msg.{
  Msg, IsMsg, max_data_length, valid, data_msg, serialize, deserialize, get_total_length,
  checksum_of, last_byte,
}
use ece.Msg.Validity.{valid_iff, checked_byte}
use ece.Msg.Wire.{wire, buffer_of, intact, intact-cut}
use ece.Msg.Show.{show, show_overruns}

abbrev zeros : List ℕ
zeros = replicate 500 0

-- "AB", as message 7
abbrev sample : Msg
sample = record {
  checksum = 1072;
  seqnum = 7;
  length = 2;
  flags = 0;
  payload = 65 ∷ 66 ∷ replicate 498 0;
}

sample-IsMsg : IsMsg sample
sample-IsMsg = record {
  checksum_word = omega arith;
  seqnum_word = omega arith;
  length_word = omega arith;
  flags_word = omega arith;
  payload_size = refl;
  payload_bytes = (omega arith, (omega arith, All-replicate IsByte 498 0 (omega arith)));
}

sample-valid : valid sample ≡ true
unfolding valid checksum_of last_byte serialize
sample-valid = refl

made : data_msg zeros 7 (65 ∷ 66 ∷ []) 2 Flags.none ≡ some sample
unfolding data_msg checksum_of
made = refl

-- A byte of 128 or more is a negative `char`.
negative_char : checksum_of 255 ≡ 0
unfolding checksum_of
negative_char = refl

valid_iff_example :
    (valid sample ≡ true)
    ↔ ((sample.length ≤ max_data_length) × (sample.checksum ≡ checksum_of (checked_byte sample)))
valid_iff_example = valid_iff sample

intact-cut_example : intact 13 (deserialize (buffer_of (take 13 (wire sample)))) ≡ false
intact-cut_example =
    intact-cut 13 sample-IsMsg sample-valid (unfold wire get_total_length serialize in omega arith)

show_overruns_example :
    (show sample ≡ none) ↔ ((valid sample ≡ true) × (sample.length ≡ max_data_length))
show_overruns_example = show_overruns sample
