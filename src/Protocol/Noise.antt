-- ===== src/Protocol/Noise.antt =====
-- That the noise of the examples' channel never passes for a message.
use ece.Prelude.{
  ◌==◌, Bool-cases, if-elim, replicate, length-replicate, ℕ, zero, suc, ◌+◌, ◌-◌, ◌≡◌, refl, ap,
  inl, inr, false, Option, none, ◌∷◌, arith, dec_lt,
}
use ece.Msg.{Msg, valid, deserialize}
use ece.Msg.Layout.{get_total_length-eq}
use ece.Msg.Validity.{valid_iff}
use ece.Msg.Wire.{buffer_of, byte_count, intact}
use ece.Net.{Addr, World, datagram}
use ece.Net.Ucp.{get_rand, random_bytes}
use ece.Net.Sample.{calm}
use ece.Socket.Quiet.{heard}
use ece.Protocol.Echo.{IsUnforged}

-- The noise that this system's channel would make.
noise_eq : (n : ℕ) (w : World) → (random_bytes calm n w).0 ≡ replicate n 50
unfolding random_bytes get_rand
noise_eq zero w = refl
noise_eq (suc n) w = ap (◌∷◌ 50) (noise_eq n (record w { clock = w.clock + 1 }))

length_of_noise : (k : ℕ) → (deserialize (buffer_of (replicate (12 + k) 50))).length ≡ 12850
unfolding deserialize buffer_of
length_of_noise k =
    let e : 12 + k ≡ suc (suc (suc (suc (suc (suc (suc (suc (suc (suc (suc (suc k))))))))))) =
      omega arith in
    rw e refl

-- Shorter than a header, or with a length field of 12850.
noise-intact :
    (n : ℕ)
    → intact (byte_count (replicate n 50)) (deserialize (buffer_of (replicate n 50))) ≡ false
unfolding intact
noise-intact n =
    let m = deserialize (buffer_of (replicate n 50)) in
    elim (Bool-cases (valid m)) [
      | inl ok_ ↦
          let small = ((valid_iff m).0 ok_).0 in
          elim (dec_lt n 12) [
            | yes lt ↦
                ground (arith, get_total_length-eq m (omega arith), length-replicate {A = ℕ} n 50)
            | no ge ↦
                let e : n ≡ 12 + (n - 12) = omega arith in
                let long : m.length ≡ 12850 = rw e (length_of_noise (n - 12)) in
                absurd (omega (arith))
          ]
      | inr bad ↦ rw bad refl
    ]

noise_unheard : (n : ℕ) (from : Addr) → heard (datagram (replicate n 50) from) ≡ none
unfolding heard
noise_unheard n from = rw (noise-intact n) (
    if-elim (λ (r : Option Msg). r ≡ none) (byte_count (replicate n 50) == 0) (λ _. refl)
      (λ _. refl))

pub calm-IsUnforged : IsUnforged calm
calm-IsUnforged n w from = rw (noise_eq n w) (noise_unheard n from)
