-- ===== src/Net/Logged.antt =====
-- a4/ucp.c: what the log of `sendto` may hold after a call of `ucpSendTo`, by a property of
-- packets.
use ece.Prelude.{
  ltb, ◌==◌, if-elim, length, take, All, ℕ, ◌+◌, ◌%◌, ◌<◌, ◌≡◌, refl, sym, subst, List, arith, ℤ,
}
use ece.Net.{Addr, Packet, Os, World, tick}
use ece.Net.Ucp.{
  evil_percent, get_rand, random_bytes, send_out, send_cut, send_noise, do_evil, ucp_send_to,
  random_bytes-noise,
}

-- Every packet sent so far has the property.
abbrev pub Logged : (List ℕ → Type 0) → World → Type 0
Logged P w = All (λ (p : Packet). P p.bytes) w.sent

module _ (os : Os) where
  -- Whatever a call may make of a packet has it: the packet, its prefixes and noise.
  pub record Carried (P : List ℕ → Type 0) (buf : List ℕ) : Type 0 where
    pub whole : P buf
    pub cut : (n : ℕ) → n < length buf → P (take n buf)
    pub noise : (n : ℕ) (w : World) → P (random_bytes os n w).0

  module _ (P : List ℕ → Type 0) (fd : ℤ) (buf : List ℕ) (to : Addr) (c : Carried P buf) where
    one_more :
        (bs : List ℕ) (w v : World)
        → v.sent ≡ w.sent
        → P bs
        → Logged P w
        → Logged P (send_out os fd bs to v).1
    unfolding send_out
    one_more bs w v same p log = (p, subst (All (λ (p : Packet). P p.bytes)) (sym same) log)

    do_evil-Logged : (w : World) → 0 < length buf → Logged P w → Logged P (do_evil os fd buf to w).1
    unfolding do_evil get_rand send_cut send_noise
    do_evil-Logged w some_bytes log =
        if-elim (λ (r : ℤ × World). Logged P r.1) (os.urandom w.clock % 3 == 0)
          (λ _.
            one_more _ w (tick (tick w)) refl
              (c.cut (os.urandom (w.clock + 1) % length buf) (omega arith)) log)
          λ _.
            if-elim (λ (r : ℤ × World). Logged P r.1) (os.urandom w.clock % 3 == 1)
              (λ _.
                one_more _ w (random_bytes os (length buf) (tick w)).1
                  (random_bytes-noise os (length buf) (tick w)).2 (c.noise (length buf) (tick w))
                  log)
              λ _. log

    pub ucp_send_to-Logged : (w : World) → Logged P w → Logged P (ucp_send_to os fd buf to w).1
    unfolding ucp_send_to get_rand
    ucp_send_to-Logged w log =
        if-elim (λ (r : ℤ × World). Logged P r.1) (length buf == 0) (λ _. log)
          λ e.
            if-elim (λ (r : ℤ × World). Logged P r.1) (ltb (os.urandom w.clock % 100) evil_percent)
              (λ _. do_evil-Logged (tick w) (ground arith) log)
              (λ _. one_more buf w (tick w) refl c.whole log)
