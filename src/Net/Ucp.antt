-- ===== src/Net/Ucp.antt =====
-- a4/ucp.c: `ucpSendTo` loses, cuts or corrupts 37 packets of 100.
use ece.Prelude.{
  ltb, ◌==◌, if◌then◌else◌, if-elim, length, take, All, IsByte, ℕ, zero, suc, ◌+◌, ◌%◌, ◌<◌, ◌≡◌,
  refl, ap, ◌∙◌, false, List, [], ◌∷◌, ◌++◌, map, arith, ℤ, pos, failure,
}
use ece.Net.{Addr, Packet, Os, World, tick, einval}

-- `pDoEvil`
abbrev pub evil_percent : ℕ
evil_percent = 37

module _ (os : Os) where
  -- `get_rand`
  unfoldable pub get_rand : World → ℕ × World
  get_rand w = (os.urandom w.clock, tick w)

  -- The loop that overwrites every byte of `sendBuf`.
  unfoldable pub random_bytes : ℕ → World → List ℕ × World
  unfolding get_rand
  random_bytes zero w = ([], w)
  random_bytes (suc n) w =
      let (r, w1) = get_rand w in let (bs, w2) = random_bytes n w1 in (r % 256 ∷ bs, w2)

  -- The call of `sendto`.
  unfoldable pub send_out : ℤ → List ℕ → Addr → World → ℤ × World
  send_out fd bytes to w = (
    os.sendto w.clock,
    record w {
      clock = w.clock + 1;
      sent = record { socket = fd; to = to; bytes = bytes } ∷ w.sent;
    },
  )

  -- `evilKind` 0: only a part is sent.
  unfoldable pub send_cut : ℤ → List ℕ → Addr → World → ℤ × World
  unfolding get_rand send_out
  send_cut fd buf to w = let (r, w') = get_rand w in send_out fd (take (r % length buf) buf) to w'

  -- `evilKind` 1: all bytes are random.
  unfoldable pub send_noise : ℤ → List ℕ → Addr → World → ℤ × World
  unfolding random_bytes send_out
  send_noise fd buf to w = let (bs, w') = random_bytes (length buf) w in send_out fd bs to w'

  -- The choice of the kind; 2 is to send nothing.
  unfoldable pub do_evil : ℤ → List ℕ → Addr → World → ℤ × World
  do_evil fd buf to w =
      let (kind, w') = get_rand w in
      if kind % 3 == 0
      then send_cut fd buf to w'
      else if kind % 3 == 1
      then send_noise fd buf to w'
      else (pos (length buf), w')

  -- `ucpSendTo(sockfd, buf, len, to)`, where `buf` is the first `len` bytes.
  unfoldable pub ucp_send_to : ℤ → List ℕ → Addr → World → ℤ × World
  ucp_send_to fd buf to w =
      if length buf == 0
      then (failure, record w { errno = einval })
      else (let (r, w') = get_rand w in
          if ltb (r % 100) evil_percent then do_evil fd buf to w' else send_out fd buf to w')

-- What one call may hand to the network: nothing, the packet, a proper prefix of it, or noise of
-- the same length.
pub data Sends (buf : List ℕ) : List (List ℕ) → Type 0 where
  whole : Sends buf (buf ∷ [])
  cut : (n : ℕ) → n < length buf → Sends buf (take n buf ∷ [])
  noise : (bs : List ℕ) → length bs ≡ length buf → All IsByte bs → Sends buf (bs ∷ [])
  lost : Sends buf []

-- The datagrams of the packets in a log.
abbrev pub datagrams : List Packet → List (List ℕ)
datagrams = map (λ p. p.bytes)

-- All but the log, the clock and `errno` is as it was.
pub record SameBut (w v : World) : Type 0 where
  pub arrivals : v.arrivals ≡ w.arrivals
  pub timeouts : v.timeouts ≡ w.timeouts
  pub closed : v.closed ≡ w.closed

-- What one call of `ucpSendTo` may do.
pub record SendsOnly (fd : ℤ) (buf : List ℕ) (to : Addr) (w v : World) : Type 0 where
  pub packets : List Packet
  pub log : v.sent ≡ packets ++ w.sent
  pub kinds : Sends buf (datagrams packets)
  pub route : All (λ p. (p.socket ≡ fd) × (p.to ≡ to)) packets
  pub same : SameBut w v

module _ (os : Os) where
  pub random_bytes-noise :
      (n : ℕ) (w : World)
      → (length (random_bytes os n w).0 ≡ n)
        × All IsByte (random_bytes os n w).0
        × ((random_bytes os n w).1.sent ≡ w.sent)
        × SameBut w (random_bytes os n w).1
  unfolding random_bytes
  random_bytes-noise zero w =
      (refl, tt, refl, record { arrivals = refl; timeouts = refl; closed = refl })
  random_bytes-noise (suc n) w =
      let (len, bytes, same, but) = random_bytes-noise n (tick w) in
      (
        ap suc len,
        (omega arith, bytes),
        same,
        record { arrivals = but.arrivals; timeouts = but.timeouts; closed = but.closed },
      )

  module _ (fd : ℤ) (buf : List ℕ) (to : Addr) where
    one_packet :
        (bs : List ℕ) (w v : World)
        → v.sent ≡ w.sent
        → SameBut w v
        → Sends buf (bs ∷ [])
        → SendsOnly fd buf to w (send_out os fd bs to v).1
    unfolding send_out
    one_packet bs w v log same kinds = record {
      packets = record { socket = fd; to = to; bytes = bs } ∷ [];
      log = ap (◌∷◌ (record { socket = fd; to = to; bytes = bs })) log;
      kinds = kinds;
      route = ((refl, refl), tt);
      same = record { arrivals = same.arrivals; timeouts = same.timeouts; closed = same.closed };
    }

    do_evil-SendsOnly :
        (w v : World)
        → v.sent ≡ w.sent
        → SameBut w v
        → 0 < length buf
        → SendsOnly fd buf to w (do_evil os fd buf to v).1
    unfolding do_evil get_rand send_cut send_noise
    do_evil-SendsOnly w v log same some_bytes =
        if-elim (λ (r : ℤ × World). SendsOnly fd buf to w r.1) (os.urandom v.clock % 3 == 0)
          (λ _.
            one_packet _ w (tick (tick v)) log
              (record { arrivals = same.arrivals; timeouts = same.timeouts; closed = same.closed })
              (cut (os.urandom (v.clock + 1) % length buf) (omega arith)))
          λ _.
            if-elim (λ (r : ℤ × World). SendsOnly fd buf to w r.1) (os.urandom v.clock % 3 == 1)
              (λ _.
                let (len, bytes, sent, but) = random_bytes-noise (length buf) (tick v) in
                one_packet _ w _ (sent ∙ log)
                  (record {
                    arrivals = but.arrivals ∙ same.arrivals;
                    timeouts = but.timeouts ∙ same.timeouts;
                    closed = but.closed ∙ same.closed;
                  })
                  (noise _ len bytes))
              λ _. record {
                packets = [];
                log = log;
                kinds = lost;
                route = tt;
                same = record {
                  arrivals = same.arrivals;
                  timeouts = same.timeouts;
                  closed = same.closed;
                };
              }

    -- However the random numbers fall, one call of `ucpSendTo` on a packet with bytes sends
    -- nothing, the packet, a proper prefix of it or noise of the same length, once, on that socket
    -- and to that address, and touches nothing else of the network.
    pub ucp_send_to-SendsOnly :
        (w : World) → 0 < length buf → SendsOnly fd buf to w (ucp_send_to os fd buf to w).1
    unfolding ucp_send_to get_rand
    ucp_send_to-SendsOnly w some_bytes =
        let test : (length buf == 0) ≡ false = ground arith in
        let same : SameBut w (tick w) = record {
          arrivals = refl;
          timeouts = refl;
          closed = refl;
        } in
        rw test (
          if-elim (λ (r : ℤ × World). SendsOnly fd buf to w r.1)
            (ltb (os.urandom w.clock % 100) evil_percent)
            (λ _. do_evil-SendsOnly w (tick w) refl same some_bytes)
            (λ _. one_packet buf w (tick w) refl same whole))

  -- Whatever the packet, a call leaves the arrivals, the timeouts and the open sockets alone.
  pub ucp_send_to-SameBut :
      (fd : ℤ) (buf : List ℕ) (to : Addr) (w : World) → SameBut w (ucp_send_to os fd buf to w).1
  ucp_send_to-SameBut fd [] to w =
      unfold ucp_send_to in record { arrivals = refl; timeouts = refl; closed = refl }
  ucp_send_to-SameBut fd (b ∷ bs) to w = (ucp_send_to-SendsOnly fd (b ∷ bs) to w (omega arith)).same
