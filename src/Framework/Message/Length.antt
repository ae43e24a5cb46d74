-- ===== src/Framework/Message/Length.antt =====
-- framework/message.cpp: the length and the canary that finalize writes and validate reads.
use fall23_p.Prelude.{
  ◌-◌, ◌∙◌, ap, ℕ, ◌+◌, ◌*◌, ◌<◌, ◌≤◌, ◌^◌, ◌≡◌, Bool, true, false, some, arith, ◌⊎◌, inl, ◌>>=◌,
}
use fall23_p.Framework.Message.{
  MessageType, noop, setup_ctrl, setup_pcap, topology, start_mixnet_server, start_mixnet_clients,
  resolve_mixnet_conns, change_link_state, pcap_data, pcap_subscription, send_packet,
  payload_length, compute_total_length, get_total_length, is_request, canary, get_type, finalize,
  validate,
}
use fall23_p.Framework.Buffer.{
  Buffer, read16, write32, write16, read32, read16-write32_apart, read32-write32, read16-write16,
}

-- The bytes that the payload really takes, whatever the width of length_t.
unfoldable pub payload_bytes : Bool → MessageType → Buffer → ℕ
payload_bytes true setup_ctrl b = 1
payload_bytes false setup_ctrl b = 4
payload_bytes true setup_pcap b = 16
payload_bytes true topology b = 16 + read16 b 10 * 2
payload_bytes false start_mixnet_server b = 16
payload_bytes r start_mixnet_clients b = 8 + read16 b 8 * 16
payload_bytes true resolve_mixnet_conns b = 8 + read16 b 8 * 16
payload_bytes true change_link_state b = 4
payload_bytes false pcap_data b = read16 b 8
payload_bytes true pcap_subscription b = 1
payload_bytes true send_packet b = 8 + read16 b 14
payload_bytes _ _ b = 0

-- A type with a payload layout, whose count field is part of the payload.
abbrev pub HasLayout : Bool → MessageType → Buffer → Type 0
HasLayout r noop b = ⊥
HasLayout false pcap_data b = 2 ≤ read16 b 8
HasLayout r t b = Unit {0}

payload_length-bytes :
    (r : Bool) (t : MessageType) (b : Buffer)
    → HasLayout r t b
    → 12 + payload_bytes r t b < 2 ^ 16
    → payload_length r t b ≡ some (payload_bytes r t b)
unfolding payload_length payload_bytes
payload_length-bytes true noop b l h = absurd l
payload_length-bytes false noop b l h = absurd l
payload_length-bytes true _ b l h = ground arith
payload_length-bytes false _ b l h = ground arith

-- The length depends on the payload's own bytes alone.
payload_bytes-agree :
    (r : Bool) (t : MessageType) (b c : Buffer)
    → HasLayout r t b
    → ((i : ℕ) → 8 ≤ i → i < 8 + payload_bytes r t b → c i ≡ b i)
    → (payload_bytes r t c ≡ payload_bytes r t b) × HasLayout r t c
unfolding payload_bytes read16
payload_bytes-agree true noop b c l h = absurd l
payload_bytes-agree false noop b c l h = absurd l
payload_bytes-agree true _ b c l h = ground (arith, h 8, h 9, h 10, h 11, h 14, h 15)
payload_bytes-agree false _ b c l h = ground (arith, h 8, h 9)

-- The message that finalize makes, with `n` bytes of payload.
sealed : Buffer → ℕ → Buffer
sealed b n = write32 (write16 b 0 (12 + n)) (8 + n) canary

sealed-untouched : (b : Buffer) (n i : ℕ) → (i < 2) ⊎ ((8 + n ≤ i) ⊎ (sealed b n i ≡ b i))
unfolding sealed write16 write32
sealed-untouched b n i = ground arith

sealed-payload : (b : Buffer) (n i : ℕ) → 2 ≤ i → i < 8 + n → sealed b n i ≡ b i
unfolding sealed write16 write32
sealed-payload b n i h k = ground arith

sealed-code : (b : Buffer) (n : ℕ) → read16 (sealed b n) 2 ≡ read16 b 2
unfolding read16
sealed-code b n = ground (arith, sealed-payload b n 2, sealed-payload b n 3)

sealed-total_length :
    (b : Buffer) (n : ℕ) → 12 + n < 2 ^ 16 → get_total_length (sealed b n) ≡ 12 + n
unfolding sealed get_total_length
sealed-total_length b n h =
    read16-write32_apart (write16 b 0 (12 + n)) (8 + n) 0 canary (inl (omega arith))
    ∙ read16-write16 b 0 (12 + n) h

sealed-canary : (b : Buffer) (n : ℕ) → read32 (sealed b n) (8 + n) ≡ canary
unfolding sealed
sealed-canary b n = read32-write32 (write16 b 0 (12 + n)) (8 + n) canary (omega arith)

compute_total_length-bytes :
    (b : Buffer) (r : Bool) (t : MessageType)
    → is_request b ≡ r
    → get_type b ≡ some t
    → HasLayout r t b
    → 12 + payload_bytes r t b < 2 ^ 16
    → compute_total_length b ≡ some (12 + payload_bytes r t b)
unfolding compute_total_length
compute_total_length-bytes b r t direction type l h =
    rw (type, direction, payload_length-bytes r t b l h) (ground arith)

finalize-sealed :
    (b : Buffer) (n : ℕ)
    → 12 + n < 2 ^ 16
    → compute_total_length b ≡ some (12 + n)
    → finalize b ≡ some (sealed b n)
unfolding finalize sealed
finalize-sealed b n h e =
    let at : 12 + n - 4 ≡ 8 + n = omega arith in rw (e, ◌>>=◌) (rw at (ground arith))

validate_of_canary :
    (c : Buffer) (n : ℕ)
    → 12 + n < 2 ^ 16
    → compute_total_length c ≡ some (12 + n)
    → read32 c (8 + n) ≡ canary
    → validate c ≡ some true
unfolding validate
validate_of_canary c n h e k =
    let at : 12 + n - 4 ≡ 8 + n = omega arith in rw (e, ◌>>=◌) (rw at (ground arith))

module _ (b : Buffer) (r : Bool) (t : MessageType) (direction : is_request b ≡ r)
    (type : get_type b ≡ some t) (l : HasLayout r t b) (h : 12 + payload_bytes r t b < 2 ^ 16) where
  abbrev n : ℕ
  n = payload_bytes r t b

  sealed-length : compute_total_length (sealed b n) ≡ some (12 + n)
  unfolding is_request get_type
  sealed-length =
      let (same, layout) =
        payload_bytes-agree r t b (sealed b n) l
          (λ i low high. sealed-payload b n i (omega arith) high) in
      compute_total_length-bytes (sealed b n) r t (rw (sealed-code b n) direction)
        (rw (sealed-code b n) type) layout (omega arith)
      ∙ ap (λ m. some (12 + m)) same

  -- finalize on a message of a type that has a payload in its direction, whose length fits 16 bits,
  -- succeeds and gives a message that validate accepts, whose header has the length of header, payload
  -- and canary, and which differs from the message only in the length field and behind the payload.
  pub finalize-validate :
      (c : Buffer) × (finalize b ≡ some c)
      × (validate c ≡ some true)
      × (get_total_length c ≡ 12 + payload_bytes r t b)
      × ((i : ℕ) → (i < 2) ⊎ ((8 + payload_bytes r t b ≤ i) ⊎ (c i ≡ b i)))
  finalize-validate = (
    sealed b n,
    finalize-sealed b n h (compute_total_length-bytes b r t direction type l h),
    validate_of_canary (sealed b n) n h sealed-length (sealed-canary b n),
    sealed-total_length b n h,
    sealed-untouched b n,
  )
