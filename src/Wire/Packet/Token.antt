-- ===== src/Wire/Packet/Token.antt =====
-- Token packets: what `token_packet` and `sof_packet` build and what `parse_packet` accepts agree.
use embassy_rp_pio_usb_host.Common.{
  ℕ, ◌+◌, ◌*◌, ◌/◌, ◌%◌, ◌<◌, ◌≡◌, refl, sym, ap, ◌∙◌, subst, true, [], ◌∷◌, ok, err, ◌==◌,
  if◌then◌else◌, Bytes, IsBytes, arith, bit_and, bit_or, Bool-cases, inl, inr, ==_iff, ◌⊎◌,
}
use embassy_rp_pio_usb_host.Common.Bits.{bit_or_low, bit_or_high, bit_and_mask}
use embassy_rp_pio_usb_host.Wire.Crc.{crc5_token, crc5_token-lt}
use embassy_rp_pio_usb_host.Wire.Pid.{sync, pid_sof, pid_out, pid_in, pid_setup, is_token_pid}
use embassy_rp_pio_usb_host.Wire.Packet.{
  ParsedPacket, PacketError, token_bytes, token_packet, sof_packet, parse_packet, parse_token,
}

-- The four bytes of a token, as arithmetic.
token_bytes_lem :
    (pid value : ℕ)
    → value < 2048
    → token_bytes pid value ≡ sync ∷ pid ∷ (value % 256) ∷ (crc5_token value * 8 + value / 256) ∷ []
token_bytes_lem pid value h =
    let top : bit_and (value / 256 % 256) 7 ≡ value / 256 =
      omega (arith, bit_and_mask 3 (value / 256 % 256) 7 refl) in
    let crc : crc5_token value * 8 % 256 ≡ crc5_token value * 8 =
      omega (arith, crc5_token-lt value) in
    rw (top, crc, bit_or_low 3 (value / 256) (crc5_token value) (omega arith))

-- The token arm on four bytes, as arithmetic.
parse_token_lem :
    (pid lo hi : ℕ)
    → lo < 256
    → parse_token pid (sync ∷ pid ∷ lo ∷ hi ∷ []) ≡ (
        if crc5_token (hi % 8 * 256 + lo) == hi / 8
        then ok (ParsedPacket.token pid (hi % 8 * 256 + lo))
        else err PacketError.invalid_crc5)
unfolding parse_token
parse_token_lem pid lo hi h =
    rw (bit_and_mask 3 hi 7 refl, bit_or_low 8 lo (hi % 8) h)
      (elim (Bool-cases (crc5_token (hi % 8 * 256 + lo) == hi / 8)) [
        | inl same ↦ rw same
        | inr differs ↦ rw differs
      ])

parse_packet_token :
    (pid lo hi : ℕ)
    → is_token_pid pid ≡ true
    → parse_packet (sync ∷ pid ∷ lo ∷ hi ∷ []) ≡ parse_token pid (sync ∷ pid ∷ lo ∷ hi ∷ [])
unfolding parse_packet parse_token
parse_packet_token pid lo hi h = ground arith

parse_packet-token_bytes :
    (pid value : ℕ)
    → is_token_pid pid ≡ true
    → value < 2048
    → parse_packet (token_bytes pid value) ≡ ok (ParsedPacket.token pid value)
parse_packet-token_bytes pid value h small =
    let hi = crc5_token value * 8 + value / 256 in
    let back : hi % 8 * 256 + value % 256 ≡ value = omega arith in
    let crc : hi / 8 ≡ crc5_token value = omega arith in
    ap parse_packet (token_bytes_lem pid value small)
    ∙ parse_packet_token pid (value % 256) hi h
    ∙ parse_token_lem pid (value % 256) hi (omega arith)
    ∙ rw (back, crc, (==_iff (crc5_token value) _).1 refl)

-- An OUT, IN or SETUP token for a seven-bit address and a four-bit endpoint is read back by
-- `parse_packet` with the address in the low seven bits of its value and the endpoint above them.
pub parse_packet-token_packet :
    (pid address endpoint : ℕ)
    → (pid ≡ pid_out) ⊎ ((pid ≡ pid_in) ⊎ (pid ≡ pid_setup))
    → address < 128
    → endpoint < 16
    → parse_packet (token_packet pid address endpoint)
      ≡ ok (ParsedPacket.token pid (endpoint * 128 + address))
unfolding token_packet
parse_packet-token_packet pid address endpoint p a e =
    let low : bit_and address 0x7f ≡ address = omega (arith, bit_and_mask 7 address 0x7f refl) in
    let high : bit_and endpoint 0x0f ≡ endpoint =
      omega (arith, bit_and_mask 4 endpoint 0x0f refl) in
    let value : bit_or (bit_and endpoint 0x0f * 128) (bit_and address 0x7f)
        ≡ endpoint * 128 + address =
      rw (low, high) (bit_or_high 7 endpoint address a) in
    ap (λ (v : ℕ). parse_packet (token_bytes pid v)) value
    ∙ parse_packet-token_bytes pid (endpoint * 128 + address) (ground arith) (omega arith)

-- A start-of-frame packet is read back with the frame number modulo 2048, for every frame number.
pub parse_packet-sof_packet :
    (frame : ℕ) → parse_packet (sof_packet frame) ≡ ok (ParsedPacket.token pid_sof (frame % 2048))
unfolding sof_packet
parse_packet-sof_packet frame =
    ap (λ (v : ℕ). parse_packet (token_bytes pid_sof v)) (bit_and_mask 11 frame 0x07ff refl)
    ∙ parse_packet-token_bytes pid_sof (frame % 2048) refl (omega arith)

-- What an accepted token shows of its bytes.
record TokenParts (pid value : ℕ) (bytes : Bytes) : Type 0 where
  lo : ℕ
  hi : ℕ
  is_token : is_token_pid pid ≡ true
  layout : bytes ≡ sync ∷ pid ∷ lo ∷ hi ∷ []

token_parts :
    (pid value : ℕ) (bytes : Bytes)
    → parse_packet bytes ≡ ok (ParsedPacket.token pid value)
    → TokenParts pid value bytes
unfolding parse_packet
token_parts pid value [] h = cc
token_parts pid value (a ∷ []) h = cc
token_parts pid value (a ∷ b ∷ []) h = absurd (ground arith)
token_parts pid value (a ∷ b ∷ c ∷ []) h = absurd (ground arith)
token_parts pid value (a ∷ b ∷ c ∷ d ∷ []) h = record {
  lo = c;
  hi = d;
  is_token = ground arith;
  layout = ground arith;
}
token_parts pid value (a ∷ b ∷ c ∷ d ∷ e ∷ rest) h = absurd (ground arith)

token_cut :
    (pid value lo hi : ℕ)
    → lo < 256
    → hi < 256
    → is_token_pid pid ≡ true
    → parse_packet (sync ∷ pid ∷ lo ∷ hi ∷ []) ≡ ok (ParsedPacket.token pid value)
    → (value < 2048) × (sync ∷ pid ∷ lo ∷ hi ∷ [] ≡ token_bytes pid value)
token_cut pid value lo hi lo-lt hi-lt is_token h =
    let v = hi % 8 * 256 + lo in
    let parsed : (if crc5_token v == hi / 8
          then ok (ParsedPacket.token pid v)
          else err PacketError.invalid_crc5)
        ≡ ok (ParsedPacket.token pid value) =
      sym (parse_token_lem pid lo hi lo-lt) ∙ sym (parse_packet_token pid lo hi is_token) ∙ h in
    let same : v ≡ value = ground arith in
    let small : v < 2048 = omega arith in
    let crc : crc5_token v ≡ hi / 8 = ground arith in
    let lo_is : v % 256 ≡ lo = omega arith in
    let hi_is : crc5_token v * 8 + v / 256 ≡ hi = omega arith in
    rw (← same) (small, sym (token_bytes_lem pid v small ∙ rw (lo_is, hi_is)))

-- Whatever `parse_packet` accepts as a token has an eleven-bit value, and is byte for byte the
-- packet that `sof_packet` builds from the value, or that `token_packet` builds from the address
-- and the endpoint in it.
pub token_packet-parse_packet :
    (pid value : ℕ) (bytes : Bytes)
    → IsBytes bytes
    → parse_packet bytes ≡ ok (ParsedPacket.token pid value)
    → (value < 2048)
      × (((pid ≡ pid_sof) × (bytes ≡ sof_packet value))
          ⊎ (((pid ≡ pid_out) ⊎ ((pid ≡ pid_in) ⊎ (pid ≡ pid_setup)))
              × (bytes ≡ token_packet pid (value % 128) (value / 128))))
unfolding token_packet sof_packet
token_packet-parse_packet pid value bytes bs h =
    let parts = token_parts pid value bytes h in
    let in_range = subst IsBytes parts.layout bs in
    let (small, built) =
      token_cut pid value parts.lo parts.hi in_range.1.1.0 in_range.1.1.1.0 parts.is_token
        (ap parse_packet (sym parts.layout) ∙ h) in
    let whole : bytes ≡ token_bytes pid value = parts.layout ∙ built in
    let frame : bit_and value 0x07ff ≡ value = omega (arith, bit_and_mask 11 value 0x07ff refl) in
    let low : bit_and (value % 128) 0x7f ≡ value % 128 =
      omega (arith, bit_and_mask 7 (value % 128) 0x7f refl) in
    let high : bit_and (value / 128) 0x0f ≡ value / 128 =
      omega (arith, bit_and_mask 4 (value / 128) 0x0f refl) in
    let fields : bit_or (bit_and (value / 128) 0x0f * 128) (bit_and (value % 128) 0x7f) ≡ value =
      rw (low, high) (bit_or_high 7 (value / 128) (value % 128) (omega arith) ∙ omega arith) in
    (
      small,
      elim (Bool-cases (pid == pid_sof)) [
        | inl sof ↦
            let is_sof : pid ≡ pid_sof = (==_iff _ _).0 sof in
            inl (is_sof, rw frame (whole ∙ ap (λ (p : ℕ). token_bytes p value) is_sof))
        | inr other ↦ inr (ground (arith, parts.is_token), rw fields whole)
      ],
    )
