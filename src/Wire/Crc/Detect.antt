-- ===== src/Wire/Crc/Detect.antt =====
-- What the CRC-16 of usb.rs detects.
use embassy_rp_pio_usb_host.Common.{
  ℕ, zero, suc, ◌/◌, ◌^◌, ◌<◌, ◌≡◌, ◌≢◌, refl, sym, ap, ◌∙◌, [], ◌∷◌, ◌++◌, Bytes, IsBytes, arith,
  bit_xor,
}
use embassy_rp_pio_usb_host.Common.Bits.{
  bit_xor-lt, bit_xor_twice, bit_xor_top, bit_and_mask, bit_xor_comm,
}
use embassy_rp_pio_usb_host.Wire.Crc.{
  crc16_round, crc16_rounds, crc16_bytes, crc16_data, crc16_round-lt, crc16_rounds-lt,
  crc16_bytes-lt,
}

bit_xor_cancel :
    (w a b m : ℕ) → a < 2 ^ w → b < 2 ^ w → m < 2 ^ w → bit_xor a m ≡ bit_xor b m → a ≡ b
bit_xor_cancel w a b m p q r e =
    sym (bit_xor_twice w a m p r) ∙ ap (λ (t : ℕ). bit_xor t m) e ∙ bit_xor_twice w b m q r

-- A round keeps different states apart: the top bit of the result tells the parity of the state.
crc16_round_inj : (a b : ℕ) → a < 2 ^ 16 → b < 2 ^ 16 → crc16_round a ≡ crc16_round b → a ≡ b
unfolding crc16_round
crc16_round_inj a b p q e = ground (
  arith,
  bit_and_mask 1 a 1 refl,
  bit_and_mask 1 b 1 refl,
  bit_xor_top 15 (a / 2) 0x2001 (omega arith) (omega arith),
  bit_xor_top 15 (b / 2) 0x2001 (omega arith) (omega arith),
  bit_xor_cancel 16 (a / 2) (b / 2) 0xa001 (omega arith) (omega arith) (omega arith),
)

crc16_rounds_inj :
    (left a b : ℕ) → a < 2 ^ 16 → b < 2 ^ 16 → crc16_rounds left a ≡ crc16_rounds left b → a ≡ b
unfolding crc16_rounds
crc16_rounds_inj zero a b p q e = e
crc16_rounds_inj (suc left) a b p q e = crc16_round_inj a b p q (
    crc16_rounds_inj left (crc16_round a) (crc16_round b) (crc16_round-lt a p) (crc16_round-lt b q)
      e)

crc16_bytes_inj :
    (bytes : Bytes) (a b : ℕ)
    → IsBytes bytes
    → a < 2 ^ 16
    → b < 2 ^ 16
    → crc16_bytes bytes a ≡ crc16_bytes bytes b
    → a ≡ b
unfolding crc16_bytes
crc16_bytes_inj [] a b bs p q e = e
crc16_bytes_inj (x ∷ rest) a b bs p q e =
    let x-lt : x < 2 ^ 16 = omega (arith, bs.0) in
    let pa = bit_xor-lt 16 a x p x-lt in
    let qb = bit_xor-lt 16 b x q x-lt in
    bit_xor_cancel 16 a b x p q x-lt (
      crc16_rounds_inj 8 _ _ pa qb
        (crc16_bytes_inj rest _ _ bs.1 (crc16_rounds-lt 8 _ pa) (crc16_rounds-lt 8 _ qb) e))

crc16_bytes-append :
    (xs ys : Bytes) (crc : ℕ) → crc16_bytes (xs ++ ys) crc ≡ crc16_bytes ys (crc16_bytes xs crc)
unfolding crc16_bytes
crc16_bytes-append [] ys crc = refl
crc16_bytes-append (x ∷ xs) ys crc = crc16_bytes-append xs ys _

-- The first byte of a message is determined by the checksum state after it and the bytes behind.
first_byte :
    (b c crc : ℕ) (rest : Bytes)
    → b < 256
    → c < 256
    → IsBytes rest
    → crc < 2 ^ 16
    → crc16_bytes (b ∷ rest) crc ≡ crc16_bytes (c ∷ rest) crc
    → b ≡ c
unfolding crc16_bytes
first_byte b c crc rest p q bs h e =
    let wide-b : b < 2 ^ 16 = omega arith in
    let wide-c : c < 2 ^ 16 = omega arith in
    let pb = bit_xor-lt 16 crc b h wide-b in
    let pc = bit_xor-lt 16 crc c h wide-c in
    let mixed : bit_xor crc b ≡ bit_xor crc c =
      crc16_rounds_inj 8 _ _ pb pc
        (crc16_bytes_inj rest _ _ bs (crc16_rounds-lt 8 _ pb) (crc16_rounds-lt 8 _ pc) e) in
    bit_xor_cancel 16 b c crc wide-b wide-c h
      (bit_xor_comm 16 b crc wide-b h ∙ mixed ∙ bit_xor_comm 16 crc c h wide-c)

-- `crc16_data` detects every error that is confined to one byte: two byte strings that agree but
-- for one byte, wherever it stands, have different checksums.
pub crc16_detects :
    (before behind : Bytes) (b c : ℕ)
    → IsBytes before
    → IsBytes behind
    → b < 256
    → c < 256
    → b ≢ c
    → crc16_data (before ++ (b ∷ behind)) ≢ crc16_data (before ++ (c ∷ behind))
unfolding crc16_data
crc16_detects before behind b c x y p q ne e =
    let state = crc16_bytes before 0xffff in
    let state-lt = crc16_bytes-lt before 0xffff x (omega arith) in
    let final = λ (d : ℕ). crc16_bytes-append before (d ∷ behind) 0xffff in
    let ends : (d : ℕ) → d < 256 → crc16_bytes (before ++ (d ∷ behind)) 0xffff < 2 ^ 16 =
      λ d r. rw (final d) (crc16_bytes-lt (d ∷ behind) state (r, y) state-lt) in
    ne (
      first_byte b c state behind p q y state-lt (
        sym (final b)
        ∙ bit_xor_cancel 16 _ _ 0xffff (ends b p) (ends c q) (omega arith) e
        ∙ final c))
