-- ===== src/Wire/Crc.antt =====
-- usb.rs: `crc5_token` and `crc16_data`. Words are numbers; `as u8` is the remainder by 256, and no
-- shift to the left occurs.
mod Tests
pub mod Detect
use embassy_rp_pio_usb_host.Common.{
  ℕ, zero, suc, ◌+◌, ◌/◌, ◌%◌, ◌^◌, ◌<◌, ◌≡◌, refl, Bool, List, [], ◌∷◌, Bytes, IsBytes, arith,
  bit_and, bit_xor, ◌==◌, if◌then◌else◌, Bool-cases, inl, inr,
}
use embassy_rp_pio_usb_host.Common.Bits.{bit_xor-lt}

-- The `while bit < 11` loop, with the rounds left.
pub crc5_rounds : ℕ → ℕ → ℕ → ℕ
crc5_rounds zero token crc = crc
crc5_rounds (suc left) token crc =
    let mix = bit_and (bit_xor crc (token % 256)) 1 in
    crc5_rounds left (token / 2) (if mix == 0 then crc / 2 else bit_xor (crc / 2) 0x14)

unfoldable pub crc5_token : ℕ → ℕ
unfolding crc5_rounds
crc5_token token = bit_xor (crc5_rounds 11 (bit_and token 0x07ff) 0x1f) 0x1f

-- One round of the inner loop of `crc16_data`.
pub crc16_round : ℕ → ℕ
crc16_round crc = if bit_and crc 1 == 0 then crc / 2 else bit_xor (crc / 2) 0xa001

pub crc16_rounds : ℕ → ℕ → ℕ
crc16_rounds zero crc = crc
crc16_rounds (suc left) crc = crc16_rounds left (crc16_round crc)

pub crc16_bytes : Bytes → ℕ → ℕ
crc16_bytes [] crc = crc
crc16_bytes (b ∷ bs) crc = crc16_bytes bs (crc16_rounds 8 (bit_xor crc b))

unfoldable pub crc16_data : Bytes → ℕ
unfolding crc16_bytes crc16_rounds crc16_round
crc16_data bytes = bit_xor (crc16_bytes bytes 0xffff) 0xffff

crc5_rounds-lt : (left token crc : ℕ) → crc < 2 ^ 5 → crc5_rounds left token crc < 2 ^ 5
unfolding crc5_rounds
crc5_rounds-lt zero token crc h = h
crc5_rounds-lt (suc left) token crc h =
    elim (Bool-cases (bit_and (bit_xor crc (token % 256)) 1 == 0)) [
      | inl even ↦ rw even (crc5_rounds-lt left (token / 2) (crc / 2) (omega arith))
      | inr odd ↦ rw odd (
          crc5_rounds-lt left (token / 2) (bit_xor (crc / 2) 0x14)
            (bit_xor-lt 5 (crc / 2) 0x14 (omega arith) (omega arith)))
    ]

-- The checksum of a token has five bits.
pub crc5_token-lt : (token : ℕ) → crc5_token token < 32
unfolding crc5_token
crc5_token-lt token =
    bit_xor-lt 5 _ 0x1f (crc5_rounds-lt 11 (bit_and token 0x07ff) 0x1f (omega arith)) (omega arith)

crc16_round-lt : (crc : ℕ) → crc < 2 ^ 16 → crc16_round crc < 2 ^ 16
unfolding crc16_round
crc16_round-lt crc h = ground (arith, bit_xor-lt 16 (crc / 2) 0xa001 (omega arith) (omega arith))

crc16_rounds-lt : (left crc : ℕ) → crc < 2 ^ 16 → crc16_rounds left crc < 2 ^ 16
unfolding crc16_rounds
crc16_rounds-lt zero crc h = h
crc16_rounds-lt (suc left) crc h = crc16_rounds-lt left (crc16_round crc) (crc16_round-lt crc h)

crc16_bytes-lt :
    (bytes : Bytes) (crc : ℕ) → IsBytes bytes → crc < 2 ^ 16 → crc16_bytes bytes crc < 2 ^ 16
unfolding crc16_bytes
crc16_bytes-lt [] crc bs h = h
crc16_bytes-lt (b ∷ rest) crc bs h =
    crc16_bytes-lt rest _ bs.1 (crc16_rounds-lt 8 _ (bit_xor-lt 16 crc b h (omega (arith, bs.0))))

-- The checksum of a payload has sixteen bits.
pub crc16_data-lt : (bytes : Bytes) → IsBytes bytes → crc16_data bytes < 65536
unfolding crc16_data
crc16_data-lt bytes bs =
    bit_xor-lt 16 _ 0xffff (crc16_bytes-lt bytes 0xffff bs (omega arith)) (omega arith)

-- The values of the unit tests.
crc5_zero : crc5_token 0 ≡ 0x02
unfolding crc5_token
crc5_zero = refl

crc16_check :
    crc16_data (0x31 ∷ 0x32 ∷ 0x33 ∷ 0x34 ∷ 0x35 ∷ 0x36 ∷ 0x37 ∷ 0x38 ∷ 0x39 ∷ []) ≡ 0xb4c8
unfolding crc16_data
crc16_check = refl
