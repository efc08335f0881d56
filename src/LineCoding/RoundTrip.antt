-- ===== src/LineCoding/RoundTrip.antt =====
-- Line codings and their seven bytes correspond.
use embassy_rp_pio_usb_host.Common.{
  ℕ, ◌/◌, ◌%◌, ◌^◌, ◌<◌, ◌≡◌, refl, [], ◌∷◌, ok, Bytes, IsBytes, arith,
}
use embassy_rp_pio_usb_host.LineCoding.{
  CdcStopBits, CdcParity, CdcLineCoding, validate, from_bytes, to_bytes, from_le_bytes32,
  parse_stop_bits, parse_parity, stop_bits_code, parity_code,
}

parse_stop_bits_lem : (s : CdcStopBits) → parse_stop_bits (stop_bits_code s) ≡ ok s
parse_stop_bits_lem CdcStopBits.one = refl
parse_stop_bits_lem CdcStopBits.one_point_five = refl
parse_stop_bits_lem CdcStopBits.two = refl

parse_parity_lem : (p : CdcParity) → parse_parity (parity_code p) ≡ ok p
parse_parity_lem CdcParity.no_parity = refl
parse_parity_lem CdcParity.odd = refl
parse_parity_lem CdcParity.even = refl
parse_parity_lem CdcParity.mark = refl
parse_parity_lem CdcParity.space = refl

rate_lem :
    (r : ℕ)
    → r < 2 ^ 32
    → from_le_bytes32 (r % 256) (r / 2 ^ 8 % 256) (r / 2 ^ 16 % 256) (r / 2 ^ 24 % 256) ≡ r
rate_lem r h = omega arith

-- A line coding with a 32-bit rate that `validate` accepts is read back from its bytes.
pub from_bytes-to_bytes :
    (c : CdcLineCoding)
    → c.data_terminal_rate < 2 ^ 32
    → validate c ≡ ok tt
    → from_bytes (to_bytes c) ≡ ok c
unfolding from_bytes to_bytes validate
from_bytes-to_bytes c h v =
    rw (
      parse_stop_bits_lem c.stop_bits,
      parse_parity_lem c.parity,
      rate_lem c.data_terminal_rate h,
      v,
    )

-- Bytes that `from_bytes` accepts are the bytes of the line coding that it returns, and this coding
-- passes `validate`.
pub to_bytes-from_bytes :
    (bytes : Bytes) (c : CdcLineCoding)
    → IsBytes bytes
    → from_bytes bytes ≡ ok c
    → (to_bytes c ≡ bytes) × (validate c ≡ ok tt)
unfolding from_bytes to_bytes validate
to_bytes-from_bytes [] c bs h = absurd (ground arith)
to_bytes-from_bytes (a ∷ []) c bs h = absurd (ground arith)
to_bytes-from_bytes (a ∷ b ∷ []) c bs h = absurd (ground arith)
to_bytes-from_bytes (a ∷ b ∷ c' ∷ []) c bs h = absurd (ground arith)
to_bytes-from_bytes (a ∷ b ∷ c' ∷ d ∷ []) c bs h = absurd (ground arith)
to_bytes-from_bytes (a ∷ b ∷ c' ∷ d ∷ e ∷ []) c bs h = absurd (ground arith)
to_bytes-from_bytes (a ∷ b ∷ c' ∷ d ∷ e ∷ f ∷ []) c bs h = absurd (ground arith)
to_bytes-from_bytes (a ∷ b ∷ c' ∷ d ∷ e ∷ f ∷ g ∷ []) c bs h = ground arith
to_bytes-from_bytes (a ∷ b ∷ c' ∷ d ∷ e ∷ f ∷ g ∷ i ∷ rest) c bs h = absurd (ground arith)
