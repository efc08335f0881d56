-- ===== src/LineCoding.antt =====
-- usb.rs: `CdcLineCoding`, the seven bytes of the CDC-ACM line-coding requests.
mod Tests
pub mod RoundTrip
use embassy_rp_pio_usb_host.Common.{
  ℕ, ◌+◌, ◌*◌, ◌/◌, ◌%◌, ◌^◌, Bool, not, ◌||◌, List, [], ◌∷◌, Result, ok, err, ◌>>=◌, ◌>>◌, fail_if,
  ◌==◌, if◌then◌else◌, length, Bytes, byte_at,
}

pub data CdcStopBits : Type 0 where
  one one_point_five two : CdcStopBits

pub data CdcParity : Type 0 where
  no_parity odd even mark space : CdcParity

pub data CdcLineCodingError : Type 0 where
  invalid_length invalid_stop_bits invalid_parity invalid_data_bits : CdcLineCodingError

pub record CdcLineCoding : Type 0 where
  pub data_terminal_rate : ℕ  -- u32
  pub stop_bits : CdcStopBits
  pub parity : CdcParity
  pub data_bits : ℕ  -- u8

-- The discriminants.
abbrev pub stop_bits_code : CdcStopBits → ℕ
stop_bits_code CdcStopBits.one = 0
stop_bits_code CdcStopBits.one_point_five = 1
stop_bits_code CdcStopBits.two = 2

abbrev pub parity_code : CdcParity → ℕ
parity_code CdcParity.no_parity = 0
parity_code CdcParity.odd = 1
parity_code CdcParity.even = 2
parity_code CdcParity.mark = 3
parity_code CdcParity.space = 4

pub eight_n_one : ℕ → CdcLineCoding
eight_n_one data_terminal_rate = record {
  data_terminal_rate = data_terminal_rate;
  stop_bits = CdcStopBits.one;
  parity = CdcParity.no_parity;
  data_bits = 8;
}

-- `matches!(self.data_bits, 5 | 6 | 7 | 8 | 16)`
abbrev pub is_data_width : ℕ → Bool
is_data_width n = n == 5 || n == 6 || n == 7 || n == 8 || n == 16

pub validate : CdcLineCoding → Result CdcLineCodingError (Unit {0})
validate coding = fail_if (not (is_data_width coding.data_bits)) invalid_data_bits

-- The matches on bytes 4 and 5 in `from_bytes`.
abbrev parse_stop_bits : ℕ → Result CdcLineCodingError CdcStopBits
parse_stop_bits b =
    if b == 0
    then ok CdcStopBits.one
    else if b == 1
    then ok CdcStopBits.one_point_five
    else if b == 2
    then ok CdcStopBits.two
    else err invalid_stop_bits

abbrev parse_parity : ℕ → Result CdcLineCodingError CdcParity
parse_parity b =
    if b == 0
    then ok CdcParity.no_parity
    else if b == 1
    then ok CdcParity.odd
    else if b == 2
    then ok CdcParity.even
    else if b == 3
    then ok CdcParity.mark
    else if b == 4
    then ok CdcParity.space
    else err invalid_parity

-- `u32::from_le_bytes`
abbrev pub from_le_bytes32 : ℕ → ℕ → ℕ → ℕ → ℕ
from_le_bytes32 a b c d = a + 256 * (b + 256 * (c + 256 * d))

pub from_bytes : Bytes → Result CdcLineCodingError CdcLineCoding
unfolding validate
from_bytes bytes = do
  fail_if (not (length bytes == 7)) invalid_length
  stop_bits ← parse_stop_bits (byte_at bytes 4)
  parity ← parse_parity (byte_at bytes 5)
  let coding : CdcLineCoding = record {
    data_terminal_rate =
        from_le_bytes32 (byte_at bytes 0) (byte_at bytes 1) (byte_at bytes 2) (byte_at bytes 3);
    stop_bits = stop_bits;
    parity = parity;
    data_bits = byte_at bytes 6;
  }
  validate coding
  ok coding

pub to_bytes : CdcLineCoding → Bytes
to_bytes c =
    let rate = c.data_terminal_rate in
    (rate % 256)
    ∷ (rate / 2 ^ 8 % 256)
    ∷ (rate / 2 ^ 16 % 256)
    ∷ (rate / 2 ^ 24 % 256)
    ∷ stop_bits_code c.stop_bits
    ∷ parity_code c.parity
    ∷ c.data_bits
    ∷ []
