-- ===== src/Request/Layout.antt =====
-- The wire form of setup requests against the USB control-request layout.
use embassy_rp_pio_usb_host.Common.{
  ℕ, ◌+◌, ◌*◌, ◌/◌, ◌%◌, ◌≤◌, ◌<◌, ◌≡◌, ◌⊎◌, inl, inr, [], ◌∷◌, ok, err, Option, none, some, ltb,
  Bytes, IsBytes, length, from_le_bytes, arith, Bool-cases,
}
use embassy_rp_pio_usb_host.Common.Bits.{bit_or_high}
use embassy_rp_pio_usb_host.Request.{
  SetupRequest, invalid_address, word, to_bytes, set_address, get_hid_report, set_hid_report,
}

-- The widths of the fields, as the types of the program state them.
pub record IsSetup (r : SetupRequest) : Type 0 where
  pub request_type_u8 : r.request_type < 256
  pub request_u8 : r.request < 256
  pub value_u16 : r.value < 65536
  pub index_u16 : r.index < 65536
  pub length_u16 : r.length < 65536

-- A device's reading of the eight bytes of a SETUP packet, by the layout of USB 2.0, section 9.3.
pub setup_of_bytes : Bytes → Option SetupRequest
setup_of_bytes (t ∷ q ∷ v0 ∷ v1 ∷ i0 ∷ i1 ∷ l0 ∷ l1 ∷ []) = some (record {
  request_type = t;
  request = q;
  value = from_le_bytes v0 v1;
  index = from_le_bytes i0 i1;
  length = from_le_bytes l0 l1;
})
setup_of_bytes _ = none

le_halves : (w : ℕ) → w < 65536 → from_le_bytes (w % 256) (w / 256 % 256) ≡ w
le_halves w h = omega arith

-- The eight bytes of a request, whose fields have the widths of their types, are bytes, and a
-- device that reads them by the USB layout finds every field again.
pub setup_of_bytes-to_bytes :
    (r : SetupRequest) → IsSetup r → IsBytes (to_bytes r) × (setup_of_bytes (to_bytes r) ≡ some r)
unfolding to_bytes setup_of_bytes
setup_of_bytes-to_bytes r w = (
  (w.request_type_u8, (w.request_u8, omega arith)),
  rw (
    le_halves r.value w.value_u16,
    le_halves r.index w.index_u16,
    le_halves r.length w.length_u16,
  ),
)

word_lem : (high low : ℕ) → high < 256 → low < 256 → word high low ≡ high * 256 + low
word_lem high low h l =
    let wide : high * 256 % 65536 ≡ high * 256 = omega arith in rw wide (bit_or_high 8 high low l)

-- A HID report request carries the report ID in the low byte of `wValue`, the report type in its
-- high byte, the interface in the low byte of `wIndex` and the length in the last two bytes, for
-- all bytes and 16-bit lengths; reading differs from writing in the first two bytes alone.
pub to_bytes-hid_report :
    (interface report_type report_id length : ℕ)
    → interface < 256
    → report_type < 256
    → report_id < 256
    → let tail =
        report_id ∷ report_type ∷ interface ∷ 0 ∷ (length % 256) ∷ (length / 256 % 256) ∷ [] in
      (to_bytes (get_hid_report interface report_type report_id length) ≡ 0xa1 ∷ 0x01 ∷ tail)
      × (to_bytes (set_hid_report interface report_type report_id length) ≡ 0x21 ∷ 0x09 ∷ tail)
unfolding to_bytes get_hid_report set_hid_report
to_bytes-hid_report interface report_type report_id length i t r =
    let low : (report_type * 256 + report_id) % 256 ≡ report_id = omega arith in
    let high : (report_type * 256 + report_id) / 256 % 256 ≡ report_type = omega arith in
    let index : interface % 256 ≡ interface = omega arith in
    let index_high : interface / 256 % 256 ≡ 0 = omega arith in
    (
      rw (word_lem report_type report_id t r, low, high, index, index_high),
      rw (word_lem report_type report_id t r, low, high, index, index_high),
    )

-- `set_address` refuses exactly the addresses above 127; for any other the request is SET_ADDRESS
-- with the address in the third byte and zeros behind.
pub set_address_lem :
    (address : ℕ)
    → ((127 < address) × (set_address address ≡ err invalid_address))
      ⊎ ((address ≤ 127)
          × (r : SetupRequest) × (set_address address ≡ ok r)
          × (to_bytes r ≡ 0 ∷ 5 ∷ address ∷ 0 ∷ 0 ∷ 0 ∷ 0 ∷ 0 ∷ []))
unfolding set_address to_bytes
set_address_lem address = elim (Bool-cases (ltb 0x7f address)) [
  | inl large ↦ inl (ground arith, rw large)
  | inr small ↦
      let seven_bits : address ≤ 127 = ground arith in
      let low : address % 256 ≡ address = omega arith in
      let high : address / 256 % 256 ≡ 0 = omega arith in
      let built : SetupRequest = record {
        request_type = 0;
        request = 5;
        value = address;
        index = 0;
        length = 0;
      } in
      inr (seven_bits, built, rw small, rw (low, high))
]
