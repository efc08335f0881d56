-- ===== src/Hid/Descriptor.antt =====
-- usb.rs: `HidDescriptor`, the HID class descriptor, and the errors of HID discovery.
pub mod Report
use embassy_rp_pio_usb_host.Common.{
  ℕ, ◌+◌, ◌*◌, Bool, not, ◌&&◌, ◌||◌, List, [], ◌∷◌, Option, none, some, is_some, Result, ok, ◌>>=◌,
  ◌>>◌, fail_if, ok_or, ltb, ◌==◌, if◌then◌else◌, length, drop, Bytes, byte_at, from_le_bytes,
}
use embassy_rp_pio_usb_host.Descriptor.Configuration.{ConfigurationError}

pub data HidConfigurationError : Type 0 where
  configuration : ConfigurationError → HidConfigurationError
  missing_interface invalid_interface_descriptor missing_hid_descriptor : HidConfigurationError
  invalid_hid_descriptor duplicate_hid_descriptor missing_report_descriptor : HidConfigurationError
  duplicate_report_descriptor invalid_endpoint_descriptor : HidConfigurationError
  missing_interrupt_in_endpoint duplicate_interrupt_in_endpoint : HidConfigurationError
  duplicate_interrupt_out_endpoint : HidConfigurationError

pub record HidDescriptor : Type 0 where
  pub hid_version_bcd : ℕ
  pub country_code : ℕ
  pub report_descriptor_len : ℕ

-- The loop over `bytes[6..].chunks_exact(3)`, with the report length found so far.
unfoldable pub report_len : Bytes → Option ℕ → Result HidConfigurationError (Option ℕ)
report_len (descriptor_type ∷ lo ∷ hi ∷ rest) found = do
  let descriptor_len = from_le_bytes lo hi
  let is_report = descriptor_type == 0x22
  fail_if (descriptor_len == 0) invalid_hid_descriptor
  fail_if (is_report && is_some found) duplicate_report_descriptor
  report_len rest (if is_report then some descriptor_len else found)
report_len _ found = ok found

-- `HidDescriptor::parse`. The count is a byte, so its checked arithmetic cannot overflow.
unfoldable pub parse : Bytes → Result HidConfigurationError HidDescriptor
unfolding report_len
parse bytes = do
  fail_if (ltb (length bytes) 6 || not (byte_at bytes 1 == 0x21)) invalid_hid_descriptor
  fail_if (not (length bytes == 6 + byte_at bytes 5 * 3)) invalid_hid_descriptor
  found ← report_len (drop 6 bytes) none
  report_descriptor_len ← ok_or found missing_report_descriptor
  ok (record {
    hid_version_bcd = from_le_bytes (byte_at bytes 2) (byte_at bytes 3);
    country_code = byte_at bytes 4;
    report_descriptor_len = report_descriptor_len;
  })
