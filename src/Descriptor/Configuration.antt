-- ===== src/Descriptor/Configuration.antt =====
-- usb.rs: `ConfigurationDescriptorHeader`, and the errors of configuration parsing.
use embassy_rp_pio_usb_host.Common.{
  ℕ, ◌*◌, not, ◌||◌, Result, ok, ◌>>◌, fail_if, ltb, ◌==◌, length, Bytes, byte_at, from_le_bytes,
  bit_and,
}

pub data ConfigurationError : Type 0 where
  too_short invalid_length invalid_type invalid_total_length : ConfigurationError
  invalid_configuration_value invalid_attributes invalid_descriptor_length : ConfigurationError
  descriptor_overrun invalid_interface_descriptor invalid_functional_descriptor : ConfigurationError
  invalid_endpoint_descriptor missing_control_interface missing_cdc_header : ConfigurationError
  missing_acm_descriptor missing_union_descriptor invalid_union_descriptor : ConfigurationError
  missing_data_interface ambiguous_data_interface missing_bulk_in_endpoint : ConfigurationError
  missing_bulk_out_endpoint : ConfigurationError

pub record ConfigurationDescriptorHeader : Type 0 where
  pub total_length : ℕ
  pub num_interfaces : ℕ
  pub configuration_value : ℕ
  pub string_index : ℕ
  pub attributes : ℕ
  pub max_power_ma : ℕ

unfoldable pub parse_header : Bytes → Result ConfigurationError ConfigurationDescriptorHeader
parse_header bytes = do
  fail_if (ltb (length bytes) 9) too_short
  fail_if (not (byte_at bytes 0 == 9)) invalid_length
  fail_if (not (byte_at bytes 1 == 0x02)) invalid_type
  let total_length = from_le_bytes (byte_at bytes 2) (byte_at bytes 3)
  fail_if (ltb total_length 9) invalid_total_length
  fail_if (byte_at bytes 5 == 0) invalid_configuration_value
  fail_if (bit_and (byte_at bytes 7) 0x80 == 0 || not (bit_and (byte_at bytes 7) 0x1f == 0))
      invalid_attributes
  ok (record {
    total_length = total_length;
    num_interfaces = byte_at bytes 4;
    configuration_value = byte_at bytes 5;
    string_index = byte_at bytes 6;
    attributes = byte_at bytes 7;
    max_power_ma = byte_at bytes 8 * 2;
  })
