-- ===== src/Descriptor/Endpoint.antt =====
-- usb.rs: `EndpointDescriptor`.
use embassy_rp_pio_usb_host.Common.{
  ℕ, Bool, not, ◌&&◌, ◌||◌, Result, ok, ◌>>◌, fail_if, leb, ◌==◌, length, Bytes, byte_at,
  from_le_bytes, bit_and,
}
use embassy_rp_pio_usb_host.Descriptor.Configuration.{
  ConfigurationError, invalid_endpoint_descriptor,
}

pub record EndpointDescriptor : Type 0 where
  pub address : ℕ  -- u8
  pub attributes : ℕ  -- u8
  pub max_packet_size : ℕ  -- u16
  pub interval : ℕ  -- u8

abbrev pub number : EndpointDescriptor → ℕ
number e = bit_and e.address 0x0f

abbrev pub is_in : EndpointDescriptor → Bool
is_in e = not (bit_and e.address 0x80 == 0)

abbrev pub transfer_type : EndpointDescriptor → ℕ
transfer_type e = bit_and e.attributes 0x03

-- The endpoint as `parse` reads it, before its checks.
abbrev pub read : Bytes → EndpointDescriptor
read bytes = record {
  address = byte_at bytes 2;
  attributes = byte_at bytes 3;
  max_packet_size = bit_and (from_le_bytes (byte_at bytes 4) (byte_at bytes 5)) 0x07ff;
  interval = byte_at bytes 6;
}

unfoldable pub parse : Bytes → Result ConfigurationError EndpointDescriptor
parse bytes = do
  fail_if (not (length bytes == 7) || not (byte_at bytes 1 == 0x05)) invalid_endpoint_descriptor
  let raw_max_packet_size = from_le_bytes (byte_at bytes 4) (byte_at bytes 5)
  let endpoint = read bytes
  fail_if
      (not (bit_and endpoint.address 0x70 == 0)
        || number endpoint == 0
        || endpoint.max_packet_size == 0
        || not (bit_and raw_max_packet_size 0xf800 == 0))
      invalid_endpoint_descriptor
  ok endpoint

-- `matches!(self.max_packet_size, 8 | 16 | 32 | 64 | 512)`
abbrev is_bulk_size : ℕ → Bool
is_bulk_size n = n == 8 || n == 16 || n == 32 || n == 64 || n == 512

unfoldable pub is_supported_bulk : EndpointDescriptor → Bool
is_supported_bulk e =
    transfer_type e == 0x02 && bit_and e.attributes 0xfc == 0 && is_bulk_size e.max_packet_size

unfoldable pub is_supported_interrupt_in : EndpointDescriptor → Bool
is_supported_interrupt_in e =
    is_in e
    && transfer_type e == 0x03
    && bit_and e.attributes 0xfc == 0
    && leb e.max_packet_size 64
    && not (e.interval == 0)

unfoldable pub is_supported_hid_interrupt : EndpointDescriptor → Bool
is_supported_hid_interrupt e =
    transfer_type e == 0x03
    && bit_and e.attributes 0xfc == 0
    && leb e.max_packet_size 1024
    && not (e.interval == 0)
