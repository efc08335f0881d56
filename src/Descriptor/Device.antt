-- ===== src/Descriptor/Device.antt =====
-- usb.rs: `DeviceDescriptorHeader` and `DeviceDescriptor`.
use embassy_rp_pio_usb_host.Common.{
  ℕ, ◌≤◌, ◌≡◌, sym, ◌∙◌, Bool, false, not, ◌||◌, ◌⊎◌, inl, inr, ◌∷◌, Result, ok, err, ◌>>=◌, ◌>>◌,
  fail_if, Result-cases, ltb, ◌==◌, length, take, Bytes, byte_at, from_le_bytes, arith,
}

pub record DeviceDescriptorHeader : Type 0 where
  pub usb_version_bcd : ℕ
  pub device_class : ℕ
  pub device_subclass : ℕ
  pub device_protocol : ℕ
  pub max_packet_size0 : ℕ

pub data DescriptorError : Type 0 where
  too_short invalid_length invalid_type invalid_max_packet_size0 : DescriptorError

-- `matches!(bytes[7], 8 | 16 | 32 | 64)`
abbrev pub is_packet_size0 : ℕ → Bool
is_packet_size0 n = n == 8 || n == 16 || n == 32 || n == 64

-- `DeviceDescriptorHeader::parse`
pub parse_header : Bytes → Result DescriptorError DeviceDescriptorHeader
parse_header bytes = do
  fail_if (ltb (length bytes) 8) too_short
  fail_if (not (byte_at bytes 0 == 18)) invalid_length
  fail_if (not (byte_at bytes 1 == 0x01)) invalid_type
  fail_if (not (is_packet_size0 (byte_at bytes 7))) invalid_max_packet_size0
  ok (record {
    usb_version_bcd = from_le_bytes (byte_at bytes 2) (byte_at bytes 3);
    device_class = byte_at bytes 4;
    device_subclass = byte_at bytes 5;
    device_protocol = byte_at bytes 6;
    max_packet_size0 = byte_at bytes 7;
  })

pub record DeviceDescriptor : Type 0 where
  pub usb_version_bcd : ℕ
  pub device_class : ℕ
  pub device_subclass : ℕ
  pub device_protocol : ℕ
  pub max_packet_size0 : ℕ
  pub vendor_id : ℕ
  pub product_id : ℕ
  pub device_version_bcd : ℕ
  pub manufacturer_string_index : ℕ
  pub product_string_index : ℕ
  pub serial_number_string_index : ℕ
  pub num_configurations : ℕ

-- `DeviceDescriptor::header`
pub header : DeviceDescriptor → DeviceDescriptorHeader
header d = record {
  usb_version_bcd = d.usb_version_bcd;
  device_class = d.device_class;
  device_subclass = d.device_subclass;
  device_protocol = d.device_protocol;
  max_packet_size0 = d.max_packet_size0;
}

-- The descriptor that `DeviceDescriptor::parse` puts together from the header and the bytes.
abbrev complete : DeviceDescriptorHeader → Bytes → DeviceDescriptor
complete h bytes = record {
  usb_version_bcd = h.usb_version_bcd;
  device_class = h.device_class;
  device_subclass = h.device_subclass;
  device_protocol = h.device_protocol;
  max_packet_size0 = h.max_packet_size0;
  vendor_id = from_le_bytes (byte_at bytes 8) (byte_at bytes 9);
  product_id = from_le_bytes (byte_at bytes 10) (byte_at bytes 11);
  device_version_bcd = from_le_bytes (byte_at bytes 12) (byte_at bytes 13);
  manufacturer_string_index = byte_at bytes 14;
  product_string_index = byte_at bytes 15;
  serial_number_string_index = byte_at bytes 16;
  num_configurations = byte_at bytes 17;
}

-- `DeviceDescriptor::parse`
pub parse : Bytes → Result DescriptorError DeviceDescriptor
parse bytes = do
  fail_if (ltb (length bytes) 18) too_short
  h ← parse_header bytes
  ok (complete h bytes)

-- The first eight bytes decide the header: whatever follows them in the slice, the result is the
-- same.
parse_header_prefix :
    (bytes : Bytes) → 8 ≤ length bytes → parse_header bytes ≡ parse_header (take 8 bytes)
unfolding parse_header
parse_header_prefix (a ∷ b ∷ c ∷ d ∷ e ∷ f ∷ g ∷ h ∷ rest) le = ground arith
parse_header_prefix _ le = absurd (omega arith)

-- Enumeration reads the first eight bytes first and the whole descriptor later. Where the whole of
-- at least 18 bytes is accepted, its prefix of eight bytes is accepted too, with the same header;
-- where the prefix is refused, so is the whole, with the same error.
pub parse-parse_header :
    (bytes : Bytes)
    → 18 ≤ length bytes
    → ((d : DeviceDescriptor) × (parse bytes ≡ ok d)
        × (parse_header (take 8 bytes) ≡ ok (header d)))
      ⊎ ((e : DescriptorError) × (parse bytes ≡ err e) × (parse_header (take 8 bytes) ≡ err e))
unfolding parse header
parse-parse_header bytes h =
    let long : ltb (length bytes) 18 ≡ false = ground arith in
    let same = parse_header_prefix bytes (omega arith) in
    elim (Result-cases (parse_header bytes)) [
      | inl (head, e) ↦ inl (complete head bytes, rw (long, e), sym same ∙ e)
      | inr (error, e) ↦ inr (error, rw (long, e), sym same ∙ e)
    ]
