-- ===== src/Descriptor/Interface.antt =====
-- usb.rs: `InterfaceDescriptor`.
use embassy_rp_pio_usb_host.Common.{
  ℕ, Bool, not, ◌&&◌, ◌||◌, Result, ok, ◌>>◌, fail_if, ◌==◌, length, Bytes, byte_at,
}
use embassy_rp_pio_usb_host.Descriptor.Configuration.{
  ConfigurationError, invalid_interface_descriptor,
}

pub record InterfaceDescriptor : Type 0 where
  pub number : ℕ
  pub alternate_setting : ℕ
  pub endpoint_count : ℕ
  pub class : ℕ
  pub subclass : ℕ
  pub protocol : ℕ

unfoldable pub parse : Bytes → Result ConfigurationError InterfaceDescriptor
parse bytes = do
  fail_if (not (length bytes == 9) || not (byte_at bytes 1 == 0x04)) invalid_interface_descriptor
  ok (record {
    number = byte_at bytes 2;
    alternate_setting = byte_at bytes 3;
    endpoint_count = byte_at bytes 4;
    class = byte_at bytes 5;
    subclass = byte_at bytes 6;
    protocol = byte_at bytes 7;
  })

abbrev pub is_acm_control : InterfaceDescriptor → Bool
is_acm_control i = i.alternate_setting == 0 && i.class == 0x02 && i.subclass == 0x02

abbrev pub is_hid : InterfaceDescriptor → Bool
is_hid i = i.alternate_setting == 0 && i.class == 0x03
