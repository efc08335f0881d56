-- ===== src/Ftdi/Discovery.antt =====
-- ftdi.rs: `FtdiInterface` and `discover_interface`, with its own parser of bulk endpoints.
pub mod Sound
use embassy_rp_pio_usb_host.Common.{
  ℕ, ◌+◌, Bool, true, false, not, ◌&&◌, ◌||◌, List, [], ◌∷◌, Option, none, some, is_some, Result,
  ok, err, ◌>>=◌, ◌>>◌, fail_if, ok_or, map_err, ◌==◌, if◌then◌else◌, length, Bytes, byte_at,
  bit_and, from_le_bytes,
}
use embassy_rp_pio_usb_host.Descriptor.Device.{DeviceDescriptor}
use embassy_rp_pio_usb_host.Descriptor.Configuration.{
  ConfigurationError, ConfigurationDescriptorHeader, parse_header,
}
use embassy_rp_pio_usb_host.Descriptor.Endpoint.{EndpointDescriptor, number, is_in, read}
use embassy_rp_pio_usb_host.Descriptor.Iterator

pub record FtdiInterface : Type 0 where
  pub configuration : ConfigurationDescriptorHeader
  pub interface_number : ℕ
  pub interface_subclass : ℕ
  pub interface_protocol : ℕ
  pub bulk_out_endpoint : EndpointDescriptor
  pub bulk_in_endpoint : EndpointDescriptor

pub data FtdiConfigurationError : Type 0 where
  configuration : ConfigurationError → FtdiConfigurationError
  not_ftdi_device unsupported_product missing_interface : FtdiConfigurationError
  invalid_interface_descriptor invalid_endpoint_descriptor : FtdiConfigurationError
  missing_bulk_in_endpoint missing_bulk_out_endpoint : FtdiConfigurationError

-- `matches!(endpoint.max_packet_size, 8 | 16 | 32 | 64 | 512)`
abbrev pub is_packet_size : ℕ → Bool
is_packet_size n = n == 8 || n == 16 || n == 32 || n == 64 || n == 512

unfoldable pub parse_bulk_endpoint : Bytes → Result FtdiConfigurationError EndpointDescriptor
parse_bulk_endpoint bytes = do
  fail_if (not (length bytes == 7) || not (byte_at bytes 1 == 0x05))
      FtdiConfigurationError.invalid_endpoint_descriptor
  let endpoint = read bytes
  fail_if
      (not (bit_and endpoint.address 0x70 == 0)
        || number endpoint == 0
        || not (endpoint.attributes == 0x02)
        || not (is_packet_size endpoint.max_packet_size)
        || not (bit_and (from_le_bytes (byte_at bytes 4) (byte_at bytes 5)) 0xf800 == 0))
      FtdiConfigurationError.invalid_endpoint_descriptor
  ok endpoint

-- The tuple `current`: number, alternate setting, endpoint count, class and subclass.
pub record Current : Type 0 where
  pub number : ℕ
  pub alternate_setting : ℕ
  pub endpoint_count : ℕ
  pub class : ℕ
  pub subclass : ℕ

-- The tuple `selected`.
pub record Selected : Type 0 where
  pub number : ℕ
  pub endpoint_count : ℕ
  pub subclass : ℕ
  pub protocol : ℕ

-- The variables of the loop, and whether it was left by `break`.
pub record FtdiScan : Type 0 where
  pub current : Option Current
  pub selected : Option Selected
  pub endpoints_seen : ℕ  -- u8
  pub bulk_in : Option EndpointDescriptor
  pub bulk_out : Option EndpointDescriptor
  pub stopped : Bool

abbrev pub ftdi_start : FtdiScan
ftdi_start = record {
  current = none;
  selected = none;
  endpoints_seen = 0;
  bulk_in = none;
  bulk_out = none;
  stopped = false;
}

-- `requested.is_none_or(|number| number == interface)`
abbrev pub is_none_or : Option ℕ → ℕ → Bool
is_none_or none interface = true
is_none_or (some n) interface = n == interface

abbrev pub wanted : Option ℕ → Current → Bool
wanted requested i = i.alternate_setting == 0 && i.class == 0xff && is_none_or requested i.number

-- The end of the interface arm, for an interface that is wanted.
unfoldable pub ftdi_select : FtdiScan → Current → ℕ → FtdiScan
ftdi_select s i protocol = if is_some s.selected then record s { stopped = true } else record s {
  selected = some (record {
    number = i.number;
    endpoint_count = i.endpoint_count;
    subclass = i.subclass;
    protocol = protocol;
  });
  endpoints_seen = 0;
  bulk_in = none;
  bulk_out = none;
}

unfoldable pub ftdi_interface : Option ℕ → FtdiScan → Bytes → Result FtdiConfigurationError FtdiScan
unfolding ftdi_select
ftdi_interface requested s descriptor = do
  fail_if (not (length descriptor == 9)) FtdiConfigurationError.invalid_interface_descriptor
  let i : Current = record {
    number = byte_at descriptor 2;
    alternate_setting = byte_at descriptor 3;
    endpoint_count = byte_at descriptor 4;
    class = byte_at descriptor 5;
    subclass = byte_at descriptor 6;
  }
  let moved : FtdiScan = record s { current = some i }
  ok (if wanted requested i then ftdi_select moved i (byte_at descriptor 7) else moved)

-- Whether an endpoint belongs to the selected interface.
abbrev pub in_ftdi_scope : Option Current → Option Selected → Bool
in_ftdi_scope none selected = false
in_ftdi_scope (some i) none = false
in_ftdi_scope (some i) (some s) = s.number == i.number && i.alternate_setting == 0

unfoldable pub ftdi_slot : FtdiScan → EndpointDescriptor → Result FtdiConfigurationError FtdiScan
ftdi_slot s endpoint =
    if is_in endpoint
    then fail_if (is_some s.bulk_in) FtdiConfigurationError.invalid_endpoint_descriptor
      >> ok (record s { bulk_in = some endpoint })
    else fail_if (is_some s.bulk_out) FtdiConfigurationError.invalid_endpoint_descriptor
      >> ok (record s { bulk_out = some endpoint })

unfoldable pub ftdi_endpoint : FtdiScan → Bytes → Result FtdiConfigurationError FtdiScan
unfolding ftdi_slot
ftdi_endpoint s descriptor = do
  endpoint ← parse_bulk_endpoint descriptor
  fail_if (s.endpoints_seen == 255) FtdiConfigurationError.invalid_endpoint_descriptor
  ftdi_slot (record s { endpoints_seen = s.endpoints_seen + 1 }) endpoint

-- The body of the loop: the match on the descriptor's type.
unfoldable pub ftdi_step : Option ℕ → FtdiScan → Bytes → Result FtdiConfigurationError FtdiScan
unfolding ftdi_interface ftdi_endpoint
ftdi_step requested s descriptor =
    let kind = byte_at descriptor 1 in
    if kind == 0x04
    then ftdi_interface requested s descriptor
    else if kind == 0x05 && in_ftdi_scope s.current s.selected
    then ftdi_endpoint s descriptor
    else ok s

-- The loop. Once stopped, it looks at no further item.
unfoldable pub ftdi_scan :
    Option ℕ
    → List (Result ConfigurationError Bytes)
    → FtdiScan
    → Result FtdiConfigurationError FtdiScan
ftdi_scan requested [] s = ok s
ftdi_scan requested (item ∷ items) s = if s.stopped then ok s else do
  descriptor ← map_err FtdiConfigurationError.configuration item
  s' ← ftdi_step requested s descriptor
  ftdi_scan requested items s'

-- What follows the loop.
unfoldable pub ftdi_conclude :
    ConfigurationDescriptorHeader → FtdiScan → Result FtdiConfigurationError FtdiInterface
ftdi_conclude header s = do
  chosen ← ok_or s.selected FtdiConfigurationError.missing_interface
  fail_if (not (chosen.endpoint_count == 2) || not (s.endpoints_seen == chosen.endpoint_count))
      FtdiConfigurationError.invalid_endpoint_descriptor
  bulk_out ← ok_or s.bulk_out FtdiConfigurationError.missing_bulk_out_endpoint
  bulk_in ← ok_or s.bulk_in FtdiConfigurationError.missing_bulk_in_endpoint
  ok (record {
    configuration = header;
    interface_number = chosen.number;
    interface_subclass = chosen.subclass;
    interface_protocol = chosen.protocol;
    bulk_out_endpoint = bulk_out;
    bulk_in_endpoint = bulk_in;
  })

-- The products 0x6001, 0x6010, 0x6011, 0x6014 and 0x6015.
abbrev pub is_supported_product : ℕ → Bool
is_supported_product p = p == 0x6001 || p == 0x6010 || p == 0x6011 || p == 0x6014 || p == 0x6015

unfoldable pub discover_interface :
    DeviceDescriptor → Bytes → Option ℕ → Result FtdiConfigurationError FtdiInterface
discover_interface device bytes requested = do
  fail_if (not (device.vendor_id == 0x0403)) FtdiConfigurationError.not_ftdi_device
  fail_if (not (is_supported_product device.product_id)) FtdiConfigurationError.unsupported_product
  header ← map_err FtdiConfigurationError.configuration (parse_header bytes)
  it ← map_err FtdiConfigurationError.configuration (Iterator.new bytes)
  s ← ftdi_scan requested (Iterator.items it) ftdi_start
  ftdi_conclude header s

pub discover : DeviceDescriptor → Bytes → Result FtdiConfigurationError FtdiInterface
discover device bytes = discover_interface device bytes none

pub discover_number : DeviceDescriptor → Bytes → ℕ → Result FtdiConfigurationError FtdiInterface
discover_number device bytes interface_number =
    discover_interface device bytes (some interface_number)
