-- ===== src/Usbtmc/Discovery.antt =====
-- usbtmc.rs: `UsbtmcInterface` and its discovery, with its own parser of endpoints.
mod Tests
pub mod Sound
use embassy_rp_pio_usb_host.Common.{
  ℕ, ◌+◌, Bool, true, false, not, ◌&&◌, ◌||◌, List, [], ◌∷◌, Option, none, some, is_some, Result,
  ok, err, ◌>>=◌, ◌>>◌, fail_if, ok_or, map_err, ltb, ◌==◌, if◌then◌else◌, length, Bytes, byte_at,
  bit_and, from_le_bytes,
}
use embassy_rp_pio_usb_host.Descriptor.Configuration.{
  ConfigurationError, ConfigurationDescriptorHeader, parse_header,
}
use embassy_rp_pio_usb_host.Descriptor.Endpoint.{EndpointDescriptor, number, is_in, read}
use embassy_rp_pio_usb_host.Descriptor.Iterator

pub record UsbtmcInterface : Type 0 where
  pub configuration : ConfigurationDescriptorHeader
  pub interface_number : ℕ
  pub protocol : ℕ
  pub bulk_out_endpoint : EndpointDescriptor
  pub bulk_in_endpoint : EndpointDescriptor
  pub interrupt_in_endpoint : Option EndpointDescriptor

pub data UsbtmcConfigurationError : Type 0 where
  configuration : ConfigurationError → UsbtmcConfigurationError
  missing_interface invalid_interface_descriptor : UsbtmcConfigurationError
  invalid_endpoint_descriptor : UsbtmcConfigurationError
  missing_bulk_in_endpoint missing_bulk_out_endpoint : UsbtmcConfigurationError

pub supports_usb488 : UsbtmcInterface → Bool
supports_usb488 interface = interface.protocol == 0x01

-- `endpoint.attributes & 0x03`
abbrev pub kind_of : EndpointDescriptor → ℕ
kind_of e = bit_and e.attributes 0x03

pub parse_endpoint : Bytes → Result UsbtmcConfigurationError EndpointDescriptor
parse_endpoint bytes = do
  fail_if (not (length bytes == 7) || not (byte_at bytes 1 == 0x05))
      UsbtmcConfigurationError.invalid_endpoint_descriptor
  let endpoint = read bytes
  fail_if
      (not (bit_and endpoint.address 0x70 == 0)
        || number endpoint == 0
        || not (kind_of endpoint == 0x02 || kind_of endpoint == 0x03)
        || not (bit_and (from_le_bytes (byte_at bytes 4) (byte_at bytes 5)) 0xf800 == 0))
      UsbtmcConfigurationError.invalid_endpoint_descriptor
  ok endpoint

abbrev pub valid_bulk_packet_size : ℕ → Bool
valid_bulk_packet_size n = n == 8 || n == 16 || n == 32 || n == 64 || n == 512

abbrev pub valid_interrupt_packet_size : ℕ → Bool
valid_interrupt_packet_size n = not (ltb n 2) && not (ltb 1024 n)

-- The tuple `selected`.
pub record TmcSelected : Type 0 where
  pub number : ℕ
  pub protocol : ℕ

-- The variables of the loop, and whether it was left by `break`.
pub record TmcScan : Type 0 where
  pub selected : Option TmcSelected
  pub current_selected : Bool
  pub bulk_in : Option EndpointDescriptor
  pub bulk_out : Option EndpointDescriptor
  pub interrupt_in : Option EndpointDescriptor
  pub stopped : Bool

abbrev pub tmc_start : TmcScan
tmc_start = record {
  selected = none;
  current_selected = false;
  bulk_in = none;
  bulk_out = none;
  interrupt_in = none;
  stopped = false;
}

abbrev pub is_tmc_protocol : ℕ → Bool
is_tmc_protocol protocol = protocol == 0x00 || protocol == 0x01

abbrev pub is_tmc : Bytes → Bool
is_tmc descriptor =
    byte_at descriptor 3 == 0
    && byte_at descriptor 5 == 0xfe
    && byte_at descriptor 6 == 0x03
    && is_tmc_protocol (byte_at descriptor 7)

-- The end of the interface arm, for an interface of the class.
pub tmc_select : TmcScan → Bytes → TmcScan
tmc_select s descriptor = if is_some s.selected then record s { stopped = true } else record s {
  selected = some (record { number = byte_at descriptor 2; protocol = byte_at descriptor 7 });
  bulk_in = none;
  bulk_out = none;
  interrupt_in = none;
}

pub tmc_interface : TmcScan → Bytes → Result UsbtmcConfigurationError TmcScan
tmc_interface s descriptor = do
  fail_if (not (length descriptor == 9)) UsbtmcConfigurationError.invalid_interface_descriptor
  let moved : TmcScan = record s { current_selected = is_tmc descriptor }
  ok (if is_tmc descriptor then tmc_select moved descriptor else moved)

-- The match on an endpoint's transfer type and direction.
pub tmc_slot : TmcScan → EndpointDescriptor → Result UsbtmcConfigurationError TmcScan
tmc_slot s endpoint =
    if kind_of endpoint == 0x02
    then if is_in endpoint
      then fail_if (not (valid_bulk_packet_size endpoint.max_packet_size) || is_some s.bulk_in)
          UsbtmcConfigurationError.invalid_endpoint_descriptor
        >> ok (record s { bulk_in = some endpoint })
      else fail_if (not (valid_bulk_packet_size endpoint.max_packet_size) || is_some s.bulk_out)
          UsbtmcConfigurationError.invalid_endpoint_descriptor
        >> ok (record s { bulk_out = some endpoint })
    else fail_if
        (not (kind_of endpoint == 0x03)
          || not (is_in endpoint)
          || not (valid_interrupt_packet_size endpoint.max_packet_size)
          || endpoint.interval == 0
          || is_some s.interrupt_in)
        UsbtmcConfigurationError.invalid_endpoint_descriptor
      >> ok (record s { interrupt_in = some endpoint })

-- The body of the loop: the match on the descriptor's type.
pub tmc_step : TmcScan → Bytes → Result UsbtmcConfigurationError TmcScan
tmc_step s descriptor =
    if byte_at descriptor 1 == 0x04
    then tmc_interface s descriptor
    else if byte_at descriptor 1 == 0x05 && s.current_selected
    then parse_endpoint descriptor >>= tmc_slot s
    else ok s

-- The loop. Once stopped, it looks at no further item.
pub tmc_scan :
    List (Result ConfigurationError Bytes) → TmcScan → Result UsbtmcConfigurationError TmcScan
tmc_scan [] s = ok s
tmc_scan (item ∷ items) s = if s.stopped then ok s else do
  descriptor ← map_err UsbtmcConfigurationError.configuration item
  s' ← tmc_step s descriptor
  tmc_scan items s'

-- What follows the loop.
pub tmc_conclude :
    ConfigurationDescriptorHeader → TmcScan → Result UsbtmcConfigurationError UsbtmcInterface
tmc_conclude header s = do
  chosen ← ok_or s.selected UsbtmcConfigurationError.missing_interface
  bulk_out ← ok_or s.bulk_out UsbtmcConfigurationError.missing_bulk_out_endpoint
  bulk_in ← ok_or s.bulk_in UsbtmcConfigurationError.missing_bulk_in_endpoint
  ok (record {
    configuration = header;
    interface_number = chosen.number;
    protocol = chosen.protocol;
    bulk_out_endpoint = bulk_out;
    bulk_in_endpoint = bulk_in;
    interrupt_in_endpoint = s.interrupt_in;
  })

pub discover : Bytes → Result UsbtmcConfigurationError UsbtmcInterface
discover bytes = do
  header ← map_err UsbtmcConfigurationError.configuration (parse_header bytes)
  it ← map_err UsbtmcConfigurationError.configuration (Iterator.new bytes)
  s ← tmc_scan (Iterator.items it) tmc_start
  tmc_conclude header s
