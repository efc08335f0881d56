-- ===== src/Hid/Candidate.antt =====
-- usb.rs: `HidInterface::discover_candidate`, one pass over the descriptors of a configuration.
pub mod Sound
use embassy_rp_pio_usb_host.Common.{
  ℕ, ◌+◌, Bool, true, false, not, ◌&&◌, ◌||◌, List, [], ◌∷◌, Option, none, some, is_some, Result,
  ok, err, ◌>>=◌, ◌>>◌, fail_if, ok_or, map_err, leb, ◌==◌, if◌then◌else◌, length, Bytes, byte_at,
}
use embassy_rp_pio_usb_host.Descriptor.Configuration.{ConfigurationError}
use embassy_rp_pio_usb_host.Descriptor.Endpoint
use embassy_rp_pio_usb_host.Descriptor.Endpoint.{
  EndpointDescriptor, is_in, is_supported_hid_interrupt,
}
use embassy_rp_pio_usb_host.Descriptor.Interface
use embassy_rp_pio_usb_host.Descriptor.Interface.{InterfaceDescriptor, is_hid}
use embassy_rp_pio_usb_host.Descriptor.Iterator
use embassy_rp_pio_usb_host.Hid.Descriptor.{
  HidConfigurationError, configuration, missing_interface, invalid_interface_descriptor,
  missing_hid_descriptor, duplicate_hid_descriptor, invalid_endpoint_descriptor,
  missing_interrupt_in_endpoint, duplicate_interrupt_in_endpoint, duplicate_interrupt_out_endpoint,
  HidDescriptor, parse,
}

pub record HidInterface : Type 0 where
  pub interface_number : ℕ
  pub interface_subclass : ℕ
  pub interface_protocol : ℕ
  pub hid_version_bcd : ℕ
  pub country_code : ℕ
  pub report_descriptor_len : ℕ
  pub interrupt_in_endpoint : EndpointDescriptor
  pub interrupt_out_endpoint : Option EndpointDescriptor

-- The variables of the loop.
pub record Scan : Type 0 where
  pub current_interface : Option InterfaceDescriptor
  pub selected_interface : Option InterfaceDescriptor
  pub hid_descriptor : Option HidDescriptor
  pub endpoints_seen : ℕ  -- u8
  pub interrupt_in_endpoint : Option EndpointDescriptor
  pub interrupt_out_endpoint : Option EndpointDescriptor

abbrev pub start : Scan
start = record {
  current_interface = none;
  selected_interface = none;
  hid_descriptor = none;
  endpoints_seen = 0;
  interrupt_in_endpoint = none;
  interrupt_out_endpoint = none;
}

-- The interface arm, once the descriptor is parsed.
unfoldable pub scan_parsed :
    ℕ
    → Scan
    → Bytes
    → Result ConfigurationError InterfaceDescriptor
    → Result HidConfigurationError Scan
scan_parsed requested s descriptor (err _) = do
  fail_if
      (leb 4 (length descriptor) && byte_at descriptor 2 == requested && byte_at descriptor 3 == 0)
      invalid_interface_descriptor
  ok (record s { current_interface = none })
scan_parsed requested s descriptor (ok interface) = do
  let is_selected = interface.number == requested && interface.alternate_setting == 0
  fail_if (is_selected && is_some s.selected_interface) invalid_interface_descriptor
  ok (record s {
    current_interface = some interface;
    selected_interface = if is_selected then some interface else s.selected_interface;
  })

-- Whether a class or endpoint descriptor belongs to the requested interface.
abbrev pub in_scope : ℕ → Option InterfaceDescriptor → Bool
in_scope requested none = false
in_scope requested (some interface) = interface.number == requested && is_hid interface

unfoldable pub scan_hid : Scan → Bytes → Result HidConfigurationError Scan
scan_hid s descriptor = do
  parsed ← parse descriptor
  fail_if (is_some s.hid_descriptor) duplicate_hid_descriptor
  ok (record s { hid_descriptor = some parsed })

-- The end of the endpoint arm: the endpoint goes to the slot of its direction.
unfoldable pub scan_slot : Scan → EndpointDescriptor → Result HidConfigurationError Scan
scan_slot s endpoint =
    if is_in endpoint
    then fail_if (is_some s.interrupt_in_endpoint) duplicate_interrupt_in_endpoint
      >> ok (record s { interrupt_in_endpoint = some endpoint })
    else fail_if (is_some s.interrupt_out_endpoint) duplicate_interrupt_out_endpoint
      >> ok (record s { interrupt_out_endpoint = some endpoint })

unfoldable pub scan_endpoint : Scan → Bytes → Result HidConfigurationError Scan
unfolding scan_slot
scan_endpoint s descriptor = do
  endpoint ← map_err (λ _. invalid_endpoint_descriptor) (Endpoint.parse descriptor)
  fail_if (s.endpoints_seen == 255) invalid_endpoint_descriptor
  fail_if (not (is_supported_hid_interrupt endpoint)) invalid_endpoint_descriptor
  scan_slot (record s { endpoints_seen = s.endpoints_seen + 1 }) endpoint

-- The body of the loop: the match on the descriptor's type.
unfoldable pub scan_descriptor : ℕ → Scan → Bytes → Result HidConfigurationError Scan
unfolding scan_parsed scan_hid scan_endpoint
scan_descriptor requested s descriptor =
    let kind = byte_at descriptor 1 in
    if kind == 0x04
    then scan_parsed requested s descriptor (Interface.parse descriptor)
    else if kind == 0x21 && in_scope requested s.current_interface
    then scan_hid s descriptor
    else if kind == 0x05 && in_scope requested s.current_interface
    then scan_endpoint s descriptor
    else ok s

unfoldable pub scan :
    ℕ → List (Result ConfigurationError Bytes) → Scan → Result HidConfigurationError Scan
scan requested [] s = ok s
scan requested (err e ∷ items) s = err (configuration e)
scan requested (ok descriptor ∷ items) s = do
  s' ← scan_descriptor requested s descriptor
  scan requested items s'

-- What follows the loop.
unfoldable pub conclude : ℕ → Scan → Result HidConfigurationError HidInterface
conclude requested s = do
  interface ← ok_or s.selected_interface missing_interface
  fail_if (not (is_hid interface)) missing_interface
  fail_if
      (not (interface.endpoint_count == s.endpoints_seen)
        || not (interface.endpoint_count == 1 || interface.endpoint_count == 2))
      invalid_endpoint_descriptor
  hid ← ok_or s.hid_descriptor missing_hid_descriptor
  interrupt_in ← ok_or s.interrupt_in_endpoint missing_interrupt_in_endpoint
  ok (record {
    interface_number = requested;
    interface_subclass = interface.subclass;
    interface_protocol = interface.protocol;
    hid_version_bcd = hid.hid_version_bcd;
    country_code = hid.country_code;
    report_descriptor_len = hid.report_descriptor_len;
    interrupt_in_endpoint = interrupt_in;
    interrupt_out_endpoint = s.interrupt_out_endpoint;
  })

unfoldable pub discover_candidate : Bytes → ℕ → Result HidConfigurationError HidInterface
discover_candidate bytes requested = do
  it ← map_err configuration (Iterator.new bytes)
  s ← scan requested (Iterator.items it) start
  conclude requested s
