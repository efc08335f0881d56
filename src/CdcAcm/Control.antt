-- ===== src/CdcAcm/Control.antt =====
-- usb.rs: the loop of `CdcAcmFunction::discover_candidate` over the descriptors of a configuration.
pub mod Sound
use embassy_rp_pio_usb_host.Common.{
  ℕ, ◌+◌, Bool, true, false, not, ◌&&◌, ◌||◌, List, [], ◌∷◌, Option, none, some, is_some, Result,
  ok, err, ◌>>=◌, ◌>>◌, fail_if, ltb, ◌==◌, if◌then◌else◌, length, Bytes, byte_at, from_le_bytes,
  bit_and,
}
use embassy_rp_pio_usb_host.Descriptor.Configuration.{
  ConfigurationError, invalid_interface_descriptor, invalid_functional_descriptor,
  invalid_endpoint_descriptor,
}
use embassy_rp_pio_usb_host.Descriptor.Endpoint
use embassy_rp_pio_usb_host.Descriptor.Endpoint.{EndpointDescriptor, is_supported_interrupt_in}
use embassy_rp_pio_usb_host.Descriptor.Interface
use embassy_rp_pio_usb_host.Descriptor.Interface.{InterfaceDescriptor, is_acm_control}
use embassy_rp_pio_usb_host.CdcAcm.Data.{names_interface, is_requested}

-- The variables of the loop.
pub record ControlScan : Type 0 where
  pub current_interface : Option InterfaceDescriptor
  pub control_descriptor : Option InterfaceDescriptor
  pub control_endpoints_seen : ℕ  -- u8
  pub notification_endpoint : Option EndpointDescriptor
  pub first_functional_descriptor_seen : Bool
  pub cdc_version_bcd : Option ℕ  -- u16
  pub acm_capabilities : Option ℕ  -- u8
  pub union_descriptor : Option Bytes
  pub call_management : Option (ℕ × ℕ)

abbrev pub control_start : ControlScan
control_start = record {
  current_interface = none;
  control_descriptor = none;
  control_endpoints_seen = 0;
  notification_endpoint = none;
  first_functional_descriptor_seen = false;
  cdc_version_bcd = none;
  acm_capabilities = none;
  union_descriptor = none;
  call_management = none;
}

-- The interface arm, once the descriptor is parsed.
unfoldable pub control_parsed :
    ℕ
    → ControlScan
    → Bytes
    → Result ConfigurationError InterfaceDescriptor
    → Result ConfigurationError ControlScan
control_parsed requested s descriptor (err error) = do
  fail_if (names_interface requested descriptor) error
  ok (record s { current_interface = none })
control_parsed requested s descriptor (ok interface) = do
  let selected = is_requested requested interface
  fail_if (selected && is_some s.control_descriptor) invalid_interface_descriptor
  ok (record s {
    current_interface = some interface;
    control_descriptor = if selected then some interface else s.control_descriptor;
  })

-- Whether a class or endpoint descriptor belongs to the requested control interface.
abbrev pub in_control_scope : ℕ → Option InterfaceDescriptor → Bool
in_control_scope requested none = false
in_control_scope requested (some interface) =
    is_requested requested interface && is_acm_control interface

unfoldable pub control_header : ControlScan → Bytes → Result ConfigurationError ControlScan
control_header s descriptor = do
  fail_if (not (length descriptor == 5) || is_some s.cdc_version_bcd) invalid_functional_descriptor
  ok (record s {
    cdc_version_bcd = some (from_le_bytes (byte_at descriptor 3) (byte_at descriptor 4));
  })

unfoldable pub control_call_management : ControlScan → Bytes → Result ConfigurationError ControlScan
control_call_management s descriptor = do
  fail_if
      (not (length descriptor == 5)
        || is_some s.call_management
        || not (bit_and (byte_at descriptor 3) 0xfc == 0)
        || bit_and (byte_at descriptor 3) 0x03 == 0x02)
      invalid_functional_descriptor
  ok (record s { call_management = some (byte_at descriptor 3, byte_at descriptor 4) })

unfoldable pub control_acm : ControlScan → Bytes → Result ConfigurationError ControlScan
control_acm s descriptor = do
  fail_if
      (not (length descriptor == 4)
        || is_some s.acm_capabilities
        || not (bit_and (byte_at descriptor 3) 0xf0 == 0))
      invalid_functional_descriptor
  ok (record s { acm_capabilities = some (byte_at descriptor 3) })

unfoldable pub control_union : ControlScan → Bytes → Result ConfigurationError ControlScan
control_union s descriptor = do
  fail_if (ltb (length descriptor) 5 || is_some s.union_descriptor) invalid_functional_descriptor
  ok (record s { union_descriptor = some descriptor })

-- The match on the subtype of a functional descriptor.
unfoldable pub control_subtype : ControlScan → Bytes → Result ConfigurationError ControlScan
unfolding control_header control_call_management control_acm control_union
control_subtype s descriptor =
    let subtype = byte_at descriptor 2 in
    if subtype == 0x00
    then control_header s descriptor
    else if subtype == 0x01
    then control_call_management s descriptor
    else if subtype == 0x02
    then control_acm s descriptor
    else if subtype == 0x06
    then control_union s descriptor
    else ok s

-- The class-specific arm, in scope.
unfoldable pub control_functional : ControlScan → Bytes → Result ConfigurationError ControlScan
unfolding control_subtype
control_functional s descriptor = do
  fail_if (ltb (length descriptor) 3) invalid_functional_descriptor
  fail_if (not s.first_functional_descriptor_seen && not (byte_at descriptor 2 == 0x00))
      invalid_functional_descriptor
  control_subtype (record s { first_functional_descriptor_seen = true }) descriptor

-- The endpoint arm, in scope.
unfoldable pub control_endpoint : ControlScan → Bytes → Result ConfigurationError ControlScan
control_endpoint s descriptor = do
  endpoint ← Endpoint.parse descriptor
  fail_if (s.control_endpoints_seen == 255) invalid_endpoint_descriptor
  fail_if (not (is_supported_interrupt_in endpoint) || is_some s.notification_endpoint)
      invalid_endpoint_descriptor
  ok (record s {
    control_endpoints_seen = s.control_endpoints_seen + 1;
    notification_endpoint = some endpoint;
  })

-- The body of the loop: the match on the descriptor's type.
unfoldable pub control_descriptor_step :
    ℕ → ControlScan → Bytes → Result ConfigurationError ControlScan
unfolding control_parsed control_functional control_endpoint
control_descriptor_step requested s descriptor =
    let kind = byte_at descriptor 1 in
    if kind == 0x04
    then control_parsed requested s descriptor (Interface.parse descriptor)
    else if kind == 0x24 && in_control_scope requested s.current_interface
    then control_functional s descriptor
    else if kind == 0x05 && in_control_scope requested s.current_interface
    then control_endpoint s descriptor
    else ok s

unfoldable pub control_scan :
    ℕ → List (Result ConfigurationError Bytes) → ControlScan → Result ConfigurationError ControlScan
control_scan requested [] s = ok s
control_scan requested (err e ∷ items) s = err e
control_scan requested (ok descriptor ∷ items) s = do
  s' ← control_descriptor_step requested s descriptor
  control_scan requested items s'
