-- ===== src/CdcAcm/Candidate.antt =====
-- usb.rs: `CdcAcmFunction` and `CdcAcmFunction::discover_candidate`, from its two loops.
pub mod Sound
use embassy_rp_pio_usb_host.Common.{
  ℕ, Bool, true, false, not, ◌&&◌, ◌||◌, List, [], ◌∷◌, ◌++◌, Option, none, some, is_some, Result,
  ok, err, ◌>>=◌, ◌>>◌, fail_if, ok_or, ltb, ◌==◌, if◌then◌else◌, Bytes, byte_at, bit_and, drop,
  contains,
}
use embassy_rp_pio_usb_host.Descriptor.Configuration.{
  ConfigurationError, invalid_endpoint_descriptor, missing_control_interface, missing_cdc_header,
  missing_acm_descriptor, missing_union_descriptor, invalid_union_descriptor,
  missing_data_interface, ambiguous_data_interface, ConfigurationDescriptorHeader, parse_header,
}
use embassy_rp_pio_usb_host.Descriptor.Endpoint.{EndpointDescriptor}
use embassy_rp_pio_usb_host.Descriptor.Interface.{InterfaceDescriptor, is_acm_control}
use embassy_rp_pio_usb_host.Descriptor.Iterator
use embassy_rp_pio_usb_host.CdcAcm.Data.{DataInterface, discover_data_interface, interface_exists}
use embassy_rp_pio_usb_host.CdcAcm.Control.{ControlScan, control_start, control_scan}

pub record CdcAcmFunction : Type 0 where
  pub configuration : ConfigurationDescriptorHeader
  pub control_interface : ℕ
  pub data_interface : ℕ
  pub cdc_version_bcd : ℕ
  pub acm_capabilities : ℕ
  pub notification_endpoint : Option EndpointDescriptor
  pub bulk_out_endpoint : EndpointDescriptor
  pub bulk_in_endpoint : EndpointDescriptor

abbrev pub supports_line_requests : CdcAcmFunction → Bool
supports_line_requests f = not (bit_and f.acm_capabilities 0x02 == 0)

abbrev pub supports_send_break : CdcAcmFunction → Bool
supports_send_break f = not (bit_and f.acm_capabilities 0x04 == 0)

-- The loop that checks the subordinate interfaces, those before the current one given first.
unfoldable pub check_subordinates : Bytes → ℕ → Bytes → Bytes → Result ConfigurationError (Unit {0})
check_subordinates bytes requested before [] = ok tt
check_subordinates bytes requested before (subordinate ∷ rest) = do
  fail_if (subordinate == requested || contains before subordinate) invalid_union_descriptor
  exists ← interface_exists bytes subordinate
  fail_if (not exists) invalid_union_descriptor
  check_subordinates bytes requested (before ++ subordinate ∷ []) rest

-- `managed_data_interface`
abbrev pub managed_data_interface : Option (ℕ × ℕ) → Option ℕ
managed_data_interface none = none
managed_data_interface (some (capabilities, interface)) =
    if bit_and capabilities 0x03 == 0x03 then some interface else none

-- `if selected.replace(candidate).is_some() { return Err(..) }`, for a candidate that is there.
abbrev pub replace_data :
    Option DataInterface → Option DataInterface → Result ConfigurationError (Option DataInterface)
replace_data selected none = ok selected
replace_data none (some candidate) = ok (some candidate)
replace_data (some _) (some candidate) = err ambiguous_data_interface

-- The loop over the subordinate interfaces that looks for the only data interface.
unfoldable pub select_data :
    Bytes → Bytes → Option DataInterface → Result ConfigurationError (Option DataInterface)
select_data bytes [] selected = ok selected
select_data bytes (subordinate ∷ rest) selected = do
  candidate ← discover_data_interface bytes subordinate
  selected' ← replace_data selected candidate
  select_data bytes rest selected'

unfoldable pub choose_data : Bytes → Bytes → Option ℕ → Result ConfigurationError DataInterface
choose_data bytes subordinates (some interface) = do
  fail_if (not (contains subordinates interface)) invalid_union_descriptor
  found ← discover_data_interface bytes interface
  ok_or found missing_data_interface
choose_data bytes subordinates none = do
  selected ← select_data bytes subordinates none
  ok_or selected missing_data_interface

abbrev pub same_address : Option EndpointDescriptor → EndpointDescriptor → Bool
same_address none endpoint = false
same_address (some notification) endpoint = notification.address == endpoint.address

-- What follows the loop over the descriptors.
unfoldable pub control_conclude :
    Bytes
    → ConfigurationDescriptorHeader
    → ℕ
    → ControlScan
    → Result ConfigurationError CdcAcmFunction
control_conclude bytes configuration requested s = do
  descriptor ← ok_or s.control_descriptor missing_control_interface
  fail_if (not (is_acm_control descriptor)) missing_control_interface
  fail_if
      (ltb 1 descriptor.endpoint_count
        || not (descriptor.endpoint_count == s.control_endpoints_seen))
      invalid_endpoint_descriptor
  version ← ok_or s.cdc_version_bcd missing_cdc_header
  capabilities ← ok_or s.acm_capabilities missing_acm_descriptor
  union ← ok_or s.union_descriptor missing_union_descriptor
  fail_if (not (byte_at union 3 == requested)) invalid_union_descriptor
  let subordinates = drop 4 union
  _ ← check_subordinates bytes requested [] subordinates
  chosen ← choose_data bytes subordinates (managed_data_interface s.call_management)
  fail_if (same_address s.notification_endpoint chosen.bulk_in_endpoint) invalid_endpoint_descriptor
  ok (record {
    configuration = configuration;
    control_interface = requested;
    data_interface = chosen.number;
    cdc_version_bcd = version;
    acm_capabilities = capabilities;
    notification_endpoint = s.notification_endpoint;
    bulk_out_endpoint = chosen.bulk_out_endpoint;
    bulk_in_endpoint = chosen.bulk_in_endpoint;
  })

unfoldable pub discover_candidate : Bytes → ℕ → Result ConfigurationError CdcAcmFunction
discover_candidate bytes requested = do
  configuration ← parse_header bytes
  it ← Iterator.new bytes
  s ← control_scan requested (Iterator.items it) control_start
  control_conclude bytes configuration requested s
