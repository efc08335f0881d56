-- ===== src/CdcAcm/Data.antt =====
-- usb.rs: `DataInterface`, `CdcAcmFunction::discover_data_interface` and `interface_exists`.
pub mod Sound
use embassy_rp_pio_usb_host.Common.{
  ℕ, ◌+◌, Bool, true, false, not, ◌&&◌, ◌||◌, List, [], ◌∷◌, Option, none, some, is_some, Result,
  ok, err, ◌>>=◌, ◌>>◌, fail_if, ok_or, map_err, leb, ◌==◌, if◌then◌else◌, length, Bytes, byte_at,
}
use embassy_rp_pio_usb_host.Descriptor.Configuration.{
  ConfigurationError, invalid_interface_descriptor, invalid_endpoint_descriptor,
  missing_bulk_out_endpoint, missing_bulk_in_endpoint,
}
use embassy_rp_pio_usb_host.Descriptor.Endpoint
use embassy_rp_pio_usb_host.Descriptor.Endpoint.{EndpointDescriptor, is_in, is_supported_bulk}
use embassy_rp_pio_usb_host.Descriptor.Interface
use embassy_rp_pio_usb_host.Descriptor.Interface.{InterfaceDescriptor}
use embassy_rp_pio_usb_host.Descriptor.Iterator

pub record DataInterface : Type 0 where
  pub number : ℕ
  pub bulk_out_endpoint : EndpointDescriptor
  pub bulk_in_endpoint : EndpointDescriptor

-- The variables of the loop.
pub record DataScan : Type 0 where
  pub current_interface : Option InterfaceDescriptor
  pub data_descriptor : Option InterfaceDescriptor
  pub endpoints_seen : ℕ  -- u8
  pub bulk_out_endpoint : Option EndpointDescriptor
  pub bulk_in_endpoint : Option EndpointDescriptor

abbrev pub data_start : DataScan
data_start = record {
  current_interface = none;
  data_descriptor = none;
  endpoints_seen = 0;
  bulk_out_endpoint = none;
  bulk_in_endpoint = none;
}

-- `descriptor.len() >= 4 && descriptor[2] == requested && descriptor[3] == 0`
abbrev pub names_interface : ℕ → Bytes → Bool
names_interface requested descriptor =
    leb 4 (length descriptor) && byte_at descriptor 2 == requested && byte_at descriptor 3 == 0

abbrev pub is_requested : ℕ → InterfaceDescriptor → Bool
is_requested requested i = i.number == requested && i.alternate_setting == 0

-- The interface arm, once the descriptor is parsed.
unfoldable pub data_parsed :
    ℕ
    → DataScan
    → Bytes
    → Result ConfigurationError InterfaceDescriptor
    → Result ConfigurationError DataScan
data_parsed requested s descriptor (err error) = do
  fail_if (names_interface requested descriptor) error
  ok (record s { current_interface = none })
data_parsed requested s descriptor (ok interface) = do
  let selected = is_requested requested interface
  fail_if (selected && is_some s.data_descriptor) invalid_interface_descriptor
  ok (record s {
    current_interface = some interface;
    data_descriptor = if selected then some interface else s.data_descriptor;
  })

abbrev pub in_data_scope : ℕ → Option InterfaceDescriptor → Bool
in_data_scope requested none = false
in_data_scope requested (some interface) = is_requested requested interface

-- The end of the endpoint arm: the endpoint goes to the slot of its direction.
unfoldable pub data_slot : DataScan → EndpointDescriptor → Result ConfigurationError DataScan
data_slot s endpoint =
    if is_in endpoint
    then fail_if (is_some s.bulk_in_endpoint) invalid_endpoint_descriptor
      >> ok (record s { bulk_in_endpoint = some endpoint })
    else fail_if (is_some s.bulk_out_endpoint) invalid_endpoint_descriptor
      >> ok (record s { bulk_out_endpoint = some endpoint })

unfoldable pub data_endpoint : DataScan → Bytes → Result ConfigurationError DataScan
unfolding data_slot
data_endpoint s descriptor = do
  endpoint ← Endpoint.parse descriptor
  fail_if (s.endpoints_seen == 255) invalid_endpoint_descriptor
  fail_if (not (is_supported_bulk endpoint)) invalid_endpoint_descriptor
  data_slot (record s { endpoints_seen = s.endpoints_seen + 1 }) endpoint

-- The body of the loop: the match on the descriptor's type.
unfoldable pub data_descriptor_step : ℕ → DataScan → Bytes → Result ConfigurationError DataScan
unfolding data_parsed data_endpoint
data_descriptor_step requested s descriptor =
    let kind = byte_at descriptor 1 in
    if kind == 0x04
    then data_parsed requested s descriptor (Interface.parse descriptor)
    else if kind == 0x05 && in_data_scope requested s.current_interface
    then data_endpoint s descriptor
    else ok s

unfoldable pub data_scan :
    ℕ → List (Result ConfigurationError Bytes) → DataScan → Result ConfigurationError DataScan
data_scan requested [] s = ok s
data_scan requested (err e ∷ items) s = err e
data_scan requested (ok descriptor ∷ items) s = do
  s' ← data_descriptor_step requested s descriptor
  data_scan requested items s'

-- What follows the loop, for a data-class descriptor.
unfoldable pub data_interface :
    ℕ → DataScan → InterfaceDescriptor → Result ConfigurationError (Option DataInterface)
data_interface requested s descriptor = do
  fail_if (not (descriptor.subclass == 0)) invalid_interface_descriptor
  fail_if (not (descriptor.endpoint_count == s.endpoints_seen)) invalid_endpoint_descriptor
  bulk_out ← ok_or s.bulk_out_endpoint missing_bulk_out_endpoint
  bulk_in ← ok_or s.bulk_in_endpoint missing_bulk_in_endpoint
  fail_if (not (descriptor.endpoint_count == 2)) invalid_endpoint_descriptor
  ok (
      some
        (record { number = requested; bulk_out_endpoint = bulk_out; bulk_in_endpoint = bulk_in }))

unfoldable pub data_conclude :
    ℕ → DataScan → Option InterfaceDescriptor → Result ConfigurationError (Option DataInterface)
unfolding data_interface
data_conclude requested s none = ok none
data_conclude requested s (some descriptor) =
    if not (descriptor.class == 0x0a) then ok none else data_interface requested s descriptor

unfoldable pub discover_data_interface :
    Bytes → ℕ → Result ConfigurationError (Option DataInterface)
discover_data_interface bytes requested = do
  it ← Iterator.new bytes
  s ← data_scan requested (Iterator.items it) data_start
  data_conclude requested s s.data_descriptor

-- A round of the loop of `interface_exists`, which may return from it.
unfoldable pub exists_parsed :
    ℕ
    → Bytes
    → Result ConfigurationError InterfaceDescriptor
    → Option (Result ConfigurationError Bool)
exists_parsed requested descriptor (ok interface) =
    if is_requested requested interface then some (ok true) else none
exists_parsed requested descriptor (err error) =
    if names_interface requested descriptor then some (err error) else none

abbrev pub return_or :
    Option (Result ConfigurationError Bool)
    → Result ConfigurationError Bool
    → Result ConfigurationError Bool
return_or none continue = continue
return_or (some result) continue = result

unfoldable pub exists_scan :
    ℕ → List (Result ConfigurationError Bytes) → Result ConfigurationError Bool
unfolding exists_parsed
exists_scan requested [] = ok false
exists_scan requested (err e ∷ items) = err e
exists_scan requested (ok descriptor ∷ items) =
    return_or
      (if not (byte_at descriptor 1 == 0x04)
        then none
        else exists_parsed requested descriptor (Interface.parse descriptor))
      (exists_scan requested items)

unfoldable pub interface_exists : Bytes → ℕ → Result ConfigurationError Bool
interface_exists bytes requested = do
  it ← Iterator.new bytes
  exists_scan requested (Iterator.items it)
