-- ===== src/CdcAcm/Data/Sound.antt =====
-- The data interface that `discover_data_interface` returns: its endpoints and their directions.
use embassy_rp_pio_usb_host.Common.{
  ℕ, ◌+◌, Bool, true, false, not, ◌≡◌, refl, List, [], ◌∷◌, Option, none, some, Result, ok, err,
  ◌==◌, Bytes, byte_at, is_some, arith, Ensures, AllSome, Ensures-elim, >>=-Ensures, guard-Ensures,
  ok_or-Ensures, ok-Ensures, if-Ensures, AllSome-elim, return-Ensures, ◌&&◌,
}
use embassy_rp_pio_usb_host.Descriptor.Configuration.{ConfigurationError}
use embassy_rp_pio_usb_host.Descriptor.Endpoint
use embassy_rp_pio_usb_host.Descriptor.Endpoint.{EndpointDescriptor, is_in, is_supported_bulk}
use embassy_rp_pio_usb_host.Descriptor.Interface
use embassy_rp_pio_usb_host.Descriptor.Interface.{InterfaceDescriptor}
use embassy_rp_pio_usb_host.Descriptor.Iterator
use embassy_rp_pio_usb_host.CdcAcm.Data.{
  DataInterface, DataScan, data_slot, data_endpoint, data_parsed, data_descriptor_step, data_scan,
  data_interface, data_conclude, discover_data_interface, data_start, names_interface, is_requested,
  in_data_scope,
}

abbrev pub IsBulkIn : EndpointDescriptor → Type 0
IsBulkIn e = (is_in e ≡ true) × (is_supported_bulk e ≡ true)

abbrev pub IsBulkOut : EndpointDescriptor → Type 0
IsBulkOut e = (is_in e ≡ false) × (is_supported_bulk e ≡ true)

record SlotsOk (s : DataScan) : Type 0 where
  slot_in : AllSome IsBulkIn s.bulk_in_endpoint
  slot_out : AllSome IsBulkOut s.bulk_out_endpoint

not-false : (b : Bool) → (not b ≡ false) → b ≡ true
not-false b h = ground arith

data_slot-SlotsOk :
    (s : DataScan) (e : EndpointDescriptor)
    → SlotsOk s
    → is_supported_bulk e ≡ true
    → Ensures SlotsOk (data_slot s e)
unfolding data_slot
data_slot-SlotsOk s e w supported =
    if-Ensures (is_in e)
      (λ d.
        guard-Ensures (is_some s.bulk_in_endpoint) _
          (λ _. return-Ensures (record { slot_in = (d, supported); slot_out = w.slot_out })))
      (λ d.
        guard-Ensures (is_some s.bulk_out_endpoint) _
          (λ _. return-Ensures (record { slot_in = w.slot_in; slot_out = (d, supported) })))

data_endpoint-SlotsOk :
    (s : DataScan) (descriptor : Bytes) → SlotsOk s → Ensures SlotsOk (data_endpoint s descriptor)
unfolding data_endpoint
data_endpoint-SlotsOk s descriptor w = ok-Ensures (Endpoint.parse descriptor) (λ e _.
    guard-Ensures (s.endpoints_seen == 255) _ (λ _.
      guard-Ensures (not (is_supported_bulk e)) _ (λ h.
        data_slot-SlotsOk (record s { endpoints_seen = s.endpoints_seen + 1 }) e
          (record { slot_in = w.slot_in; slot_out = w.slot_out }) (not-false _ h))))

data_parsed-SlotsOk :
    (requested : ℕ) (s : DataScan) (descriptor : Bytes)
    (parsed : Result ConfigurationError InterfaceDescriptor)
    → SlotsOk s
    → Ensures SlotsOk (data_parsed requested s descriptor parsed)
unfolding data_parsed
data_parsed-SlotsOk requested s descriptor (err error) w =
    guard-Ensures (names_interface requested descriptor) _
      (λ _. return-Ensures (record { slot_in = w.slot_in; slot_out = w.slot_out }))
data_parsed-SlotsOk requested s descriptor (ok interface) w =
    guard-Ensures (is_requested requested interface && is_some s.data_descriptor) _
      (λ _. return-Ensures (record { slot_in = w.slot_in; slot_out = w.slot_out }))

data_descriptor_step-SlotsOk :
    (requested : ℕ) (s : DataScan) (descriptor : Bytes)
    → SlotsOk s
    → Ensures SlotsOk (data_descriptor_step requested s descriptor)
unfolding data_descriptor_step
data_descriptor_step-SlotsOk requested s descriptor w =
    if-Ensures (byte_at descriptor 1 == 0x04)
      (λ _. data_parsed-SlotsOk requested s descriptor (Interface.parse descriptor) w)
      (λ _.
        if-Ensures (byte_at descriptor 1 == 0x05 && in_data_scope requested s.current_interface)
          (λ _. data_endpoint-SlotsOk s descriptor w) (λ _. return-Ensures w))

data_scan-SlotsOk :
    (requested : ℕ) (items : List (Result ConfigurationError Bytes)) (s : DataScan)
    → SlotsOk s
    → Ensures SlotsOk (data_scan requested items s)
unfolding data_scan
data_scan-SlotsOk requested [] s w = return-Ensures w
data_scan-SlotsOk requested (err e ∷ items) s w = record { holds = tt }
data_scan-SlotsOk requested (ok descriptor ∷ items) s w =
    >>=-Ensures (data_descriptor_step requested s descriptor)
      (data_descriptor_step-SlotsOk requested s descriptor w) (data_scan-SlotsOk requested items)

-- What is promised of a data interface found under a number.
pub record IsDataInterface (requested : ℕ) (d : DataInterface) : Type 0 where
  pub has_number : d.number ≡ requested
  pub has_bulk_in : IsBulkIn d.bulk_in_endpoint
  pub has_bulk_out : IsBulkOut d.bulk_out_endpoint

data_interface-Sound :
    (requested : ℕ) (s : DataScan) (descriptor : InterfaceDescriptor)
    → SlotsOk s
    → Ensures (AllSome (IsDataInterface requested)) (data_interface requested s descriptor)
unfolding data_interface
data_interface-Sound requested s descriptor w =
    guard-Ensures (not (descriptor.subclass == 0)) _ λ _.
      guard-Ensures (not (descriptor.endpoint_count == s.endpoints_seen)) _ λ _.
        ok_or-Ensures s.bulk_out_endpoint _ λ bulk_out h_out.
          ok_or-Ensures s.bulk_in_endpoint _ λ bulk_in h_in.
            guard-Ensures (not (descriptor.endpoint_count == 2)) _ λ _.
              let sound : IsDataInterface requested (record {
                number = requested;
                bulk_out_endpoint = bulk_out;
                bulk_in_endpoint = bulk_in;
              }) =
                record {
                  has_number = refl;
                  has_bulk_in = AllSome-elim IsBulkIn h_in w.slot_in;
                  has_bulk_out = AllSome-elim IsBulkOut h_out w.slot_out;
                } in
              return-Ensures sound

data_conclude-Sound :
    (requested : ℕ) (s : DataScan) (o : Option InterfaceDescriptor)
    → SlotsOk s
    → Ensures (AllSome (IsDataInterface requested)) (data_conclude requested s o)
unfolding data_conclude
data_conclude-Sound requested s none w = return-Ensures tt
data_conclude-Sound requested s (some descriptor) w =
    if-Ensures (not (descriptor.class == 0x0a)) (λ _. return-Ensures tt)
      (λ _. data_interface-Sound requested s descriptor w)

pub discover_data_interface-Ensures :
    (bytes : Bytes) (requested : ℕ)
    → Ensures (AllSome (IsDataInterface requested)) (discover_data_interface bytes requested)
unfolding discover_data_interface
discover_data_interface-Ensures bytes requested = ok-Ensures (Iterator.new bytes) λ it _.
    >>=-Ensures (data_scan requested (Iterator.items it) data_start)
      (data_scan-SlotsOk requested _ data_start (record { slot_in = tt; slot_out = tt }))
      λ s w. data_conclude-Sound requested s s.data_descriptor w

-- When `discover_data_interface` finds a data interface, it has the number asked for, its IN
-- endpoint is a supported bulk endpoint with the direction bit, and its OUT endpoint a supported
-- bulk endpoint without it.
pub discover_data_interface-IsDataInterface :
    (bytes : Bytes) (requested : ℕ) (d : DataInterface)
    → discover_data_interface bytes requested ≡ ok (some d)
    → IsDataInterface requested d
discover_data_interface-IsDataInterface bytes requested d h =
    Ensures-elim h (discover_data_interface-Ensures bytes requested)
