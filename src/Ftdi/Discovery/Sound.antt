-- ===== src/Ftdi/Discovery/Sound.antt =====
-- What `FtdiInterface::discover_interface` returns: its device, its number and its endpoints.
use embassy_rp_pio_usb_host.Common.{
  ℕ, ◌+◌, true, false, not, ◌&&◌, ◌||◌, ◌≡◌, ◌≢◌, List, [], ◌∷◌, Option, some, is_some, Result, ok,
  map_err, ◌==◌, length, Bytes, byte_at, bit_and, from_le_bytes, arith, Ensures, AllSome,
  Ensures-elim, >>=-Ensures, guard-Ensures, ok_or-Ensures, ok-Ensures, if-Ensures, AllSome-elim,
  return-Ensures, Bool-cases, if_both, inl, inr,
}
use embassy_rp_pio_usb_host.Descriptor.Device.{DeviceDescriptor}
use embassy_rp_pio_usb_host.Descriptor.Configuration.{ConfigurationError, parse_header}
use embassy_rp_pio_usb_host.Descriptor.Endpoint.{EndpointDescriptor, number, is_in, read}
use embassy_rp_pio_usb_host.Descriptor.Iterator
use embassy_rp_pio_usb_host.Ftdi.Discovery.{
  FtdiInterface, FtdiConfigurationError, is_packet_size, parse_bulk_endpoint, Current, Selected,
  FtdiScan, ftdi_start, is_none_or, wanted, ftdi_select, ftdi_interface, in_ftdi_scope, ftdi_slot,
  ftdi_endpoint, ftdi_step, ftdi_scan, ftdi_conclude, is_supported_product, discover_interface,
}

-- A bulk endpoint of the FTDI driver: a bulk transfer type without reserved attribute bits, a legal
-- packet size and a number other than zero.
pub record IsFtdiBulk (e : EndpointDescriptor) : Type 0 where
  pub has_attributes : e.attributes ≡ 0x02
  pub has_size : is_packet_size e.max_packet_size ≡ true
  pub has_number : number e ≢ 0

abbrev pub IsFtdiIn : EndpointDescriptor → Type 0
IsFtdiIn e = (is_in e ≡ true) × IsFtdiBulk e

abbrev pub IsFtdiOut : EndpointDescriptor → Type 0
IsFtdiOut e = (is_in e ≡ false) × IsFtdiBulk e

abbrev pub IsSelected : Option ℕ → Selected → Type 0
IsSelected requested s = is_none_or requested s.number ≡ true

-- The invariant of the loop.
record FtdiOk (requested : Option ℕ) (s : FtdiScan) : Type 0 where
  slot_in : AllSome IsFtdiIn s.bulk_in
  slot_out : AllSome IsFtdiOut s.bulk_out
  chosen : AllSome (IsSelected requested) s.selected

parse_bulk_endpoint-IsFtdiBulk : (bytes : Bytes) → Ensures IsFtdiBulk (parse_bulk_endpoint bytes)
unfolding parse_bulk_endpoint
parse_bulk_endpoint-IsFtdiBulk bytes =
    let e = read bytes in
    guard-Ensures (not (length bytes == 7) || not (byte_at bytes 1 == 0x05)) _ λ _.
      guard-Ensures
        (not (bit_and e.address 0x70 == 0)
          || number e == 0
          || not (e.attributes == 0x02)
          || not (is_packet_size e.max_packet_size)
          || not (bit_and (from_le_bytes (byte_at bytes 4) (byte_at bytes 5)) 0xf800 == 0))
        _
        λ h. return-Ensures (record {
          has_attributes = ground arith;
          has_size = ground arith;
          has_number = ground arith;
        })

ftdi_select-FtdiOk :
    (requested : Option ℕ) (s : FtdiScan) (i : Current) (protocol : ℕ)
    → is_none_or requested i.number ≡ true
    → FtdiOk requested s
    → FtdiOk requested (ftdi_select s i protocol)
unfolding ftdi_select
ftdi_select-FtdiOk requested s i protocol h w =
    if_both (FtdiOk requested) (is_some s.selected)
      (record { slot_in = w.slot_in; slot_out = w.slot_out; chosen = w.chosen })
      (record { slot_in = tt; slot_out = tt; chosen = h })

ftdi_interface-FtdiOk :
    (requested : Option ℕ) (s : FtdiScan) (descriptor : Bytes)
    → FtdiOk requested s
    → Ensures (FtdiOk requested) (ftdi_interface requested s descriptor)
unfolding ftdi_interface
ftdi_interface-FtdiOk requested s descriptor w = guard-Ensures (not (length descriptor == 9)) _ λ _.
    let i : Current = record {
      number = byte_at descriptor 2;
      alternate_setting = byte_at descriptor 3;
      endpoint_count = byte_at descriptor 4;
      class = byte_at descriptor 5;
      subclass = byte_at descriptor 6;
    } in
    let moved : FtdiScan = record s { current = some i } in
    let kept : FtdiOk requested moved = record {
      slot_in = w.slot_in;
      slot_out = w.slot_out;
      chosen = w.chosen;
    } in
    elim (Bool-cases (wanted requested i)) [
      | inl e ↦ rw e (
          return-Ensures
            (ftdi_select-FtdiOk requested moved i (byte_at descriptor 7) (ground arith) kept))
      | inr e ↦ rw e (return-Ensures kept)
    ]

ftdi_slot-FtdiOk :
    (requested : Option ℕ) (s : FtdiScan) (e : EndpointDescriptor)
    → FtdiOk requested s
    → IsFtdiBulk e
    → Ensures (FtdiOk requested) (ftdi_slot s e)
unfolding ftdi_slot
ftdi_slot-FtdiOk requested s e w bulk =
    if-Ensures (is_in e)
      (λ d. guard-Ensures (is_some s.bulk_in) _ λ _.
        return-Ensures (record { slot_in = (d, bulk); slot_out = w.slot_out; chosen = w.chosen }))
      λ d. guard-Ensures (is_some s.bulk_out) _ λ _.
        return-Ensures (record { slot_in = w.slot_in; slot_out = (d, bulk); chosen = w.chosen })

ftdi_endpoint-FtdiOk :
    (requested : Option ℕ) (s : FtdiScan) (descriptor : Bytes)
    → FtdiOk requested s
    → Ensures (FtdiOk requested) (ftdi_endpoint s descriptor)
unfolding ftdi_endpoint
ftdi_endpoint-FtdiOk requested s descriptor w =
    >>=-Ensures (parse_bulk_endpoint descriptor) (parse_bulk_endpoint-IsFtdiBulk descriptor)
      λ e bulk. guard-Ensures (s.endpoints_seen == 255) _ λ _.
        ftdi_slot-FtdiOk requested (record s { endpoints_seen = s.endpoints_seen + 1 }) e
          (record { slot_in = w.slot_in; slot_out = w.slot_out; chosen = w.chosen }) bulk

ftdi_step-FtdiOk :
    (requested : Option ℕ) (s : FtdiScan) (descriptor : Bytes)
    → FtdiOk requested s
    → Ensures (FtdiOk requested) (ftdi_step requested s descriptor)
unfolding ftdi_step
ftdi_step-FtdiOk requested s descriptor w =
    if-Ensures (byte_at descriptor 1 == 0x04) (λ _. ftdi_interface-FtdiOk requested s descriptor w)
      λ _.
        if-Ensures (byte_at descriptor 1 == 0x05 && in_ftdi_scope s.current s.selected)
          (λ _. ftdi_endpoint-FtdiOk requested s descriptor w) λ _. return-Ensures w

ftdi_scan-FtdiOk :
    (requested : Option ℕ) (items : List (Result ConfigurationError Bytes)) (s : FtdiScan)
    → FtdiOk requested s
    → Ensures (FtdiOk requested) (ftdi_scan requested items s)
unfolding ftdi_scan
ftdi_scan-FtdiOk requested [] s w = return-Ensures w
ftdi_scan-FtdiOk requested (item ∷ items) s w =
    if-Ensures s.stopped (λ _. return-Ensures w)
      λ _. ok-Ensures (map_err FtdiConfigurationError.configuration item) λ descriptor _.
        >>=-Ensures (ftdi_step requested s descriptor) (ftdi_step-FtdiOk requested s descriptor w)
          (ftdi_scan-FtdiOk requested items)

-- What is promised of an interface found in the configuration of a device.
pub record IsFtdiInterface (device : DeviceDescriptor) (bytes : Bytes) (requested : Option ℕ)
    (f : FtdiInterface) : Type 0 where
  pub has_vendor : device.vendor_id ≡ 0x0403
  pub has_product : is_supported_product device.product_id ≡ true
  pub has_configuration :
      map_err FtdiConfigurationError.configuration (parse_header bytes) ≡ ok f.configuration
  pub has_number : is_none_or requested f.interface_number ≡ true
  pub has_bulk_in : IsFtdiIn f.bulk_in_endpoint
  pub has_bulk_out : IsFtdiOut f.bulk_out_endpoint

discover_interface-Ensures :
    (device : DeviceDescriptor) (bytes : Bytes) (requested : Option ℕ)
    → Ensures (IsFtdiInterface device bytes requested) (discover_interface device bytes requested)
unfolding discover_interface ftdi_conclude
discover_interface-Ensures device bytes requested =
    guard-Ensures (not (device.vendor_id == 0x0403)) _ λ vendor.
      guard-Ensures (not (is_supported_product device.product_id)) _ λ product.
        ok-Ensures (map_err FtdiConfigurationError.configuration (parse_header bytes))
          λ header parsed.
            ok-Ensures (map_err FtdiConfigurationError.configuration (Iterator.new bytes)) λ it _.
              >>=-Ensures (ftdi_scan requested (Iterator.items it) ftdi_start)
                (ftdi_scan-FtdiOk requested (Iterator.items it) ftdi_start
                  (record { slot_in = tt; slot_out = tt; chosen = tt }))
                λ s w. ok_or-Ensures s.selected _ λ i h.
                  guard-Ensures
                    (not (i.endpoint_count == 2) || not (s.endpoints_seen == i.endpoint_count)) _
                    λ _. ok_or-Ensures s.bulk_out _ λ bulk_out h_out.
                      ok_or-Ensures s.bulk_in _ λ bulk_in h_in. return-Ensures (record {
                        has_vendor = ground arith;
                        has_product = ground arith;
                        has_configuration = parsed;
                        has_number = AllSome-elim (IsSelected requested) h w.chosen;
                        has_bulk_in = AllSome-elim IsFtdiIn h_in w.slot_in;
                        has_bulk_out = AllSome-elim IsFtdiOut h_out w.slot_out;
                      })

-- When `discover_interface` returns an interface, the device has the vendor's identifier and a
-- supported product, the interface has the number asked for, if one was, its two endpoints are bulk
-- endpoints of a legal packet size, one in each direction, and its configuration is the parsed
-- header.
pub discover_interface-IsFtdiInterface :
    (device : DeviceDescriptor) (bytes : Bytes) (requested : Option ℕ) (f : FtdiInterface)
    → discover_interface device bytes requested ≡ ok f
    → IsFtdiInterface device bytes requested f
discover_interface-IsFtdiInterface device bytes requested f e =
    Ensures-elim e (discover_interface-Ensures device bytes requested)
