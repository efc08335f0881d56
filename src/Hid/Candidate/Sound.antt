-- ===== src/Hid/Candidate/Sound.antt =====
-- What `HidInterface::discover_candidate` returns: its endpoints, their directions and lengths.
use embassy_rp_pio_usb_host.Common.{
  ℕ, ◌+◌, true, false, not, ◌&&◌, ◌≡◌, ◌≢◌, refl, List, [], ◌∷◌, Result, ok, err, map_err, ◌==◌,
  Bytes, byte_at, is_some, arith, Ensures, AllSome, Ensures-elim, >>=-Ensures, guard-Ensures,
  ok_or-Ensures, ok-Ensures, if-Ensures, AllSome-elim, return-Ensures, leb, length, ◌||◌,
}
use embassy_rp_pio_usb_host.Descriptor.Configuration.{ConfigurationError}
use embassy_rp_pio_usb_host.Descriptor.Endpoint
use embassy_rp_pio_usb_host.Descriptor.Endpoint.{
  EndpointDescriptor, is_in, is_supported_hid_interrupt,
}
use embassy_rp_pio_usb_host.Descriptor.Interface
use embassy_rp_pio_usb_host.Descriptor.Interface.{InterfaceDescriptor, is_hid}
use embassy_rp_pio_usb_host.Descriptor.Iterator
use embassy_rp_pio_usb_host.Hid.Descriptor.{configuration, invalid_endpoint_descriptor, parse}
use embassy_rp_pio_usb_host.Hid.Descriptor.Report.{HasReport, parse-HasReport}
use embassy_rp_pio_usb_host.Hid.Candidate.{
  HidInterface, Scan, start, scan_parsed, in_scope, scan_hid, scan_slot, scan_endpoint,
  scan_descriptor, scan, conclude, discover_candidate,
}

abbrev pub IsInterruptIn : EndpointDescriptor → Type 0
IsInterruptIn e = (is_in e ≡ true) × (is_supported_hid_interrupt e ≡ true)

abbrev pub IsInterruptOut : EndpointDescriptor → Type 0
IsInterruptOut e = (is_in e ≡ false) × (is_supported_hid_interrupt e ≡ true)

-- The invariant of the loop: what the slots and the HID descriptor hold.
record ScanOk (s : Scan) : Type 0 where
  slot_in : AllSome IsInterruptIn s.interrupt_in_endpoint
  slot_out : AllSome IsInterruptOut s.interrupt_out_endpoint
  has_report : AllSome HasReport s.hid_descriptor

scan_slot-ScanOk :
    (s : Scan) (e : EndpointDescriptor)
    → ScanOk s
    → is_supported_hid_interrupt e ≡ true
    → Ensures ScanOk (scan_slot s e)
unfolding scan_slot
scan_slot-ScanOk s e w supported =
    if-Ensures (is_in e)
      (λ d. guard-Ensures (is_some s.interrupt_in_endpoint) _ (λ _.
        return-Ensures
          (record { slot_in = (d, supported); slot_out = w.slot_out; has_report = w.has_report })))
      (λ d. guard-Ensures (is_some s.interrupt_out_endpoint) _ (λ _.
        return-Ensures
          (record { slot_in = w.slot_in; slot_out = (d, supported); has_report = w.has_report })))

scan_endpoint-ScanOk :
    (s : Scan) (descriptor : Bytes) → ScanOk s → Ensures ScanOk (scan_endpoint s descriptor)
unfolding scan_endpoint
scan_endpoint-ScanOk s descriptor w =
    ok-Ensures (map_err (λ _. invalid_endpoint_descriptor) (Endpoint.parse descriptor)) λ e _.
      guard-Ensures (s.endpoints_seen == 255) _ λ _.
        guard-Ensures (not (is_supported_hid_interrupt e)) _ λ h.
          scan_slot-ScanOk (record s { endpoints_seen = s.endpoints_seen + 1 }) e
            (record { slot_in = w.slot_in; slot_out = w.slot_out; has_report = w.has_report })
            (ground arith)

scan_hid-ScanOk :
    (s : Scan) (descriptor : Bytes) → ScanOk s → Ensures ScanOk (scan_hid s descriptor)
unfolding scan_hid
scan_hid-ScanOk s descriptor w =
    >>=-Ensures (parse descriptor) (parse-HasReport descriptor) λ hid r.
      guard-Ensures (is_some s.hid_descriptor) _
        λ _. return-Ensures (record { slot_in = w.slot_in; slot_out = w.slot_out; has_report = r })

scan_parsed-ScanOk :
    (requested : ℕ) (s : Scan) (descriptor : Bytes)
    (parsed : Result ConfigurationError InterfaceDescriptor)
    → ScanOk s
    → Ensures ScanOk (scan_parsed requested s descriptor parsed)
unfolding scan_parsed
scan_parsed-ScanOk requested s descriptor (err error) w =
    guard-Ensures
      (leb 4 (length descriptor) && byte_at descriptor 2 == requested && byte_at descriptor 3 == 0)
      _
      λ _.
        return-Ensures
          (record { slot_in = w.slot_in; slot_out = w.slot_out; has_report = w.has_report })
scan_parsed-ScanOk requested s descriptor (ok i) w =
    guard-Ensures
      ((i.number == requested && i.alternate_setting == 0) && is_some s.selected_interface) _
      λ _.
        return-Ensures
          (record { slot_in = w.slot_in; slot_out = w.slot_out; has_report = w.has_report })

scan_descriptor-ScanOk :
    (requested : ℕ) (s : Scan) (descriptor : Bytes)
    → ScanOk s
    → Ensures ScanOk (scan_descriptor requested s descriptor)
unfolding scan_descriptor
scan_descriptor-ScanOk requested s descriptor w =
    if-Ensures (byte_at descriptor 1 == 0x04)
      (λ _. scan_parsed-ScanOk requested s descriptor (Interface.parse descriptor) w)
      (λ _.
        if-Ensures (byte_at descriptor 1 == 0x21 && in_scope requested s.current_interface)
          (λ _. scan_hid-ScanOk s descriptor w)
          (λ _.
            if-Ensures (byte_at descriptor 1 == 0x05 && in_scope requested s.current_interface)
              (λ _. scan_endpoint-ScanOk s descriptor w) (λ _. return-Ensures w)))

scan-ScanOk :
    (requested : ℕ) (items : List (Result ConfigurationError Bytes)) (s : Scan)
    → ScanOk s
    → Ensures ScanOk (scan requested items s)
unfolding scan
scan-ScanOk requested [] s w = return-Ensures w
scan-ScanOk requested (err e ∷ items) s w = record { holds = tt }
scan-ScanOk requested (ok descriptor ∷ items) s w =
    >>=-Ensures (scan_descriptor requested s descriptor)
      (scan_descriptor-ScanOk requested s descriptor w) (scan-ScanOk requested items)

-- What is promised of a HID interface found under a number.
pub record IsHidInterface (requested : ℕ) (h : HidInterface) : Type 0 where
  pub has_number : h.interface_number ≡ requested
  pub has_interrupt_in : IsInterruptIn h.interrupt_in_endpoint
  pub has_interrupt_out : AllSome IsInterruptOut h.interrupt_out_endpoint
  pub has_report_len : h.report_descriptor_len ≢ 0

conclude-IsHidInterface :
    (requested : ℕ) (s : Scan)
    → ScanOk s
    → Ensures (IsHidInterface requested) (conclude requested s)
unfolding conclude
conclude-IsHidInterface requested s w = ok_or-Ensures s.selected_interface _ λ i _.
    guard-Ensures (not (is_hid i)) _ λ _.
      guard-Ensures
        (not (i.endpoint_count == s.endpoints_seen)
          || not (i.endpoint_count == 1 || i.endpoint_count == 2))
        _
        λ _. ok_or-Ensures s.hid_descriptor _ λ hid h_hid.
          ok_or-Ensures s.interrupt_in_endpoint _ λ interrupt_in h_in. return-Ensures (record {
            has_number = refl;
            has_interrupt_in = AllSome-elim IsInterruptIn h_in w.slot_in;
            has_interrupt_out = w.slot_out;
            has_report_len = AllSome-elim HasReport h_hid w.has_report;
          })

pub discover_candidate-Ensures :
    (bytes : Bytes) (requested : ℕ)
    → Ensures (IsHidInterface requested) (discover_candidate bytes requested)
unfolding discover_candidate
discover_candidate-Ensures bytes requested =
    ok-Ensures (map_err configuration (Iterator.new bytes)) λ it _.
      >>=-Ensures (scan requested (Iterator.items it) start)
        (scan-ScanOk requested _ start (record { slot_in = tt; slot_out = tt; has_report = tt }))
        λ s w. conclude-IsHidInterface requested s w

-- When `discover_candidate` returns a HID interface, it has the number asked for, its IN endpoint
-- is an interrupt endpoint with the direction bit, its OUT endpoint, if any, one without it, and
-- its report descriptor is not empty.
pub discover_candidate-IsHidInterface :
    (bytes : Bytes) (requested : ℕ) (h : HidInterface)
    → discover_candidate bytes requested ≡ ok h
    → IsHidInterface requested h
discover_candidate-IsHidInterface bytes requested h e =
    Ensures-elim e (discover_candidate-Ensures bytes requested)
