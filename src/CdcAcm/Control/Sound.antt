-- ===== src/CdcAcm/Control/Sound.antt =====
-- What the loop of `CdcAcmFunction::discover_candidate` gathers.
use embassy_rp_pio_usb_host.Common.{
  ℕ, true, not, ◌&&◌, ◌||◌, ◌≡◌, refl, List, [], ◌∷◌, is_some, Result, ok, err, ◌==◌, ltb, length,
  Bytes, byte_at, bit_and, arith, Ensures, AllSome, >>=-Ensures, guard-Ensures, ok-Ensures,
  if-Ensures, return-Ensures,
}
use embassy_rp_pio_usb_host.Descriptor.Configuration.{ConfigurationError}
use embassy_rp_pio_usb_host.Descriptor.Endpoint
use embassy_rp_pio_usb_host.Descriptor.Endpoint.{EndpointDescriptor, is_supported_interrupt_in}
use embassy_rp_pio_usb_host.Descriptor.Interface
use embassy_rp_pio_usb_host.Descriptor.Interface.{InterfaceDescriptor}
use embassy_rp_pio_usb_host.CdcAcm.Data.{names_interface, is_requested}
use embassy_rp_pio_usb_host.CdcAcm.Control.{
  ControlScan, control_parsed, in_control_scope, control_header, control_call_management,
  control_acm, control_union, control_subtype, control_functional, control_endpoint,
  control_descriptor_step, control_scan,
}

abbrev pub IsNotification : EndpointDescriptor → Type 0
IsNotification e = is_supported_interrupt_in e ≡ true

abbrev pub IsCapabilities : ℕ → Type 0
IsCapabilities c = bit_and c 0xf0 ≡ 0

-- The invariant of the loop.
pub record ControlOk (s : ControlScan) : Type 0 where
  pub has_notification : AllSome IsNotification s.notification_endpoint
  pub has_capabilities : AllSome IsCapabilities s.acm_capabilities

-- A step that leaves both parts alone.
kept :
    {s t : ControlScan}
    → ControlOk s
    → t.notification_endpoint ≡ s.notification_endpoint
    → t.acm_capabilities ≡ s.acm_capabilities
    → ControlOk t
kept w e f = record {
  has_notification = rw e w.has_notification;
  has_capabilities = rw f w.has_capabilities;
}

control_acm-ControlOk :
    (s : ControlScan) (descriptor : Bytes)
    → ControlOk s
    → Ensures ControlOk (control_acm s descriptor)
unfolding control_acm
control_acm-ControlOk s descriptor w =
    guard-Ensures
      (not (length descriptor == 4)
        || is_some s.acm_capabilities
        || not (bit_and (byte_at descriptor 3) 0xf0 == 0))
      _
      λ h.
        return-Ensures
          (record { has_notification = w.has_notification; has_capabilities = ground arith })

control_subtype-ControlOk :
    (s : ControlScan) (descriptor : Bytes)
    → ControlOk s
    → Ensures ControlOk (control_subtype s descriptor)
unfolding control_subtype control_header control_call_management control_union
control_subtype-ControlOk s descriptor w =
    if-Ensures (byte_at descriptor 2 == 0x00)
      (λ _.
        guard-Ensures (not (length descriptor == 5) || is_some s.cdc_version_bcd) _
          λ _. return-Ensures (kept w refl refl))
      λ _.
        if-Ensures (byte_at descriptor 2 == 0x01)
          (λ _.
            guard-Ensures
              (not (length descriptor == 5)
                || is_some s.call_management
                || not (bit_and (byte_at descriptor 3) 0xfc == 0)
                || bit_and (byte_at descriptor 3) 0x03 == 0x02)
              _ λ _. return-Ensures (kept w refl refl))
          λ _.
            if-Ensures (byte_at descriptor 2 == 0x02) (λ _. control_acm-ControlOk s descriptor w)
              λ _.
                if-Ensures (byte_at descriptor 2 == 0x06)
                  (λ _.
                    guard-Ensures (ltb (length descriptor) 5 || is_some s.union_descriptor) _
                      λ _. return-Ensures (kept w refl refl))
                  λ _. return-Ensures w

control_functional-ControlOk :
    (s : ControlScan) (descriptor : Bytes)
    → ControlOk s
    → Ensures ControlOk (control_functional s descriptor)
unfolding control_functional
control_functional-ControlOk s descriptor w = guard-Ensures (ltb (length descriptor) 3) _ λ _.
    guard-Ensures (not s.first_functional_descriptor_seen && not (byte_at descriptor 2 == 0x00)) _
      λ _.
        control_subtype-ControlOk (record s { first_functional_descriptor_seen = true }) descriptor
          (kept w refl refl)

control_endpoint-ControlOk :
    (s : ControlScan) (descriptor : Bytes)
    → ControlOk s
    → Ensures ControlOk (control_endpoint s descriptor)
unfolding control_endpoint
control_endpoint-ControlOk s descriptor w = ok-Ensures (Endpoint.parse descriptor) λ e _.
    guard-Ensures (s.control_endpoints_seen == 255) _ λ _.
      guard-Ensures (not (is_supported_interrupt_in e) || is_some s.notification_endpoint) _ λ h.
        return-Ensures
          (record { has_notification = ground arith; has_capabilities = w.has_capabilities })

control_parsed-ControlOk :
    (requested : ℕ) (s : ControlScan) (descriptor : Bytes)
    (parsed : Result ConfigurationError InterfaceDescriptor)
    → ControlOk s
    → Ensures ControlOk (control_parsed requested s descriptor parsed)
unfolding control_parsed
control_parsed-ControlOk requested s descriptor (err error) w =
    guard-Ensures (names_interface requested descriptor) _ λ _. return-Ensures (kept w refl refl)
control_parsed-ControlOk requested s descriptor (ok interface) w =
    guard-Ensures (is_requested requested interface && is_some s.control_descriptor) _
      λ _. return-Ensures (kept w refl refl)

control_descriptor_step-ControlOk :
    (requested : ℕ) (s : ControlScan) (descriptor : Bytes)
    → ControlOk s
    → Ensures ControlOk (control_descriptor_step requested s descriptor)
unfolding control_descriptor_step
control_descriptor_step-ControlOk requested s descriptor w =
    if-Ensures (byte_at descriptor 1 == 0x04)
      (λ _. control_parsed-ControlOk requested s descriptor (Interface.parse descriptor) w)
      λ _.
        if-Ensures (byte_at descriptor 1 == 0x24 && in_control_scope requested s.current_interface)
          (λ _. control_functional-ControlOk s descriptor w)
          λ _.
            if-Ensures
              (byte_at descriptor 1 == 0x05 && in_control_scope requested s.current_interface)
              (λ _. control_endpoint-ControlOk s descriptor w) λ _. return-Ensures w

pub control_scan-ControlOk :
    (requested : ℕ) (items : List (Result ConfigurationError Bytes)) (s : ControlScan)
    → ControlOk s
    → Ensures ControlOk (control_scan requested items s)
unfolding control_scan
control_scan-ControlOk requested [] s w = return-Ensures w
control_scan-ControlOk requested (err e ∷ items) s w = record { holds = tt }
control_scan-ControlOk requested (ok descriptor ∷ items) s w =
    >>=-Ensures (control_descriptor_step requested s descriptor)
      (control_descriptor_step-ControlOk requested s descriptor w)
      (control_scan-ControlOk requested items)
