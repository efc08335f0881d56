-- ===== src/CdcAcm/Candidate/Sound.antt =====
-- What `CdcAcmFunction::discover_candidate` returns: its interfaces, endpoints and capabilities.
use embassy_rp_pio_usb_host.Common.{
  ℕ, true, false, not, ◌||◌, ◌≡◌, ◌≢◌, refl, sym, [], ◌∷◌, ◌++◌, Option, none, some, Result, ok,
  err, ◌==◌, ltb, Bytes, byte_at, drop, contains, All, arith, Ensures, AllSome, >>=-Ensures,
  guard-Ensures, ok_or-Ensures, ok-Ensures, AllSome-elim, return-Ensures, Ensures-elim, ok_or,
  subst, Bool-cases, inl, inr, ◌∙◌,
}
use embassy_rp_pio_usb_host.Descriptor.Configuration.{
  ConfigurationError, missing_data_interface, ConfigurationDescriptorHeader, parse_header,
}
use embassy_rp_pio_usb_host.Descriptor.Interface.{is_acm_control}
use embassy_rp_pio_usb_host.Descriptor.Iterator
use embassy_rp_pio_usb_host.CdcAcm.Data.{DataInterface, discover_data_interface, interface_exists}
use embassy_rp_pio_usb_host.CdcAcm.Data.Sound.{
  IsBulkIn, IsBulkOut, IsDataInterface, discover_data_interface-Ensures,
}
use embassy_rp_pio_usb_host.CdcAcm.Control.{ControlScan, control_start, control_scan}
use embassy_rp_pio_usb_host.CdcAcm.Control.Sound.{
  IsNotification, IsCapabilities, ControlOk, control_scan-ControlOk,
}
use embassy_rp_pio_usb_host.CdcAcm.Candidate.{
  CdcAcmFunction, check_subordinates, managed_data_interface, replace_data, select_data,
  choose_data, same_address, control_conclude, discover_candidate,
}

-- The subordinate interfaces of a union descriptor differ from its control interface.
check_subordinates-Ensures :
    (bytes : Bytes) (requested : ℕ) (before rest : Bytes)
    → Ensures
        (λ _. All (λ (i : ℕ). i ≢ requested) rest)
        (check_subordinates bytes requested before rest)
unfolding check_subordinates
check_subordinates-Ensures bytes requested before [] = return-Ensures tt
check_subordinates-Ensures bytes requested before (i ∷ rest) =
    guard-Ensures (i == requested || contains before i) _ λ h.
      ok-Ensures (interface_exists bytes i) λ exists _. guard-Ensures (not exists) _ λ _.
        conclude_All (check_subordinates bytes requested (before ++ i ∷ []) rest) (ground arith)
          (check_subordinates-Ensures bytes requested (before ++ i ∷ []) rest)
  where
    conclude_All :
        (r : Result ConfigurationError (Unit {0}))
        → i ≢ requested
        → Ensures (λ _. All (λ (k : ℕ). k ≢ requested) rest) r
        → Ensures (λ _. All (λ (k : ℕ). k ≢ requested) (i ∷ rest)) r
    conclude_All (ok u) n w = return-Ensures (n, w.holds)
    conclude_All (err e) n w = record { holds = tt }

-- A data interface with a number of the list.
record IsChosen (requested : ℕ) (d : DataInterface) : Type 0 where
  other : d.number ≢ requested
  is_data : IsDataInterface d.number d

contains-All : (P : ℕ → Type 0) (l : Bytes) (i : ℕ) → contains l i ≡ true → All P l → P i
contains-All P [] i h w = absurd (ground arith)
contains-All P (x ∷ l) i h (px, w) = elim (Bool-cases (x == i)) [
  | inl e ↦ subst P (ground arith) px
  | inr e ↦ contains-All P l i (ground arith) w
]

chosen :
    {requested i : ℕ} {d : DataInterface}
    → i ≢ requested
    → IsDataInterface i d
    → IsChosen requested d
chosen n w = record {
  other = λ e. n (sym w.has_number ∙ e);
  is_data = record {
    has_number = refl;
    has_bulk_in = w.has_bulk_in;
    has_bulk_out = w.has_bulk_out;
  };
}

replace_data-Ensures :
    {requested i : ℕ} (selected candidate : Option DataInterface)
    → i ≢ requested
    → AllSome (IsChosen requested) selected
    → AllSome (IsDataInterface i) candidate
    → Ensures (AllSome (IsChosen requested)) (replace_data selected candidate)
replace_data-Ensures selected none n s c = return-Ensures s
replace_data-Ensures none (some d) n s c = return-Ensures (chosen n c)
replace_data-Ensures (some d') (some d) n s c = record { holds = tt }

select_data-Ensures :
    (bytes : Bytes) (requested : ℕ) (rest : Bytes) (selected : Option DataInterface)
    → All (λ (i : ℕ). i ≢ requested) rest
    → AllSome (IsChosen requested) selected
    → Ensures (AllSome (IsChosen requested)) (select_data bytes rest selected)
unfolding select_data
select_data-Ensures bytes requested [] selected w s = return-Ensures s
select_data-Ensures bytes requested (i ∷ rest) selected (n, w) s =
    >>=-Ensures (discover_data_interface bytes i) (discover_data_interface-Ensures bytes i)
      λ candidate c.
        >>=-Ensures (replace_data selected candidate)
          (replace_data-Ensures selected candidate n s c)
          λ selected' s'. select_data-Ensures bytes requested rest selected' w s'

choose_data-Ensures :
    (bytes : Bytes) (requested : ℕ) (subordinates : Bytes) (managed : Option ℕ)
    → All (λ (i : ℕ). i ≢ requested) subordinates
    → Ensures (IsChosen requested) (choose_data bytes subordinates managed)
unfolding choose_data
choose_data-Ensures bytes requested subordinates (some i) w =
    guard-Ensures (not (contains subordinates i)) _ λ h.
      >>=-Ensures (discover_data_interface bytes i) (discover_data_interface-Ensures bytes i)
        λ found c.
          last found c (contains-All (λ (k : ℕ). k ≢ requested) subordinates i (ground arith) w)
  where
    last :
        (found : Option DataInterface)
        → AllSome (IsDataInterface i) found
        → i ≢ requested
        → Ensures (IsChosen requested) (ok_or found missing_data_interface)
    last none c n = record { holds = tt }
    last (some d) c n = return-Ensures (chosen n c)
choose_data-Ensures bytes requested subordinates none w =
    >>=-Ensures (select_data bytes subordinates none)
      (select_data-Ensures bytes requested subordinates none w tt) λ selected s. last selected s
  where
    last :
        (selected : Option DataInterface)
        → AllSome (IsChosen requested) selected
        → Ensures (IsChosen requested) (ok_or selected missing_data_interface)
    last none c = record { holds = tt }
    last (some d) c = return-Ensures c

-- What is promised of a function found for a control interface.
pub record IsCdcAcmFunction (bytes : Bytes) (requested : ℕ) (f : CdcAcmFunction) : Type 0 where
  pub has_configuration : parse_header bytes ≡ ok f.configuration
  pub has_control : f.control_interface ≡ requested
  pub has_other_data : f.data_interface ≢ requested
  pub has_capabilities : IsCapabilities f.acm_capabilities
  pub has_notification : AllSome IsNotification f.notification_endpoint
  pub has_bulk_in : IsBulkIn f.bulk_in_endpoint
  pub has_bulk_out : IsBulkOut f.bulk_out_endpoint
  pub has_own_address : same_address f.notification_endpoint f.bulk_in_endpoint ≡ false

control_conclude-Ensures :
    (bytes : Bytes) (configuration : ConfigurationDescriptorHeader) (requested : ℕ)
    (s : ControlScan)
    → parse_header bytes ≡ ok configuration
    → ControlOk s
    → Ensures (IsCdcAcmFunction bytes requested) (control_conclude bytes configuration requested s)
unfolding control_conclude
control_conclude-Ensures bytes configuration requested s header w =
    ok_or-Ensures s.control_descriptor _ λ i _. guard-Ensures (not (is_acm_control i)) _ λ _.
      guard-Ensures (ltb 1 i.endpoint_count || not (i.endpoint_count == s.control_endpoints_seen)) _
        λ _. ok_or-Ensures s.cdc_version_bcd _ λ version _.
          ok_or-Ensures s.acm_capabilities _ λ capabilities h.
            ok_or-Ensures s.union_descriptor _ λ union _.
              guard-Ensures (not (byte_at union 3 == requested)) _ λ _.
                >>=-Ensures (check_subordinates bytes requested [] (drop 4 union))
                  (check_subordinates-Ensures bytes requested [] (drop 4 union))
                  λ _ others.
                    >>=-Ensures
                      (choose_data bytes (drop 4 union) (managed_data_interface s.call_management))
                      (choose_data-Ensures bytes requested (drop 4 union) _ others)
                      λ d c.
                        guard-Ensures (same_address s.notification_endpoint d.bulk_in_endpoint) _
                          λ own. return-Ensures (record {
                            has_configuration = header;
                            has_control = refl;
                            has_other_data = c.other;
                            has_capabilities = AllSome-elim IsCapabilities h w.has_capabilities;
                            has_notification = w.has_notification;
                            has_bulk_in = c.is_data.has_bulk_in;
                            has_bulk_out = c.is_data.has_bulk_out;
                            has_own_address = own;
                          })

discover_candidate-Ensures :
    (bytes : Bytes) (requested : ℕ)
    → Ensures (IsCdcAcmFunction bytes requested) (discover_candidate bytes requested)
unfolding discover_candidate
discover_candidate-Ensures bytes requested = ok-Ensures (parse_header bytes) λ configuration header.
    ok-Ensures (Iterator.new bytes) λ it _.
      >>=-Ensures (control_scan requested (Iterator.items it) control_start)
        (control_scan-ControlOk requested (Iterator.items it) control_start
          (record { has_notification = tt; has_capabilities = tt }))
        λ s w. control_conclude-Ensures bytes configuration requested s header w

-- When `discover_candidate` returns a function, its control interface is the one asked for, its
-- data interface another one with a supported bulk endpoint in each direction, its capabilities
-- have no reserved bit, its notification endpoint, if any, is a supported interrupt IN endpoint
-- with another address than the bulk IN endpoint, and its configuration is the parsed header.
pub discover_candidate-IsCdcAcmFunction :
    (bytes : Bytes) (requested : ℕ) (f : CdcAcmFunction)
    → discover_candidate bytes requested ≡ ok f
    → IsCdcAcmFunction bytes requested f
discover_candidate-IsCdcAcmFunction bytes requested f e =
    Ensures-elim e (discover_candidate-Ensures bytes requested)
