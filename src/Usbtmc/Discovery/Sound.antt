-- ===== src/Usbtmc/Discovery/Sound.antt =====
-- What `UsbtmcInterface::discover` returns.
use embassy_rp_pio_usb_host.Common.{
  Bool, true, false, not, ◌&&◌, ◌||◌, ◌≡◌, ◌≢◌, ◌≤◌, List, [], ◌∷◌, is_some, Result, ok, map_err,
  ◌==◌, length, Bytes, byte_at, bit_and, from_le_bytes, arith, Ensures, AllSome, Ensures-elim,
  >>=-Ensures, guard-Ensures, ok_or-Ensures, ok-Ensures, if-Ensures, AllSome-elim, return-Ensures,
  if_both, Bool-cases, inl, inr,
}
use embassy_rp_pio_usb_host.Descriptor.Configuration.{ConfigurationError, parse_header}
use embassy_rp_pio_usb_host.Descriptor.Endpoint.{EndpointDescriptor, number, is_in, read}
use embassy_rp_pio_usb_host.Descriptor.Iterator
use embassy_rp_pio_usb_host.Usbtmc.Discovery.{
  UsbtmcInterface, UsbtmcConfigurationError, kind_of, parse_endpoint, valid_bulk_packet_size,
  valid_interrupt_packet_size, TmcSelected, TmcScan, tmc_start, is_tmc_protocol, is_tmc, tmc_select,
  tmc_interface, tmc_slot, tmc_step, tmc_scan, tmc_conclude, discover,
}

-- A bulk endpoint of the class, with the direction given.
pub record IsTmcBulk (inward : Bool) (e : EndpointDescriptor) : Type 0 where
  pub has_direction : is_in e ≡ inward
  pub has_kind : kind_of e ≡ 0x02
  pub has_size : valid_bulk_packet_size e.max_packet_size ≡ true
  pub has_number : number e ≢ 0

-- Its interrupt endpoint, with a polling interval.
pub record IsTmcInterrupt (e : EndpointDescriptor) : Type 0 where
  pub has_direction : is_in e ≡ true
  pub has_kind : kind_of e ≡ 0x03
  pub at_least : 2 ≤ e.max_packet_size
  pub at_most : e.max_packet_size ≤ 1024
  pub has_interval : e.interval ≢ 0
  pub has_number : number e ≢ 0

abbrev pub IsTmcSelected : TmcSelected → Type 0
IsTmcSelected s = is_tmc_protocol s.protocol ≡ true

-- The invariant of the loop.
record TmcOk (s : TmcScan) : Type 0 where
  slot_in : AllSome (IsTmcBulk true) s.bulk_in
  slot_out : AllSome (IsTmcBulk false) s.bulk_out
  slot_interrupt : AllSome IsTmcInterrupt s.interrupt_in
  chosen : AllSome IsTmcSelected s.selected

parse_endpoint-number :
    (bytes : Bytes) → Ensures (λ (e : EndpointDescriptor). number e ≢ 0) (parse_endpoint bytes)
unfolding parse_endpoint
parse_endpoint-number bytes =
    let e = read bytes in
    guard-Ensures (not (length bytes == 7) || not (byte_at bytes 1 == 0x05)) _ λ _.
      guard-Ensures
        (not (bit_and e.address 0x70 == 0)
          || number e == 0
          || not (kind_of e == 0x02 || kind_of e == 0x03)
          || not (bit_and (from_le_bytes (byte_at bytes 4) (byte_at bytes 5)) 0xf800 == 0))
        _ λ h. return-Ensures (ground arith)

tmc_interface-TmcOk :
    (s : TmcScan) (descriptor : Bytes) → TmcOk s → Ensures TmcOk (tmc_interface s descriptor)
unfolding tmc_interface tmc_select
tmc_interface-TmcOk s descriptor w = guard-Ensures (not (length descriptor == 9)) _ λ _.
    elim (Bool-cases (is_tmc descriptor)) [
      | inl e ↦
          let chosen : is_tmc_protocol (byte_at descriptor 7) ≡ true = ground arith in
          rw e (
            return-Ensures (
              if_both TmcOk (is_some s.selected)
                (record {
                  slot_in = w.slot_in;
                  slot_out = w.slot_out;
                  slot_interrupt = w.slot_interrupt;
                  chosen = w.chosen;
                })
                (record { slot_in = tt; slot_out = tt; slot_interrupt = tt; chosen = chosen })))
      | inr e ↦ rw e (
          return-Ensures (record {
            slot_in = w.slot_in;
            slot_out = w.slot_out;
            slot_interrupt = w.slot_interrupt;
            chosen = w.chosen;
          }))
    ]

tmc_slot-TmcOk :
    (s : TmcScan) (e : EndpointDescriptor) → TmcOk s → number e ≢ 0 → Ensures TmcOk (tmc_slot s e)
unfolding tmc_slot
tmc_slot-TmcOk s e w has_number =
    if-Ensures (kind_of e == 0x02)
      (λ bulk.
        if-Ensures (is_in e)
          (λ d.
            guard-Ensures (not (valid_bulk_packet_size e.max_packet_size) || is_some s.bulk_in) _
              λ h.
                let slot : IsTmcBulk true e = record {
                  has_direction = d;
                  has_kind = ground arith;
                  has_size = ground arith;
                  has_number = has_number;
                } in
                return-Ensures (record {
                  slot_in = slot;
                  slot_out = w.slot_out;
                  slot_interrupt = w.slot_interrupt;
                  chosen = w.chosen;
                }))
          λ d.
            guard-Ensures (not (valid_bulk_packet_size e.max_packet_size) || is_some s.bulk_out) _
              λ h.
                let slot : IsTmcBulk false e = record {
                  has_direction = d;
                  has_kind = ground arith;
                  has_size = ground arith;
                  has_number = has_number;
                } in
                return-Ensures (record {
                  slot_in = w.slot_in;
                  slot_out = slot;
                  slot_interrupt = w.slot_interrupt;
                  chosen = w.chosen;
                }))
      λ _.
        guard-Ensures
          (not (kind_of e == 0x03)
            || not (is_in e)
            || not (valid_interrupt_packet_size e.max_packet_size)
            || e.interval == 0
            || is_some s.interrupt_in)
          _
          λ h.
            let slot : IsTmcInterrupt e = record {
              has_direction = ground arith;
              has_kind = ground arith;
              at_least = ground arith;
              at_most = ground arith;
              has_interval = ground arith;
              has_number = has_number;
            } in
            return-Ensures (record {
              slot_in = w.slot_in;
              slot_out = w.slot_out;
              slot_interrupt = slot;
              chosen = w.chosen;
            })

tmc_step-TmcOk :
    (s : TmcScan) (descriptor : Bytes) → TmcOk s → Ensures TmcOk (tmc_step s descriptor)
unfolding tmc_step
tmc_step-TmcOk s descriptor w =
    if-Ensures (byte_at descriptor 1 == 0x04) (λ _. tmc_interface-TmcOk s descriptor w)
      λ _.
        if-Ensures (byte_at descriptor 1 == 0x05 && s.current_selected)
          (λ _.
            >>=-Ensures (parse_endpoint descriptor) (parse_endpoint-number descriptor)
              λ e n. tmc_slot-TmcOk s e w n)
          λ _. return-Ensures w

tmc_scan-TmcOk :
    (items : List (Result ConfigurationError Bytes)) (s : TmcScan)
    → TmcOk s
    → Ensures TmcOk (tmc_scan items s)
unfolding tmc_scan
tmc_scan-TmcOk [] s w = return-Ensures w
tmc_scan-TmcOk (item ∷ items) s w =
    if-Ensures s.stopped (λ _. return-Ensures w)
      λ _. ok-Ensures (map_err UsbtmcConfigurationError.configuration item) λ descriptor _.
        >>=-Ensures (tmc_step s descriptor) (tmc_step-TmcOk s descriptor w) (tmc_scan-TmcOk items)

-- What is promised of an interface that is found.
pub record IsUsbtmcInterface (bytes : Bytes) (f : UsbtmcInterface) : Type 0 where
  pub has_configuration :
      map_err UsbtmcConfigurationError.configuration (parse_header bytes) ≡ ok f.configuration
  pub has_protocol : is_tmc_protocol f.protocol ≡ true
  pub has_bulk_in : IsTmcBulk true f.bulk_in_endpoint
  pub has_bulk_out : IsTmcBulk false f.bulk_out_endpoint
  pub has_interrupt_in : AllSome IsTmcInterrupt f.interrupt_in_endpoint

discover-Ensures : (bytes : Bytes) → Ensures (IsUsbtmcInterface bytes) (discover bytes)
unfolding discover tmc_conclude
discover-Ensures bytes =
    ok-Ensures (map_err UsbtmcConfigurationError.configuration (parse_header bytes))
      λ header parsed.
        ok-Ensures (map_err UsbtmcConfigurationError.configuration (Iterator.new bytes)) λ it _.
          >>=-Ensures (tmc_scan (Iterator.items it) tmc_start)
            (tmc_scan-TmcOk (Iterator.items it) tmc_start
              (record { slot_in = tt; slot_out = tt; slot_interrupt = tt; chosen = tt }))
            λ s w. ok_or-Ensures s.selected _ λ i h. ok_or-Ensures s.bulk_out _ λ bulk_out h_out.
              ok_or-Ensures s.bulk_in _ λ bulk_in h_in. return-Ensures (record {
                has_configuration = parsed;
                has_protocol = AllSome-elim IsTmcSelected h w.chosen;
                has_bulk_in = AllSome-elim (IsTmcBulk true) h_in w.slot_in;
                has_bulk_out = AllSome-elim (IsTmcBulk false) h_out w.slot_out;
                has_interrupt_in = w.slot_interrupt;
              })

-- When `UsbtmcInterface::discover` returns an interface, its protocol is one of the class, it has a
-- bulk endpoint of a legal packet size in each direction, its interrupt endpoint, if there is one, is
-- inward with a packet size from 2 to 1024 and a polling interval, no endpoint has number zero, and
-- its configuration is the parsed header.
pub discover-IsUsbtmcInterface :
    (bytes : Bytes) (f : UsbtmcInterface) → discover bytes ≡ ok f → IsUsbtmcInterface bytes f
discover-IsUsbtmcInterface bytes f e = Ensures-elim e (discover-Ensures bytes)
