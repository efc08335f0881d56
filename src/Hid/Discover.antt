-- ===== src/Hid/Discover.antt =====
-- usb.rs: `HidInterfaces`, `HidInterface::discover` and `HidInterface::discover_interface`.
pub mod First
use embassy_rp_pio_usb_host.Common.{
  ℕ, ◌&&◌, List, [], ◌∷◌, Option, none, some, Result, ok, err, ◌>>=◌, map_err, first_ok, leb, ◌==◌,
  if◌then◌else◌, length, Bytes, byte_at,
}
use embassy_rp_pio_usb_host.Descriptor.Configuration.{ConfigurationError}
use embassy_rp_pio_usb_host.Descriptor.Interface
use embassy_rp_pio_usb_host.Descriptor.Interface.{InterfaceDescriptor, is_hid}
use embassy_rp_pio_usb_host.Descriptor.Iterator
use embassy_rp_pio_usb_host.Descriptor.Seen.{Seen, none_seen, mark_seen}
use embassy_rp_pio_usb_host.Hid.Candidate.{HidInterface, discover_candidate}
use embassy_rp_pio_usb_host.Hid.Descriptor.{
  HidConfigurationError, configuration, missing_interface, invalid_interface_descriptor,
}

abbrev pub Candidate : Type 0
Candidate = Result HidConfigurationError HidInterface

-- `if self.mark_seen(interface) { continue; } return Some(candidate);`
visit_new : Seen → ℕ → Candidate → Seen × Option Candidate
visit_new seen interface candidate =
    let (seen', before) = mark_seen seen interface in
    (seen', if before then none else some candidate)

visit_parsed :
    Bytes → Seen → Bytes → Result ConfigurationError InterfaceDescriptor → Seen × Option Candidate
visit_parsed bytes seen descriptor (err _) =
    if leb 7 (length descriptor) && byte_at descriptor 3 == 0 && byte_at descriptor 5 == 0x03
    then visit_new seen (byte_at descriptor 2) (err invalid_interface_descriptor)
    else (seen, none)
visit_parsed bytes seen descriptor (ok interface) =
    if is_hid interface
    then visit_new seen interface.number (discover_candidate bytes interface.number)
    else (seen, none)

-- One round of the loop of `next`: what it yields for a descriptor, if anything.
pub visit : Bytes → Seen → Bytes → Seen × Option Candidate
unfolding visit_parsed visit_new
visit bytes seen descriptor =
    if byte_at descriptor 1 == 0x04
    then visit_parsed bytes seen descriptor (Interface.parse descriptor)
    else (seen, none)

abbrev pub prepend : Option Candidate → List Candidate → List Candidate
prepend none candidates = candidates
prepend (some c) candidates = c ∷ candidates

-- All that the iterator yields, in order. Its `next` is called again after each candidate.
pub candidates : Bytes → Seen → List (Result ConfigurationError Bytes) → List Candidate
candidates bytes seen [] = []
candidates bytes seen (err e ∷ items) = err (configuration e) ∷ candidates bytes seen items
candidates bytes seen (ok descriptor ∷ items) =
    let (seen', yielded) = visit bytes seen descriptor in
    prepend yielded (candidates bytes seen' items)

pub discover : Bytes → Candidate
discover bytes = do
  it ← map_err configuration (Iterator.new bytes)
  first_ok missing_interface none (candidates bytes none_seen (Iterator.items it))

pub discover_interface : Bytes → ℕ → Candidate
discover_interface bytes interface_number = do
  it ← map_err configuration (Iterator.new bytes)
  discover_candidate bytes interface_number
