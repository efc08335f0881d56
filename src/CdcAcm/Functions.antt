-- ===== src/CdcAcm/Functions.antt =====
-- usb.rs: `CdcAcmFunctions`, `CdcAcmFunction::discover` and `discover_control_interface`.
pub mod First
use embassy_rp_pio_usb_host.Common.{
  ℕ, not, ◌&&◌, List, [], ◌∷◌, Option, none, some, Result, ok, err, ◌>>=◌, first_ok, leb, ◌==◌,
  if◌then◌else◌, length, Bytes, byte_at,
}
use embassy_rp_pio_usb_host.Descriptor.Configuration.{ConfigurationError, missing_control_interface}
use embassy_rp_pio_usb_host.Descriptor.Interface
use embassy_rp_pio_usb_host.Descriptor.Interface.{InterfaceDescriptor, is_acm_control}
use embassy_rp_pio_usb_host.Descriptor.Iterator
use embassy_rp_pio_usb_host.Descriptor.Seen.{Seen, none_seen, mark_seen}
use embassy_rp_pio_usb_host.CdcAcm.Candidate.{CdcAcmFunction, discover_candidate}

abbrev pub Function : Type 0
Function = Result ConfigurationError CdcAcmFunction

-- `if self.mark_seen(interface) { continue; } return Some(function);`
function_new : Seen → ℕ → Function → Seen × Option Function
function_new seen interface function =
    let (seen', before) = mark_seen seen interface in
    (seen', if before then none else some function)

function_parsed :
    Bytes → Seen → Bytes → Result ConfigurationError InterfaceDescriptor → Seen × Option Function
function_parsed bytes seen descriptor (err error) =
    if leb 7 (length descriptor)
      && byte_at descriptor 3 == 0
      && byte_at descriptor 5 == 0x02
      && byte_at descriptor 6 == 0x02
    then function_new seen (byte_at descriptor 2) (err error)
    else (seen, none)
function_parsed bytes seen descriptor (ok interface) =
    if is_acm_control interface
    then function_new seen interface.number (discover_candidate bytes interface.number)
    else (seen, none)

-- One round of the loop of `next`: what it yields for a descriptor, if anything.
pub function_step : Bytes → Seen → Bytes → Seen × Option Function
unfolding function_parsed function_new
function_step bytes seen descriptor =
    if not (byte_at descriptor 1 == 0x04)
    then (seen, none)
    else function_parsed bytes seen descriptor (Interface.parse descriptor)

abbrev pub yield_function : Option Function → List Function → List Function
yield_function none functions = functions
yield_function (some f) functions = f ∷ functions

-- All that the iterator yields, in order. Its `next` is called again after each function.
pub functions : Bytes → Seen → List (Result ConfigurationError Bytes) → List Function
functions bytes seen [] = []
functions bytes seen (err e ∷ items) = err e ∷ functions bytes seen items
functions bytes seen (ok descriptor ∷ items) =
    let (seen', yielded) = function_step bytes seen descriptor in
    yield_function yielded (functions bytes seen' items)

pub discover : Bytes → Function
discover bytes = do
  it ← Iterator.new bytes
  first_ok missing_control_interface none (functions bytes none_seen (Iterator.items it))

pub discover_control_interface : Bytes → ℕ → Function
discover_control_interface bytes control_interface = do
  it ← Iterator.new bytes
  discover_candidate bytes control_interface
