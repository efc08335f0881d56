-- ===== src/Port.antt =====
-- lib.rs: the line states, the bus events, and the detector that debounces attach and detach.
pub mod Debounce
use Prim.Native.Nat.{min}
use embassy_rp_pio_usb_host.Common.{
  ℕ, ◌+◌, ◌<◌, Bool, Option, none, some, ltb, ◌==◌, if◌then◌else◌, bit_and,
}

pub data LineState : Type 0 where
  se0 j_full_speed j_low_speed se1 : LineState

-- The derived `PartialEq` compares discriminants.
abbrev pub discriminant : LineState → ℕ
discriminant LineState.se0 = 0
discriminant LineState.j_full_speed = 1
discriminant LineState.j_low_speed = 2
discriminant LineState.se1 = 3

abbrev pub same_state : LineState → LineState → Bool
same_state a b = discriminant a == discriminant b

-- `from_pio_sample`: bit 0 is D+ and bit 1 is D-.
pub from_pio_sample : ℕ → LineState
from_pio_sample sample =
    let lines = bit_and sample 0b11 in
    if lines == 0b00
    then LineState.se0
    else if lines == 0b01
    then LineState.j_full_speed
    else if lines == 0b10
    then LineState.j_low_speed
    else LineState.se1

pub data DeviceSpeed : Type 0 where
  full low : DeviceSpeed

pub data BusEvent : Type 0 where
  attached : DeviceSpeed → BusEvent
  detached : BusEvent
  invalid : BusEvent

pub record AttachDetector : Type 0 where
  pub stable : LineState
  pub candidate : LineState
  pub candidate_samples : ℕ  -- u16
  pub required_samples : ℕ  -- u16

-- `new`; its assertion is the hypothesis `0 < required_samples` of the theorems.
pub new : ℕ → AttachDetector
new required_samples = record {
  stable = LineState.se0;
  candidate = LineState.se0;
  candidate_samples = 0;
  required_samples = required_samples;
}

-- The event that announces a state, the `match` at the end of `update`.
abbrev pub event_of : LineState → BusEvent
event_of LineState.se0 = BusEvent.detached
event_of LineState.j_full_speed = BusEvent.attached DeviceSpeed.full
event_of LineState.j_low_speed = BusEvent.attached DeviceSpeed.low
event_of LineState.se1 = BusEvent.invalid

-- `u16::saturating_add`
abbrev saturating_add16 : ℕ → ℕ → ℕ
saturating_add16 a b = min (a + b) 0xffff

-- The first half of `update` on a sample that differs from the stable state.
count_sample : AttachDetector → LineState → AttachDetector
count_sample d sample =
    if same_state sample d.candidate
    then record d { candidate_samples = saturating_add16 d.candidate_samples 1 }
    else record d { candidate = sample; candidate_samples = 1 }

-- The second half: the candidate becomes stable once it was seen often enough.
settle : AttachDetector → AttachDetector × Option BusEvent
settle d =
    if ltb d.candidate_samples d.required_samples
    then (d, none)
    else (record d { stable = d.candidate; candidate_samples = 0 }, some (event_of d.candidate))

pub update : AttachDetector → LineState → AttachDetector × Option BusEvent
unfolding count_sample settle
update d sample =
    if same_state sample d.stable
    then (record d { candidate = sample; candidate_samples = 0 }, none)
    else settle (count_sample d sample)
