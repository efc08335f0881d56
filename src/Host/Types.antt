-- ===== src/Host/Types.antt =====
-- The types of the embassy-usb-driver crate that pio_host.rs uses, with the variants that it names.
-- What it matches by a catch-all has a constructor `other`.
use embassy_rp_pio_usb_host.Common.{ℕ, Bool, true, false}

pub data Speed : Type 0 where
  low full high : Speed

pub data DeviceEvent : Type 0 where
  connected : Speed → DeviceEvent
  disconnected overcurrent : DeviceEvent
  other : ℕ → DeviceEvent

pub data PipeError : Type 0 where
  disconnected timeout stall bad_response buffer_overflow : PipeError
  other : ℕ → PipeError

pub data HostError : Type 0 where
  no_such_device invalid_descriptor other : HostError

pub data EndpointType : Type 0 where
  control isochronous bulk interrupt : EndpointType

pub data UsbDirection : Type 0 where
  inward outward : UsbDirection

abbrev pub type_code : EndpointType → ℕ
type_code EndpointType.control = 0
type_code EndpointType.isochronous = 1
type_code EndpointType.bulk = 2
type_code EndpointType.interrupt = 3

-- `EndpointInfo`, with `addr.index()` and `addr.direction()` as fields.
pub record EndpointInfo : Type 0 where
  pub index : ℕ
  pub direction : UsbDirection
  pub ep_type : EndpointType
  pub max_packet_size : ℕ
  pub interval_ms : ℕ

abbrev pub is_low_or_full : Speed → Bool
is_low_or_full Speed.low = true
is_low_or_full Speed.full = true
is_low_or_full Speed.high = false
