-- ===== src/Host/Validate.antt =====
-- pio_host.rs: `validate_pipe` and `alloc_pipe`, which of a device's endpoints a pipe can be made for.
mod Tests
pub mod Usb
use embassy_rp_pio_usb_host.Common.{
  ℕ, ◌≡◌, Bool, true, false, not, ◌&&◌, ◌||◌, Option, none, some, Result, ok, err, ◌>>=◌, ◌>>◌,
  fail_if, ok_or, ◌==◌, ltb, if◌then◌else◌,
}
use embassy_rp_pio_usb_host.Host.Types.{
  Speed, HostError, EndpointType, type_code, EndpointInfo, UsbDirection,
}
use embassy_rp_pio_usb_host.Host.Port.{PortState, PipeTicket, ticket}

-- `matches!(max_packet_size, 8 | 16 | 32 | 64)`
abbrev pub is_power_size : ℕ → Bool
is_power_size n = n == 8 || n == 16 || n == 32 || n == 64

-- `D::is_in()` and `D::is_out()` are the arguments `is_in` and `is_out`.
pub direction_matches : Bool → Bool → UsbDirection → Bool
direction_matches is_in is_out UsbDirection.inward = is_in && not is_out
direction_matches is_in is_out UsbDirection.outward = is_out && not is_in

pub validate_non_control_direction : Bool → Bool → EndpointInfo → Result HostError (Unit {0})
validate_non_control_direction is_in is_out endpoint =
    if direction_matches is_in is_out endpoint.direction then ok tt else err HostError.other

pub validate_control : Bool → Bool → EndpointInfo → Bool → Result HostError (Unit {0})
validate_control is_in is_out endpoint is_size = do
  fail_if (not (endpoint.index == 0) || not is_in || not is_out) HostError.other
  fail_if (not is_size) HostError.invalid_descriptor

pub validate_low_speed : EndpointType → Bool → Bool → EndpointInfo → Result HostError (Unit {0})
validate_low_speed EndpointType.control is_in is_out endpoint =
    validate_control is_in is_out endpoint (endpoint.max_packet_size == 8)
validate_low_speed EndpointType.interrupt is_in is_out endpoint = do
  validate_non_control_direction is_in is_out endpoint
  fail_if
      (endpoint.index == 0
        || endpoint.max_packet_size == 0
        || ltb 8 endpoint.max_packet_size
        || ltb endpoint.interval_ms 10)
      HostError.invalid_descriptor
validate_low_speed EndpointType.bulk is_in is_out endpoint = err HostError.other
validate_low_speed EndpointType.isochronous is_in is_out endpoint = err HostError.other

pub validate_full_speed : EndpointType → Bool → Bool → EndpointInfo → Result HostError (Unit {0})
validate_full_speed EndpointType.control is_in is_out endpoint =
    validate_control is_in is_out endpoint (is_power_size endpoint.max_packet_size)
validate_full_speed EndpointType.bulk is_in is_out endpoint = do
  validate_non_control_direction is_in is_out endpoint
  fail_if (endpoint.index == 0 || not (is_power_size endpoint.max_packet_size))
      HostError.invalid_descriptor
validate_full_speed EndpointType.interrupt is_in is_out endpoint = do
  validate_non_control_direction is_in is_out endpoint
  fail_if
      (endpoint.index == 0
        || endpoint.max_packet_size == 0
        || ltb 64 endpoint.max_packet_size
        || endpoint.interval_ms == 0)
      HostError.invalid_descriptor
validate_full_speed EndpointType.isochronous is_in is_out endpoint = do
  validate_non_control_direction is_in is_out endpoint
  fail_if (not is_in || is_out) HostError.other
  fail_if
      (endpoint.index == 0
        || endpoint.max_packet_size == 0
        || ltb 100 endpoint.max_packet_size
        || endpoint.interval_ms == 0)
      HostError.invalid_descriptor

pub validate_speed : Speed → Bool → Bool → EndpointInfo → Result HostError (Unit {0})
validate_speed Speed.low is_in is_out endpoint =
    validate_low_speed endpoint.ep_type is_in is_out endpoint
validate_speed Speed.full is_in is_out endpoint =
    validate_full_speed endpoint.ep_type is_in is_out endpoint
validate_speed Speed.high is_in is_out endpoint = err HostError.other

-- `pipe_type` is `T::ep_type()`, and `is_split` is `split.is_some()`.
pub validate_pipe :
    EndpointType → Bool → Bool → ℕ → EndpointInfo → Bool → Speed → Result HostError (Unit {0})
validate_pipe pipe_type is_in is_out device_address endpoint is_split speed = do
  fail_if (ltb 127 device_address) HostError.no_such_device
  fail_if is_split HostError.other
  fail_if (not (type_code endpoint.ep_type == type_code pipe_type)) HostError.other
  fail_if (ltb 15 endpoint.index) HostError.invalid_descriptor
  validate_speed speed is_in is_out endpoint

-- The new pipe's ticket; its other fields copy the arguments or hold defaults.
pub alloc_pipe :
    EndpointType → Bool → Bool → PortState → ℕ → EndpointInfo → Bool → Result HostError PipeTicket
alloc_pipe pipe_type is_in is_out port device_address endpoint is_split = do
  fail_if (not port.connected) HostError.no_such_device
  speed ← ok_or port.speed HostError.no_such_device
  validate_pipe pipe_type is_in is_out device_address endpoint is_split speed
  ok (ticket device_address port)
