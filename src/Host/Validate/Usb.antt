-- ===== src/Host/Validate/Usb.antt =====
-- What an endpoint has to satisfy for a pipe, by the limits of each speed and transfer type.
use embassy_rp_pio_usb_host.Common.{
  ℕ, ◌≡◌, ◌≤◌, ◌↔◌, Bool, true, false, not, ◌&&◌, Result, ok, err, ◌>>◌, ◌==◌, ltb, arith, refl,
  sym, Option-cases, inl, inr, ap, ◌∙◌, if◌then◌else◌, AllSome, is_some,
}
use embassy_rp_pio_usb_host.Host.Types.{
  Speed, HostError, EndpointType, type_code, EndpointInfo, UsbDirection,
}
use embassy_rp_pio_usb_host.Host.Validate.{
  alloc_pipe, is_power_size, direction_matches, validate_non_control_direction, validate_control,
  validate_low_speed, validate_full_speed, validate_speed, validate_pipe,
}
use embassy_rp_pio_usb_host.Host.Port.{PortState, ticket}

-- The transfer types that a device of a speed can have.
abbrev pub has_type : Speed → EndpointType → Bool
has_type Speed.low EndpointType.control = true
has_type Speed.low EndpointType.interrupt = true
has_type Speed.low EndpointType.bulk = false
has_type Speed.low EndpointType.isochronous = false
has_type Speed.full ep_type = true
has_type Speed.high ep_type = false

abbrev pub smallest_packet : EndpointType → ℕ
smallest_packet EndpointType.control = 8
smallest_packet EndpointType.bulk = 8
smallest_packet EndpointType.interrupt = 1
smallest_packet EndpointType.isochronous = 1

-- The largest packet; for isochronous endpoints what the backend has room for.
abbrev pub largest_packet : Speed → EndpointType → ℕ
largest_packet Speed.low ep_type = 8
largest_packet Speed.high ep_type = 0
largest_packet Speed.full EndpointType.control = 64
largest_packet Speed.full EndpointType.bulk = 64
largest_packet Speed.full EndpointType.interrupt = 64
largest_packet Speed.full EndpointType.isochronous = 100

-- The shortest polling interval, in milliseconds.
abbrev pub shortest_interval : Speed → EndpointType → ℕ
shortest_interval speed EndpointType.control = 0
shortest_interval speed EndpointType.bulk = 0
shortest_interval Speed.low EndpointType.interrupt = 10
shortest_interval Speed.low EndpointType.isochronous = 0
shortest_interval Speed.full EndpointType.interrupt = 1
shortest_interval Speed.full EndpointType.isochronous = 1
shortest_interval Speed.high EndpointType.interrupt = 0
shortest_interval Speed.high EndpointType.isochronous = 0

-- Sizes of control and bulk packets are powers of two.
abbrev pub sizes_ok : EndpointType → ℕ → Bool
sizes_ok EndpointType.control size = is_power_size size
sizes_ok EndpointType.bulk size = is_power_size size
sizes_ok EndpointType.interrupt size = true
sizes_ok EndpointType.isochronous size = true

-- Control endpoints are bidirectional and have index zero, others have one direction and another
-- index; isochronous ones are inward.
abbrev pub direction_ok : EndpointType → UsbDirection → Bool → Bool → Bool
direction_ok EndpointType.control direction is_in is_out = is_in && is_out
direction_ok EndpointType.bulk UsbDirection.inward is_in is_out = is_in && not is_out
direction_ok EndpointType.bulk UsbDirection.outward is_in is_out = not is_in && is_out
direction_ok EndpointType.interrupt UsbDirection.inward is_in is_out = is_in && not is_out
direction_ok EndpointType.interrupt UsbDirection.outward is_in is_out = not is_in && is_out
direction_ok EndpointType.isochronous UsbDirection.inward is_in is_out = is_in && not is_out
direction_ok EndpointType.isochronous UsbDirection.outward is_in is_out = false

abbrev pub index_ok : EndpointType → ℕ → Bool
index_ok EndpointType.control index = index == 0
index_ok EndpointType.bulk index = ltb 0 index
index_ok EndpointType.interrupt index = ltb 0 index
index_ok EndpointType.isochronous index = ltb 0 index

pub IsPipeEndpoint : Speed → EndpointType → Bool → Bool → EndpointInfo → Type 0
IsPipeEndpoint speed t is_in is_out endpoint =
    (has_type speed t ≡ true)
    × (index_ok t endpoint.index ≡ true)
    × (direction_ok t endpoint.direction is_in is_out ≡ true)
    × (smallest_packet t ≤ endpoint.max_packet_size)
    × (endpoint.max_packet_size ≤ largest_packet speed t)
    × (sizes_ok t endpoint.max_packet_size ≡ true)
    × (shortest_interval speed t ≤ endpoint.interval_ms)

low_iff :
    (t : EndpointType) (is_in is_out : Bool) (endpoint : EndpointInfo)
    → (validate_low_speed t is_in is_out endpoint ≡ ok tt)
      ↔ IsPipeEndpoint Speed.low t is_in is_out endpoint
unfolding IsPipeEndpoint validate_low_speed validate_control validate_non_control_direction
    direction_matches
low_iff EndpointType.control is_in is_out endpoint = ground arith
low_iff EndpointType.interrupt is_in is_out endpoint = elim endpoint.direction [
  | UsbDirection.inward ↦ ground arith
  | UsbDirection.outward ↦ ground arith
]
low_iff EndpointType.bulk is_in is_out endpoint = ground arith
low_iff EndpointType.isochronous is_in is_out endpoint = ground arith

full_iff :
    (t : EndpointType) (is_in is_out : Bool) (endpoint : EndpointInfo)
    → (validate_full_speed t is_in is_out endpoint ≡ ok tt)
      ↔ IsPipeEndpoint Speed.full t is_in is_out endpoint
unfolding IsPipeEndpoint validate_full_speed validate_control validate_non_control_direction
    direction_matches
full_iff EndpointType.control is_in is_out endpoint = ground arith
full_iff EndpointType.bulk is_in is_out endpoint = elim endpoint.direction [
  | UsbDirection.inward ↦ ground arith
  | UsbDirection.outward ↦ ground arith
]
full_iff EndpointType.interrupt is_in is_out endpoint = elim endpoint.direction [
  | UsbDirection.inward ↦ ground arith
  | UsbDirection.outward ↦ ground arith
]
full_iff EndpointType.isochronous is_in is_out endpoint = elim endpoint.direction [
  | UsbDirection.inward ↦ ground arith
  | UsbDirection.outward ↦ ground arith
]

speed_iff :
    (speed : Speed) (is_in is_out : Bool) (endpoint : EndpointInfo)
    → (validate_speed speed is_in is_out endpoint ≡ ok tt)
      ↔ IsPipeEndpoint speed endpoint.ep_type is_in is_out endpoint
unfolding validate_speed IsPipeEndpoint
speed_iff Speed.low is_in is_out endpoint = low_iff endpoint.ep_type is_in is_out endpoint
speed_iff Speed.full is_in is_out endpoint = full_iff endpoint.ep_type is_in is_out endpoint
speed_iff Speed.high is_in is_out endpoint = ground arith

of_code : ℕ → EndpointType
of_code code =
    if code == 0
    then EndpointType.control
    else if code == 1
    then EndpointType.isochronous
    else if code == 2
    then EndpointType.bulk
    else EndpointType.interrupt

of_code-type_code : (t : EndpointType) → of_code (type_code t) ≡ t
unfolding of_code
of_code-type_code EndpointType.control = refl
of_code-type_code EndpointType.isochronous = refl
of_code-type_code EndpointType.bulk = refl
of_code-type_code EndpointType.interrupt = refl

type_code-injective : (s t : EndpointType) → type_code s ≡ type_code t → s ≡ t
type_code-injective s t h = sym (of_code-type_code s) ∙ ap of_code h ∙ of_code-type_code t

pipe_iff :
    (pipe_type : EndpointType) (is_in is_out : Bool) (device_address : ℕ) (endpoint : EndpointInfo)
    (is_split : Bool) (speed : Speed)
    → (validate_pipe pipe_type is_in is_out device_address endpoint is_split speed ≡ ok tt) ↔ (
        (device_address ≤ 127)
        × (is_split ≡ false)
        × (endpoint.ep_type ≡ pipe_type)
        × (endpoint.index ≤ 15)
        × IsPipeEndpoint speed endpoint.ep_type is_in is_out endpoint)
unfolding validate_pipe
pipe_iff pipe_type is_in is_out device_address endpoint is_split speed =
    let speed_lem = speed_iff speed is_in is_out endpoint in
    let same : type_code endpoint.ep_type ≡ type_code pipe_type → endpoint.ep_type ≡ pipe_type =
      type_code-injective endpoint.ep_type pipe_type in
    let code : endpoint.ep_type ≡ pipe_type → type_code endpoint.ep_type ≡ type_code pipe_type =
      ap type_code in
    ground arith

after_check :
    {A : Type 0} (r : Result HostError (Unit {0})) (a : A) → ((r >> ok a) ≡ ok a) ↔ (r ≡ ok tt)
after_check (ok tt) a = (λ h. refl, λ h. refl)
after_check (err e) a = (λ h. cc, λ h. cc)

-- An endpoint gets a pipe exactly when the port is connected at a low or full speed, the device has
-- an address below 128 and no hub in between, the endpoint has the type of the pipe, an index below
-- 16 and the direction that its type asks for, and its packet size and polling interval lie within
-- the limits of its speed and type. The pipe's ticket is then that of the port.
pub alloc_pipe_iff :
    (pipe_type : EndpointType) (is_in is_out : Bool) (port : PortState) (device_address : ℕ)
    (endpoint : EndpointInfo) (is_split : Bool)
    → (alloc_pipe pipe_type is_in is_out port device_address endpoint is_split
        ≡ ok (ticket device_address port))
      ↔ ((port.connected ≡ true)
          × (device_address ≤ 127)
          × (is_split ≡ false)
          × (endpoint.ep_type ≡ pipe_type)
          × (endpoint.index ≤ 15)
          × AllSome
              (λ speed. IsPipeEndpoint speed endpoint.ep_type is_in is_out endpoint)
              port.speed
          × (is_some port.speed ≡ true))
unfolding alloc_pipe
alloc_pipe_iff pipe_type is_in is_out port device_address endpoint is_split =
    elim (Option-cases port.speed) [
      | inl e ↦ rw e (ground arith)
      | inr (speed, e) ↦ rw e (
          ground (
            arith,
            after_check
                (validate_pipe pipe_type is_in is_out device_address endpoint is_split speed)
                (ticket device_address port),
            pipe_iff pipe_type is_in is_out device_address endpoint is_split speed,
          ))
    ]
