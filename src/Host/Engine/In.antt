-- ===== src/Host/Engine/In.antt =====
-- pio_host/rp2040.rs: the IN transaction of `Rp2040PioEngine` on endpoints other than control ones. The
-- reception and acknowledgement of a packet by the PIO is a parameter, which gives the payload that it
-- stored. A packet that is accepted is given with its bytes; their number is what the code passes on.
mod Tests
pub mod Tally
use embassy_rp_pio_usb_host.Common.{
  ℕ, ◌-◌, Bool, true, false, not, ◌&&◌, ◌||◌, Result, ok, err, ltb, ◌==◌, if◌then◌else◌, Bytes,
  length,
}
use embassy_rp_pio_usb_host.Wire.Pid.{pid_in, pid_data0, pid_data1}
use embassy_rp_pio_usb_host.Wire.Packet.{token_packet}
use embassy_rp_pio_usb_host.Wire.Toggle.{DataToggle, pid, after_ack}
use embassy_rp_pio_usb_host.Host.Types.{PipeError, EndpointType, UsbDirection}
use embassy_rp_pio_usb_host.Host.Pipe.{TransactionOutcome, Answer}
use embassy_rp_pio_usb_host.Host.Pipe.In.{is_isochronous}
use embassy_rp_pio_usb_host.Host.Engine.{PipeTarget}
use embassy_rp_pio_usb_host.Host.Engine.Diagnostics.{
  InTransactionDiagnostics, record_attempt, record_accepted_data, record_nak, record_no_response,
  record_invalid_or_stall, record_accepted_zlp, record_unexpected_toggle,
}
use Prim.Native.Nat.{min}

pub data InReceiveResult : Type 0 where
  data_in : Bytes → InReceiveResult
  unexpected_toggle : ℕ → Bytes → InReceiveResult
  nak stall no_response invalid_packet : InReceiveResult

-- The hardware, on a world that it and the device change.
pub record InWire {κ} (S : Type κ) : Type κ where
  -- The wait for the bus, and for a frame marker: `wait_transaction_frame` when scheduled.
  pub start_frame : Bool → S → Result PipeError (Unit {0}) × S
  pub park_receive : S → Result PipeError (Unit {0}) × S
  -- `receive_data_packet`: token, room, longest payload, expected identifier, acknowledge; `err` is a
  -- transmission error, after which `in_once` recovers the transmitter
  pub receive_data_packet : Bytes → ℕ → ℕ → ℕ → Bool → S → Result (Unit {0}) InReceiveResult × S

-- The engine: its diagnostics, and the world.
pub record InEngine {κ} (S : Type κ) : Type κ where
  pub diagnostics : InTransactionDiagnostics
  pub world : S

-- `MAX_DECODED_BYTES - 4`
abbrev pub in_packet_bytes : ℕ
in_packet_bytes = 104 - 4

module _ {κ} {S : Type κ} (wire : InWire S) where
  -- `map_tx_error` makes every error of the transmission a timeout.
  in_received : Result (Unit {0}) InReceiveResult × S → Result PipeError InReceiveResult × S
  in_received (err _, world) = (err PipeError.timeout, world)
  in_received (ok response, world) = (ok response, world)

  -- After `park_receive`.
  in_receive :
      PipeTarget
      → ℕ
      → ℕ
      → Bool
      → Result PipeError (Unit {0}) × S
      → Result PipeError InReceiveResult × S
  in_receive target expected_pid max_payload_len acknowledge (err e, world) = (err e, world)
  in_receive target expected_pid max_payload_len acknowledge (ok _, world) = in_received (
      wire.receive_data_packet (token_packet pid_in target.device_address target.endpoint.index)
        target.endpoint.max_packet_size max_payload_len expected_pid acknowledge world)

  -- After the start of the frame: the checks of the arguments.
  in_checked :
      PipeTarget
      → ℕ
      → ℕ
      → Bool
      → Result PipeError (Unit {0}) × S
      → Result PipeError InReceiveResult × S
  in_checked target expected_pid max_payload_len acknowledge (err e, world) = (err e, world)
  in_checked target expected_pid max_payload_len acknowledge (ok _, world) =
      if ltb in_packet_bytes target.endpoint.max_packet_size
      then (err PipeError.buffer_overflow, world)
      else if not (expected_pid == pid_data0 || expected_pid == pid_data1)
          || ltb target.endpoint.max_packet_size max_payload_len
      then (err PipeError.bad_response, world)
      else in_receive target expected_pid max_payload_len acknowledge (wire.park_receive world)

  pub in_once : PipeTarget → ℕ → ℕ → Bool → Bool → S → Result PipeError InReceiveResult × S
  in_once target expected_pid max_payload_len frame_scheduled acknowledge world =
      in_checked target expected_pid max_payload_len acknowledge
        (wire.start_frame frame_scheduled world)

-- What the `match` of `request_in_once` records.
unfoldable pub record_response :
    ℕ → InReceiveResult → InTransactionDiagnostics → InTransactionDiagnostics
record_response expected_pid (InReceiveResult.data_in payload) d =
    let counted = record_accepted_data d in
    if length payload == 0 then record_accepted_zlp counted else counted
record_response expected_pid (InReceiveResult.unexpected_toggle actual_pid payload) d =
    record_unexpected_toggle expected_pid actual_pid payload d
record_response expected_pid InReceiveResult.nak d = record_nak d
record_response expected_pid InReceiveResult.stall d = record_invalid_or_stall d
record_response expected_pid InReceiveResult.no_response d = record_no_response d
record_response expected_pid InReceiveResult.invalid_packet d = record_invalid_or_stall d

-- Its result, for a buffer with this room.
pub in_outcome : ℕ → InReceiveResult → Result PipeError (TransactionOutcome Bytes)
in_outcome room (InReceiveResult.data_in payload) =
    if ltb room (length payload)
    then err PipeError.buffer_overflow
    else ok (TransactionOutcome.complete payload)
in_outcome room (InReceiveResult.unexpected_toggle actual_pid payload) = ok TransactionOutcome.nak
in_outcome room InReceiveResult.nak = ok TransactionOutcome.nak
in_outcome room InReceiveResult.stall = err PipeError.stall
in_outcome room InReceiveResult.no_response = ok TransactionOutcome.no_response
in_outcome room InReceiveResult.invalid_packet = err PipeError.bad_response

-- The toggle afterwards.
pub in_toggle : Bool → DataToggle → InReceiveResult → DataToggle
in_toggle isochronous toggle (InReceiveResult.data_in payload) =
    if isochronous then toggle else after_ack toggle
in_toggle isochronous toggle (InReceiveResult.unexpected_toggle actual_pid payload) = toggle
in_toggle isochronous toggle InReceiveResult.nak = toggle
in_toggle isochronous toggle InReceiveResult.stall = toggle
in_toggle isochronous toggle InReceiveResult.no_response = toggle
in_toggle isochronous toggle InReceiveResult.invalid_packet = toggle

abbrev pub is_control : EndpointType → Bool
is_control EndpointType.control = true
is_control EndpointType.bulk = false
is_control EndpointType.interrupt = false
is_control EndpointType.isochronous = false

abbrev pub is_inward : UsbDirection → Bool
is_inward UsbDirection.inward = true
is_inward UsbDirection.outward = false

-- A bulk, interrupt or isochronous endpoint, and inward.
abbrev pub is_in_target : PipeTarget → Bool
is_in_target target =
    not (is_control target.endpoint.ep_type) && is_inward target.endpoint.direction

abbrev pub in_expected : Bool → DataToggle → ℕ
in_expected isochronous toggle = if isochronous then pid_data0 else pid toggle

module _ {κ} {S : Type κ} where
  -- After `in_once`.
  pub in_settled :
      Bool
      → ℕ
      → DataToggle
      → InTransactionDiagnostics
      → Result PipeError InReceiveResult × S
      → Answer Bytes (InEngine S)
  in_settled isochronous room toggle d (err e, world) = record {
    result = err e;
    toggle = toggle;
    world = record { diagnostics = d; world = world };
  }
  in_settled isochronous room toggle d (ok response, world) = record {
    result = in_outcome room response;
    toggle = in_toggle isochronous toggle response;
    world = record {
      diagnostics = record_response (in_expected isochronous toggle) response (record_attempt d);
      world = world;
    };
  }

  pub request_in_once :
      InWire S → PipeTarget → ℕ → DataToggle → InEngine S → Answer Bytes (InEngine S)
  request_in_once wire target room toggle engine =
      let isochronous = is_isochronous target.endpoint.ep_type in
      if not (is_in_target target)
      then record { result = err PipeError.bad_response; toggle = toggle; world = engine }
      else in_settled isochronous room toggle engine.diagnostics (
          in_once wire target (in_expected isochronous toggle)
            (min room target.endpoint.max_packet_size) isochronous (not isochronous) engine.world)
