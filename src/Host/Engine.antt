-- ===== src/Host/Engine.antt =====
-- pio_host/rp2040.rs: the transactions of `Rp2040PioEngine` on endpoints other than control ones. What
-- the state machines of the PIO do is a parameter: the start of a frame, the preparation of the
-- receiver, the transmission of a token with a data packet, and the reception of an answer.
pub mod Out
pub mod Diagnostics
pub mod In
use embassy_rp_pio_usb_host.Common.{
  ℕ, Bool, true, false, not, ◌&&◌, ◌||◌, Result, ok, err, ◌==◌, if◌then◌else◌, Bytes,
}
use embassy_rp_pio_usb_host.Wire.Pid.{pid_out, pid_ack, pid_nak, pid_stall}
use embassy_rp_pio_usb_host.Wire.Packet.{
  RawDataPacket, DataPacketError, new, as_bytes, token_packet,
}
use embassy_rp_pio_usb_host.Wire.Toggle.{DataToggle, pid, after_ack}
use embassy_rp_pio_usb_host.Host.Types.{PipeError, EndpointType, EndpointInfo, UsbDirection}
use embassy_rp_pio_usb_host.Host.Pipe.{TransactionOutcome, Answer}

pub data ReceiveResult : Type 0 where
  handshake : ℕ → ReceiveResult
  no_start invalid_packet : ReceiveResult

pub data OutResponse : Type 0 where
  ack nak no_response : OutResponse

pub record PipeTarget : Type 0 where
  pub device_address : ℕ
  pub endpoint : EndpointInfo

-- The hardware, on a world that it and the device change.
pub record Wire {κ} (S : Type κ) : Type κ where
  -- The wait for the bus and a frame marker that is due.
  pub start_frame : S → Result PipeError (Unit {0}) × S
  -- `park_receive` and `prepare_receive_disabled`
  pub park_receive : S → Result PipeError (Unit {0}) × S
  -- `transmit_token_data_pair`: whether both packets went out
  pub transmit_token_data_pair : Bytes → Bytes → S → Bool × S
  -- `receive_handshake`
  pub receive_handshake : S → ReceiveResult × S

-- The last `match` of `out_once`.
pub out_response : ReceiveResult → Result PipeError OutResponse
out_response (ReceiveResult.handshake response) =
    if response == pid_ack
    then ok OutResponse.ack
    else if response == pid_nak
    then ok OutResponse.nak
    else if response == pid_stall
    then err PipeError.stall
    else err PipeError.bad_response
out_response ReceiveResult.invalid_packet = err PipeError.bad_response
out_response ReceiveResult.no_start = ok OutResponse.no_response

module _ {κ} {S : Type κ} (wire : Wire S) where
  -- After the transmission: `map_tx_error` makes every error of it a timeout.
  receive_response : Bool × S → Result PipeError OutResponse × S
  receive_response (false, world) = (err PipeError.timeout, world)
  receive_response (true, world) =
      let received = wire.receive_handshake world in (out_response received.0, received.1)

  -- After `park_receive`.
  send_pair : Bytes → Bytes → Result PipeError (Unit {0}) × S → Result PipeError OutResponse × S
  send_pair token packet (err e, world) = (err e, world)
  send_pair token packet (ok _, world) =
      receive_response (wire.transmit_token_data_pair token packet world)

  -- After the data packet is built.
  send_packet : Bytes → Result DataPacketError RawDataPacket → S → Result PipeError OutResponse × S
  send_packet token (err e) world = (err PipeError.buffer_overflow, world)
  send_packet token (ok packet) world = send_pair token (as_bytes packet) (wire.park_receive world)

  -- After the start of the frame.
  send_data :
      PipeTarget
      → ℕ
      → ℕ
      → Bytes
      → Result PipeError (Unit {0}) × S
      → Result PipeError OutResponse × S
  send_data target token_pid data_pid payload (err e, world) = (err e, world)
  send_data target token_pid data_pid payload (ok _, world) =
      send_packet (token_packet token_pid target.device_address target.endpoint.index)
        (new data_pid payload) world

  pub out_once : PipeTarget → ℕ → ℕ → Bytes → S → Result PipeError OutResponse × S
  out_once target token_pid data_pid payload world =
      send_data target token_pid data_pid payload (wire.start_frame world)

  -- The `match` of `request_out_once`.
  settle : DataToggle → Result PipeError OutResponse × S → Answer (Unit {0}) S
  settle toggle (err e, world) = record { result = err e; toggle = toggle; world = world }
  settle toggle (ok OutResponse.ack, world) = record {
    result = ok (TransactionOutcome.complete tt);
    toggle = after_ack toggle;
    world = world;
  }
  settle toggle (ok OutResponse.nak, world) = record {
    result = ok TransactionOutcome.nak;
    toggle = toggle;
    world = world;
  }
  settle toggle (ok OutResponse.no_response, world) = record {
    result = ok TransactionOutcome.no_response;
    toggle = toggle;
    world = world;
  }

  is_out_type : EndpointType → Bool
  is_out_type EndpointType.bulk = true
  is_out_type EndpointType.interrupt = true
  is_out_type EndpointType.control = false
  is_out_type EndpointType.isochronous = false

  is_out : UsbDirection → Bool
  is_out UsbDirection.outward = true
  is_out UsbDirection.inward = false

  pub request_out_once : PipeTarget → Bytes → DataToggle → S → Answer (Unit {0}) S
  request_out_once target packet toggle world =
      if not (is_out_type target.endpoint.ep_type) || not (is_out target.endpoint.direction)
      then record { result = err PipeError.bad_response; toggle = toggle; world = world }
      else settle toggle (out_once target pid_out (pid toggle) packet world)
