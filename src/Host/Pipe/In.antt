-- ===== src/Host/Pipe/In.antt =====
-- pio_host.rs: `request_in` and `request_in_packet`. A transaction that completes gives the bytes that
-- it copied to the buffer that it was offered; their number is what the code passes on. The loops of
-- the two functions are one recursion on the passes.
mod Tests
pub mod Answers
pub mod Judge
pub mod Collect
use embassy_rp_pio_usb_host.Common.{
  ℕ, ◌+◌, ◌-◌, Bool, true, false, not, ◌||◌, List, [], ◌∷◌, ◌++◌, Result, ok, err, ltb, leb, ◌==◌,
  if◌then◌else◌, Bytes, length,
}
use embassy_rp_pio_usb_host.Wire.Toggle.{DataToggle}
use embassy_rp_pio_usb_host.Host.Types.{PipeError, EndpointType}
use embassy_rp_pio_usb_host.Host.Port.{PipeTicket}
use embassy_rp_pio_usb_host.Host.Pipe.{
  TransactionOutcome, Readings, Answer, Once, Verdict, missed, Progress, Turn, attempt,
}

abbrev pub is_bulk : EndpointType → Bool
is_bulk EndpointType.bulk = true
is_bulk EndpointType.control = false
is_bulk EndpointType.interrupt = false
is_bulk EndpointType.isochronous = false

abbrev pub is_isochronous : EndpointType → Bool
is_isochronous EndpointType.isochronous = true
is_isochronous EndpointType.control = false
is_isochronous EndpointType.bulk = false
is_isochronous EndpointType.interrupt = false

-- The `match` of `request_in_packet`, for a buffer with this room.
pub judge_in : Bool → ℕ → ℕ → Result PipeError (TransactionOutcome Bytes) → Verdict Bytes
judge_in isochronous room count (err e) = Verdict.stop (err e)
judge_in isochronous room count (ok (TransactionOutcome.complete packet)) =
    Verdict.stop (if leb (length packet) room then ok packet else err PipeError.buffer_overflow)
judge_in isochronous room count (ok TransactionOutcome.nak) =
    if isochronous then Verdict.stop (err PipeError.timeout) else Verdict.again 0
judge_in isochronous room count (ok TransactionOutcome.no_response) =
    if isochronous then Verdict.stop (err PipeError.timeout) else missed count

-- Whether a packet ends the transfer, after which this much is received.
pub is_last : EndpointType → ℕ → ℕ → Bytes → Bytes → Bool
is_last ep_type max_packet_size buffer_len received packet =
    not (is_bulk ep_type) || length received == buffer_len || ltb (length packet) max_packet_size

module _ {κ} {S : Type κ} (pipe : PipeTicket) (service_frame : S → S) (ep_type : EndpointType)
    (max_packet_size buffer_len : ℕ) (once : ℕ → Once Bytes S) where
  -- What a pass does next, given how to go on.
  pub in_verdict :
      Verdict Bytes
      → Answer Bytes S
      → List Readings
      → Bytes
      → (ℕ → Bytes → Turn Bytes S)
      → Turn Bytes S
  in_verdict (Verdict.stop (err e)) answer passes received rest = record {
    progress = Progress.done (err e);
    toggle = answer.toggle;
    world = answer.world;
    passes = passes;
  }
  in_verdict (Verdict.stop (ok packet)) answer passes received rest =
      if is_last ep_type max_packet_size buffer_len (received ++ packet) packet
      then record {
        progress = Progress.done (ok (received ++ packet));
        toggle = answer.toggle;
        world = answer.world;
        passes = passes;
      }
      else rest 0 (received ++ packet)
  in_verdict (Verdict.again count) answer passes received rest = rest count received

  pub request_in_from : List Readings → ℕ → Bytes → DataToggle → S → Turn Bytes S
  request_in_from [] count received toggle world = record {
    progress = Progress.waiting;
    toggle = toggle;
    world = world;
    passes = [];
  }
  request_in_from (port ∷ passes) count received toggle world =
      let room = buffer_len - length received in
      let answer = attempt pipe service_frame (once room) port toggle world in
      in_verdict (judge_in (is_isochronous ep_type) room count answer.result) answer passes received
        (λ next more. request_in_from passes next more answer.toggle answer.world)

  pub request_in : List Readings → DataToggle → S → Turn Bytes S
  request_in passes toggle world =
      if buffer_len == 0
      then record {
        progress = Progress.done (ok []);
        toggle = toggle;
        world = world;
        passes = passes;
      }
      else request_in_from passes 0 [] toggle world
