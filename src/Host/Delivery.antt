-- ===== src/Host/Delivery.antt =====
-- pio_host.rs and pio_host/rp2040.rs: `request_out` of a pipe over `request_out_once` of the engine,
-- with a device that follows the USB rules and a bus that loses packets and answers as it likes.
mod Tests
mod Bench
use embassy_rp_pio_usb_host.Common.{
  ℕ, ◌≡◌, Bool, List, [], ◌∷◌, ◌++◌, ok, length, take, arith, IsBytes, refl, ap, sym, ◌∙◌, Bytes,
}
use embassy_rp_pio_usb_host.Common.Slices.{take_ge}
use embassy_rp_pio_usb_host.Wire.Toggle.{DataToggle}
use embassy_rp_pio_usb_host.Host.Port.{PipeTicket}
use embassy_rp_pio_usb_host.Host.Pipe.{Readings, Progress, Turn, out_packets, request_out}
use embassy_rp_pio_usb_host.Host.Pipe.Packets.{out_packets-IsBytes}
use embassy_rp_pio_usb_host.Host.Pipe.Transfer.{Endpoint, IsAt, HasSent, send_packets-HasSent}
use embassy_rp_pio_usb_host.Host.Engine.{PipeTarget, Wire, request_out_once}
use embassy_rp_pio_usb_host.Host.Engine.Out.{
  IsKept, IsUsbOut, request_out_once-IsSettled, kept-IsAt,
}

-- A pipe's OUT transfer, with the engine's transaction in its retry loops.
pub engine_request_out {κ} :
    {S : Type κ}
    → Wire S
    → (S → S)
    → PipeTarget
    → PipeTicket
    → Bytes
    → Bool
    → List Readings
    → DataToggle
    → S
    → Turn (Unit {0}) S
engine_request_out wire service_frame target pipe data_bytes ensure_transaction_end =
    request_out pipe service_frame (request_out_once wire target) target.endpoint.max_packet_size
      data_bytes ensure_transaction_end

pub delivers_lem {κ} :
    {S : Type κ} (device : Endpoint S) (packets more : List Bytes) (turn : Turn (Unit {0}) S)
    → HasSent device packets more turn
    → (turn.progress ≡ Progress.done (ok tt) → IsAt device turn.toggle (packets ++ more) turn.world)
      × ((n : ℕ) × (device.received turn.world ≡ packets ++ take n more))
delivers_lem device packets more turn (HasSent.all e at) = (
  λ _. at,
  (length more, at.has ∙ ap (λ m. packets ++ m) (sym (take_ge (length more) more (omega arith)))),
)
delivers_lem device packets more turn (HasSent.some_first n h e) = (λ d. absurd (h d), (n, e))

-- A device that follows the USB rules for toggles and expects the pipe's toggle receives the packets
-- of a transfer exactly once and in order, and expects the pipe's toggle again, when the transfer
-- ends well, however many packets, acknowledgements and turns were lost on the way; and when the
-- transfer fails or still waits, it has received the first packets of the transfer and nothing else.
pub request_out-delivers {κ} :
    {S : Type κ} (device : Endpoint S) (wire : Wire S) (service_frame : S → S) (target : PipeTarget)
    (pipe : PipeTicket) (data_bytes : Bytes) (ensure_transaction_end : Bool)
    (passes : List Readings) (toggle : DataToggle) (packets : List Bytes) (world : S)
    → IsBytes data_bytes
    → IsUsbOut device wire target
    → ((w : S) → IsKept device w (service_frame w))
    → IsAt device toggle packets world
    → let more = out_packets data_bytes target.endpoint.max_packet_size ensure_transaction_end in
      let turn =
        engine_request_out wire service_frame target pipe data_bytes ensure_transaction_end passes
          toggle world in
      (turn.progress ≡ Progress.done (ok tt) → IsAt device turn.toggle (packets ++ more) turn.world)
      × ((n : ℕ) × (device.received turn.world ≡ packets ++ take n more))
unfolding engine_request_out request_out
request_out-delivers device wire service_frame target pipe data_bytes ensure_transaction_end passes
      toggle packets world bytes usb keeps at =
    let more = out_packets data_bytes target.endpoint.max_packet_size ensure_transaction_end in
    delivers_lem device packets more
      (engine_request_out wire service_frame target pipe data_bytes ensure_transaction_end passes
        toggle world)
      (send_packets-HasSent device pipe service_frame (request_out_once wire target)
        (λ t ps p w b. request_out_once-IsSettled device wire t ps p target usb b w)
        (λ t ps w a. kept-IsAt device t ps (keeps w) a) packets more passes toggle world
        (out_packets-IsBytes data_bytes target.endpoint.max_packet_size ensure_transaction_end
          bytes)
        at)
