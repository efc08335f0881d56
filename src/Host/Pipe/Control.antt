-- ===== src/Host/Pipe/Control.antt =====
-- pio_host.rs: the control transfers of `PioHostPipe` around the engine's, `reset_data_toggle`, and the
-- delay before the next transaction of an endpoint.
use Prim.Native.Nat.{max}
use embassy_rp_pio_usb_host.Common.{
  ℕ, ◌+◌, ◌^◌, ◌≡◌, Bool, ◌&&◌, Option, none, some, Result, ok, err, ◌>>◌, ltb, leb, if◌then◌else◌,
  ap,
}
use embassy_rp_pio_usb_host.Wire.Toggle.{DataToggle}
use embassy_rp_pio_usb_host.Host.Types.{PipeError, EndpointType}
use embassy_rp_pio_usb_host.Host.Port.{PipeTicket, check_valid}
use embassy_rp_pio_usb_host.Host.Pipe.{Readings}

-- `next_transaction_delay_ms`
pub next_transaction_delay_ms : EndpointType → ℕ → Bool → ℕ
next_transaction_delay_ms EndpointType.interrupt interval_ms retry = max interval_ms 1
next_transaction_delay_ms EndpointType.control interval_ms retry = if retry then 1 else 0
next_transaction_delay_ms EndpointType.bulk interval_ms retry = if retry then 1 else 0
next_transaction_delay_ms EndpointType.isochronous interval_ms retry = if retry then 1 else 0

-- `checked_add` on a `usize` of 32 bits, and the bound.
pub checked_control_in_packet_end : ℕ → ℕ → ℕ → Option ℕ
checked_control_in_packet_end received packet_len requested =
    let end = received + packet_len in
    if ltb end (2 ^ 32) && leb end requested then some end else none

pub reset_data_toggle : DataToggle → DataToggle
reset_data_toggle data_toggle = DataToggle.data0

module _ {ℓ κ} {A : Type ℓ} {S : Type κ} (pipe : PipeTicket) (service_frame : S → S) where
  -- The result and the world, by the checks around the engine's transfer.
  control_checked :
      Result PipeError (Unit {0})
      → Result PipeError (Unit {0})
      → S
      → Result PipeError A × S
      → Result PipeError A × S
  control_checked (err e) after world transferred = (err e, world)
  control_checked (ok _) (err e) world transferred = (err e, service_frame transferred.1)
  control_checked (ok _) (ok _) world transferred = (transferred.0, service_frame transferred.1)

  -- `control_in` and `control_out`: the engine's transfer, between the checks of the pipe.
  pub control_transfer : (S → Result PipeError A × S) → Readings → S → Result PipeError A × S
  control_transfer engine port world =
      control_checked (check_valid pipe port.before >> check_valid pipe port.locked)
        (check_valid pipe port.after) world (engine world)

  -- A pipe that is no longer valid when it has the engine sends nothing.
  pub control_transfer-stale :
      (engine : S → Result PipeError A × S) (port : Readings) (world : S) (e : PipeError)
      → (check_valid pipe port.before >> check_valid pipe port.locked) ≡ err e
      → control_transfer engine port world ≡ (err e, world)
  unfolding control_transfer control_checked
  control_transfer-stale engine port world e h =
      ap (λ r. control_checked r (check_valid pipe port.after) world (engine world)) h
