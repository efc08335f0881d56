-- ===== src/Host/Events/Tests.antt =====
-- A detachment that follows an overcurrent, and a device that is connected again.
use embassy_rp_pio_usb_host.Common.{◌≡◌, List, [], ◌∷◌}
use embassy_rp_pio_usb_host.Host.Types.{Speed, DeviceEvent}
use embassy_rp_pio_usb_host.Host.Events.{no_events}
use embassy_rp_pio_usb_host.Host.Events.Log.{EventOp, run_events, run_log, take-refines}

abbrev calls : List EventOp
calls =
    EventOp.push_op (DeviceEvent.connected Speed.low)
    ∷ EventOp.push_op DeviceEvent.overcurrent
    ∷ EventOp.push_op DeviceEvent.disconnected
    ∷ EventOp.push_op (DeviceEvent.connected Speed.full)
    ∷ EventOp.take_op
    ∷ EventOp.take_op
    ∷ EventOp.take_op
    ∷ []

take-refines_example : run_events calls no_events ≡ run_log calls []
take-refines_example = take-refines calls
