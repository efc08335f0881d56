-- ===== src/Host/Shared.antt =====
-- pio_host.rs: `SharedState` and the blocks of `PioHostState` that run under its lock, one function for
-- each. A function that returns a value next to the new state gives a pair.
mod Tests
pub mod Tasks
pub mod Told
pub mod Consistent
use embassy_rp_pio_usb_host.Common.{
  ℕ, Bool, true, false, not, Option, none, some, Result, ok, err, ◌==◌, if◌then◌else◌,
}
use embassy_rp_pio_usb_host.Host.Types.{Speed, DeviceEvent, PipeError, HostError, is_low_or_full}
use embassy_rp_pio_usb_host.Host.Port.{
  PortState, fresh_port, after_connection, after_disconnection, after_bus_reset,
}
use embassy_rp_pio_usb_host.Host.Events.{PendingEvents, no_events, push, take}

pub record SharedState : Type 0 where
  pub port : PortState
  pub pending_events : PendingEvents
  pub controller_taken : Bool
  pub reset_in_progress : Bool

abbrev pub fresh_shared : SharedState
fresh_shared = record {
  port = fresh_port;
  pending_events = no_events;
  controller_taken = false;
  reset_in_progress = false;
}

-- `controller`: the one handle, or an error.
pub controller : SharedState → Result HostError (Unit {0}) × SharedState
controller shared =
    if shared.controller_taken
    then (err HostError.other, shared)
    else (ok tt, record shared { controller_taken = true })

pub mark_bus_reset : SharedState → SharedState
mark_bus_reset shared = record shared { port = after_bus_reset shared.port }

pub begin_reset_activity : SharedState → SharedState
begin_reset_activity shared = record shared { reset_in_progress = true }

-- `ResetActivity::drop`
pub end_reset_activity : SharedState → SharedState
end_reset_activity shared = record shared { reset_in_progress = false }

-- The last block of `reset_and_report_connected`: whether the connection is published.
pub publish_connected : Speed → ℕ → SharedState → Bool × SharedState
publish_connected speed connection_generation shared =
    if not (shared.port.connection_generation == connection_generation) then (false, shared) else (
      true,
      record shared {
        port = after_connection shared.port speed;
        pending_events = push (DeviceEvent.connected speed) shared.pending_events;
      },
    )

pub report_disconnected : SharedState → SharedState
report_disconnected shared = record shared {
  port = after_disconnection shared.port;
  pending_events = push DeviceEvent.disconnected shared.pending_events;
}

pub report_disconnected_if_not_resetting : SharedState → Bool × SharedState
report_disconnected_if_not_resetting shared =
    if shared.reset_in_progress then (false, shared) else (true, report_disconnected shared)

pub report_overcurrent : SharedState → SharedState
report_overcurrent shared = record shared {
  port = after_disconnection shared.port;
  pending_events = push DeviceEvent.overcurrent shared.pending_events;
}

pub take_pending_event : SharedState → Option DeviceEvent × SharedState
take_pending_event shared = (
  (take shared.pending_events).0,
  record shared { pending_events = (take shared.pending_events).1 },
)

abbrev is_serviced : Option Speed → Bool
is_serviced none = false
is_serviced (some speed) = is_low_or_full speed

-- `service_frame`, by the port's speed before and after the engine is tried, whether the engine is
-- free, and what its own service returns.
pub service_frame :
    Option Speed → Bool → Option Speed → Result PipeError (Unit {0}) → Result PipeError (Unit {0})
service_frame before is_free after serviced =
    if not (is_serviced before)
    then err PipeError.disconnected
    else if not is_free
    then ok tt
    else if not (is_serviced after)
    then err PipeError.disconnected
    else serviced
