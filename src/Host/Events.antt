-- ===== src/Host/Events.antt =====
-- pio_host.rs: `PendingEvents`, the events that the controller has not taken yet.
mod Tests
pub mod Log
pub mod Outlook
use embassy_rp_pio_usb_host.Common.{
  Bool, true, false, not, ◌≡◌, refl, Option, none, some, if◌then◌else◌,
}
use embassy_rp_pio_usb_host.Host.Types.{Speed, DeviceEvent}

pub record PendingEvents : Type 0 where
  pub destructive : Option DeviceEvent
  pub connected : Option Speed

abbrev pub no_events : PendingEvents
no_events = record { destructive = none; connected = none }

-- `== Some(DeviceEvent::Overcurrent)`
abbrev pub is_overcurrent : Option DeviceEvent → Bool
is_overcurrent (some DeviceEvent.overcurrent) = true
is_overcurrent (some (DeviceEvent.connected speed)) = false
is_overcurrent (some DeviceEvent.disconnected) = false
is_overcurrent (some (DeviceEvent.other code)) = false
is_overcurrent none = false

pub overcurrent_lem :
    (o : Option DeviceEvent) → is_overcurrent o ≡ true → o ≡ some DeviceEvent.overcurrent
overcurrent_lem none h = cc
overcurrent_lem (some DeviceEvent.overcurrent) h = refl
overcurrent_lem (some (DeviceEvent.connected speed)) h = cc
overcurrent_lem (some DeviceEvent.disconnected) h = cc
overcurrent_lem (some (DeviceEvent.other code)) h = cc

-- A destructive event other than an overcurrent.
push_destructive : DeviceEvent → PendingEvents → PendingEvents
push_destructive event events = record {
  destructive = if not (is_overcurrent events.destructive) then some event else events.destructive;
  connected = none;
}

pub push : DeviceEvent → PendingEvents → PendingEvents
push (DeviceEvent.connected speed) events = record events { connected = some speed }
push DeviceEvent.disconnected events = push_destructive DeviceEvent.disconnected events
push DeviceEvent.overcurrent events = record {
  destructive = some DeviceEvent.overcurrent;
  connected = none;
}
push (DeviceEvent.other code) events = push_destructive (DeviceEvent.other code) events

-- The event that is taken, and the events that are left.
take_from : Option DeviceEvent → Option Speed → Option DeviceEvent × PendingEvents
take_from (some event) connected =
    (some event, record { destructive = none; connected = connected })
take_from none (some speed) = (some (DeviceEvent.connected speed), no_events)
take_from none none = (none, no_events)

pub take : PendingEvents → Option DeviceEvent × PendingEvents
take events = take_from events.destructive events.connected
