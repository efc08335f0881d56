-- ===== src/Host/Shared/Told.antt =====
-- How each block under the lock keeps what the events tell of the port.
use embassy_rp_pio_usb_host.Common.{
  ℕ, ◌≡◌, Bool, true, not, Option, is_some, refl, ◌∙◌, if_both, Result, ◌==◌,
}
use embassy_rp_pio_usb_host.Host.Types.{Speed, DeviceEvent, HostError}
use embassy_rp_pio_usb_host.Host.Port.{after_connection, after_disconnection, after_bus_reset}
use embassy_rp_pio_usb_host.Host.Events.Outlook.{
  know, outlook, outlook-push, outlook-take, HasLosses, push-HasLosses, take-HasLosses,
}
use embassy_rp_pio_usb_host.Host.Shared.{
  SharedState, controller, mark_bus_reset, publish_connected, report_disconnected,
  report_disconnected_if_not_resetting, report_overcurrent, take_pending_event,
}

-- The port and the events, by what the controller knows.
pub record IsTold (known : Option Speed) (shared : SharedState) : Type 0 where
  pub told : outlook shared.pending_events known ≡ shared.port.speed
  pub present : shared.port.connected ≡ is_some shared.port.speed
  pub losses : HasLosses shared.pending_events

pub mark-IsTold :
    {known : Option Speed} {shared : SharedState}
    → IsTold known shared
    → IsTold known (mark_bus_reset shared)
unfolding mark_bus_reset after_bus_reset
mark-IsTold t = record { told = t.told; present = t.present; losses = t.losses }

pub flag-IsTold :
    {known : Option Speed} {shared : SharedState} (taken resetting : Bool)
    → IsTold known shared
    → IsTold known (record shared { controller_taken = taken; reset_in_progress = resetting })
flag-IsTold taken resetting t = record { told = t.told; present = t.present; losses = t.losses }

pub publish-IsTold :
    {known : Option Speed} {shared : SharedState} (speed : Speed) (generation : ℕ)
    → IsTold known shared
    → IsTold known (publish_connected speed generation shared).1
unfolding publish_connected after_connection
publish-IsTold {known = known} {shared = shared} speed generation t =
    let events = shared.pending_events in
    if_both (λ (r : Bool × SharedState). IsTold known r.1)
      (not (shared.port.connection_generation == generation)) t
      (record {
        told = outlook-push (DeviceEvent.connected speed) events known;
        present = refl;
        losses = push-HasLosses (DeviceEvent.connected speed) events t.losses;
      })

pub detach-IsTold :
    {known : Option Speed} {shared : SharedState}
    → IsTold known shared
    → IsTold known (report_disconnected shared)
unfolding report_disconnected after_disconnection
detach-IsTold {known = known} {shared = shared} t = record {
  told = outlook-push DeviceEvent.disconnected shared.pending_events known;
  present = refl;
  losses = push-HasLosses DeviceEvent.disconnected shared.pending_events t.losses;
}

pub overcurrent-IsTold :
    {known : Option Speed} {shared : SharedState}
    → IsTold known shared
    → IsTold known (report_overcurrent shared)
unfolding report_overcurrent after_disconnection
overcurrent-IsTold {known = known} {shared = shared} t = record {
  told = outlook-push DeviceEvent.overcurrent shared.pending_events known;
  present = refl;
  losses = push-HasLosses DeviceEvent.overcurrent shared.pending_events t.losses;
}

pub take-IsTold :
    {known : Option Speed} {shared : SharedState}
    → IsTold known shared
    → IsTold (know (take_pending_event shared).0 known) (take_pending_event shared).1
unfolding take_pending_event
take-IsTold {known = known} {shared = shared} t = record {
  told = outlook-take shared.pending_events known t.losses ∙ t.told;
  present = t.present;
  losses = take-HasLosses shared.pending_events;
}

pub sampled-IsTold :
    {known : Option Speed} {shared : SharedState}
    → IsTold known shared
    → IsTold known (report_disconnected_if_not_resetting shared).1
unfolding report_disconnected_if_not_resetting
sampled-IsTold {known = known} {shared = shared} t =
    if_both (λ (r : Bool × SharedState). IsTold known r.1) shared.reset_in_progress t
      (detach-IsTold t)

pub controller-IsTold :
    {known : Option Speed} {shared : SharedState}
    → IsTold known shared
    → IsTold known (controller shared).1
unfolding controller
controller-IsTold {known = known} {shared = shared} t =
    if_both (λ (r : Result HostError (Unit {0}) × SharedState). IsTold known r.1)
      shared.controller_taken t (flag-IsTold true shared.reset_in_progress t)

-- The blocks that leave the flag of the reset alone.
pub publish-reset_in_progress :
    (speed : Speed) (generation : ℕ) (shared : SharedState)
    → (publish_connected speed generation shared).1.reset_in_progress ≡ shared.reset_in_progress
unfolding publish_connected
publish-reset_in_progress speed generation shared =
    if_both (λ (r : Bool × SharedState). r.1.reset_in_progress ≡ shared.reset_in_progress)
      (not (shared.port.connection_generation == generation)) refl refl

pub sampled-reset_in_progress :
    (shared : SharedState)
    → (report_disconnected_if_not_resetting shared).1.reset_in_progress ≡ shared.reset_in_progress
unfolding report_disconnected_if_not_resetting report_disconnected
sampled-reset_in_progress shared =
    if_both (λ (r : Bool × SharedState). r.1.reset_in_progress ≡ shared.reset_in_progress)
      shared.reset_in_progress refl refl

pub controller-reset_in_progress :
    (shared : SharedState) → (controller shared).1.reset_in_progress ≡ shared.reset_in_progress
unfolding controller
controller-reset_in_progress shared =
    if_both
      (λ (r : Result HostError (Unit {0}) × SharedState).
        r.1.reset_in_progress ≡ shared.reset_in_progress)
      shared.controller_taken refl refl
