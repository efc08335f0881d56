-- ===== src/Host/Shared/Tests.antt =====
-- A full-speed device is attached, and the controller takes the event.
use embassy_rp_pio_usb_host.Common.{◌≡◌, is_some, refl, [], ◌∷◌}
use embassy_rp_pio_usb_host.Host.Types.{Speed}
use embassy_rp_pio_usb_host.Host.Events.{no_events}
use embassy_rp_pio_usb_host.Host.Shared.{
  fresh_shared, mark_bus_reset, begin_reset_activity, end_reset_activity, publish_connected,
  take_pending_event, SharedState,
}
use embassy_rp_pio_usb_host.Host.Events.Outlook.{know}
use embassy_rp_pio_usb_host.Host.Shared.Tasks.{Cause, Engine, World, fresh_world, Step, Reach}
use embassy_rp_pio_usb_host.Host.Shared.Consistent.{is_resetting, shared-consistent}

abbrev driven : SharedState
driven = begin_reset_activity (mark_bus_reset fresh_shared)

abbrev settled : SharedState
settled = end_reset_activity (publish_connected Speed.full 0 driven).1

abbrev attached : World
attached = record {
  shared = (take_pending_event settled).1;
  engine = Engine.free;
  waiting = [];
  known = know (take_pending_event settled).0 fresh_world.known;
}

attached-Reach : Reach fresh_world attached
attached-Reach =
    let queued : World = record fresh_world { waiting = (Speed.full, 0) ∷ [] } in
    let chosen : World = record fresh_world {
      engine = Engine.chosen (Cause.attachment 0) Speed.full;
    } in
    let marked : World = record fresh_world {
      shared = mark_bus_reset fresh_shared;
      engine = Engine.marked (Cause.attachment 0) Speed.full;
    } in
    let driving : World = record fresh_world {
      shared = driven;
      engine = Engine.driving (Cause.attachment 0) Speed.full;
    } in
    let published : World = record fresh_world {
      shared = (publish_connected Speed.full 0 driven).1;
      engine = Engine.published;
    } in
    let leaving : World = record fresh_world { shared = settled; engine = Engine.leaving } in
    let r1 : Reach fresh_world queued =
      Reach.next Reach.here (Step.attach fresh_world Speed.full) in
    let r2 : Reach fresh_world chosen =
      Reach.next r1 (Step.attach_lock queued [] [] Speed.full 0 refl refl) in
    let r3 : Reach fresh_world marked =
      Reach.next r2 (Step.mark chosen (Cause.attachment 0) Speed.full refl) in
    let r4 : Reach fresh_world driving =
      Reach.next r3 (Step.begin marked (Cause.attachment 0) Speed.full refl) in
    let r5 : Reach fresh_world published = Reach.next r4 (Step.publish driving 0 Speed.full refl) in
    let r6 : Reach fresh_world leaving = Reach.next r5 (Step.finish published refl) in
    Reach.next (Reach.next r6 (Step.leave leaving refl))
      (Step.take_event (record leaving { engine = Engine.free }))

shared-consistent_example :
    (attached.shared.pending_events ≡ no_events → attached.known ≡ attached.shared.port.speed)
    × (attached.shared.port.connected ≡ is_some attached.shared.port.speed)
    × (attached.shared.reset_in_progress ≡ is_resetting attached.engine)
shared-consistent_example = shared-consistent attached attached-Reach
