-- ===== src/Host/Shared/Consistent.antt =====
-- In every interleaving the events tell the controller the state of the port.
use embassy_rp_pio_usb_host.Common.{
  ℕ, ◌≡◌, Bool, true, false, none, is_some, List, ◌++◌, refl, ap, sym, ◌∙◌,
}
use embassy_rp_pio_usb_host.Host.Types.{Speed}
use embassy_rp_pio_usb_host.Host.Events.{no_events}
use embassy_rp_pio_usb_host.Host.Events.Outlook.{outlook, outlook-none, no_events-HasLosses}
use embassy_rp_pio_usb_host.Host.Shared.{
  mark_bus_reset, begin_reset_activity, end_reset_activity, report_disconnected, report_overcurrent,
  take_pending_event,
}
use embassy_rp_pio_usb_host.Host.Shared.Tasks.{Cause, Engine, World, fresh_world, Step, Reach}
use embassy_rp_pio_usb_host.Host.Shared.Told.{
  IsTold, mark-IsTold, flag-IsTold, publish-IsTold, detach-IsTold, overcurrent-IsTold, take-IsTold,
  sampled-IsTold, controller-IsTold, publish-reset_in_progress, sampled-reset_in_progress,
  controller-reset_in_progress,
}

-- The holders of the engine that drive a reset.
pub is_resetting : Engine → Bool
is_resetting (Engine.driving cause speed) = true
is_resetting Engine.published = true
is_resetting Engine.free = false
is_resetting Engine.in_pipe = false
is_resetting Engine.controller_locked = false
is_resetting (Engine.chosen cause speed) = false
is_resetting (Engine.marked cause speed) = false
is_resetting (Engine.failed error) = false
is_resetting Engine.leaving = false

pub record IsConsistent (w : World) : Type 0 where
  is_told : IsTold w.known w.shared
  resetting : w.shared.reset_in_progress ≡ is_resetting w.engine

-- A step of the engine's holder that leaves the shared state alone.
hold-IsConsistent :
    {w : World} (waiting : List (Speed × ℕ)) (engine engine' : Engine)
    → w.engine ≡ engine
    → is_resetting engine' ≡ is_resetting engine
    → IsConsistent w
    → IsConsistent (record w { engine = engine'; waiting = waiting })
hold-IsConsistent waiting engine engine' h same c = record {
  is_told = c.is_told;
  resetting = c.resetting ∙ ap is_resetting h ∙ sym same;
}

end-IsConsistent :
    {w : World} (engine : Engine)
    → is_resetting engine ≡ false
    → IsConsistent w
    → IsConsistent (record w { shared = end_reset_activity w.shared; engine = engine })
unfolding end_reset_activity
end-IsConsistent {w = w} engine h c = record {
  is_told = flag-IsTold w.shared.controller_taken false c.is_told;
  resetting = sym h;
}

step-IsConsistent : {w v : World} → Step w v → IsConsistent w → IsConsistent v
unfolding is_resetting mark_bus_reset begin_reset_activity end_reset_activity report_disconnected
    report_overcurrent take_pending_event
step-IsConsistent (Step.pipe_lock w h) c =
    hold-IsConsistent w.waiting Engine.free Engine.in_pipe h refl c
step-IsConsistent (Step.pipe_unlock w h) c =
    hold-IsConsistent w.waiting Engine.in_pipe Engine.free h refl c
step-IsConsistent (Step.attach w speed) c = record { is_told = c.is_told; resetting = c.resetting }
step-IsConsistent (Step.attach_lock w before after speed generation h e) c =
    hold-IsConsistent (before ++ after) Engine.free
      (Engine.chosen (Cause.attachment generation) speed) h refl c
step-IsConsistent (Step.attach_cancel w before after task e) c = record {
  is_told = c.is_told;
  resetting = c.resetting;
}
step-IsConsistent (Step.reset_lock w h) c =
    hold-IsConsistent w.waiting Engine.free Engine.controller_locked h refl c
step-IsConsistent (Step.reset_none w h e) c =
    hold-IsConsistent w.waiting Engine.controller_locked Engine.leaving h refl c
step-IsConsistent (Step.reset_choose w speed h e) c =
    hold-IsConsistent w.waiting Engine.controller_locked
      (Engine.chosen Cause.controller_reset speed) h refl c
step-IsConsistent (Step.mark w cause speed h) c = record {
  is_told = mark-IsTold c.is_told;
  resetting = c.resetting ∙ ap is_resetting h;
}
step-IsConsistent (Step.begin w cause speed h) c = record {
  is_told = flag-IsTold w.shared.controller_taken true c.is_told;
  resetting = refl;
}
step-IsConsistent (Step.fail w cause speed error h) c =
    end-IsConsistent (Engine.failed error) refl c
step-IsConsistent (Step.cancel w cause speed h) c = end-IsConsistent Engine.leaving refl c
step-IsConsistent (Step.publish w generation speed h) c = record {
  is_told = publish-IsTold speed generation c.is_told;
  resetting = publish-reset_in_progress speed generation w.shared ∙ c.resetting ∙ ap is_resetting h;
}
step-IsConsistent (Step.finish w h) c = end-IsConsistent Engine.leaving refl c
step-IsConsistent (Step.finish_reset w speed h) c = end-IsConsistent Engine.leaving refl c
step-IsConsistent (Step.fail_disconnected w h) c = record {
  is_told = detach-IsTold c.is_told;
  resetting = c.resetting ∙ ap is_resetting h;
}
step-IsConsistent (Step.fail_other w error h e) c =
    hold-IsConsistent w.waiting (Engine.failed error) Engine.leaving h refl c
step-IsConsistent (Step.leave w h) c =
    hold-IsConsistent w.waiting Engine.leaving Engine.free h refl c
step-IsConsistent (Step.detach w) c = record {
  is_told = detach-IsTold c.is_told;
  resetting = c.resetting;
}
step-IsConsistent (Step.sampled_detach w) c = record {
  is_told = sampled-IsTold c.is_told;
  resetting = sampled-reset_in_progress w.shared ∙ c.resetting;
}
step-IsConsistent (Step.overcurrent w) c = record {
  is_told = overcurrent-IsTold c.is_told;
  resetting = c.resetting;
}
step-IsConsistent (Step.acquire w) c = record {
  is_told = controller-IsTold c.is_told;
  resetting = controller-reset_in_progress w.shared ∙ c.resetting;
}
step-IsConsistent (Step.take_event w) c = record {
  is_told = take-IsTold c.is_told;
  resetting = c.resetting;
}

pub Reach-IsConsistent : {w : World} → Reach fresh_world w → IsConsistent w
unfolding is_resetting
Reach-IsConsistent Reach.here = record {
  is_told = record { told = outlook-none none; present = refl; losses = no_events-HasLosses };
  resetting = refl;
}
Reach-IsConsistent (Reach.next r st) = step-IsConsistent st (Reach-IsConsistent r)

-- In every interleaving of attachments, resets, pipes, reports and the controller: once no event is
-- pending, the controller knows exactly the port's speed, or that there is no device, and the port is
-- connected just when it has a speed; and the state says that a reset is in progress just while a
-- holder of the engine drives one, also when a reset fails or is cancelled.
pub shared-consistent :
    (w : World)
    → Reach fresh_world w
    → (w.shared.pending_events ≡ no_events → w.known ≡ w.shared.port.speed)
      × (w.shared.port.connected ≡ is_some w.shared.port.speed)
      × (w.shared.reset_in_progress ≡ is_resetting w.engine)
shared-consistent w r =
    let c = Reach-IsConsistent r in
    (
      λ e. sym (outlook-none w.known) ∙ sym (ap (λ p. outlook p w.known) e) ∙ c.is_told.told,
      c.is_told.present,
      c.resetting,
    )
