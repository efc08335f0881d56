-- ===== src/Host/Shared/Tasks.antt =====
-- The tasks that share the state: the steps of `reset_and_report_connected`, of the controller's
-- `bus_reset` and `wait_for_device_event`, of pipes and of the line monitor, in any interleaving.
use embassy_rp_pio_usb_host.Common.{ℕ, ◌≡◌, ◌≢◌, Option, none, some, List, [], ◌∷◌, ◌++◌}
use embassy_rp_pio_usb_host.Host.Types.{Speed, PipeError}
use embassy_rp_pio_usb_host.Host.Events.Outlook.{know}
use embassy_rp_pio_usb_host.Host.Shared.{
  SharedState, fresh_shared, controller, mark_bus_reset, begin_reset_activity, end_reset_activity,
  publish_connected, report_disconnected, report_disconnected_if_not_resetting, report_overcurrent,
  take_pending_event,
}

-- Who drives a reset: an attachment with the generation that it read, or the controller.
pub data Cause : Type 0 where
  attachment : ℕ → Cause
  controller_reset : Cause

-- Who holds the engine's lock, and how far the holder is.
pub data Engine : Type 0 where
  free in_pipe controller_locked : Engine
  chosen marked driving : Cause → Speed → Engine
  published : Engine
  failed : PipeError → Engine
  leaving : Engine

pub record World : Type 0 where
  pub shared : SharedState
  pub engine : Engine
  -- Attachments that wait for the engine, with the generation that they read.
  pub waiting : List (Speed × ℕ)
  -- The speed of the connection that the controller knows of from the events that it took.
  pub known : Option Speed

abbrev pub fresh_world : World
fresh_world = record { shared = fresh_shared; engine = Engine.free; waiting = []; known = none }

pub data Step : World → World → Type 0 where
  -- A pipe locks and unlocks the engine.
  pipe_lock : (w : World) → w.engine ≡ Engine.free → Step w (record w { engine = Engine.in_pipe })
  pipe_unlock : (w : World) → w.engine ≡ Engine.in_pipe → Step w (record w { engine = Engine.free })
  -- `reset_and_report_connected` reads the generation, waits for the engine, and may be cancelled
  -- while it waits.
  attach :
      (w : World) (speed : Speed)
      → Step w (record w { waiting = (speed, w.shared.port.connection_generation) ∷ w.waiting })
  attach_lock :
      (w : World) (before after : List (Speed × ℕ)) (speed : Speed) (generation : ℕ)
      → w.engine ≡ Engine.free
      → w.waiting ≡ before ++ ((speed, generation) ∷ after)
      → Step w (record w {
        engine = Engine.chosen (Cause.attachment generation) speed;
        waiting = before ++ after;
      })
  attach_cancel :
      (w : World) (before after : List (Speed × ℕ)) (task : Speed × ℕ)
      → w.waiting ≡ before ++ (task ∷ after)
      → Step w (record w { waiting = before ++ after })
  -- `bus_reset` locks the engine and reads the speed.
  reset_lock :
      (w : World) → w.engine ≡ Engine.free → Step w (record w { engine = Engine.controller_locked })
  reset_none :
      (w : World)
      → w.engine ≡ Engine.controller_locked
      → w.shared.port.speed ≡ none
      → Step w (record w { engine = Engine.leaving })
  reset_choose :
      (w : World) (speed : Speed)
      → w.engine ≡ Engine.controller_locked
      → w.shared.port.speed ≡ some speed
      → Step w (record w { engine = Engine.chosen Cause.controller_reset speed })
  -- The reset.
  mark :
      (w : World) (cause : Cause) (speed : Speed)
      → w.engine ≡ Engine.chosen cause speed
      → Step w (record w { shared = mark_bus_reset w.shared; engine = Engine.marked cause speed })
  begin :
      (w : World) (cause : Cause) (speed : Speed)
      → w.engine ≡ Engine.marked cause speed
      → Step w
          (record w { shared = begin_reset_activity w.shared; engine = Engine.driving cause speed })
  fail :
      (w : World) (cause : Cause) (speed : Speed) (error : PipeError)
      → w.engine ≡ Engine.driving cause speed
      → Step w (record w { shared = end_reset_activity w.shared; engine = Engine.failed error })
  cancel :
      (w : World) (cause : Cause) (speed : Speed)
      → w.engine ≡ Engine.driving cause speed
      → Step w (record w { shared = end_reset_activity w.shared; engine = Engine.leaving })
  -- A reset that succeeds is published for an attachment, and ends the controller's reset.
  publish :
      (w : World) (generation : ℕ) (speed : Speed)
      → w.engine ≡ Engine.driving (Cause.attachment generation) speed
      → Step w (record w {
        shared = (publish_connected speed generation w.shared).1;
        engine = Engine.published;
      })
  finish :
      (w : World)
      → w.engine ≡ Engine.published
      → Step w (record w { shared = end_reset_activity w.shared; engine = Engine.leaving })
  finish_reset :
      (w : World) (speed : Speed)
      → w.engine ≡ Engine.driving Cause.controller_reset speed
      → Step w (record w { shared = end_reset_activity w.shared; engine = Engine.leaving })
  -- A reset that found the device gone reports it; any other error is only returned.
  fail_disconnected :
      (w : World)
      → w.engine ≡ Engine.failed PipeError.disconnected
      → Step w (record w { shared = report_disconnected w.shared; engine = Engine.leaving })
  fail_other :
      (w : World) (error : PipeError)
      → w.engine ≡ Engine.failed error
      → error ≢ PipeError.disconnected
      → Step w (record w { engine = Engine.leaving })
  leave : (w : World) → w.engine ≡ Engine.leaving → Step w (record w { engine = Engine.free })
  -- The firmware's own reports and the controller, at any time.
  detach : (w : World) → Step w (record w { shared = report_disconnected w.shared })
  sampled_detach :
      (w : World) → Step w (record w { shared = (report_disconnected_if_not_resetting w.shared).1 })
  overcurrent : (w : World) → Step w (record w { shared = report_overcurrent w.shared })
  acquire : (w : World) → Step w (record w { shared = (controller w.shared).1 })
  take_event :
      (w : World)
      → Step w (record w {
        shared = (take_pending_event w.shared).1;
        known = know (take_pending_event w.shared).0 w.known;
      })

pub data Reach (s : World) : World → Type 0 where
  here : Reach s s
  next : {t u : World} → Reach s t → Step t u → Reach s u
