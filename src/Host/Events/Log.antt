-- ===== src/Host/Events/Log.antt =====
-- The pending events stand for a log of all events: what of it the controller sees.
use embassy_rp_pio_usb_host.Common.{
  Option, none, some, List, [], ◌∷◌, ◌≡◌, refl, ap, arith, Bool-cases, if◌then◌else◌, inl, inr,
  Option-cases,
}
use embassy_rp_pio_usb_host.Host.Types.{Speed, DeviceEvent}
use embassy_rp_pio_usb_host.Host.Events.{
  PendingEvents, no_events, is_overcurrent, push, push_destructive, overcurrent_lem, take,
  take_from,
}

-- The worst event of a log, newest first: an overcurrent, or the newest event that ends a connection.
abbrev pub worst : List DeviceEvent → Option DeviceEvent
worst [] = none
worst (DeviceEvent.connected speed ∷ log) = worst log
worst (DeviceEvent.overcurrent ∷ log) = some DeviceEvent.overcurrent
worst (DeviceEvent.disconnected ∷ log) =
    if is_overcurrent (worst log)
    then some DeviceEvent.overcurrent
    else some DeviceEvent.disconnected
worst (DeviceEvent.other code ∷ log) =
    if is_overcurrent (worst log)
    then some DeviceEvent.overcurrent
    else some (DeviceEvent.other code)

-- The connections that no later event ended.
abbrev pub live : List DeviceEvent → List DeviceEvent
live [] = []
live (DeviceEvent.connected speed ∷ log) = DeviceEvent.connected speed ∷ live log
live (DeviceEvent.overcurrent ∷ log) = []
live (DeviceEvent.disconnected ∷ log) = []
live (DeviceEvent.other code ∷ log) = []

-- The newest event of a log, when it is a connection.
abbrev pub newest_speed : List DeviceEvent → Option Speed
newest_speed [] = none
newest_speed (DeviceEvent.connected speed ∷ log) = some speed
newest_speed (DeviceEvent.overcurrent ∷ log) = none
newest_speed (DeviceEvent.disconnected ∷ log) = none
newest_speed (DeviceEvent.other code ∷ log) = none

-- Taking from the log: its worst event, which leaves the live connections; else the newest live
-- connection, which leaves nothing.
take_worst : Option DeviceEvent → List DeviceEvent → Option DeviceEvent × List DeviceEvent
take_worst (some event) log = (some event, live log)
take_worst none [] = (none, [])
take_worst none (event ∷ log) = (some event, [])

pub log_take : List DeviceEvent → Option DeviceEvent × List DeviceEvent
log_take log = take_worst (worst log) log

pub data EventOp : Type 0 where
  push_op : DeviceEvent → EventOp
  take_op : EventOp

-- What the takes of a sequence of calls return, by the code and by the log.
pub run_events : List EventOp → PendingEvents → List (Option DeviceEvent)
run_events [] events = []
run_events (EventOp.push_op event ∷ ops) events = run_events ops (push event events)
run_events (EventOp.take_op ∷ ops) events = (take events).0 ∷ run_events ops (take events).1

pub run_log : List EventOp → List DeviceEvent → List (Option DeviceEvent)
run_log [] log = []
run_log (EventOp.push_op event ∷ ops) log = run_log ops (event ∷ log)
run_log (EventOp.take_op ∷ ops) log = (log_take log).0 ∷ run_log ops (log_take log).1

-- The events that stand for a log.
view : List DeviceEvent → PendingEvents
view log = record { destructive = worst log; connected = newest_speed log }

view-push :
    (event : DeviceEvent) (log : List DeviceEvent) → push event (view log) ≡ view (event ∷ log)
unfolding push push_destructive view
view-push (DeviceEvent.connected speed) log = refl
view-push DeviceEvent.overcurrent log = refl
view-push DeviceEvent.disconnected log = elim (Bool-cases (is_overcurrent (worst log))) [
  | inl e ↦ rw (overcurrent_lem (worst log) e) refl
  | inr e ↦ rw e refl
]
view-push (DeviceEvent.other code) log = elim (Bool-cases (is_overcurrent (worst log))) [
  | inl e ↦ rw (overcurrent_lem (worst log) e) refl
  | inr e ↦ rw e refl
]

worst-live : (log : List DeviceEvent) → worst (live log) ≡ none
worst-live [] = refl
worst-live (DeviceEvent.connected speed ∷ log) = worst-live log
worst-live (DeviceEvent.overcurrent ∷ log) = refl
worst-live (DeviceEvent.disconnected ∷ log) = refl
worst-live (DeviceEvent.other code ∷ log) = refl

newest_speed-live : (log : List DeviceEvent) → newest_speed (live log) ≡ newest_speed log
newest_speed-live [] = refl
newest_speed-live (DeviceEvent.connected speed ∷ log) = refl
newest_speed-live (DeviceEvent.overcurrent ∷ log) = refl
newest_speed-live (DeviceEvent.disconnected ∷ log) = refl
newest_speed-live (DeviceEvent.other code ∷ log) = refl

-- Without a worst event a log is empty, or its newest event is a connection.
newest_lem :
    (log : List DeviceEvent)
    → worst log ≡ none
    → take_from none (newest_speed log) ≡ ((take_worst none log).0, view (take_worst none log).1)
unfolding take_from take_worst view
newest_lem [] h = refl
newest_lem (DeviceEvent.connected speed ∷ log) h = refl
newest_lem (DeviceEvent.overcurrent ∷ log) h = cc
newest_lem (DeviceEvent.disconnected ∷ log) h = absurd (ground arith)
newest_lem (DeviceEvent.other code ∷ log) h = absurd (ground arith)

view-take : (log : List DeviceEvent) → take (view log) ≡ ((log_take log).0, view (log_take log).1)
unfolding take take_from view log_take take_worst
view-take log = elim (Option-cases (worst log)) [
  | inl e ↦ rw e (newest_lem log e)
  | inr (event, e) ↦ rw e (rw (worst-live log) (rw (newest_speed-live log) refl))
]

run_events-view :
    (ops : List EventOp) (log : List DeviceEvent) → run_events ops (view log) ≡ run_log ops log
unfolding run_events run_log
run_events-view [] log = refl
run_events-view (EventOp.push_op event ∷ ops) log =
    rw (view-push event log) (run_events-view ops (event ∷ log))
run_events-view (EventOp.take_op ∷ ops) log =
    rw (view-take log) (ap (◌∷◌ (log_take log).0) (run_events-view ops (log_take log).1))

-- Events refine a log: whatever the order in which events are pushed and taken, the controller takes
-- what it would take from the log of all events, that is an overcurrent before any other event that
-- ends a connection, the newest of those before a connection, and a connection only when no later
-- event ended it.
pub take-refines : (ops : List EventOp) → run_events ops no_events ≡ run_log ops []
unfolding view
take-refines ops = run_events-view ops []
