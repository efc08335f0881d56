-- ===== src/Host/Events/Outlook.antt =====
-- What the controller knows of the connection once it has taken every pending event.
use embassy_rp_pio_usb_host.Common.{
  ◌≡◌, Bool, true, false, Option, none, some, refl, inl, inr, Bool-cases,
}
use embassy_rp_pio_usb_host.Host.Types.{Speed, DeviceEvent}
use embassy_rp_pio_usb_host.Host.Events.{
  PendingEvents, no_events, is_overcurrent, push, push_destructive, overcurrent_lem, take,
  take_from,
}

-- What the controller knows after it took an event.
abbrev pub know : Option DeviceEvent → Option Speed → Option Speed
know none known = known
know (some (DeviceEvent.connected speed)) known = some speed
know (some DeviceEvent.disconnected) known = none
know (some DeviceEvent.overcurrent) known = none
know (some (DeviceEvent.other code)) known = none

outlook_of : Option Speed → Option DeviceEvent → Option Speed → Option Speed
outlook_of (some speed) destructive known = some speed
outlook_of none (some event) known = none
outlook_of none none known = known

pub outlook : PendingEvents → Option Speed → Option Speed
outlook events known = outlook_of events.connected events.destructive known

pub outlook-none : (known : Option Speed) → outlook no_events known ≡ known
unfolding outlook outlook_of
outlook-none known = refl

-- An event that ends a connection, or none.
is_loss : Option DeviceEvent → Bool
is_loss none = true
is_loss (some (DeviceEvent.connected speed)) = false
is_loss (some DeviceEvent.disconnected) = true
is_loss (some DeviceEvent.overcurrent) = true
is_loss (some (DeviceEvent.other code)) = true

pub HasLosses : PendingEvents → Type 0
HasLosses events = is_loss events.destructive ≡ true

pub no_events-HasLosses : HasLosses no_events
unfolding HasLosses is_loss
no_events-HasLosses = refl

pub push-HasLosses :
    (event : DeviceEvent) (events : PendingEvents)
    → HasLosses events
    → HasLosses (push event events)
unfolding HasLosses push push_destructive is_loss
push-HasLosses (DeviceEvent.connected speed) events h = h
push-HasLosses DeviceEvent.overcurrent events h = refl
push-HasLosses DeviceEvent.disconnected events h =
    elim (Bool-cases (is_overcurrent events.destructive)) [ inl e ↦ rw e h | inr e ↦ rw e refl ]
push-HasLosses (DeviceEvent.other code) events h =
    elim (Bool-cases (is_overcurrent events.destructive)) [ inl e ↦ rw e h | inr e ↦ rw e refl ]

take_from-HasLosses : (d : Option DeviceEvent) (c : Option Speed) → HasLosses (take_from d c).1
unfolding HasLosses take_from is_loss
take_from-HasLosses (some event) c = refl
take_from-HasLosses none (some speed) = refl
take_from-HasLosses none none = refl

pub take-HasLosses : (events : PendingEvents) → HasLosses (take events).1
unfolding take
take-HasLosses events = take_from-HasLosses events.destructive events.connected

-- A push changes the outlook as its event would change what the controller knows.
pub outlook-push :
    (event : DeviceEvent) (events : PendingEvents) (known : Option Speed)
    → outlook (push event events) known ≡ know (some event) known
unfolding outlook outlook_of push push_destructive
outlook-push (DeviceEvent.connected speed) events known = refl
outlook-push DeviceEvent.overcurrent events known = refl
outlook-push DeviceEvent.disconnected events known =
    elim (Bool-cases (is_overcurrent events.destructive)) [
      | inl e ↦ rw e (rw (overcurrent_lem events.destructive e) refl)
      | inr e ↦ rw e refl
    ]
outlook-push (DeviceEvent.other code) events known =
    elim (Bool-cases (is_overcurrent events.destructive)) [
      | inl e ↦ rw e (rw (overcurrent_lem events.destructive e) refl)
      | inr e ↦ rw e refl
    ]

outlook-take_from :
    (d : Option DeviceEvent) (c : Option Speed) (known : Option Speed)
    → is_loss d ≡ true
    → outlook (take_from d c).1 (know (take_from d c).0 known) ≡ outlook_of c d known
unfolding outlook outlook_of take_from is_loss
outlook-take_from none none known h = refl
outlook-take_from none (some speed) known h = refl
outlook-take_from (some (DeviceEvent.connected speed)) c known h = cc
outlook-take_from (some DeviceEvent.disconnected) none known h = refl
outlook-take_from (some DeviceEvent.disconnected) (some speed) known h = refl
outlook-take_from (some DeviceEvent.overcurrent) none known h = refl
outlook-take_from (some DeviceEvent.overcurrent) (some speed) known h = refl
outlook-take_from (some (DeviceEvent.other code)) none known h = refl
outlook-take_from (some (DeviceEvent.other code)) (some speed) known h = refl

-- Taking an event leaves the outlook as it was.
pub outlook-take :
    (events : PendingEvents) (known : Option Speed)
    → HasLosses events
    → outlook (take events).1 (know (take events).0 known) ≡ outlook events known
unfolding HasLosses outlook take
outlook-take events known h = outlook-take_from events.destructive events.connected known h
