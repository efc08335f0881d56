-- ===== src/Host/Port/Stale.antt =====
-- Which pipes stay valid through connections, disconnections and bus resets.
use embassy_rp_pio_usb_host.Common.{
  ℕ, ◌+◌, ◌%◌, ◌^◌, ◌<◌, ◌≡◌, ◌≢◌, inl, inr, List, [], ◌∷◌, ok, err, arith, refl, not, ◌||◌, ◌&&◌,
  ltb, ◌==◌, if◌then◌else◌, Bool-cases,
}
use embassy_rp_pio_usb_host.Host.Types.{Speed, PipeError}
use embassy_rp_pio_usb_host.Host.Port.{
  PortState, after_connection, after_disconnection, after_bus_reset, check_valid, ticket,
}

-- What can happen to the port.
pub data PortChange : Type 0 where
  connection : Speed → PortChange
  disconnection bus_reset : PortChange

pub change : PortState → PortChange → PortState
change p (PortChange.connection speed) = after_connection p speed
change p PortChange.disconnection = after_disconnection p
change p PortChange.bus_reset = after_bus_reset p

-- The changes of a history, newest first.
pub after_changes : PortState → List PortChange → PortState
after_changes p [] = p
after_changes p (c ∷ cs) = change (after_changes p cs) c

-- How many changes of a history move the connection's generation.
abbrev pub connections : List PortChange → ℕ
connections [] = 0
connections (PortChange.bus_reset ∷ cs) = connections cs
connections (PortChange.connection speed ∷ cs) = connections cs + 1
connections (PortChange.disconnection ∷ cs) = connections cs + 1

-- How many move the generation of the bus reset.
abbrev pub resets : List PortChange → ℕ
resets [] = 0
resets (PortChange.disconnection ∷ cs) = resets cs
resets (PortChange.connection speed ∷ cs) = resets cs + 1
resets (PortChange.bus_reset ∷ cs) = resets cs + 1

-- The generations of a port are machine words.
pub record IsPort (p : PortState) : Type 0 where
  pub connection_u32 : p.connection_generation < 2 ^ 32
  pub reset_u32 : p.reset_generation < 2 ^ 32

generation_lem :
    (p : PortState) (cs : List PortChange)
    → IsPort p
    → ((after_changes p cs).connection_generation
        ≡ (p.connection_generation + connections cs) % 2 ^ 32)
      × ((after_changes p cs).reset_generation ≡ (p.reset_generation + resets cs) % 2 ^ 32)
unfolding after_changes change after_connection after_disconnection after_bus_reset
generation_lem p [] w = omega (arith, w.connection_u32, w.reset_u32)
generation_lem p (PortChange.connection speed ∷ cs) w = omega (arith, generation_lem p cs w)
generation_lem p (PortChange.disconnection ∷ cs) w = omega (arith, generation_lem p cs w)
generation_lem p (PortChange.bus_reset ∷ cs) w = omega (arith, generation_lem p cs w)

still_connected :
    (p : PortState) (cs : List PortChange)
    → connections cs ≡ 0
    → (after_changes p cs).connected ≡ p.connected
unfolding after_changes change after_bus_reset
still_connected p [] h = refl
still_connected p (PortChange.connection speed ∷ cs) h = absurd (omega arith)
still_connected p (PortChange.disconnection ∷ cs) h = absurd (omega arith)
still_connected p (PortChange.bus_reset ∷ cs) h = still_connected p cs h

-- After any history of fewer than 2^32 changes of each generation, a pipe made in port state `p` is
-- disconnected exactly if the port was not connected when the pipe was made, or a connection or
-- disconnection happened since, or, for a device address other than zero, a bus reset or a new
-- connection; it is valid otherwise. So a pipe for address zero survives bus resets.
pub check_valid-stale :
    (p : PortState) (cs : List PortChange) (device_address : ℕ)
    → IsPort p
    → connections cs < 2 ^ 32
    → resets cs < 2 ^ 32
    → check_valid (ticket device_address p) (after_changes p cs) ≡ (
        if not p.connected
          || ltb 0 (connections cs)
          || (not (device_address == 0) && ltb 0 (resets cs))
        then err PipeError.disconnected
        else ok tt)
unfolding check_valid
check_valid-stale p cs device_address w few_c few_r =
    let q = after_changes p cs in
    elim (Bool-cases (ltb 0 (connections cs))) [
      | inl some_connection ↦
          let some : 0 < connections cs = ground arith in
          let moved : q.connection_generation ≢ p.connection_generation =
            omega (arith, generation_lem p cs w, w.connection_u32) in
          ground arith
      | inr no_connection ↦
          let none : connections cs ≡ 0 = ground arith in
          let same_c : q.connection_generation ≡ p.connection_generation =
            omega (arith, generation_lem p cs w, w.connection_u32) in
          let same : q.connected ≡ p.connected = still_connected p cs none in
          elim (Bool-cases (ltb 0 (resets cs))) [
            | inl some_reset ↦
                let some : 0 < resets cs = ground arith in
                let moved : q.reset_generation ≢ p.reset_generation =
                  omega (arith, generation_lem p cs w, w.reset_u32) in
                ground arith
            | inr no_reset ↦
                let none : resets cs ≡ 0 = ground arith in
                let same_r : q.reset_generation ≡ p.reset_generation =
                  omega (arith, generation_lem p cs w, w.reset_u32) in
                ground arith
          ]
    ]
