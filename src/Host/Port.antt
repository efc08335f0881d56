-- ===== src/Host/Port.antt =====
-- pio_host.rs: `PortState`, its transitions, and `PioHostPipe::check_valid`.
mod Tests
pub mod Stale
use embassy_rp_pio_usb_host.Common.{
  ℕ, ◌+◌, ◌%◌, ◌^◌, Bool, true, false, not, ◌&&◌, ◌||◌, Option, none, some, Result, ok, err, ◌>>=◌,
  ◌>>◌, fail_if, ◌==◌,
}
use embassy_rp_pio_usb_host.Host.Types.{Speed, PipeError}

pub record PortState : Type 0 where
  pub connected : Bool
  pub speed : Option Speed
  pub connection_generation : ℕ  -- u32
  pub reset_generation : ℕ  -- u32

abbrev pub fresh_port : PortState
fresh_port = record {
  connected = false;
  speed = none;
  connection_generation = 0;
  reset_generation = 0;
}

-- `u32::wrapping_add(1)`
abbrev pub next_generation : ℕ → ℕ
next_generation g = (g + 1) % 2 ^ 32

unfoldable pub after_connection : PortState → Speed → PortState
after_connection p speed = record {
  connected = true;
  speed = some speed;
  connection_generation = next_generation p.connection_generation;
  reset_generation = next_generation p.reset_generation;
}

unfoldable pub after_disconnection : PortState → PortState
after_disconnection p = record {
  connected = false;
  speed = none;
  connection_generation = next_generation p.connection_generation;
  reset_generation = p.reset_generation;
}

unfoldable pub after_bus_reset : PortState → PortState
after_bus_reset p = record p { reset_generation = next_generation p.reset_generation }

-- The fields of a pipe that `check_valid` reads.
pub record PipeTicket : Type 0 where
  pub device_address : ℕ
  pub connection_generation : ℕ
  pub reset_generation : ℕ

unfoldable pub check_valid : PipeTicket → PortState → Result PipeError (Unit {0})
check_valid pipe port = do
  fail_if (not port.connected || not (port.connection_generation == pipe.connection_generation))
      PipeError.disconnected
  fail_if (not (pipe.device_address == 0) && not (port.reset_generation == pipe.reset_generation))
      PipeError.disconnected
  ok tt

-- The ticket of a pipe that `alloc_pipe` makes.
abbrev pub ticket : ℕ → PortState → PipeTicket
ticket device_address port = record {
  device_address = device_address;
  connection_generation = port.connection_generation;
  reset_generation = port.reset_generation;
}
