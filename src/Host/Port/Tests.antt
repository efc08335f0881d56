-- ===== src/Host/Port/Tests.antt =====
-- A pipe of a port that is disconnected and connected again.
use embassy_rp_pio_usb_host.Common.{◌≡◌, true, some, ok, [], ◌∷◌, arith}
use embassy_rp_pio_usb_host.Host.Types.{Speed}
use embassy_rp_pio_usb_host.Host.Port.{PortState, check_valid, ticket}
use embassy_rp_pio_usb_host.Host.Port.Stale.{PortChange, after_changes, check_valid-stale}

abbrev attached : PortState
attached = record {
  connected = true;
  speed = some Speed.full;
  connection_generation = 4294967295;
  reset_generation = 7;
}

check_valid-stale_example :
    check_valid
      (ticket 0 attached)
      (after_changes attached (PortChange.bus_reset ∷ PortChange.bus_reset ∷ []))
    ≡ ok tt
check_valid-stale_example =
    check_valid-stale attached (PortChange.bus_reset ∷ PortChange.bus_reset ∷ []) 0
      (record { connection_u32 = omega arith; reset_u32 = omega arith }) (omega arith) (omega arith)
