-- ===== src/Host/Validate/Tests.antt =====
-- The interrupt endpoint of a low-speed keyboard.
use embassy_rp_pio_usb_host.Common.{◌≡◌, ◌≤◌, ◌↔◌, true, false, ok, is_some, AllSome}
use embassy_rp_pio_usb_host.Host.Types.{Speed, EndpointType, EndpointInfo, UsbDirection}
use embassy_rp_pio_usb_host.Host.Port.{fresh_port, after_connection, ticket, PortState}
use embassy_rp_pio_usb_host.Host.Validate.{alloc_pipe}
use embassy_rp_pio_usb_host.Host.Validate.Usb.{IsPipeEndpoint, alloc_pipe_iff}

abbrev keyboard : EndpointInfo
keyboard = record {
  index = 1;
  direction = UsbDirection.inward;
  ep_type = EndpointType.interrupt;
  max_packet_size = 8;
  interval_ms = 10;
}

abbrev attached : PortState
attached = after_connection fresh_port Speed.low

alloc_pipe_iff_example :
    (alloc_pipe EndpointType.interrupt true false attached 1 keyboard false
      ≡ ok (ticket 1 attached))
    ↔ ((attached.connected ≡ true)
        × (1 ≤ 127)
        × (false ≡ false)
        × (keyboard.ep_type ≡ EndpointType.interrupt)
        × (keyboard.index ≤ 15)
        × AllSome
            (λ speed. IsPipeEndpoint speed keyboard.ep_type true false keyboard)
            attached.speed
        × (is_some attached.speed ≡ true))
alloc_pipe_iff_example = alloc_pipe_iff EndpointType.interrupt true false attached 1 keyboard false
