-- ===== src/Host/Delivery/Tests.antt =====
-- Five bytes in packets of two, over a bus that loses a packet and an acknowledgement.
use embassy_rp_pio_usb_host.Common.{
  ℕ, ◌≡◌, false, ok, refl, List, [], ◌∷◌, take, replicate, arith, Bytes,
}
use embassy_rp_pio_usb_host.Wire.Toggle.{DataToggle}
use embassy_rp_pio_usb_host.Host.Types.{Speed, EndpointType, UsbDirection}
use embassy_rp_pio_usb_host.Host.Port.{PortState, PipeTicket, fresh_port, after_connection, ticket}
use embassy_rp_pio_usb_host.Host.Pipe.{Readings, Progress, out_packets}
use embassy_rp_pio_usb_host.Host.Pipe.Transfer.{IsAt}
use embassy_rp_pio_usb_host.Host.Engine.{ReceiveResult, PipeTarget}
use embassy_rp_pio_usb_host.Host.Delivery.{engine_request_out, request_out-delivers}
use embassy_rp_pio_usb_host.Host.Delivery.Bench.{
  Fault, Bench, bench_wire, bench_endpoint, bench-IsUsbOut,
}

abbrev port : PortState
port = after_connection fresh_port Speed.full

abbrev pipe : PipeTicket
pipe = ticket 1 port

abbrev target : PipeTarget
target = record {
  device_address = 1;
  endpoint = record {
    index = 2;
    direction = UsbDirection.outward;
    ep_type = EndpointType.bulk;
    max_packet_size = 2;
    interval_ms = 0;
  };
}

abbrev bench : Bench
bench = record {
  script =
      Fault.lost_packet ∷ Fault.fine ∷ Fault.lost_acknowledgement ∷ Fault.fine ∷ Fault.busy
      ∷ Fault.fine ∷ [];
  stored = [];
  next = DataToggle.data0;
  reply = ReceiveResult.no_start;
}

abbrev passes : List Readings
passes = replicate 6 (record { before = port; locked = port; after = port })

abbrev message : Bytes
message = 1 ∷ 2 ∷ 3 ∷ 4 ∷ 5 ∷ []

request_out-delivers_example :
    let more = out_packets message 2 false in
    let turn =
      engine_request_out bench_wire
        (λ b. b)
        target
        pipe
        message
        false
        passes
        DataToggle.data0
        bench in
    (turn.progress ≡ Progress.done (ok tt) → IsAt bench_endpoint turn.toggle more turn.world)
    × ((n : ℕ) × (bench_endpoint.received turn.world ≡ take n more))
request_out-delivers_example =
    request_out-delivers bench_endpoint bench_wire (λ b. b) target pipe message false passes
      DataToggle.data0 [] bench (omega arith) (bench-IsUsbOut target)
      (λ b. record { received_kept = refl; expects_kept = refl })
      (record { has = refl; wants = refl })
