-- ===== src/Host/Pipe/Tests.antt =====
-- A device that never answers, and the packets of a transfer.
use embassy_rp_pio_usb_host.Common.{
  ℕ, ◌+◌, ◌≡◌, true, Result, ok, refl, List, [], ◌∷◌, length, replicate, arith, Bytes,
}
use embassy_rp_pio_usb_host.Wire.Toggle.{DataToggle}
use embassy_rp_pio_usb_host.Host.Types.{Speed, PipeError}
use embassy_rp_pio_usb_host.Host.Port.{PortState, fresh_port, after_connection, ticket}
use embassy_rp_pio_usb_host.Host.Pipe.{
  TransactionOutcome, Readings, Once, Progress, out_packet, out_packets_from, packet_count,
  out_packets, request_out,
}
use embassy_rp_pio_usb_host.Host.Pipe.Retry.{IsBrisk}
use embassy_rp_pio_usb_host.Host.Pipe.Ends.{request_out-ends}
use embassy_rp_pio_usb_host.Host.Pipe.Packets.{concat, IsCut, out_packets-IsCut}

abbrev port : PortState
port = after_connection fresh_port Speed.full

abbrev silent : Bytes → Once (Unit {0}) ℕ
silent packet toggle world = record {
  result = ok TransactionOutcome.no_response;
  toggle = toggle;
  world = world + 1;
}

silent-IsBrisk : (packet : Bytes) → IsBrisk (silent packet)
unfolding IsBrisk
silent-IsBrisk packet toggle world = λ e. cc

abbrev passes : List Readings
passes = replicate 128 (record { before = port; locked = port; after = port })

one_packet : length (out_packets (1 ∷ 2 ∷ []) 8 true) ≡ 1
unfolding out_packets out_packets_from packet_count out_packet
one_packet = refl

request_out-ends_example :
    (r : Result PipeError (Unit {0})) × ((request_out
        (ticket 1 port)
        (λ n. n)
        silent
        8
        (1 ∷ 2 ∷ [])
        true
        passes
        DataToggle.data0
        0).progress
      ≡ Progress.done r)
request_out-ends_example =
    request_out-ends (ticket 1 port) (λ n. n) silent 8 (1 ∷ 2 ∷ []) true passes DataToggle.data0 0
      silent-IsBrisk (omega (arith, one_packet))

out_packets-IsCut_example :
    (concat (out_packets (1 ∷ 2 ∷ 3 ∷ 4 ∷ []) 2 true) ≡ 1 ∷ 2 ∷ 3 ∷ 4 ∷ [])
    × IsCut 2 true 4 (out_packets (1 ∷ 2 ∷ 3 ∷ 4 ∷ []) 2 true)
out_packets-IsCut_example = out_packets-IsCut (1 ∷ 2 ∷ 3 ∷ 4 ∷ []) 2 true (omega arith)
