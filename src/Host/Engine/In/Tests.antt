-- ===== src/Host/Engine/In/Tests.antt =====
-- Transactions with a device that takes its time for an empty packet.
use embassy_rp_pio_usb_host.Common.{ℕ, ok, List, [], arith, replicate, ◌==◌, ◌+◌, if◌then◌else◌}
use embassy_rp_pio_usb_host.Wire.Toggle.{DataToggle}
use embassy_rp_pio_usb_host.Host.Types.{EndpointType, UsbDirection}
use embassy_rp_pio_usb_host.Host.Engine.{PipeTarget}
use embassy_rp_pio_usb_host.Host.Engine.Diagnostics.{InTransactionDiagnostics, no_diagnostics}
use embassy_rp_pio_usb_host.Host.Engine.In.{InReceiveResult, InWire, InEngine}
use embassy_rp_pio_usb_host.Host.Engine.In.Tally.{
  Call, IsWords, IsCounted, responses, request_in_all, request_in_all-IsCounted,
}

-- A NAK first, then nothing, then empty packets.
abbrev next_response : ℕ → InReceiveResult
next_response n =
    if n == 0
    then InReceiveResult.nak
    else if n == 1
    then InReceiveResult.no_response
    else InReceiveResult.data_in []

abbrev slow_wire : InWire ℕ
slow_wire = record {
  start_frame = λ scheduled n. (ok tt, n);
  park_receive = λ n. (ok tt, n);
  receive_data_packet = λ token room longest expected acknowledge n. (ok (next_response n), n + 1);
}

abbrev target : PipeTarget
target = record {
  device_address = 1;
  endpoint = record {
    index = 1;
    direction = UsbDirection.inward;
    ep_type = EndpointType.interrupt;
    max_packet_size = 8;
    interval_ms = 10;
  };
}

abbrev counted : InTransactionDiagnostics
counted = record no_diagnostics { attempt_count = 3; nak_count = 2; no_response_count = 1 }

abbrev engine : InEngine ℕ
engine = record { diagnostics = counted; world = 0 }

abbrev calls : List Call
calls = replicate 3 (record { target = target; room = 8; toggle = DataToggle.data0 })

counted-IsWords : IsWords counted
unfolding IsWords
counted-IsWords = omega arith

request_in_all-IsCounted_example :
    IsCounted counted
      (responses slow_wire calls 0)
      (request_in_all slow_wire calls engine).diagnostics
request_in_all-IsCounted_example = request_in_all-IsCounted slow_wire calls engine counted-IsWords
