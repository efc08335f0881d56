-- ===== src/Host/Pipe/In/Tests.antt =====
-- Two packets of an endpoint for packets of two bytes, with a NAK between them.
use embassy_rp_pio_usb_host.Common.{
  ℕ, ◌≡◌, ◌≤◌, ◌↔◌, ◌++◌, Option, none, some, List, [], ◌∷◌, ok, Bytes, refl, ap, replicate, arith,
}
use embassy_rp_pio_usb_host.Wire.Toggle.{DataToggle}
use embassy_rp_pio_usb_host.Host.Types.{Speed, EndpointType}
use embassy_rp_pio_usb_host.Host.Port.{
  PortState, PipeTicket, fresh_port, after_connection, ticket, check_valid,
}
use embassy_rp_pio_usb_host.Host.Pipe.{
  TransactionOutcome, Readings, Answer, Once, Progress, attempt, attempted,
}
use embassy_rp_pio_usb_host.Host.Pipe.Packets.{concat}
use embassy_rp_pio_usb_host.Host.Pipe.In.{
  judge_in, is_last, in_verdict, request_in_from, request_in,
}
use embassy_rp_pio_usb_host.Host.Pipe.In.Answers.{IsLogged, Answers}
use embassy_rp_pio_usb_host.Host.Pipe.In.Collect.{request_in-collects}

-- What the device answers next, and the packets that were accepted.
record Desk : Type 0 where
  script : List (Option Bytes)
  accepted : List Bytes

answer : DataToggle → List (Option Bytes) → Desk → Answer Bytes Desk
answer toggle [] desk = record {
  result = ok TransactionOutcome.no_response;
  toggle = toggle;
  world = desk;
}
answer toggle (none ∷ script) desk = record {
  result = ok TransactionOutcome.nak;
  toggle = toggle;
  world = record desk { script = script };
}
answer toggle (some packet ∷ script) desk = record {
  result = ok (TransactionOutcome.complete packet);
  toggle = toggle;
  world = record { script = script; accepted = desk.accepted ++ (packet ∷ []) };
}

once : ℕ → Once Bytes Desk
once room toggle desk = answer toggle desk.script desk

answer_completes :
    (toggle : DataToggle) (script : List (Option Bytes)) (desk : Desk) (packet : Bytes)
    → (answer toggle script desk).result ≡ ok (TransactionOutcome.complete packet)
    → (answer toggle script desk).world.accepted ≡ desk.accepted ++ (packet ∷ [])
unfolding answer
answer_completes toggle [] desk packet h = absurd (ground arith)
answer_completes toggle (none ∷ script) desk packet h = absurd (ground arith)
answer_completes toggle (some p ∷ script) desk packet h =
    let same : p ≡ packet = ground arith in ap (λ (q : Bytes). desk.accepted ++ (q ∷ [])) same

answer_refuses :
    (toggle : DataToggle) (script : List (Option Bytes)) (desk : Desk)
    → (answer toggle script desk).result ≡ ok TransactionOutcome.nak
    → (answer toggle script desk).world.accepted ≡ desk.accepted
unfolding answer
answer_refuses toggle [] desk h = refl
answer_refuses toggle (none ∷ script) desk h = refl
answer_refuses toggle (some p ∷ script) desk h = absurd (ground arith)

answer_misses :
    (toggle : DataToggle) (script : List (Option Bytes)) (desk : Desk)
    → (answer toggle script desk).result ≡ ok TransactionOutcome.no_response
    → (answer toggle script desk).world.accepted ≡ desk.accepted
unfolding answer
answer_misses toggle [] desk h = refl
answer_misses toggle (none ∷ script) desk h = refl
answer_misses toggle (some p ∷ script) desk h = absurd (ground arith)

once-IsLogged : IsLogged (λ (desk : Desk). desk.accepted) once
unfolding once
once-IsLogged = record {
  completes = λ room toggle desk packet. answer_completes toggle desk.script desk packet;
  refuses = λ room toggle desk. answer_refuses toggle desk.script desk;
  misses = λ room toggle desk. answer_misses toggle desk.script desk;
}

abbrev port : PortState
port = after_connection fresh_port Speed.full

abbrev pipe : PipeTicket
pipe = ticket 1 port

abbrev desk : Desk
desk = record { script = some (1 ∷ 2 ∷ []) ∷ none ∷ some (3 ∷ []) ∷ []; accepted = [] }

abbrev passes : List Readings
passes = replicate 4 (record { before = port; locked = port; after = port })

abbrev received : Bytes
received = 1 ∷ 2 ∷ 3 ∷ []

abbrev idle : Desk → Desk
idle d = d

request_in-collects_example :
    (request_in pipe idle EndpointType.bulk 2 8 once passes DataToggle.data0 desk).progress
      ≡ Progress.done (ok received)
    ↔ ((packets : List Bytes) × Answers pipe idle EndpointType.bulk 2 8 once passes 0 []
          DataToggle.data0 desk packets
        × (received ≡ concat packets)
        × ((request_in pipe idle EndpointType.bulk 2 8 once passes DataToggle.data0
              desk).world.accepted
            ≡ [] ++ packets)
        × (3 ≤ 8))
request_in-collects_example =
    request_in-collects (λ (d : Desk). d.accepted) pipe idle (λ d. refl) EndpointType.bulk 2 8 once
      once-IsLogged passes DataToggle.data0 desk received (omega arith)

-- The script ends well: the device answers so.
request_in_done :
    (request_in pipe idle EndpointType.bulk 2 8 once passes DataToggle.data0 desk).progress
    ≡ Progress.done (ok received)
unfolding request_in request_in_from in_verdict judge_in is_last once answer attempt attempted
    check_valid after_connection
request_in_done = refl
