-- ===== src/Host/Pipe.antt =====
-- pio_host.rs: the transfers of `PioHostPipe` on a bulk, interrupt or isochronous endpoint. Each pass
-- through a retry loop reads the shared port three times, before and after it waits for the engine and
-- after the transaction: the passes are a list of such readings, and a loop that comes to the end of
-- the list is still waiting. The world is what the engine and the device change.
mod Tests
pub mod In
pub mod Control
pub mod Retry
pub mod Ends
pub mod Packets
pub mod Transfer
use embassy_rp_pio_usb_host.Common.{
  ℕ, zero, suc, ◌+◌, ◌-◌, ◌*◌, ◌/◌, ◌%◌, Bool, true, false, ◌&&◌, List, [], ◌∷◌, Result, ok, err,
  ◌>>=◌, ◌>>◌, leb, ◌==◌, if◌then◌else◌, Bytes, length, take, drop,
}
use embassy_rp_pio_usb_host.Wire.Toggle.{DataToggle}
use embassy_rp_pio_usb_host.Host.Types.{PipeError, EndpointType}
use embassy_rp_pio_usb_host.Host.Port.{PortState, PipeTicket, check_valid}

pub data TransactionOutcome {ℓ} (A : Type ℓ) : Type ℓ where
  complete : A → TransactionOutcome A
  nak no_response : TransactionOutcome A

-- `NON_RESPONSE_RETRY_LIMIT`
abbrev pub non_response_retry_limit : ℕ
non_response_retry_limit = 128

pub record Readings : Type 0 where
  pub before : PortState
  pub locked : PortState
  pub after : PortState

-- A transaction's result, with the data toggle and the world after it.
pub record Answer {ℓ κ} (A : Type ℓ) (S : Type κ) : Type (ℓ ⊔ κ) where
  pub result : Result PipeError (TransactionOutcome A)
  pub toggle : DataToggle
  pub world : S

-- One of `request_in_once` and `request_out_once`, as a pipe calls it.
abbrev pub Once {ℓ κ} : Type ℓ → Type κ → Type (ℓ ⊔ κ)
Once A S = DataToggle → S → Answer A S

-- What a loop does with a result: leave, or go on with this count of missing responses.
pub data Verdict {ℓ} (A : Type ℓ) : Type ℓ where
  stop : Result PipeError A → Verdict A
  again : ℕ → Verdict A

abbrev pub missed {ℓ} : {A : Type ℓ} → ℕ → Verdict A
missed no_response_count =
    if leb non_response_retry_limit (suc no_response_count)
    then Verdict.stop (err PipeError.timeout)
    else Verdict.again (suc no_response_count)

-- The `match` of `request_out`.
pub judge_out {ℓ} : {A : Type ℓ} → ℕ → Result PipeError (TransactionOutcome A) → Verdict A
judge_out count (err e) = Verdict.stop (err e)
judge_out count (ok (TransactionOutcome.complete a)) = Verdict.stop (ok a)
judge_out count (ok TransactionOutcome.nak) = Verdict.again 0
judge_out count (ok TransactionOutcome.no_response) = missed count

-- How far a transfer is.
pub data Progress {ℓ} (A : Type ℓ) : Type ℓ where
  done : Result PipeError A → Progress A
  waiting : Progress A

pub record Turn {ℓ κ} (A : Type ℓ) (S : Type κ) : Type (ℓ ⊔ κ) where
  pub progress : Progress A
  pub toggle : DataToggle
  pub world : S
  pub passes : List Readings

module _ {κ} {S : Type κ} (pipe : PipeTicket) (service_frame : S → S) where
  attempted {ℓ} :
      {A : Type ℓ}
      → Result PipeError (Unit {0})
      → Result PipeError (Unit {0})
      → DataToggle
      → S
      → Answer A S
      → Answer A S
  attempted (err e) after toggle world answer = record {
    result = err e;
    toggle = toggle;
    world = world;
  }
  attempted (ok _) (err e) toggle world answer = record {
    result = err e;
    toggle = answer.toggle;
    world = service_frame answer.world;
  }
  attempted (ok _) (ok _) toggle world answer = record {
    result = answer.result;
    toggle = answer.toggle;
    world = service_frame answer.world;
  }

  -- One pass: the checks, the transaction, and the engine's service of the frame.
  pub attempt {ℓ} : {A : Type ℓ} → Once A S → Readings → Once A S
  attempt once port toggle world =
      attempted (check_valid pipe port.before >> check_valid pipe port.locked)
        (check_valid pipe port.after) toggle world (once toggle world)

  resume {ℓ} : {A : Type ℓ} → Verdict A → Answer A S → List Readings → (ℕ → Turn A S) → Turn A S
  resume (Verdict.stop result) answer passes rest = record {
    progress = Progress.done result;
    toggle = answer.toggle;
    world = answer.world;
    passes = passes;
  }
  resume (Verdict.again next) answer passes rest = rest next

  -- The loop around a transaction.
  pub retry {ℓ} :
      {A : Type ℓ}
      → (ℕ → Result PipeError (TransactionOutcome A) → Verdict A)
      → Once A S
      → List Readings
      → ℕ
      → DataToggle
      → S
      → Turn A S
  retry judge once [] count toggle world = record {
    progress = Progress.waiting;
    toggle = toggle;
    world = world;
    passes = [];
  }
  retry judge once (port ∷ passes) count toggle world =
      let answer = attempt once port toggle world in
      resume (judge count answer.result) answer passes
        (λ next. retry judge once passes next answer.toggle answer.world)

  follow : Progress (Unit {0}) → Turn (Unit {0}) S → Turn (Unit {0}) S → Turn (Unit {0}) S
  follow (Progress.done (ok _)) turn rest = rest
  follow (Progress.done (err e)) turn rest = turn
  follow Progress.waiting turn rest = turn

  -- The packets of an OUT transfer, one after the other; `once` is `request_out_once`.
  pub send_packets :
      (Bytes → Once (Unit {0}) S) → List Bytes → List Readings → DataToggle → S → Turn (Unit {0}) S
  send_packets once [] passes toggle world = record {
    progress = Progress.done (ok tt);
    toggle = toggle;
    world = world;
    passes = passes;
  }
  send_packets once (packet ∷ packets) passes toggle world =
      let turn = retry judge_out (once packet) passes 0 toggle world in
      follow turn.progress turn (send_packets once packets turn.passes turn.toggle turn.world)

-- `data[start..end]` of one packet of `request_out`.
pub out_packet : Bytes → ℕ → ℕ → Bytes
out_packet data_bytes max_packet_size packet_index =
    take max_packet_size (drop (packet_index * max_packet_size) data_bytes)

-- The packets from an index on.
pub out_packets_from : Bytes → ℕ → ℕ → ℕ → List Bytes
out_packets_from data_bytes max_packet_size packet_index zero = []
out_packets_from data_bytes max_packet_size packet_index (suc left) =
    out_packet data_bytes max_packet_size packet_index
    ∷ out_packets_from data_bytes max_packet_size (suc packet_index) left

-- `packet_count`, with `div_ceil` and `is_multiple_of` written out.
pub packet_count : ℕ → ℕ → Bool → ℕ
packet_count len max_packet_size ensure_transaction_end =
    let data_packet_count = (len + (max_packet_size - 1)) / max_packet_size in
    if len == 0
    then 1
    else if ensure_transaction_end && (len % max_packet_size == 0)
    then data_packet_count + 1
    else data_packet_count

pub out_packets : Bytes → ℕ → Bool → List Bytes
out_packets data_bytes max_packet_size ensure_transaction_end =
    out_packets_from data_bytes max_packet_size 0
      (packet_count (length data_bytes) max_packet_size ensure_transaction_end)

unfoldable pub request_out {κ} :
    {S : Type κ}
    → PipeTicket
    → (S → S)
    → (Bytes → Once (Unit {0}) S)
    → ℕ
    → Bytes
    → Bool
    → List Readings
    → DataToggle
    → S
    → Turn (Unit {0}) S
request_out pipe service_frame once max_packet_size data_bytes ensure_transaction_end passes =
    send_packets pipe service_frame once
      (out_packets data_bytes max_packet_size ensure_transaction_end) passes
