-- ===== src/Host/Pipe/Ends.antt =====
-- When an OUT transfer ends: the loop over its packets, and how many passes it can take.
use embassy_rp_pio_usb_host.Common.{
  ℕ, ◌≤◌, ◌≡◌, ◌≢◌, Bool, List, [], ◌∷◌, Result, ok, err, length, arith, refl, ap, ◌∙◌, ◌*◌, Bytes,
  Result-cases, inl, inr,
}
use embassy_rp_pio_usb_host.Wire.Toggle.{DataToggle}
use embassy_rp_pio_usb_host.Host.Types.{PipeError}
use embassy_rp_pio_usb_host.Host.Port.{PipeTicket}
use embassy_rp_pio_usb_host.Host.Pipe.{
  non_response_retry_limit, Readings, Turn, Once, judge_out, Progress, retry, follow, send_packets,
  out_packets, request_out,
}
use embassy_rp_pio_usb_host.Host.Pipe.Retry.{IsBrisk, retry_ends, judge_out-Counts}

module _ {κ} {S : Type κ} (pipe : PipeTicket) (service_frame : S → S) where
  follow_lem :
      (progress : Progress (Unit {0})) (turn rest : Turn (Unit {0}) S)
      → progress ≢ Progress.done (ok tt)
      → follow pipe service_frame progress turn rest ≡ turn
  unfolding follow
  follow_lem (Progress.done (ok tt)) turn rest h = absurd (h refl)
  follow_lem (Progress.done (err e)) turn rest h = refl
  follow_lem Progress.waiting turn rest h = refl

  -- The loop of the packets, by how far the loop of the first one came.
  module _ (once : Bytes → Once (Unit {0}) S) (packet : Bytes) (packets : List Bytes)
      (passes : List Readings) (toggle : DataToggle) (world : S) where
    abbrev pub first_turn : Turn (Unit {0}) S
    first_turn = retry pipe service_frame judge_out (once packet) passes 0 toggle world

    abbrev followed : Progress (Unit {0}) → Turn (Unit {0}) S
    followed progress = follow pipe service_frame progress first_turn (
        send_packets pipe service_frame once packets first_turn.passes first_turn.toggle
          first_turn.world)

    pub send_ok :
        (u : Unit {0})
        → first_turn.progress ≡ Progress.done (ok u)
        → send_packets pipe service_frame once (packet ∷ packets) passes toggle world
          ≡ send_packets pipe service_frame once packets first_turn.passes first_turn.toggle
              first_turn.world
    unfolding send_packets follow
    send_ok u e = ap followed e

    pub send_unsent :
        first_turn.progress ≢ Progress.done (ok tt)
        → send_packets pipe service_frame once (packet ∷ packets) passes toggle world ≡ first_turn
    unfolding send_packets
    send_unsent h =
        follow_lem first_turn.progress first_turn
          (send_packets pipe service_frame once packets first_turn.passes first_turn.toggle
            first_turn.world)
          h

  send_packets_ends :
      (once : Bytes → Once (Unit {0}) S) (packets : List Bytes) (passes : List Readings)
      (toggle : DataToggle) (world : S)
      → ((packet : Bytes) → IsBrisk (once packet))
      → non_response_retry_limit * length packets ≤ length passes
      → (r : Result PipeError (Unit {0})) × ((send_packets pipe service_frame once packets passes
            toggle world).progress
          ≡ Progress.done r)
  unfolding send_packets
  send_packets_ends once [] passes toggle world b enough = (ok tt, refl)
  send_packets_ends once (packet ∷ packets) passes toggle world b enough =
      let first = first_turn once packet packets passes toggle world in
      let (r, e, used) =
        retry_ends pipe service_frame judge_out (once packet) passes 0 toggle world
          (judge_out-Counts Unit) (b packet) (omega arith) (omega arith) in
      elim (Result-cases r) [
        | inl (u, h) ↦
            rw (send_ok once packet packets passes toggle world u (e ∙ ap Progress.done h))
              (send_packets_ends once packets first.passes first.toggle first.world b (omega arith))
        | inr (error, h) ↦
            rw (send_unsent once packet packets passes toggle world (λ q. cc))
              (err error, e ∙ ap Progress.done h)
      ]

-- An OUT transfer whose transactions are never answered by NAK has ended, well or with an error, once
-- the loop has made 128 passes for each of its packets: no silence of the device makes it hang.
pub request_out-ends {κ} :
    {S : Type κ} (pipe : PipeTicket) (service_frame : S → S) (once : Bytes → Once (Unit {0}) S)
    (max_packet_size : ℕ) (data_bytes : Bytes) (ensure_transaction_end : Bool)
    (passes : List Readings) (toggle : DataToggle) (world : S)
    → ((packet : Bytes) → IsBrisk (once packet))
    → 128 * length (out_packets data_bytes max_packet_size ensure_transaction_end) ≤ length passes
    → (r : Result PipeError (Unit {0})) × ((request_out pipe service_frame once max_packet_size
          data_bytes ensure_transaction_end passes toggle world).progress
        ≡ Progress.done r)
unfolding request_out
request_out-ends pipe service_frame once max_packet_size data_bytes ensure_transaction_end passes
      toggle world =
    send_packets_ends pipe service_frame once
      (out_packets data_bytes max_packet_size ensure_transaction_end) passes toggle world
