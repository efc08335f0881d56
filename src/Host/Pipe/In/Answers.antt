-- ===== src/Host/Pipe/In/Answers.antt =====
-- The passes of an IN transfer that ends well, and the packets that its transactions log.
use embassy_rp_pio_usb_host.Common.{
  ℕ, suc, ◌-◌, ◌+◌, ◌≤◌, ◌<◌, ◌≡◌, true, false, List, [], ◌∷◌, ◌++◌, Result, ok, err, ◌>>◌, Bytes,
  length, refl, ap, ◌∙◌,
}
use embassy_rp_pio_usb_host.Wire.Toggle.{DataToggle}
use embassy_rp_pio_usb_host.Host.Types.{PipeError, EndpointType}
use embassy_rp_pio_usb_host.Host.Port.{PipeTicket, check_valid}
use embassy_rp_pio_usb_host.Host.Pipe.{
  TransactionOutcome, Readings, Answer, Once, non_response_retry_limit, attempted, attempt,
}
use embassy_rp_pio_usb_host.Host.Pipe.In.{is_isochronous, is_last}

module _ {κ} {S : Type κ} (log : S → List Bytes) where
  -- A transaction that completes logs its packet, one that is to be tried again logs nothing.
  pub record IsLogged (once : ℕ → Once Bytes S) : Type κ where
    pub completes :
        (room : ℕ) (toggle : DataToggle) (world : S) (packet : Bytes)
        → (once room toggle world).result ≡ ok (TransactionOutcome.complete packet)
        → log (once room toggle world).world ≡ log world ++ (packet ∷ [])
    pub refuses :
        (room : ℕ) (toggle : DataToggle) (world : S)
        → (once room toggle world).result ≡ ok TransactionOutcome.nak
        → log (once room toggle world).world ≡ log world
    pub misses :
        (room : ℕ) (toggle : DataToggle) (world : S)
        → (once room toggle world).result ≡ ok TransactionOutcome.no_response
        → log (once room toggle world).world ≡ log world

  module _ (pipe : PipeTicket) (service_frame : S → S)
      (keeps : (world : S) → log (service_frame world) ≡ log world) where
    -- A pass that gives an outcome made its transaction, and the frame's service.
    attempted_lem :
        (before after : Result PipeError (Unit {0})) (toggle : DataToggle) (world : S)
        (answer : Answer Bytes S) (outcome : TransactionOutcome Bytes)
        → (attempted pipe service_frame before after toggle world answer).result ≡ ok outcome
        → (answer.result ≡ ok outcome)
          × ((attempted pipe service_frame before after toggle world answer).world
              ≡ service_frame answer.world)
    unfolding attempted
    attempted_lem (err e) after toggle world answer outcome h = cc
    attempted_lem (ok _) (err e) toggle world answer outcome h = cc
    attempted_lem (ok _) (ok _) toggle world answer outcome h = (h, refl)

    pub attempt_lem :
        (once : Once Bytes S) (port : Readings) (toggle : DataToggle) (world : S)
        (outcome : TransactionOutcome Bytes)
        → (attempt pipe service_frame once port toggle world).result ≡ ok outcome
        → ((once toggle world).result ≡ ok outcome)
          × (log (attempt pipe service_frame once port toggle world).world
              ≡ log (once toggle world).world)
    unfolding attempt
    attempt_lem once port toggle world outcome h =
        let (r, w) =
          attempted_lem (check_valid pipe port.before >> check_valid pipe port.locked)
            (check_valid pipe port.after) toggle world (once toggle world) outcome h in
        (r, ap log w ∙ keeps (once toggle world).world)

module _ {κ} {S : Type κ} (pipe : PipeTicket) (service_frame : S → S) (ep_type : EndpointType)
    (max_packet_size buffer_len : ℕ) (once : ℕ → Once Bytes S) where
  abbrev pub tried : Readings → Bytes → DataToggle → S → Answer Bytes S
  tried port received toggle world =
      attempt pipe service_frame (once (buffer_len - length received)) port toggle world

  -- The passes of a transfer, from a count of missing responses and the bytes received so far, and
  -- the packets that they take in. An endpoint that is not isochronous is tried again after a NAK,
  -- and without an answer up to the limit; a packet that fits is taken in, until the last one.
  pub data Answers : List Readings → ℕ → Bytes → DataToggle → S → List Bytes → Type κ where
    refused :
        {port : Readings} {passes : List Readings} {count : ℕ} {received : Bytes}
        {toggle : DataToggle} {world : S} {packets : List Bytes}
        → is_isochronous ep_type ≡ false
        → (tried port received toggle world).result ≡ ok TransactionOutcome.nak
        → Answers passes 0 received
            (tried port received toggle world).toggle
            (tried port received toggle world).world
            packets
        → Answers (port ∷ passes) count received toggle world packets
    unanswered :
        {port : Readings} {passes : List Readings} {count : ℕ} {received : Bytes}
        {toggle : DataToggle} {world : S} {packets : List Bytes}
        → is_isochronous ep_type ≡ false
        → (tried port received toggle world).result ≡ ok TransactionOutcome.no_response
        → suc count < non_response_retry_limit
        → Answers passes
            (suc count)
            received
            (tried port received toggle world).toggle
            (tried port received toggle world).world
            packets
        → Answers (port ∷ passes) count received toggle world packets
    more :
        {port : Readings} {passes : List Readings} {count : ℕ} {received : Bytes}
        {toggle : DataToggle} {world : S} {packets : List Bytes}
        → (packet : Bytes)
        → (tried port received toggle world).result ≡ ok (TransactionOutcome.complete packet)
        → length received + length packet ≤ buffer_len
        → is_last ep_type max_packet_size buffer_len (received ++ packet) packet ≡ false
        → Answers passes 0
            (received ++ packet)
            (tried port received toggle world).toggle
            (tried port received toggle world).world
            packets
        → Answers (port ∷ passes) count received toggle world (packet ∷ packets)
    last :
        {port : Readings} {passes : List Readings} {count : ℕ} {received : Bytes}
        {toggle : DataToggle} {world : S}
        → (packet : Bytes)
        → (tried port received toggle world).result ≡ ok (TransactionOutcome.complete packet)
        → length received + length packet ≤ buffer_len
        → is_last ep_type max_packet_size buffer_len (received ++ packet) packet ≡ true
        → Answers (port ∷ passes) count received toggle world (packet ∷ [])
