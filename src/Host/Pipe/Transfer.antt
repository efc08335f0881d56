-- ===== src/Host/Pipe/Transfer.antt =====
-- What an OUT transfer delivers, over any transaction that settles as one with a USB endpoint does.
use mathlib.Core.List.{append-nil, append_assoc}
use embassy_rp_pio_usb_host.Common.{
  ℕ, suc, ◌≡◌, ◌≢◌, List, [], ◌∷◌, ◌++◌, Result, ok, err, ◌>>◌, take, refl, sym, ap, subst, ◌∙◌,
  ◌⊎◌, inl, inr, All, Bytes, IsBytes, Bool-cases, leb,
}
use embassy_rp_pio_usb_host.Wire.Toggle.{DataToggle, after_ack}
use embassy_rp_pio_usb_host.Host.Types.{PipeError}
use embassy_rp_pio_usb_host.Host.Port.{PipeTicket, check_valid}
use embassy_rp_pio_usb_host.Host.Pipe.{
  TransactionOutcome, Readings, Turn, Answer, Once, Verdict, judge_out, Progress, attempted,
  attempt, retry, send_packets, non_response_retry_limit,
}
use embassy_rp_pio_usb_host.Host.Pipe.Retry.{retry_stop, retry_again}
use embassy_rp_pio_usb_host.Host.Pipe.Ends.{first_turn, send_ok, send_unsent}

-- What the device has received, and the toggle that it expects next.
pub record Endpoint {κ} (S : Type κ) : Type κ where
  pub received : S → List Bytes
  pub expects : S → DataToggle

module _ {κ} {S : Type κ} (device : Endpoint S) where
  -- The device has received just these packets, and expects this toggle.
  pub record IsAt (toggle : DataToggle) (packets : List Bytes) (world : S) : Type 0 where
    pub has : device.received world ≡ packets
    pub wants : device.expects world ≡ toggle

  -- A packet is on its way: the device may have accepted it without the host's knowledge.
  unfoldable pub IsPending : DataToggle → List Bytes → Bytes → S → Type 0
  IsPending toggle packets packet world =
      IsAt toggle packets world ⊎ IsAt (after_ack toggle) (packets ++ (packet ∷ [])) world

  -- How a transaction leaves a packet: acknowledged, or still on its way.
  pub data IsSettled (toggle : DataToggle) (packets : List Bytes) (packet : Bytes)
      (answer : Answer (Unit {0}) S) : Type κ where
    delivered :
        answer.result ≡ ok (TransactionOutcome.complete tt)
        → answer.toggle ≡ after_ack toggle
        → IsAt (after_ack toggle) (packets ++ (packet ∷ [])) answer.world
        → IsSettled toggle packets packet answer
    undelivered :
        answer.result ≢ ok (TransactionOutcome.complete tt)
        → answer.toggle ≡ toggle
        → IsPending toggle packets packet answer.world
        → IsSettled toggle packets packet answer
    unreported :
        (error : PipeError)
        → answer.result ≡ err error
        → IsPending toggle packets packet answer.world
        → IsSettled toggle packets packet answer

  -- How the loop of one packet ends.
  data IsSent (toggle : DataToggle) (packets : List Bytes) (packet : Bytes)
      (turn : Turn (Unit {0}) S) : Type κ where
    sent :
        turn.progress ≡ Progress.done (ok tt)
        → IsAt turn.toggle (packets ++ (packet ∷ [])) turn.world
        → IsSent toggle packets packet turn
    unsent :
        turn.progress ≢ Progress.done (ok tt)
        → IsPending toggle packets packet turn.world
        → IsSent toggle packets packet turn

  -- A verdict on an undelivered packet is an error, or another pass.
  judge_lem :
      (count : ℕ) (r : Result PipeError (TransactionOutcome (Unit {0})))
      → r ≢ ok (TransactionOutcome.complete tt)
      → ((e : PipeError) × (judge_out count r ≡ Verdict.stop (err e)))
        ⊎ ((next : ℕ) × (judge_out count r ≡ Verdict.again next))
  unfolding judge_out
  judge_lem count (err e) h = inl (e, refl)
  judge_lem count (ok (TransactionOutcome.complete tt)) h = absurd (h refl)
  judge_lem count (ok TransactionOutcome.nak) h = inr (0, refl)
  judge_lem count (ok TransactionOutcome.no_response) h =
      elim (Bool-cases (leb non_response_retry_limit (suc count))) [
        | inl e ↦ inl (PipeError.timeout, rw e refl)
        | inr e ↦ inr (suc count, rw e refl)
      ]

  -- A transfer that ends well has delivered every packet; any other has delivered the first ones.
  pub data HasSent (packets more : List Bytes) (turn : Turn (Unit {0}) S) : Type κ where
    all :
        turn.progress ≡ Progress.done (ok tt)
        → IsAt turn.toggle (packets ++ more) turn.world
        → HasSent packets more turn
    some_first :
        (n : ℕ)
        → turn.progress ≢ Progress.done (ok tt)
        → device.received turn.world ≡ packets ++ take n more
        → HasSent packets more turn

  IsPending-received :
      (toggle : DataToggle) (packets more : List Bytes) (packet : Bytes) (turn : Turn (Unit {0}) S)
      → turn.progress ≢ Progress.done (ok tt)
      → IsPending toggle packets packet turn.world
      → HasSent packets (packet ∷ more) turn
  unfolding IsPending
  IsPending-received toggle packets more packet turn h (inl at) =
      HasSent.some_first 0 h (at.has ∙ sym (append-nil packets))
  IsPending-received toggle packets more packet turn h (inr at) = HasSent.some_first 1 h at.has

  cons-HasSent :
      (packets more : List Bytes) (packet : Bytes) (turn : Turn (Unit {0}) S)
      → HasSent (packets ++ (packet ∷ [])) more turn
      → HasSent packets (packet ∷ more) turn
  cons-HasSent packets more packet turn (HasSent.all e at) =
      HasSent.all e
        (record { has = at.has ∙ append_assoc packets (packet ∷ []) more; wants = at.wants })
  cons-HasSent packets more packet turn (HasSent.some_first n h e) =
      HasSent.some_first (suc n) h (e ∙ append_assoc packets (packet ∷ []) (take n more))

  module _ (pipe : PipeTicket) (service_frame : S → S) (once : Bytes → Once (Unit {0}) S)
      (settles : (toggle : DataToggle) (packets : List Bytes) (packet : Bytes) (world : S)
        → IsBytes packet
        → IsPending toggle packets packet world
        → IsSettled toggle packets packet (once packet toggle world))
      (keeps : (toggle : DataToggle) (packets : List Bytes) (world : S)
        → IsAt toggle packets world
        → IsAt toggle packets (service_frame world)) where
    keeps_IsPending :
        (toggle : DataToggle) (packets : List Bytes) (packet : Bytes) (world : S)
        → IsPending toggle packets packet world
        → IsPending toggle packets packet (service_frame world)
    unfolding IsPending
    keeps_IsPending toggle packets packet world (inl at) = inl (keeps toggle packets world at)
    keeps_IsPending toggle packets packet world (inr at) =
        inr (keeps (after_ack toggle) (packets ++ (packet ∷ [])) world at)

    attempted-IsSettled :
        (before after : Result PipeError (Unit {0})) (toggle : DataToggle) (packets : List Bytes)
        (packet : Bytes) (world : S) (answer : Answer (Unit {0}) S)
        → IsPending toggle packets packet world
        → IsSettled toggle packets packet answer
        → IsSettled toggle packets packet
            (attempted pipe service_frame before after toggle world answer)
    unfolding attempted IsPending
    attempted-IsSettled (err e) after toggle packets packet world answer p s =
        IsSettled.unreported e refl p
    attempted-IsSettled (ok _) (err e) toggle packets packet world answer p
          (IsSettled.delivered r t at) =
        IsSettled.unreported e refl
          (inr (keeps (after_ack toggle) (packets ++ (packet ∷ [])) answer.world at))
    attempted-IsSettled (ok _) (err e) toggle packets packet world answer p
          (IsSettled.undelivered r t q) =
        IsSettled.unreported e refl (keeps_IsPending toggle packets packet answer.world q)
    attempted-IsSettled (ok _) (err e) toggle packets packet world answer p
          (IsSettled.unreported error r q) =
        IsSettled.unreported e refl (keeps_IsPending toggle packets packet answer.world q)
    attempted-IsSettled (ok _) (ok _) toggle packets packet world answer p
          (IsSettled.delivered r t at) =
        IsSettled.delivered r t
          (keeps (after_ack toggle) (packets ++ (packet ∷ [])) answer.world at)
    attempted-IsSettled (ok _) (ok _) toggle packets packet world answer p
          (IsSettled.undelivered r t q) =
        IsSettled.undelivered r t (keeps_IsPending toggle packets packet answer.world q)
    attempted-IsSettled (ok _) (ok _) toggle packets packet world answer p
          (IsSettled.unreported error r q) =
        IsSettled.unreported error r (keeps_IsPending toggle packets packet answer.world q)

    attempt-IsSettled :
        (port : Readings) (toggle : DataToggle) (packets : List Bytes) (packet : Bytes) (world : S)
        → IsBytes packet
        → IsPending toggle packets packet world
        → IsSettled toggle packets packet
            (attempt pipe service_frame (once packet) port toggle world)
    unfolding attempt
    attempt-IsSettled port toggle packets packet world b p =
        attempted-IsSettled (check_valid pipe port.before >> check_valid pipe port.locked)
          (check_valid pipe port.after) toggle packets packet world (once packet toggle world) p
          (settles toggle packets packet world b p)

    retry-IsSent :
        (packet : Bytes) (packets : List Bytes) (passes : List Readings) (count : ℕ)
        (toggle : DataToggle) (world : S)
        → IsBytes packet
        → IsPending toggle packets packet world
        → IsSent toggle packets packet
            (retry pipe service_frame judge_out (once packet) passes count toggle world)
    unfolding retry judge_out
    retry-IsSent packet packets [] count toggle world b p = IsSent.unsent (λ e. cc) p
    retry-IsSent packet packets (port ∷ passes) count toggle world b p =
        let answer = attempt pipe service_frame (once packet) port toggle world in
        let stopped =
          retry_stop pipe service_frame judge_out (once packet) port passes count toggle world in
        let continued =
          retry_again pipe service_frame judge_out (once packet) port passes count toggle world in
        elim (attempt-IsSettled port toggle packets packet world b p) [
          | IsSettled.delivered r t at ↦
              rw (stopped (ok tt) (ap (judge_out count) r))
                (IsSent.sent refl (record { has = at.has; wants = at.wants ∙ sym t }))
          | IsSettled.unreported error r q ↦
              rw (stopped (err error) (ap (judge_out count) r)) (IsSent.unsent (λ e. cc) q)
          | IsSettled.undelivered r t q ↦ elim (judge_lem count answer.result r) [
            | inl (error, e) ↦ rw (stopped (err error) e) (IsSent.unsent (λ e. cc) q)
            | inr (next, e) ↦ rw (continued next e) (
                subst
                  (λ d.
                    IsSent toggle packets packet
                      (retry pipe service_frame judge_out (once packet) passes next d answer.world))
                  (sym t) (retry-IsSent packet packets passes next toggle answer.world b q))
          ]
        ]

    pub send_packets-HasSent :
        (packets more : List Bytes) (passes : List Readings) (toggle : DataToggle) (world : S)
        → All IsBytes more
        → IsAt toggle packets world
        → HasSent packets more (send_packets pipe service_frame once more passes toggle world)
    unfolding send_packets IsPending
    send_packets-HasSent packets [] passes toggle world bs at =
        HasSent.all refl (record { has = at.has ∙ sym (append-nil packets); wants = at.wants })
    send_packets-HasSent packets (packet ∷ more) passes toggle world bs at =
        let first = first_turn pipe service_frame once packet more passes toggle world in
        elim (retry-IsSent packet packets passes 0 toggle world bs.0 (inl at)) [
          | IsSent.sent e after ↦
              rw (send_ok pipe service_frame once packet more passes toggle world tt e) (
                cons-HasSent packets more packet
                  (send_packets pipe service_frame once more first.passes first.toggle first.world)
                  (send_packets-HasSent (packets ++ (packet ∷ [])) more first.passes first.toggle
                    first.world bs.1 after))
          | IsSent.unsent h p ↦
              rw (send_unsent pipe service_frame once packet more passes toggle world h)
                (IsPending-received toggle packets more packet first h p)
        ]
