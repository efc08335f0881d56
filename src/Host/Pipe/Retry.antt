-- ===== src/Host/Pipe/Retry.antt =====
-- How long a retry loop can run: a device that does not hold the loop up by NAKs cannot hold it up.
use embassy_rp_pio_usb_host.Common.{
  ℕ, suc, ◌+◌, ◌<◌, ◌≤◌, ◌≡◌, ◌≢◌, List, [], ◌∷◌, Result, ok, err, ◌>>◌, leb, length, arith, refl,
  ap, Bool-cases, ◌⊎◌, inl, inr,
}
use embassy_rp_pio_usb_host.Wire.Toggle.{DataToggle}
use embassy_rp_pio_usb_host.Host.Types.{PipeError}
use embassy_rp_pio_usb_host.Host.Port.{PipeTicket, check_valid}
use embassy_rp_pio_usb_host.Host.Pipe.{
  TransactionOutcome, non_response_retry_limit, Readings, Turn, Answer, Once, Verdict, missed,
  judge_out, Progress, attempted, attempt, retry, resume,
}

-- How a loop counts: a result other than NAK ends it, or is one more missing response.
pub Counts {ℓ} : {A : Type ℓ} → (ℕ → Result PipeError (TransactionOutcome A) → Verdict A) → Type ℓ
Counts {A = A} judge =
    (count : ℕ) (r : Result PipeError (TransactionOutcome A))
    → r ≢ ok TransactionOutcome.nak
    → ((b : Result PipeError A) × (judge count r ≡ Verdict.stop b))
      ⊎ ((judge count r ≡ Verdict.again (suc count)) × (suc count < non_response_retry_limit))

missed_lem {ℓ} :
    {A : Type ℓ} (count : ℕ)
    → ((b : Result PipeError A) × (missed count ≡ Verdict.stop b))
      ⊎ ((missed {A = A} count ≡ Verdict.again (suc count))
          × (suc count < non_response_retry_limit))
missed_lem count = elim (Bool-cases (leb non_response_retry_limit (suc count))) [
  | inl e ↦ inl (err PipeError.timeout, rw e refl)
  | inr e ↦ inr (rw e refl, ground arith)
]

pub judge_out-Counts {ℓ} : (A : Type ℓ) → Counts {A = A} judge_out
unfolding Counts judge_out
judge_out-Counts A count (err e) h = inl (err e, refl)
judge_out-Counts A count (ok (TransactionOutcome.complete a)) h = inl (ok a, refl)
judge_out-Counts A count (ok TransactionOutcome.nak) h = absurd (h refl)
judge_out-Counts A count (ok TransactionOutcome.no_response) h = missed_lem count

-- A transaction that is never answered by NAK.
unfoldable pub IsBrisk {ℓ κ} : {A : Type ℓ} {S : Type κ} → Once A S → Type (ℓ ⊔ κ)
IsBrisk {S = S} once =
    (toggle : DataToggle) (world : S) → (once toggle world).result ≢ ok TransactionOutcome.nak

module _ {κ} {S : Type κ} (pipe : PipeTicket) (service_frame : S → S) where
  attempted_lem {ℓ} :
      {A : Type ℓ} (r : Result PipeError (Unit {0})) (after : Result PipeError (Unit {0}))
      (toggle : DataToggle) (world : S) (answer : Answer A S)
      → answer.result ≢ ok TransactionOutcome.nak
      → (attempted pipe service_frame r after toggle world answer).result
        ≢ ok TransactionOutcome.nak
  unfolding attempted
  attempted_lem (err e) after toggle world answer h = λ q. cc
  attempted_lem (ok _) (err e) toggle world answer h = λ q. cc
  attempted_lem (ok _) (ok _) toggle world answer h = h

  attempt-IsBrisk {ℓ} :
      {A : Type ℓ} (once : Once A S) (port : Readings)
      → IsBrisk once
      → IsBrisk (attempt pipe service_frame once port)
  unfolding IsBrisk attempt
  attempt-IsBrisk once port h toggle world =
      attempted_lem (check_valid pipe port.before >> check_valid pipe port.locked)
        (check_valid pipe port.after) toggle world (once toggle world) (h toggle world)

  -- One pass of the loop, by its verdict.
  module _ {ℓ} {A : Type ℓ} (judge : ℕ → Result PipeError (TransactionOutcome A) → Verdict A)
      (once : Once A S) (port : Readings) (passes : List Readings) (count : ℕ) (toggle : DataToggle)
      (world : S) where
    abbrev pub answered : Answer A S
    answered = attempt pipe service_frame once port toggle world

    abbrev decided : Verdict A → Turn A S
    decided verdict =
        resume pipe service_frame verdict answered passes
          (λ next. retry pipe service_frame judge once passes next answered.toggle answered.world)

    pub retry_stop :
        (b : Result PipeError A)
        → judge count answered.result ≡ Verdict.stop b
        → retry pipe service_frame judge once (port ∷ passes) count toggle world ≡ record {
          progress = Progress.done b;
          toggle = answered.toggle;
          world = answered.world;
          passes = passes;
        }
    unfolding retry resume
    retry_stop b e = ap decided e

    pub retry_again :
        (next : ℕ)
        → judge count answered.result ≡ Verdict.again next
        → retry pipe service_frame judge once (port ∷ passes) count toggle world
          ≡ retry pipe service_frame judge once passes next answered.toggle answered.world
    unfolding retry resume
    retry_again next e = ap decided e

  -- A loop without NAKs leaves after at most 128 passes, less the missing responses so far.
  pub retry_ends {ℓ} :
      {A : Type ℓ} (judge : ℕ → Result PipeError (TransactionOutcome A) → Verdict A)
      (once : Once A S) (passes : List Readings) (count : ℕ) (toggle : DataToggle) (world : S)
      → Counts judge
      → IsBrisk once
      → count < non_response_retry_limit
      → non_response_retry_limit ≤ length passes + count
      → (r : Result PipeError A) × ((retry pipe service_frame judge once passes count toggle
            world).progress
          ≡ Progress.done r)
        × (length passes + count
            ≤ length (retry pipe service_frame judge once passes count toggle world).passes
              + non_response_retry_limit)
  unfolding Counts IsBrisk
  retry_ends judge once [] count toggle world c b small enough = absurd (omega arith)
  retry_ends judge once (port ∷ passes) count toggle world c b small enough =
      let answer = attempt pipe service_frame once port toggle world in
      elim (c count answer.result (attempt-IsBrisk once port b toggle world)) [
        | inl (r, e) ↦
            rw (retry_stop judge once port passes count toggle world r e) (r, refl, omega arith)
        | inr (e, less) ↦
            let rest =
              retry_ends judge once passes (suc count) answer.toggle answer.world c b less
                (omega arith) in
            rw (retry_again judge once port passes count toggle world (suc count) e)
              (rest.0, rest.1, omega (arith, rest.2))
      ]
