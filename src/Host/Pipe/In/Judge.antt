-- ===== src/Host/Pipe/In/Judge.antt =====
-- The verdicts on an IN transaction, by its result.
use embassy_rp_pio_usb_host.Common.{
  ℕ, suc, ◌≤◌, ◌<◌, ◌≡◌, Bool, true, false, inl, inr, Result, ok, err, leb, Bytes, length, refl,
  arith, Bool-cases,
}
use embassy_rp_pio_usb_host.Host.Types.{PipeError}
use embassy_rp_pio_usb_host.Host.Pipe.{TransactionOutcome, Verdict, non_response_retry_limit}
use embassy_rp_pio_usb_host.Host.Pipe.In.{judge_in}

-- What a verdict says of the result.
pub data IsJudged (isochronous : Bool) (room count : ℕ)
    (r : Result PipeError (TransactionOutcome Bytes)) (v : Verdict Bytes) : Type 0 where
  failed : (e : PipeError) → v ≡ Verdict.stop (err e) → IsJudged isochronous room count r v
  packet_in :
      (packet : Bytes)
      → v ≡ Verdict.stop (ok packet)
      → r ≡ ok (TransactionOutcome.complete packet)
      → length packet ≤ room
      → IsJudged isochronous room count r v
  naked :
      isochronous ≡ false
      → v ≡ Verdict.again 0
      → r ≡ ok TransactionOutcome.nak
      → IsJudged isochronous room count r v
  silent :
      isochronous ≡ false
      → v ≡ Verdict.again (suc count)
      → r ≡ ok TransactionOutcome.no_response
      → suc count < non_response_retry_limit
      → IsJudged isochronous room count r v

pub judge_in-IsJudged :
    (isochronous : Bool) (room count : ℕ) (r : Result PipeError (TransactionOutcome Bytes))
    → IsJudged isochronous room count r (judge_in isochronous room count r)
unfolding judge_in
judge_in-IsJudged i room count (err e) = IsJudged.failed e refl
judge_in-IsJudged i room count (ok (TransactionOutcome.complete packet)) =
    elim (Bool-cases (leb (length packet) room)) [
      | inl e ↦ IsJudged.packet_in packet (rw e refl) refl (ground arith)
      | inr e ↦ IsJudged.failed PipeError.buffer_overflow (rw e refl)
    ]
judge_in-IsJudged true room count (ok TransactionOutcome.nak) =
    IsJudged.failed PipeError.timeout refl
judge_in-IsJudged false room count (ok TransactionOutcome.nak) = IsJudged.naked refl refl refl
judge_in-IsJudged true room count (ok TransactionOutcome.no_response) =
    IsJudged.failed PipeError.timeout refl
judge_in-IsJudged false room count (ok TransactionOutcome.no_response) =
    elim (Bool-cases (leb non_response_retry_limit (suc count))) [
      | inl e ↦ IsJudged.failed PipeError.timeout (rw e refl)
      | inr e ↦ IsJudged.silent refl (rw e refl) refl (ground arith)
    ]

pub judge_in-complete :
    (isochronous : Bool) (room count : ℕ) (packet : Bytes)
    → length packet ≤ room
    → judge_in isochronous room count (ok (TransactionOutcome.complete packet))
      ≡ Verdict.stop (ok packet)
unfolding judge_in
judge_in-complete isochronous room count packet h =
    let fits : leb (length packet) room ≡ true = ground arith in rw fits refl

pub judge_in-nak :
    (isochronous : Bool) (room count : ℕ)
    → isochronous ≡ false
    → judge_in isochronous room count (ok TransactionOutcome.nak) ≡ Verdict.again 0
unfolding judge_in
judge_in-nak isochronous room count h = rw h refl

pub judge_in-no_response :
    (isochronous : Bool) (room count : ℕ)
    → isochronous ≡ false
    → suc count < non_response_retry_limit
    → judge_in isochronous room count (ok TransactionOutcome.no_response)
      ≡ Verdict.again (suc count)
unfolding judge_in
judge_in-no_response isochronous room count h few =
    let below : leb non_response_retry_limit (suc count) ≡ false = ground arith in
    rw (h, below) refl
