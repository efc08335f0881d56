-- ===== src/Host/Engine/In/Tally.antt =====
-- The counters of IN transactions, against the responses of the wire.
use embassy_rp_pio_usb_host.Common.{
  ℕ, ◌+◌, ◌-◌, ◌^◌, ◌≡◌, ◌≤◌, Bool, not, List, [], ◌∷◌, Result, ok, err, Bytes, length, arith, true,
  false, if◌then◌else◌,
}
use Prim.Native.Nat.{min}
use embassy_rp_pio_usb_host.Wire.Toggle.{DataToggle}
use embassy_rp_pio_usb_host.Host.Types.{PipeError}
use embassy_rp_pio_usb_host.Host.Pipe.{Answer}
use embassy_rp_pio_usb_host.Host.Pipe.In.{is_isochronous}
use embassy_rp_pio_usb_host.Host.Engine.{PipeTarget}
use embassy_rp_pio_usb_host.Host.Engine.Diagnostics.{
  InTransactionDiagnostics, record_attempt, record_accepted_data, record_nak, record_no_response,
  record_invalid_or_stall, record_accepted_zlp, record_unexpected_toggle,
}
use embassy_rp_pio_usb_host.Host.Engine.In.{
  InReceiveResult, InWire, InEngine, in_once, record_response, in_settled, in_expected,
  is_in_target, request_in_once,
}

-- One call of `request_in_once`.
pub record Call : Type 0 where
  pub target : PipeTarget
  pub room : ℕ
  pub toggle : DataToggle

-- How many of the responses are of a kind, which gives 1 for those that are and 0 for others.
abbrev pub how_many : (InReceiveResult → ℕ) → List InReceiveResult → ℕ
how_many kind [] = 0
how_many kind (r ∷ rs) = kind r + how_many kind rs

abbrev pub an_accepted : InReceiveResult → ℕ
an_accepted (InReceiveResult.data_in payload) = 1
an_accepted (InReceiveResult.unexpected_toggle actual payload) = 0
an_accepted InReceiveResult.nak = 0
an_accepted InReceiveResult.stall = 0
an_accepted InReceiveResult.no_response = 0
an_accepted InReceiveResult.invalid_packet = 0

abbrev pub an_empty : InReceiveResult → ℕ
an_empty (InReceiveResult.data_in []) = 1
an_empty (InReceiveResult.data_in (b ∷ bs)) = 0
an_empty (InReceiveResult.unexpected_toggle actual payload) = 0
an_empty InReceiveResult.nak = 0
an_empty InReceiveResult.stall = 0
an_empty InReceiveResult.no_response = 0
an_empty InReceiveResult.invalid_packet = 0

abbrev pub a_wrong_toggle : InReceiveResult → ℕ
a_wrong_toggle (InReceiveResult.data_in payload) = 0
a_wrong_toggle (InReceiveResult.unexpected_toggle actual payload) = 1
a_wrong_toggle InReceiveResult.nak = 0
a_wrong_toggle InReceiveResult.stall = 0
a_wrong_toggle InReceiveResult.no_response = 0
a_wrong_toggle InReceiveResult.invalid_packet = 0

abbrev pub a_nak : InReceiveResult → ℕ
a_nak (InReceiveResult.data_in payload) = 0
a_nak (InReceiveResult.unexpected_toggle actual payload) = 0
a_nak InReceiveResult.nak = 1
a_nak InReceiveResult.stall = 0
a_nak InReceiveResult.no_response = 0
a_nak InReceiveResult.invalid_packet = 0

abbrev pub a_silence : InReceiveResult → ℕ
a_silence (InReceiveResult.data_in payload) = 0
a_silence (InReceiveResult.unexpected_toggle actual payload) = 0
a_silence InReceiveResult.nak = 0
a_silence InReceiveResult.stall = 0
a_silence InReceiveResult.no_response = 1
a_silence InReceiveResult.invalid_packet = 0

abbrev pub a_failure : InReceiveResult → ℕ
a_failure (InReceiveResult.data_in payload) = 0
a_failure (InReceiveResult.unexpected_toggle actual payload) = 0
a_failure InReceiveResult.nak = 0
a_failure InReceiveResult.stall = 1
a_failure InReceiveResult.no_response = 0
a_failure InReceiveResult.invalid_packet = 1

-- A counter stops at the largest 32-bit word.
abbrev pub largest : ℕ
largest = 2 ^ 32 - 1

-- Each counter moved by the number of responses of its kind.
unfoldable pub IsCounted :
    InTransactionDiagnostics → List InReceiveResult → InTransactionDiagnostics → Type 0
IsCounted old rs d =
    (d.attempt_count ≡ min (old.attempt_count + length rs) largest)
    × (d.accepted_data_count ≡ min (old.accepted_data_count + how_many an_accepted rs) largest)
    × (d.accepted_zlp_count ≡ min (old.accepted_zlp_count + how_many an_empty rs) largest)
    × (d.unexpected_toggle_count
        ≡ min (old.unexpected_toggle_count + how_many a_wrong_toggle rs) largest)
    × (d.nak_count ≡ min (old.nak_count + how_many a_nak rs) largest)
    × (d.no_response_count ≡ min (old.no_response_count + how_many a_silence rs) largest)
    × (d.invalid_or_stall_count ≡ min (old.invalid_or_stall_count + how_many a_failure rs) largest)

-- The counters are 32-bit words.
unfoldable pub IsWords : InTransactionDiagnostics → Type 0
IsWords d =
    (d.attempt_count ≤ largest)
    × (d.accepted_data_count ≤ largest)
    × (d.accepted_zlp_count ≤ largest)
    × (d.unexpected_toggle_count ≤ largest)
    × (d.nak_count ≤ largest)
    × (d.no_response_count ≤ largest)
    × (d.invalid_or_stall_count ≤ largest)

recorded-IsWords :
    (pid : ℕ) (r : InReceiveResult) (d : InTransactionDiagnostics)
    → IsWords d
    → IsWords (record_response pid r (record_attempt d))
unfolding IsWords record_response record_attempt record_accepted_data record_nak record_no_response
    record_invalid_or_stall record_accepted_zlp record_unexpected_toggle
recorded-IsWords pid (InReceiveResult.data_in []) d w = ground arith
recorded-IsWords pid (InReceiveResult.data_in (b ∷ bs)) d w = ground arith
recorded-IsWords pid (InReceiveResult.unexpected_toggle actual payload) d w = ground arith
recorded-IsWords pid InReceiveResult.nak d w = ground arith
recorded-IsWords pid InReceiveResult.stall d w = ground arith
recorded-IsWords pid InReceiveResult.no_response d w = ground arith
recorded-IsWords pid InReceiveResult.invalid_packet d w = ground arith

IsCounted-more :
    (pid : ℕ) (r : InReceiveResult) (rs : List InReceiveResult) (old d : InTransactionDiagnostics)
    → IsCounted (record_response pid r (record_attempt old)) rs d
    → IsCounted old (r ∷ rs) d
unfolding IsCounted record_response record_attempt record_accepted_data record_nak
    record_no_response record_invalid_or_stall record_accepted_zlp record_unexpected_toggle
IsCounted-more pid (InReceiveResult.data_in []) rs old d c = ground arith
IsCounted-more pid (InReceiveResult.data_in (b ∷ bs)) rs old d c = ground arith
IsCounted-more pid (InReceiveResult.unexpected_toggle actual payload) rs old d c = ground arith
IsCounted-more pid InReceiveResult.nak rs old d c = ground arith
IsCounted-more pid InReceiveResult.stall rs old d c = ground arith
IsCounted-more pid InReceiveResult.no_response rs old d c = ground arith
IsCounted-more pid InReceiveResult.invalid_packet rs old d c = ground arith

IsCounted-none : (d : InTransactionDiagnostics) → IsWords d → IsCounted d [] d
unfolding IsCounted IsWords
IsCounted-none d w = ground arith

-- A transmission that fails has no response.
abbrev pub and_response :
    Result PipeError InReceiveResult → List InReceiveResult → List InReceiveResult
and_response (err e) rs = rs
and_response (ok r) rs = r ∷ rs

module _ {κ} {S : Type κ} (wire : InWire S) where
  -- The calls, one after the other.
  pub request_in_all : List Call → InEngine S → InEngine S
  request_in_all [] engine = engine
  request_in_all (c ∷ cs) engine =
      request_in_all cs (request_in_once wire c.target c.room c.toggle engine).world

  -- What a call does on the wire.
  transaction : Call → S → Result PipeError InReceiveResult × S
  transaction c world =
      let isochronous = is_isochronous c.target.endpoint.ep_type in
      in_once wire c.target (in_expected isochronous c.toggle)
        (min c.room c.target.endpoint.max_packet_size) isochronous (not isochronous) world

  -- The responses that the transactions of the calls had.
  pub responses : List Call → S → List InReceiveResult
  responses [] world = []
  responses (c ∷ cs) world =
      let (r, after) = transaction c world in
      if is_in_target c.target then and_response r (responses cs after) else responses cs world

  settled-IsCounted :
      (isochronous : Bool) (room : ℕ) (toggle : DataToggle) (d : InTransactionDiagnostics)
      (r : Result PipeError InReceiveResult × S) (cs : List Call)
      → IsWords d
      → ((engine : InEngine S)
          → IsWords engine.diagnostics
          → IsCounted engine.diagnostics
              (responses cs engine.world)
              (request_in_all cs engine).diagnostics)
      → IsCounted d
          (and_response r.0 (responses cs r.1))
          (request_in_all cs (in_settled isochronous room toggle d r).world).diagnostics
  unfolding in_settled
  settled-IsCounted isochronous room toggle d (err e, world) cs w later =
      later (record { diagnostics = d; world = world }) w
  settled-IsCounted isochronous room toggle d (ok response, world) cs w later =
      let pid = in_expected isochronous toggle in
      let noted = record_response pid response (record_attempt d) in
      let engine : InEngine S = record { diagnostics = noted; world = world } in
      IsCounted-more pid response (responses cs world) d (request_in_all cs engine).diagnostics
        (later engine (recorded-IsWords pid response d w))

  -- After any run of calls of `request_in_once`, whatever the hardware answers and whatever the
  -- diagnostics were before, the attempts moved by the number of responses of the wire, and the
  -- other counters by the number of accepted packets, of empty ones among them, of packets with the
  -- wrong toggle, of NAKs, of missing responses, and of invalid packets and stalls; each counter
  -- stops at 2^32 - 1. The hypothesis is that the counters are 32-bit words.
  pub request_in_all-IsCounted :
      (calls : List Call) (engine : InEngine S)
      → IsWords engine.diagnostics
      → IsCounted engine.diagnostics
          (responses calls engine.world)
          (request_in_all calls engine).diagnostics
  unfolding request_in_all responses request_in_once transaction
  request_in_all-IsCounted [] engine w = IsCounted-none engine.diagnostics w
  request_in_all-IsCounted (c ∷ cs) engine w =
      let isochronous = is_isochronous c.target.endpoint.ep_type in
      let later = request_in_all-IsCounted cs in
      let answered =
        in_settled isochronous c.room c.toggle engine.diagnostics (transaction c engine.world) in
      let refused : Answer Bytes (InEngine S) = record {
        result = err PipeError.bad_response;
        toggle = c.toggle;
        world = engine;
      } in
      elim (is_in_target c.target)
        as (λ (b : Bool).
          IsCounted engine.diagnostics
            (if b
              then and_response (transaction c engine.world).0
                  (responses cs (transaction c engine.world).1)
              else responses cs engine.world)
            (request_in_all cs (if not b then refused else answered).world).diagnostics) [
              | true ↦
                  settled-IsCounted isochronous c.room c.toggle engine.diagnostics
                    (transaction c engine.world) cs w later
              | false ↦ later engine w
            ]
