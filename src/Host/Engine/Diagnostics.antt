-- ===== src/Host/Engine/Diagnostics.antt =====
-- pio_host.rs: `InTransactionDiagnostics`, the counters of IN transactions.
use Prim.Native.Nat.{min}
use embassy_rp_pio_usb_host.Common.{
  ℕ, ◌+◌, ◌-◌, ◌%◌, ◌^◌, Option, none, some, Bytes, length, take, replicate, write_at,
}

pub record UnexpectedToggleDiagnostic : Type 0 where
  pub expected_pid : ℕ
  pub actual_pid : ℕ
  pub payload_len : ℕ
  pub payload_prefix_len : ℕ
  pub payload_prefix : Bytes

pub record InTransactionDiagnostics : Type 0 where
  pub attempt_count : ℕ  -- u32, as the other counters
  pub accepted_data_count : ℕ
  pub unexpected_toggle_count : ℕ
  pub nak_count : ℕ
  pub no_response_count : ℕ
  pub invalid_or_stall_count : ℕ
  pub accepted_zlp_count : ℕ
  pub latest_unexpected_toggle : Option UnexpectedToggleDiagnostic

abbrev pub no_diagnostics : InTransactionDiagnostics
no_diagnostics = record {
  attempt_count = 0;
  accepted_data_count = 0;
  unexpected_toggle_count = 0;
  nak_count = 0;
  no_response_count = 0;
  invalid_or_stall_count = 0;
  accepted_zlp_count = 0;
  latest_unexpected_toggle = none;
}

-- `saturating_add(1)`
abbrev pub count_up : ℕ → ℕ
count_up n = min (n + 1) (2 ^ 32 - 1)

unfoldable pub record_attempt : InTransactionDiagnostics → InTransactionDiagnostics
record_attempt d = record d { attempt_count = count_up d.attempt_count }

unfoldable pub record_accepted_data : InTransactionDiagnostics → InTransactionDiagnostics
record_accepted_data d = record d { accepted_data_count = count_up d.accepted_data_count }

unfoldable pub record_nak : InTransactionDiagnostics → InTransactionDiagnostics
record_nak d = record d { nak_count = count_up d.nak_count }

unfoldable pub record_no_response : InTransactionDiagnostics → InTransactionDiagnostics
record_no_response d = record d { no_response_count = count_up d.no_response_count }

unfoldable pub record_invalid_or_stall : InTransactionDiagnostics → InTransactionDiagnostics
record_invalid_or_stall d = record d { invalid_or_stall_count = count_up d.invalid_or_stall_count }

unfoldable pub record_accepted_zlp : InTransactionDiagnostics → InTransactionDiagnostics
record_accepted_zlp d = record d { accepted_zlp_count = count_up d.accepted_zlp_count }

unfoldable pub record_unexpected_toggle :
    ℕ → ℕ → Bytes → InTransactionDiagnostics → InTransactionDiagnostics
record_unexpected_toggle expected_pid actual_pid payload d =
    let prefix_len = min (length payload) 8 in
    record d {
      unexpected_toggle_count = count_up d.unexpected_toggle_count;
      latest_unexpected_toggle = some (record {
        expected_pid = expected_pid;
        actual_pid = actual_pid;
        payload_len = length payload % 2 ^ 8;
        payload_prefix_len = prefix_len % 2 ^ 8;
        payload_prefix = write_at (replicate 8 0) 0 (take prefix_len payload);
      });
    }

-- `take`: the diagnostics, and what is left.
pub take_diagnostics :
    InTransactionDiagnostics → InTransactionDiagnostics × InTransactionDiagnostics
take_diagnostics d = (d, no_diagnostics)
