-- ===== src/Wire/Toggle.antt =====
-- usb.rs: the DATA0/DATA1 sequence of an endpoint direction, and the verdict on a received packet.
mod Tests
pub mod Link
pub mod Session
use embassy_rp_pio_usb_host.Common.{ℕ, Bool, not, ◌||◌, ltb, leb, ◌==◌, if◌then◌else◌}
use embassy_rp_pio_usb_host.Wire.Pid.{pid_data0, pid_data1, is_data_pid}

pub data InDataDisposition : Type 0 where
  accept duplicate reject : InDataDisposition

pub classify_in_data : Bool → ℕ → ℕ → ℕ → ℕ → ℕ → InDataDisposition
classify_in_data wire_valid expected_pid max_expected_payload_len receive_capacity received_pid
      received_payload_len =
    if not wire_valid
      || not (is_data_pid expected_pid)
      || not (is_data_pid received_pid)
      || ltb receive_capacity max_expected_payload_len
      || ltb receive_capacity received_payload_len
    then InDataDisposition.reject
    else if not (received_pid == expected_pid)
    then InDataDisposition.duplicate
    else if leb received_payload_len max_expected_payload_len
    then InDataDisposition.accept
    else InDataDisposition.reject

pub data DataToggle : Type 0 where
  data0 data1 : DataToggle

abbrev pub pid : DataToggle → ℕ
pid DataToggle.data0 = pid_data0
pid DataToggle.data1 = pid_data1

unfoldable pub after_ack : DataToggle → DataToggle
after_ack DataToggle.data0 = DataToggle.data1
after_ack DataToggle.data1 = DataToggle.data0

pub record CdcAcmDataState : Type 0 where
  pub bulk_out : DataToggle
  pub bulk_in : DataToggle

pub new : CdcAcmDataState
new = record { bulk_out = DataToggle.data0; bulk_in = DataToggle.data0 }

pub bulk_out_pid : CdcAcmDataState → ℕ
bulk_out_pid s = pid s.bulk_out

pub bulk_in_pid : CdcAcmDataState → ℕ
bulk_in_pid s = pid s.bulk_in

pub after_bulk_out_ack : CdcAcmDataState → CdcAcmDataState
after_bulk_out_ack s = record s { bulk_out = after_ack s.bulk_out }

pub after_bulk_in_ack : CdcAcmDataState → CdcAcmDataState
after_bulk_in_ack s = record s { bulk_in = after_ack s.bulk_in }
