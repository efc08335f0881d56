-- ===== src/Wire/Pid.antt =====
-- usb.rs: the synchronisation byte and the packet identifiers.
use embassy_rp_pio_usb_host.Common.{ℕ, Bool, ◌||◌, ◌==◌}

abbrev pub sync : ℕ
sync = 0x80

abbrev pub pid_sof : ℕ
pid_sof = 0xa5

abbrev pub pid_out : ℕ
pid_out = 0xe1

abbrev pub pid_in : ℕ
pid_in = 0x69

abbrev pub pid_setup : ℕ
pid_setup = 0x2d

abbrev pub pid_data0 : ℕ
pid_data0 = 0xc3

abbrev pub pid_data1 : ℕ
pid_data1 = 0x4b

abbrev pub pid_ack : ℕ
pid_ack = 0xd2

abbrev pub pid_nak : ℕ
pid_nak = 0x5a

abbrev pub pid_stall : ℕ
pid_stall = 0x1e

-- `matches!(pid, PID_DATA0 | PID_DATA1)`
abbrev pub is_data_pid : ℕ → Bool
is_data_pid pid = pid == pid_data0 || pid == pid_data1

-- The arms of the match in `parse_packet`.
abbrev pub is_handshake_pid : ℕ → Bool
is_handshake_pid pid = pid == pid_ack || pid == pid_nak || pid == pid_stall

abbrev pub is_token_pid : ℕ → Bool
is_token_pid pid = pid == pid_out || pid == pid_in || pid == pid_setup || pid == pid_sof
