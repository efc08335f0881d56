-- ===== src/Wire/Packet.antt =====
-- usb.rs: data and token packets, and the parser of decoded packet bytes.
mod Tests
pub mod Data
pub mod Token
use embassy_rp_pio_usb_host.Common.{
  ℕ, ◌+◌, ◌-◌, ◌*◌, ◌/◌, ◌%◌, ◌^◌, Bool, not, ◌||◌, List, [], ◌∷◌, Result, ok, err, ◌>>=◌, ◌>>◌,
  fail_if, ltb, ◌==◌, if◌then◌else◌, length, take, drop, set, replicate, write_at, Bytes, byte_at,
  bit_and, bit_or,
}
use embassy_rp_pio_usb_host.Wire.Crc.{crc5_token, crc16_data}
use embassy_rp_pio_usb_host.Wire.Pid.{
  sync, pid_sof, pid_data1, is_data_pid, is_handshake_pid, is_token_pid,
}

abbrev pub max_decoded_bytes : ℕ
max_decoded_bytes = 104

pub data PacketError : Type 0 where
  too_short invalid_sync invalid_pid invalid_length invalid_crc5 invalid_crc16 : PacketError
  unsupported_pid : PacketError

pub data ParsedPacket : Type 0 where
  handshake : ℕ → ParsedPacket
  token : ℕ → ℕ → ParsedPacket
  data_packet : ℕ → Bytes → ParsedPacket

pub data DataPacketError : Type 0 where
  invalid_pid payload_too_long : DataPacketError

pub record RawDataPacket : Type 0 where
  pub bytes : Bytes
  pub len : ℕ

-- The buffer after the assignments of `RawDataPacket::new`.
pub data_bytes : ℕ → Bytes → Bytes
data_bytes pid payload =
    let n = length payload in
    let crc = crc16_data payload in
    let headed = set (set (replicate max_decoded_bytes 0) 0 sync) 1 pid in
    let filled = write_at headed 2 payload in
    set (set filled (2 + n) (crc % 256)) (3 + n) (crc / 2 ^ 8 % 256)

pub new : ℕ → Bytes → Result DataPacketError RawDataPacket
unfolding data_bytes
new pid payload = do
  fail_if (not (is_data_pid pid)) DataPacketError.invalid_pid
  fail_if (ltb (max_decoded_bytes - 4) (length payload)) DataPacketError.payload_too_long
  ok (record { bytes = data_bytes pid payload; len = length payload + 4 })

pub as_bytes : RawDataPacket → Bytes
as_bytes packet = take packet.len packet.bytes

-- The token arm of `parse_packet`, with its length check.
parse_token : ℕ → Bytes → Result PacketError ParsedPacket
parse_token pid bytes = do
  fail_if (not (length bytes == 4)) PacketError.invalid_length
  let value = bit_or (byte_at bytes 2) (bit_and (byte_at bytes 3) 0x07 * 2 ^ 8)
  fail_if (not (crc5_token value == byte_at bytes 3 / 2 ^ 3)) PacketError.invalid_crc5
  ok (ParsedPacket.token pid value)

-- The data arm of `parse_packet`.
parse_data : ℕ → Bytes → Result PacketError ParsedPacket
parse_data pid bytes = do
  fail_if (ltb (length bytes) 4) PacketError.invalid_length
  let payload = take (length bytes - 4) (drop 2 bytes)
  let received_crc =
      bit_or (byte_at bytes (length bytes - 2)) (byte_at bytes (length bytes - 1) * 2 ^ 8)
  fail_if (not (crc16_data payload == received_crc)) PacketError.invalid_crc16
  ok (ParsedPacket.data_packet pid payload)

-- The handshake arm.
parse_handshake : ℕ → Bytes → Result PacketError ParsedPacket
parse_handshake pid bytes = do
  fail_if (not (length bytes == 2)) PacketError.invalid_length
  ok (ParsedPacket.handshake pid)

-- `(pid >> 4) != (!pid & 0x0f)` on a byte
abbrev pub has_bad_complement : ℕ → Bool
has_bad_complement pid = not (pid / 2 ^ 4 == bit_and (255 - pid) 0x0f)

-- The match on the packet identifier.
parse_body : ℕ → Bytes → Result PacketError ParsedPacket
unfolding parse_token parse_data parse_handshake
parse_body pid bytes =
    if is_handshake_pid pid
    then parse_handshake pid bytes
    else if is_token_pid pid
    then parse_token pid bytes
    else if is_data_pid pid
    then parse_data pid bytes
    else err PacketError.unsupported_pid

pub parse_packet : Bytes → Result PacketError ParsedPacket
unfolding parse_body
parse_packet bytes = do
  fail_if (ltb (length bytes) 2) PacketError.too_short
  fail_if (not (byte_at bytes 0 == sync)) PacketError.invalid_sync
  fail_if (has_bad_complement (byte_at bytes 1)) PacketError.invalid_pid
  parse_body (byte_at bytes 1) bytes

-- The four bytes that `sof_packet` and `token_packet` build around an 11-bit value.
abbrev token_bytes : ℕ → ℕ → Bytes
token_bytes pid value =
    let top = bit_and (value / 2 ^ 8 % 256) 0x07 in
    sync ∷ pid ∷ (value % 256) ∷ bit_or top (crc5_token value * 2 ^ 3 % 256) ∷ []

pub sof_packet : ℕ → Bytes
sof_packet frame_number = token_bytes pid_sof (bit_and frame_number 0x07ff)

pub token_packet : ℕ → ℕ → ℕ → Bytes
token_packet pid address endpoint =
    token_bytes pid (bit_or (bit_and endpoint 0x0f * 2 ^ 7) (bit_and address 0x7f))

pub status_data1_packet : Bytes
status_data1_packet = sync ∷ pid_data1 ∷ 0 ∷ 0 ∷ []
