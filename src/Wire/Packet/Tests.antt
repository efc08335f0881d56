-- ===== src/Wire/Packet/Tests.antt =====
-- Concrete packets.
use embassy_rp_pio_usb_host.Common.{
  ◌≡◌, ◌<◌, ◌⊎◌, inl, inr, refl, ok, [], ◌∷◌, ◌%◌, ◌/◌, Bytes, IsBytes, arith,
}
use embassy_rp_pio_usb_host.Wire.Pid.{pid_data0, pid_out, pid_in, pid_setup, pid_sof}
use embassy_rp_pio_usb_host.Wire.Crc.{crc5_token, crc16_data}
use embassy_rp_pio_usb_host.Wire.Packet.{
  ParsedPacket, RawDataPacket, new, as_bytes, parse_packet, sof_packet, token_packet,
}
use embassy_rp_pio_usb_host.Wire.Packet.Data.{parse_packet-new, new-parse_packet}
use embassy_rp_pio_usb_host.Wire.Packet.Token.{parse_packet-token_packet, token_packet-parse_packet}

abbrev small_payload : Bytes
small_payload = 1 ∷ 2 ∷ 3 ∷ []

parse_packet-new_example :
    (packet : RawDataPacket) × (new pid_data0 small_payload ≡ ok packet)
    × (parse_packet (as_bytes packet) ≡ ok (ParsedPacket.data_packet pid_data0 small_payload))
parse_packet-new_example = parse_packet-new pid_data0 small_payload refl (omega arith) (omega arith)

-- The status stage's empty DATA1 packet, with the checksum of no bytes.
abbrev empty_data1 : Bytes
empty_data1 = 0x80 ∷ 0x4b ∷ 0 ∷ 0 ∷ []

new-parse_packet_example :
    (packet : RawDataPacket) × (new 0x4b [] ≡ ok packet) × (as_bytes packet ≡ empty_data1)
unfolding parse_packet crc16_data
new-parse_packet_example = new-parse_packet empty_data1 [] 0x4b (omega arith) (omega arith) refl

parse_packet-token_packet_example :
    parse_packet (token_packet pid_in 5 1) ≡ ok (ParsedPacket.token pid_in 133)
parse_packet-token_packet_example =
    parse_packet-token_packet pid_in 5 1 (inr (inl refl)) (omega arith) (omega arith)

token_IsBytes : IsBytes (token_packet pid_in 5 1)
unfolding token_packet crc5_token
token_IsBytes = omega arith

token_packet-parse_packet_example :
    (133 < 2048)
    × (((pid_in ≡ pid_sof) × (token_packet pid_in 5 1 ≡ sof_packet 133))
        ⊎ (((pid_in ≡ pid_out) ⊎ ((pid_in ≡ pid_in) ⊎ (pid_in ≡ pid_setup)))
            × (token_packet pid_in 5 1 ≡ token_packet pid_in (133 % 128) (133 / 128))))
token_packet-parse_packet_example =
    token_packet-parse_packet pid_in 133 (token_packet pid_in 5 1) token_IsBytes
      (parse_packet-token_packet pid_in 5 1 (inr (inl refl)) (omega arith) (omega arith))
