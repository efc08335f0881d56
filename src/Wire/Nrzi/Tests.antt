-- ===== src/Wire/Nrzi/Tests.antt =====
-- The line code of a concrete packet: an acknowledgement.
use embassy_rp_pio_usb_host.Common.{
  ◌≡◌, true, ok, err, [], ◌∷◌, map, leb, if◌then◌else◌, length, Bytes, arith,
}
use embassy_rp_pio_usb_host.Wire.Nrzi.{
  encode_error, encode, as_bytes, symbols_of, DecodedBytes, decode_nrzi, decoded_bytes,
}
use embassy_rp_pio_usb_host.Wire.Nrzi.LineCode.{line_code, packet_bits}
use embassy_rp_pio_usb_host.Wire.Nrzi.Decoder.{wire_of}
use embassy_rp_pio_usb_host.Wire.Nrzi.Frame.{padded, packet_of, encode_lem, symbols_of-encode}
use embassy_rp_pio_usb_host.Wire.Nrzi.RoundTrip.{
  line_states, decode_nrzi-line_code, encode_short, decode_nrzi-encode,
}

abbrev ack_packet : Bytes
ack_packet = 0x80 ∷ 0xd2 ∷ []

encode_short_example : encode ack_packet ≡ ok (packet_of ack_packet)
encode_short_example = encode_short ack_packet (omega arith)

encode_lem_example :
    encode ack_packet
    ≡ (if leb (length (padded ack_packet)) 192 then ok (packet_of ack_packet) else err encode_error)
encode_lem_example = encode_lem ack_packet

symbols_of-encode_example : symbols_of (as_bytes (packet_of ack_packet)) ≡ padded ack_packet
symbols_of-encode_example =
    symbols_of-encode ack_packet (packet_of ack_packet) (encode_short ack_packet (omega arith))

decode_nrzi-line_code_example :
    (d : DecodedBytes) × (decode_nrzi (map wire_of (line_code 0 true (packet_bits ack_packet)))
      ≡ ok d)
    × (decoded_bytes d ≡ ack_packet)
decode_nrzi-line_code_example = decode_nrzi-line_code ack_packet (omega arith) (omega arith)

decode_nrzi-encode_example :
    (d : DecodedBytes) × (decode_nrzi (line_states (symbols_of (as_bytes (packet_of ack_packet))))
      ≡ ok d)
    × (decoded_bytes d ≡ ack_packet)
decode_nrzi-encode_example =
    decode_nrzi-encode ack_packet (packet_of ack_packet) (omega arith)
      (encode_short ack_packet (omega arith))
