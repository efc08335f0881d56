-- ===== src/Usbtmc/Message/Tests.antt =====
-- A command of five bytes, and a response of six in packets of sixteen.
use embassy_rp_pio_usb_host.Common.{
  ℕ, ◌%◌, ◌≡◌, ◌≢◌, ◌≤◌, ◌<◌, refl, some, List, [], ◌∷◌, ◌++◌, Result, ok, length, take, drop,
  Bytes, byte_at, arith,
}
use embassy_rp_pio_usb_host.Host.Types.{PipeError}
use embassy_rp_pio_usb_host.Usbtmc.Message.{
  complement, u32_at, ReadResult, read_end, read_finish, read_more, check_first, read_payload,
  read_response, write_message,
}
use embassy_rp_pio_usb_host.Usbtmc.Message.Command.{read_command, write_message-read_command}
use embassy_rp_pio_usb_host.Usbtmc.Message.Response.{wire_bytes, read_response-payload}

abbrev identify : Bytes
identify = 0x2a ∷ 0x49 ∷ 0x44 ∷ 0x4e ∷ 0x3f ∷ []

write_message-read_command_example :
    (message : Bytes) × (next : ℕ) × (write_message 512 identify 255 ≡ ok (message, next))
    × (read_command message ≡ some (255, identify))
    × (length message ≤ 512)
    × (length message % 4 ≡ 0)
    × (0 < next)
    × (next < 256)
    × (next ≢ 255)
write_message-read_command_example =
    write_message-read_command 512 identify 255 (omega arith) (omega arith) (omega arith)
      (omega arith)

abbrev first_packet : Bytes
first_packet = 2 ∷ 7 ∷ 248 ∷ 0 ∷ 6 ∷ 0 ∷ 0 ∷ 0 ∷ 1 ∷ 0 ∷ 0 ∷ 0 ∷ 11 ∷ 12 ∷ 13 ∷ 14 ∷ []

abbrev last_packet : List (Result PipeError Bytes)
last_packet = ok (15 ∷ 16 ∷ 0 ∷ 0 ∷ []) ∷ []

abbrev answer : Bytes
answer = 11 ∷ 12 ∷ 13 ∷ 14 ∷ 15 ∷ 16 ∷ []

answer_read : read_response 16 7 64 (ok first_packet ∷ last_packet) ≡ ReadResult.done (ok answer)
unfolding read_response read_payload read_more read_finish read_end check_first
answer_read = refl

read_response-payload_example :
    (byte_at first_packet 0 ≡ 2)
    × (byte_at first_packet 1 ≡ 7)
    × (byte_at first_packet 2 ≡ complement 7)
    × (6 ≡ u32_at first_packet 4)
    × (6 ≤ 64)
    × (answer ≡ take 6 (drop 12 first_packet ++ wire_bytes last_packet))
read_response-payload_example =
    read_response-payload 16 7 64 first_packet last_packet answer answer_read
