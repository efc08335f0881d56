-- ===== src/Usbtmc/Message.antt =====
-- usbtmc.rs: the messages of `UsbtmcHost`: capabilities, the framing of commands and the reading of
-- responses. What the control pipe returns is an argument, and what the bulk IN pipe returns, call
-- after call, is a list of results.
mod Tests
pub mod Command
pub mod Response
use Prim.Native.Nat.{min}
use embassy_rp_pio_usb_host.Common.{
  ℕ, ◌+◌, ◌-◌, ◌*◌, ◌/◌, ◌%◌, ◌^◌, Bool, true, false, not, ◌&&◌, ◌||◌, List, [], ◌∷◌, ◌++◌, Result,
  ok, err, ◌>>=◌, ◌>>◌, fail_if, map_err, ltb, ◌==◌, if◌then◌else◌, length, take, drop, replicate,
  set, write_at, Bytes, byte_at, bit_and, from_le_bytes,
}
use embassy_rp_pio_usb_host.Host.Types.{PipeError}
use embassy_rp_pio_usb_host.Request.{SetupRequest, to_bytes}

pub data UsbtmcError : Type 0 where
  transfer : PipeError → UsbtmcError
  command_too_long response_buffer_too_small invalid_capabilities : UsbtmcError
  invalid_control_status invalid_message tag_mismatch : UsbtmcError

pub record UsbtmcCapabilities : Type 0 where
  pub usbtmc_version_bcd : ℕ
  pub interface_capabilities : ℕ
  pub device_capabilities : ℕ
  pub usb488_version_bcd : ℕ
  pub usb488_interface_capabilities : ℕ
  pub usb488_device_capabilities : ℕ

pub supports_remote_enable : UsbtmcCapabilities → Bool
supports_remote_enable c = not (bit_and c.usb488_interface_capabilities 2 == 0)

pub capabilities_setup : ℕ → Bytes
capabilities_setup interface_number =
    to_bytes (record {
      request_type = 0xa1;
      request = 7;
      value = 0;
      index = interface_number;
      length = 24;
    })

-- `get_capabilities` after its transfer, which gives a count and the 24 bytes of the buffer.
pub get_capabilities : Result PipeError (ℕ × Bytes) → Result UsbtmcError UsbtmcCapabilities
get_capabilities transferred = do
  received ← map_err UsbtmcError.transfer transferred
  let bytes = received.1
  fail_if (not (received.0 == 24) || not (byte_at bytes 0 == 1)) UsbtmcError.invalid_capabilities
  ok (record {
    usbtmc_version_bcd = from_le_bytes (byte_at bytes 2) (byte_at bytes 3);
    interface_capabilities = byte_at bytes 4;
    device_capabilities = byte_at bytes 5;
    usb488_version_bcd = from_le_bytes (byte_at bytes 12) (byte_at bytes 13);
    usb488_interface_capabilities = byte_at bytes 14;
    usb488_device_capabilities = byte_at bytes 15;
  })

pub build_remote_enable_setup : ℕ → Bool → Bytes
build_remote_enable_setup interface_number enabled = to_bytes (record {
  request_type = 0xa1;
  request = 0xa0;
  value = if enabled then 1 else 0;
  index = interface_number;
  length = 1;
})

-- `remote_enable` after its transfer, which gives a count and the status byte.
pub remote_enable : Result PipeError (ℕ × ℕ) → Result UsbtmcError (Unit {0})
remote_enable transferred = do
  received ← map_err UsbtmcError.transfer transferred
  fail_if (not (received.0 == 1) || not (received.1 == 1)) UsbtmcError.invalid_control_status

-- The tag, and the next one.
pub take_tag : ℕ → ℕ × ℕ
take_tag next_tag = (next_tag, if next_tag == 255 then 1 else next_tag + 1)

-- `!tag` on a byte
abbrev pub complement : ℕ → ℕ
complement tag = 255 - tag

-- `next_multiple_of(4)`
abbrev pub padded : ℕ → ℕ
padded n = (n + 3) / 4 * 4

-- `(n as u32).to_le_bytes()`
abbrev pub u32_bytes : ℕ → Bytes
u32_bytes n = n % 2 ^ 8 ∷ n / 2 ^ 8 % 2 ^ 8 ∷ n / 2 ^ 16 % 2 ^ 8 ∷ n / 2 ^ 24 % 2 ^ 8 ∷ []

-- `u32::from_le_bytes` of four bytes.
abbrev pub u32_at : Bytes → ℕ → ℕ
u32_at bytes i =
    byte_at bytes i
    + 2 ^ 8 * byte_at bytes (i + 1)
    + 2 ^ 16 * byte_at bytes (i + 2)
    + 2 ^ 24 * byte_at bytes (i + 3)

-- The bytes of `outgoing` that `write` sends.
pub outgoing : ℕ → Bytes → Bytes
outgoing tag command =
    let filled = replicate (12 + padded (length command)) 0 in
    let tagged = set (set (set filled 0 1) 1 tag) 2 (complement tag) in
    let sized = write_at tagged 4 (u32_bytes (length command)) in
    write_at (set sized 8 1) 12 command

-- `write` up to its transfer: what it sends, and the next tag.
pub write_message : ℕ → Bytes → ℕ → Result UsbtmcError (Bytes × ℕ)
write_message out_message_capacity command next_tag =
    if ltb out_message_capacity (length command + 12 + 3)
    then err UsbtmcError.command_too_long
    else ok (outgoing (take_tag next_tag).0 command, (take_tag next_tag).1)

pub build_request_in : ℕ → ℕ → Bytes
build_request_in tag capacity =
    let request = set (set (set (replicate 12 0) 0 2) 1 tag) 2 (complement tag) in
    write_at request 4 (u32_bytes (min capacity (2 ^ 32 - 1)))

-- How a read ends: it waits for a packet that has not come, or returns an error or the bytes that it
-- wrote to the front of the response.
pub data ReadResult : Type 0 where
  waiting : ReadResult
  done : Result UsbtmcError Bytes → ReadResult

-- The packet that marks the end of a transfer whose last packet is full.
pub read_end : List (Result PipeError Bytes) → Bytes → ReadResult
read_end [] copied = ReadResult.waiting
read_end (err e ∷ packets) copied = ReadResult.done (err (UsbtmcError.transfer e))
read_end (ok received ∷ packets) copied =
    ReadResult.done
      (if not (length received == 0) then err UsbtmcError.invalid_message else ok copied)

-- What follows the loop, with what the wire brought and the length of the last packet.
pub read_finish : ℕ → ℕ → List (Result PipeError Bytes) → Bytes → ℕ → ℕ → ReadResult
read_finish packet_size announced packets copied wire_received last_packet_len =
    if ltb wire_received (12 + announced)
    then ReadResult.done (err UsbtmcError.invalid_message)
    else if last_packet_len == packet_size
    then read_end packets copied
    else ReadResult.done (ok copied)

-- The loop, while bytes are missing.
pub read_more : ℕ → ℕ → List (Result PipeError Bytes) → Bytes → ℕ → ℕ → ReadResult
read_more packet_size announced [] copied wire_received last_packet_len =
    if ltb (length copied) announced
    then ReadResult.waiting
    else read_finish packet_size announced [] copied wire_received last_packet_len
read_more packet_size announced (err e ∷ packets) copied wire_received last_packet_len =
    if ltb (length copied) announced
    then ReadResult.done (err (UsbtmcError.transfer e))
    else read_finish packet_size announced (err e ∷ packets) copied wire_received last_packet_len
read_more packet_size announced (ok received ∷ packets) copied wire_received last_packet_len =
    let n = length received in
    let count = min n (announced - length copied) in
    let rest =
      read_more packet_size announced packets (copied ++ take count received) (wire_received + n)
        n in
    if ltb (length copied) announced
    then if n == 0 || ltb (12 + padded announced) (wire_received + n)
      then ReadResult.done (err UsbtmcError.invalid_message)
      else rest
    else read_finish packet_size announced (ok received ∷ packets) copied wire_received
        last_packet_len

-- What is wrong with the first packet, for a response of this capacity.
pub check_first : ℕ → ℕ → Bytes → Result UsbtmcError (Unit {0})
check_first tag capacity packet = do
  fail_if
      (ltb (length packet) 12
        || not (byte_at packet 0 == 2)
        || not (byte_at packet 2 == complement (byte_at packet 1)))
      UsbtmcError.invalid_message
  fail_if (not (byte_at packet 1 == tag)) UsbtmcError.tag_mismatch
  fail_if (ltb capacity (u32_at packet 4)) UsbtmcError.response_buffer_too_small
  fail_if (ltb (12 + padded (u32_at packet 4)) (length packet)) UsbtmcError.invalid_message

-- What `read_response` does once the first packet is checked.
pub read_payload :
    ℕ → Result UsbtmcError (Unit {0}) → Bytes → List (Result PipeError Bytes) → ReadResult
read_payload packet_size (err e) packet packets = ReadResult.done (err e)
read_payload packet_size (ok _) packet packets =
    let announced = u32_at packet 4 in
    read_more packet_size announced packets
      (take (min (length packet - 12) announced) (drop 12 packet)) (length packet) (length packet)

pub read_response : ℕ → ℕ → ℕ → List (Result PipeError Bytes) → ReadResult
read_response packet_size tag capacity [] = ReadResult.waiting
read_response packet_size tag capacity (err e ∷ packets) =
    ReadResult.done (err (UsbtmcError.transfer e))
read_response packet_size tag capacity (ok packet ∷ packets) =
    read_payload packet_size (check_first tag capacity packet) packet packets
