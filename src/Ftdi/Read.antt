-- ===== src/Ftdi/Read.antt =====
-- ftdi.rs: `FtdiHost::read` and `copy_buffered`. The bulk IN pipe belongs to another crate: what its
-- `request_in` returns, call after call, is a list of results that `read` takes.
mod Tests
pub mod Stream
use Prim.Native.Nat.{min}
use embassy_rp_pio_usb_host.Common.{
  ℕ, ◌+◌, ◌-◌, List, [], ◌∷◌, ◌++◌, Result, ok, err, ltb, ◌==◌, if◌then◌else◌, length, take, drop,
  Bytes, byte_at,
}

pub record FtdiStatus : Type 0 where
  pub modem : ℕ
  pub line : ℕ

-- The fields of the host that `read` changes.
pub record RxBuffer : Type 0 where
  pub rx_packet : Bytes
  pub rx_start : ℕ
  pub rx_end : ℕ
  pub status : FtdiStatus

-- The bytes that go to the caller's buffer, of `capacity` bytes, and the fields afterwards.
pub copy_buffered : RxBuffer → ℕ → Bytes × RxBuffer
copy_buffered s capacity =
    let count = min capacity (s.rx_end - s.rx_start) in
    let start = s.rx_start + count in
    (
      take count (drop s.rx_start s.rx_packet),
      if start == s.rx_end
          then record s { rx_start = 0; rx_end = 0 }
          else record s { rx_start = start },
    )

-- How a read ends: it waits for a packet that has not come, it fails, or it is done with the bytes
-- that it delivers, the fields afterwards and the packets that it has not taken.
pub data ReadResult {ℓ} (E : Type ℓ) : Type ℓ where
  waiting : ReadResult E
  failed : E → ReadResult E
  done : Bytes × RxBuffer → List (Result E Bytes) → ReadResult E

-- The pipe writes the packet to the front of `rx_packet`.
abbrev pub received_into : RxBuffer → Bytes → RxBuffer
received_into s received = record s { rx_packet = received ++ drop (length received) s.rx_packet }

abbrev pub with_status : RxBuffer → Bytes → RxBuffer
with_status s received = record s {
  status = record { modem = byte_at received 0; line = byte_at received 1 };
}

-- The loop of `read`.
pub read_packets {ℓ} : {E : Type ℓ} → E → ℕ → ℕ → List (Result E Bytes) → RxBuffer → ReadResult E
read_packets overflow packet_size capacity [] s = waiting
read_packets overflow packet_size capacity (err e ∷ packets) s = failed e
read_packets overflow packet_size capacity (ok received ∷ packets) s =
    let written = received_into s received in
    let noted = with_status written received in
    let after_short = read_packets overflow packet_size capacity packets written in
    let after_status = read_packets overflow packet_size capacity packets noted in
    if ltb packet_size (length received)
    then failed overflow
    else if ltb (length received) 2
    then after_short
    else if length received == 2
    then after_status
    else done (copy_buffered (record noted { rx_start = 2; rx_end = length received }) capacity)
        packets

pub read {ℓ} : {E : Type ℓ} → E → ℕ → ℕ → List (Result E Bytes) → RxBuffer → ReadResult E
read overflow packet_size capacity packets s =
    if capacity == 0
    then done ([], s) packets
    else if s.rx_start == s.rx_end
    then read_packets overflow packet_size capacity packets s
    else done (copy_buffered s capacity) packets
