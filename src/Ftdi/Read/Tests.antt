-- ===== src/Ftdi/Read/Tests.antt =====
-- Reads from a concrete sequence of packets.
use embassy_rp_pio_usb_host.Common.{ℕ, ◌≡◌, refl, List, [], ◌∷◌, ◌++◌, Result, ok, Bytes, arith}
use embassy_rp_pio_usb_host.Ftdi.Read.{RxBuffer, done, read}
use embassy_rp_pio_usb_host.Ftdi.Read.Stream.{
  pending, payload_bytes, Delivers, read-Delivers, read-done,
}

-- One byte of a packet is still buffered.
abbrev half_read : RxBuffer
half_read = record {
  rx_packet = 0x01 ∷ 0x60 ∷ 65 ∷ 66 ∷ 0 ∷ [];
  rx_start = 3;
  rx_end = 4;
  status = record { modem = 0x01; line = 0x60 };
}

abbrev nothing_read : RxBuffer
nothing_read = record half_read { rx_start = 0; rx_end = 0 }

-- A packet of the status alone, and one with two more bytes.
abbrev two_packets : List (Result ℕ Bytes)
two_packets = ok (0x01 ∷ 0x60 ∷ []) ∷ ok (0x01 ∷ 0x60 ∷ 67 ∷ 68 ∷ []) ∷ []

read-Delivers_example :
    Delivers (pending half_read ++ payload_bytes two_packets) (read 0 64 8 two_packets half_read)
read-Delivers_example = read-Delivers 0 64 8 two_packets half_read (omega arith)

read-done_example :
    (r : RxBuffer) × (read 0 64 1 two_packets nothing_read ≡ done (67 ∷ [], r) [])
    × (pending r ≡ 68 ∷ [])
read-done_example =
    read-done 0 64 1 ((0x01 ∷ 0x60 ∷ []) ∷ []) (0x01 ∷ 0x60 ∷ 67 ∷ 68 ∷ []) [] nothing_read
      (omega arith) refl (omega arith) (omega arith) (omega arith)
