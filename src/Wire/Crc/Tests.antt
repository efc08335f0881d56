-- ===== src/Wire/Crc/Tests.antt =====
-- The checksum on concrete bytes.
use embassy_rp_pio_usb_host.Common.{◌≢◌, [], ◌∷◌, ◌++◌, arith}
use embassy_rp_pio_usb_host.Wire.Crc.{crc16_data}
use embassy_rp_pio_usb_host.Wire.Crc.Detect.{crc16_detects}

crc16_detects_example :
    crc16_data ((1 ∷ []) ++ (2 ∷ 3 ∷ [])) ≢ crc16_data ((1 ∷ []) ++ (6 ∷ 3 ∷ []))
crc16_detects_example =
    crc16_detects (1 ∷ []) (3 ∷ []) 2 6 (omega arith) (omega arith) (omega arith) (omega arith)
      (omega arith)
