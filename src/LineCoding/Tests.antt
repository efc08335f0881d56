-- ===== src/LineCoding/Tests.antt =====
-- Line codings on concrete bytes.
use embassy_rp_pio_usb_host.Common.{◌≡◌, refl, ok, [], ◌∷◌, arith}
use embassy_rp_pio_usb_host.LineCoding.{eight_n_one, validate, from_bytes, to_bytes}
use embassy_rp_pio_usb_host.LineCoding.RoundTrip.{from_bytes-to_bytes, to_bytes-from_bytes}

from_bytes-to_bytes_example : from_bytes (to_bytes (eight_n_one 115200)) ≡ ok (eight_n_one 115200)
unfolding validate eight_n_one
from_bytes-to_bytes_example = from_bytes-to_bytes (eight_n_one 115200) (omega arith) refl

to_bytes-from_bytes_example :
    (to_bytes (eight_n_one 115200) ≡ 0x00 ∷ 0xc2 ∷ 0x01 ∷ 0x00 ∷ 0x00 ∷ 0x00 ∷ 0x08 ∷ [])
    × (validate (eight_n_one 115200) ≡ ok tt)
unfolding from_bytes validate eight_n_one
to_bytes-from_bytes_example =
    to_bytes-from_bytes (0x00 ∷ 0xc2 ∷ 0x01 ∷ 0x00 ∷ 0x00 ∷ 0x00 ∷ 0x08 ∷ []) (eight_n_one 115200)
      (omega arith) refl
