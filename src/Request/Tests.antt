-- ===== src/Request/Tests.antt =====
-- Setup requests on concrete fields.
use embassy_rp_pio_usb_host.Common.{◌≡◌, ◌≤◌, ◌<◌, ◌⊎◌, some, ok, err, [], ◌∷◌, IsBytes, arith}
use embassy_rp_pio_usb_host.Request.{SetupRequest, invalid_address, to_bytes, set_address}
use embassy_rp_pio_usb_host.Request.Layout.{
  setup_of_bytes, setup_of_bytes-to_bytes, set_address_lem,
}

abbrev prefix_request : SetupRequest
prefix_request = record {
  request_type = 0x80;
  request = 0x06;
  value = 0x0100;
  index = 0;
  length = 8;
}

setup_of_bytes-to_bytes_example :
    IsBytes (to_bytes prefix_request)
    × (setup_of_bytes (to_bytes prefix_request) ≡ some prefix_request)
setup_of_bytes-to_bytes_example = setup_of_bytes-to_bytes prefix_request (record {
  request_type_u8 = omega arith;
  request_u8 = omega arith;
  value_u16 = omega arith;
  index_u16 = omega arith;
  length_u16 = omega arith;
})

set_address_lem_example :
    ((127 < 5) × (set_address 5 ≡ err invalid_address))
    ⊎ ((5 ≤ 127)
        × (r : SetupRequest) × (set_address 5 ≡ ok r)
        × (to_bytes r ≡ 0 ∷ 5 ∷ 5 ∷ 0 ∷ 0 ∷ 0 ∷ 0 ∷ 0 ∷ []))
set_address_lem_example = set_address_lem 5
