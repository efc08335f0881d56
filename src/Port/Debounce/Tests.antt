-- ===== src/Port/Debounce/Tests.antt =====
-- Runs of the detector of lib.rs on concrete samples.
use embassy_rp_pio_usb_host.Common.{◌≡◌, ◌≢◌, refl, [], ◌∷◌, take, replicate, arith}
use embassy_rp_pio_usb_host.Port.{
  se0, j_full_speed, full, attached, new, update, count_sample, settle, event_of,
}
use embassy_rp_pio_usb_host.Port.Debounce.{after, update_event, stable-after}

update_event_example :
    (take 2 (j_full_speed ∷ j_full_speed ∷ []) ≡ replicate 2 j_full_speed)
    × (attached full ≡ event_of j_full_speed)
    × (j_full_speed ≢ (after 2 (j_full_speed ∷ [])).stable)
    × ((after 2 (j_full_speed ∷ j_full_speed ∷ [])).stable ≡ j_full_speed)
unfolding after update count_sample settle new
update_event_example =
    update_event 2 (omega arith) (omega arith) (j_full_speed ∷ []) j_full_speed (attached full) refl

stable-after_example : (after 2 (j_full_speed ∷ j_full_speed ∷ se0 ∷ [])).stable ≡ j_full_speed
stable-after_example =
    stable-after 2 (omega arith) (omega arith) j_full_speed (j_full_speed ∷ j_full_speed ∷ se0 ∷ [])
      refl
