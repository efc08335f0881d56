-- ===== src/Wire/Toggle/Tests.antt =====
-- Concrete transfers.
use embassy_rp_pio_usb_host.Common.{◌≡◌, ◌≤◌, ◌⊎◌, List, [], ◌∷◌, ◌++◌, Bytes, length, All}
use embassy_rp_pio_usb_host.Wire.Toggle.{data0, bulk_in_pid, bulk_out_pid}
use embassy_rp_pio_usb_host.Wire.Toggle.Link.{Attempt, receive_all, served}
use embassy_rp_pio_usb_host.Wire.Toggle.Session.{
  fresh_link, receive_all_once, inward, outward, session, inwards, outwards, parity_pid,
  session_pids,
}

-- The first answer is lost, the second packet is damaged once.
abbrev attempts : List Attempt
attempts =
    Attempt.answer_lost ∷ Attempt.heard ∷ Attempt.damaged ∷ Attempt.heard ∷ Attempt.answer_lost ∷ []

abbrev three_packets : List Bytes
three_packets = (1 ∷ 2 ∷ []) ∷ (3 ∷ []) ∷ (4 ∷ []) ∷ []

receive_all_once_example :
    let link = receive_all 8 64 attempts (fresh_link data0 three_packets) in
    (link.queue ≡ (4 ∷ []) ∷ [])
    × (left : List Bytes) × (link.delivered ++ left ≡ three_packets)
    × ((link.queue ≡ left) ⊎ ((p : Bytes) × (link.queue ≡ p ∷ left)))
    × All (λ (d : Bytes). length d ≤ 64) link.delivered
unfolding served
receive_all_once_example = receive_all_once 8 64 attempts data0 three_packets

session_pids_example :
    (bulk_in_pid (session (outward ∷ inward ∷ outward ∷ []))
      ≡ parity_pid (inwards (outward ∷ inward ∷ outward ∷ [])))
    × (bulk_out_pid (session (outward ∷ inward ∷ outward ∷ []))
        ≡ parity_pid (outwards (outward ∷ inward ∷ outward ∷ [])))
session_pids_example = session_pids (outward ∷ inward ∷ outward ∷ [])
