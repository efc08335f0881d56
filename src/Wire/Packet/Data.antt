-- ===== src/Wire/Packet/Data.antt =====
-- Data packets: what `RawDataPacket::new` builds and what `parse_packet` accepts are the same.
use embassy_rp_pio_usb_host.Common.{
  ℕ, suc, ◌+◌, ◌-◌, ◌*◌, ◌/◌, ◌%◌, ◌^◌, ◌≤◌, ◌<◌, ◌≡◌, refl, sym, ap, ◌∙◌, subst, true, false, [],
  ◌∷◌, ◌++◌, ok, err, ltb, ◌==◌, if◌then◌else◌, length, set, replicate, write_at, Bytes, IsBytes,
  arith, bit_or, length-append, length-replicate, set_behind, set_behind_next, write_at-cons,
  write_at_front, replicate_split, get_or-append, take-append, Bool-cases, inl, inr, ==_iff,
}
use mathlib.Core.List.{append_assoc}
use embassy_rp_pio_usb_host.Common.Bits.{bit_or_low}
use embassy_rp_pio_usb_host.Wire.Crc.{crc16_data, crc16_data-lt}
use embassy_rp_pio_usb_host.Wire.Pid.{sync, is_data_pid}
use embassy_rp_pio_usb_host.Wire.Packet.{
  RawDataPacket, PacketError, ParsedPacket, data_bytes, new, as_bytes, parse_packet, parse_data,
}

-- The layout of a data packet on the wire.
abbrev pub data_layout : ℕ → Bytes → Bytes
data_layout pid payload =
    sync ∷ pid ∷ (payload ++ (crc16_data payload % 256) ∷ (crc16_data payload / 256) ∷ [])

-- The zeroed buffer behind the first two bytes, cut at the end of a payload of `n` bytes.
zeros_split :
    (n : ℕ) → n ≤ 100 → replicate {A = ℕ} 102 0 ≡ replicate n 0 ++ (0 ∷ 0 ∷ replicate (100 - n) 0)
zeros_split n h =
    let e : 102 ≡ n + suc (suc (100 - n)) = omega arith in
    ap (λ (k : ℕ). replicate {A = ℕ} k 0) e ∙ replicate_split n (suc (suc (100 - n))) 0

data_bytes_lem :
    (pid : ℕ) (payload : Bytes)
    → length payload ≤ 100
    → data_bytes pid payload
      ≡ sync
        ∷ pid
        ∷ (payload
            ++ (crc16_data payload % 256)
              ∷ (crc16_data payload / 256 % 256)
              ∷ replicate (100 - length payload) 0)
unfolding data_bytes
data_bytes_lem pid payload h =
    let n = length payload in
    let lo = crc16_data payload % 256 in
    let hi = crc16_data payload / 256 % 256 in
    let zeros = replicate {A = ℕ} (100 - n) 0 in
    let front =
      ap (λ (z : Bytes). write_at z 0 payload) (zeros_split n h)
      ∙ write_at_front payload (replicate n 0) (0 ∷ 0 ∷ zeros) (length-replicate n 0) in
    let filled : write_at (sync ∷ pid ∷ replicate 102 0) 2 payload
        ≡ sync ∷ pid ∷ (payload ++ (0 ∷ 0 ∷ zeros)) =
      write_at-cons payload (pid ∷ replicate 102 0) 1 sync
      ∙ ap (◌∷◌ sync) (write_at-cons payload (replicate 102 0) 0 pid ∙ ap (◌∷◌ pid) front) in
    let at_lo : 2 + n ≡ suc (suc n) = omega arith in
    let at_hi : 3 + n ≡ suc (suc (suc n)) = omega arith in
    rw (filled, at_lo, at_hi)
      (ap (λ (t : Bytes). sync ∷ pid ∷ t)
        (ap (λ (t : Bytes). set t (suc n) hi) (set_behind payload (0 ∷ zeros) 0 lo)
          ∙ set_behind_next payload zeros lo 0 hi))

-- What `new` returns for an accepted identifier and payload, seen through `as_bytes`.
as_bytes_built :
    (pid : ℕ) (payload : Bytes)
    → length payload ≤ 100
    → IsBytes payload
    → as_bytes (record { bytes = data_bytes pid payload; len = length payload + 4 })
      ≡ data_layout pid payload
unfolding as_bytes
as_bytes_built pid payload h bs =
    let n = length payload in
    let lo = crc16_data payload % 256 in
    let small : crc16_data payload / 256 % 256 ≡ crc16_data payload / 256 =
      omega (arith, crc16_data-lt payload bs) in
    let zeros = replicate {A = ℕ} (100 - n) 0 in
    let long : n + 4 ≡ suc (suc (length (payload ++ lo ∷ (crc16_data payload / 256) ∷ []))) =
      omega (arith, length-append payload (lo ∷ (crc16_data payload / 256) ∷ [])) in
    rw (data_bytes_lem pid payload h, small, long)
      (ap (λ (t : Bytes). sync ∷ pid ∷ t)
        (rw (← append_assoc payload (lo ∷ (crc16_data payload / 256) ∷ []) zeros)
          (take-append (payload ++ lo ∷ (crc16_data payload / 256) ∷ []) zeros)))

new_ok :
    (pid : ℕ) (payload : Bytes)
    → is_data_pid pid ≡ true
    → length payload ≤ 100
    → new pid payload ≡ ok (record { bytes = data_bytes pid payload; len = length payload + 4 })
unfolding new
new_ok pid payload h le = ground arith

-- The data arm on a packet that is cut into payload and checksum.
parse_data_cut :
    (pid lo hi : ℕ) (payload : Bytes)
    → parse_data pid (sync ∷ pid ∷ (payload ++ lo ∷ hi ∷ [])) ≡ (
        if crc16_data payload == bit_or lo (hi * 2 ^ 8)
        then ok (ParsedPacket.data_packet pid payload)
        else err PacketError.invalid_crc16)
unfolding parse_data
parse_data_cut pid lo hi payload =
    let n = length payload in
    let body = payload ++ lo ∷ hi ∷ [] in
    let size : length body ≡ n + 2 = length-append payload (lo ∷ hi ∷ []) in
    let long : ltb (suc (suc (length body))) 4 ≡ false = ground arith in
    let payload_end : suc (suc (length body)) - 4 ≡ n = omega arith in
    let lo_place : suc (suc (length body)) - 2 ≡ suc (suc (n + 0)) = omega arith in
    let hi_place : suc (suc (length body)) - 1 ≡ suc (suc (n + 1)) = omega arith in
    rw
      (
        long,
        payload_end,
        lo_place,
        hi_place,
        take-append payload (lo ∷ hi ∷ []),
        get_or-append payload (lo ∷ hi ∷ []) 0 0,
        get_or-append payload (lo ∷ hi ∷ []) 1 0,
      )
      (elim (Bool-cases (crc16_data payload == bit_or lo (hi * 256))) [
        | inl same ↦ rw same
        | inr differs ↦ rw differs
      ])

-- The received checksum, put together from its two bytes.
received_crc_lem : (crc : ℕ) → bit_or (crc % 256) (crc / 256 * 2 ^ 8) ≡ crc
received_crc_lem crc = omega (arith, bit_or_low 8 (crc % 256) (crc / 256) (omega arith))

parse_data_lem :
    (pid : ℕ) (payload : Bytes)
    → parse_data pid (data_layout pid payload) ≡ ok (ParsedPacket.data_packet pid payload)
parse_data_lem pid payload =
    parse_data_cut pid (crc16_data payload % 256) (crc16_data payload / 256) payload
    ∙ rw (received_crc_lem (crc16_data payload), (==_iff (crc16_data payload) _).1 refl)

-- The dispatch of `parse_packet` on a data packet of at least four bytes.
parse_packet_data :
    (pid : ℕ) (rest : Bytes)
    → is_data_pid pid ≡ true
    → parse_packet (sync ∷ pid ∷ rest) ≡ parse_data pid (sync ∷ pid ∷ rest)
unfolding parse_packet parse_data
parse_packet_data pid rest h = ground arith

-- A payload of at most 100 bytes and a DATA0 or DATA1 identifier are accepted, and `parse_packet`
-- reads both back from the bytes of the packet that `RawDataPacket::new` builds.
pub parse_packet-new :
    (pid : ℕ) (payload : Bytes)
    → is_data_pid pid ≡ true
    → length payload ≤ 100
    → IsBytes payload
    → (packet : RawDataPacket) × (new pid payload ≡ ok packet)
      × (parse_packet (as_bytes packet) ≡ ok (ParsedPacket.data_packet pid payload))
parse_packet-new pid payload h le bs = (
  record { bytes = data_bytes pid payload; len = length payload + 4 },
  new_ok pid payload h le,
  rw (as_bytes_built pid payload le bs) (parse_packet_data pid _ h ∙ parse_data_lem pid payload),
)

-- Every list with two elements at least ends in two elements.
cut_end :
    (xs : Bytes) → 2 ≤ length xs → (ys : Bytes) × (lo : ℕ) × (hi : ℕ) × (xs ≡ ys ++ lo ∷ hi ∷ [])
cut_end [] h = absurd (omega arith)
cut_end (x ∷ []) h = absurd (omega arith)
cut_end (x ∷ y ∷ []) h = ([], x, y, refl)
cut_end (x ∷ y ∷ z ∷ zs) h =
    let (ys, lo, hi, e) = cut_end (y ∷ z ∷ zs) (omega arith) in (x ∷ ys, lo, hi, ap (◌∷◌ x) e)

All-append_parts : (xs ys : Bytes) → IsBytes (xs ++ ys) → IsBytes xs × IsBytes ys
All-append_parts [] ys h = (tt, h)
All-append_parts (x ∷ xs) ys h = let (a, b) = All-append_parts xs ys h.1 in ((h.0, a), b)

-- An accepted data packet shows its parts.
parse_packet_parts :
    (bytes payload : Bytes) (pid : ℕ)
    → parse_packet bytes ≡ ok (ParsedPacket.data_packet pid payload)
    → (is_data_pid pid ≡ true) × (rest : Bytes) × (2 ≤ length rest) × (bytes ≡ sync ∷ pid ∷ rest)
unfolding parse_packet parse_data
parse_packet_parts [] payload pid h = cc
parse_packet_parts (a ∷ []) payload pid h = cc
parse_packet_parts (a ∷ b ∷ rest) payload pid h = (ground arith, rest, ground arith, ground arith)

new_of_cut :
    (pid lo hi : ℕ) (payload body : Bytes)
    → is_data_pid pid ≡ true
    → IsBytes body
    → lo < 256
    → hi < 256
    → length body ≤ 100
    → parse_packet (sync ∷ pid ∷ (body ++ lo ∷ hi ∷ [])) ≡ ok (ParsedPacket.data_packet pid payload)
    → (packet : RawDataPacket) × (new pid payload ≡ ok packet)
      × (as_bytes packet ≡ sync ∷ pid ∷ (body ++ lo ∷ hi ∷ []))
new_of_cut pid lo hi payload body is_data bs lo-lt hi-lt fits h =
    let parsed : (if crc16_data body == bit_or lo (hi * 2 ^ 8)
          then ok (ParsedPacket.data_packet pid body)
          else err PacketError.invalid_crc16)
        ≡ ok (ParsedPacket.data_packet pid payload) =
      sym (parse_data_cut pid lo hi body) ∙ sym (parse_packet_data pid _ is_data) ∙ h in
    elim (Bool-cases (crc16_data body == bit_or lo (hi * 2 ^ 8))) [
      | inl same ↦
          let same_payload : body ≡ payload = ground arith in
          let crc : crc16_data body ≡ hi * 256 + lo =
            (==_iff _ _).0 same ∙ bit_or_low 8 lo hi (omega arith) in
          let lo_is : crc16_data body % 256 ≡ lo = omega arith in
          let hi_is : crc16_data body / 256 ≡ hi = omega arith in
          rw (← same_payload) (
            record { bytes = data_bytes pid body; len = length body + 4 },
            new_ok pid body is_data fits,
            as_bytes_built pid body fits bs ∙ rw (lo_is, hi_is),
          )
      | inr differs ↦ absurd (ground arith)
    ]

-- Whatever `parse_packet` accepts as a data packet, a byte string that fits the packet buffer, is
-- exactly what `RawDataPacket::new` builds from the identifier and the payload that it reports.
pub new-parse_packet :
    (bytes payload : Bytes) (pid : ℕ)
    → IsBytes bytes
    → length bytes ≤ 104
    → parse_packet bytes ≡ ok (ParsedPacket.data_packet pid payload)
    → (packet : RawDataPacket) × (new pid payload ≡ ok packet) × (as_bytes packet ≡ bytes)
new-parse_packet bytes payload pid bs fits h =
    let (is_data, rest, long, layout) = parse_packet_parts bytes payload pid h in
    let (body, lo, hi, cut) = cut_end rest long in
    let whole : bytes ≡ sync ∷ pid ∷ (body ++ lo ∷ hi ∷ []) =
      layout ∙ ap (λ (t : Bytes). sync ∷ pid ∷ t) cut in
    let in_range : IsBytes (sync ∷ pid ∷ (body ++ lo ∷ hi ∷ [])) = subst IsBytes whole bs in
    let (body_bytes, tail_bytes) = All-append_parts body (lo ∷ hi ∷ []) (in_range.1.1) in
    let size : length bytes ≡ suc (suc (length body + 2)) =
      ap length whole ∙ ap (λ (k : ℕ). suc (suc k)) (length-append body (lo ∷ hi ∷ [])) in
    let (packet, built, same) =
      new_of_cut pid lo hi payload body is_data body_bytes tail_bytes.0 tail_bytes.1.0 (omega arith)
        (ap parse_packet (sym whole) ∙ h) in
    (packet, built, same ∙ sym whole)

new-ok_lem :
    (pid : ℕ) (payload : Bytes) (packet : RawDataPacket)
    → new pid payload ≡ ok packet
    → (is_data_pid pid ≡ true) × (length payload ≤ 100)
unfolding new
new-ok_lem pid payload packet h = ground arith

-- What `parse_packet` reads from any packet that was built.
pub parse_packet-as_bytes :
    (pid : ℕ) (payload : Bytes) (packet : RawDataPacket)
    → new pid payload ≡ ok packet
    → IsBytes payload
    → parse_packet (as_bytes packet) ≡ ok (ParsedPacket.data_packet pid payload)
parse_packet-as_bytes pid payload packet h bs =
    let (is_data, fits) = new-ok_lem pid payload packet h in
    let (built, e, parsed) = parse_packet-new pid payload is_data fits bs in
    let same : packet ≡ built = cc in rw same parsed
