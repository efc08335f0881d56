-- ===== src/Ftdi/Read/Stream.antt =====
-- The stream of bytes that `FtdiHost::read` delivers, against the payloads of the packets.
use Prim.Native.Nat.{min}
use embassy_rp_pio_usb_host.Common.{
  ℕ, zero, suc, ◌+◌, ◌-◌, ◌≤◌, ◌<◌, ◌≡◌, refl, sym, ap, ◌∙◌, true, false, List, [], ◌∷◌, ◌++◌,
  Result, ok, err, ltb, ◌==◌, length, take, drop, Bytes, Bool-cases, inl, inr, arith, take-append,
  ◌≢◌, map, All,
}
use embassy_rp_pio_usb_host.Common.Slices.{drop-drop, take_split, take-drop, take-nil}
use embassy_rp_pio_usb_host.Ftdi.Read.{
  RxBuffer, copy_buffered, ReadResult, waiting, failed, done, received_into, with_status,
  read_packets, read,
}

-- The bytes that are buffered and not delivered.
abbrev pub pending : RxBuffer → Bytes
pending s = take (s.rx_end - s.rx_start) (drop s.rx_start s.rx_packet)

-- What the device sends to the application: each packet but for its two status bytes.
pub payload_bytes {ℓ} : {E : Type ℓ} → List (Result E Bytes) → Bytes
payload_bytes [] = []
payload_bytes (err e ∷ packets) = payload_bytes packets
payload_bytes (ok received ∷ packets) = drop 2 received ++ payload_bytes packets

copy_buffered_lem :
    (s : RxBuffer) (capacity : ℕ)
    → s.rx_start ≤ s.rx_end
    → (copy_buffered s capacity).0 ++ pending (copy_buffered s capacity).1 ≡ pending s
unfolding copy_buffered
copy_buffered_lem s capacity h =
    let count = min capacity (s.rx_end - s.rx_start) in
    let small : count ≤ s.rx_end - s.rx_start = omega arith in
    let split = take_split count (s.rx_end - s.rx_start) (drop s.rx_start s.rx_packet) small in
    elim (Bool-cases (s.rx_start + count == s.rx_end)) [
      | inl last ↦
          let nothing : s.rx_end - s.rx_start - count ≡ 0 = ground arith in
          rw last (
            sym (
              split
              ∙ ap
                  (λ (k : ℕ).
                    take count (drop s.rx_start s.rx_packet)
                    ++ take k (drop count (drop s.rx_start s.rx_packet)))
                  nothing))
      | inr more ↦
          let left : s.rx_end - s.rx_start - count ≡ s.rx_end - (s.rx_start + count) =
            omega arith in
          rw more (
            sym (
              split
              ∙ ap
                  (λ (k : ℕ).
                    take count (drop s.rx_start s.rx_packet)
                    ++ take k (drop count (drop s.rx_start s.rx_packet)))
                  left
              ∙ ap
                  (λ (l : Bytes).
                    take count (drop s.rx_start s.rx_packet)
                    ++ take (s.rx_end - (s.rx_start + count)) l)
                  (drop-drop s.rx_start count s.rx_packet)))
    ]

take-min : {A : Type 0} (c n : ℕ) (xs : List A) → take (min c n) xs ≡ take c (take n xs)
take-min c n [] = take-nil (min c n) ∙ sym (take-nil c) ∙ ap (take c) (sym (take-nil n))
take-min zero n (x ∷ xs) =
    let none : min 0 n ≡ 0 = omega arith in ap (λ (k : ℕ). take k (x ∷ xs)) none
take-min (suc c) zero (x ∷ xs) =
    let none : min (suc c) 0 ≡ 0 = omega arith in ap (λ (k : ℕ). take k (x ∷ xs)) none
take-min (suc c) (suc n) (x ∷ xs) =
    let both : min (suc c) (suc n) ≡ suc (min c n) = omega arith in
    ap (λ (k : ℕ). take k (x ∷ xs)) both ∙ ap (◌∷◌ x) (take-min c n xs)

append_cancel : {A : Type 0} (xs : List A) {ys zs : List A} → xs ++ ys ≡ xs ++ zs → ys ≡ zs
append_cancel [] h = h
append_cancel (x ∷ xs) h = append_cancel xs (ap (drop 1) h)

copied_first :
    (s : RxBuffer) (capacity : ℕ) → (copy_buffered s capacity).0 ≡ take capacity (pending s)
unfolding copy_buffered
copied_first s capacity = take-min capacity (s.rx_end - s.rx_start) (drop s.rx_start s.rx_packet)

-- What goes to the caller's buffer, and what stays for the next call.
copied_lem :
    (s : RxBuffer) (capacity : ℕ)
    → s.rx_start ≤ s.rx_end
    → ((copy_buffered s capacity).0 ≡ take capacity (pending s))
      × (pending (copy_buffered s capacity).1 ≡ drop capacity (pending s))
copied_lem s capacity h = (
  copied_first s capacity,
  append_cancel (take capacity (pending s)) (
      ap (λ (l : Bytes). l ++ pending (copy_buffered s capacity).1) (sym (copied_first s capacity))
      ∙ copy_buffered_lem s capacity h
      ∙ sym (take-drop capacity (pending s))),
)

-- The delivered bytes, the buffered ones and those of the packets not taken make up `total`.
abbrev pub Delivers {ℓ} : {E : Type ℓ} → Bytes → ReadResult E → Type 0
Delivers total waiting = Unit
Delivers total (failed e) = Unit
Delivers total (done (out, s) rest) = (out ++ pending s) ++ payload_bytes rest ≡ total

short_payload : (received : Bytes) → length received ≤ 2 → drop 2 received ≡ []
short_payload [] h = refl
short_payload (a ∷ []) h = refl
short_payload (a ∷ b ∷ []) h = refl
short_payload (a ∷ b ∷ c ∷ rest) h = absurd (omega arith)

fresh_payload :
    (received old : Bytes)
    → 2 < length received
    → take (length received - 2) (drop 2 (received ++ old)) ≡ drop 2 received
fresh_payload [] old h = absurd (omega arith)
fresh_payload (a ∷ []) old h = absurd (omega arith)
fresh_payload (a ∷ b ∷ rest) old h =
    let same : length (a ∷ b ∷ rest) - 2 ≡ length rest = omega arith in
    rw same (take-append rest old)

module _ {ℓ} {E : Type ℓ} (overflow : E) (packet_size capacity : ℕ) where
  read_packets-Delivers :
      (packets : List (Result E Bytes)) (s : RxBuffer)
      → Delivers (payload_bytes packets) (read_packets overflow packet_size capacity packets s)
  unfolding read_packets payload_bytes
  read_packets-Delivers [] s = tt
  read_packets-Delivers (err e ∷ packets) s = tt
  read_packets-Delivers (ok received ∷ packets) s =
      let written = received_into s received in
      let noted = with_status written received in
      let loaded : RxBuffer = record noted { rx_start = 2; rx_end = length received } in
      let later = λ (r : RxBuffer). read_packets overflow packet_size capacity packets r in
      elim (Bool-cases (ltb packet_size (length received))) [
        | inl long ↦ rw long tt
        | inr fits ↦ elim (Bool-cases (ltb (length received) 2)) [
          | inl short ↦
              rw (fits, short, short_payload received (ground arith))
                (read_packets-Delivers packets written)
          | inr enough ↦ elim (Bool-cases (length received == 2)) [
            | inl status ↦
                rw (fits, enough, status, short_payload received (ground arith))
                  (read_packets-Delivers packets noted)
            | inr data_too ↦
                rw (fits, enough, data_too)
                  (ap (λ (l : Bytes). l ++ payload_bytes packets)
                    (copy_buffered_lem loaded capacity (ground arith)
                      ∙ fresh_payload received (drop (length received) s.rx_packet) (ground arith)))
          ]
        ]
      ]

  -- Whatever `read` does, no byte is lost, repeated or reordered: when it is done, the bytes that it
  -- delivers, those that stay buffered and the payloads of the packets that it has not taken are,
  -- in this order, the bytes buffered before and the payloads of all packets. The hypothesis is that
  -- `rx_start` is not past `rx_end`.
  pub read-Delivers :
      (packets : List (Result E Bytes)) (s : RxBuffer)
      → s.rx_start ≤ s.rx_end
      → Delivers (pending s ++ payload_bytes packets) (read overflow packet_size capacity packets s)
  unfolding read
  read-Delivers packets s h = elim (Bool-cases (capacity == 0)) [
    | inl none_wanted ↦ rw none_wanted refl
    | inr wanted ↦ elim (Bool-cases (s.rx_start == s.rx_end)) [
      | inl empty ↦
          let nothing : s.rx_end - s.rx_start ≡ 0 = ground arith in
          rw (wanted, empty, nothing) (read_packets-Delivers packets s)
      | inr buffered ↦
          rw (wanted, buffered)
            (ap (λ (l : Bytes). l ++ payload_bytes packets) (copy_buffered_lem s capacity h))
    ]
  ]

  read_packets-done :
      (shorts : List Bytes) (long : Bytes) (rest : List (Result E Bytes)) (s : RxBuffer)
      → All (λ (p : Bytes). length p ≤ 2) shorts
      → 2 < length long
      → length long ≤ packet_size
      → (r : RxBuffer) × (pending r ≡ drop 2 long)
        × (r.rx_start ≤ r.rx_end)
        × (read_packets overflow packet_size capacity (map ok shorts ++ ok long ∷ rest) s
            ≡ done (copy_buffered r capacity) rest)
  unfolding read_packets
  read_packets-done [] long rest s w more fits =
      let noted = with_status (received_into s long) long in
      let loaded : RxBuffer = record noted { rx_start = 2; rx_end = length long } in
      let whole : ltb packet_size (length long) ≡ false = ground arith in
      let enough : ltb (length long) 2 ≡ false = ground arith in
      let data_too : length long == 2 ≡ false = ground arith in
      (
        loaded,
        fresh_payload long (drop (length long) s.rx_packet) more,
        omega arith,
        rw (whole, enough, data_too),
      )
  read_packets-done (p ∷ shorts) long rest s (small, w) more fits =
      let written = received_into s p in
      let whole : ltb packet_size (length p) ≡ false = ground arith in
      elim (Bool-cases (ltb (length p) 2)) [
        | inl short ↦
            let (r, e, o, d) = read_packets-done shorts long rest written w more fits in
            (r, e, o, rw (whole, short) d)
        | inr enough ↦
            let status : length p == 2 ≡ true = ground arith in
            let (r, e, o, d) =
              read_packets-done shorts long rest (with_status written p) w more fits in
            (r, e, o, rw (whole, enough, status) d)
      ]

  -- With nothing buffered, `read` returns at the first packet with a payload, whatever
  -- number of packets without payload come first: for a capacity other than zero and a packet that
  -- fits the endpoint, it delivers the first `capacity` bytes of this packet's payload, or all of
  -- them if they are fewer, and buffers exactly the rest of them; it takes no further packet.
  pub read-done :
      (shorts : List Bytes) (long : Bytes) (rest : List (Result E Bytes)) (s : RxBuffer)
      → capacity ≢ 0
      → s.rx_start ≡ s.rx_end
      → All (λ (p : Bytes). length p ≤ 2) shorts
      → 2 < length long
      → length long ≤ packet_size
      → (r : RxBuffer) × (read overflow packet_size capacity (map ok shorts ++ ok long ∷ rest) s
          ≡ done (take capacity (drop 2 long), r) rest)
        × (pending r ≡ drop capacity (drop 2 long))
  unfolding read
  read-done shorts long rest s wanted empty w more fits =
      let some_room : capacity == 0 ≡ false = ground arith in
      let nothing : s.rx_start == s.rx_end ≡ true = ground arith in
      let (r, e, o, d) = read_packets-done shorts long rest s w more fits in
      let (out, left) = copied_lem r capacity o in
      let copied : copy_buffered r capacity
          ≡ (take capacity (drop 2 long), (copy_buffered r capacity).1) =
        ap (λ (l : Bytes). (l, (copy_buffered r capacity).1))
          (out ∙ ap (λ (l : Bytes). take capacity l) e) in
      (
        (copy_buffered r capacity).1,
        rw (some_room, nothing) (d ∙ ap (λ (c : Bytes × RxBuffer). done c rest) copied),
        left ∙ ap (λ (l : Bytes). drop capacity l) e,
      )
