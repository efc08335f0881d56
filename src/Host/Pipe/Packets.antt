-- ===== src/Host/Pipe/Packets.antt =====
-- How `request_out` cuts its data into packets.
use mathlib.Core.List.{append-nil}
use native.Mathlib.Nat.{
  lt_of_mul-lt-mul_right, le_of_mul-le-mul_right, mod-lt, mul-mod_left, div-add-mod', suc-mul,
  zero-mul,
}
use embassy_rp_pio_usb_host.Common.{
  ℕ, zero, suc, ◌+◌, ◌-◌, ◌*◌, ◌/◌, ◌%◌, ◌≡◌, ◌≢◌, ◌≤◌, ◌<◌, Bool, true, false, List, [], ◌∷◌, ◌++◌,
  All, Bytes, IsBytes, length, take, drop, refl, sym, ap, subst, ◌∙◌, arith, Bool-cases, ==_iff,
  inl, inr, ◌==◌,
}
use embassy_rp_pio_usb_host.Common.Slices.{length-drop, length-take, drop-drop, take_ge, take-drop}
use embassy_rp_pio_usb_host.Host.Pipe.{out_packet, out_packets_from, packet_count, out_packets}

take-IsBytes : (n : ℕ) (bs : Bytes) → IsBytes bs → IsBytes (take n bs)
take-IsBytes zero bs h = tt
take-IsBytes (suc n) [] h = tt
take-IsBytes (suc n) (b ∷ bs) h = (h.0, take-IsBytes n bs h.1)

drop-IsBytes : (n : ℕ) (bs : Bytes) → IsBytes bs → IsBytes (drop n bs)
drop-IsBytes zero bs h = h
drop-IsBytes (suc n) [] h = tt
drop-IsBytes (suc n) (b ∷ bs) h = drop-IsBytes n bs h.1

out_packets_from-IsBytes :
    (data_bytes : Bytes) (m i left : ℕ)
    → IsBytes data_bytes
    → All IsBytes (out_packets_from data_bytes m i left)
unfolding out_packets_from out_packet
out_packets_from-IsBytes data_bytes m i zero h = tt
out_packets_from-IsBytes data_bytes m i (suc left) h = (
  take-IsBytes m (drop (i * m) data_bytes) (drop-IsBytes (i * m) data_bytes h),
  out_packets_from-IsBytes data_bytes m (suc i) left h,
)

pub out_packets-IsBytes :
    (data_bytes : Bytes) (max_packet_size : ℕ) (ensure_transaction_end : Bool)
    → IsBytes data_bytes
    → All IsBytes (out_packets data_bytes max_packet_size ensure_transaction_end)
unfolding out_packets
out_packets-IsBytes data_bytes m ensure h =
    out_packets_from-IsBytes data_bytes m 0 (packet_count (length data_bytes) m ensure) h

-- The packets by recursion on what is left of the data.
pub chunks : ℕ → ℕ → Bytes → List Bytes
chunks zero m xs = []
chunks (suc left) m xs = take m xs ∷ chunks left m (drop m xs)

out_packets_from-chunks :
    (data_bytes : Bytes) (m i left : ℕ)
    → out_packets_from data_bytes m i left ≡ chunks left m (drop (i * m) data_bytes)
unfolding out_packets_from out_packet chunks
out_packets_from-chunks data_bytes m i zero = refl
out_packets_from-chunks data_bytes m i (suc left) =
    let next : i * m + m ≡ suc i * m = omega (arith, suc-mul i m) in
    ap (◌∷◌ (out_packet data_bytes m i)) (
      out_packets_from-chunks data_bytes m (suc i) left
      ∙ ap (λ xs. chunks left m xs)
          (sym (drop-drop (i * m) m data_bytes ∙ ap (λ (n : ℕ). drop n data_bytes) next)))

-- The bytes of packets, one packet after the other.
abbrev pub concat : List Bytes → Bytes
concat [] = []
concat (p ∷ ps) = p ++ concat ps

-- Every packet but the last is full. The last has room left when the end of the transfer is to be
-- seen; otherwise it is at most full, and not empty unless there is nothing to send.
IsLast : ℕ → Bool → ℕ → ℕ → Type 0
IsLast m true len n = n < m
IsLast m false len n = (n ≤ m) × (0 < len → 0 < n)

pub IsCut : ℕ → Bool → ℕ → List Bytes → Type 0
IsCut m ensure len [] = ⊥
IsCut m ensure len (p ∷ []) = IsLast m ensure len (length p)
IsCut m ensure len (p ∷ q ∷ ps) = (length p ≡ m) × IsCut m ensure len (q ∷ ps)

-- What is left of the data ends in the packet after some full ones.
Fits : ℕ → Bool → ℕ → ℕ → ℕ → Type 0
Fits m ensure len k n = (k * m ≤ n) × IsLast m ensure len (n - k * m)

IsLast-le : (m : ℕ) (ensure : Bool) (len n : ℕ) → IsLast m ensure len n → n ≤ m
unfolding IsLast
IsLast-le m true len n h = omega arith
IsLast-le m false len n h = h.0

Fits-drop :
    (m : ℕ) (ensure : Bool) (len k n : ℕ)
    → Fits m ensure len (suc k) n
    → Fits m ensure len k (n - m)
unfolding Fits
Fits-drop m ensure len k n (le, last) =
    let e : suc k * m ≡ k * m + m = suc-mul k m in
    (omega arith, subst (λ (j : ℕ). IsLast m ensure len j) (omega arith) last)

chunks-IsCut :
    (m : ℕ) (ensure : Bool) (len k : ℕ) (xs : Bytes)
    → Fits m ensure len k (length xs)
    → (concat (chunks (suc k) m xs) ≡ xs) × IsCut m ensure len (chunks (suc k) m xs)
unfolding chunks IsCut Fits
chunks-IsCut m ensure len zero xs (le, last) =
    let e : length xs - 0 * m ≡ length xs = omega (arith, zero-mul m) in
    let fits : IsLast m ensure len (length xs) = subst (λ (j : ℕ). IsLast m ensure len j) e last in
    rw (take_ge m xs (IsLast-le m ensure len (length xs) fits)) (append-nil xs, fits)
chunks-IsCut m ensure len (suc k) xs f =
    let e : suc k * m ≡ k * m + m = suc-mul k m in
    let (joined, cut) = chunks-IsCut m ensure len k (drop m xs) (
      subst (λ (j : ℕ). Fits m ensure len k j) (sym (length-drop m xs))
        (Fits-drop m ensure len k (length xs) f)) in
    (
      ap (λ ys. take m xs ++ ys) joined ∙ take-drop m xs,
      (length-take m xs (omega (arith, f.0)), cut),
    )

-- `div_ceil` counts the packets that data needs.
div_ceil_lem :
    (m n : ℕ)
    → 0 < m
    → (k : ℕ) × ((suc n + (m - 1)) / m ≡ suc k) × (k * m < suc n) × (suc n ≤ k * m + m)
div_ceil_lem m n h = go ((suc n + (m - 1)) / m) refl
  where
    go :
        (c : ℕ)
        → (suc n + (m - 1)) / m ≡ c
        → (k : ℕ) × ((suc n + (m - 1)) / m ≡ suc k) × (k * m < suc n) × (suc n ≤ k * m + m)
    go zero e =
        let parts : zero * m + (suc n + (m - 1)) % m ≡ suc n + (m - 1) =
          subst (λ (c : ℕ). c * m + (suc n + (m - 1)) % m ≡ suc n + (m - 1)) e
            (div-add-mod' (suc n + (m - 1)) m) in
        absurd (omega (arith, zero-mul m, parts, mod-lt (suc n + (m - 1)) h))
    go (suc k) e =
        let parts : suc k * m + (suc n + (m - 1)) % m ≡ suc n + (m - 1) =
          subst (λ (c : ℕ). c * m + (suc n + (m - 1)) % m ≡ suc n + (m - 1)) e
            (div-add-mod' (suc n + (m - 1)) m) in
        let s = suc-mul k m in
        let small = mod-lt (suc n + (m - 1)) h in (k, e, omega arith, omega arith)

-- Data that is a multiple of the packet size fills its packets.
multiple_lem : (m n k : ℕ) → 0 < m → n % m ≡ 0 → k * m < n → n ≤ k * m + m → n ≡ suc k * m
multiple_lem m n k h e lo hi =
    let q : ℕ = n / m in
    let parts : q * m ≡ n = omega (arith, div-add-mod' n m) in
    let above : k < q = lt_of_mul-lt-mul_right m (subst (λ (j : ℕ). k * m < j) (sym parts) lo) in
    let below : q ≤ suc k = le_of_mul-le-mul_right {k = m} (omega (arith, suc-mul k m)) h in
    let same : q ≡ suc k = omega arith in sym parts ∙ ap (λ (j : ℕ). j * m) same

packet_count-Fits :
    (m : ℕ) (ensure : Bool) (len : ℕ)
    → 0 < m
    → (k : ℕ) × (packet_count len m ensure ≡ suc k) × Fits m ensure len k len
unfolding packet_count Fits IsLast
packet_count-Fits m true zero h = (0, refl, (omega (arith, zero-mul m), omega (arith, zero-mul m)))
packet_count-Fits m false zero h =
    (0, refl, (omega (arith, zero-mul m), (omega (arith, zero-mul m), λ q. absurd (omega arith))))
packet_count-Fits m true (suc n) h =
    let (k, e, lo, hi) = div_ceil_lem m n h in
    elim (Bool-cases (suc n % m == 0)) [
      | inl t ↦
          let full = multiple_lem m (suc n) k h ((==_iff _ _).0 t) lo hi in
          (suc k, ground (arith, e), (omega arith, omega arith))
      | inr f ↦
          let partial : suc n ≢ k * m + m = λ q.
            let zero_mod : suc n % m ≡ 0 =
              ap (λ (j : ℕ). j % m) (q ∙ sym (suc-mul k m)) ∙ mul-mod_left (suc k) m in
            absurd (ground arith) in
          (k, ground (arith, e), (omega arith, omega arith))
    ]
packet_count-Fits m false (suc n) h =
    let (k, e, lo, hi) = div_ceil_lem m n h in
    (k, ground (arith, e), (omega arith, (omega arith, λ q. omega arith)))

-- The packets of an OUT transfer joined are its data; all but the last are full, and the last has room
-- left when the end of the transfer is to be seen, and otherwise is not empty unless there is no data.
pub out_packets-IsCut :
    (data_bytes : Bytes) (max_packet_size : ℕ) (ensure_transaction_end : Bool)
    → 0 < max_packet_size
    → let packets = out_packets data_bytes max_packet_size ensure_transaction_end in
      (concat packets ≡ data_bytes)
      × IsCut max_packet_size ensure_transaction_end (length data_bytes) packets
unfolding out_packets
out_packets-IsCut data_bytes m ensure h =
    let (k, e, f) = packet_count-Fits m ensure (length data_bytes) h in
    let whole : drop (0 * m) data_bytes ≡ data_bytes =
      ap (λ (n : ℕ). drop n data_bytes) (zero-mul m) in
    let cut = chunks-IsCut m ensure (length data_bytes) k data_bytes f in
    rw (e, out_packets_from-chunks data_bytes m 0 (suc k), whole) cut
