-- ===== src/Wire/Nrzi/Packing.antt =====
-- The transmit buffer of `EncodedPacket`: symbols packed four to a byte.
use mathlib.Core.List.{append_assoc, append-nil}
use embassy_rp_pio_usb_host.Common.{
  ℕ, zero, suc, ◌+◌, ◌-◌, ◌*◌, ◌/◌, ◌%◌, ◌^◌, ◌≤◌, ◌<◌, ◌≡◌, refl, sym, ap, ◌∙◌, true, false, List,
  [], ◌∷◌, ◌++◌, ok, err, leb, ltb, ◌==◌, if◌then◌else◌, length, set, take, replicate, Bytes,
  Bool-cases, inl, inr, byte_at, arith, bit_or, length-append,
}
use native.Mathlib.Nat.{zero-add}
use embassy_rp_pio_usb_host.Common.Bits.{bit_or_high, bit_and_mask}
use embassy_rp_pio_usb_host.Wire.Nrzi.{
  TxSymbol, symbol_code, encode_error, EncodedPacket, push, pad, symbols_of, symbol_at,
}
use embassy_rp_pio_usb_host.Wire.Nrzi.Encoder.{push_all}

abbrev pack_two : TxSymbol → TxSymbol → ℕ
pack_two a b = symbol_code a * 4 + symbol_code b

abbrev pack_three : TxSymbol → TxSymbol → TxSymbol → ℕ
pack_three a b c = pack_two a b * 4 + symbol_code c

abbrev pack_four : TxSymbol → TxSymbol → TxSymbol → TxSymbol → ℕ
pack_four a b c d = pack_three a b c * 4 + symbol_code d

-- A buffer of `n` bytes that holds some symbols, the byte in work filled from below.
pub pack : ℕ → List TxSymbol → Bytes
pack zero ss = []
pack (suc n) [] = 0 ∷ pack n []
pack (suc n) (a ∷ []) = symbol_code a ∷ pack n []
pack (suc n) (a ∷ b ∷ []) = pack_two a b ∷ pack n []
pack (suc n) (a ∷ b ∷ c ∷ []) = pack_three a b c ∷ pack n []
pack (suc n) (a ∷ b ∷ c ∷ d ∷ ss) = pack_four a b c d ∷ pack n ss

pub symbol_code-lt : (s : TxSymbol) → symbol_code s < 4
symbol_code-lt TxSymbol.se0 = omega arith
symbol_code-lt TxSymbol.k = omega arith
symbol_code-lt TxSymbol.release = omega arith
symbol_code-lt TxSymbol.j = omega arith

-- `(byte << 2) | symbol` on a byte that holds three symbols at most.
shift_in :
    (v : ℕ) (s : TxSymbol) → v < 64 → bit_or (v * 4 % 256) (symbol_code s) ≡ v * 4 + symbol_code s
shift_in v s h =
    let e : v * 4 % 256 ≡ v * 4 = omega arith in
    rw e (bit_or_high 2 v (symbol_code s) (symbol_code-lt s))

abbrev put : Bytes → ℕ → TxSymbol → Bytes
put bytes i s = set bytes i (bit_or (byte_at bytes i * 4 % 256) (symbol_code s))

-- One more symbol in the buffer.
put-pack :
    (n : ℕ) (ss : List TxSymbol) (s : TxSymbol)
    → length ss < n * 4
    → put (pack n ss) (length ss / 4) s ≡ pack n (ss ++ s ∷ [])
unfolding pack
put-pack zero ss s h = absurd (omega arith)
put-pack (suc n) [] s h =
    ap (λ (v : ℕ). v ∷ pack n []) (shift_in 0 s (omega arith) ∙ zero-add (symbol_code s))
put-pack (suc n) (a ∷ []) s h =
    ap (λ (v : ℕ). v ∷ pack n []) (shift_in (symbol_code a) s (omega (arith, symbol_code-lt)))
put-pack (suc n) (a ∷ b ∷ []) s h =
    ap (λ (v : ℕ). v ∷ pack n []) (shift_in (pack_two a b) s (omega (arith, symbol_code-lt)))
put-pack (suc n) (a ∷ b ∷ c ∷ []) s h =
    ap (λ (v : ℕ). v ∷ pack n []) (shift_in (pack_three a b c) s (omega (arith, symbol_code-lt)))
put-pack (suc n) (a ∷ b ∷ c ∷ d ∷ ss) s h =
    let e : suc (suc (suc (suc (length ss)))) / 4 ≡ suc (length ss / 4) = omega arith in
    rw e (ap (◌∷◌ (pack_four a b c d)) (put-pack n ss s (omega arith)))

length-pack : (n : ℕ) (ss : List TxSymbol) → length (pack n ss) ≡ n
unfolding pack
length-pack zero ss = refl
length-pack (suc n) [] = ap suc (length-pack n [])
length-pack (suc n) (a ∷ []) = ap suc (length-pack n [])
length-pack (suc n) (a ∷ b ∷ []) = ap suc (length-pack n [])
length-pack (suc n) (a ∷ b ∷ c ∷ []) = ap suc (length-pack n [])
length-pack (suc n) (a ∷ b ∷ c ∷ d ∷ ss) = ap suc (length-pack n ss)

-- A packet that holds some symbols.
abbrev pub packed : List TxSymbol → EncodedPacket
packed ss = record { bytes = pack 48 ss; len = 0; symbols = length ss }

-- `push` appends a symbol while fewer than 192 are in the buffer, and fails from then on.
push_lem :
    (ss : List TxSymbol) (s : TxSymbol)
    → push (packed ss) s
      ≡ (if ltb (length ss) 192 then ok (packed (ss ++ s ∷ [])) else err encode_error)
unfolding push
push_lem ss s = elim (Bool-cases (ltb (length ss) 192)) [
  | inl room ↦
      let free : leb (length (pack 48 ss)) (length ss / 4) ≡ false =
        ground (arith, length-pack 48 ss) in
      let size : length ss + 1 ≡ length (ss ++ s ∷ []) = sym (length-append ss (s ∷ [])) in
      rw (free, room, put-pack 48 ss s (ground arith), size)
  | inr full ↦
      let none_free : leb (length (pack 48 ss)) (length ss / 4) ≡ true =
        ground (arith, length-pack 48 ss) in
      rw (none_free, full)
]

-- The buffer of a new packet is empty.
pub pack-empty : (n : ℕ) → pack n [] ≡ replicate n 0
unfolding pack
pack-empty zero = refl
pack-empty (suc n) = ap (◌∷◌ 0) (pack-empty n)

pub push_all_lem :
    (xs ss : List TxSymbol)
    → length ss ≤ 192
    → push_all (packed ss) xs
      ≡ (if leb (length (ss ++ xs)) 192 then ok (packed (ss ++ xs)) else err encode_error)
unfolding push_all
push_all_lem [] ss h =
    let fits : leb (length ss) 192 ≡ true = ground arith in rw (append-nil ss, fits)
push_all_lem (x ∷ xs) ss h = elim (Bool-cases (ltb (length ss) 192)) [
  | inl room ↦
      let shorter : length (ss ++ x ∷ []) ≤ 192 = ground (arith, length-append ss (x ∷ [])) in
      rw (push_lem ss x, room, ← append_assoc ss (x ∷ []) xs)
        (push_all_lem xs (ss ++ x ∷ []) shorter)
  | inr full ↦
      let long : leb (length (ss ++ x ∷ xs)) 192 ≡ false =
        ground (arith, length-append ss (x ∷ xs)) in
      rw (push_lem ss x, full, long)
]

-- The padding that fills the byte in work.
abbrev pub padding : ℕ → List TxSymbol
padding n = replicate ((4 - n % 4) % 4) TxSymbol.k

-- The padding loop: with as much fuel as symbols are missing, three at most, it pushes these.
pub pad_lem :
    (fuel : ℕ) (ss : List TxSymbol)
    → (4 - length ss % 4) % 4 ≤ fuel
    → pad fuel (packed ss) ≡ push_all (packed ss) (padding (length ss))
unfolding pad push_all
pad_lem zero ss h = let done : (4 - length ss % 4) % 4 ≡ 0 = omega arith in rw done
pad_lem (suc fuel) ss h = elim (Bool-cases (length ss % 4 == 0)) [
  | inl aligned ↦ let done : (4 - length ss % 4) % 4 ≡ 0 = ground arith in rw (aligned, done)
  | inr partial ↦
      let missing : (4 - length ss % 4) % 4 ≡ suc ((4 - (length ss + 1) % 4) % 4) = ground arith in
      let size : length ss + 1 ≡ length (ss ++ TxSymbol.k ∷ []) =
        sym (length-append ss (TxSymbol.k ∷ [])) in
      rw (partial, missing, push_lem ss TxSymbol.k)
        (elim (Bool-cases (ltb (length ss) 192)) [
          | inl room ↦
              rw (room, size) (pad_lem fuel (ss ++ TxSymbol.k ∷ []) (rw (← size) (omega arith)))
          | inr full ↦ rw full
        ])
]

read_symbol :
    (byte place : ℕ) (s : TxSymbol)
    → byte / 2 ^ (6 - 2 * place) % 4 ≡ symbol_code s
    → symbol_at byte place ≡ s
read_symbol byte place TxSymbol.se0 h = rw (bit_and_mask 2 (byte / 2 ^ (6 - 2 * place)) 3 refl, h)
read_symbol byte place TxSymbol.k h = rw (bit_and_mask 2 (byte / 2 ^ (6 - 2 * place)) 3 refl, h)
read_symbol byte place TxSymbol.release h =
    rw (bit_and_mask 2 (byte / 2 ^ (6 - 2 * place)) 3 refl, h)
read_symbol byte place TxSymbol.j h = rw (bit_and_mask 2 (byte / 2 ^ (6 - 2 * place)) 3 refl, h)

read_four :
    (a b c d : TxSymbol) (rest : List TxSymbol)
    → let byte = pack_four a b c d in
      symbol_at byte 0 ∷ symbol_at byte 1 ∷ symbol_at byte 2 ∷ symbol_at byte 3 ∷ rest
      ≡ a ∷ b ∷ c ∷ d ∷ rest
read_four a b c d rest =
    let byte = pack_four a b c d in
    rw (
      read_symbol byte 0 a (omega (arith, symbol_code-lt)),
      read_symbol byte 1 b (omega (arith, symbol_code-lt)),
      read_symbol byte 2 c (omega (arith, symbol_code-lt)),
      read_symbol byte 3 d (omega (arith, symbol_code-lt)),
    )

-- Complete bytes read back as the symbols that they were packed from.
pub symbols_of-pack :
    (m n : ℕ) (ss : List TxSymbol)
    → m ≤ n
    → length ss ≡ m * 4
    → symbols_of (take m (pack n ss)) ≡ ss
unfolding symbols_of pack
symbols_of-pack zero n [] h e = refl
symbols_of-pack zero n (a ∷ ss) h e = absurd (omega arith)
symbols_of-pack (suc m) zero ss h e = absurd (omega arith)
symbols_of-pack (suc m) (suc n) [] h e = absurd (omega arith)
symbols_of-pack (suc m) (suc n) (a ∷ []) h e = absurd (omega arith)
symbols_of-pack (suc m) (suc n) (a ∷ b ∷ []) h e = absurd (omega arith)
symbols_of-pack (suc m) (suc n) (a ∷ b ∷ c ∷ []) h e = absurd (omega arith)
symbols_of-pack (suc m) (suc n) (a ∷ b ∷ c ∷ d ∷ ss) h e =
    read_four a b c d _
    ∙ ap (λ (t : List TxSymbol). a ∷ b ∷ c ∷ d ∷ t)
        (symbols_of-pack m n ss (omega arith) (omega arith))

-- What a successful sequence of pushes leaves.
pub push_all-packed :
    (xs ss : List TxSymbol) {q : EncodedPacket}
    → length ss ≤ 192
    → push_all (packed ss) xs ≡ ok q
    → q ≡ packed (ss ++ xs)
push_all-packed xs ss {q} h e =
    let both : (if leb (length (ss ++ xs)) 192 then ok (packed (ss ++ xs)) else err encode_error)
        ≡ ok q =
      sym (push_all_lem xs ss h) ∙ e in
    elim (Bool-cases (leb (length (ss ++ xs)) 192)) [
      | inl room ↦ cc (rw room at both)
      | inr full ↦ cc (rw full at both)
    ]
