-- ===== src/Wire/Nrzi/Encoder.antt =====
-- `EncodedPacket::encode` sends the line code of the packet: what it pushes, and when it fails.
use mathlib.Core.List.{append_assoc, map-append}
use embassy_rp_pio_usb_host.Common.{
  ℕ, zero, suc, ◌≡◌, refl, sym, ap, ◌∙◌, Bool, not, List, [], ◌∷◌, ◌++◌, map, Result, ok, ◌>>=◌,
  ◌==◌, Bytes, Result-cases, Bool-cases, inl, inr,
}
use embassy_rp_pio_usb_host.Wire.Nrzi.{
  TxSymbol, EncodeError, EncodedPacket, push, Encoding, symbol_of, encode_bit, encode_bits,
  encode_bytes, bit_of,
}
use embassy_rp_pio_usb_host.Wire.Nrzi.LineCode.{
  bit_levels, next_ones, next_level, line_code, end_ones, end_level, level_of, ones_with, byte_bits,
  packet_bits,
}

-- Pushing symbols one after the other.
unfoldable pub push_all : EncodedPacket → List TxSymbol → Result EncodeError EncodedPacket
push_all packet [] = ok packet
push_all packet (s ∷ ss) = do packet' ← push packet s; push_all packet' ss

pub push_all-append :
    (p : EncodedPacket) (xs ys : List TxSymbol)
    → push_all p (xs ++ ys) ≡ (push_all p xs >>= λ q. push_all q ys)
unfolding push_all
push_all-append p [] ys = refl
push_all-append p (x ∷ xs) ys = elim (Result-cases (push p x)) [
  | inl (q, e) ↦ rw e (push_all-append q xs ys)
  | inr (w, e) ↦ rw e
]

abbrev encoding : Bool → ℕ → EncodedPacket → Encoding
encoding level ones packet = record {
  packet = packet;
  current_state_is_j = level;
  consecutive_ones = ones;
}

encode_bit_lem :
    (p : EncodedPacket) (ones : ℕ) (level bit : Bool)
    → encode_bit (encoding level ones p) bit ≡ (
        push_all p (map symbol_of (bit_levels ones level bit)) >>= λ q.
        ok (encoding (next_level ones level bit) (next_ones ones bit) q))
unfolding encode_bit push_all
encode_bit_lem p ones level bit = elim (Result-cases (push p (symbol_of (level_of level bit)))) [
  | inl (q, e) ↦ elim (Bool-cases (ones_with ones bit == 6)) [
    | inl six ↦
        rw (e, six)
          (elim (Result-cases (push q (symbol_of (not (level_of level bit))))) [
            | inl (r, f) ↦ rw f
            | inr (w, f) ↦ rw f
          ])
    | inr less ↦ rw (e, less)
  ]
  | inr (w, e) ↦ rw e
]

-- The bits of a byte from `i` on.
abbrev bits_from : ℕ → ℕ → ℕ → List Bool
bits_from zero i byte = []
bits_from (suc left) i byte = bit_of byte i ∷ bits_from left (suc i) byte

encode_bits_lem :
    (left i byte : ℕ) (p : EncodedPacket) (ones : ℕ) (level : Bool)
    → encode_bits left i byte (encoding level ones p) ≡ (
        push_all p (map symbol_of (line_code ones level (bits_from left i byte))) >>= λ q. ok (
          encoding
            (end_level ones level (bits_from left i byte))
            (end_ones ones (bits_from left i byte))
            q))
unfolding encode_bits push_all line_code end_ones end_level
encode_bits_lem zero i byte p ones level = refl
encode_bits_lem (suc left) i byte p ones level =
    let bit = bit_of byte i in
    let rest = bits_from left (suc i) byte in
    let levels = bit_levels ones level bit in
    let more = line_code (next_ones ones bit) (next_level ones level bit) rest in
    rw
      (
        encode_bit_lem p ones level bit,
        ap (push_all p) (map-append symbol_of levels more),
        push_all-append p (map symbol_of levels) (map symbol_of more),
      )
      (elim (Result-cases (push_all p (map symbol_of levels))) [
        | inl (q, e) ↦
            rw e
              (encode_bits_lem left (suc i) byte q (next_ones ones bit) (next_level ones level bit))
        | inr (w, e) ↦ rw e
      ])

-- The line code of two runs of bits.
line_code-append :
    (ones : ℕ) (level : Bool) (xs ys : List Bool)
    → line_code ones level (xs ++ ys)
      ≡ line_code ones level xs ++ line_code (end_ones ones xs) (end_level ones level xs) ys
unfolding line_code end_ones end_level
line_code-append ones level [] ys = refl
line_code-append ones level (x ∷ xs) ys =
    ap (λ (t : List Bool). bit_levels ones level x ++ t)
      (line_code-append (next_ones ones x) (next_level ones level x) xs ys)
    ∙ sym (append_assoc (bit_levels ones level x) _ _)

-- The variables after the bytes of a packet.
abbrev pub bytes_ones : ℕ → Bytes → ℕ
bytes_ones ones [] = ones
bytes_ones ones (b ∷ raw) = bytes_ones (end_ones ones (byte_bits b)) raw

abbrev pub bytes_level : ℕ → Bool → Bytes → Bool
bytes_level ones level [] = level
bytes_level ones level (b ∷ raw) =
    bytes_level (end_ones ones (byte_bits b)) (end_level ones level (byte_bits b)) raw

-- Encoding bytes pushes the symbols of their line code.
pub encode_bytes_lem :
    (raw : Bytes) (p : EncodedPacket) (ones : ℕ) (level : Bool)
    → encode_bytes raw (encoding level ones p) ≡ (
        push_all p (map symbol_of (line_code ones level (packet_bits raw))) >>= λ q.
        ok (encoding (bytes_level ones level raw) (bytes_ones ones raw) q))
unfolding encode_bytes push_all
encode_bytes_lem [] p ones level = unfold line_code push_all in refl
encode_bytes_lem (b ∷ raw) p ones level =
    let bits = byte_bits b in
    let levels = line_code ones level bits in
    let more = line_code (end_ones ones bits) (end_level ones level bits) (packet_bits raw) in
    rw
      (
        encode_bits_lem 8 0 b p ones level,
        line_code-append ones level bits (packet_bits raw),
        map-append symbol_of levels more,
        push_all-append p (map symbol_of levels) (map symbol_of more),
      )
      (elim (Result-cases (push_all p (map symbol_of levels))) [
        | inl (q, e) ↦
            rw e (encode_bytes_lem raw q (end_ones ones bits) (end_level ones level bits))
        | inr (w, e) ↦ rw e
      ])
