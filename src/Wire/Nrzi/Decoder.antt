-- ===== src/Wire/Nrzi/Decoder.antt =====
-- `decode_nrzi` undoes the line code.
use embassy_rp_pio_usb_host.Common.{
  ℕ, ◌+◌, ◌^◌, ◌<◌, ◌≡◌, refl, ap, ◌∙◌, Bool, true, false, List, [], ◌∷◌, ◌++◌, map, Result, ok,
  ◌>>=◌, ◌>>◌, fail_if, leb, ◌==◌, if◌then◌else◌, length, set, Result-cases, inl, inr, byte_at,
  arith, bit_or,
}
use mathlib.Core.List.{map-append}
use embassy_rp_pio_usb_host.Wire.Nrzi.{
  WireState, NrziError, DecodedBytes, Decoding, decode_state, decode_states, packet_too_long,
}
use embassy_rp_pio_usb_host.Wire.Nrzi.LineCode.{
  bit_levels, next_ones, next_level, line_code, end_ones, end_level,
}

abbrev pub wire_of : Bool → WireState
wire_of level = if level then WireState.j else WireState.k

-- The decoder's state without what it knows of the line.
pub record Storage : Type 0 where
  pub result : DecodedBytes
  pub bit_index : ℕ

abbrev pub decoding : Storage → Bool → ℕ → Decoding
decoding st level ones = record {
  result = st.result;
  previous = wire_of level;
  consecutive_ones = ones;
  bit_index = st.bit_index;
}

-- `store_bit` without the line.
unfoldable pub put_bit : Storage → Bool → Result NrziError Storage
put_bit st bit = do
  let r = st.result
  fail_if (leb (length r.bytes) r.len) packet_too_long
  let written = set r.bytes r.len (bit_or (byte_at r.bytes r.len) (2 ^ st.bit_index))
  let full = st.bit_index + 1 == 8
  ok (record {
    result = record {
      bytes = if bit then written else r.bytes;
      len = if full then r.len + 1 else r.len;
    };
    bit_index = if full then 0 else st.bit_index + 1;
  })

unfoldable pub put_bits : Storage → List Bool → Result NrziError Storage
put_bits st [] = ok st
put_bits st (bit ∷ bits) = do st' ← put_bit st bit; put_bits st' bits

decode_states-append :
    (s : Decoding) (xs ys : List WireState)
    → decode_states s (xs ++ ys) ≡ (decode_states s xs >>= λ t. decode_states t ys)
unfolding decode_states
decode_states-append s [] ys = refl
decode_states-append s (x ∷ xs) ys = elim (Result-cases (decode_state s x)) [
  | inl (t, e) ↦ rw e (decode_states-append t xs ys)
  | inr (w, e) ↦ rw e
]

-- The levels of one bit.
decode_bit :
    (st : Storage) (ones : ℕ) (level bit : Bool)
    → ones < 6
    → decode_states (decoding st level ones) (map wire_of (bit_levels ones level bit))
      ≡ (put_bit st bit >>= λ t. ok (decoding t (next_level ones level bit) (next_ones ones bit)))
unfolding decode_states decode_state put_bit
decode_bit st ones true true h = ground arith
decode_bit st ones true false h = ground arith
decode_bit st ones false true h = ground arith
decode_bit st ones false false h = ground arith

pub next_ones-lt : (ones : ℕ) (bit : Bool) → ones < 6 → next_ones ones bit < 6
next_ones-lt ones true h = ground arith
next_ones-lt ones false h = ground arith

pub end_ones-lt : (ones : ℕ) (bits : List Bool) → ones < 6 → end_ones ones bits < 6
unfolding end_ones
end_ones-lt ones [] h = h
end_ones-lt ones (bit ∷ bits) h = end_ones-lt (next_ones ones bit) bits (next_ones-lt ones bit h)

-- Decoding the line code of some bits stores these bits, no more and no fewer.
pub decode_states-line_code :
    (st : Storage) (ones : ℕ) (level : Bool) (bits : List Bool)
    → ones < 6
    → decode_states (decoding st level ones) (map wire_of (line_code ones level bits))
      ≡ (put_bits st bits >>= λ t. ok (decoding t (end_level ones level bits) (end_ones ones bits)))
unfolding line_code end_level end_ones put_bits decode_states
decode_states-line_code st ones level [] h = refl
decode_states-line_code st ones level (bit ∷ bits) h =
    let ones' = next_ones ones bit in
    let level' = next_level ones level bit in
    ap (decode_states (decoding st level ones))
      (map-append wire_of (bit_levels ones level bit) (line_code ones' level' bits))
    ∙ decode_states-append (decoding st level ones) (map wire_of (bit_levels ones level bit)) _
    ∙ rw (decode_bit st ones level bit h) (elim (Result-cases (put_bit st bit)) [
      | inl (t, e) ↦ rw e (decode_states-line_code t ones' level' bits (next_ones-lt ones bit h))
      | inr (w, e) ↦ rw e
    ])
