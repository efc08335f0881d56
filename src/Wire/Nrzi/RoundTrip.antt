-- ===== src/Wire/Nrzi/RoundTrip.antt =====
-- `decode_nrzi` recovers what `EncodedPacket::encode` sends.
use mathlib.Core.List.{append_assoc}
use embassy_rp_pio_usb_host.Common.{
  ℕ, ◌+◌, ◌-◌, ◌*◌, ◌%◌, ◌≤◌, ◌<◌, ◌≡◌, refl, ap, ◌∙◌, Bool, true, false, List, [], ◌∷◌, ◌++◌, map,
  ok, leb, length, replicate, Bytes, IsBytes, Bool-cases, inl, inr, arith, length-append,
  length-map, length-replicate, take-append,
}
use embassy_rp_pio_usb_host.Wire.Nrzi.{
  TxSymbol, EncodedPacket, symbol_of, encode, as_bytes, symbols_of, WireState, decode_nrzi,
  decode_start, DecodedBytes, decoded_bytes,
}
use native.Mathlib.Nat.{zero-add}
use embassy_rp_pio_usb_host.Wire.Nrzi.LineCode.{
  line_code, bit_levels, next_ones, next_level, packet_bits,
}
use embassy_rp_pio_usb_host.Wire.Nrzi.Decoder.{
  put_bits, wire_of, decoding, decode_states-line_code, next_ones-lt,
}
use embassy_rp_pio_usb_host.Wire.Nrzi.Frame.{
  frame, padded, ending, packet_of, encode_lem, symbols_of-encode,
}
use embassy_rp_pio_usb_host.Wire.Nrzi.Packing.{padding}
use embassy_rp_pio_usb_host.Wire.Nrzi.Storage.{put_packet_bits, aligned}

-- The symbols of a packet read as states of the line, up to the end of packet. This reading is the
-- development's own: the encoder's symbol `K` stands for the line at J, as its `current_state_is_j`
-- and the padding behind the end of packet have it.
pub line_states : List TxSymbol → List WireState
line_states [] = []
line_states (TxSymbol.k ∷ ss) = WireState.j ∷ line_states ss
line_states (TxSymbol.j ∷ ss) = WireState.k ∷ line_states ss
line_states (_ ∷ ss) = []

line_states_lem :
    (levels : List Bool) (rest : List TxSymbol)
    → line_states (map symbol_of levels ++ (TxSymbol.se0 ∷ rest)) ≡ map wire_of levels
unfolding line_states
line_states_lem [] rest = refl
line_states_lem (true ∷ levels) rest = ap (◌∷◌ WireState.j) (line_states_lem levels rest)
line_states_lem (false ∷ levels) rest = ap (◌∷◌ WireState.k) (line_states_lem levels rest)

line_states-padded :
    (raw : Bytes) → line_states (padded raw) ≡ map wire_of (line_code 0 true (packet_bits raw))
line_states-padded raw =
    ap line_states (append_assoc (map symbol_of (line_code 0 true (packet_bits raw))) ending _)
    ∙ line_states_lem (line_code 0 true (packet_bits raw)) _

empty_storage :
    (n : ℕ) → n ≤ 104 → decode_start ≡ decoding (aligned (replicate (n + (104 - n)) 0) 0) true 0
unfolding decode_start
empty_storage n h =
    let size : 104 ≡ n + (104 - n) = omega arith in
    ap (λ (k : ℕ). decoding (aligned (replicate k 0) 0) true 0) size

put_packet :
    (raw : Bytes)
    → IsBytes raw
    → put_bits (aligned (replicate (length raw + (104 - length raw)) 0) 0) (packet_bits raw)
      ≡ ok (aligned (raw ++ replicate (104 - length raw) 0) (length raw))
put_packet raw bs =
    put_packet_bits [] raw (104 - length raw) bs
    ∙ ap (λ (n : ℕ). ok (aligned (raw ++ replicate (104 - length raw) 0) n)) (zero-add (length raw))

-- The decoder reads the line code of every byte string that fits its buffer of 104 bytes.
pub decode_nrzi-line_code :
    (raw : Bytes)
    → IsBytes raw
    → length raw ≤ 104
    → (d : DecodedBytes) × (decode_nrzi (map wire_of (line_code 0 true (packet_bits raw))) ≡ ok d)
      × (decoded_bytes d ≡ raw)
unfolding decode_nrzi decoded_bytes
decode_nrzi-line_code raw bs h = (
  record { bytes = raw ++ replicate (104 - length raw) 0; len = length raw },
  rw (
    empty_storage (length raw) h,
    decode_states-line_code (aligned (replicate (length raw + (104 - length raw)) 0) 0) 0 true
        (packet_bits raw) (omega arith),
    put_packet raw bs,
  ),
  take-append raw (replicate (104 - length raw) 0),
)

-- Stuffing only adds levels, and at most one for six bits.
length-line_code :
    (ones : ℕ) (level : Bool) (bits : List Bool)
    → ones < 6
    → (length bits ≤ length (line_code ones level bits))
      × (6 * length (line_code ones level bits) ≤ 7 * length bits + ones)
unfolding line_code
length-line_code ones level [] h = (omega arith, omega arith)
length-line_code ones level (bit ∷ bits) h = ground (
  arith,
  next_ones-lt ones bit h,
  length-line_code (next_ones ones bit) (next_level ones level bit) bits,
  length-append (bit_levels ones level bit)
      (line_code (next_ones ones bit) (next_level ones level bit) bits),
)

length-packet_bits : (raw : Bytes) → length (packet_bits raw) ≡ 8 * length raw
length-packet_bits [] = refl
length-packet_bits (b ∷ raw) = omega (arith, length-packet_bits raw)

-- The size of the padded frame, from below and from above.
length-padded_bounds :
    (raw : Bytes)
    → (8 * length raw + 2 ≤ length (padded raw)) × (6 * length (padded raw) ≤ 56 * length raw + 30)
length-padded_bounds raw =
    let code = line_code 0 true (packet_bits raw) in
    let (low, high) = length-line_code 0 true (packet_bits raw) (omega arith) in
    let parts = length-append (frame raw) (padding (length (frame raw))) in
    let framed = length-append (map symbol_of code) ending in
    let coded = length-map code symbol_of in
    let pads = length-replicate ((4 - length (frame raw) % 4) % 4) TxSymbol.k in
    (omega (arith, length-packet_bits raw), omega (arith, length-packet_bits raw))

-- Every packet of at most 20 bytes is encoded, whatever its bytes are and however many zeros are
-- stuffed: the result is its frame, padded and packed.
pub encode_short : (raw : Bytes) → length raw ≤ 20 → encode raw ≡ ok (packet_of raw)
encode_short raw short =
    let (low, high) = length-padded_bounds raw in
    let fits : leb (length (padded raw)) 192 ≡ true = ground arith in encode_lem raw ∙ rw fits

length-le_of_encode : (raw : Bytes) (p : EncodedPacket) → encode raw ≡ ok p → length raw ≤ 23
length-le_of_encode raw p e =
    let (low, high) = length-padded_bounds raw in
    elim (Bool-cases (leb (length (padded raw)) 192)) [
      | inl room ↦ ground arith
      | inr full ↦ cc (rw full at (encode_lem raw), e)
    ]

-- Whatever `encode` accepts, a byte string, `decode_nrzi` recovers from the states that the PIO
-- drives: the symbols read back from the encoded bytes, as line states up to the end of packet, are
-- decoded without error to the bytes that were encoded.
pub decode_nrzi-encode :
    (raw : Bytes) (p : EncodedPacket)
    → IsBytes raw
    → encode raw ≡ ok p
    → (d : DecodedBytes) × (decode_nrzi (line_states (symbols_of (as_bytes p))) ≡ ok d)
      × (decoded_bytes d ≡ raw)
decode_nrzi-encode raw p bs e =
    let short : length raw ≤ 104 = omega (arith, length-le_of_encode raw p e) in
    let (d, decoded, same) = decode_nrzi-line_code raw bs short in
    (
      d,
      ap decode_nrzi (ap line_states (symbols_of-encode raw p e) ∙ line_states-padded raw)
          ∙ decoded,
      same,
    )
