-- ===== src/Wire/Nrzi.antt =====
-- usb.rs: `EncodedPacket`, the encoder of packet bytes into two-bit PIO commands, and `decode_nrzi`.
mod Tests
pub mod LineCode
pub mod Encoder
pub mod Packing
pub mod Decoder
pub mod Storage
pub mod Frame
pub mod RoundTrip
use embassy_rp_pio_usb_host.Common.{
  ℕ, zero, suc, ◌+◌, ◌-◌, ◌*◌, ◌/◌, ◌%◌, ◌^◌, Bool, true, false, not, List, [], ◌∷◌, Result, ok,
  err, ◌>>=◌, ◌>>◌, fail_if, leb, ◌==◌, if◌then◌else◌, length, take, set, replicate, Bytes, byte_at,
  bit_and, bit_or,
}

abbrev pub max_encoded_bytes : ℕ
max_encoded_bytes = 48

pub data TxSymbol : Type 0 where
  se0 k release j : TxSymbol

-- The discriminants, `symbol as u8`.
abbrev pub symbol_code : TxSymbol → ℕ
symbol_code TxSymbol.se0 = 0
symbol_code TxSymbol.k = 1
symbol_code TxSymbol.release = 2
symbol_code TxSymbol.j = 3

pub data EncodeError : Type 0 where
  encode_error : EncodeError

pub record EncodedPacket : Type 0 where
  pub bytes : Bytes
  pub len : ℕ
  pub symbols : ℕ

-- `EncodedPacket::push`
pub push : EncodedPacket → TxSymbol → Result EncodeError EncodedPacket
push packet symbol = do
  let byte_index = packet.symbols / 4
  fail_if (leb (length packet.bytes) byte_index) encode_error
  let shifted = byte_at packet.bytes byte_index * 2 ^ 2 % 256
  ok (record packet {
    bytes = set packet.bytes byte_index (bit_or shifted (symbol_code symbol));
    symbols = packet.symbols + 1;
  })

-- The variables of the loop of `encode`.
pub record Encoding : Type 0 where
  pub packet : EncodedPacket
  pub current_state_is_j : Bool
  pub consecutive_ones : ℕ

abbrev pub symbol_of : Bool → TxSymbol
symbol_of is_j = if is_j then TxSymbol.k else TxSymbol.j

-- The stuffed zero after six ones.
encode_stuffing : Encoding → Result EncodeError Encoding
encode_stuffing s = do
  let is_j = not s.current_state_is_j
  packet ← push s.packet (symbol_of is_j)
  ok (record { packet = packet; current_state_is_j = is_j; consecutive_ones = 0 })

-- The body of the inner loop.
pub encode_bit : Encoding → Bool → Result EncodeError Encoding
unfolding encode_stuffing
encode_bit s bit_is_one = do
  let ones = if bit_is_one then s.consecutive_ones + 1 else 0
  let is_j = if bit_is_one then s.current_state_is_j else not s.current_state_is_j
  packet ← push s.packet (symbol_of is_j)
  let sent : Encoding = record {
    packet = packet;
    current_state_is_j = is_j;
    consecutive_ones = ones;
  }
  if ones == 6 then encode_stuffing sent else ok sent

-- `byte & (1 << bit_index) != 0`
abbrev pub bit_of : ℕ → ℕ → Bool
bit_of byte bit_index = not (bit_and byte (2 ^ bit_index) == 0)

-- `for bit_index in 0..8`, with the rounds left.
pub encode_bits : ℕ → ℕ → ℕ → Encoding → Result EncodeError Encoding
encode_bits zero bit_index byte s = ok s
encode_bits (suc left) bit_index byte s = do
  s' ← encode_bit s (bit_of byte bit_index)
  encode_bits left (suc bit_index) byte s'

pub encode_bytes : Bytes → Encoding → Result EncodeError Encoding
encode_bytes [] s = ok s
encode_bytes (byte ∷ raw) s = do s' ← encode_bits 8 0 byte s; encode_bytes raw s'

-- `while !packet.symbols.is_multiple_of(4)`, on fuel; three rounds are enough.
pub pad : ℕ → EncodedPacket → Result EncodeError EncodedPacket
pad zero packet = ok packet
pad (suc fuel) packet =
    let more = push packet TxSymbol.k >>= pad fuel in
    if packet.symbols % 4 == 0 then ok packet else more

pub start : Encoding
start = record {
  packet = record { bytes = replicate max_encoded_bytes 0; len = 0; symbols = 0 };
  current_state_is_j = true;
  consecutive_ones = 0;
}

pub encode : Bytes → Result EncodeError EncodedPacket
encode raw = do
  s ← encode_bytes raw start
  ended ← push s.packet TxSymbol.se0
  released ← push ended TxSymbol.release
  packet ← pad 3 released
  ok (record packet { len = packet.symbols / 4 })

pub as_bytes : EncodedPacket → Bytes
as_bytes packet = take packet.len packet.bytes

-- `symbol`, which the program's tests use to read a packet back: four symbols to a byte, the
-- earliest in the top bits.
abbrev pub symbol_at : ℕ → ℕ → TxSymbol
symbol_at byte place =
    let code = bit_and (byte / 2 ^ (6 - 2 * place)) 0b11 in
    if code == 0
    then TxSymbol.se0
    else if code == 1
    then TxSymbol.k
    else if code == 2
    then TxSymbol.release
    else TxSymbol.j

pub symbols_of : Bytes → List TxSymbol
symbols_of [] = []
symbols_of (byte ∷ rest) =
    symbol_at byte 0 ∷ symbol_at byte 1 ∷ symbol_at byte 2 ∷ symbol_at byte 3 ∷ symbols_of rest

pub data WireState : Type 0 where
  j k : WireState

abbrev pub same_wire : WireState → WireState → Bool
same_wire WireState.j WireState.j = true
same_wire WireState.k WireState.k = true
same_wire _ _ = false

pub data NrziError : Type 0 where
  bit_stuff truncated_byte packet_too_long : NrziError

pub record DecodedBytes : Type 0 where
  pub bytes : Bytes
  pub len : ℕ

pub decoded_bytes : DecodedBytes → Bytes
decoded_bytes d = take d.len d.bytes

-- The variables of the loop of `decode_nrzi`.
pub record Decoding : Type 0 where
  pub result : DecodedBytes
  pub previous : WireState
  pub consecutive_ones : ℕ
  pub bit_index : ℕ

-- The part of the loop body that stores one bit.
pub store_bit : Decoding → Bool → Result NrziError Decoding
store_bit s bit_is_one = do
  let r = s.result
  fail_if (leb (length r.bytes) r.len) packet_too_long
  let written = set r.bytes r.len (bit_or (byte_at r.bytes r.len) (2 ^ s.bit_index))
  let bytes = if bit_is_one then written else r.bytes
  let ones = if bit_is_one then s.consecutive_ones + 1 else 0
  let full = s.bit_index + 1 == 8
  ok (record s {
    result = record { bytes = bytes; len = if full then r.len + 1 else r.len };
    consecutive_ones = ones;
    bit_index = if full then 0 else s.bit_index + 1;
  })

-- The bit behind six ones: a stuffed zero, which is dropped.
pub unstuff : Decoding → Bool → Result NrziError Decoding
unstuff s bit_is_one = if bit_is_one then err bit_stuff else ok (record s { consecutive_ones = 0 })

pub decode_state : Decoding → WireState → Result NrziError Decoding
unfolding store_bit unstuff
decode_state s state =
    let bit_is_one = same_wire state s.previous in
    let moved : Decoding = record s { previous = state } in
    if s.consecutive_ones == 6 then unstuff moved bit_is_one else store_bit moved bit_is_one

pub decode_states : Decoding → List WireState → Result NrziError Decoding
decode_states s [] = ok s
decode_states s (state ∷ states) = do s' ← decode_state s state; decode_states s' states

pub decode_start : Decoding
decode_start = record {
  result = record { bytes = replicate 104 0; len = 0 };
  previous = WireState.j;
  consecutive_ones = 0;
  bit_index = 0;
}

pub decode_nrzi : List WireState → Result NrziError DecodedBytes
decode_nrzi states = do
  s ← decode_states decode_start states
  fail_if (not (s.bit_index == 0)) truncated_byte
  ok s.result
