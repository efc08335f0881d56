-- ===== src/Wire/Nrzi/LineCode.antt =====
-- The line code of a packet, stated over bits and levels: NRZI with a zero stuffed in after six
-- ones. `true` is the level of an idle line, J.
use embassy_rp_pio_usb_host.Common.{
  ℕ, ◌+◌, Bool, not, List, [], ◌∷◌, ◌++◌, ◌==◌, if◌then◌else◌, Bytes,
}
use embassy_rp_pio_usb_host.Wire.Nrzi.{bit_of}

-- The ones in a row, this bit included.
abbrev pub ones_with : ℕ → Bool → ℕ
ones_with ones bit = if bit then ones + 1 else 0

-- A one keeps the level and a zero changes it.
abbrev pub level_of : Bool → Bool → Bool
level_of level bit = if bit then level else not level

-- The levels that one bit takes on the wire: its own, and that of a stuffed zero.
abbrev pub bit_levels : ℕ → Bool → Bool → List Bool
bit_levels ones level bit =
    level_of level bit ∷ (if ones_with ones bit == 6 then not (level_of level bit) ∷ [] else [])

abbrev pub next_ones : ℕ → Bool → ℕ
next_ones ones bit = if ones_with ones bit == 6 then 0 else ones_with ones bit

abbrev pub next_level : ℕ → Bool → Bool → Bool
next_level ones level bit =
    if ones_with ones bit == 6 then not (level_of level bit) else level_of level bit

unfoldable pub line_code : ℕ → Bool → List Bool → List Bool
line_code ones level [] = []
line_code ones level (bit ∷ bits) =
    bit_levels ones level bit ++ line_code (next_ones ones bit) (next_level ones level bit) bits

-- The ones and the level after all bits.
unfoldable pub end_ones : ℕ → List Bool → ℕ
end_ones ones [] = ones
end_ones ones (bit ∷ bits) = end_ones (next_ones ones bit) bits

unfoldable pub end_level : ℕ → Bool → List Bool → Bool
end_level ones level [] = level
end_level ones level (bit ∷ bits) = end_level (next_ones ones bit) (next_level ones level bit) bits

-- The bits of a byte, the least significant first.
abbrev pub byte_bits : ℕ → List Bool
byte_bits b =
    bit_of b 0
    ∷ bit_of b 1
    ∷ bit_of b 2
    ∷ bit_of b 3
    ∷ bit_of b 4
    ∷ bit_of b 5
    ∷ bit_of b 6
    ∷ bit_of b 7
    ∷ []

abbrev pub packet_bits : Bytes → List Bool
packet_bits [] = []
packet_bits (b ∷ raw) = byte_bits b ++ packet_bits raw
