-- ===== src/Wire/Nrzi/Storage.antt =====
-- The bits that `decode_nrzi` stores make up the bytes that they came from.
use embassy_rp_pio_usb_host.Common.{
  ℕ, zero, suc, ◌+◌, ◌^◌, ◌<◌, ◌≡◌, refl, sym, ap, ◌∙◌, Bool, true, false, List, [], ◌∷◌, ◌++◌, ok,
  ◌>>=◌, leb, ◌==◌, if◌then◌else◌, length, replicate, set_behind, length-append, Bytes, IsBytes,
  Result-cases, inl, inr, byte_at, arith, bit_or, ℕ_discrete,
}
use mathlib.Core.Path.{ap₂}
use mathlib.Core.List.{append_assoc}
use native.Mathlib.Nat.{zero-add, suc-add}
use embassy_rp_pio_usb_host.Wire.Nrzi.{bit_of}
use embassy_rp_pio_usb_host.Wire.Nrzi.LineCode.{byte_bits, packet_bits}
use embassy_rp_pio_usb_host.Wire.Nrzi.Decoder.{Storage, put_bit, put_bits}

-- A buffer whose byte in work is `v`, at bit `i`.
abbrev storage : Bytes → ℕ → Bytes → ℕ → Storage
storage before v rest i = record {
  result = record { bytes = before ++ (v ∷ rest); len = length before };
  bit_index = i;
}

abbrev with_bit : ℕ → ℕ → Bool → ℕ
with_bit v i bit = if bit then bit_or v (2 ^ i) else v

in_work : (before rest : Bytes) (v : ℕ) → byte_at (before ++ (v ∷ rest)) (length before) ≡ v
in_work [] rest v = refl
in_work (x ∷ before) rest v = in_work before rest v

fits : (before rest : Bytes) (v : ℕ) → leb (length (before ++ (v ∷ rest))) (length before) ≡ false
fits before rest v = ground (arith, length-append before (v ∷ rest))

put_bit_lem :
    (before rest : Bytes) (v i : ℕ) (bit : Bool)
    → put_bit (storage before v rest i) bit
      ≡ ok (record {
        result = record {
          bytes = before ++ (with_bit v i bit ∷ rest);
          len = if i + 1 == 8 then length before + 1 else length before;
        };
        bit_index = if i + 1 == 8 then 0 else i + 1;
      })
unfolding put_bit
put_bit_lem before rest v i true =
    rw (fits before rest v, in_work before rest v, set_behind before rest v (bit_or v (2 ^ i)))
put_bit_lem before rest v i false = rw (fits before rest v)

-- The byte that the bits of `b` make up.
assemble : ℕ → ℕ
assemble b =
    let v1 = with_bit 0 0 (bit_of b 0) in
    let v2 = with_bit v1 1 (bit_of b 1) in
    let v3 = with_bit v2 2 (bit_of b 2) in
    let v4 = with_bit v3 3 (bit_of b 3) in
    let v5 = with_bit v4 4 (bit_of b 4) in
    let v6 = with_bit v5 5 (bit_of b 5) in
    let v7 = with_bit v6 6 (bit_of b 6) in with_bit v7 7 (bit_of b 7)

-- Whether `assemble` gives back every number below a bound.
assembles_below : ℕ → Bool
assembles_below zero = true
assembles_below (suc bound) =
    let smaller = assembles_below bound in if assemble bound == bound then smaller else false

assembles_all : assembles_below 256 ≡ true
unfolding assembles_below assemble
assembles_all = refl

assemble_self : (bound b : ℕ) → b < bound → assembles_below bound ≡ true → assemble b ≡ b
unfolding assembles_below
assemble_self zero b small e = absurd (omega arith)
assemble_self (suc bound) b small e = elim (ℕ_discrete b bound) [
  | yes same ↦ rw same (ground arith)
  | no other ↦ assemble_self bound b (omega arith) (ground arith)
]

assemble_lem : (b : ℕ) → b < 256 → assemble b ≡ b
assemble_lem b h = assemble_self 256 b h assembles_all

put_byte_bits :
    (before rest : Bytes) (b : ℕ)
    → b < 256
    → put_bits (storage before 0 rest 0) (byte_bits b)
      ≡ ok (record {
        result = record { bytes = before ++ (b ∷ rest); len = length before + 1 };
        bit_index = 0;
      })
unfolding put_bits assemble
put_byte_bits before rest b h =
    let built : assemble b ≡ b = assemble_lem b h in
    simp (put_bit_lem before rest) (
      ap
        (λ (v : ℕ). ok (record {
          result = record { bytes = before ++ (v ∷ rest); len = length before + 1 };
          bit_index = 0;
        }))
        built)

put_bits-append :
    (st : Storage) (xs ys : List Bool)
    → put_bits st (xs ++ ys) ≡ (put_bits st xs >>= λ t. put_bits t ys)
unfolding put_bits
put_bits-append st [] ys = refl
put_bits-append st (x ∷ xs) ys = elim (Result-cases (put_bit st x)) [
  | inl (t, e) ↦ rw e (put_bits-append t xs ys)
  | inr (w, e) ↦ rw e
]

-- The storage at the start of a byte.
abbrev pub aligned : Bytes → ℕ → Storage
aligned bytes len = record { result = record { bytes = bytes; len = len }; bit_index = 0 }

-- Storing the bits of some bytes, behind bytes that are complete, fills the zeros there with them.
pub put_packet_bits :
    (before raw : Bytes) (room : ℕ)
    → IsBytes raw
    → put_bits
        (aligned (before ++ replicate (length raw + room) 0) (length before))
        (packet_bits raw)
      ≡ ok (aligned (before ++ (raw ++ replicate room 0)) (length before + length raw))
unfolding put_bits
put_packet_bits before [] room bs =
    ap ok (ap₂ aligned (ap (λ (n : ℕ). before ++ replicate n 0) (zero-add room)) (omega arith))
put_packet_bits before (b ∷ raw) room bs =
    let rest = replicate {A = ℕ} (length raw + room) 0 in
    let more = replicate {A = ℕ} room 0 in
    let first = put_byte_bits before rest b bs.0 in
    let step : aligned (before ++ (b ∷ rest)) (length before + 1)
        ≡ aligned ((before ++ b ∷ []) ++ rest) (length (before ++ b ∷ [])) =
      ap₂ aligned (sym (append_assoc before (b ∷ []) rest)) (sym (length-append before (b ∷ []))) in
    let last : aligned ((before ++ b ∷ []) ++ (raw ++ more))
          (length (before ++ b ∷ []) + length raw)
        ≡ aligned (before ++ (b ∷ (raw ++ more))) (length before + suc (length raw)) =
      ap₂ aligned (append_assoc before (b ∷ []) (raw ++ more))
        (omega (arith, length-append before (b ∷ []))) in
    ap
      (λ (n : ℕ).
        put_bits (aligned (before ++ replicate n 0) (length before)) (packet_bits (b ∷ raw)))
      (suc-add (length raw) room)
    ∙ put_bits-append (aligned (before ++ (0 ∷ rest)) (length before)) (byte_bits b)
        (packet_bits raw)
    ∙ rw first (rw step (put_packet_bits (before ++ b ∷ []) raw room bs.1 ∙ ap ok last))
