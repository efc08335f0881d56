-- ===== src/Common/Bits.antt =====
-- Laws of the bitwise operations at variables, from the digit recursion that they stand for.
use Prim.Native.Nat.{
  ℕ, zero, suc, ◌+◌, ◌*◌, ◌/◌, ◌%◌, ◌^◌, ◌≤◌, ◌<◌, min, max, bit_and, bit_or, bit_xor, digits,
  bitwise, bit_and-bitwise, bit_or-bitwise, bit_xor-bitwise, differ,
}
use mathlib.Core.Path.{◌≡◌, refl, ap}
use native.Mathlib.Nat.{pow-suc, one-le-pow}
use native.Mathlib.Omega.{arith}

module _ (z : ℕ → ℕ) (op : ℕ → ℕ → ℕ) where
  -- Any fuel that is at least the first argument gives the same digits.
  digits-enough : (x y a b : ℕ) → a ≤ x → a ≤ y → digits z op x a b ≡ digits z op y a b
  digits-enough zero zero a b p q = refl
  digits-enough zero (suc y) zero b p q = refl
  digits-enough zero (suc y) (suc a) b p q = elim p [ ]
  digits-enough (suc x) zero zero b p q = refl
  digits-enough (suc x) zero (suc a) b p q = elim q [ ]
  digits-enough (suc x) (suc y) zero b p q = refl
  digits-enough (suc x) (suc y) (suc a) b p q =
      ap (λ (d : ℕ). d * 2 + op (suc a % 2) (b % 2))
        (digits-enough x y (suc a / 2) (b / 2) (omega arith) (omega arith))

  bitwise-suc :
      (a b : ℕ)
      → bitwise z op (suc a) b ≡ bitwise z op (suc a / 2) (b / 2) * 2 + op (suc a % 2) (b % 2)
  bitwise-suc a b =
      ap (λ (d : ℕ). d * 2 + op (suc a % 2) (b % 2))
        (digits-enough a (suc a / 2) (suc a / 2) (b / 2) (omega arith) (omega arith))

-- One binary digit at a time.
pub bit_xor_step : (x y : ℕ) → bit_xor x y ≡ bit_xor (x / 2) (y / 2) * 2 + differ (x % 2) (y % 2)
bit_xor_step (suc x) y = simp bit_xor-bitwise (bitwise-suc (λ d. d) differ x y)
bit_xor_step zero y = simp bit_xor-bitwise (omega arith)

pub bit_and_step : (x y : ℕ) → bit_and x y ≡ bit_and (x / 2) (y / 2) * 2 + min (x % 2) (y % 2)
bit_and_step (suc x) y = simp bit_and-bitwise (bitwise-suc (λ _. 0) min x y)
bit_and_step zero y = simp bit_and-bitwise (omega arith)

pub bit_or_step : (x y : ℕ) → bit_or x y ≡ bit_or (x / 2) (y / 2) * 2 + max (x % 2) (y % 2)
bit_or_step (suc x) y = simp bit_or-bitwise (bitwise-suc (λ d. d) max x y)
bit_or_step zero y = simp bit_or-bitwise (omega arith)

pub differ-lt : (a b : ℕ) → a < 2 → b < 2 → differ a b < 2
differ-lt zero b p q = q
differ-lt (suc zero) zero p q = omega arith
differ-lt (suc zero) (suc zero) p q = omega arith
differ-lt (suc zero) (suc (suc b)) p q = absurd (omega arith)
differ-lt (suc (suc a)) b p q = absurd (omega arith)

-- An exclusive or of two `w`-bit numbers has `w` bits.
pub bit_xor-lt : (w a b : ℕ) → a < 2 ^ w → b < 2 ^ w → bit_xor a b < 2 ^ w
bit_xor-lt zero zero zero p q = omega arith
bit_xor-lt zero zero (suc b) p q = absurd (omega arith)
bit_xor-lt zero (suc a) b p q = absurd (omega arith)
bit_xor-lt (suc w) a b p q = omega (
  arith,
  pow-suc 2 w,
  bit_xor_step a b,
  differ-lt (a % 2) (b % 2) (omega arith) (omega arith),
  bit_xor-lt w (a / 2) (b / 2) (omega (arith, pow-suc 2 w)) (omega (arith, pow-suc 2 w)),
)

pub zero-bit_or : (b : ℕ) → bit_or 0 b ≡ b
zero-bit_or b = bit_or-bitwise 0 b

bit_or-zero_below : (n a : ℕ) → a ≤ n → bit_or a 0 ≡ a
bit_or-zero_below n zero h = refl
bit_or-zero_below zero (suc a) h = elim h [ ]
bit_or-zero_below (suc n) (suc a) h =
    omega (arith, bit_or_step (suc a) 0, bit_or-zero_below n (suc a / 2) (omega arith))

pub bit_or-zero : (a : ℕ) → bit_or a 0 ≡ a
bit_or-zero a = bit_or-zero_below a a (omega arith)

-- Fields that do not overlap: `lo | (hi << k)` is a sum.
pub bit_or_low : (k lo hi : ℕ) → lo < 2 ^ k → bit_or lo (hi * 2 ^ k) ≡ hi * 2 ^ k + lo
bit_or_low zero zero hi h = omega (arith, zero-bit_or (hi * 2 ^ 0))
bit_or_low zero (suc lo) hi h = absurd (omega arith)
bit_or_low (suc k) lo hi h =
    let split : hi * 2 ^ suc k ≡ 2 * (hi * 2 ^ k) =
      omega (arith, ap (λ (t : ℕ). hi * t) (pow-suc 2 k)) in
    let halved : hi * 2 ^ suc k / 2 ≡ hi * 2 ^ k = omega arith in
    let rest : bit_or (lo / 2) (hi * 2 ^ suc k / 2) ≡ hi * 2 ^ k + lo / 2 =
      rw halved (bit_or_low k (lo / 2) hi (omega (arith, pow-suc 2 k))) in
    omega (arith, bit_or_step lo (hi * 2 ^ suc k), rest)

-- The same with the fields in the other order, `(hi << k) | lo`.
pub bit_or_high : (k hi lo : ℕ) → lo < 2 ^ k → bit_or (hi * 2 ^ k) lo ≡ hi * 2 ^ k + lo
bit_or_high zero hi zero h = omega (arith, bit_or-zero (hi * 2 ^ 0))
bit_or_high zero hi (suc lo) h = absurd (omega arith)
bit_or_high (suc k) hi lo h =
    let split : hi * 2 ^ suc k ≡ 2 * (hi * 2 ^ k) =
      omega (arith, ap (λ (t : ℕ). hi * t) (pow-suc 2 k)) in
    let halved : hi * 2 ^ suc k / 2 ≡ hi * 2 ^ k = omega arith in
    let rest : bit_or (hi * 2 ^ suc k / 2) (lo / 2) ≡ hi * 2 ^ k + lo / 2 =
      rw halved (bit_or_high k hi (lo / 2) (omega (arith, pow-suc 2 k))) in
    omega (arith, bit_or_step (hi * 2 ^ suc k) lo, rest)

bit_and-zero_below : (n a : ℕ) → a ≤ n → bit_and a 0 ≡ 0
bit_and-zero_below n zero h = refl
bit_and-zero_below zero (suc a) h = elim h [ ]
bit_and-zero_below (suc n) (suc a) h =
    omega (arith, bit_and_step (suc a) 0, bit_and-zero_below n (suc a / 2) (omega arith))

pub bit_and-zero : (a : ℕ) → bit_and a 0 ≡ 0
bit_and-zero a = bit_and-zero_below a a (omega arith)

bit_and_fields : (k q r m : ℕ) → m + 1 ≡ 2 ^ k → r < 2 ^ k → bit_and (q * 2 ^ k + r) m ≡ r
bit_and_fields zero q r zero h f = omega (arith, bit_and-zero (q * 2 ^ 0 + r))
bit_and_fields zero q r (suc m) h f = absurd (omega arith)
bit_and_fields (suc k) q r m h f =
    let split : q * 2 ^ suc k ≡ 2 * (q * 2 ^ k) =
      omega (arith, ap (λ (t : ℕ). q * t) (pow-suc 2 k)) in
    let halved : (q * 2 ^ suc k + r) / 2 ≡ q * 2 ^ k + r / 2 = omega arith in
    let rest : bit_and ((q * 2 ^ suc k + r) / 2) (m / 2) ≡ r / 2 = rw halved (
      bit_and_fields k q (r / 2) (m / 2) (omega (arith, pow-suc 2 k))
        (omega (arith, pow-suc 2 k))) in
    omega (arith, bit_and_step (q * 2 ^ suc k + r) m, rest, pow-suc 2 k)

-- `a & m` with a mask `m` of `k` ones is the remainder.
pub bit_and_mask : (k a m : ℕ) → m + 1 ≡ 2 ^ k → bit_and a m ≡ a % 2 ^ k
bit_and_mask k a m h =
    let whole : a / 2 ^ k * 2 ^ k + a % 2 ^ k ≡ a = omega arith in
    let fits : a % 2 ^ k < 2 ^ k = omega (arith, one-le-pow k 2 (omega arith)) in
    rw whole at (bit_and_fields k (a / 2 ^ k) (a % 2 ^ k) m h fits)

pub bit_xor_half : (a b : ℕ) → bit_xor a b / 2 ≡ bit_xor (a / 2) (b / 2)
bit_xor_half a b =
    omega (arith, bit_xor_step a b, differ-lt (a % 2) (b % 2) (omega arith) (omega arith))

pub bit_xor_parity : (a b : ℕ) → bit_xor a b % 2 ≡ differ (a % 2) (b % 2)
bit_xor_parity a b =
    omega (arith, bit_xor_step a b, differ-lt (a % 2) (b % 2) (omega arith) (omega arith))

differ_twice : (a b : ℕ) → a < 2 → b < 2 → differ (differ a b) b ≡ a
differ_twice zero zero p q = refl
differ_twice zero (suc zero) p q = refl
differ_twice (suc zero) zero p q = refl
differ_twice (suc zero) (suc zero) p q = refl
differ_twice (suc (suc a)) b p q = absurd (omega arith)
differ_twice a (suc (suc b)) p q = absurd (omega arith)

-- Exclusive or with the same mask twice changes nothing.
pub bit_xor_twice : (w a m : ℕ) → a < 2 ^ w → m < 2 ^ w → bit_xor (bit_xor a m) m ≡ a
bit_xor_twice zero zero zero p q = refl
bit_xor_twice zero zero (suc m) p q = absurd (omega arith)
bit_xor_twice zero (suc a) m p q = absurd (omega arith)
bit_xor_twice (suc w) a m p q =
    let high : bit_xor (bit_xor a m / 2) (m / 2) ≡ a / 2 =
      rw (bit_xor_half a m) (
        bit_xor_twice w (a / 2) (m / 2) (omega (arith, pow-suc 2 w))
          (omega (arith, pow-suc 2 w))) in
    let low : differ (bit_xor a m % 2) (m % 2) ≡ a % 2 =
      rw (bit_xor_parity a m) (differ_twice (a % 2) (m % 2) (omega arith) (omega arith)) in
    omega (arith, bit_xor_step (bit_xor a m) m, high, low)

-- A mask with the bit `w` sets it in a number of `w` bits.
pub bit_xor_top : (w a m : ℕ) → a < 2 ^ w → m < 2 ^ w → 2 ^ w ≤ bit_xor a (2 ^ w + m)
bit_xor_top zero zero zero p q = omega arith
bit_xor_top zero zero (suc m) p q = absurd (omega arith)
bit_xor_top zero (suc a) m p q = absurd (omega arith)
bit_xor_top (suc w) a m p q =
    let half : (2 ^ suc w + m) / 2 ≡ 2 ^ w + m / 2 = omega (arith, pow-suc 2 w) in
    let rest : 2 ^ w ≤ bit_xor (a / 2) ((2 ^ suc w + m) / 2) =
      rw half
        (bit_xor_top w (a / 2) (m / 2) (omega (arith, pow-suc 2 w)) (omega (arith, pow-suc 2 w))) in
    omega (arith, pow-suc 2 w, bit_xor_step a (2 ^ suc w + m), rest)

differ_comm : (a b : ℕ) → differ a b ≡ differ b a
differ_comm zero zero = refl
differ_comm zero (suc b) = refl
differ_comm (suc a) zero = refl
differ_comm (suc a) (suc b) = differ_comm a b

pub bit_xor_comm : (w a b : ℕ) → a < 2 ^ w → b < 2 ^ w → bit_xor a b ≡ bit_xor b a
bit_xor_comm zero zero zero p q = refl
bit_xor_comm zero zero (suc b) p q = absurd (omega arith)
bit_xor_comm zero (suc a) b p q = absurd (omega arith)
bit_xor_comm (suc w) a b p q = omega (
  arith,
  bit_xor_step a b,
  bit_xor_step b a,
  differ_comm (a % 2) (b % 2),
  bit_xor_comm w (a / 2) (b / 2) (omega (arith, pow-suc 2 w)) (omega (arith, pow-suc 2 w)),
)
