-- ===== src/Common/Flags.antt =====
-- One flag in a word: `w & (1 << j)` before and after `w |= 1 << i`.
use Prim.Native.Nat.{ℕ, zero, suc, ◌+◌, ◌*◌, ◌/◌, ◌%◌, ◌^◌, bit_and, bit_or}
use mathlib.Core.Path.{◌≡◌, refl, ap}
use mathlib.Core.Logic.{◌≢◌}
use native.Mathlib.Nat.{pow-suc, one-le-pow}
use native.Mathlib.Omega.{arith}
use embassy_rp_pio_usb_host.Common.Bits.{bit_and_step, bit_or_step, bit_and-zero, bit_or-zero}

double_half : (i : ℕ) → 2 ^ suc i / 2 ≡ 2 ^ i
double_half i = omega (arith, pow-suc 2 i)

flag_first : (a : ℕ) → bit_and a (2 ^ 0) ≡ a % 2
flag_first a = omega (arith, bit_and_step a 1, bit_and-zero (a / 2))

flag_next : (a j : ℕ) → bit_and a (2 ^ suc j) ≡ bit_and (a / 2) (2 ^ j) * 2
flag_next a j =
    let rest : bit_and (a / 2) (2 ^ suc j / 2) ≡ bit_and (a / 2) (2 ^ j) = rw (double_half j) in
    omega (arith, pow-suc 2 j, bit_and_step a (2 ^ suc j), rest)

set_first : (a : ℕ) → bit_or a (2 ^ 0) ≡ a / 2 * 2 + 1
set_first a = omega (arith, bit_or_step a 1, bit_or-zero (a / 2))

set_next : (a i : ℕ) → bit_or a (2 ^ suc i) ≡ bit_or (a / 2) (2 ^ i) * 2 + a % 2
set_next a i =
    let rest : bit_or (a / 2) (2 ^ suc i / 2) ≡ bit_or (a / 2) (2 ^ i) = rw (double_half i) in
    omega (arith, pow-suc 2 i, bit_or_step a (2 ^ suc i), rest)

set_half : (a i : ℕ) → bit_or a (2 ^ suc i) / 2 ≡ bit_or (a / 2) (2 ^ i)
set_half a i = omega (arith, set_next a i)

-- A flag that has just been set is set.
pub flag-set_self : (i a : ℕ) → bit_and (bit_or a (2 ^ i)) (2 ^ i) ≡ 2 ^ i
flag-set_self zero a = omega (arith, flag_first (bit_or a (2 ^ 0)), set_first a)
flag-set_self (suc i) a =
    let rest : bit_and (bit_or a (2 ^ suc i) / 2) (2 ^ i) ≡ 2 ^ i =
      rw (set_half a i) (flag-set_self i (a / 2)) in
    omega (arith, flag_next (bit_or a (2 ^ suc i)) i, rest, pow-suc 2 i)

-- Every other flag is as before.
pub flag-set_ne : (i j a : ℕ) → i ≢ j → bit_and (bit_or a (2 ^ i)) (2 ^ j) ≡ bit_and a (2 ^ j)
flag-set_ne zero zero a h = absurd (h refl)
flag-set_ne zero (suc j) a h =
    let half : bit_or a (2 ^ 0) / 2 ≡ a / 2 = omega (arith, set_first a) in
    let rest : bit_and (bit_or a (2 ^ 0) / 2) (2 ^ j) ≡ bit_and (a / 2) (2 ^ j) = rw half in
    omega (arith, flag_next (bit_or a (2 ^ 0)) j, flag_next a j, rest)
flag-set_ne (suc i) zero a h =
    omega (arith, flag_first (bit_or a (2 ^ suc i)), flag_first a, set_next a i)
flag-set_ne (suc i) (suc j) a h =
    let rest : bit_and (bit_or a (2 ^ suc i) / 2) (2 ^ j) ≡ bit_and (a / 2) (2 ^ j) =
      rw (set_half a i) (flag-set_ne i j (a / 2) (λ e. h (ap suc e))) in
    omega (arith, flag_next (bit_or a (2 ^ suc i)) j, flag_next a j, rest)

pub two_pow-ne-zero : (i : ℕ) → 2 ^ i ≢ 0
two_pow-ne-zero i = omega (arith, one-le-pow i 2 (omega arith))
