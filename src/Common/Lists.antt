-- ===== src/Common/Lists.antt =====
-- Lists measured and indexed by native numbers, and byte strings.
use Prim.Native.Nat.{ℕ, zero, suc, ◌+◌, ◌*◌, ◌<◌}
use mathlib.Core.Path.{◌≡◌, refl, ap, ◌∙◌}
use mathlib.Core.Logic.{◌≢◌}
use mathlib.Core.Bool.{Bool, false, ◌||◌}
use mathlib.Core.List.{List, [], ◌∷◌, ◌++◌, map}
use native.Mathlib.Nat.{zero-add, suc-add}
use native.Mathlib.Omega.{arith}
use embassy_rp_pio_usb_host.Common.Tests.{◌==◌}

module _ {ℓ} {A : Type ℓ} where
  abbrev pub length : List A → ℕ
  length [] = 0
  length (x ∷ xs) = suc (length xs)

  abbrev pub get_or : List A → ℕ → A → A
  get_or [] i d = d
  get_or (x ∷ xs) zero d = x
  get_or (x ∷ xs) (suc i) d = get_or xs i d

  -- A write out of bounds changes nothing.
  abbrev pub set : List A → ℕ → A → List A
  set [] i v = []
  set (x ∷ xs) zero v = v ∷ xs
  set (x ∷ xs) (suc i) v = x ∷ set xs i v

  abbrev pub take : ℕ → List A → List A
  take zero xs = []
  take (suc n) [] = []
  take (suc n) (x ∷ xs) = x ∷ take n xs

  abbrev pub drop : ℕ → List A → List A
  drop zero xs = xs
  drop (suc n) [] = []
  drop (suc n) (x ∷ xs) = drop n xs

  abbrev pub replicate : ℕ → A → List A
  replicate zero a = []
  replicate (suc n) a = a ∷ replicate n a

  abbrev pub All {κ} : (A → Type κ) → List A → Type κ
  All P [] = Unit {κ}
  All P (x ∷ xs) = P x × All P xs

  pub length-append : (xs ys : List A) → length (xs ++ ys) ≡ length xs + length ys
  length-append [] ys = omega arith
  length-append (x ∷ xs) ys = omega (arith, length-append xs ys)

  pub length-set : (xs : List A) (i : ℕ) (v : A) → length (set xs i v) ≡ length xs
  length-set [] i v = refl
  length-set (x ∷ xs) zero v = refl
  length-set (x ∷ xs) (suc i) v = ap suc (length-set xs i v)

  pub length-replicate : (n : ℕ) (a : A) → length (replicate n a) ≡ n
  length-replicate zero a = refl
  length-replicate (suc n) a = ap suc (length-replicate n a)

  pub get_or-set_self :
      (xs : List A) (i : ℕ) (v d : A) → i < length xs → get_or (set xs i v) i d ≡ v
  get_or-set_self [] i v d h = elim h [ ]
  get_or-set_self (x ∷ xs) zero v d h = refl
  get_or-set_self (x ∷ xs) (suc i) v d h = get_or-set_self xs i v d (omega arith)

  pub get_or-set_ne :
      (xs : List A) (i j : ℕ) (v d : A) → i ≢ j → get_or (set xs i v) j d ≡ get_or xs j d
  get_or-set_ne [] i j v d h = refl
  get_or-set_ne (x ∷ xs) zero zero v d h = absurd (h refl)
  get_or-set_ne (x ∷ xs) zero (suc j) v d h = refl
  get_or-set_ne (x ∷ xs) (suc i) zero v d h = refl
  get_or-set_ne (x ∷ xs) (suc i) (suc j) v d h = get_or-set_ne xs i j v d (λ e. h (ap suc e))

  pub take-append : (xs ys : List A) → take (length xs) (xs ++ ys) ≡ xs
  take-append [] ys = refl
  take-append (x ∷ xs) ys = ap (◌∷◌ x) (take-append xs ys)

  pub get_or-append :
      (xs ys : List A) (i : ℕ) (d : A) → get_or (xs ++ ys) (length xs + i) d ≡ get_or ys i d
  get_or-append [] ys i d = ap (λ (n : ℕ). get_or ys n d) (omega arith)
  get_or-append (x ∷ xs) ys i d = ground (arith, get_or-append xs ys i d)

pub length-map {ℓ κ} :
    {A : Type ℓ} {B : Type κ} (xs : List A) (f : A → B) → length (map f xs) ≡ length xs
length-map [] f = refl
length-map (x ∷ xs) f = ap suc (length-map xs f)

abbrev pub Bytes : Type 0
Bytes = List ℕ

abbrev pub IsBytes : Bytes → Type 0
IsBytes bs = All (λ b. b < 256) bs

-- `bytes[i]`. Every use stands behind a length check that keeps it in range.
abbrev pub byte_at : Bytes → ℕ → ℕ
byte_at bytes i = get_or bytes i 0

pub byte_at-lt : (bytes : Bytes) (i : ℕ) → IsBytes bytes → byte_at bytes i < 256
byte_at-lt [] i h = omega arith
byte_at-lt (b ∷ bs) zero h = h.0
byte_at-lt (b ∷ bs) (suc i) h = byte_at-lt bs i h.1

-- `slice.contains(&b)`
abbrev pub contains : Bytes → ℕ → Bool
contains [] b = false
contains (x ∷ xs) b = x == b || contains xs b

-- `buffer[i..i + xs.len()].copy_from_slice(xs)`, one element after the other.
abbrev pub write_at {ℓ} : {A : Type ℓ} → List A → ℕ → List A → List A
write_at buffer i [] = buffer
write_at buffer i (x ∷ xs) = write_at (set buffer i x) (suc i) xs

-- `u16::from_le_bytes([lo, hi])`
abbrev pub from_le_bytes : ℕ → ℕ → ℕ
from_le_bytes lo hi = lo + 256 * hi

module _ {ℓ} {A : Type ℓ} where
  pub set_behind :
      (before rest : List A) (x v : A)
      → set (before ++ (x ∷ rest)) (length before) v ≡ before ++ (v ∷ rest)
  set_behind [] rest x v = refl
  set_behind (y ∷ before) rest x v = ap (◌∷◌ y) (set_behind before rest x v)

  pub set_behind_next :
      (before rest : List A) (x y v : A)
      → set (before ++ (x ∷ y ∷ rest)) (suc (length before)) v ≡ before ++ (x ∷ v ∷ rest)
  set_behind_next [] rest x y v = refl
  set_behind_next (z ∷ before) rest x y v = ap (◌∷◌ z) (set_behind_next before rest x y v)

  pub write_at-cons :
      (xs buffer : List A) (i : ℕ) (y : A)
      → write_at (y ∷ buffer) (suc i) xs ≡ y ∷ write_at buffer i xs
  write_at-cons [] buffer i y = refl
  write_at-cons (x ∷ xs) buffer i y = write_at-cons xs (set buffer i x) (suc i) y

  -- A copy to the front of a buffer overwrites as many elements as it brings.
  pub write_at_front :
      (xs old rest : List A) → length old ≡ length xs → write_at (old ++ rest) 0 xs ≡ xs ++ rest
  write_at_front [] [] rest h = refl
  write_at_front [] (o ∷ old) rest h = absurd (omega arith)
  write_at_front (x ∷ xs) [] rest h = absurd (omega arith)
  write_at_front (x ∷ xs) (o ∷ old) rest h =
      write_at-cons xs (old ++ rest) 0 x ∙ ap (◌∷◌ x) (write_at_front xs old rest (omega arith))

  pub replicate_split : (n m : ℕ) (x : A) → replicate (n + m) x ≡ replicate n x ++ replicate m x
  replicate_split zero m x = rw zero-add
  replicate_split (suc n) m x = rw suc-add (ap (◌∷◌ x) (replicate_split n m x))
