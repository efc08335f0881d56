-- ===== src/Descriptor/Seen/Distinct.antt =====
-- The loops over descriptors that skip the interfaces met before, against lists of the numbers met.
use Prim.Native.Nat.{bit_and-bitwise}
use embassy_rp_pio_usb_host.Common.{
  ℕ, zero, suc, ◌/◌, ◌%◌, ◌^◌, ◌<◌, ◌≡◌, refl, ap, ◌∙◌, Bool, ◌||◌, ◌==◌, List, [], ◌∷◌, Result, ok,
  err, if◌then◌else◌, length, get_or, replicate, bit_and, contains, Bytes, byte_at, byte_at-lt,
  arith, Bool-cases, inl, inr,
}
use embassy_rp_pio_usb_host.Descriptor.Configuration.{ConfigurationError}
use embassy_rp_pio_usb_host.Descriptor.Iterator.Content.{AreBytes}
use embassy_rp_pio_usb_host.Descriptor.Seen.{Seen, none_seen, was_seen, mark_seen}
use embassy_rp_pio_usb_host.Descriptor.Seen.Set.{mark_seen_lem}

-- The results for the descriptors that are named, only the first for each interface number (the
-- third byte), and for the errors, in their order. `met` is the numbers met before.
unfoldable pub distinct :
    {C : Type 0}
    → (Bytes → Bool)
    → (Bytes → C)
    → (ConfigurationError → C)
    → List ℕ
    → List (Result ConfigurationError Bytes)
    → List C
distinct named found failed met [] = []
distinct named found failed met (err e ∷ items) = failed e ∷ distinct named found failed met items
distinct named found failed met (ok d ∷ items) =
    let later = distinct named found failed (byte_at d 2 ∷ met) items in
    if named d
    then (if contains met (byte_at d 2) then later else found d ∷ later)
    else distinct named found failed met items

-- The bitmap stands for the numbers met.
pub record StandsFor (seen : Seen) (met : List ℕ) : Type 0 where
  pub words : length seen ≡ 8
  pub members : (k : ℕ) → k < 256 → was_seen seen k ≡ contains met k

get_or-zeros : (n i : ℕ) → get_or {A = ℕ} (replicate n 0) i 0 ≡ 0
get_or-zeros zero i = refl
get_or-zeros (suc n) zero = refl
get_or-zeros (suc n) (suc i) = get_or-zeros n i

no_bits : (a : ℕ) → bit_and 0 a ≡ 0
no_bits a = simp bit_and-bitwise

pub none_seen-StandsFor : StandsFor none_seen []
unfolding was_seen
none_seen-StandsFor = record {
  words = refl;
  members = λ k h.
      let word : get_or none_seen (k / 32) 0 ≡ 0 = get_or-zeros 8 (k / 32) in
      rw (word, no_bits (2 ^ (k % 32))) refl;
}

mark_seen-StandsFor :
    (seen : Seen) (met : List ℕ) (i : ℕ)
    → i < 256
    → StandsFor seen met
    → StandsFor (mark_seen seen i).0 (i ∷ met)
mark_seen-StandsFor seen met i small s = record {
  words = (mark_seen_lem seen i i s.words small small).2;
  members = λ k h.
      let (before, now, size) = mark_seen_lem seen i k s.words small h in
      let same = s.members k h in
      let swap : (k == i) ≡ (i == k) = ground arith in
      now ∙ ap (λ (b : Bool). b || was_seen seen k) swap ∙ ap (λ (b : Bool). (i == k) || b) same;
}

-- A loop with these rounds gives the distinct results.
pub loop-distinct :
    {C : Type 0} (named : Bytes → Bool) (found : Bytes → C) (failed : ConfigurationError → C)
    (loop : Seen → List (Result ConfigurationError Bytes) → List C)
    → ((seen : Seen) → loop seen [] ≡ [])
    → ((seen : Seen) (e : ConfigurationError) (items : List (Result ConfigurationError Bytes))
        → loop seen (err e ∷ items) ≡ failed e ∷ loop seen items)
    → ((seen : Seen) (d : Bytes) (items : List (Result ConfigurationError Bytes))
        → loop seen (ok d ∷ items) ≡ (
            if named d
            then (if (mark_seen seen (byte_at d 2)).1
                then loop (mark_seen seen (byte_at d 2)).0 items
                else found d ∷ loop (mark_seen seen (byte_at d 2)).0 items)
            else loop seen items))
    → (seen : Seen) (met : List ℕ) (items : List (Result ConfigurationError Bytes)) → AreBytes items
    → StandsFor seen met
    → loop seen items ≡ distinct named found failed met items
unfolding distinct
loop-distinct named found failed loop at_end at_error at_item seen met [] h s = at_end seen
loop-distinct named found failed loop at_end at_error at_item seen met (err e ∷ items) h s =
    at_error seen e items
    ∙ ap (◌∷◌ (failed e))
        (loop-distinct named found failed loop at_end at_error at_item seen met items h s)
loop-distinct {C} named found failed loop at_end at_error at_item seen met (ok d ∷ items) (b, h) s =
    let i = byte_at d 2 in
    let small : i < 256 = byte_at-lt d 2 b in
    let before : (mark_seen seen i).1 ≡ contains met i =
      (mark_seen_lem seen i i s.words small small).0 ∙ s.members i small in
    let skipped =
      loop-distinct named found failed loop at_end at_error at_item seen met items h s in
    let later =
      loop-distinct named found failed loop at_end at_error at_item (mark_seen seen i).0 (i ∷ met)
        items h (mark_seen-StandsFor seen met i small s) in
    at_item seen d items ∙ elim (Bool-cases (named d)) [
      | inl n ↦
          rw (n, before) (ap (λ (l : List C). if contains met i then l else found d ∷ l) later)
      | inr n ↦ rw n skipped
    ]
