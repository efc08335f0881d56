-- ===== src/Descriptor/Seen/Set.antt =====
-- The bitmap is a set of bytes.
use embassy_rp_pio_usb_host.Common.{
  ℕ, ◌/◌, ◌%◌, ◌^◌, ◌<◌, ◌≡◌, ◌≢◌, refl, ◌∙◌, true, false, not, ◌||◌, ◌==◌, get_or, set, length,
  length-set, get_or-set_self, get_or-set_ne, arith, bit_and, bit_or, ==_iff, ℕ_discrete,
}
use embassy_rp_pio_usb_host.Common.Flags.{flag-set_self, flag-set_ne, two_pow-ne-zero}
use embassy_rp_pio_usb_host.Descriptor.Seen.{Seen, was_seen, mark_seen}

not_zero : (n : ℕ) → n ≢ 0 → not (n == 0) ≡ true
not_zero n h = ground arith

-- `mark_seen` on a map of eight words, for bytes: it reports whether the interface was in the set,
-- adds that interface, and changes no other membership and not the number of words.
pub mark_seen_lem :
    (seen : Seen) (i k : ℕ)
    → length seen ≡ 8
    → i < 256
    → k < 256
    → ((mark_seen seen i).1 ≡ was_seen seen i)
      × (was_seen (mark_seen seen i).0 k ≡ (k == i || was_seen seen k))
      × (length (mark_seen seen i).0 ≡ 8)
unfolding mark_seen was_seen
mark_seen_lem seen i k size hi hk =
    let word = get_or seen (i / 32) 0 in
    let marked = set seen (i / 32) (bit_or word (2 ^ (i % 32))) in
    let member : not (bit_and (get_or marked (k / 32) 0) (2 ^ (k % 32)) == 0)
        ≡ (k == i || not (bit_and (get_or seen (k / 32) 0) (2 ^ (k % 32)) == 0)) =
      elim (ℕ_discrete (i / 32) (k / 32)) [
        | yes same_word ↦ elim (ℕ_discrete (i % 32) (k % 32)) [
          | yes same_bit ↦
              let same : k ≡ i = omega arith in
              let eq : (k == i) ≡ true = (==_iff k i).1 same in
              rw
                (
                  same,
                  get_or-set_self seen (i / 32) (bit_or word (2 ^ (i % 32))) 0 (omega arith),
                  flag-set_self (i % 32) word,
                  not_zero (2 ^ (i % 32)) (two_pow-ne-zero (i % 32)),
                )
                (rw ((==_iff i i).1 refl))
          | no other_bit ↦
              let ne : (k == i) ≡ false = ground arith in
              rw (
                ne,
                ← same_word,
                get_or-set_self seen (i / 32) (bit_or word (2 ^ (i % 32))) 0 (omega arith),
                flag-set_ne (i % 32) (k % 32) word other_bit,
              )
        ]
        | no other_word ↦
            let ne : (k == i) ≡ false = ground arith in
            rw (ne, get_or-set_ne seen (i / 32) (k / 32) (bit_or word (2 ^ (i % 32))) 0 other_word)
      ] in
    (refl, member, length-set seen (i / 32) (bit_or word (2 ^ (i % 32))) ∙ size)
