-- ===== src/Descriptor/Iterator/Framing.antt =====
-- The iterator against a description of how a configuration is cut into descriptors.
use embassy_rp_pio_usb_host.Common.{
  ℕ, zero, suc, ◌+◌, ◌-◌, ◌≤◌, ◌<◌, ◌≡◌, refl, sym, ap, ◌∙◌, subst, true, false, List, [], ◌∷◌,
  ◌++◌, Option, none, some, Result, ok, err, >>=-eq-ok, length, take, drop, Bytes, byte_at, arith,
  ◌≢◌, ℕ_discrete, dec_lt,
}
use mathlib.Core.Path.{ap₂}
use embassy_rp_pio_usb_host.Common.Slices.{
  length-drop, length-take, drop-drop, take_split, get_or-drop, get_or-take,
}
use embassy_rp_pio_usb_host.Descriptor.Configuration.{
  ConfigurationError, descriptor_overrun, invalid_descriptor_length, parse_header,
}
use embassy_rp_pio_usb_host.Descriptor.Iterator.{DescriptorIter, new, slice, next, collect, items}

abbrev Item : Type 0
Item = Result ConfigurationError Bytes

-- `Framed bytes items`: the bytes are descriptors one behind the other, each two bytes long at
-- least and as long as its first byte says; they end with the last one, or where no descriptor can
-- stand, and then one error ends the items.
pub data Framed : Bytes → List Item → Type 0 where
  done : Framed [] []
  descriptor :
      {bytes rest : Bytes} {rs : List Item} (d : Bytes)
      → 2 ≤ length d
      → byte_at d 0 ≡ length d
      → bytes ≡ d ++ rest
      → Framed rest rs
      → Framed bytes (ok d ∷ rs)
  stub : {bytes : Bytes} → length bytes ≡ 1 → Framed bytes (err descriptor_overrun ∷ [])
  too_small :
      {bytes : Bytes}
      → 2 ≤ length bytes
      → byte_at bytes 0 < 2
      → Framed bytes (err invalid_descriptor_length ∷ [])
  overrun :
      {bytes : Bytes}
      → 2 ≤ length bytes
      → length bytes < byte_at bytes 0
      → Framed bytes (err descriptor_overrun ∷ [])

collect_end :
    (fuel : ℕ) (it : DescriptorIter) {it' : DescriptorIter}
    → next it ≡ (none, it')
    → collect (suc fuel) it ≡ []
unfolding collect
collect_end fuel it {it'} e =
    ap
      (λ (p : Option Item × DescriptorIter).
        let rest = collect fuel p.1 in
        let items : List Item = elim p.0 [ none ↦ [] | some r ↦ r ∷ rest ] in items)
      e

collect_item :
    (fuel : ℕ) (it : DescriptorIter) {it' : DescriptorIter} {r : Item}
    → next it ≡ (some r, it')
    → collect (suc fuel) it ≡ r ∷ collect fuel it'
unfolding collect
collect_item fuel it {it'} e =
    ap
      (λ (p : Option Item × DescriptorIter).
        let rest = collect fuel p.1 in
        let items : List Item = elim p.0 [ none ↦ [] | some r ↦ r ∷ rest ] in items)
      e

-- After an error the iterator has no more items.
collect_failed : (fuel : ℕ) (it : DescriptorIter) → it.failed ≡ true → collect fuel it ≡ []
unfolding next
collect_failed zero it h = unfold collect in refl
collect_failed (suc fuel) it h = collect_end fuel it {it' = it} (rw h)

nil_of_length : (xs : Bytes) → length xs ≡ 0 → xs ≡ []
nil_of_length [] h = refl
nil_of_length (x ∷ xs) h = absurd (omega arith)

abbrev iter : Bytes → ℕ → ℕ → DescriptorIter
iter bytes offset total = record {
  bytes = bytes;
  offset = offset;
  total_length = total;
  failed = false;
}

module _ (bytes : Bytes) (offset total : ℕ) where
  abbrev here : DescriptorIter
  here = iter bytes offset total

  abbrev failing : DescriptorIter
  failing = record here { failed = true }

  next_end : offset ≡ total → next here ≡ (none, here)
  unfolding next
  next_end e = ground arith

  next_stub :
      offset ≢ total → total - offset < 2 → next here ≡ (some (err descriptor_overrun), failing)
  unfolding next
  next_stub e h = ground arith

  next_small :
      offset ≢ total
      → 2 ≤ total - offset
      → byte_at bytes offset < 2
      → next here ≡ (some (err invalid_descriptor_length), failing)
  unfolding next
  next_small e h s = ground arith

  next_overrun :
      offset ≢ total
      → 2 ≤ total - offset
      → 2 ≤ byte_at bytes offset
      → total - offset < byte_at bytes offset
      → next here ≡ (some (err descriptor_overrun), failing)
  unfolding next
  next_overrun e h s l = ground arith

  next_inside :
      offset ≢ total
      → 2 ≤ total - offset
      → 2 ≤ byte_at bytes offset
      → byte_at bytes offset ≤ total - offset
      → next here ≡ (
        some (ok (slice bytes offset (offset + byte_at bytes offset))),
        iter bytes (offset + byte_at bytes offset) total,
      )
  unfolding next
  next_inside e h s l = ground arith

Framed-inside :
    (bytes : Bytes) (offset total n : ℕ) {rs : List Item}
    → 2 ≤ n
    → offset + n ≤ total
    → total ≤ length bytes
    → byte_at bytes offset ≡ n
    → Framed (slice bytes (offset + n) total) rs
    → Framed (slice bytes offset total) (ok (slice bytes offset (offset + n)) ∷ rs)
Framed-inside bytes offset total n two le fits first later =
    let tail = drop offset bytes in
    let room : n ≤ length tail = omega (arith, length-drop offset bytes) in
    let width : offset + n - offset ≡ n = omega arith in
    let left : total - offset - n ≡ total - (offset + n) = omega arith in
    let size : length (slice bytes offset (offset + n)) ≡ n =
      ap (λ (k : ℕ). length (take k tail)) width ∙ length-take n tail room in
    let head : byte_at (slice bytes offset (offset + n)) 0 ≡ n =
      get_or-take (offset + n - offset) tail 0 (omega arith) ∙ get_or-drop offset bytes 0 ∙ first in
    let cut : slice bytes offset total
        ≡ slice bytes offset (offset + n) ++ slice bytes (offset + n) total =
      take_split n (total - offset) tail (omega arith)
      ∙ ap₂ (λ (a b : Bytes). a ++ b) (ap (λ (k : ℕ). take k tail) (sym width))
          (ap₂ (λ (k : ℕ) (b : Bytes). take k b) left (drop-drop offset n bytes)) in
    descriptor (slice bytes offset (offset + n)) (omega arith) (head ∙ sym size) cut later

collect-Framed :
    (fuel : ℕ) (bytes : Bytes) (offset total : ℕ)
    → offset ≤ total
    → total ≤ length bytes
    → total - offset < fuel
    → Framed (slice bytes offset total) (collect fuel (iter bytes offset total))
collect-Framed zero bytes offset total le fits h = absurd (omega arith)
collect-Framed (suc fuel) bytes offset total le fits h =
    let region = slice bytes offset total in
    let n = byte_at bytes offset in
    let size : length region ≡ total - offset =
      length-take (total - offset) (drop offset bytes) (omega (arith, length-drop offset bytes)) in
    let it = iter bytes offset total in
    let stopped = collect_failed fuel (failing bytes offset total) refl in
    elim (ℕ_discrete offset total) [
      | yes end ↦
          let empty : region ≡ [] = nil_of_length region (omega arith) in
          rw (collect_end fuel it (next_end bytes offset total end)) (rw empty done)
      | no more ↦
          let first : byte_at region 0 ≡ n =
            get_or-take (total - offset) (drop offset bytes) 0 (omega arith)
            ∙ get_or-drop offset bytes 0 in
          elim (dec_lt (total - offset) 2) [
            | yes one ↦
                rw (collect_item fuel it (next_stub bytes offset total more one), stopped)
                  (stub (omega arith))
            | no two ↦ elim (dec_lt n 2) [
              | yes small ↦
                  rw
                    (
                      collect_item fuel it (next_small bytes offset total more (omega arith) small),
                      stopped,
                    )
                    (too_small (omega arith) (omega arith))
              | no enough ↦ elim (dec_lt (total - offset) n) [
                | yes long ↦
                    rw
                      (
                        collect_item fuel it
                            (next_overrun bytes offset total more (omega arith) (omega arith) long),
                        stopped,
                      )
                      (overrun (omega arith) (omega arith))
                | no inside ↦
                    rw
                      (collect_item fuel it (
                        next_inside bytes offset total more (omega arith) (omega arith)
                          (omega arith)))
                      (Framed-inside bytes offset total n (omega arith) (omega arith) fits refl (
                        collect-Framed fuel bytes (offset + n) total (omega arith) fits
                          (omega arith)))
              ]
            ]
          ]
    ]

new_parts :
    (bytes : Bytes) (it : DescriptorIter)
    → new bytes ≡ ok it
    → (it ≡ iter bytes 0 it.total_length) × (it.total_length ≤ length bytes)
unfolding new
new_parts bytes it h =
    let (header, parsed, rest) = >>=-eq-ok (parse_header bytes) _ h in (ground arith, ground arith)

-- The items of the iterator over a configuration, whatever its bytes, are the descriptors into
-- which its first `wTotalLength` bytes are cut, followed by one error where they cannot be cut
-- further: no byte is skipped or visited twice, and no slice leaves the configuration.
pub items-Framed :
    (bytes : Bytes) (it : DescriptorIter)
    → new bytes ≡ ok it
    → Framed (take it.total_length bytes) (items it)
unfolding items
items-Framed bytes it h =
    let (fresh, fits) = new_parts bytes it h in
    let whole : it.total_length - 0 ≡ it.total_length = omega arith in
    subst
      (λ (i : DescriptorIter).
        Framed (take it.total_length bytes) (collect (suc it.total_length) i))
      (sym fresh)
      (subst
        (λ (n : ℕ).
          Framed (take n bytes) (collect (suc it.total_length) (iter bytes 0 it.total_length)))
        whole
        (collect-Framed (suc it.total_length) bytes 0 it.total_length (omega arith) fits
          (omega arith)))
