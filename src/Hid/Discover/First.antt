-- ===== src/Hid/Discover/First.antt =====
-- Which of the candidates `HidInterfaces` yields and `HidInterface::discover` returns.
use embassy_rp_pio_usb_host.Common.{
  ◌≡◌, refl, Bool, true, ◌&&◌, Option, none, some, ◌∙◌, Result, ok, err, List, [], ◌∷◌, ◌>>=◌,
  map_err, Bytes, IsBytes, byte_at, leb, ◌==◌, length, if◌then◌else◌, FirstOk, first_ok_lem,
  first_ok, subst, sym, Bool-cases, inl, inr, ap, arith,
}
use embassy_rp_pio_usb_host.Descriptor.Configuration.{ConfigurationError}
use embassy_rp_pio_usb_host.Descriptor.Interface.{parse}
use embassy_rp_pio_usb_host.Descriptor.Iterator
use embassy_rp_pio_usb_host.Descriptor.Iterator.{DescriptorIter}
use embassy_rp_pio_usb_host.Descriptor.Iterator.Content.{AreBytes, items-AreBytes}
use embassy_rp_pio_usb_host.Descriptor.Seen.{Seen, none_seen, mark_seen}
use embassy_rp_pio_usb_host.Descriptor.Seen.Distinct.{distinct, none_seen-StandsFor, loop-distinct}
use embassy_rp_pio_usb_host.Hid.Candidate.{discover_candidate}
use embassy_rp_pio_usb_host.Hid.Descriptor.{
  configuration, missing_interface, invalid_interface_descriptor,
}
use embassy_rp_pio_usb_host.Hid.Discover.{
  Candidate, candidates, visit, visit_parsed, visit_new, prepend, discover,
}

-- A descriptor that names an interface of class 3 in its first setting, if it is whole or not.
abbrev pub names_hid : Bytes → Bool
names_hid d = byte_at d 1 == 4 && leb 7 (length d) && byte_at d 3 == 0 && byte_at d 5 == 3

-- What is found for it.
abbrev pub hid_found : Bytes → Bytes → Candidate
hid_found bytes d =
    if length d == 9
    then discover_candidate bytes (byte_at d 2)
    else err invalid_interface_descriptor

-- The results of the configuration's HID interfaces, each interface once.
abbrev pub hid_results : Bytes → List (Result ConfigurationError Bytes) → List Candidate
hid_results bytes items = distinct names_hid (hid_found bytes) (λ e. err (configuration e)) [] items

visit_lem :
    (bytes : Bytes) (seen : Seen) (d : Bytes)
    → visit bytes seen d ≡ (
        if names_hid d
        then (
          (mark_seen seen (byte_at d 2)).0,
          if (mark_seen seen (byte_at d 2)).1 then none else some (hid_found bytes d),
        )
        else (seen, none))
unfolding visit visit_parsed visit_new parse
visit_lem bytes seen d = elim (Bool-cases (byte_at d 1 == 4)) [
  | inl kind ↦ elim (Bool-cases (length d == 9)) [
    | inl whole ↦ let long : leb 7 (length d) ≡ true = ground arith in rw (kind, whole, long) refl
    | inr part ↦ rw (kind, part) refl
  ]
  | inr other ↦ rw other refl
]

candidates_item :
    (bytes : Bytes) (seen : Seen) (d : Bytes) (items : List (Result ConfigurationError Bytes))
    → candidates bytes seen (ok d ∷ items) ≡ (
        if names_hid d
        then (if (mark_seen seen (byte_at d 2)).1
            then candidates bytes (mark_seen seen (byte_at d 2)).0 items
            else hid_found bytes d ∷ candidates bytes (mark_seen seen (byte_at d 2)).0 items)
        else candidates bytes seen items)
unfolding candidates
candidates_item bytes seen d items =
    ap (λ (p : Seen × Option Candidate). prepend p.1 (candidates bytes p.0 items))
      (visit_lem bytes seen d)
    ∙ elim (Bool-cases (names_hid d)) [
      | inl named ↦ elim (Bool-cases (mark_seen seen (byte_at d 2)).1) [
        | inl before ↦ rw (named, before) refl
        | inr first ↦ rw (named, first) refl
      ]
      | inr other ↦ rw other refl
    ]

candidates-distinct :
    (bytes : Bytes) (items : List (Result ConfigurationError Bytes))
    → AreBytes items
    → candidates bytes none_seen items ≡ hid_results bytes items
unfolding candidates
candidates-distinct bytes items h =
    loop-distinct names_hid (hid_found bytes) (λ e. err (configuration e)) (candidates bytes)
      (λ seen. refl) (λ seen e items'. refl) (candidates_item bytes) none_seen [] items h
      none_seen-StandsFor

-- For a configuration of bytes whose header is valid, `discover` returns the first interface that
-- can be discovered among the configuration's HID interfaces, each taken at the first descriptor
-- that names it (class 3 and setting 0, and long enough to say so), all results before it being
-- errors: of an earlier such interface, of a descriptor that is not nine bytes long, or of the cut
-- into descriptors. When all results are errors it returns the first of them, and when there is
-- none, the missing interface.
pub discover-FirstOk :
    (bytes : Bytes) (it : DescriptorIter)
    → IsBytes bytes
    → Iterator.new bytes ≡ ok it
    → FirstOk missing_interface none (hid_results bytes (Iterator.items it)) (discover bytes)
unfolding discover
discover-FirstOk bytes it h e =
    subst
      (λ (m : Result ConfigurationError DescriptorIter).
        FirstOk missing_interface none (hid_results bytes (Iterator.items it)) (
          map_err configuration m >>= λ it'.
          first_ok missing_interface none (candidates bytes none_seen (Iterator.items it'))))
      (sym e)
      (subst
        (λ (l : List Candidate).
          FirstOk missing_interface none l
            (first_ok missing_interface none (candidates bytes none_seen (Iterator.items it))))
        (candidates-distinct bytes (Iterator.items it) (items-AreBytes bytes it h e))
        (first_ok_lem missing_interface none (candidates bytes none_seen (Iterator.items it))))
