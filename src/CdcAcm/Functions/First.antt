-- ===== src/CdcAcm/Functions/First.antt =====
-- Which of the functions `CdcAcmFunctions` yields and `CdcAcmFunction::discover` returns.
use embassy_rp_pio_usb_host.Common.{
  ◌≡◌, refl, Bool, true, ◌&&◌, Option, none, some, ◌∙◌, Result, ok, err, List, [], ◌∷◌, ◌>>=◌,
  Bytes, IsBytes, byte_at, leb, ◌==◌, length, if◌then◌else◌, FirstOk, first_ok_lem, first_ok, subst,
  sym, Bool-cases, inl, inr, ap, arith,
}
use embassy_rp_pio_usb_host.Descriptor.Configuration.{
  ConfigurationError, missing_control_interface, invalid_interface_descriptor,
}
use embassy_rp_pio_usb_host.Descriptor.Interface.{parse}
use embassy_rp_pio_usb_host.Descriptor.Iterator
use embassy_rp_pio_usb_host.Descriptor.Iterator.{DescriptorIter}
use embassy_rp_pio_usb_host.Descriptor.Iterator.Content.{AreBytes, items-AreBytes}
use embassy_rp_pio_usb_host.Descriptor.Seen.{Seen, none_seen, mark_seen}
use embassy_rp_pio_usb_host.Descriptor.Seen.Distinct.{distinct, none_seen-StandsFor, loop-distinct}
use embassy_rp_pio_usb_host.CdcAcm.Candidate.{discover_candidate}
use embassy_rp_pio_usb_host.CdcAcm.Functions.{
  Function, functions, function_step, function_parsed, function_new, yield_function, discover,
}

-- A descriptor that names an interface of class and subclass 2 in its first setting, if it is whole
-- or not.
abbrev pub names_acm : Bytes → Bool
names_acm d =
    byte_at d 1 == 4 && leb 7 (length d) && byte_at d 3 == 0 && byte_at d 5 == 2 && byte_at d 6 == 2

-- What is found for it.
abbrev pub acm_found : Bytes → Bytes → Function
acm_found bytes d =
    if length d == 9
    then discover_candidate bytes (byte_at d 2)
    else err invalid_interface_descriptor

-- The results of the configuration's ACM control interfaces, each interface once.
abbrev pub acm_results : Bytes → List (Result ConfigurationError Bytes) → List Function
acm_results bytes items = distinct names_acm (acm_found bytes) (λ e. err e) [] items

function_step_lem :
    (bytes : Bytes) (seen : Seen) (d : Bytes)
    → function_step bytes seen d ≡ (
        if names_acm d
        then (
          (mark_seen seen (byte_at d 2)).0,
          if (mark_seen seen (byte_at d 2)).1 then none else some (acm_found bytes d),
        )
        else (seen, none))
unfolding function_step function_parsed function_new parse
function_step_lem bytes seen d = elim (Bool-cases (byte_at d 1 == 4)) [
  | inl kind ↦ elim (Bool-cases (length d == 9)) [
    | inl whole ↦ let long : leb 7 (length d) ≡ true = ground arith in rw (kind, whole, long) refl
    | inr part ↦ rw (kind, part) refl
  ]
  | inr other ↦ rw other refl
]

functions_item :
    (bytes : Bytes) (seen : Seen) (d : Bytes) (items : List (Result ConfigurationError Bytes))
    → functions bytes seen (ok d ∷ items) ≡ (
        if names_acm d
        then (if (mark_seen seen (byte_at d 2)).1
            then functions bytes (mark_seen seen (byte_at d 2)).0 items
            else acm_found bytes d ∷ functions bytes (mark_seen seen (byte_at d 2)).0 items)
        else functions bytes seen items)
unfolding functions
functions_item bytes seen d items =
    ap (λ (p : Seen × Option Function). yield_function p.1 (functions bytes p.0 items))
      (function_step_lem bytes seen d)
    ∙ elim (Bool-cases (names_acm d)) [
      | inl named ↦ elim (Bool-cases (mark_seen seen (byte_at d 2)).1) [
        | inl before ↦ rw (named, before) refl
        | inr first ↦ rw (named, first) refl
      ]
      | inr other ↦ rw other refl
    ]

functions-distinct :
    (bytes : Bytes) (items : List (Result ConfigurationError Bytes))
    → AreBytes items
    → functions bytes none_seen items ≡ acm_results bytes items
unfolding functions
functions-distinct bytes items h =
    loop-distinct names_acm (acm_found bytes) (λ e. err e) (functions bytes) (λ seen. refl)
      (λ seen e items'. refl) (functions_item bytes) none_seen [] items h none_seen-StandsFor

-- For a configuration of bytes whose header is valid, `discover` returns the first function that
-- can be discovered among the configuration's ACM control interfaces, each taken at the first
-- descriptor that names it (class 2, subclass 2 and setting 0, and long enough to say so), all
-- results before it being errors: of an earlier such interface, of a descriptor that is not nine
-- bytes long, or of the cut into descriptors. When all results are errors it returns the first of
-- them, and when there is none, the missing control interface.
pub discover-FirstFunction :
    (bytes : Bytes) (it : DescriptorIter)
    → IsBytes bytes
    → Iterator.new bytes ≡ ok it
    → FirstOk missing_control_interface none
        (acm_results bytes (Iterator.items it))
        (discover bytes)
unfolding discover
discover-FirstFunction bytes it h e =
    subst
      (λ (m : Result ConfigurationError DescriptorIter).
        FirstOk missing_control_interface none (acm_results bytes (Iterator.items it)) (
          m >>= λ it'.
          first_ok missing_control_interface none (functions bytes none_seen (Iterator.items it'))))
      (sym e)
      (subst
        (λ (l : List Function).
          FirstOk missing_control_interface none l (
            first_ok missing_control_interface none
              (functions bytes none_seen (Iterator.items it))))
        (functions-distinct bytes (Iterator.items it) (items-AreBytes bytes it h e))
        (first_ok_lem missing_control_interface none
          (functions bytes none_seen (Iterator.items it))))
