-- ===== src/Common/First.antt =====
-- The first success of a list of results, or else the first error.
use mathlib.Core.Path.{◌≡◌, refl, ap}
use mathlib.Core.Logic.{◌⊎◌, inl, inr}
use mathlib.Core.Option.{Option, none, some}
use mathlib.Core.List.{List, [], ◌∷◌, ◌++◌, map}
use embassy_rp_pio_usb_host.Common.Results.{Result, ok, err}

-- `for r in results { match r { Ok(a) => return Ok(a), Err(e) => keep the first } }`, and then
-- `Err(first_error.unwrap_or(missing))`.
unfoldable pub first_ok {ℓ κ} :
    {E : Type ℓ} {A : Type κ} → E → Option E → List (Result E A) → Result E A
first_ok missing none [] = err missing
first_ok missing (some e) [] = err e
first_ok missing first_error (ok a ∷ rest) = ok a
first_ok missing none (err e ∷ rest) = first_ok missing (some e) rest
first_ok missing (some first) (err e ∷ rest) = first_ok missing (some first) rest

-- `first_error.unwrap_or(missing)` after these errors.
abbrev pub first_error {ℓ} : {E : Type ℓ} → E → Option E → List E → E
first_error missing none [] = missing
first_error missing none (e ∷ errors) = e
first_error missing (some first) errors = first

-- `r` is a success in the list before which there are only errors, or the list is of errors only,
-- and `r` the first of them.
abbrev pub FirstOk {ℓ κ} :
    {E : Type ℓ} {A : Type κ} → E → Option E → List (Result E A) → Result E A → Type (ℓ ⊔ κ)
FirstOk {E = E} {A = A} missing first rs r =
    ((errors : List E) × (a : A) × (rest : List (Result E A)) × (rs ≡ map err errors ++ ok a ∷ rest)
      × (r ≡ ok a))
    ⊎ ((errors : List E) × (rs ≡ map err errors) × (r ≡ err (first_error missing first errors)))

module _ {ℓ κ} {E : Type ℓ} {A : Type κ} (missing : E) where
  first_error-∷ :
      (e : E) (first : Option E) (rs : List (Result E A)) (r : Result E A)
      → FirstOk missing (some (first_error missing first (e ∷ []))) rs r
      → FirstOk missing first (err e ∷ rs) r
  first_error-∷ e first rs r (inl (errors, a, rest, split, result)) =
      inl (e ∷ errors, a, rest, ap (λ (l : List (Result E A)). err e ∷ l) split, result)
  first_error-∷ e none rs r (inr (errors, split, result)) =
      inr (e ∷ errors, ap (λ (l : List (Result E A)). err e ∷ l) split, result)
  first_error-∷ e (some f) rs r (inr (errors, split, result)) =
      inr (e ∷ errors, ap (λ (l : List (Result E A)). err e ∷ l) split, result)

  pub first_ok_lem :
      (first : Option E) (rs : List (Result E A))
      → FirstOk missing first rs (first_ok missing first rs)
  unfolding first_ok
  first_ok_lem none [] = inr ([], refl, refl)
  first_ok_lem (some f) [] = inr ([], refl, refl)
  first_ok_lem none (ok a ∷ rs) = inl ([], a, rs, refl, refl)
  first_ok_lem (some f) (ok a ∷ rs) = inl ([], a, rs, refl, refl)
  first_ok_lem none (err e ∷ rs) = first_error-∷ e none rs _ (first_ok_lem (some e) rs)
  first_ok_lem (some f) (err e ∷ rs) = first_error-∷ e (some f) rs _ (first_ok_lem (some f) rs)
