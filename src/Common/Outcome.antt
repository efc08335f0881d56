-- ===== src/Common/Outcome.antt =====
-- What holds of the value of a result, when it has one: rules for the steps of a do block.
use mathlib.Core.Path.{◌≡◌, refl, subst}
use mathlib.Core.Bool.{Bool, true, false}
use mathlib.Core.Option.{Option, none, some}
use embassy_rp_pio_usb_host.Common.Tests.{if◌then◌else◌}
use embassy_rp_pio_usb_host.Common.Results.{Result, ok, err, ◌>>=◌, fail_if, ok_or}

abbrev pub Holds {ℓ κ μ} : {E : Type ℓ} {A : Type κ} → (A → Type μ) → Result E A → Type μ
Holds P (ok a) = P a
Holds P (err e) = Unit

pub record Ensures {ℓ κ μ} {E : Type ℓ} {A : Type κ} (P : A → Type μ) (r : Result E A)
    : Type μ where
  pub holds : Holds P r

abbrev pub AllSome {κ μ} : {A : Type κ} → (A → Type μ) → Option A → Type μ
AllSome P none = Unit
AllSome P (some a) = P a

pub Ensures-elim {ℓ κ μ} :
    {E : Type ℓ} {A : Type κ} {P : A → Type μ} {r : Result E A} {a : A}
    → r ≡ ok a
    → Ensures P r
    → P a
Ensures-elim {P = P} e h = subst (Holds P) e h.holds

pub >>=-Ensures {ℓ κ μ ν} :
    {E : Type ℓ} {A B : Type κ} {P : A → Type μ} {Q : B → Type ν} (m : Result E A)
    {f : A → Result E B}
    → Ensures P m
    → ((a : A) → P a → Ensures Q (f a))
    → Ensures Q (m >>= f)
>>=-Ensures (ok a) h k = k a h.holds
>>=-Ensures (err e) h k = record { holds = tt }

pub guard-Ensures {ℓ ν} :
    {E : Type ℓ} {B : Type 0} {Q : B → Type ν} (b : Bool) (e : E) {r : Result E B}
    → ((b ≡ false) → Ensures Q r)
    → Ensures Q (fail_if b e >>= λ _. r)
guard-Ensures true e k = record { holds = tt }
guard-Ensures false e k = k refl

pub ok_or-Ensures {ℓ κ ν} :
    {E : Type ℓ} {A B : Type κ} {Q : B → Type ν} (o : Option A) (e : E) {f : A → Result E B}
    → ((a : A) → (o ≡ some a) → Ensures Q (f a))
    → Ensures Q (ok_or o e >>= f)
ok_or-Ensures none e k = record { holds = tt }
ok_or-Ensures (some a) e k = k a refl

pub ok-Ensures {ℓ κ ν} :
    {E : Type ℓ} {A B : Type κ} {Q : B → Type ν} (m : Result E A) {f : A → Result E B}
    → ((a : A) → (m ≡ ok a) → Ensures Q (f a))
    → Ensures Q (m >>= f)
ok-Ensures (ok a) k = k a refl
ok-Ensures (err e) k = record { holds = tt }

pub if-Ensures {ℓ κ ν} :
    {E : Type ℓ} {A : Type κ} {Q : A → Type ν} (b : Bool) {x y : Result E A}
    → ((b ≡ true) → Ensures Q x)
    → ((b ≡ false) → Ensures Q y)
    → Ensures Q (if b then x else y)
if-Ensures true h k = h refl
if-Ensures false h k = k refl

pub AllSome-elim {κ μ} :
    {A : Type κ} (P : A → Type μ) {o : Option A} {a : A} → o ≡ some a → AllSome P o → P a
AllSome-elim P e h = subst (AllSome P) e h

pub return-Ensures {ℓ κ ν} :
    {E : Type ℓ} {A : Type κ} {Q : A → Type ν} {a : A} → Q a → Ensures {E = E} Q (ok a)
return-Ensures h = record { holds = h }
