-- ===== src/Port/Debounce.antt =====
-- The detector of lib.rs against the history of samples, newest first.
mod Tests
use embassy_rp_pio_usb_host.Common.{
  ℕ, zero, suc, ◌+◌, ◌≤◌, ◌<◌, ◌≡◌, ◌≢◌, refl, sym, ap, ◌⊎◌, inl, inr, Bool, true, Option, none,
  some, List, [], ◌∷◌, arith, length, take, replicate, Bool-cases, ltb, if◌then◌else◌,
}
use embassy_rp_pio_usb_host.Port.{
  LineState, se0, j_full_speed, j_low_speed, se1, discriminant, same_state, BusEvent,
  AttachDetector, new, event_of, update,
}

-- The detector after the samples of a history.
pub after : ℕ → List LineState → AttachDetector
after r [] = new r
after r (x ∷ older) = (update (after r older) x).0

abbrev pub of_discriminant : ℕ → LineState
of_discriminant zero = se0
of_discriminant (suc zero) = j_full_speed
of_discriminant (suc (suc zero)) = j_low_speed
of_discriminant (suc (suc (suc n))) = se1

of_discriminant-discriminant : (a : LineState) → of_discriminant (discriminant a) ≡ a
of_discriminant-discriminant se0 = refl
of_discriminant-discriminant j_full_speed = refl
of_discriminant-discriminant j_low_speed = refl
of_discriminant-discriminant se1 = refl

eq_of_same_state : (a b : LineState) → same_state a b ≡ true → a ≡ b
eq_of_same_state a b h =
    let e : discriminant a ≡ discriminant b = ground arith in
    cc (of_discriminant-discriminant a, of_discriminant-discriminant b, e)

same_state_self : (a : LineState) → same_state a a ≡ true
same_state_self a = ground arith

-- What links a detector to the history: the samples it has counted are the newest ones.
record Counts (r : ℕ) (d : AttachDetector) (history : List LineState) : Type 0 where
  required : d.required_samples ≡ r
  below : d.candidate_samples < r
  newest : take d.candidate_samples history ≡ replicate d.candidate_samples d.candidate
  differs : 0 < d.candidate_samples → d.candidate ≢ d.stable

-- What one sample does to a detector that has counted `history`.
data Outcome (r : ℕ) (d : AttachDetector) (history : List LineState) (x : LineState) : Type 0 where
  unchanged :
      x ≡ d.stable
      → update d x ≡ (record d { candidate = x; candidate_samples = 0 }, none)
      → Outcome r d history x
  counting :
      (n : ℕ)
      → x ≢ d.stable
      → n < r
      → update d x ≡ (record d { candidate = x; candidate_samples = n }, none)
      → take n (x ∷ history) ≡ replicate n x
      → Outcome r d history x
  settled :
      x ≢ d.stable
      → update d x
        ≡ (record d { stable = x; candidate = x; candidate_samples = 0 }, some (event_of x))
      → take r (x ∷ history) ≡ replicate r x
      → Outcome r d history x

-- The sample after `n` samples of the same state, which the test at the end of `update` lets wait
-- or settle.
count_next :
    (r n : ℕ) (d : AttachDetector) (history : List LineState) (x : LineState)
    → x ≢ d.stable
    → suc n ≤ r
    → take (suc n) (x ∷ history) ≡ replicate (suc n) x
    → update d x ≡ (
        if ltb (suc n) r
        then (record d { candidate = x; candidate_samples = suc n }, none)
        else (record d { stable = x; candidate = x; candidate_samples = 0 }, some (event_of x)))
    → Outcome r d history x
count_next r n d history x ne le newest e = elim (Bool-cases (ltb (suc n) r)) [
  | inl less ↦ counting (suc n) ne (ground arith) (rw less at e) newest
  | inr full ↦ let filled : r ≡ suc n = ground arith in settled ne (rw full at e) (rw filled newest)
]

update-Outcome :
    (r : ℕ) (d : AttachDetector) (history : List LineState) (x : LineState)
    → r ≤ 65535
    → Counts r d history
    → Outcome r d history x
unfolding update
update-Outcome r d history x fits c = elim (Bool-cases (same_state x d.stable)) [
  | inl same ↦ unchanged (eq_of_same_state x d.stable same) (rw same)
  | inr other ↦
      let ne : x ≢ d.stable = λ e. cc (same_state_self x, ap (same_state x) e) in
      elim (Bool-cases (same_state x d.candidate)) [
        | inl again ↦
            let e : x ≡ d.candidate = eq_of_same_state x d.candidate again in
            count_next r d.candidate_samples d history x ne (omega (arith, c.below))
              (rw e (ap (◌∷◌ d.candidate) c.newest)) (ground (arith, c.required, c.below))
        | inr fresh ↦
            count_next r 0 d history x ne (omega (arith, c.below)) refl
              (ground (arith, c.required, c.below))
      ]
]

new-Counts : (r : ℕ) → 0 < r → Counts r (new r) []
unfolding new
new-Counts r h = record { required = refl; below = h; newest = refl; differs = λ p. elim p [ ] }

step-Counts :
    (r : ℕ) (d : AttachDetector) (history : List LineState) (x : LineState)
    → Counts r d history
    → Outcome r d history x
    → Counts r (update d x).0 (x ∷ history)
step-Counts r d history x c (unchanged same e) = rw e (record {
  required = c.required;
  below = omega (arith, c.below);
  newest = refl;
  differs = λ p. elim p [ ];
})
step-Counts r d history x c (counting n ne less e newest) =
    rw e (record { required = c.required; below = less; newest = newest; differs = λ p. ne })
step-Counts r d history x c (settled ne e newest) = rw e (record {
  required = c.required;
  below = omega (arith, c.below);
  newest = refl;
  differs = λ p. elim p [ ];
})

stable_of :
    {p : AttachDetector × Option BusEvent} {d : AttachDetector} {o : Option BusEvent}
    → p ≡ (d, o)
    → p.0.stable ≡ d.stable
stable_of u = ap (λ (q : AttachDetector × Option BusEvent). q.0.stable) u

-- After `k` equal samples the detector has settled on them or has counted at least `k` of them.
abbrev Seen : ℕ → LineState → AttachDetector → Type 0
Seen k x d = (d.stable ≡ x) ⊎ ((k ≡ 0) ⊎ ((d.candidate ≡ x) × (k ≤ d.candidate_samples)))

same_of_eq : {a b : LineState} → a ≡ b → same_state a b ≡ true
same_of_eq {a} e = rw (← e) (same_state_self a)

module _ (r : ℕ) (positive : 0 < r) (fits : r ≤ 65535) where
  after-Counts : (history : List LineState) → Counts r (after r history) history
  unfolding after
  after-Counts [] = new-Counts r positive
  after-Counts (x ∷ older) =
      let c = after-Counts older in
      step-Counts r (after r older) older x c (update-Outcome r (after r older) older x fits c)

  outcome : (history : List LineState) (x : LineState) → Outcome r (after r history) history x
  outcome history x = update-Outcome r (after r history) history x fits (after-Counts history)

  event_lem :
      {history : List LineState} {x : LineState} {e : BusEvent}
      → Outcome r (after r history) history x
      → (update (after r history) x).1 ≡ some e
      → (take r (x ∷ history) ≡ replicate r x)
        × (e ≡ event_of x)
        × (x ≢ (after r history).stable)
        × ((after r (x ∷ history)).stable ≡ x)
  unfolding after
  event_lem (unchanged same u) h = cc
  event_lem (counting n ne less u newest) h = cc
  event_lem (settled ne u newest) h = (newest, cc, ne, stable_of u)

  -- For every threshold `r` between 1 and 65535, every history of samples and every next sample `x`:
  -- an event is reported only when `x` and the samples before it make `r` equal samples in a row
  -- (newest first), it is the event that announces `x`, `x` differs from the stable state before,
  -- and `x` is the stable state afterwards.
  pub update_event :
      (history : List LineState) (x : LineState) (e : BusEvent)
      → (update (after r history) x).1 ≡ some e
      → (take r (x ∷ history) ≡ replicate r x)
        × (e ≡ event_of x)
        × (x ≢ (after r history).stable)
        × ((after r (x ∷ history)).stable ≡ x)
  update_event history x e h = event_lem (outcome history x) h

  quiet_lem :
      {history : List LineState} {x : LineState}
      → Outcome r (after r history) history x
      → (update (after r history) x).1 ≡ none
      → (after r (x ∷ history)).stable ≡ (after r history).stable
  unfolding after
  quiet_lem (unchanged same u) h = stable_of u
  quiet_lem (counting n ne less u newest) h = stable_of u
  quiet_lem (settled ne u newest) h = cc

  -- A sample that reports no event leaves the stable state as it was, for thresholds from 1 to 65535.
  pub update_quiet :
      (history : List LineState) (x : LineState)
      → (update (after r history) x).1 ≡ none
      → (after r (x ∷ history)).stable ≡ (after r history).stable
  update_quiet history x h = quiet_lem (outcome history x) h

  Seen-update :
      (k : ℕ) (x : LineState) (d : AttachDetector) (history : List LineState)
      → Counts r d history
      → Seen k x d
      → Seen (suc k) x (update d x).0
  unfolding update
  Seen-update k x d history c (inl done) = inl (rw (same_of_eq (sym done)) done)
  Seen-update k x d history c (inr waiting) = elim (Bool-cases (same_state x d.stable)) [
    | inl same ↦ inl (rw same (sym (eq_of_same_state x d.stable same)))
    | inr other ↦ elim (Bool-cases (same_state x d.candidate)) [
      | inl again ↦ ground (arith, eq_of_same_state x d.candidate again, c.below, c.required)
      | inr fresh ↦ ground (arith, ap (same_state x), same_state_self x, c.below, c.required)
    ]
  ]

  Seen-after :
      (k : ℕ) (x : LineState) (history : List LineState)
      → take k history ≡ replicate k x
      → Seen k x (after r history)
  unfolding after
  Seen-after zero x history h = inr (inl refl)
  Seen-after (suc k) x [] h = cc
  Seen-after (suc k) x (y ∷ older) h =
      let e : x ≡ y = cc in
      let rest : take k older ≡ replicate k x = cc in
      rw (← e)
        (Seen-update k x (after r older) older (after-Counts older) (Seen-after k x older rest))

  -- A state that lasts `r` samples is the stable state: the detector never misses one, for
  -- thresholds from 1 to 65535.
  pub stable-after :
      (x : LineState) (history : List LineState)
      → take r history ≡ replicate r x
      → (after r history).stable ≡ x
  stable-after x history h = ground (arith, Seen-after r x history h, (after-Counts history).below)
