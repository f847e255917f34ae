-- ===== src/Curve/Monotone.antt =====
-- A curve that passes its monotonicity check is monotone, rounding included.
use synergistic_juno_contrac.Base.{ℕ, ◌≤◌, ◌<◌, ◌≡◌, refl, Option, some, List, [], ◌∷◌, arith, ok}
use synergistic_juno_contrac.Curve.{
  Step, SaturatingLinear, Curve, constant, saturating_linear, piecewise_linear,
}
use synergistic_juno_contrac.Curve.Value.{value, saturating_value, piecewise_value}
use synergistic_juno_contrac.Curve.Validate.{
  validate_monotonic_decreasing, saturating_increasing, saturating_decreasing, piecewise_decreasing,
}
use synergistic_juno_contrac.Curve.Validation.{
  OrderedFrom, RisesFrom, FallsFrom, piecewise_decreasing_iff, piecewise_decreasing_empty,
}
use synergistic_juno_contrac.Curve.Interpolate.{
  NoOverflow, interp_bounds, interp_rises, interp_falls,
}
use synergistic_juno_contrac.Curve.Reference.{
  reference, reference_from, SegmentsFrom, piecewise_value-eq-reference,
  saturating_value-eq-reference,
}

abbrev pub FitsFrom : Step → List Step → Type 0
FitsFrom p [] = Unit
FitsFrom p (q ∷ steps) = NoOverflow p q × FitsFrom q steps

abbrev pub FitsSteps : List Step → Type 0
FitsSteps [] = Unit
FitsSteps (p ∷ steps) = FitsFrom p steps

-- No product of the evaluation overflows.
abbrev pub Fits : Curve → Type 0
Fits (constant y) = Unit
Fits (saturating_linear s) = NoOverflow (s.min_x, s.min_y) (s.max_x, s.max_y)
Fits (piecewise_linear p) = FitsSteps p.steps

pub SegmentsFrom-of :
    (p : Step) (steps : List Step) → OrderedFrom p.0 steps → FitsFrom p steps → SegmentsFrom p steps
SegmentsFrom-of p [] o f = tt
SegmentsFrom-of p (q ∷ steps) o f =
    (record { forward = o.0; fits = f.0 }, SegmentsFrom-of q steps o.1 f.1)

-- Where the values rise, no later value is below the current step.
reference_from_ge :
    (p : Step) (steps : List Step) (x : ℕ)
    → RisesFrom p.1 steps
    → p.0 ≤ x
    → p.1 ≤ reference_from p steps x
unfolding reference_from
reference_from_ge p [] x r lo = omega arith
reference_from_ge p (q ∷ steps) x r lo =
    ground (arith, reference_from_ge q steps x, interp_bounds p q x)

reference_from_rises :
    (p : Step) (steps : List Step) (x y : ℕ)
    → SegmentsFrom p steps
    → RisesFrom p.1 steps
    → p.0 ≤ x
    → x ≤ y
    → reference_from p steps x ≤ reference_from p steps y
unfolding reference_from
reference_from_rises p [] x y s r lo le = omega arith
reference_from_rises p (q ∷ steps) x y s r lo le = ground (
  arith,
  reference_from_ge q steps y,
  reference_from_rises q steps x y,
  interp_bounds p q x,
  interp_rises p q x y,
)

-- Where the values fall, no later value is above the current step.
reference_from_le :
    (p : Step) (steps : List Step) (x : ℕ)
    → FallsFrom p.1 steps
    → p.0 ≤ x
    → reference_from p steps x ≤ p.1
unfolding reference_from
reference_from_le p [] x r lo = omega arith
reference_from_le p (q ∷ steps) x r lo =
    ground (arith, reference_from_le q steps x, interp_bounds p q x)

reference_from_falls :
    (p : Step) (steps : List Step) (x y : ℕ)
    → SegmentsFrom p steps
    → FallsFrom p.1 steps
    → p.0 ≤ x
    → x ≤ y
    → reference_from p steps y ≤ reference_from p steps x
unfolding reference_from
reference_from_falls p [] x y s r lo le = omega arith
reference_from_falls p (q ∷ steps) x y s r lo le = ground (
  arith,
  reference_from_le q steps y,
  reference_from_falls q steps x y,
  interp_bounds p q x,
  interp_falls p q x y,
)

pub reference_falls :
    (p : Step) (steps : List Step) (x y : ℕ)
    → SegmentsFrom p steps
    → FallsFrom p.1 steps
    → x ≤ y
    → reference p steps y ≤ reference p steps x
unfolding reference
reference_falls p steps x y s r le =
    ground (arith, reference_from_le p steps y, reference_from_falls p steps x y)

pub reference_below :
    (p : Step) (steps : List Step) (x : ℕ) → FallsFrom p.1 steps → reference p steps x ≤ p.1
unfolding reference
reference_below p steps x r = ground (arith, reference_from_le p steps x)

-- Both values are returned, and the first is at most the second.
abbrev pub Ascending : Option ℕ → Option ℕ → Type 0
Ascending u v = (a : ℕ) × (b : ℕ) × (u ≡ some a) × (v ≡ some b) × (a ≤ b)

pub saturating_increasing_sound :
    (s : SaturatingLinear)
    → saturating_increasing s ≡ ok tt
    → (s.min_x < s.max_x) × (s.min_y ≤ s.max_y)
unfolding saturating_increasing
saturating_increasing_sound s h = ground arith

pub saturating_decreasing_sound :
    (s : SaturatingLinear)
    → saturating_decreasing s ≡ ok tt
    → (s.min_x < s.max_x) × (s.max_y ≤ s.min_y)
unfolding saturating_decreasing
saturating_decreasing_sound s h = ground arith

piecewise_value_decreasing :
    (steps : List Step) (x y : ℕ)
    → FitsSteps steps
    → piecewise_decreasing steps ≡ ok tt
    → x ≤ y
    → Ascending (piecewise_value steps y) (piecewise_value steps x)
piecewise_value_decreasing [] x y f h le = absurd (piecewise_decreasing_empty h)
piecewise_value_decreasing (p ∷ steps) x y f h le =
    let (ordered, along) = (piecewise_decreasing_iff p steps).0 h in
    let segs = SegmentsFrom-of p steps ordered.1 f in
    (
      reference p steps y,
      reference p steps x,
      piecewise_value-eq-reference p steps y segs,
      piecewise_value-eq-reference p steps x segs,
      reference_falls p steps x y segs along le,
    )

saturating_value_decreasing :
    (s : SaturatingLinear) (x y : ℕ)
    → NoOverflow (s.min_x, s.min_y) (s.max_x, s.max_y)
    → saturating_decreasing s ≡ ok tt
    → x ≤ y
    → Ascending (saturating_value s y) (saturating_value s x)
saturating_value_decreasing s x y f h le =
    let (fwd, down) = saturating_decreasing_sound s h in
    let p : Step = (s.min_x, s.min_y) in
    let steps : List Step = (s.max_x, s.max_y) ∷ [] in
    let seg : SegmentsFrom p steps = (record { forward = fwd; fits = f }, tt) in
    (
      reference p steps y,
      reference p steps x,
      saturating_value-eq-reference s y seg.0,
      saturating_value-eq-reference s x seg.0,
      reference_falls p steps x y seg (down, tt) le,
    )

-- If `validate_monotonic_decreasing` accepts a curve whose products fit into 128 bits, the curve
-- evaluates without a panic at all times, and its value at a later time is not higher.
pub value_decreasing :
    (c : Curve) (x y : ℕ)
    → Fits c
    → validate_monotonic_decreasing c ≡ ok tt
    → x ≤ y
    → Ascending (value c y) (value c x)
unfolding value validate_monotonic_decreasing
value_decreasing (constant v) x y f h le = (v, v, refl, refl, omega arith)
value_decreasing (saturating_linear s) x y f h le = saturating_value_decreasing s x y f h le
value_decreasing (piecewise_linear p) x y f h le = piecewise_value_decreasing p.steps x y f h le
