-- ===== src/Curve/Bounded.antt =====
-- The range of a curve holds every value of it, and a vesting curve ends at its lower bound.
use mathlib.Core.Option
use synergistic_juno_contrac.Base.{
  ℕ, ◌≤◌, ◌≡◌, refl, Option, some, List, [], ◌∷◌, arith, ok, min, max,
}
use synergistic_juno_contrac.Curve.{
  Step, SaturatingLinear, Curve, constant, saturating_linear, piecewise_linear,
}
use synergistic_juno_contrac.Curve.Value.{
  value, saturating_value, piecewise_value, range, saturating_range, piecewise_range, lowest,
  highest,
}
use synergistic_juno_contrac.Curve.Interpolate.{interp_bounds, Segment, NoOverflow}
use synergistic_juno_contrac.Curve.Reference.{
  reference, reference_from, SegmentsFrom, piecewise_value-eq-reference,
  saturating_value-eq-reference,
}
use synergistic_juno_contrac.Curve.Validate.{
  validate, piecewise_validate, validate_monotonic_decreasing, saturating_decreasing,
  piecewise_decreasing,
}
use synergistic_juno_contrac.Curve.Validation.{
  OrderedFrom, FallsFrom, piecewise_decreasing_iff, piecewise_decreasing_empty,
  piecewise_validate→OrderedFrom, piecewise_validate_empty, saturating_validate→lt,
}
use synergistic_juno_contrac.Curve.Monotone.{
  FitsSteps, Fits, SegmentsFrom-of, saturating_decreasing_sound,
}

-- All values of the steps lie between `lo` and `hi`.
abbrev pub WithinFrom : ℕ → ℕ → Step → List Step → Type 0
WithinFrom lo hi p [] = (lo ≤ p.1) × (p.1 ≤ hi)
WithinFrom lo hi p (q ∷ steps) = (lo ≤ p.1) × (p.1 ≤ hi) × WithinFrom lo hi q steps

WithinFrom-head :
    (lo hi : ℕ) (p : Step) (steps : List Step) → WithinFrom lo hi p steps → (lo ≤ p.1) × (p.1 ≤ hi)
WithinFrom-head lo hi p [] w = w
WithinFrom-head lo hi p (q ∷ steps) w = (w.0, w.1)

reference_from_within :
    (lo hi : ℕ) (p : Step) (steps : List Step) (x : ℕ)
    → WithinFrom lo hi p steps
    → p.0 ≤ x
    → (lo ≤ reference_from p steps x) × (reference_from p steps x ≤ hi)
unfolding reference_from
reference_from_within lo hi p [] x w le = w
reference_from_within lo hi p (q ∷ steps) x w le = ground (
  arith,
  reference_from_within lo hi q steps x w.2,
  WithinFrom-head lo hi q steps w.2,
  interp_bounds p q x,
)

pub reference_within :
    (lo hi : ℕ) (p : Step) (steps : List Step) (x : ℕ)
    → WithinFrom lo hi p steps
    → (lo ≤ reference p steps x) × (reference p steps x ≤ hi)
unfolding reference
reference_within lo hi p steps x w =
    ground (arith, reference_from_within lo hi p steps x w, WithinFrom-head lo hi p steps w)

lowest-le : (low : ℕ) (steps : List Step) → lowest low steps ≤ low
unfolding lowest
lowest-le low [] = omega arith
lowest-le low (p ∷ steps) = omega (arith, lowest-le (min low p.1) steps)

highest-ge : (high : ℕ) (steps : List Step) → high ≤ highest high steps
unfolding highest
highest-ge high [] = omega arith
highest-ge high (p ∷ steps) = omega (arith, highest-ge (max high p.1) steps)

within_lowest-highest :
    (lo hi low high : ℕ) (p : Step) (steps : List Step)
    → lo ≤ lowest low steps
    → highest high steps ≤ hi
    → low ≤ p.1
    → p.1 ≤ high
    → WithinFrom lo hi p steps
unfolding lowest highest
within_lowest-highest lo hi low high p [] a b c d = (omega arith, omega arith)
within_lowest-highest lo hi low high p (q ∷ steps) a b c d = (
  omega (arith, lowest-le (min low q.1) steps),
  omega (arith, highest-ge (max high q.1) steps),
  within_lowest-highest lo hi (min low q.1) (max high q.1) q steps a b (omega arith) (omega arith),
)

-- A value is returned, and it lies in the range that is returned.
abbrev pub InRange : Option (ℕ × ℕ) → Option ℕ → Type 0
InRange r v =
    (lo : ℕ) × (hi : ℕ) × (y : ℕ) × (r ≡ some (lo, hi)) × (v ≡ some y) × (lo ≤ y) × (y ≤ hi)

piecewise-InRange :
    (p : Step) (steps : List Step) (x : ℕ)
    → SegmentsFrom p steps
    → InRange (piecewise_range (p ∷ steps)) (piecewise_value (p ∷ steps) x)
unfolding piecewise_range
piecewise-InRange p steps x segs =
    let lo = lowest p.1 steps in
    let hi = highest p.1 steps in
    let w =
      within_lowest-highest lo hi p.1 p.1 p steps (omega arith) (omega arith) (omega arith)
        (omega arith) in
    let b = reference_within lo hi p steps x w in
    (lo, hi, reference p steps x, refl, piecewise_value-eq-reference p steps x segs, b.0, b.1)

saturating-InRange :
    (s : SaturatingLinear) (x : ℕ)
    → Segment (s.min_x, s.min_y) (s.max_x, s.max_y)
    → InRange (some (saturating_range s)) (saturating_value s x)
unfolding saturating_range
saturating-InRange s x g =
    let p : Step = (s.min_x, s.min_y) in
    let steps : List Step = (s.max_x, s.max_y) ∷ [] in
    let lo = min s.min_y s.max_y in
    let hi = max s.min_y s.max_y in
    let w : WithinFrom lo hi p steps = (omega arith, omega arith, (omega arith, omega arith)) in
    let b = reference_within lo hi p steps x w in
    (lo, hi, reference p steps x, ground arith, saturating_value-eq-reference s x g, b.0, b.1)

piecewise_value-InRange :
    (steps : List Step) (x : ℕ)
    → FitsSteps steps
    → piecewise_validate steps ≡ ok tt
    → InRange (piecewise_range steps) (piecewise_value steps x)
piecewise_value-InRange [] x f h = absurd (piecewise_validate_empty h)
piecewise_value-InRange (p ∷ steps) x f h =
    let ordered = piecewise_validate→OrderedFrom p steps h in
    piecewise-InRange p steps x (SegmentsFrom-of p steps ordered.1 f)

-- A curve that passes `validate` and whose products fit into 128 bits returns a range and, at
-- every time, a value that lies in it.
pub value-InRange :
    (c : Curve) (x : ℕ) → Fits c → validate c ≡ ok tt → InRange (range c) (value c x)
unfolding value range validate
value-InRange (constant y) x f h = (y, y, y, refl, refl, omega arith, omega arith)
value-InRange (saturating_linear s) x f h =
    saturating-InRange s x (record { forward = saturating_validate→lt s h; fits = f })
value-InRange (piecewise_linear p) x f h = piecewise_value-InRange p.steps x f h

-- The time of the last step.
unfoldable pub end_time_from : Step → List Step → ℕ
end_time_from p [] = p.0
end_time_from p (q ∷ steps) = end_time_from q steps

unfoldable pub end_time_steps : List Step → ℕ
end_time_steps [] = 0
end_time_steps (p ∷ steps) = end_time_from p steps

-- From this time on a curve keeps its value.
unfoldable pub end_time : Curve → ℕ
end_time (constant y) = 0
end_time (saturating_linear s) = s.max_x
end_time (piecewise_linear p) = end_time_steps p.steps

end_time_from_ge :
    (p : Step) (steps : List Step) → OrderedFrom p.0 steps → p.0 ≤ end_time_from p steps
unfolding end_time_from
end_time_from_ge p [] o = omega arith
end_time_from_ge p (q ∷ steps) o = omega (arith, end_time_from_ge q steps o.1)

reference_from_settles :
    (p : Step) (steps : List Step) (x : ℕ)
    → OrderedFrom p.0 steps
    → FallsFrom p.1 steps
    → end_time_from p steps ≤ x
    → reference_from p steps x ≡ lowest p.1 steps
unfolding reference_from lowest end_time_from
reference_from_settles p [] x o d le = refl
reference_from_settles p (q ∷ steps) x o d le =
    let ih = reference_from_settles q steps x o.1 d.1 le in
    let e : min p.1 q.1 ≡ q.1 = omega arith in
    rw e (ground (arith, ih, end_time_from_ge q steps o.1))

piecewise_value_settles :
    (steps : List Step) (x : ℕ)
    → FitsSteps steps
    → piecewise_decreasing steps ≡ ok tt
    → end_time_steps steps ≤ x
    → Option.map (λ r. r.0) (piecewise_range steps) ≡ piecewise_value steps x
unfolding piecewise_range end_time_steps reference
piecewise_value_settles [] x f h le = absurd (piecewise_decreasing_empty h)
piecewise_value_settles (p ∷ steps) x f h le =
    let (ordered, along) = (piecewise_decreasing_iff p steps).0 h in
    let segs = SegmentsFrom-of p steps ordered.1 f in
    ground (
      arith,
      piecewise_value-eq-reference p steps x segs,
      reference_from_settles p steps x ordered.1 along le,
      end_time_from_ge p steps ordered.1,
    )

saturating_value_settles :
    (s : SaturatingLinear) (x : ℕ)
    → NoOverflow (s.min_x, s.min_y) (s.max_x, s.max_y)
    → saturating_decreasing s ≡ ok tt
    → s.max_x ≤ x
    → some (saturating_range s).0 ≡ saturating_value s x
unfolding saturating_range reference reference_from
saturating_value_settles s x f h le =
    let (fwd, down) = saturating_decreasing_sound s h in
    ground (arith, saturating_value-eq-reference s x (record { forward = fwd; fits = f }))

-- A curve that passes `validate_monotonic_decreasing` has the lower end of its range for its
-- value from its last step on.
pub value_settles :
    (c : Curve) (x : ℕ)
    → Fits c
    → validate_monotonic_decreasing c ≡ ok tt
    → end_time c ≤ x
    → Option.map (λ r. r.0) (range c) ≡ value c x
unfolding value range validate_monotonic_decreasing end_time
value_settles (constant y) x f h le = refl
value_settles (saturating_linear s) x f h le = saturating_value_settles s x f h le
value_settles (piecewise_linear p) x f h le = piecewise_value_settles p.steps x f h le
