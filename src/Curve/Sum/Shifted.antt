-- ===== src/Curve/Sum/Shifted.antt =====
-- Adding a constant to a curve that passes `validate_monotonic_decreasing`.
use synergistic_juno_contrac.Base.{
  ℕ, ◌+◌, ◌<◌, ◌≡◌, refl, some, List, [], ◌∷◌, map, arith, length, ok,
}
use synergistic_juno_contrac.Base.Checked.{u128_mod, add_within_lem}
use synergistic_juno_contrac.Curve.{Step, SaturatingLinear, saturating_linear, piecewise_linear}
use synergistic_juno_contrac.Curve.Value.{size}
use synergistic_juno_contrac.Curve.Validate.{
  piecewise_decreasing, saturating_decreasing, validate_monotonic_decreasing,
}
use synergistic_juno_contrac.Curve.Validation.{OrderedFrom, FallsFrom, piecewise_decreasing_iff}
use synergistic_juno_contrac.Curve.Monotone.{saturating_decreasing_sound}
use synergistic_juno_contrac.Curve.Combine.{shift_steps, combine_const}
use synergistic_juno_contrac.Curve.Sum.Decreasing.{Vests}

-- Adding a constant to a falling list of steps keeps its order in both coordinates.
abbrev shifted : ℕ → List Step → List Step
shifted k = map λ p. (p.0, k + p.1)

shift_steps-eq-shifted :
    (k high : ℕ) (steps : List Step)
    → FallsFrom high steps
    → k + high < u128_mod
    → shift_steps k steps ≡ some (shifted k steps)
unfolding shift_steps
shift_steps-eq-shifted k high [] d fit = refl
shift_steps-eq-shifted k high (p ∷ steps) d fit = rw (
  add_within_lem u128_mod k p.1 (omega arith),
  shift_steps-eq-shifted k p.1 steps d.1 (omega arith),
)

OrderedFrom-shifted :
    (k low : ℕ) (steps : List Step) → OrderedFrom low steps → OrderedFrom low (shifted k steps)
OrderedFrom-shifted k low [] o = tt
OrderedFrom-shifted k low (p ∷ steps) o = (o.0, OrderedFrom-shifted k p.0 steps o.1)

FallsFrom-shifted :
    (k high : ℕ) (steps : List Step) → FallsFrom high steps → FallsFrom (k + high) (shifted k steps)
FallsFrom-shifted k high [] d = tt
FallsFrom-shifted k high (p ∷ steps) d = (omega arith, FallsFrom-shifted k p.1 steps d.1)

length-shifted : (k : ℕ) (steps : List Step) → length (shifted k steps) ≡ length steps
length-shifted k [] = refl
length-shifted k (p ∷ steps) = omega (arith, length-shifted k steps)

pub combine_const_piecewise-Vests :
    (k : ℕ) (p : Step) (steps : List Step)
    → piecewise_decreasing (p ∷ steps) ≡ ok tt
    → k + p.1 < u128_mod
    → Vests (combine_const k (piecewise_linear (record { steps = p ∷ steps }))) (length (p ∷ steps))
unfolding combine_const validate_monotonic_decreasing size
combine_const_piecewise-Vests k p steps h fit =
    let (ordered, along) = (piecewise_decreasing_iff p steps).0 h in
    (
      piecewise_linear (record { steps = shifted k (p ∷ steps) }),
      rw (shift_steps-eq-shifted k p.1 (p ∷ steps) (omega arith, along) fit),
      (piecewise_decreasing_iff (p.0, k + p.1) (shifted k steps)).1
          (OrderedFrom-shifted k 0 (p ∷ steps) ordered, FallsFrom-shifted k p.1 steps along),
      omega (arith, length-shifted k (p ∷ steps)),
    )

pub combine_const_saturating-Vests :
    (k : ℕ) (s : SaturatingLinear)
    → saturating_decreasing s ≡ ok tt
    → k + s.min_y < u128_mod
    → Vests (combine_const k (saturating_linear s)) 2
unfolding combine_const validate_monotonic_decreasing size saturating_decreasing
combine_const_saturating-Vests k s h fit =
    let (fwd, down) = saturating_decreasing_sound s h in
    (
      saturating_linear (record s { min_y = s.min_y + k; max_y = s.max_y + k }),
      rw (
        add_within_lem u128_mod s.min_y k (omega arith),
        add_within_lem u128_mod s.max_y k (omega arith),
      ),
      ground arith,
      omega arith,
    )
