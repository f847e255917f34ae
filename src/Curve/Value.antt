-- ===== src/Curve/Value.antt =====
-- curve.rs: `value`, `size` and `range` of the three kinds of curve. `none` is a panic: an
-- arithmetic operation out of range, or an index into an empty `steps`.
use synergistic_juno_contrac.Base.{
  ℕ, Option, none, some, List, [], ◌∷◌, min, max, length, ltb, leb, ◌==◌, if◌then◌else◌,
}
use synergistic_juno_contrac.Base.Checked.{◌>>=◌, checked_sub, checked_div, add128, mul128}
use synergistic_juno_contrac.Curve.{
  Step, SaturatingLinear, Curve, constant, saturating_linear, piecewise_linear,
}

unfoldable pub interpolate : Step → Step → ℕ → Option ℕ
interpolate (min_x, min_y) (max_x, max_y) x =
    if ltb min_y max_y
    then (do
      dy ← checked_sub max_y min_y
      dx ← checked_sub x min_x
      area ← mul128 dy dx
      width ← checked_sub max_x min_x
      rise ← checked_div area width
      add128 min_y rise)
    else (do
      dy ← checked_sub min_y max_y
      dx ← checked_sub x min_x
      area ← mul128 dy dx
      width ← checked_sub max_x min_x
      fall ← checked_div area width
      checked_sub min_y fall)

-- `SaturatingLinear::value`
unfoldable pub saturating_value : SaturatingLinear → ℕ → Option ℕ
saturating_value s x =
    if ltb x s.min_x
    then some s.min_y
    else if ltb s.max_x x
    then some s.max_y
    else interpolate (s.min_x, s.min_y) (s.max_x, s.max_y) x

-- The loop of `PiecewiseLinear::value` over `steps[1..]`, on its variables `prev` and `next`.
unfoldable pub scan : Option Step → Step → List Step → ℕ → Option Step × Step
scan prev next [] x = (prev, next)
scan prev next (step ∷ steps) x =
    let onward = scan (some next) step steps x in if leb next.0 x then onward else (prev, next)

-- What `PiecewiseLinear::value` does with the pair that the loop found.
unfoldable pub pick : Option Step × Step → ℕ → Option ℕ
pick (none, next) x = some next.1
pick (some last, next) x =
    if x == last.0
    then some last.1
    else if leb next.0 x
    then some next.1
    else interpolate last next x

-- `PiecewiseLinear::value`
unfoldable pub piecewise_value : List Step → ℕ → Option ℕ
unfolding scan pick
piecewise_value [] x = none
piecewise_value (first ∷ steps) x = pick (scan none first steps x) x

-- `Curve::value`
unfoldable pub value : Curve → ℕ → Option ℕ
value (constant y) x = some y
value (saturating_linear s) x = saturating_value s x
value (piecewise_linear p) x = piecewise_value p.steps x

-- `Curve::size`
unfoldable pub size : Curve → ℕ
size (constant y) = 1
size (saturating_linear s) = 2
size (piecewise_linear p) = length p.steps

-- `SaturatingLinear::range`
unfoldable pub saturating_range : SaturatingLinear → ℕ × ℕ
saturating_range s = if ltb s.min_y s.max_y then (s.min_y, s.max_y) else (s.max_y, s.min_y)

-- The iterator's `min` and `max` over the values of the steps.
unfoldable pub lowest : ℕ → List Step → ℕ
lowest low [] = low
lowest low ((_, y) ∷ steps) = lowest (min low y) steps

unfoldable pub highest : ℕ → List Step → ℕ
highest high [] = high
highest high ((_, y) ∷ steps) = highest (max high y) steps

-- `PiecewiseLinear::range`; `min().unwrap()` panics on no steps.
unfoldable pub piecewise_range : List Step → Option (ℕ × ℕ)
unfolding lowest highest
piecewise_range [] = none
piecewise_range ((_, y) ∷ steps) = some (lowest y steps, highest y steps)

-- `Curve::range`
unfoldable pub range : Curve → Option (ℕ × ℕ)
range (constant y) = some (y, y)
range (saturating_linear s) = some (saturating_range s)
range (piecewise_linear p) = piecewise_range p.steps
