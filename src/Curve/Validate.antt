-- ===== src/Curve/Validate.antt =====
-- curve.rs: the checks that a curve passes before it is stored.
use Prim.Native.Nat.{compare, Ordering}
use synergistic_juno_contrac.Base.{
  ℕ, Option, none, some, List, [], ◌∷◌, ltb, leb, if◌then◌else◌, Result, ok, err, ◌>>=◌, ◌>>◌,
  ensure, reject_if, ok_or,
}
use synergistic_juno_contrac.Curve.{
  CurveError, not_monotonic, monotonic_increasing, monotonic_decreasing, points_out_of_order,
  missing_steps, too_complex, aborted, Step, SaturatingLinear, Curve, constant, saturating_linear,
  piecewise_linear,
}
use synergistic_juno_contrac.Curve.Value.{size}

abbrev pub Check : Type 0
Check = Result CurveError (Unit {0})

-- `SaturatingLinear::validate`
unfoldable pub saturating_validate : SaturatingLinear → Check
saturating_validate s = reject_if (leb s.max_x s.min_x) points_out_of_order

unfoldable pub saturating_increasing : SaturatingLinear → Check
unfolding saturating_validate
saturating_increasing s = do
  saturating_validate s
  reject_if (ltb s.max_y s.min_y) monotonic_decreasing

unfoldable pub saturating_decreasing : SaturatingLinear → Check
unfolding saturating_validate
saturating_decreasing s = do
  saturating_validate s
  reject_if (ltb s.min_y s.max_y) monotonic_increasing

-- The `fold` of `PiecewiseLinear::validate`.
unfoldable pub check_order : Result CurveError ℕ → List Step → Result CurveError ℕ
check_order acc [] = acc
check_order acc ((x, _) ∷ steps) =
    check_order (acc >>= λ last. if ltb last x then ok x else err points_out_of_order) steps

-- `PiecewiseLinear::validate`
unfoldable pub piecewise_validate : List Step → Check
unfolding check_order
piecewise_validate [] = err missing_steps
piecewise_validate (step ∷ steps) = check_order (ok 0) (step ∷ steps) >>= λ _. ok tt

pub data Shape : Type 0 where
  constant_shape increasing decreasing mixed : Shape

-- The `match (shape, y.cmp(&last))` of `classify_curve`.
unfoldable pub next_shape : Shape → Ordering → Shape
next_shape mixed _ = mixed
next_shape decreasing Ordering.gt = mixed
next_shape decreasing _ = decreasing
next_shape increasing Ordering.lt = mixed
next_shape increasing _ = increasing
next_shape constant_shape Ordering.gt = increasing
next_shape constant_shape Ordering.lt = decreasing
next_shape constant_shape Ordering.eq = constant_shape

unfoldable pub classify_from : ℕ → Shape → List Step → Shape
unfolding next_shape
classify_from last shape [] = shape
classify_from last shape ((_, y) ∷ steps) =
    classify_from y (next_shape shape (compare y last)) steps

-- `PiecewiseLinear::classify_curve`; `iter.next().unwrap()` panics on no steps.
unfoldable pub classify_curve : List Step → Option Shape
unfolding classify_from
classify_curve [] = none
classify_curve ((_, first) ∷ steps) = some (classify_from first constant_shape steps)

abbrev pub accept_increasing : Shape → Check
accept_increasing mixed = err not_monotonic
accept_increasing decreasing = err monotonic_decreasing
accept_increasing _ = ok tt

abbrev pub accept_decreasing : Shape → Check
accept_decreasing mixed = err not_monotonic
accept_decreasing increasing = err monotonic_increasing
accept_decreasing _ = ok tt

unfoldable pub piecewise_increasing : List Step → Check
unfolding piecewise_validate classify_curve
piecewise_increasing steps = do
  piecewise_validate steps
  accept_increasing (← ok_or (classify_curve steps) aborted)

unfoldable pub piecewise_decreasing : List Step → Check
unfolding piecewise_validate classify_curve
piecewise_decreasing steps = do
  piecewise_validate steps
  accept_decreasing (← ok_or (classify_curve steps) aborted)

-- `Curve::validate`
unfoldable pub validate : Curve → Check
validate (constant y) = ok tt
validate (saturating_linear s) = saturating_validate s
validate (piecewise_linear p) = piecewise_validate p.steps

-- `Curve::validate_monotonic_increasing`
unfoldable pub validate_monotonic_increasing : Curve → Check
validate_monotonic_increasing (constant y) = ok tt
validate_monotonic_increasing (saturating_linear s) = saturating_increasing s
validate_monotonic_increasing (piecewise_linear p) = piecewise_increasing p.steps

-- `Curve::validate_monotonic_decreasing`
unfoldable pub validate_monotonic_decreasing : Curve → Check
validate_monotonic_decreasing (constant y) = ok tt
validate_monotonic_decreasing (saturating_linear s) = saturating_decreasing s
validate_monotonic_decreasing (piecewise_linear p) = piecewise_decreasing p.steps

-- `Curve::validate_complexity`
unfoldable pub validate_complexity : Curve → ℕ → Check
validate_complexity c max = ensure (leb (size c) max) too_complex
