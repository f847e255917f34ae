-- ===== src/Curve/Tests.antt =====
-- Curves at concrete points.
use synergistic_juno_contrac.Base.{err, ◌+◌, ◌≤◌, ◌≡◌, ◌↔◌, refl, some, List, [], ◌∷◌, ok, arith}
use synergistic_juno_contrac.Curve.{Step, Curve, saturating_linear, piecewise_linear}
use synergistic_juno_contrac.Curve.Value.{
  scan, pick, piecewise_value, value, size, range, piecewise_value,
}
use synergistic_juno_contrac.Curve.Validate.{
  validate, validate_monotonic_increasing, validate_monotonic_decreasing, piecewise_increasing,
  piecewise_decreasing, piecewise_validate, saturating_decreasing, check_order, classify_curve,
  classify_from, next_shape,
}
use synergistic_juno_contrac.Curve.Combine.{
  insert_sorted, sort, dedup_from, dedup, sum_at, piecewise_combine, from_saturating, combine,
}
use synergistic_juno_contrac.Curve.Sum.FromZero.{combine_from_zero}
use synergistic_juno_contrac.Base.Checked.{add_within}
use synergistic_juno_contrac.Curve.{points_out_of_order, SaturatingLinear}
use synergistic_juno_contrac.Curve.Reference.{reference, piecewise_value-eq-reference}
use synergistic_juno_contrac.Curve.Validation.{OrderedFrom, FallsFrom, piecewise_decreasing_iff}
use synergistic_juno_contrac.Curve.Monotone.{Fits, Ascending, value_decreasing}
use synergistic_juno_contrac.Curve.Bounded.{
  InRange, end_time, end_time_steps, end_time_from, value-InRange,
}
use synergistic_juno_contrac.Curve.Sum.Kinds.{combine_decreasing}
use synergistic_juno_contrac.Curve.Sum.Decreasing.{Vests}

abbrev falling_line : Curve
falling_line = saturating_linear (record { min_x = 10; min_y = 80; max_x = 20; max_y = 0 })

abbrev falling_steps : List Step
falling_steps = (12, 60) ∷ (18, 30) ∷ (30, 0) ∷ []

abbrev falling : Curve
falling = piecewise_linear (record { steps = falling_steps })

abbrev rising_steps : List Step
rising_steps = (5, 1) ∷ (9, 40) ∷ []

abbrev rising : Curve
rising = piecewise_linear (record { steps = rising_steps })

line-Fits : Fits falling_line
line-Fits = record {
  start_fits = omega arith;
  end_fits = omega arith;
  rise_fits = omega arith;
  fall_fits = omega arith;
}

falling-Fits : Fits falling
falling-Fits = (
  record {
    start_fits = omega arith;
    end_fits = omega arith;
    rise_fits = omega arith;
    fall_fits = omega arith;
  },
  (
    record {
      start_fits = omega arith;
      end_fits = omega arith;
      rise_fits = omega arith;
      fall_fits = omega arith;
    },
    tt,
  ),
)

rising-Fits : Fits rising
rising-Fits = (
  record {
    start_fits = omega arith;
    end_fits = omega arith;
    rise_fits = omega arith;
    fall_fits = omega arith;
  },
  tt,
)

line_checked : validate_monotonic_decreasing falling_line ≡ ok tt
unfolding validate_monotonic_decreasing saturating_decreasing
line_checked = refl

falling_checked : validate_monotonic_decreasing falling ≡ ok tt
unfolding validate_monotonic_decreasing piecewise_decreasing piecewise_validate check_order
    classify_curve classify_from next_shape
falling_checked = refl

rising_checked : validate_monotonic_increasing rising ≡ ok tt
unfolding validate_monotonic_increasing piecewise_increasing piecewise_validate check_order
    classify_curve classify_from next_shape
rising_checked = refl

falling_valid : validate falling ≡ ok tt
unfolding validate piecewise_validate check_order
falling_valid = refl

falling_ends : end_time falling ≤ 40
unfolding end_time end_time_steps end_time_from
falling_ends = omega arith

combine_decreasing_example : Vests (combine falling_line falling) (size falling_line + size falling)
combine_decreasing_example =
    combine_decreasing falling_line falling line-Fits falling-Fits (omega arith) tt line_checked
      falling_checked (omega arith)

value_decreasing_example : Ascending (value falling 25) (value falling 14)
value_decreasing_example = value_decreasing falling 14 25 falling-Fits falling_checked (omega arith)

piecewise_value-eq-reference_example :
    piecewise_value rising_steps 7 ≡ some (reference (5, 1) ((9, 40) ∷ []) 7)
piecewise_value-eq-reference_example =
    piecewise_value-eq-reference (5, 1) ((9, 40) ∷ []) 7
      (record { forward = omega arith; fits = rising-Fits.0 }, tt)

value-InRange_example : InRange (range falling) (value falling 15)
value-InRange_example = value-InRange falling 15 falling-Fits falling_valid

piecewise_decreasing_iff_example :
    (piecewise_decreasing falling_steps ≡ ok tt)
    ↔ (OrderedFrom 0 falling_steps × FallsFrom 60 ((18, 30) ∷ (30, 0) ∷ []))
piecewise_decreasing_iff_example = piecewise_decreasing_iff (12, 60) ((18, 30) ∷ (30, 0) ∷ [])

abbrev from_start : SaturatingLinear
from_start = record { min_x = 0; min_y = 80; max_x = 20; max_y = 0 }

abbrev sum_from_start : Curve
sum_from_start = piecewise_linear (record { steps = (0, 160) ∷ (20, 0) ∷ [] })

sum_runs :
    combine (saturating_linear from_start) (saturating_linear from_start) ≡ some sum_from_start
unfolding combine piecewise_combine from_saturating sort insert_sorted dedup dedup_from sum_at
    piecewise_value scan pick add_within
sum_runs = refl

combine_from_zero_example : validate sum_from_start ≡ err points_out_of_order
combine_from_zero_example = combine_from_zero from_start from_start sum_from_start refl sum_runs
