-- ===== src/Vesting/Schedules.antt =====
-- What a schedule that cw20-vesting accepts promises.
use mathlib.Core.Option
use synergistic_juno_contrac.Base.{
  ℕ, ◌≤◌, ◌≡◌, refl, Option, none, some, ltb, ◌==◌, ok, err, ok_or, ensure, reject_if, ◌>>=◌, ◌>>◌,
  arith, >>=-eq-ok, sym, ◌∙◌, ap,
}
use synergistic_juno_contrac.Curve.{Curve}
use synergistic_juno_contrac.Curve.Value.{value, range}
use synergistic_juno_contrac.Curve.Validate.{Check, validate_monotonic_decreasing}
use synergistic_juno_contrac.Curve.Validation.{decreasing→validate}
use synergistic_juno_contrac.Curve.Monotone.{Fits}
use synergistic_juno_contrac.Curve.Bounded.{value-InRange, value_settles, end_time}
use synergistic_juno_contrac.Vesting.{aborted, never_fully_vested, vests_more_than_sent}
use synergistic_juno_contrac.Vesting.Transfers.{from_curve, assert_schedule_vests_amount}

from_curve-ok : (c : Check) → from_curve c ≡ ok tt → c ≡ ok tt
from_curve-ok (ok u) h = refl
from_curve-ok (err e) h = ground arith

range_checks :
    (r : Option (ℕ × ℕ)) (amount : ℕ)
    → (ok_or r aborted >>= λ x.
        ensure (x.0 == 0) never_fully_vested >> reject_if (ltb amount x.1) vests_more_than_sent)
      ≡ ok tt
    → (high : ℕ) × (r ≡ some (0, high)) × (high ≤ amount)
range_checks none amount h = ground arith
range_checks (some (low, high)) amount h = (high, ground arith, ground arith)

-- The checks that an accepted schedule has passed.
accepted :
    (schedule : Curve) (amount : ℕ)
    → assert_schedule_vests_amount schedule amount ≡ ok tt
    → (validate_monotonic_decreasing schedule ≡ ok tt)
      × ((high : ℕ) × (range schedule ≡ some (0, high)) × (high ≤ amount))
unfolding assert_schedule_vests_amount
accepted schedule amount h =
    let (u, e, rest) = >>=-eq-ok (from_curve (validate_monotonic_decreasing schedule)) _ h in
    (
      from_curve-ok (validate_monotonic_decreasing schedule) e,
      range_checks (range schedule) amount rest,
    )

-- A schedule that `assert_schedule_vests_amount` accepts, and whose products fit into 128 bits,
-- locks at most the amount at every time.
pub schedule_bounded :
    (schedule : Curve) (amount x : ℕ)
    → Fits schedule
    → assert_schedule_vests_amount schedule amount ≡ ok tt
    → (y : ℕ) × (value schedule x ≡ some y) × (y ≤ amount)
schedule_bounded schedule amount x f h =
    let (decreasing, bounds) = accepted schedule amount h in
    let (high, ranged, fits) = bounds in
    let (lo, hi, y, e, v, below, above) =
      value-InRange schedule x f (decreasing→validate schedule decreasing) in
    (y, v, ground arith)

-- A schedule that `assert_schedule_vests_amount` accepts, and whose products fit into 128 bits,
-- locks nothing from its last step on.
pub schedule_ends :
    (schedule : Curve) (amount x : ℕ)
    → Fits schedule
    → assert_schedule_vests_amount schedule amount ≡ ok tt
    → end_time schedule ≤ x
    → value schedule x ≡ some 0
schedule_ends schedule amount x f h late =
    let (decreasing, bounds) = accepted schedule amount h in
    let (high, ranged, fits) = bounds in
    sym (value_settles schedule x f decreasing late) ∙ ap (Option.map (λ r. r.0)) ranged
