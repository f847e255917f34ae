-- ===== src/Curve.antt =====
-- packages/syne-curve-utils/src/curve.rs: the data of curves over time. The children hold the
-- evaluation, the validation and the sum of curves, and what is proved of them.
pub mod Value
pub mod Validate
pub mod Interpolate
pub mod Reference
pub mod Validation
pub mod Monotone
pub mod Bounded
pub mod Combine
pub mod Sum
mod Tests
use synergistic_juno_contrac.Base.{ℕ, List}

-- `aborted` is no variant of the source: it stands for a panic, which rolls everything back.
pub data CurveError : Type 0 where
  not_monotonic monotonic_increasing monotonic_decreasing points_out_of_order : CurveError
  missing_steps too_complex aborted : CurveError

-- A point of a curve: the time (`u64`) and the value (`Uint128`).
abbrev pub Step : Type 0
Step = ℕ × ℕ

pub record SaturatingLinear : Type 0 where
  pub min_x : ℕ
  pub min_y : ℕ
  pub max_x : ℕ
  pub max_y : ℕ

pub record PiecewiseLinear : Type 0 where
  pub steps : List Step

pub data Curve : Type 0 where
  constant : ℕ → Curve
  saturating_linear : SaturatingLinear → Curve
  piecewise_linear : PiecewiseLinear → Curve
