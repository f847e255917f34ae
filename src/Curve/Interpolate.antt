-- ===== src/Curve/Interpolate.antt =====
-- The arithmetic of one segment of a curve: its rounded value, when it does not overflow, where
-- it lies, and that it follows the direction of the segment.
use native.Mathlib.Nat.{
  le_trans, mul-le-mul_left, div-le_of_le-mul, le-div_iff_mul-le, div-mul-le_self, mul-div_cancel,
  zero-div, mul_comm, lt_of_le_of_lt,
}
use synergistic_juno_contrac.Base.{
  ℕ, ◌+◌, ◌-◌, ◌*◌, ◌/◌, ◌≤◌, ◌<◌, ◌≡◌, some, min, max, ltb, if◌then◌else◌, arith,
}
use synergistic_juno_contrac.Base.Checked.{
  u128_mod, add_within, mul_within, checked_sub, checked_div,
}
use synergistic_juno_contrac.Curve.{Step}
use synergistic_juno_contrac.Curve.Value.{interpolate}

-- The part of `a` that falls to `t` out of `w`, rounded down.
pub share : ℕ → ℕ → ℕ → ℕ
share a t w = a * t / w

pub share-le : (a t w : ℕ) → t ≤ w → share a t w ≤ a
unfolding share
share-le a t w h = div-le_of_le-mul w (rw (mul_comm w a) (mul-le-mul_left a h))

pub share_mono : (a s t w : ℕ) → s ≤ t → 0 < w → share a s w ≤ share a t w
unfolding share
share_mono a s t w h p =
    (le-div_iff_mul-le p).1 (le_trans (div-mul-le_self (a * s) w) (mul-le-mul_left a h))

pub share_all : (a w : ℕ) → 0 < w → share a w w ≡ a
unfolding share
share_all a w p = mul-div_cancel a p

pub share_none : (a w : ℕ) → share a 0 w ≡ 0
unfolding share
share_none a w = grind (arith, zero-div)

-- The value of the segment from `p` to `q` at `x`, over the unbounded numbers.
pub interp : Step → Step → ℕ → ℕ
interp p q x =
    if ltb p.1 q.1
    then p.1 + share (q.1 - p.1) (x - p.0) (q.0 - p.0)
    else p.1 - share (p.1 - q.1) (x - p.0) (q.0 - p.0)

-- The values of two neighbours are 128-bit numbers, and so is the product on the segment.
pub record NoOverflow (p q : Step) : Type 0 where
  pub start_fits : p.1 < u128_mod
  pub end_fits : q.1 < u128_mod
  pub rise_fits : (q.1 - p.1) * (q.0 - p.0) < u128_mod
  pub fall_fits : (p.1 - q.1) * (q.0 - p.0) < u128_mod

-- The segment also goes forward in time.
pub record Segment (p q : Step) : Type 0 where
  pub forward : p.0 < q.0
  pub fits : NoOverflow p q

-- The product for the part of a segment up to `t` is at most that for the whole segment.
product_fits : (a t w : ℕ) → t ≤ w → a * w < u128_mod → a * t < u128_mod
product_fits a t w h f = lt_of_le_of_lt (mul-le-mul_left a h) f

-- On its segment the checked arithmetic does not abort and computes `interp`.
pub interpolate-eq-interp :
    (p q : Step) (x : ℕ) → Segment p q → p.0 ≤ x → x ≤ q.0 → interpolate p q x ≡ some (interp p q x)
unfolding interpolate interp share add_within mul_within checked_sub checked_div
interpolate-eq-interp p q x s lo hi = ground (
  arith,
  product_fits (q.1 - p.1) (x - p.0) (q.0 - p.0),
  product_fits (p.1 - q.1) (x - p.0) (q.0 - p.0),
  share-le (q.1 - p.1) (x - p.0) (q.0 - p.0),
  share-le (p.1 - q.1) (x - p.0) (q.0 - p.0),
)

-- The value at the two ends.
pub interp_start : (p q : Step) → interp p q p.0 ≡ p.1
unfolding interp
interp_start p q =
    ground (arith, share_none (q.1 - p.1) (q.0 - p.0), share_none (p.1 - q.1) (q.0 - p.0))

pub interp_end : (p q : Step) → p.0 < q.0 → interp p q q.0 ≡ q.1
unfolding interp
interp_end p q h =
    ground (arith, share_all (q.1 - p.1) (q.0 - p.0), share_all (p.1 - q.1) (q.0 - p.0))

-- The value lies between the two ends.
pub interp_bounds :
    (p q : Step) (x : ℕ)
    → p.0 ≤ x
    → x ≤ q.0
    → (min p.1 q.1 ≤ interp p q x) × (interp p q x ≤ max p.1 q.1)
unfolding interp
interp_bounds p q x lo hi =
    ground (
      arith,
      share-le (q.1 - p.1) (x - p.0) (q.0 - p.0),
      share-le (p.1 - q.1) (x - p.0) (q.0 - p.0),
    )

-- A later point of a rising segment is not lower.
pub interp_rises :
    (p q : Step) (x y : ℕ)
    → p.1 ≤ q.1
    → p.0 ≤ x
    → x ≤ y
    → y ≤ q.0
    → p.0 < q.0
    → interp p q x ≤ interp p q y
unfolding interp
interp_rises p q x y rise lo le hi h = ground (
  arith,
  share_mono (q.1 - p.1) (x - p.0) (y - p.0) (q.0 - p.0),
  share-le (p.1 - q.1) (x - p.0) (q.0 - p.0),
  share-le (p.1 - q.1) (y - p.0) (q.0 - p.0),
)

-- A later point of a falling segment is not higher.
pub interp_falls :
    (p q : Step) (x y : ℕ) → q.1 ≤ p.1 → p.0 ≤ x → x ≤ y → p.0 < q.0 → interp p q y ≤ interp p q x
unfolding interp
interp_falls p q x y fall lo le h =
    ground (arith, share_mono (p.1 - q.1) (x - p.0) (y - p.0) (q.0 - p.0))
