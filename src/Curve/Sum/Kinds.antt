-- ===== src/Curve/Sum/Kinds.antt =====
-- `combine` on every pair of kinds of curve.
use synergistic_juno_contrac.Base.{
  ℕ, ◌+◌, ◌≤◌, ◌<◌, ◌≡◌, refl, List, [], ◌∷◌, arith, length, ok, Option,
}
use synergistic_juno_contrac.Base.Checked.{u128_mod, add_within_lem}
use synergistic_juno_contrac.Curve.{
  Step, SaturatingLinear, Curve, constant, saturating_linear, piecewise_linear,
}
use synergistic_juno_contrac.Curve.Value.{size}
use synergistic_juno_contrac.Curve.Validate.{
  piecewise_decreasing, saturating_decreasing, validate_monotonic_decreasing,
}
use synergistic_juno_contrac.Curve.Validation.{piecewise_decreasing_iff, piecewise_decreasing_empty}
use synergistic_juno_contrac.Curve.Interpolate.{NoOverflow}
use synergistic_juno_contrac.Curve.Monotone.{FitsSteps, Fits, saturating_decreasing_sound}
use synergistic_juno_contrac.Curve.Combine.{piecewise_sum, from_saturating, combine_const, combine}
use synergistic_juno_contrac.Curve.Sum.Decreasing.{
  Vests, Schedule, Schedule-of, piecewise_sum-Vests,
}
use synergistic_juno_contrac.Curve.Sum.Shifted.{
  combine_const_piecewise-Vests, combine_const_saturating-Vests,
}

abbrev first_of : List Step → ℕ
first_of [] = 0
first_of (p ∷ steps) = p.1

-- The value at time 0, which is the highest value of a decreasing curve.
abbrev pub first_value : Curve → ℕ
first_value (constant y) = y
first_value (saturating_linear s) = s.min_y
first_value (piecewise_linear p) = first_of p.steps

-- A saturating curve does not start at time 0. A piecewise curve that starts there is refused by
-- its check, a saturating one is not.
abbrev pub StartsLate : Curve → Type 0
StartsLate (saturating_linear s) = 0 < s.min_x
StartsLate _ = Unit

steps_Schedule :
    (a : List Step) → FitsSteps a → piecewise_decreasing a ≡ ok tt → Schedule a (first_of a)
steps_Schedule [] f h = absurd (piecewise_decreasing_empty h)
steps_Schedule (p ∷ a) f h = Schedule-of p a f h

saturating_Schedule :
    (s : SaturatingLinear)
    → NoOverflow (s.min_x, s.min_y) (s.max_x, s.max_y)
    → saturating_decreasing s ≡ ok tt
    → 0 < s.min_x
    → Schedule (from_saturating s) s.min_y
unfolding from_saturating
saturating_Schedule s f h late =
    let (fwd, down) = saturating_decreasing_sound s h in
    Schedule-of (s.min_x, s.min_y) ((s.max_x, s.max_y) ∷ []) (f, tt)
      ((piecewise_decreasing_iff (s.min_x, s.min_y) ((s.max_x, s.max_y) ∷ [])).1
        ((late, (fwd, tt)), (down, tt)))

steps_sum-Vests :
    (a b : List Step) {n : ℕ}
    → FitsSteps a
    → piecewise_decreasing a ≡ ok tt
    → Schedule b n
    → first_of a + n < u128_mod
    → Vests (piecewise_sum a b) (length a + length b)
steps_sum-Vests [] b f h t fit = absurd (piecewise_decreasing_empty h)
steps_sum-Vests (p ∷ a) b f h t fit = piecewise_sum-Vests p a b (Schedule-of p a f h) t fit

saturating_sum-Vests :
    (s : SaturatingLinear) (b : List Step) {n : ℕ}
    → NoOverflow (s.min_x, s.min_y) (s.max_x, s.max_y)
    → saturating_decreasing s ≡ ok tt
    → 0 < s.min_x
    → Schedule b n
    → s.min_y + n < u128_mod
    → Vests (piecewise_sum (from_saturating s) b) (2 + length b)
unfolding from_saturating
saturating_sum-Vests s b f h late t fit =
    piecewise_sum-Vests (s.min_x, s.min_y) ((s.max_x, s.max_y) ∷ []) b
      (saturating_Schedule s f h late) t fit

const_steps-Vests :
    (k : ℕ) (a : List Step)
    → piecewise_decreasing a ≡ ok tt
    → k + first_of a < u128_mod
    → Vests (combine_const k (piecewise_linear (record { steps = a }))) (length a)
const_steps-Vests k [] h fit = absurd (piecewise_decreasing_empty h)
const_steps-Vests k (p ∷ a) h fit = combine_const_piecewise-Vests k p a h fit

const-Vests :
    (k : ℕ) (d : Curve)
    → validate_monotonic_decreasing d ≡ ok tt
    → k + first_value d < u128_mod
    → Vests (combine_const k d) (size d)
unfolding combine_const validate_monotonic_decreasing size
const-Vests k (constant y) h fit =
    (constant (k + y), rw (add_within_lem u128_mod k y fit), refl, omega arith)
const-Vests k (saturating_linear s) h fit = combine_const_saturating-Vests k s h fit
const-Vests k (piecewise_linear p) h fit = const_steps-Vests k p.steps h fit

weaken : {r : Option Curve} {m n : ℕ} → Vests r m → m ≤ n → Vests r n
weaken v h = (v.0, v.1, v.2, omega arith)

-- The sum of two curves that both pass `validate_monotonic_decreasing` is returned without a
-- panic, passes that check again, and has at most as many steps as the two together. Conditions:
-- the products of both fit into 128 bits, so does the sum of their first values, and no
-- saturating curve starts at time 0.
pub combine_decreasing :
    (c d : Curve)
    → Fits c
    → Fits d
    → StartsLate c
    → StartsLate d
    → validate_monotonic_decreasing c ≡ ok tt
    → validate_monotonic_decreasing d ≡ ok tt
    → first_value c + first_value d < u128_mod
    → Vests (combine c d) (size c + size d)
unfolding combine validate_monotonic_decreasing size
combine_decreasing (constant y) d fc fd lc ld hc hd fit =
    weaken (const-Vests y d hd fit) (omega arith)
combine_decreasing (saturating_linear s) (constant y) fc fd lc ld hc hd fit =
    weaken (const-Vests y (saturating_linear s) hc (omega arith)) (omega arith)
combine_decreasing (piecewise_linear p) (constant y) fc fd lc ld hc hd fit =
    weaken (const-Vests y (piecewise_linear p) hc (omega arith)) (omega arith)
combine_decreasing (saturating_linear s) (saturating_linear t) fc fd lc ld hc hd fit =
    saturating_sum-Vests s (from_saturating t) fc hc lc (saturating_Schedule t fd hd ld) fit
combine_decreasing (saturating_linear s) (piecewise_linear p) fc fd lc ld hc hd fit =
    saturating_sum-Vests s p.steps fc hc lc (steps_Schedule p.steps fd hd) fit
combine_decreasing (piecewise_linear p) (saturating_linear s) fc fd lc ld hc hd fit =
    weaken (saturating_sum-Vests s p.steps fd hd ld (steps_Schedule p.steps fc hc) (omega arith))
      (omega arith)
combine_decreasing (piecewise_linear p) (piecewise_linear q) fc fd lc ld hc hd fit =
    steps_sum-Vests p.steps q.steps fc hc (steps_Schedule q.steps fd hd) fit
