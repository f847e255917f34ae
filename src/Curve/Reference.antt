-- ===== src/Curve/Reference.antt =====
-- What `PiecewiseLinear::value` is to compute: the first value before the first step, then the
-- value of the segment that holds `x`, then the last value. The loop of the code agrees with it.
use synergistic_juno_contrac.Base.{ℕ, ◌≤◌, ◌≡◌, some, List, [], ◌∷◌, ltb, leb, if◌then◌else◌, arith}
use synergistic_juno_contrac.Curve.{Step, SaturatingLinear}
use synergistic_juno_contrac.Curve.Value.{scan, pick, piecewise_value, saturating_value}
use synergistic_juno_contrac.Curve.Interpolate.{
  interp, Segment, interpolate-eq-interp, interp_start, interp_end,
}

-- At or after the step `p`, with the later steps.
unfoldable pub reference_from : Step → List Step → ℕ → ℕ
reference_from p [] x = p.1
reference_from p (q ∷ steps) x =
    let later = reference_from q steps x in if leb q.0 x then later else interp p q x

unfoldable pub reference : Step → List Step → ℕ → ℕ
reference p steps x = if ltb x p.0 then p.1 else reference_from p steps x

-- The steps go forward in time, and no product of neighbours overflows.
abbrev pub SegmentsFrom : Step → List Step → Type 0
SegmentsFrom p [] = Unit
SegmentsFrom p (q ∷ steps) = Segment p q × SegmentsFrom q steps

-- The end of the loop, on the segment that it stopped at.
pick-Segment :
    (last next : Step) (x : ℕ)
    → Segment last next
    → last.0 ≤ x
    → pick (some last, next) x ≡ some (if leb next.0 x then next.1 else interp last next x)
unfolding pick
pick-Segment last next x s lo =
    ground (arith, interpolate-eq-interp last next x s lo, interp_start last next)

pick-scan :
    (last next : Step) (steps : List Step) (x : ℕ)
    → Segment last next
    → SegmentsFrom next steps
    → last.0 ≤ x
    → pick (scan (some last) next steps x) x ≡ some (reference_from last (next ∷ steps) x)
unfolding scan reference_from
pick-scan last next [] x s ss lo = pick-Segment last next x s lo
pick-scan last next (step ∷ steps) x s ss lo =
    ground (arith, pick-Segment last next x s lo, pick-scan next step steps x ss.0 ss.1)

-- On steps that go forward in time and whose products fit into 128 bits, the loop of
-- `PiecewiseLinear::value` returns the value of the reference, without a panic.
pub piecewise_value-eq-reference :
    (p : Step) (steps : List Step) (x : ℕ)
    → SegmentsFrom p steps
    → piecewise_value (p ∷ steps) x ≡ some (reference p steps x)
unfolding piecewise_value scan pick reference reference_from
piecewise_value-eq-reference p [] x ss = ground arith
piecewise_value-eq-reference p (q ∷ steps) x ss = ground (arith, pick-scan p q steps x ss.0 ss.1)

-- A saturating curve is the piecewise curve of its two ends.
pub saturating_value-eq-reference :
    (s : SaturatingLinear) (x : ℕ)
    → Segment (s.min_x, s.min_y) (s.max_x, s.max_y)
    → saturating_value s x ≡ some (reference (s.min_x, s.min_y) ((s.max_x, s.max_y) ∷ []) x)
unfolding saturating_value reference reference_from
saturating_value-eq-reference s x g = ground (
  arith,
  interpolate-eq-interp (s.min_x, s.min_y) (s.max_x, s.max_y) x g,
  interp_end (s.min_x, s.min_y) (s.max_x, s.max_y) g.forward,
)
