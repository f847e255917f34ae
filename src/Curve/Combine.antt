-- ===== src/Curve/Combine.antt =====
-- curve.rs: the sum of two curves. `none` is a panic of one of the additions or evaluations.
use synergistic_juno_contrac.Base.{
  ℕ, Option, some, List, [], ◌∷◌, ◌++◌, map, leb, ◌==◌, if◌then◌else◌,
}
use synergistic_juno_contrac.Base.Checked.{◌>>=◌, add128}
use synergistic_juno_contrac.Curve.{
  Step, SaturatingLinear, Curve, constant, saturating_linear, piecewise_linear,
}
use synergistic_juno_contrac.Curve.Value.{piecewise_value}

-- `x.sort_unstable()`; equal numbers cannot be told apart.
unfoldable pub insert_sorted : ℕ → List ℕ → List ℕ
insert_sorted a [] = a ∷ []
insert_sorted a (x ∷ xs) = if leb a x then a ∷ x ∷ xs else x ∷ insert_sorted a xs

unfoldable pub sort : List ℕ → List ℕ
unfolding insert_sorted
sort [] = []
sort (x ∷ xs) = insert_sorted x (sort xs)

-- `x.dedup()`: an element equal to the one before it is dropped.
unfoldable pub dedup_from : ℕ → List ℕ → List ℕ
dedup_from last [] = []
dedup_from last (x ∷ xs) = let rest = dedup_from x xs in if x == last then rest else x ∷ rest

unfoldable pub dedup : List ℕ → List ℕ
unfolding dedup_from
dedup [] = []
dedup (x ∷ xs) = x ∷ dedup_from x xs

abbrev pub times : List Step → List ℕ
times = map λ p. p.0

-- The closing `map` and `collect`: at each time the sum of the two values.
unfoldable pub sum_at : List Step → List Step → List ℕ → Option (List Step)
sum_at a b [] = some []
sum_at a b (x ∷ xs) = do
  u ← piecewise_value a x
  v ← piecewise_value b x
  y ← add128 u v
  rest ← sum_at a b xs
  some ((x, y) ∷ rest)

-- `PiecewiseLinear::combine`
unfoldable pub piecewise_combine : List Step → List Step → Option (List Step)
unfolding sort dedup sum_at
piecewise_combine a b = sum_at a b (dedup (sort (times a ++ times b)))

-- `PiecewiseLinear::from(&SaturatingLinear)`
unfoldable pub from_saturating : SaturatingLinear → List Step
from_saturating s = (s.min_x, s.min_y) ∷ (s.max_x, s.max_y) ∷ []

-- The `map` over the steps in `combine_const`.
unfoldable pub shift_steps : ℕ → List Step → Option (List Step)
shift_steps k [] = some []
shift_steps k ((x, y) ∷ steps) = do
  y' ← add128 k y
  rest ← shift_steps k steps
  some ((x, y') ∷ rest)

-- `Curve::combine_const`
unfoldable pub combine_const : ℕ → Curve → Option Curve
unfolding shift_steps
combine_const k (constant y) = do y' ← add128 k y; some (constant y')
combine_const k (saturating_linear s) = do
  min_y ← add128 s.min_y k
  max_y ← add128 s.max_y k
  some (saturating_linear (record s { min_y = min_y; max_y = max_y }))
combine_const k (piecewise_linear p) = do
  steps ← shift_steps k p.steps
  some (piecewise_linear (record { steps = steps }))

abbrev pub piecewise_sum : List Step → List Step → Option Curve
piecewise_sum a b = do
  steps ← piecewise_combine a b
  some (piecewise_linear (record { steps = steps }))

-- `Curve::combine`
unfoldable pub combine : Curve → Curve → Option Curve
unfolding combine_const piecewise_combine from_saturating
combine (constant y) c = combine_const y c
combine (saturating_linear s) (constant y) = combine_const y (saturating_linear s)
combine (piecewise_linear p) (constant y) = combine_const y (piecewise_linear p)
combine (saturating_linear s) (saturating_linear t) =
    piecewise_sum (from_saturating s) (from_saturating t)
combine (saturating_linear s) (piecewise_linear p) = piecewise_sum (from_saturating s) p.steps
combine (piecewise_linear p) (saturating_linear s) = piecewise_sum (from_saturating s) p.steps
combine (piecewise_linear p) (piecewise_linear q) = piecewise_sum p.steps q.steps
