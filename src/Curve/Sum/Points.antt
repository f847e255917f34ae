-- ===== src/Curve/Sum/Points.antt =====
-- The points of a falling function at strictly rising times form a decreasing curve, and the sum
-- of two decreasing curves is such a list of points.
use synergistic_juno_contrac.Base.{
  ℕ, ◌+◌, ◌≤◌, ◌<◌, ◌≡◌, ◌≢◌, refl, some, List, [], ◌∷◌, map, arith, length, ok,
}
use synergistic_juno_contrac.Base.Checked.{u128_mod, add_within_lem}
use synergistic_juno_contrac.Curve.{Step}
use synergistic_juno_contrac.Curve.Value.{piecewise_value}
use synergistic_juno_contrac.Curve.Validate.{piecewise_decreasing}
use synergistic_juno_contrac.Curve.Validation.{OrderedFrom, FallsFrom, piecewise_decreasing_iff}
use synergistic_juno_contrac.Curve.Combine.{sum_at}
use synergistic_juno_contrac.Curve.Sum.Sorting.{StrictFrom}

abbrev pub points : (ℕ → ℕ) → List ℕ → List Step
points f = map λ x. (x, f x)

-- `f` does not rise.
abbrev pub Falling : (ℕ → ℕ) → Type 0
Falling f = (x y : ℕ) → x ≤ y → f y ≤ f x

OrderedFrom-points :
    (f : ℕ → ℕ) (low : ℕ) (xs : List ℕ) → StrictFrom low xs → OrderedFrom low (points f xs)
OrderedFrom-points f low [] s = tt
OrderedFrom-points f low (x ∷ xs) s = (s.0, OrderedFrom-points f x xs s.1)

FallsFrom-points :
    (f : ℕ → ℕ) (x : ℕ) (xs : List ℕ) → Falling f → StrictFrom x xs → FallsFrom (f x) (points f xs)
FallsFrom-points f x [] d s = tt
FallsFrom-points f x (y ∷ ys) d s = (d x y (omega arith), FallsFrom-points f y ys d s.1)

pub points_decreasing :
    (f : ℕ → ℕ) (xs : List ℕ)
    → Falling f
    → StrictFrom 0 xs
    → xs ≢ []
    → piecewise_decreasing (points f xs) ≡ ok tt
points_decreasing f [] d s n = absurd (n refl)
points_decreasing f (x ∷ xs) d s n =
    (piecewise_decreasing_iff (x, f x) (points f xs)).1
      ((s.0, OrderedFrom-points f x xs s.1), FallsFrom-points f x xs d s.1)

-- Where both curves have values whose sum fits, `sum_at` returns the points of the sum.
pub sum_at-eq-points :
    (a b : List Step) (f g : ℕ → ℕ) (xs : List ℕ)
    → ((x : ℕ) → piecewise_value a x ≡ some (f x))
    → ((x : ℕ) → piecewise_value b x ≡ some (g x))
    → ((x : ℕ) → f x + g x < u128_mod)
    → sum_at a b xs ≡ some (points (λ x. f x + g x) xs)
unfolding sum_at
sum_at-eq-points a b f g [] ea eb fit = refl
sum_at-eq-points a b f g (x ∷ xs) ea eb fit =
    rw (
      ea x,
      eb x,
      add_within_lem u128_mod (f x) (g x) (fit x),
      sum_at-eq-points a b f g xs ea eb fit,
    )

pub length-points : (f : ℕ → ℕ) (xs : List ℕ) → length (points f xs) ≡ length xs
length-points f [] = refl
length-points f (x ∷ xs) = omega (arith, length-points f xs)
