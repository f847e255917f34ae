-- ===== src/Curve/Sum/Decreasing.antt =====
-- The sum of two curves that pass `validate_monotonic_decreasing` passes it too.
use synergistic_juno_contrac.Base.{
  ℕ, ◌+◌, ◌≤◌, ◌<◌, ◌≡◌, refl, some, List, [], ◌∷◌, ◌++◌, arith, length, ok, Option, All,
  length-append,
}
use synergistic_juno_contrac.Base.Checked.{u128_mod}
use synergistic_juno_contrac.Curve.{Step, Curve, piecewise_linear}
use synergistic_juno_contrac.Curve.Value.{piecewise_value, size}
use synergistic_juno_contrac.Curve.Validate.{piecewise_decreasing, validate_monotonic_decreasing}
use synergistic_juno_contrac.Curve.Validation.{OrderedFrom, piecewise_decreasing_iff}
use synergistic_juno_contrac.Curve.Reference.{reference, piecewise_value-eq-reference}
use synergistic_juno_contrac.Curve.Monotone.{
  FitsFrom, SegmentsFrom-of, reference_falls, reference_below,
}
use synergistic_juno_contrac.Curve.Combine.{sort, dedup, times, piecewise_combine, piecewise_sum}
use synergistic_juno_contrac.Curve.Sum.Sorting.{
  StrictFrom-dedup-sort, dedup-sort_nonempty, length-dedup-sort,
}
use synergistic_juno_contrac.Curve.Sum.Points.{
  points, Falling, points_decreasing, sum_at-eq-points, length-points,
}

-- The steps evaluate at all times to a falling function of at most `first`, and begin after 0.
pub record Schedule (steps : List Step) (first : ℕ) : Type 0 where
  pub at : ℕ → ℕ
  pub evaluates : (x : ℕ) → piecewise_value steps x ≡ some (at x)
  pub falls : Falling at
  pub below : (x : ℕ) → at x ≤ first
  pub late : All (λ x. 0 < x) (times steps)

All-times : (low : ℕ) (steps : List Step) → OrderedFrom low steps → All (λ x. 0 < x) (times steps)
All-times low [] o = tt
All-times low (p ∷ steps) o = (omega arith, All-times p.0 steps o.1)

pub Schedule-of :
    (p : Step) (steps : List Step)
    → FitsFrom p steps
    → piecewise_decreasing (p ∷ steps) ≡ ok tt
    → Schedule (p ∷ steps) p.1
Schedule-of p steps f h =
    let (ordered, along) = (piecewise_decreasing_iff p steps).0 h in
    let segs = SegmentsFrom-of p steps ordered.1 f in
    record {
      at = reference p steps;
      evaluates = λ x. piecewise_value-eq-reference p steps x segs;
      falls = λ x y le. reference_falls p steps x y segs along le;
      below = λ x. reference_below p steps x along;
      late = All-times 0 (p ∷ steps) ordered;
    }

All-append :
    (xs ys : List ℕ) → All (λ x. 0 < x) xs → All (λ x. 0 < x) ys → All (λ x. 0 < x) (xs ++ ys)
All-append [] ys h k = k
All-append (x ∷ xs) ys h k = (h.0, All-append xs ys h.1 k)

length-times : (steps : List Step) → length (times steps) ≡ length steps
length-times [] = refl
length-times (p ∷ steps) = omega (arith, length-times steps)

-- The times of the sum of two step lists.
abbrev merged : List Step → List Step → List ℕ
merged a b = dedup (sort (times a ++ times b))

module _ (p : Step) (a b : List Step) {m n : ℕ} (s : Schedule (p ∷ a) m) (t : Schedule b n)
    (fit : m + n < u128_mod) where
  piecewise_combine-eq-points :
      piecewise_combine (p ∷ a) b ≡ some (points (λ x. s.at x + t.at x) (merged (p ∷ a) b))
  unfolding piecewise_combine
  piecewise_combine-eq-points =
      sum_at-eq-points (p ∷ a) b s.at t.at (merged (p ∷ a) b) s.evaluates t.evaluates
        (λ x. omega (arith, s.below x, t.below x))

  combined_decreasing :
      piecewise_decreasing (points (λ x. s.at x + t.at x) (merged (p ∷ a) b)) ≡ ok tt
  combined_decreasing =
      points_decreasing (λ x. s.at x + t.at x) (merged (p ∷ a) b)
        (λ x y le. omega (arith, s.falls x y le, t.falls x y le))
        (StrictFrom-dedup-sort 0 (times (p ∷ a) ++ times b)
          (All-append (times (p ∷ a)) (times b) s.late t.late))
        (dedup-sort_nonempty p.0 (times a ++ times b))

  combined_length :
      length (points (λ x. s.at x + t.at x) (merged (p ∷ a) b)) ≤ length (p ∷ a) + length b
  combined_length =
      let f : ℕ → ℕ = λ x. s.at x + t.at x in
      let xs = times (p ∷ a) ++ times b in
      omega (
        arith,
        length-points f (dedup (sort xs)),
        length-dedup-sort xs,
        length-append (times (p ∷ a)) (times b),
        length-times (p ∷ a),
        length-times b,
      )

-- A curve is returned that passes the check, of at most the given number of steps.
abbrev pub Vests : Option Curve → ℕ → Type 0
Vests r bound =
    (e : Curve) × (r ≡ some e) × (validate_monotonic_decreasing e ≡ ok tt) × (size e ≤ bound)

pub piecewise_sum-Vests :
    (p : Step) (a b : List Step) {m n : ℕ}
    → Schedule (p ∷ a) m
    → Schedule b n
    → m + n < u128_mod
    → Vests (piecewise_sum (p ∷ a) b) (length (p ∷ a) + length b)
unfolding validate_monotonic_decreasing size
piecewise_sum-Vests p a b s t fit =
    let steps = points (λ x. s.at x + t.at x) (merged (p ∷ a) b) in
    (
      piecewise_linear (record { steps = steps }),
      rw (piecewise_combine-eq-points p a b s t fit),
      combined_decreasing p a b s t fit,
      combined_length p a b s t fit,
    )
