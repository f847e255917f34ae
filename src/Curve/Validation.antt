-- ===== src/Curve/Validation.antt =====
-- What the checks of curve.rs decide: the order of the steps in time, and the direction of the
-- values, both ways.
use Prim.Native.Nat.{compare}
use synergistic_juno_contrac.Base.{
  ℕ, ◌≤◌, ◌<◌, ◌≡◌, ◌↔◌, ◌≢◌, refl, List, [], ◌∷◌, arith, ok, err, >>=-eq-ok,
}
use synergistic_juno_contrac.Curve.{
  CurveError, Step, SaturatingLinear, points_out_of_order, Curve, constant, saturating_linear,
  piecewise_linear,
}
use synergistic_juno_contrac.Curve.Validate.{
  validate, validate_monotonic_decreasing, saturating_decreasing, check_order, saturating_validate,
  piecewise_validate, Shape, constant_shape, next_shape, classify_from, accept_increasing,
  accept_decreasing, piecewise_increasing, piecewise_decreasing,
}

-- Every step is later than the one before it.
abbrev pub OrderedFrom : ℕ → List Step → Type 0
OrderedFrom last [] = Unit
OrderedFrom last (p ∷ steps) = (last < p.0) × OrderedFrom p.0 steps

-- No value is lower than the one before it.
abbrev pub RisesFrom : ℕ → List Step → Type 0
RisesFrom last [] = Unit
RisesFrom last (p ∷ steps) = (last ≤ p.1) × RisesFrom p.1 steps

-- No value is higher than the one before it.
abbrev pub FallsFrom : ℕ → List Step → Type 0
FallsFrom last [] = Unit
FallsFrom last (p ∷ steps) = (p.1 ≤ last) × FallsFrom p.1 steps

pub check_order-err : (e : CurveError) (steps : List Step) → check_order (err e) steps ≡ err e
unfolding check_order
check_order-err e [] = refl
check_order-err e (p ∷ steps) = check_order-err e steps

check_order→OrderedFrom :
    (last : ℕ) (steps : List Step) (end : ℕ)
    → check_order (ok last) steps ≡ ok end
    → OrderedFrom last steps
unfolding check_order
check_order→OrderedFrom last [] end h = tt
check_order→OrderedFrom last (p ∷ steps) end h =
    ground (arith, check_order-err points_out_of_order steps, check_order→OrderedFrom p.0 steps end)

OrderedFrom→check_order :
    (last : ℕ) (steps : List Step)
    → OrderedFrom last steps
    → (end : ℕ) × (check_order (ok last) steps ≡ ok end)
unfolding check_order
OrderedFrom→check_order last [] h = (last, refl)
OrderedFrom→check_order last (p ∷ steps) h =
    let (end, e) = OrderedFrom→check_order p.0 steps h.1 in (end, ground arith)

accept_increasing→RisesFrom :
    (last : ℕ) (shape : Shape) (steps : List Step)
    → accept_increasing (classify_from last shape steps) ≡ ok tt
    → (accept_increasing shape ≡ ok tt) × RisesFrom last steps
unfolding classify_from
accept_increasing→RisesFrom last shape [] h = (h, tt)
accept_increasing→RisesFrom last shape (p ∷ steps) h =
    let ih = accept_increasing→RisesFrom p.1 (next_shape shape (compare p.1 last)) steps h in
    ground (arith, ih)

RisesFrom→accept_increasing :
    (last : ℕ) (shape : Shape) (steps : List Step)
    → accept_increasing shape ≡ ok tt
    → RisesFrom last steps
    → accept_increasing (classify_from last shape steps) ≡ ok tt
unfolding classify_from
RisesFrom→accept_increasing last shape [] a h = a
RisesFrom→accept_increasing last shape (p ∷ steps) a h =
    RisesFrom→accept_increasing p.1 (next_shape shape (compare p.1 last)) steps (ground arith) h.1

accept_decreasing→FallsFrom :
    (last : ℕ) (shape : Shape) (steps : List Step)
    → accept_decreasing (classify_from last shape steps) ≡ ok tt
    → (accept_decreasing shape ≡ ok tt) × FallsFrom last steps
unfolding classify_from
accept_decreasing→FallsFrom last shape [] h = (h, tt)
accept_decreasing→FallsFrom last shape (p ∷ steps) h =
    let ih = accept_decreasing→FallsFrom p.1 (next_shape shape (compare p.1 last)) steps h in
    ground (arith, ih)

FallsFrom→accept_decreasing :
    (last : ℕ) (shape : Shape) (steps : List Step)
    → accept_decreasing shape ≡ ok tt
    → FallsFrom last steps
    → accept_decreasing (classify_from last shape steps) ≡ ok tt
unfolding classify_from
FallsFrom→accept_decreasing last shape [] a h = a
FallsFrom→accept_decreasing last shape (p ∷ steps) a h =
    FallsFrom→accept_decreasing p.1 (next_shape shape (compare p.1 last)) steps (ground arith) h.1

piecewise_increasing→ordered :
    (p : Step) (steps : List Step)
    → piecewise_increasing (p ∷ steps) ≡ ok tt
    → OrderedFrom 0 (p ∷ steps) × RisesFrom p.1 steps
unfolding piecewise_increasing
piecewise_increasing→ordered p steps h =
    let (u, checked, accepted) = >>=-eq-ok (piecewise_validate (p ∷ steps)) _ h in
    let (end, ordered, _) = >>=-eq-ok (check_order (ok 0) (p ∷ steps)) _ checked in
    (
      check_order→OrderedFrom 0 (p ∷ steps) end ordered,
      (accept_increasing→RisesFrom p.1 constant_shape steps accepted).1,
    )

ordered→piecewise_increasing :
    (p : Step) (steps : List Step)
    → OrderedFrom 0 (p ∷ steps) × RisesFrom p.1 steps
    → piecewise_increasing (p ∷ steps) ≡ ok tt
unfolding piecewise_increasing
ordered→piecewise_increasing p steps (ordered, along) =
    let (end, e) = OrderedFrom→check_order 0 (p ∷ steps) ordered in
    rw (e, piecewise_validate) (RisesFrom→accept_increasing p.1 constant_shape steps refl along)

-- The check `validate_monotonic_increasing` of a piecewise curve with at least one step accepts it
-- exactly when its steps start after time 0 and go forward in time, and its values never fall.
pub piecewise_increasing_iff :
    (p : Step) (steps : List Step)
    → (piecewise_increasing (p ∷ steps) ≡ ok tt) ↔ (OrderedFrom 0 (p ∷ steps) × RisesFrom p.1 steps)
piecewise_increasing_iff p steps =
    (piecewise_increasing→ordered p steps, ordered→piecewise_increasing p steps)

piecewise_decreasing→ordered :
    (p : Step) (steps : List Step)
    → piecewise_decreasing (p ∷ steps) ≡ ok tt
    → OrderedFrom 0 (p ∷ steps) × FallsFrom p.1 steps
unfolding piecewise_decreasing
piecewise_decreasing→ordered p steps h =
    let (u, checked, accepted) = >>=-eq-ok (piecewise_validate (p ∷ steps)) _ h in
    let (end, ordered, _) = >>=-eq-ok (check_order (ok 0) (p ∷ steps)) _ checked in
    (
      check_order→OrderedFrom 0 (p ∷ steps) end ordered,
      (accept_decreasing→FallsFrom p.1 constant_shape steps accepted).1,
    )

ordered→piecewise_decreasing :
    (p : Step) (steps : List Step)
    → OrderedFrom 0 (p ∷ steps) × FallsFrom p.1 steps
    → piecewise_decreasing (p ∷ steps) ≡ ok tt
unfolding piecewise_decreasing
ordered→piecewise_decreasing p steps (ordered, along) =
    let (end, e) = OrderedFrom→check_order 0 (p ∷ steps) ordered in
    rw (e, piecewise_validate) (FallsFrom→accept_decreasing p.1 constant_shape steps refl along)

-- The check `validate_monotonic_decreasing` of a piecewise curve with at least one step accepts it
-- exactly when its steps start after time 0 and go forward in time, and its values never rise.
pub piecewise_decreasing_iff :
    (p : Step) (steps : List Step)
    → (piecewise_decreasing (p ∷ steps) ≡ ok tt) ↔ (OrderedFrom 0 (p ∷ steps) × FallsFrom p.1 steps)
piecewise_decreasing_iff p steps =
    (piecewise_decreasing→ordered p steps, ordered→piecewise_decreasing p steps)

-- A curve with no steps is refused.
pub piecewise_increasing_empty : piecewise_increasing [] ≢ ok tt
unfolding piecewise_increasing
piecewise_increasing_empty h = cc

-- A curve with no steps is refused.
pub piecewise_decreasing_empty : piecewise_decreasing [] ≢ ok tt
unfolding piecewise_decreasing
piecewise_decreasing_empty h = cc

pub piecewise_validate→OrderedFrom :
    (p : Step) (steps : List Step)
    → piecewise_validate (p ∷ steps) ≡ ok tt
    → OrderedFrom 0 (p ∷ steps)
unfolding piecewise_validate
piecewise_validate→OrderedFrom p steps h =
    let (end, ordered, _) = >>=-eq-ok (check_order (ok 0) (p ∷ steps)) _ h in
    check_order→OrderedFrom 0 (p ∷ steps) end ordered

pub piecewise_validate_empty : piecewise_validate [] ≢ ok tt
unfolding piecewise_validate
piecewise_validate_empty h = cc

pub saturating_validate→lt :
    (s : SaturatingLinear) → saturating_validate s ≡ ok tt → s.min_x < s.max_x
unfolding saturating_validate
saturating_validate→lt s h = ground arith

-- The monotonicity check includes the general one.
pub decreasing→validate : (c : Curve) → validate_monotonic_decreasing c ≡ ok tt → validate c ≡ ok tt
unfolding validate validate_monotonic_decreasing saturating_decreasing piecewise_decreasing
decreasing→validate (constant y) h = refl
decreasing→validate (saturating_linear s) h = (>>=-eq-ok (saturating_validate s) _ h).1
decreasing→validate (piecewise_linear p) h = (>>=-eq-ok (piecewise_validate p.steps) _ h).1
