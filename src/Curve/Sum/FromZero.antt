-- ===== src/Curve/Sum/FromZero.antt =====
-- The sum of saturating curves that start at time 0.
use synergistic_juno_contrac.Base.{
  ℕ, ◌≡◌, refl, Option, none, some, List, [], ◌∷◌, ok, err, arith, ◌>>=◌, ap, subst, sym, ◌∙◌,
}
use synergistic_juno_contrac.Base.Checked
use synergistic_juno_contrac.Base.Checked.{add128}
use synergistic_juno_contrac.Curve.{
  Step, SaturatingLinear, Curve, saturating_linear, piecewise_linear, points_out_of_order,
}
use synergistic_juno_contrac.Curve.Validate.{validate, piecewise_validate, check_order}
use synergistic_juno_contrac.Curve.Validation.{check_order-err}
use synergistic_juno_contrac.Curve.Combine.{
  insert_sorted, sort, dedup_from, dedup, sum_at, piecewise_combine, from_saturating, combine,
}

-- A step at time 0 is out of order.
check_order_zero :
    (y : ℕ) (steps : List Step) → piecewise_validate ((0, y) ∷ steps) ≡ err points_out_of_order
unfolding piecewise_validate check_order
check_order_zero y steps = ap (λ r. r >>= λ _. ok tt) (check_order-err points_out_of_order steps)

insert_zero : (xs : List ℕ) → insert_sorted 0 xs ≡ 0 ∷ xs
unfolding insert_sorted
insert_zero [] = refl
insert_zero (x ∷ xs) = ground arith

-- Time 0 comes first.
sort_zero : (xs : List ℕ) → dedup (sort (0 ∷ xs)) ≡ 0 ∷ dedup_from 0 (sort xs)
unfolding sort dedup insert_sorted
sort_zero xs = ap dedup (insert_zero (sort xs))

sum_zero :
    (a b : List Step) (xs : List ℕ) (steps : List Step)
    → sum_at a b (0 ∷ xs) ≡ some steps
    → piecewise_validate steps ≡ err points_out_of_order
unfolding sum_at
sum_zero a b xs [] h = ground arith
sum_zero a b xs ((x, y) ∷ steps) h = ground (arith, check_order_zero y steps)

refused :
    (r : Option (List Step)) (e : Curve)
    → (Checked.◌>>=◌ r λ steps. some (piecewise_linear (record { steps = steps }))) ≡ some e
    → ((steps : List Step) → r ≡ some steps → piecewise_validate steps ≡ err points_out_of_order)
    → validate e ≡ err points_out_of_order
unfolding validate
refused none e h k = ground arith
refused (some steps) e h k =
    let same : piecewise_linear (record { steps = steps }) ≡ e = cc in
    subst (λ c. validate c ≡ err points_out_of_order) same (k steps refl)

-- If the first of two saturating curves starts at time 0, their sum is refused by `validate` as out
-- of order, whenever it is returned.
pub combine_from_zero :
    (s t : SaturatingLinear) (e : Curve)
    → s.min_x ≡ 0
    → combine (saturating_linear s) (saturating_linear t) ≡ some e
    → validate e ≡ err points_out_of_order
unfolding combine piecewise_combine from_saturating
combine_from_zero s t e z h =
    let a = from_saturating s in
    let b = from_saturating t in
    let rest = s.max_x ∷ t.min_x ∷ t.max_x ∷ [] in
    let first : dedup (sort (s.min_x ∷ rest)) ≡ 0 ∷ dedup_from 0 (sort rest) =
      ap (λ x. dedup (sort (x ∷ rest))) z ∙ sort_zero rest in
    refused (piecewise_combine a b) e h
      λ steps q. sum_zero a b (dedup_from 0 (sort rest)) steps (sym (ap (sum_at a b) first) ∙ q)
