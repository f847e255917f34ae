-- ===== src/Gauge/Counted.antt =====
-- The tally of a gauge (contracts/synergistic_wynd_gauge/src/state.rs): its sum is the total, and its
-- index refines it.
use synergistic_juno_contrac.Base.{
  ℕ, ◌+◌, Bool, ◌≡◌, refl, ap, none, some, List, [], ◌∷◌, arith, get_or, Option-cases, inl, inr,
}
use synergistic_juno_contrac.Base.Checked.{
  add128, checked_sub, u128_mod, add_within-eq-some, checked_sub-eq-some, Gives, gives, pass, given,
  weaken,
}
use synergistic_juno_contrac.Base.Dict.{
  Dict, lookup, insert, erase, amount_of, Unique, Unique-insert, Unique-erase, lookup-insert,
  lookup-erase, total, total-insert, total-erase,
}
use synergistic_juno_contrac.Gauge.{Tally}
use synergistic_juno_contrac.Gauge.Counting.{
  Update, no_tally, remove_old, remove_tally, save_point, update_option, update_options,
  update_tallies,
}
use synergistic_juno_contrac.Gauge.Index.{
  Descending, lookup-remove_point, Unique-remove_point, Descending-remove_point, lookup-save_point,
  Unique-save_point, Descending-save_point,
}

-- The index lists exactly the options of the tally with their points, each once, the most
-- points first.
pub record Mirrored (t : Tally) : Type 0 where
  pub unique : Unique t.points
  pub unique_index : Unique t.by_points
  pub same : (o : ℕ) → lookup o t.by_points ≡ lookup o t.points
  pub descending : Descending t.by_points

pub record Counted (t : Tally) : Type 0 where
  pub mirrored : Mirrored t
  pub sums : get_or t.total_cast 0 ≡ total t.points

pub no_tally-Counted : Counted no_tally
unfolding lookup total
no_tally-Counted = record {
  mirrored = record { unique = tt; unique_index = tt; same = λ o. refl; descending = tt };
  sums = refl;
}

-- What is left of an index after an option has been taken out of it.
record Without (o : ℕ) (points index : Dict ℕ) : Type 0 where
  lone : Unique index
  same_others : (j : ℕ) → lookup j index ≡ lookup j (erase o points)
  falling : Descending index

remove_old-Without :
    (o : ℕ) (t : Tally)
    → Mirrored t
    → Without o t.points (remove_old (lookup o t.points) o t.by_points)
remove_old-Without o t m = elim (Option-cases (lookup o t.points)) [
  | inl e ↦ record {
    lone = ground (arith, m.unique_index, m.descending);
    same_others = λ j. ground (arith, m.same j, lookup-erase o j t.points);
    falling = ground (arith, m.unique_index, m.descending);
  }
  | inr (p, e) ↦
      let listed : lookup o t.by_points ≡ some p = ground (arith, m.same o) in
      record {
        lone = ground (arith, Unique-remove_point p o t.by_points m.unique_index listed);
        same_others = λ j. ground (
          arith,
          lookup-remove_point p o j t.by_points m.unique_index listed,
          m.same j,
          lookup-erase o j t.points,
          lookup-erase o j t.by_points,
        );
        falling = ground (arith, Descending-remove_point p o t.by_points m.descending);
      }
]

module _ (name_lt : ℕ → ℕ → Bool) where
  save_point-Mirrored :
      (o p : ℕ) (t : Tally) (index : Dict ℕ)
      → Unique t.points
      → Without o t.points index
      → Mirrored
          (record t { points = insert o p t.points; by_points = save_point name_lt p o index })
  save_point-Mirrored o p t index u w =
      let gone : lookup o index ≡ none =
        ground (arith, w.same_others o, lookup-erase o o t.points) in
      record {
        unique = Unique-insert o p t.points u;
        unique_index = Unique-save_point name_lt p o index gone w.lone;
        same = λ j. ground (
          arith,
          lookup-save_point name_lt p o j index gone,
          lookup-insert o j p index,
          lookup-insert o j p t.points,
          w.same_others j,
          lookup-erase o j t.points,
        );
        descending = Descending-save_point name_lt p o index w.falling;
      }

  -- What a loop over updates of `old` and `new` votes does: it keeps the index a mirror, moves
  -- the sum by the difference and leaves the total.
  abbrev Moved : ℕ → ℕ → Tally → Tally → Type 0
  Moved old new t t' =
      Mirrored t' × (total t'.points + old ≡ total t.points + new) × (t'.total_cast ≡ t.total_cast)

  update_option-Moved :
      (u : Update) (t : Tally)
      → Mirrored t
      → Gives (Moved u.old_vote u.new_vote t) (update_option name_lt u t)
  unfolding update_option
  update_option-Moved u t m =
      pass (add128 (amount_of u.option t.points) u.new_vote) λ raised add_eq.
        pass (checked_sub raised u.old_vote) λ count sub_eq. gives (
          save_point-Mirrored u.option count t
              (remove_old (lookup u.option t.points) u.option t.by_points) m.unique
              (remove_old-Without u.option t m),
          omega (
            arith,
            total-insert u.option count t.points,
            add_within-eq-some u128_mod (amount_of u.option t.points) u.new_vote add_eq,
            checked_sub-eq-some raised u.old_vote sub_eq,
          ),
          refl,
        )

  abbrev LoopMoved : ℕ → ℕ → Tally → ℕ × ℕ × Tally → Type 0
  LoopMoved o n t (o', n', t') =
      Mirrored t'
      × (total t'.points + o' + n ≡ total t.points + n' + o)
      × (t'.total_cast ≡ t.total_cast)

  update_options-LoopMoved :
      (us : List Update) (o n : ℕ) (t : Tally)
      → Mirrored t
      → Gives (LoopMoved o n t) (update_options name_lt us o n t)
  unfolding update_options
  update_options-LoopMoved [] o n t m = gives (m, omega arith, refl)
  update_options-LoopMoved (u ∷ us) o n t m = pass (add128 o u.old_vote) λ old_sum old_eq.
      pass (add128 n u.new_vote) λ new_sum new_eq. pass (update_option name_lt u t) λ next next_eq.
        let (m1, sum1, cast1) = given (update_option-Moved u t m) next_eq in
        weaken
          (λ (o', n', t') (m2, sum2, cast2). (
            m2,
            omega (
              arith,
              add_within-eq-some u128_mod o u.old_vote old_eq,
              add_within-eq-some u128_mod n u.new_vote new_eq,
            ),
            cc,
          ))
          (update_options-LoopMoved us old_sum new_sum next m1)

  pub update_tallies-Counted :
      (us : List Update) (t : Tally) → Counted t → Gives Counted (update_tallies name_lt us t)
  unfolding update_tallies
  update_tallies-Counted us t c = pass (update_options name_lt us 0 0 t) λ (o, n, next) loop_eq.
      pass (add128 (get_or next.total_cast 0) n) λ raised add_eq.
        pass (checked_sub raised o) λ left sub_eq.
          let (m, sum_eq, cast_eq) = given (update_options-LoopMoved us 0 0 t c.mirrored) loop_eq in
          gives (record {
            mirrored = record {
              unique = m.unique;
              unique_index = m.unique_index;
              same = m.same;
              descending = m.descending;
            };
            sums = omega (
              arith,
              c.sums,
              ap (λ o. get_or o 0) cast_eq,
              add_within-eq-some u128_mod (get_or next.total_cast 0) n add_eq,
              checked_sub-eq-some raised o sub_eq,
            );
          })

pub remove_tally-Counted : (o : ℕ) (t : Tally) → Counted t → Gives Counted (remove_tally o t)
unfolding remove_tally
remove_tally-Counted o t c = elim (Option-cases (lookup o t.points)) [
  | inl e ↦
      rw (e, remove_tally)
        (gives (record {
          mirrored = record {
            unique = Unique-erase o t.points c.mirrored.unique;
            unique_index = c.mirrored.unique_index;
            same = λ j. ground (arith, lookup-erase o j t.points, c.mirrored.same j);
            descending = c.mirrored.descending;
          };
          sums =
              omega
                (arith, c.sums, total-erase o t.points c.mirrored.unique, ap (λ v. get_or v 0) e);
        }))
  | inr (p, e) ↦
      rw (e, remove_tally)
        (pass (checked_sub (get_or t.total_cast 0) p) λ left sub_eq.
          let listed : lookup o t.by_points ≡ some p = ground (arith, c.mirrored.same o) in
          gives (record {
            mirrored = record {
              unique = Unique-erase o t.points c.mirrored.unique;
              unique_index = Unique-remove_point p o t.by_points c.mirrored.unique_index listed;
              same = λ j. ground (
                arith,
                lookup-erase o j t.points,
                lookup-erase o j t.by_points,
                lookup-remove_point p o j t.by_points c.mirrored.unique_index listed,
                c.mirrored.same j,
              );
              descending = Descending-remove_point p o t.by_points c.mirrored.descending;
            };
            sums = omega (
              arith,
              c.sums,
              total-erase o t.points c.mirrored.unique,
              checked_sub-eq-some (get_or t.total_cast 0) p sub_eq,
              ap (λ v. get_or v 0) e,
            );
          }))
]
