-- ===== src/Gauge/Counting.antt =====
-- contracts/synergistic_wynd_gauge/src/state.rs: the points of the options and their sorted index.
use synergistic_juno_contrac.Base.{
  ℕ, Bool, true, false, ◌&&◌, Option, none, some, List, [], ◌∷◌, ltb, ◌==◌, if◌then◌else◌, get_or,
}
use synergistic_juno_contrac.Base.Checked.{add128, checked_sub, ◌>>=◌}
use synergistic_juno_contrac.Base.Dict.{Dict, lookup, insert, erase, amount_of}
use synergistic_juno_contrac.Gauge.{Tally}

abbrev pub no_tally : Tally
no_tally = record { total_cast = none; points = []; by_points = [] }

-- One change of the points of an option.
pub record Update : Type 0 where
  pub option : ℕ
  pub old_vote : ℕ
  pub new_vote : ℕ

-- `OPTION_BY_POINTS.remove`
unfoldable pub remove_point : ℕ → ℕ → Dict ℕ → Dict ℕ
remove_point p o [] = []
remove_point p o ((r, q) ∷ index) =
    let rest = remove_point p o index in if o == r && p == q then rest else (r, q) ∷ rest

abbrev pub remove_old : Option ℕ → ℕ → Dict ℕ → Dict ℕ
remove_old none o index = index
remove_old (some old) o index = remove_point old o index

-- `remove_tally`
unfoldable pub remove_tally : ℕ → Tally → Option Tally
remove_tally o t =
    let left = record t { points = erase o t.points } in
    elim (lookup o t.points) [
      | none ↦ some left
      | some old_vote ↦ do
        total ← checked_sub (get_or t.total_cast 0) old_vote
        some (record left {
          total_cast = some total;
          by_points = remove_point old_vote o t.by_points;
        })
    ]

-- `name_lt` is the order of option names as keys of the storage.
module _ (name_lt : ℕ → ℕ → Bool) where
  abbrev pub comes_first : ℕ → ℕ → ℕ → ℕ → Bool
  comes_first p o q r = if ltb q p then true else if ltb p q then false else name_lt r o

  -- `OPTION_BY_POINTS.save`
  unfoldable pub save_point : ℕ → ℕ → Dict ℕ → Dict ℕ
  save_point p o [] = (o, p) ∷ []
  save_point p o ((r, q) ∷ index) =
      let rest = save_point p o index in
      if o == r && p == q
      then (r, q) ∷ index
      else if comes_first p o q r
      then (o, p) ∷ (r, q) ∷ index
      else (r, q) ∷ rest

  -- One round of the loop of `update_tallies`.
  unfoldable pub update_option : Update → Tally → Option Tally
  update_option u t = do
    raised ← add128 (amount_of u.option t.points) u.new_vote
    count ← checked_sub raised u.old_vote
    some (record t {
      points = insert u.option count t.points;
      by_points =
          save_point count u.option (remove_old (lookup u.option t.points) u.option t.by_points);
    })

  unfoldable pub update_options : List Update → ℕ → ℕ → Tally → Option (ℕ × ℕ × Tally)
  update_options [] old_votes new_votes t = some (old_votes, new_votes, t)
  update_options (u ∷ us) old_votes new_votes t = do
    old_sum ← add128 old_votes u.old_vote
    new_sum ← add128 new_votes u.new_vote
    next ← update_option u t
    update_options us old_sum new_sum next

  -- `update_tallies`
  unfoldable pub update_tallies : List Update → Tally → Option Tally
  update_tallies us t = do
    (old_votes, new_votes, next) ← update_options us 0 0 t
    raised ← add128 (get_or next.total_cast 0) new_votes
    total ← checked_sub raised old_votes
    some (record next { total_cast = some total })

  -- `update_tally`
  unfoldable pub update_tally : ℕ → ℕ → ℕ → Tally → Option Tally
  update_tally option old_vote new_vote =
      update_tallies (record { option = option; old_vote = old_vote; new_vote = new_vote } ∷ [])
