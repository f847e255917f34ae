-- ===== src/Gauge/Placing.antt =====
-- contracts/synergistic_wynd_gauge/src/contract.rs: what `place_votes` and `member_changed` compute
-- from the votes.
use synergistic_juno_contrac.Base.{
  ℕ, Bool, true, false, not, ◌&&◌, Option, none, some, List, [], ◌∷◌, ◌==◌, if◌then◌else◌, Result,
  ok, ◌>>◌, get_or, reject_if,
}
use synergistic_juno_contrac.Base.Checked.{add128}
use synergistic_juno_contrac.Base.Checked
use synergistic_juno_contrac.Base.Text.{Text}
use synergistic_juno_contrac.Base.Dict.{Dict, lookup, insert, erase}
use synergistic_juno_contrac.Gauge.{
  Error, option_does_not_exists, Decimals, Gauge, Vote, WeightedVotes, State,
}
use synergistic_juno_contrac.Gauge.Counting.{Update}
use synergistic_juno_contrac.Gauge.Selection.{is_expired}
use synergistic_juno_contrac.Gauge.Options.{has_option}

pub record MemberDiff : Type 0 where
  pub key : Text
  pub old : Option ℕ
  pub new : Option ℕ

-- The old and the new votes of an option, for each option: the map `diff`.
abbrev pub Diff : Type 0
Diff = Dict (ℕ × ℕ)

abbrev pub old_of : Option (ℕ × ℕ) → ℕ
old_of none = 0
old_of (some (old, new)) = old

abbrev pub is_empty {ℓ} : {A : Type ℓ} → List A → Bool
is_empty [] = true
is_empty (_ ∷ _) = false

unfoldable pub to_updates : Diff → List Update
to_updates [] = []
to_updates ((option, (old, new)) ∷ diff) =
    record { option = option; old_vote = old; new_vote = new } ∷ to_updates diff

module _ {D : Type 0} where
  abbrev pub votes_of : ℕ → State D → Dict (WeightedVotes D)
  votes_of voter s = get_or (lookup voter s.votes) []

  -- `votes().save`
  abbrev pub save_votes : ℕ → ℕ → WeightedVotes D → State D → State D
  save_votes voter gauge_id v s = record s {
    votes = insert voter (insert gauge_id v (votes_of voter s)) s.votes;
  }

  -- `votes().remove_votes`
  abbrev pub remove_votes : ℕ → ℕ → State D → State D
  remove_votes voter gauge_id s = record s {
    votes = insert voter (erase gauge_id (votes_of voter s)) s.votes;
  }

  -- The second round of the checks: options voted for the first time have to exist.
  unfoldable pub check_options : ℕ → Diff → State D → Result Error (Unit {0})
  check_options gauge_id [] s = ok tt
  check_options gauge_id ((option, (old, new)) ∷ diff) s = do
    reject_if (old == 0 && not (has_option gauge_id option s))
        (option_does_not_exists option gauge_id)
    check_options gauge_id diff s

  -- A previous vote counts unless it has expired.
  abbrev pub still_valid : Gauge D → Option (WeightedVotes D) → Option (WeightedVotes D)
  still_valid g none = none
  still_valid g (some v) = if is_expired g v then none else some v

  -- `previous_vote.unwrap_or_default()`
  abbrev pub default_votes : WeightedVotes D
  default_votes = record { gauge_id = 0; power = 0; votes = []; cast = none }

module _ {D : Type 0} (decimals : Decimals D) where
  -- The sum of the weights, which may panic.
  unfoldable pub sum_weights : D → List (Vote D) → Option D
  sum_weights sum [] = some sum
  sum_weights sum (v ∷ vs) = Checked.◌>>=◌ (decimals.add sum v.weight) λ next. sum_weights next vs

  -- `diff` after the previous votes, of which the last one of an option counts.
  unfoldable pub old_diff : ℕ → List (Vote D) → Diff → Option Diff
  old_diff power [] diff = some diff
  old_diff power (v ∷ vs) diff =
      Checked.◌>>=◌ (decimals.times power v.weight)
        λ old. old_diff power vs (insert v.option (old, 0) diff)

  -- The loop over the new votes.
  unfoldable pub new_diff : ℕ → List (Vote D) → Diff → Option Diff
  new_diff voting_power [] diff = some diff
  new_diff voting_power (v ∷ vs) diff =
      Checked.◌>>=◌ (decimals.times voting_power v.weight)
        λ new. new_diff voting_power vs (insert v.option (old_of (lookup v.option diff), new) diff)

  -- The updates for a changed power of the voter.
  unfoldable pub power_updates : ℕ → ℕ → List (Vote D) → Option (List Update)
  power_updates old new [] = some []
  power_updates old new (v ∷ vs) = Checked.◌>>=◌ (decimals.times old v.weight) λ old_vote.
      Checked.◌>>=◌ (decimals.times new v.weight) λ new_vote.
        Checked.◌>>=◌ (power_updates old new vs) λ rest.
          some (record { option = v.option; old_vote = old_vote; new_vote = new_vote } ∷ rest)
