-- ===== src/Gauge/Votes.antt =====
-- contracts/synergistic_wynd_gauge/src/contract.rs: `get_voting_power`, `place_votes` and
-- `member_changed`.
use synergistic_juno_contrac.Base.{
  ℕ, Bool, false, not, ◌&&◌, Option, none, some, List, [], ◌∷◌, ltb, ◌==◌, if◌then◌else◌, Result,
  ok, ◌>>=◌, ◌>>◌, ok_or, get_or, ensure, reject_if, is_some,
}
use synergistic_juno_contrac.Base.Checked.{add128}
use synergistic_juno_contrac.Base.Checked
use synergistic_juno_contrac.Base.Dict.{Dict, lookup}
use synergistic_juno_contrac.Base.Pages.{page}
use synergistic_juno_contrac.Gauge.{
  Error, std, aborted, unauthorized, cannot_remove_nonexisting_vote, gauge_missing, gauge_pending,
  gauge_resetting, too_much_voting_weight, no_voting_power, Decimals, Gauge, Vote, WeightedVotes,
  State,
}
use synergistic_juno_contrac.Gauge.Counting.{update_tallies}
use synergistic_juno_contrac.Gauge.Selection.{
  is_resetting, is_pending, is_expired, tally_of, selected_set, weigh,
}
use synergistic_juno_contrac.Gauge.Epochs.{Querier, update_epoch}
use synergistic_juno_contrac.Gauge.Options.{save_tally}
use synergistic_juno_contrac.Gauge.Placing.{
  MemberDiff, Diff, to_updates, is_empty, votes_of, save_votes, remove_votes, check_options,
  still_valid, default_votes, sum_weights, old_diff, new_diff, power_updates,
}

module _ {D Duration : Type 0} (querier : Querier D Duration) where
  -- The loop over the durations: a balance that cannot be read counts as zero.
  unfoldable pub add_balances : ℕ → ℕ → List Duration → ℕ → Option ℕ
  add_balances dao sender [] total = some total
  add_balances dao sender (d ∷ ds) total =
      Checked.◌>>=◌ (add128 total (get_or (querier.balance_by_duration dao sender d) 0))
        λ next. add_balances dao sender ds next

  unfoldable pub get_voting_power : ℕ → ℕ → Result Error ℕ
  get_voting_power sender dao = do
    durations ← ok_or (querier.durations dao) std
    ok_or (add_balances dao sender durations 0) aborted

module _ {D : Type 0} (decimals : Decimals D) where
  -- The gauge in its new epoch, if it has begun.
  unfoldable pub begin_epoch : ℕ → ℕ → ℕ → Gauge D → State D → Result Error (Gauge D × State D)
  begin_epoch now gauge_id wynd_next g s =
      let begun = (do
        set ← selected_set decimals gauge_id s
        votes ← ok_or (weigh decimals set) aborted
        update_epoch gauge_id g wynd_next votes false s) in
      if ltb g.next_epoch now && ltb now wynd_next then begun else ok (g, s)

module _ {D : Type 0} (decimals : Decimals D) (name_lt : ℕ → ℕ → Bool) where
  -- One vote of a voter whose power has changed. The source keeps the gauges that it has loaded
  -- in a map; none of them changes meanwhile.
  unfoldable pub change_power : ℕ → ℕ → ℕ → WeightedVotes D → State D → Result Error (State D)
  change_power voter old new v s = do
    g ← ok_or (lookup v.gauge_id s.gauges) aborted
    let changed = (do
      updates ← ok_or (power_updates decimals old new v.votes) aborted
      t ← ok_or (update_tallies name_lt updates (tally_of v.gauge_id s)) aborted
      ok (save_votes voter v.gauge_id (record v { power = new }) (save_tally v.gauge_id t s)))
    if is_expired g v then ok s else changed

  unfoldable pub change_powers :
      ℕ → ℕ → ℕ → Dict (WeightedVotes D) → State D → Result Error (State D)
  change_powers voter old new [] s = ok s
  change_powers voter old new ((_, v) ∷ vs) s = do
    next ← change_power voter old new v s
    change_powers voter old new vs next

  module _ {Duration : Type 0} (querier : Querier D Duration) where
    unfoldable pub apply_diffs : List MemberDiff → State D → Result Error (State D)
    apply_diffs [] s = ok s
    apply_diffs (d ∷ ds) s = do
      voter ← ok_or (querier.addr_validate d.key) std
      next ←
          change_powers voter (get_or d.old 0) (get_or d.new 0) (page none 100 (votes_of voter s)) s
      apply_diffs ds next

    unfoldable pub member_changed : ℕ → List MemberDiff → State D → Result Error (State D)
    member_changed sender diffs s = do
      ensure (sender == s.config.voting_powers) unauthorized
      apply_diffs diffs s

  -- `order` is the order in which a hash map with the given entries is iterated.
  module _ {Duration : Type 0} (order : Diff → Diff) (querier : Querier D Duration) where
    -- The tally and the votes once everything is checked.
    unfoldable pub store_votes :
        ℕ → ℕ → ℕ → ℕ → List (Vote D) → WeightedVotes D → State D → Result Error (State D)
    store_votes now sender gauge_id voting_power new_votes previous s = do
      old ← ok_or (old_diff decimals previous.power previous.votes []) aborted
      diff ← ok_or (new_diff decimals voting_power new_votes old) aborted
      check_options gauge_id (order diff) s
      t ← ok_or (update_tallies name_lt (to_updates (order diff)) (tally_of gauge_id s)) aborted
      let cast : WeightedVotes D = record {
        gauge_id = gauge_id;
        power = voting_power;
        votes = new_votes;
        cast = some now;
      }
      let counted = save_tally gauge_id t s
      if is_empty new_votes
          then ok (remove_votes sender gauge_id counted)
          else ok (save_votes sender gauge_id cast counted)

    unfoldable pub place_votes :
        ℕ → ℕ → ℕ → Option (List (Vote D)) → State D → Result Error (State D)
    place_votes now sender gauge_id placed s = do
      g0 ← ok_or (lookup gauge_id s.gauges) (gauge_missing gauge_id)
      wynd_gauge ← ok_or (querier.wynd_gauge_by_id s.config.wynd_gauge g0.wynd_gauge_id) aborted
      pending ← ok_or (is_pending now wynd_gauge.next_epoch g0) aborted
      reject_if pending (gauge_pending gauge_id)
      (g, s1) ← begin_epoch decimals now gauge_id wynd_gauge.next_epoch g0 s
      reject_if (is_resetting g) (gauge_resetting gauge_id)
      let new_votes = get_or placed []
      total_weight ← ok_or (sum_weights decimals decimals.zero new_votes) aborted
      ensure (decimals.at_most total_weight decimals.one) too_much_voting_weight
      voting_power ← get_voting_power querier sender s.config.voting_powers
      reject_if (voting_power == 0) (no_voting_power sender)
      let previous = still_valid g (lookup gauge_id (votes_of sender s1))
      reject_if (not (is_some previous) && is_empty new_votes) cannot_remove_nonexisting_vote
      store_votes now sender gauge_id voting_power new_votes (get_or previous default_votes) s1
