-- ===== src/Gauge/Epochs.antt =====
-- contracts/synergistic_wynd_gauge/src/contract.rs: `update_epoch` and `execute`.
use synergistic_juno_contrac.Base.{
  ℕ, Bool, true, Option, some, List, [], ◌∷◌, Result, ok, ◌>>=◌, ◌>>◌, ok_or, get_or, ensure,
  reject_if,
}
use synergistic_juno_contrac.Base.Checked.{add128}
use synergistic_juno_contrac.Base.Text.{Text}
use synergistic_juno_contrac.Base.Dict.{Dict, lookup, insert}
use synergistic_juno_contrac.Gauge.{
  Error, not_found, aborted, gauge_no_pending, gauge_resetting, gauge_stopped, Decimals, Gauge,
  Vote, VoteHistory, State,
}
use synergistic_juno_contrac.Gauge.Selection.{is_resetting, is_pending, selected_set, weigh}

-- `GaugeResponse` of the other gauge contract.
pub record GaugeResponse (D : Type 0) : Type 0 where
  pub adapter : Text
  pub epoch_size : ℕ
  pub min_percent_selected : Option D
  pub max_options_selected : ℕ
  pub max_available_percentage : Option D
  pub is_stopped : Bool
  pub next_epoch : ℕ

-- What other contracts and the chain answer; `none` is an error. The keys of `Duration` are those
-- of the staking contract.
pub record Querier (D Duration : Type 0) : Type 0 where
  pub addr_validate : Text → Option ℕ
  pub wynd_gauge_by_id : ℕ → ℕ → Option (GaugeResponse D)
  pub all_options : Text → Option (List ℕ)
  pub check_option : ℕ → ℕ → Option Bool
  pub voting_power_at_height : ℕ → ℕ → Option ℕ
  pub durations : ℕ → Option (List Duration)
  pub balance_by_duration : ℕ → ℕ → Duration → Option ℕ

-- The message `PlaceVotes` to another contract.
pub record PlaceVotes (D : Type 0) : Type 0 where
  pub contract : ℕ
  pub gauge : ℕ
  pub votes : List (Vote D)

module _ {D : Type 0} where
  abbrev pub save_gauge : ℕ → Gauge D → State D → State D
  save_gauge gauge_id g s = record s { gauges = insert gauge_id g s.gauges }

  abbrev pub history_of : ℕ → State D → Dict (VoteHistory D)
  history_of gauge_id s = get_or (lookup gauge_id s.vote_history) []

  -- `update_epoch`: the new gauge and the new state.
  unfoldable pub update_epoch :
      ℕ → Gauge D → ℕ → List (Vote D) → Bool → State D → Result Error (Gauge D × State D)
  update_epoch gauge_id g next_epoch votes executed s = do
    last_epoch ← ok_or (lookup gauge_id s.last_epoch) aborted
    let entry : VoteHistory D = record {
      epoch = g.epoch;
      next_epoch = g.next_epoch;
      votes = votes;
      executed = executed;
    }
    raised ← ok_or (add128 last_epoch 1) aborted
    let moved = record g { next_epoch = next_epoch }
    ok (
      moved,
      record s {
        vote_history =
            insert gauge_id (insert last_epoch entry (history_of gauge_id s)) s.vote_history;
        last_epoch = insert gauge_id raised s.last_epoch;
        gauges = insert gauge_id moved s.gauges;
      },
    )

module _ {D Duration : Type 0} (decimals : Decimals D) (querier : Querier D Duration) where
  unfoldable pub execute : ℕ → ℕ → State D → Result Error (State D × List (PlaceVotes D))
  execute now gauge_id s = do
    g ← ok_or (lookup gauge_id s.gauges) not_found
    reject_if g.is_stopped (gauge_stopped gauge_id)
    wynd_gauge ← ok_or (querier.wynd_gauge_by_id s.config.wynd_gauge g.wynd_gauge_id) aborted
    pending ← ok_or (is_pending now wynd_gauge.next_epoch g) aborted
    ensure pending (gauge_no_pending gauge_id)
    reject_if (is_resetting g) (gauge_resetting gauge_id)
    set ← selected_set decimals gauge_id s
    let shown = record g { last_executed_set = some set }
    votes ← ok_or (weigh decimals set) aborted
    let message : PlaceVotes D = record {
      contract = s.config.wynd_staker;
      gauge = g.wynd_gauge_id;
      votes = votes;
    }
    (_, s') ←
        update_epoch gauge_id shown wynd_gauge.next_epoch votes true (save_gauge gauge_id shown s)
    ok (s', message ∷ [])
