-- ===== src/Gauge/Executed.antt =====
-- `execute` of contracts/synergistic_wynd_gauge/src/contract.rs, when it succeeds.
use synergistic_juno_contrac.Base.{
  ℕ, ◌+◌, ◌*◌, ◌^◌, ◌≤◌, ◌<◌, Bool, true, false, ◌≡◌, some, List, [], ◌∷◌,
}
use synergistic_juno_contrac.Base.Dict.{lookup}
use synergistic_juno_contrac.Gauge.{Decimals, Gauge, Vote, State}
use synergistic_juno_contrac.Gauge.Selection.{tally_of, weigh}
use synergistic_juno_contrac.Gauge.Epochs.{Querier, PlaceVotes, history_of}
use synergistic_juno_contrac.Gauge.Consistent.{Consistent}
use synergistic_juno_contrac.Gauge.Winners.{Answered}

module _ {D : Type 0} (decimals : Decimals D) (atomics : D → ℕ) where
  -- `from_ratio` has 18 decimal places and rounds down.
  abbrev pub RoundsDown : Type 0
  RoundsDown =
      (a b : ℕ) (d : D) → decimals.from_ratio a b ≡ some d → (0 < b) × (atomics d * b ≤ a * 10 ^ 18)

  abbrev pub weights : List (Vote D) → ℕ
  weights [] = 0
  weights (v ∷ vs) = atomics v.weight + weights vs

  abbrev powers : List (ℕ × ℕ) → ℕ
  powers [] = 0
  powers ((_, power) ∷ set) = power + powers set

module _ {D : Type 0} where
  -- What `update_epoch` leaves.
  abbrev Ended : ℕ → ℕ → Gauge D → List (Vote D) → Bool → State D → Gauge D × State D → Type 0
  Ended id next g votes b s (_, s') =
      (n : ℕ) × (lookup id s.last_epoch ≡ some n)
      × (lookup n (history_of id s')
          ≡ some
              (record { epoch = g.epoch; next_epoch = g.next_epoch; votes = votes; executed = b }))
      × (lookup id s'.gauges ≡ some (record g { next_epoch = next }))

module _ {D Duration : Type 0} (decimals : Decimals D) (querier : Querier D Duration)
    (atomics : D → ℕ) where
  -- What a successful execution of the gauge `g` does: it is not stopped and pending, its selected
  -- set becomes the last executed set, the epoch ends with an entry in the history, and the one
  -- message that is sent tells the staker to vote for the set.
  pub record Executed (now id : ℕ) (g : Gauge D) (s s' : State D) (sent : List (PlaceVotes D))
      : Type 0 where
    pub running : g.is_stopped ≡ false
    pub set : List (ℕ × ℕ)
    pub answered : Answered decimals g (tally_of id s) set
    pub votes : List (Vote D)
    pub weighed : weigh decimals set ≡ some votes
    pub at_most_one : weights decimals atomics votes ≤ 10 ^ 18
    pub message :
        sent
        ≡ record { contract = s.config.wynd_staker; gauge = g.wynd_gauge_id; votes = votes } ∷ []
    pub epoch : ℕ
    pub epoch_eq : lookup id s.last_epoch ≡ some epoch
    pub entry :
        lookup epoch (history_of id s')
        ≡ some
            (record { epoch = g.epoch; next_epoch = g.next_epoch; votes = votes; executed = true })
    pub shown : (g' : Gauge D) × (lookup id s'.gauges ≡ some g') × (g'.last_executed_set ≡ some set)
