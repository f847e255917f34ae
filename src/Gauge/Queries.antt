-- ===== src/Gauge/Queries.antt =====
-- contracts/synergistic_wynd_gauge/src/contract.rs: the queries whose keys are numbers. The lists of
-- votes and of options are in the order of addresses and names.
use synergistic_juno_contrac.Base.{
  ℕ, Option, none, some, List, [], ◌∷◌, ◌++◌, min, Result, ok, ◌>>=◌, ok_or, get_or,
}
use synergistic_juno_contrac.Base.Text.{Text}
use synergistic_juno_contrac.Base.Dict.{Dict, lookup}
use synergistic_juno_contrac.Base.Pages.{take, after, ascending, page}
use synergistic_juno_contrac.Gauge.{
  Error, std, not_found, Gauge, Vote, WeightedVotes, VoteHistory, State,
}
use synergistic_juno_contrac.Gauge.Epochs.{history_of}
use synergistic_juno_contrac.Gauge.Placing.{votes_of, still_valid}

-- `limit.unwrap_or(DEFAULT_LIMIT).min(MAX_LIMIT)`
abbrev pub page_limit : Option ℕ → ℕ
page_limit limit = min (get_or limit 30) 100

-- `VoteInfo`, without the voter's text.
pub record VoteInfo (D : Type 0) : Type 0 where
  pub votes : List (Vote D)
  pub cast : Option ℕ

unfoldable pub reverse {ℓ} : {A : Type ℓ} → List A → List A
reverse [] = []
reverse (x ∷ xs) = reverse xs ++ x ∷ []

module _ {D : Type 0} where
  -- The answer is the gauge with its fields renamed.
  unfoldable pub gauge : ℕ → State D → Result Error (Gauge D)
  gauge gauge_id s = ok_or (lookup gauge_id s.gauges) not_found

  unfoldable pub list_gauges : Option ℕ → Option ℕ → State D → Dict (Gauge D)
  list_gauges start_after limit s = page start_after (page_limit limit) s.gauges

  abbrev pub info_of : Option (WeightedVotes D) → Option (VoteInfo D)
  info_of none = none
  info_of (some v) = some (record { votes = v.votes; cast = v.cast })

  unfoldable pub vote : (Text → Option ℕ) → ℕ → Text → State D → Result Error (Option (VoteInfo D))
  vote addr_validate gauge_id voter s = do
    addr ← ok_or (addr_validate voter) std
    g ← ok_or (lookup gauge_id s.gauges) not_found
    ok (info_of (still_valid g (lookup gauge_id (votes_of addr s))))

  unfoldable pub list_vote_history : ℕ → Option ℕ → Option ℕ → State D → Dict (VoteHistory D)
  list_vote_history gauge_id start_after limit s =
      page start_after (page_limit limit) (history_of gauge_id s)

  -- The bound is a lower one here too.
  unfoldable pub list_vote_history_reverse :
      ℕ → Option ℕ → Option ℕ → State D → Dict (VoteHistory D)
  list_vote_history_reverse gauge_id start_after limit s =
      take (page_limit limit) (reverse (after start_after (ascending (history_of gauge_id s))))

  unfoldable pub last_executed_set : ℕ → State D → Result Error (Option (List (ℕ × ℕ)))
  last_executed_set gauge_id s = do
    g ← ok_or (lookup gauge_id s.gauges) not_found
    ok g.last_executed_set

  unfoldable pub gauge_version : ℕ → State D → Result Error ℕ
  gauge_version gauge_id s = ok_or (lookup gauge_id s.last_epoch) not_found
