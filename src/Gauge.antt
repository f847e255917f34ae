-- ===== src/Gauge.antt =====
-- contracts/synergistic_wynd_gauge: votes that direct rewards over epochs. This module holds the
-- data of src/state.rs and src/error.rs. The decimal numbers of cosmwasm_std and the answers of other
-- contracts are parameters.
pub mod Counting
pub mod Selection
pub mod Epochs
pub mod Options
pub mod Administration
pub mod Placing
pub mod Votes
pub mod Execute
pub mod Index
pub mod Counted
pub mod Consistent
pub mod Winners
pub mod Progress
pub mod Runs
pub mod Moves
pub mod Placed
pub mod Executed
pub mod Queries
mod Tests
use synergistic_juno_contrac.Base.{ℕ, Option, List, Bool}
use synergistic_juno_contrac.Base.Text.{Text}
use synergistic_juno_contrac.Base.Dict.{Dict}

-- `std` is an error of the standard library (an invalid address, a failed query), `not_found` an
-- item that is not in the storage; `aborted` stands for a panic. The weight that
-- `too_much_voting_weight` reports is left out.
pub data Error : Type 0 where
  std not_found aborted unauthorized cannot_remove_nonexisting_vote : Error
  epoch_size_too_short min_percent_selected_too_big max_options_selected_too_small : Error
  max_available_percent_too_big too_much_voting_weight : Error
  gauge_missing gauge_pending gauge_no_pending gauge_resetting gauge_stopped gauge_cannot_create :
      ℕ → Error
  no_voting_power : ℕ → Error
  option_does_not_exists option_already_exists option_invalid_by_adapter : ℕ → ℕ → Error

-- What the contract does with decimal numbers: `is_zero`, `zero`, `Decimal::one()`, the sum of two,
-- `from_ratio`, `Uint128 * Decimal`, each of which may panic, and the order.
pub record Decimals (D : Type 0) : Type 0 where
  pub is_zero : D → Bool
  pub zero : D
  pub one : D
  pub add : D → D → Option D
  pub from_ratio : ℕ → ℕ → Option D
  pub times : ℕ → D → Option ℕ
  pub at_most : D → D → Bool

pub record Reset : Type 0 where
  pub last : Option ℕ
  pub reset_each : ℕ
  pub next : ℕ

-- An option is named by a string, which is only compared; it is a number, like an address.
pub record Gauge (D : Type 0) : Type 0 where
  pub title : Text
  pub adapter : ℕ
  pub epoch : ℕ
  pub min_percent_selected : Option D
  pub max_options_selected : ℕ
  pub max_available_percentage : Option D
  pub is_stopped : Bool
  pub next_epoch : ℕ
  pub last_executed_set : Option (List (ℕ × ℕ))
  pub reset : Option Reset
  pub epoch_pending_size : ℕ
  pub wynd_gauge_id : ℕ

pub record Vote (D : Type 0) : Type 0 where
  pub option : ℕ
  pub weight : D

pub record WeightedVotes (D : Type 0) : Type 0 where
  pub gauge_id : ℕ
  pub power : ℕ
  pub votes : List (Vote D)
  pub cast : Option ℕ

pub record VoteHistory (D : Type 0) : Type 0 where
  pub epoch : ℕ
  pub next_epoch : ℕ
  pub votes : List (Vote D)
  pub executed : Bool

pub record Config : Type 0 where
  pub voting_powers : ℕ
  pub owner : ℕ
  pub dao_core : ℕ
  pub wynd_gauge : ℕ
  pub wynd_staker : ℕ

-- The entries of `TOTAL_CAST`, `TALLY` and `OPTION_BY_POINTS` of one gauge. The last has the keys
-- (points, option), written with the option first, in descending order.
pub record Tally : Type 0 where
  pub total_cast : Option ℕ
  pub points : Dict ℕ
  pub by_points : Dict ℕ

-- `votes` has the voter first and the gauge second, `vote_history` the gauge and the epoch.
pub record State (D : Type 0) : Type 0 where
  pub config : Config
  pub gauges : Dict (Gauge D)
  pub last_id : Option ℕ
  pub last_epoch : Dict ℕ
  pub vote_history : Dict (Dict (VoteHistory D))
  pub votes : Dict (Dict (WeightedVotes D))
  pub tallies : Dict Tally
