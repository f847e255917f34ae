-- ===== src/Governance.antt =====
-- contracts/syneswap_proposal: the voting of proposals. This module holds the data of src/voting.rs,
-- src/threshold.rs, src/status.rs and src/proposal.rs. The decimal numbers of cosmwasm_std and the
-- expirations of cw_utils are parameters.
pub mod Voting
pub mod Thresholds
pub mod Proposals
pub mod Rounding
pub mod Outcomes
pub mod Deadline
pub mod RoundTrip
pub mod Contract
mod Tests
use synergistic_juno_contrac.Base.{ℕ, Option, List, Bool}

-- `generic` is a `StdError` with a text, `overflow` one of a checked operation; `aborted` stands
-- for a panic.
pub data Error : Type 0 where
  generic overflow aborted : Error

-- What the contract reads of a decimal number: `atomics`, `decimal_places`, `is_zero`, whether
-- it is above `Decimal::one()`, and the difference of `Decimal::one()` and the number, which
-- panics below zero.
pub record Decimals (D : Type 0) : Type 0 where
  pub atomics : D → ℕ
  pub decimal_places : D → ℕ
  pub is_zero : D → Bool
  pub above_one : D → Bool
  pub one_minus : D → Option D

pub record Votes : Type 0 where
  pub yes : ℕ
  pub no : ℕ
  pub abstain : ℕ

pub data Vote : Type 0 where
  yes no abstain : Vote

pub record MultipleChoiceVote : Type 0 where
  pub option_id : ℕ

pub record MultipleChoiceVotes : Type 0 where
  pub vote_weights : List ℕ

pub data VoteCmp : Type 0 where
  greater geq : VoteCmp

pub data PercentageThreshold (D : Type 0) : Type 0 where
  majority : PercentageThreshold D
  percent : D → PercentageThreshold D

pub data Threshold (D : Type 0) : Type 0 where
  absolute_percentage : PercentageThreshold D → Threshold D
  threshold_quorum : PercentageThreshold D → PercentageThreshold D → Threshold D
  absolute_count : ℕ → Threshold D

pub data Status : Type 0 where
  open_status rejected passed executed closed execution_failed : Status

-- `Duration` of cw_utils: a number of blocks or of seconds.
pub data Duration : Type 0 where
  height time : ℕ → Duration
