-- ===== src/Governance/Contract.antt =====
-- contracts/syneswap_proposal: the state of src/state.rs and the messages of src/msg.rs.
pub mod Handlers
pub mod Ballots
pub mod Lifecycle
pub mod Runs
pub mod Executed
pub mod Locks
mod Tests
use synergistic_juno_contrac.Base.{ℕ, Bool, Option, List}
use synergistic_juno_contrac.Base.Text.{Text}
use synergistic_juno_contrac.Base.Dict.{Dict}
use synergistic_juno_contrac.Governance.{Threshold, Duration, Vote}
use synergistic_juno_contrac.Governance.Proposals.{SingleChoiceProposal}

-- The fields of a proposal that do not decide its status. `Msg` is the type of the messages of
-- the chain.
pub record Details (Msg : Type 0) : Type 0 where
  pub title : Text
  pub description : Text
  pub proposer : ℕ
  pub msgs : List Msg
  pub voting_start_time : ℕ

abbrev pub Proposal : Type 0 → Type 0 → Type 0 → Type 0
Proposal D E Msg = SingleChoiceProposal D E (Details Msg)

pub record Ballot : Type 0 where
  pub power : ℕ
  pub vote : Vote

pub record Config (D : Type 0) : Type 0 where
  pub threshold : Threshold D
  pub max_voting_period : Duration
  pub min_voting_period : Duration
  pub dao : Text
  pub admin : ℕ
  pub proposal_creation_token_limit : ℕ
  pub token_hold_duration : ℕ

-- `ballots` has the proposal first and the voter second.
pub record State (D E Msg : Type 0) : Type 0 where
  pub config : Config D
  pub proposal_count : Option ℕ
  pub proposals : Dict (Proposal D E Msg)
  pub ballots : Dict (Dict Ballot)
  pub proposers_info : Dict ℕ

pub record InstantiateMsg (D : Type 0) : Type 0 where
  pub threshold : Threshold D
  pub max_voting_period : Duration
  pub min_voting_period : Duration
  pub only_members_execute : Bool
  pub allow_revoting : Bool
  pub close_proposal_on_execution_failure : Bool
  pub dao : Text
  pub proposal_creation_token_limit : ℕ
  pub token_hold_duration : ℕ

pub data ExecuteMsg (D Msg : Type 0) : Type 0 where
  propose : Text → Text → List Msg → Duration → ExecuteMsg D Msg
  vote_on : ℕ → Vote → ExecuteMsg D Msg
  execute_proposal close : ℕ → ExecuteMsg D Msg
  update_config :
      Option (Threshold D)
      → Option Duration
      → Option Duration
      → Option Text
      → Option ℕ
      → Option ℕ
      → ExecuteMsg D Msg

-- What the chain and the staking contract answer, `none` for an error: expirations of cw_utils,
-- the time of a block in seconds, the size of a proposal in the storage, and the balances.
pub record Chain (D E Block Msg Period : Type 0) : Type 0 where
  pub is_expired : E → Block → Bool
  pub after : Duration → Block → E
  pub seconds : Block → ℕ
  pub proposal_size : Proposal D E Msg → Option ℕ
  pub balance : Text → ℕ → Option ℕ
  pub durations : Text → Option (List Period)
  pub total_balance : Text → Period → Option ℕ
