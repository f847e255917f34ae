-- ===== src/Vault.antt =====
-- contracts/bloop-vault: users deposit the bLOOP token, and the rewards that arrive are shared in
-- proportion to the deposits, less two fees. State, messages and errors. An address and its text
-- are one number, since validation returns the text that it was given.
pub mod Amounts
pub mod Handlers
pub mod Owed
pub mod Solvent
pub mod Payments
pub mod Kept
pub mod Messages
pub mod Idle
pub mod Frozen
pub mod Runs
mod Tests
use synergistic_juno_contrac.Base.{ℕ, Bool, Option, Result}
use synergistic_juno_contrac.Base.Dict.{Dict}
use synergistic_juno_contrac.Controllers.Admin.{Store, AdminError}

-- `cosmwasm_std::Decimal`. `whole n` is `from_atomics(n, 0)`, `floor` is `to_uint_floor`, and the
-- last three are the constants that `instantiate` parses. `none` is an error of a checked operation.
pub record Decimals (D : Type 0) : Type 0 where
  pub zero : D
  pub add : D → D → Option D
  pub sub : D → D → Option D
  pub mul : D → D → Option D
  pub div : D → D → Option D
  pub whole : ℕ → Option D
  pub floor : D → ℕ
  pub above : D → D → Bool
  pub at_most : D → D → Bool
  pub fifth : D
  pub three_tenths : D
  pub twentieth : D

pub data Error : Type 0 where
  std aborted unauthorized no_data invalid_asset invalid_amount no_withdrawable invalid_action
        invalid_fee invalid_distributor :
      Error
  admin_error : AdminError → Error

pub record Config (D : Type 0) : Type 0 where
  pub admin : ℕ
  pub token : ℕ
  pub bloop_converter_and_staker : ℕ
  pub min_bond : ℕ
  pub loop_protocol_staking : ℕ
  pub treasury_wallet : Option ℕ
  pub treasury_withdrawer : Option ℕ
  pub syne_staking_reward_distributor : Option ℕ
  pub treasury_fee : D
  pub syne_staking_fee : D
  pub total_fee_cap : D
  pub treasury_fee_limit : D
  pub duration : ℕ

pub record TokenInfo (D : Type 0) : Type 0 where
  pub staked : ℕ
  pub pending_treasury_rewards : ℕ
  pub pending_syne_staking_rewards : ℕ
  pub power : D

pub record StakingInfo (D : Type 0) : Type 0 where
  pub stake : ℕ
  pub power_diff : D
  pub syne_power : D

pub data RewardAction : Type 0 where
  no_action : RewardAction
  reward : ℕ → RewardAction
  stake unstake : ℕ → ℕ → RewardAction
  treasury_withdraw syne_staking_reward_withdraw : Option ℕ → RewardAction

-- One field for each storage item that a message reads or writes.
pub record State (D : Type 0) : Type 0 where
  pub admin : Store
  pub config : Config D
  pub total_staked : TokenInfo D
  pub stakes : Dict (StakingInfo D)
  pub reward_action : Option RewardAction

pub record InstantiateMsg : Type 0 where
  pub admin : ℕ
  pub token : ℕ
  pub loop_protocol_staking : ℕ
  pub min_bond : ℕ

pub data Cw20HookMsg : Type 0 where
  stake_hook : Cw20HookMsg
  distribute_rewards_hook : Option ℕ → Cw20HookMsg

pub record Cw20ReceiveMsg : Type 0 where
  pub sender : ℕ
  pub amount : ℕ
  pub msg : Cw20HookMsg

pub record ConfigChange (D : Type 0) : Type 0 where
  pub min_bond : Option ℕ
  pub treasury_wallet : Option ℕ
  pub treasury_withdrawer : Option ℕ
  pub syne_staking_reward_distributor : Option ℕ
  pub treasury_fee : Option D
  pub syne_staking_fee : Option D

pub data ExecuteMsg (D : Type 0) : Type 0 where
  update_admin : Option ℕ → ExecuteMsg D
  update_config : ConfigChange D → ExecuteMsg D
  receive : Cw20ReceiveMsg → ExecuteMsg D
  withdraw_rewards : ℕ → ExecuteMsg D
  withdraw_treasury_rewards withdraw_syne_staking_rewards : Option ℕ → ExecuteMsg D
  unstake_msg : ℕ → ExecuteMsg D
  distribute_rewards : ℕ → ExecuteMsg D

-- A message that the vault sends: a transfer of a token, or the call of the converter.
pub data Sent : Type 0 where
  transfer : ℕ → ℕ → ℕ → Sent
  withdraw_from : ℕ → Sent

-- What the chain and the staking contract answer: whether a text is an address, and the rewards
-- (settled and pending) that the staking contract (first) holds for the converter (second).
pub record Outside : Type 0 where
  pub is_valid : ℕ → Bool
  pub user_reward : ℕ → ℕ → Result Error ℕ
  pub pending_reward : ℕ → ℕ → Result Error ℕ
