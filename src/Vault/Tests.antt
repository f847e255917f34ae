-- ===== src/Vault/Tests.antt =====
-- contracts/bloop-vault with one staker: a deposit, a reward, and the withdrawal of both.
use native.Mathlib.Nat.{div-mul-le_self}
use synergistic_juno_contrac.Base.{
  ℕ, ◌≡◌, refl, ◌+◌, ◌*◌, ◌/◌, ◌≤◌, true, none, some, [], ◌∷◌, ltb, leb, arith, ok, err,
}
use synergistic_juno_contrac.Base.Checked.{add_within, checked_sub, checked_div}
use synergistic_juno_contrac.Base.Dict.{lookup, insert}
use synergistic_juno_contrac.Controllers.Admin.{set}
use synergistic_juno_contrac.Vault.{
  Decimals, aborted, InstantiateMsg, stake_hook, distribute_rewards_hook, State, no_action,
  update_config, receive, withdraw_treasury_rewards, unstake_msg, withdraw_rewards, ExecuteMsg,
  reward, withdraw_from, transfer, Outside,
}
use synergistic_juno_contrac.Vault.Amounts.{
  update_total_rewards, update_rewards, add_stake, remove_stake,
}
use synergistic_juno_contrac.Vault.Handlers.{
  instantiate, execute_update_config, execute_withdraw_rewards, execute_stake, execute_unstake,
  execute_distribute_rewards, execute_receive_cw20, execute,
}
use synergistic_juno_contrac.Vault.Owed.{FixedPoint}
use synergistic_juno_contrac.Vault.Messages.{paid, Solvent}
use synergistic_juno_contrac.Vault.Runs.{
  Reaches, begin, after, idle, call, reachable-Solvent, payments_covered, treasury_locked,
}

-- Decimals with twentieths as their smallest part.
abbrev twentieths : Decimals ℕ
twentieths = record {
  zero = 0;
  add = λ a b. some (a + b);
  sub = checked_sub;
  mul = λ a b. some (a * b / 20);
  div = λ a b. checked_div (a * 20) b;
  whole = λ n. some (n * 20);
  floor = λ a. a / 20;
  above = λ a b. ltb b a;
  at_most = leb;
  fifth = 4;
  three_tenths = 6;
  twentieth = 1;
}

quotient_le : (a b c : ℕ) → checked_div (a * 20) b ≡ some c → c * b ≤ a * 20
unfolding checked_div
quotient_le a b c h = ground (arith, div-mul-le_self (a * 20) b)

twentieths-FixedPoint : FixedPoint twentieths
unfolding checked_sub
twentieths-FixedPoint = record {
  atomics = λ a. a;
  unit = 20;
  unit_positive = omega arith;
  atomics_zero = refl;
  atomics_fifth = refl;
  atomics_add = λ a b c h. ground arith;
  atomics_sub = λ a b c h. ground arith;
  atomics_whole = λ n c h. ground arith;
  atomics_mul = λ a b c h. ground (arith, div-mul-le_self (a * b) 20);
  atomics_div = quotient_le;
  atomics_floor = λ a. div-mul-le_self a 20;
}

-- Every text is an address, and the staking contract holds no rewards.
abbrev outside : Outside
outside = record {
  is_valid = λ text. true;
  user_reward = λ staking converter. ok 0;
  pending_reward = λ staking converter. ok 0;
}

abbrev message : InstantiateMsg
message = record { admin = 1; token = 2; loop_protocol_staking = 3; min_bond = 0 }

abbrev new_vault : State ℕ
new_vault = record {
  admin = some (some 1);
  config = record {
    admin = 1;
    token = 2;
    bloop_converter_and_staker = 9;
    min_bond = 1;
    loop_protocol_staking = 3;
    treasury_wallet = none;
    treasury_withdrawer = none;
    syne_staking_reward_distributor = none;
    treasury_fee = 4;
    syne_staking_fee = 0;
    total_fee_cap = 6;
    treasury_fee_limit = 1;
    duration = 12;
  };
  total_staked = record {
    staked = 0;
    pending_treasury_rewards = 0;
    pending_syne_staking_rewards = 0;
    power = 0;
  };
  stakes = [];
  reward_action = none;
}

new_vault_runs : instantiate twentieths outside 9 message ≡ ok new_vault
unfolding instantiate set
new_vault_runs = refl

-- Account 7 deposits 100 tokens.
abbrev deposited : State ℕ
deposited = record new_vault {
  total_staked = record {
    staked = 100;
    pending_treasury_rewards = 0;
    pending_syne_staking_rewards = 0;
    power = 0;
  };
  stakes = (7, record { stake = 100; power_diff = 0; syne_power = 0 }) ∷ [];
}

deposit_runs :
    execute twentieths outside 2
      (receive (record { sender = 7; amount = 100; msg = stake_hook }))
      new_vault
    ≡ ok (deposited, [])
unfolding execute execute_receive_cw20 execute_stake add_stake add_within checked_sub lookup insert
deposit_runs = refl

-- Now the staking contract holds a reward of 50, so the withdrawal of account 7 waits for it.
abbrev busy : Outside
busy = record outside { user_reward = λ staking converter. ok 50 }

abbrev waiting : State ℕ
waiting = record deposited { reward_action = some (reward 7) }

wait_runs :
    execute twentieths busy 7 (withdraw_rewards 7) deposited ≡ ok (waiting, withdraw_from 9 ∷ [])
unfolding execute execute_withdraw_rewards add_within
wait_runs = refl

-- The reward arrives: 10 are the fee of the treasury, 40 are paid to account 7.
abbrev rewarded : State ℕ
rewarded = record deposited {
  total_staked = record {
    staked = 100;
    pending_treasury_rewards = 10;
    pending_syne_staking_rewards = 0;
    power = 8;
  };
  stakes = (7, record { stake = 100; power_diff = 8; syne_power = 0 }) ∷ [];
  reward_action = some no_action;
}

reward_runs :
    execute twentieths outside 2
      (receive (record { sender = 9; amount = 50; msg = distribute_rewards_hook none }))
      waiting
    ≡ ok (rewarded, transfer 2 7 40 ∷ [])
unfolding execute execute_receive_cw20 execute_distribute_rewards update_total_rewards
    update_rewards add_within checked_sub checked_div lookup insert
reward_runs = refl

-- Nothing is left in the staking contract, and account 7 takes its deposit.
abbrev emptied : State ℕ
emptied = record rewarded {
  total_staked = record {
    staked = 0;
    pending_treasury_rewards = 10;
    pending_syne_staking_rewards = 0;
    power = 8;
  };
  stakes = (7, record { stake = 0; power_diff = 8; syne_power = 0 }) ∷ [];
}

unstake_runs :
    execute twentieths outside 7 (unstake_msg 100) rewarded ≡ ok (emptied, transfer 2 7 100 ∷ [])
unfolding execute execute_unstake remove_stake add_within checked_sub lookup insert
unstake_runs = refl

abbrev stake_message : ExecuteMsg ℕ
stake_message = receive (record { sender = 7; amount = 100; msg = stake_hook })

abbrev reward_message : ExecuteMsg ℕ
reward_message = receive (record { sender = 9; amount = 50; msg = distribute_rewards_hook none })

rewarded-Reaches : Reaches twentieths new_vault 110 rewarded
unfolding paid
rewarded-Reaches =
    after outside 100 2 waiting rewarded reward_message (transfer 2 7 40 ∷ [])
      (after busy 100 7 deposited waiting (withdraw_rewards 7) (withdraw_from 9 ∷ [])
        (after outside 0 2 new_vault deposited stake_message []
          (begin outside 9 message new_vault_runs) refl (omega arith) deposit_runs)
        refl (omega arith) wait_runs)
      tt (omega arith) reward_runs

reachable-Solvent_example : Solvent twentieths-FixedPoint 110 rewarded
reachable-Solvent_example = reachable-Solvent twentieths-FixedPoint rewarded-Reaches

payments_covered_example : paid (transfer 2 7 100 ∷ []) ≤ 110 + 0
payments_covered_example =
    payments_covered twentieths-FixedPoint outside 7 (unstake_msg 100) rewarded-Reaches refl
      (omega arith) unstake_runs

abbrev new_config : ExecuteMsg ℕ
new_config = update_config (record {
  min_bond = none;
  treasury_wallet = some 5;
  treasury_withdrawer = some 6;
  syne_staking_reward_distributor = none;
  treasury_fee = none;
  syne_staking_fee = none;
})

-- The administrator sets the withdrawer, and nothing changes.
update_runs : execute twentieths outside 1 new_config rewarded ≡ ok (rewarded, [])
unfolding execute execute_update_config
update_runs = refl

treasury_locked_example :
    execute twentieths busy 6 (withdraw_treasury_rewards none) rewarded ≡ err aborted
treasury_locked_example = treasury_locked twentieths outside busy 9 6 message none new_vault_runs (
    call outside 2 stake_message [] deposit_runs (
      call busy 7 (withdraw_rewards 7) (withdraw_from 9 ∷ []) wait_runs (
        call outside 2 reward_message (transfer 2 7 40 ∷ []) reward_runs
          (call outside 1 new_config [] update_runs idle))))
