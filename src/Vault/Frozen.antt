-- ===== src/Vault/Frozen.antt =====
-- No message of contracts/bloop-vault writes the configuration.
use synergistic_juno_contrac.Base.{
  ℕ, ◌≡◌, refl, ◌∙◌, ap, List, get_or, Result, ok, err, ◌>>=◌, Returns, returns, raises, step,
  follow, branch, returned,
}
use synergistic_juno_contrac.Vault.{
  Decimals, Error, RewardAction, no_action, reward, stake, unstake, treasury_withdraw,
  syne_staking_reward_withdraw, State, Cw20HookMsg, stake_hook, distribute_rewards_hook,
  ConfigChange, ExecuteMsg, update_admin, update_config, receive, withdraw_rewards,
  withdraw_treasury_rewards, withdraw_syne_staking_rewards, unstake_msg, distribute_rewards, Sent,
  Outside,
}
use synergistic_juno_contrac.Vault.Handlers.{
  begin_from, finish, chosen, execute_update_config, execute_distribute_rewards, execute_stake,
  execute_withdraw_rewards, execute_withdraw_treasury_rewards,
  execute_withdraw_syne_staking_rewards, execute_unstake, execute_distribute_user_rewards,
  execute_receive_cw20, receive_hook, execute,
}
use synergistic_juno_contrac.Vault.Kept.{
  SameFirst, update_total_rewards-SameStakes, update_rewards-Same, add_stake-Same,
  remove_stake-Same, update_treasury_amounts-Same, update_syne_staking_amounts-Same,
}

module _ {D : Type 0} where
  abbrev pub Frozen : State D → State D × List Sent → Type 0
  Frozen s (t, _) = t.config ≡ s.config

  Frozen-last :
      (s t : State D) (sent : List Sent)
      → t.config ≡ s.config
      → Returns {E = Error} (Frozen s) (ok (t, sent))
  Frozen-last s t sent h = returns h

  -- A chain that begins with a function that keeps the configuration.
  Frozen-after :
      (s : State D) (m : Result Error (State D × ℕ))
      (f : State D × ℕ → Result Error (State D × List Sent))
      → Returns (SameFirst s) m
      → ((r : State D × ℕ) → r.0.config ≡ s.config → Returns (Frozen s) (f r))
      → Returns (Frozen s) (m >>= f)
  Frozen-after s (ok r) f h k = k r (returned h refl).same_config
  Frozen-after s (err e) f h k = raises

module _ {D : Type 0} (decimals : Decimals D) (outside : Outside) where
  begin_from-Frozen :
      (action : RewardAction) (new : Result Error RewardAction) (s : State D)
      → Returns (Frozen s) (begin_from decimals outside action new s)
  begin_from-Frozen no_action new s = search (step, Frozen-last) depth 8
  begin_from-Frozen (reward _) new s = raises
  begin_from-Frozen (stake _ _) new s = raises
  begin_from-Frozen (unstake _ _) new s = raises
  begin_from-Frozen (treasury_withdraw _) new s = raises
  begin_from-Frozen (syne_staking_reward_withdraw _) new s = raises

  finish-Frozen :
      (action : RewardAction) (sender : ℕ) (s : State D)
      → Returns (Frozen s) (finish decimals outside action sender s)
  finish-Frozen no_action sender s = returns refl
  finish-Frozen (reward address) sender s =
      search (Frozen-after, update_rewards-Same, Frozen-last) depth 8
  finish-Frozen (stake address amount) sender s =
      search (Frozen-after, add_stake-Same, Frozen-last) depth 8
  finish-Frozen (unstake address amount) sender s =
      search (Frozen-after, remove_stake-Same, Frozen-last) depth 8
  finish-Frozen (treasury_withdraw wanted) sender s =
      search (Frozen-after, step, update_treasury_amounts-Same, Frozen-last) depth 10
  finish-Frozen (syne_staking_reward_withdraw wanted) sender s =
      search (Frozen-after, step, update_syne_staking_amounts-Same, Frozen-last) depth 10

  receive_hook-Frozen :
      (hook : Cw20HookMsg) (sender from amount : ℕ) (s : State D)
      → Returns (Frozen s) (receive_hook decimals outside hook sender from amount s)
  unfolding execute_stake execute_distribute_rewards
  receive_hook-Frozen stake_hook sender from amount s =
      search (step, branch, begin_from-Frozen, Frozen-after, add_stake-Same, Frozen-last) depth 12
  receive_hook-Frozen (distribute_rewards_hook address) sender from amount s =
      follow (update_total_rewards-SameStakes decimals amount s) λ t (same, _).
        follow
          (finish-Frozen (chosen decimals outside address (get_or s.reward_action no_action)) sender
            t)
          λ (u, sent) e. returns (e ∙ same.same_config)

  -- A request to change the configuration leaves the whole state as it is.
  pub execute_update_config_lem :
      (sender : ℕ) (c : ConfigChange D) (s : State D)
      → Returns (λ t. t ≡ s) (execute_update_config decimals outside sender c s)
  unfolding execute_update_config
  execute_update_config_lem sender c s = search (step, returns) depth 16

  pub execute-Frozen :
      (sender : ℕ) (msg : ExecuteMsg D) (s : State D)
      → Returns (Frozen s) (execute decimals outside sender msg s)
  unfolding execute execute_receive_cw20 execute_withdraw_rewards execute_withdraw_treasury_rewards
      execute_withdraw_syne_staking_rewards execute_unstake execute_distribute_user_rewards
  execute-Frozen sender (update_admin text) s = search (step, Frozen-last) depth 10
  execute-Frozen sender (update_config c) s =
      follow (execute_update_config_lem sender c s) λ t e. returns (ap (λ x. x.config) e)
  execute-Frozen sender (receive wrapper) s = search (step, receive_hook-Frozen) depth 6
  execute-Frozen sender (withdraw_rewards address) s =
      search (step, branch, begin_from-Frozen, Frozen-after, update_rewards-Same, Frozen-last) depth
        12
  execute-Frozen sender (withdraw_treasury_rewards amount) s =
      search
        (step, branch, begin_from-Frozen, Frozen-after, update_treasury_amounts-Same, Frozen-last)
        depth 14
  execute-Frozen sender (withdraw_syne_staking_rewards amount) s =
      search
        (
          step, branch, begin_from-Frozen, Frozen-after, update_syne_staking_amounts-Same,
          Frozen-last,
        )
        depth 14
  execute-Frozen sender (unstake_msg amount) s =
      search (step, branch, begin_from-Frozen, Frozen-after, remove_stake-Same, Frozen-last) depth
        12
  execute-Frozen sender (distribute_rewards address) s = finish-Frozen (reward address) sender s
