-- ===== src/Vault/Runs.antt =====
-- Sequences of messages of contracts/bloop-vault, with the tokens that the vault holds.
use native.Mathlib.Nat.{add-zero}
use synergistic_juno_contrac.Base.{
  ℕ, ◌≡◌, refl, ◌∙◌, ◌+◌, ◌-◌, ◌≤◌, ◌<◌, Option, none, List, [], ◌==◌, arith, ok, err, ensure,
  Returns, returns, step, follow, returned,
}
use synergistic_juno_contrac.Base.Checked.{u128_mod}
use synergistic_juno_contrac.Controllers.Admin.{Store, execute_update_admin}
use synergistic_juno_contrac.Vault.{
  Decimals, aborted, invalid_asset, no_action, State, InstantiateMsg, Cw20HookMsg, stake_hook,
  distribute_rewards_hook, ExecuteMsg, update_admin, update_config, receive, withdraw_rewards,
  withdraw_treasury_rewards, withdraw_syne_staking_rewards, unstake_msg, distribute_rewards, Sent,
  Outside,
}
use synergistic_juno_contrac.Vault.Handlers.{
  addr_validate, maybe_addr, from_admin, receive_hook, execute_withdraw_treasury_rewards,
  execute_receive_cw20, instantiate, execute,
}
use synergistic_juno_contrac.Vault.Owed.{FixedPoint, sum_of}
use synergistic_juno_contrac.Vault.Solvent.{Below, moved}
use synergistic_juno_contrac.Vault.Messages.{
  paid, action_of, deposit_of, Ready-stakes, Solvent, Funded, execute_distribute_rewards-Funded,
}
use synergistic_juno_contrac.Vault.Idle.{
  execute_stake-Funded, execute_withdraw_rewards-Funded, execute_withdraw_treasury_rewards-Funded,
  execute_withdraw_syne_staking_rewards-Funded, execute_unstake-Funded,
  execute_distribute_user_rewards-Funded,
}
use synergistic_juno_contrac.Vault.Frozen.{execute-Frozen, execute_update_config_lem}

-- The tokens that arrive with a message.
abbrev pub received : {D : Type 0} → ExecuteMsg D → ℕ
received (update_admin _) = 0
received (update_config _) = 0
received (receive wrapper) = wrapper.amount
received (withdraw_rewards _) = 0
received (withdraw_treasury_rewards _) = 0
received (withdraw_syne_staking_rewards _) = 0
received (unstake_msg _) = 0
received (distribute_rewards _) = 0

-- While an action waits, the next message is the rewards that it waits for: the converter answers
-- in the same transaction.
abbrev pub InOrder : {D : Type 0} → ExecuteMsg D → State D → Type 0
InOrder (receive wrapper) s = elim wrapper.msg [
  | stake_hook ↦ action_of s ≡ no_action
  | distribute_rewards_hook _ ↦ Unit
]
InOrder _ s = action_of s ≡ no_action

module _ {D : Type 0} (decimals : Decimals D) where
  -- The vault with its tokens after a sequence of messages from `instantiate`. With each message the
  -- staking contract may answer anew. The supply of the token is a `Uint128`.
  pub data Reaches (start : State D) : ℕ → State D → Type 0 where
    begin :
        (outside : Outside) (sender : ℕ) (msg : InstantiateMsg)
        → instantiate decimals outside sender msg ≡ ok start
        → Reaches start 0 start
    after :
        (outside : Outside) (tokens sender : ℕ) (s t : State D) (msg : ExecuteMsg D)
        (sent : List Sent)
        → Reaches start tokens s
        → InOrder msg s
        → tokens + received msg < u128_mod
        → execute decimals outside sender msg s ≡ ok (t, sent)
        → Reaches start (tokens + received msg - paid sent) t

  -- The messages that take the vault from one state to another, in any order.
  pub data Run : State D → State D → Type 0 where
    idle : {s : State D} → Run s s
    call :
        {s t u : State D} (outside : Outside) (sender : ℕ) (msg : ExecuteMsg D) (sent : List Sent)
        → execute decimals outside sender msg s ≡ ok (t, sent)
        → Run t u
        → Run s u

module _ {D : Type 0} {decimals : Decimals D} (fixed : FixedPoint decimals)
    (outside : Outside) where
  instantiate-Solvent :
      (sender : ℕ) (msg : InstantiateMsg)
      → Returns (Solvent fixed 0) (instantiate decimals outside sender msg)
  unfolding instantiate sum_of Below
  instantiate-Solvent sender msg = step (addr_validate outside msg.admin) λ admin _.
      step (addr_validate outside msg.token) λ token _.
        step (addr_validate outside msg.loop_protocol_staking) λ staking _. returns (record {
          account = record {
            deposited = refl;
            touched = tt;
            covered = omega arith;
            fees_fit = omega (arith, fixed.atomics_zero, fixed.atomics_fifth);
          };
          ready = tt;
        })

  hook-Funded :
      (hook : Cw20HookMsg) (sender from amount tokens : ℕ) (s : State D)
      → tokens + amount < u128_mod
      → InOrder {D = D} (receive (record { sender = from; amount = amount; msg = hook })) s
      → Solvent fixed tokens s
      → Returns
          (Funded fixed (tokens + amount))
          (receive_hook decimals outside hook sender from amount s)
  hook-Funded stake_hook sender from amount tokens s fits order h =
      execute_stake-Funded fixed outside from amount tokens s fits order h
  hook-Funded (distribute_rewards_hook address) sender from amount tokens s fits order h =
      execute_distribute_rewards-Funded fixed outside sender address amount tokens s fits h

  -- A message that pays nothing and changes only the administrator.
  unpaid :
      (tokens : ℕ) (s : State D) (admins : Store)
      → Solvent fixed tokens s
      → Funded fixed (tokens + 0) (record s { admin = admins }, [])
  unfolding paid
  unpaid tokens s admins h =
      let a = h.account in
      (
        omega arith,
        record {
          account =
              moved fixed tokens (deposit_of (action_of s)) (tokens + 0 - 0)
                (deposit_of (action_of s)) (record s { admin = admins })
                (record {
                  deposited = a.deposited;
                  touched = a.touched;
                  covered = a.covered;
                  fees_fit = a.fees_fit;
                })
                (omega arith);
          ready =
              Ready-stakes fixed outside (action_of s) s (record s { admin = admins }) refl h.ready;
        },
      )

  execute-Funded :
      (sender : ℕ) (msg : ExecuteMsg D) (tokens : ℕ) (s : State D)
      → InOrder msg s
      → tokens + received msg < u128_mod
      → Solvent fixed tokens s
      → Returns (Funded fixed (tokens + received msg)) (execute decimals outside sender msg s)
  unfolding execute execute_receive_cw20
  execute-Funded sender (update_admin text) tokens s order fits h =
      step (maybe_addr outside text) λ new_admin _.
        step (from_admin (execute_update_admin sender new_admin s.admin))
          λ admins _. returns (unpaid tokens s admins h)
  execute-Funded sender (update_config c) tokens s order fits h =
      follow (execute_update_config_lem decimals outside sender c s)
        λ t e. returns (rw (e) (unpaid tokens s s.admin h))
  execute-Funded sender (receive wrapper) tokens s order fits h =
      step (ensure (sender == s.config.token) invalid_asset)
        λ _ _. hook-Funded wrapper.msg sender wrapper.sender wrapper.amount tokens s fits order h
  execute-Funded sender (withdraw_rewards address) tokens s order fits h =
      rw (add-zero tokens) (execute_withdraw_rewards-Funded fixed outside address tokens s order h)
  execute-Funded sender (withdraw_treasury_rewards amount) tokens s order fits h =
      rw (add-zero tokens)
        (execute_withdraw_treasury_rewards-Funded fixed outside sender tokens amount s order h)
  execute-Funded sender (withdraw_syne_staking_rewards amount) tokens s order fits h =
      rw (add-zero tokens)
        (execute_withdraw_syne_staking_rewards-Funded fixed outside sender tokens amount s order h)
  execute-Funded sender (unstake_msg amount) tokens s order fits h =
      rw (add-zero tokens) (execute_unstake-Funded fixed outside sender amount tokens s order h)
  execute-Funded sender (distribute_rewards address) tokens s order fits h =
      rw (add-zero tokens)
        (execute_distribute_user_rewards-Funded fixed outside address tokens s order h)

module _ {D : Type 0} {decimals : Decimals D} (fixed : FixedPoint decimals) where
  -- After any messages from the creation on, with any answers of the staking contract to each of
  -- them, the tokens of the vault cover the deposits, both fees and the rewards that stakers have not
  -- been paid. The conditions: while an action waits the next message brings its rewards, since the
  -- converter answers in the same transaction, and the tokens of the vault stay below 2 ^ 128.
  pub reachable-Solvent :
      {start s : State D} {tokens : ℕ} → Reaches decimals start tokens s → Solvent fixed tokens s
  reachable-Solvent (begin outside sender msg e) =
      returned (instantiate-Solvent fixed outside sender msg) e
  reachable-Solvent (after outside tokens sender s t msg sent r order fits e) =
      (returned (execute-Funded fixed outside sender msg tokens s order fits (reachable-Solvent r))
        e).1

  -- What a message pays out is in the vault, after any messages from the creation on, with any
  -- answers of the staking contract to each of them. The conditions: while an action waits the next
  -- message brings its rewards, since the converter answers in the same transaction, and the tokens
  -- of the vault stay below 2 ^ 128.
  pub payments_covered :
      {start s t : State D} {tokens : ℕ} {sent : List Sent} (outside : Outside) (sender : ℕ)
      (msg : ExecuteMsg D)
      → Reaches decimals start tokens s
      → InOrder msg s
      → tokens + received msg < u128_mod
      → execute decimals outside sender msg s ≡ ok (t, sent)
      → paid sent ≤ tokens + received msg
  payments_covered {s = s} {tokens = tokens} outside sender msg r order fits e =
      (returned (execute-Funded fixed outside sender msg tokens s order fits (reachable-Solvent r))
        e).0

module _ {D : Type 0} (decimals : Decimals D) where
  instantiate-none :
      (outside : Outside) (sender : ℕ) (msg : InstantiateMsg)
      → Returns (λ s. s.config.treasury_withdrawer ≡ none) (instantiate decimals outside sender msg)
  unfolding instantiate
  instantiate-none outside sender msg = step (addr_validate outside msg.admin) λ _ _.
      step (addr_validate outside msg.token)
        λ _ _. step (addr_validate outside msg.loop_protocol_staking) λ _ _. returns refl

  run_config : {s u : State D} → Run decimals s u → u.config ≡ s.config
  run_config idle = refl
  run_config (call {s = s} outside sender msg sent e r) =
      run_config r ∙ returned (execute-Frozen decimals outside sender msg s) e

  -- Whatever messages follow the creation of the vault, changes of the configuration among them, and
  -- whatever the staking contract answers to each of them, the withdrawal of the treasury fees fails
  -- for everybody.
  pub treasury_locked :
      {start s : State D} (before outside : Outside) (creator sender : ℕ) (msg : InstantiateMsg)
      (amount : Option ℕ)
      → instantiate decimals before creator msg ≡ ok start
      → Run decimals start s
      → execute decimals outside sender (withdraw_treasury_rewards amount) s ≡ err aborted
  unfolding execute execute_withdraw_treasury_rewards
  treasury_locked before outside creator sender msg amount e r =
      rw (run_config r, returned (instantiate-none before creator msg) e) refl
