-- ===== src/Vault/Messages.antt =====
-- The messages of contracts/bloop-vault: what each of them pays out is covered by the tokens that
-- the vault holds, and the rest covers what it still owes.
use native.Mathlib.Nat.{add-zero}
use synergistic_juno_contrac.Base.{
  ℕ, ◌≡◌, refl, ◌+◌, ◌-◌, ◌≤◌, ◌<◌, Option, none, some, List, [], ◌∷◌, get_or, arith, ok_or,
  Returns, returns, step, follow, subst, sym,
}
use synergistic_juno_contrac.Base.Checked.{u128_mod}
use synergistic_juno_contrac.Vault.{
  Decimals, aborted, invalid_distributor, RewardAction, no_action, reward, stake, unstake,
  treasury_withdraw, syne_staking_reward_withdraw, State, Sent, transfer, withdraw_from, Outside,
}
use synergistic_juno_contrac.Vault.Amounts.{
  info_of, update_total_rewards, update_rewards, add_stake, remove_stake, update_treasury_amounts,
  update_syne_staking_amounts,
}
use synergistic_juno_contrac.Vault.Handlers.{
  pay_positive, finish_reward, finish_stake, finish_unstake, finish_treasury, finish_syne_staking,
  finish, chosen, execute_distribute_rewards,
}
use synergistic_juno_contrac.Vault.Owed.{FixedPoint}
use synergistic_juno_contrac.Vault.Solvent.{Account, Account_receive, Account_pay, Account_forget}
use synergistic_juno_contrac.Vault.Payments.{
  update_rewards-Owing, add_stake-Owing, remove_stake-Owing, update_treasury_amounts-Owing,
  update_syne_staking_amounts-Owing, update_total_rewards-Account,
}
use synergistic_juno_contrac.Vault.Kept.{
  Same, both, update_total_rewards-SameStakes, update_rewards-Same, add_stake-Same,
  remove_stake-Same, update_treasury_amounts-Same, update_syne_staking_amounts-Same,
}

-- The tokens that a list of messages transfers.
unfoldable pub paid : List Sent → ℕ
paid [] = 0
paid (transfer _ _ amount ∷ sent) = amount + paid sent
paid (withdraw_from _ ∷ sent) = paid sent

-- A deposit that waits for its rewards to arrive is in the vault, but not yet a stake.
abbrev pub deposit_of : RewardAction → ℕ
deposit_of no_action = 0
deposit_of (reward _) = 0
deposit_of (stake _ amount) = amount
deposit_of (unstake _ _) = 0
deposit_of (treasury_withdraw _) = 0
deposit_of (syne_staking_reward_withdraw _) = 0

abbrev pub action_of : {D : Type 0} → State D → RewardAction
action_of s = get_or s.reward_action no_action

module _ {D : Type 0} {decimals : Decimals D} (fixed : FixedPoint decimals) where
  -- An unstaking that waits is no larger than the stake.
  abbrev pub Ready : RewardAction → State D → Type 0
  Ready no_action s = Unit
  Ready (reward _) s = Unit
  Ready (stake _ _) s = Unit
  Ready (unstake address amount) s = amount ≤ (info_of decimals address s).stake
  Ready (treasury_withdraw _) s = Unit
  Ready (syne_staking_reward_withdraw _) s = Unit

  pub record Solvent (tokens : ℕ) (s : State D) : Type 0 where
    pub account : Account fixed tokens (deposit_of (action_of s)) s
    pub ready : Ready (action_of s) s

  -- With `tokens` in hand the payments can be made, and what is left is enough.
  abbrev pub Funded : ℕ → State D × List Sent → Type 0
  Funded tokens (s, sent) = (paid sent ≤ tokens) × Solvent (tokens - paid sent) s

  -- Everything due is paid: with no action waiting the vault stays solvent.
  pub settle :
      (tokens : ℕ) (s : State D) (sent : List Sent)
      → Account fixed tokens (0 + paid sent) s
      → action_of s ≡ no_action
      → Funded tokens (s, sent)
  settle tokens s sent a e =
      let (enough, rest) = Account_pay fixed tokens 0 (paid sent) s a in
      (
        enough,
        record {
          account = subst (λ x. Account fixed (tokens - paid sent) (deposit_of x) s) (sym e) rest;
          ready = subst (λ x. Ready x s) (sym e) tt;
        },
      )

  -- The action that waits is no part of the accounts.
  pub Account_note :
      (tokens more : ℕ) (waiting : RewardAction) (s : State D)
      → Account fixed tokens more s
      → Account fixed tokens more (record s { reward_action = some waiting })
  Account_note tokens more waiting s a = record {
    deposited = a.deposited;
    touched = a.touched;
    covered = a.covered;
    fees_fit = a.fees_fit;
  }

  -- The accounts that the completion of an action leaves.
  abbrev pub Completed : ℕ → State D → State D × List Sent → Type 0
  Completed tokens s (t, sent) = Account fixed tokens (0 + paid sent) t × Same s t

module _ {D : Type 0} {decimals : Decimals D} (fixed : FixedPoint decimals)
    (outside : Outside) where
  paid-pay_positive : (token to n : ℕ) → paid (pay_positive decimals outside token to n) ≡ n
  unfolding paid
  paid-pay_positive token to n = ground arith

  pub finish_reward-Completed :
      (tokens address : ℕ) (s : State D)
      → Account fixed tokens 0 s
      → Returns (Completed fixed tokens s) (finish_reward decimals outside address s)
  finish_reward-Completed tokens address s a =
      follow
        (both (update_rewards decimals address s) (update_rewards-Owing fixed tokens 0 address s a)
          (update_rewards-Same decimals address s))
        λ (t, p) (due, same). returns (rw (paid-pay_positive s.config.token address p) due, same)

  pub finish_stake-Completed :
      (tokens address amount : ℕ) (s : State D)
      → tokens < u128_mod
      → Account fixed tokens (0 + amount) s
      → Returns (Completed fixed tokens s) (finish_stake decimals outside address amount s)
  finish_stake-Completed tokens address amount s fits a =
      follow
        (both (add_stake decimals address amount s)
          (add_stake-Owing fixed tokens 0 address amount s fits a)
          (add_stake-Same decimals address amount s))
        λ (t, p) (due, same). returns (rw (paid-pay_positive s.config.token address p) due, same)

  pub finish_unstake-Completed :
      (tokens address amount : ℕ) (s : State D)
      → amount ≤ (info_of decimals address s).stake
      → Account fixed tokens 0 s
      → Returns (Completed fixed tokens s) (finish_unstake decimals outside address amount s)
  unfolding paid
  finish_unstake-Completed tokens address amount s enough a =
      follow
        (both (remove_stake decimals address amount s)
          (remove_stake-Owing fixed tokens 0 address amount s enough a)
          (remove_stake-Same decimals address amount s))
        λ (t, p) (due, same). returns (
          rw (paid-pay_positive s.config.token address p)
              (Account_forget fixed tokens (0 + amount + p) (0 + (amount + p)) t (omega arith) due),
          same,
        )

  finish_treasury-Completed :
      (tokens sender : ℕ) (wanted : Option ℕ) (s : State D)
      → Account fixed tokens 0 s
      → Returns (Completed fixed tokens s) (finish_treasury decimals outside sender wanted s)
  unfolding paid
  finish_treasury-Completed tokens sender wanted s a =
      follow
        (both (update_treasury_amounts sender wanted s)
          (update_treasury_amounts-Owing fixed tokens 0 sender wanted s a)
          (update_treasury_amounts-Same sender wanted s))
        λ (t, p) (due, same).
          step (ok_or s.config.treasury_wallet aborted) λ _ _. returns (rw (add-zero p) due, same)

  finish_syne_staking-Completed :
      (tokens sender : ℕ) (wanted : Option ℕ) (s : State D)
      → Account fixed tokens 0 s
      → Returns (Completed fixed tokens s) (finish_syne_staking decimals outside sender wanted s)
  unfolding paid
  finish_syne_staking-Completed tokens sender wanted s a =
      follow
        (both (update_syne_staking_amounts sender wanted s)
          (update_syne_staking_amounts-Owing fixed tokens 0 sender wanted s a)
          (update_syne_staking_amounts-Same sender wanted s))
        λ (t, p) (due, same).
          step (ok_or s.config.syne_staking_reward_distributor invalid_distributor)
            λ _ _. returns (rw (add-zero p) due, same)

  finish-Completed :
      (action : RewardAction) (tokens sender : ℕ) (s : State D)
      → tokens < u128_mod
      → Account fixed tokens (deposit_of action) s
      → Ready fixed action s
      → Returns (Completed fixed tokens s) (finish decimals outside action sender s)
  unfolding paid
  finish-Completed no_action tokens sender s fits a r =
      returns (a, record { same_config = refl; same_action = refl })
  finish-Completed (reward address) tokens sender s fits a r =
      finish_reward-Completed tokens address s a
  finish-Completed (stake address amount) tokens sender s fits a r =
      finish_stake-Completed tokens address amount s fits
        (Account_forget fixed tokens amount (0 + amount) s (omega arith) a)
  finish-Completed (unstake address amount) tokens sender s fits a r =
      finish_unstake-Completed tokens address amount s r a
  finish-Completed (treasury_withdraw wanted) tokens sender s fits a r =
      finish_treasury-Completed tokens sender wanted s a
  finish-Completed (syne_staking_reward_withdraw wanted) tokens sender s fits a r =
      finish_syne_staking-Completed tokens sender wanted s a

  pub Ready-stakes :
      (action : RewardAction) (s t : State D)
      → t.stakes ≡ s.stakes
      → Ready fixed action s
      → Ready fixed action t
  Ready-stakes no_action s t e r = tt
  Ready-stakes (reward _) s t e r = tt
  Ready-stakes (stake _ _) s t e r = tt
  Ready-stakes (unstake address amount) s t e r = rw (e) r
  Ready-stakes (treasury_withdraw _) s t e r = tt
  Ready-stakes (syne_staking_reward_withdraw _) s t e r = tt

  -- The action that `execute_distribute_rewards` completes.
  chosen-Ready :
      (address : Option ℕ) (tokens : ℕ) (action : RewardAction) (s : State D)
      → Account fixed tokens (deposit_of action) s
      → Ready fixed action s
      → Account fixed tokens (deposit_of (chosen decimals outside address action)) s
        × Ready fixed (chosen decimals outside address action) s
  chosen-Ready none tokens waiting s a r = (a, r)
  chosen-Ready (some address) tokens waiting s a r =
      (Account_forget fixed tokens (deposit_of waiting) 0 s (omega arith) a, tt)

  -- The rewards arrive: the action that waited is completed, or the given address is paid instead.
  pub execute_distribute_rewards-Funded :
      (sender : ℕ) (address : Option ℕ) (amount tokens : ℕ) (s : State D)
      → tokens + amount < u128_mod
      → Solvent fixed tokens s
      → Returns
          (Funded fixed (tokens + amount))
          (execute_distribute_rewards decimals outside sender address amount s)
  unfolding execute_distribute_rewards
  execute_distribute_rewards-Funded sender address amount tokens s fits solvent =
      let action = action_of s in
      follow
        (both (update_total_rewards decimals amount s)
          (update_total_rewards-Account fixed (tokens + amount) (deposit_of action) amount s
            (Account_receive fixed tokens (deposit_of action) amount s solvent.account))
          (update_total_rewards-SameStakes decimals amount s))
        λ t (a, (_, e)).
          let (account, ready) =
            chosen-Ready address (tokens + amount) action t a
              (Ready-stakes action s t e solvent.ready) in
          follow
            (finish-Completed (chosen decimals outside address action) (tokens + amount) sender t
              fits account ready)
            λ (u, sent) (left, _). returns (
              settle fixed (tokens + amount) (record u { reward_action = some no_action }) sent
                (Account_note fixed (tokens + amount) (0 + paid sent) no_action u left) refl)
