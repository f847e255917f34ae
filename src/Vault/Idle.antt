-- ===== src/Vault/Idle.antt =====
-- The messages of contracts/bloop-vault that arrive while no action waits: each of them is paid at
-- once, or is note_lem until the rewards of the staking contract have arrived.
use synergistic_juno_contrac.Base.{
  ℕ, ◌≡◌, refl, ◌+◌, ◌-◌, ◌≤◌, ◌<◌, Option, some, List, [], ◌∷◌, ◌==◌, ltb, leb, arith, Result, ok,
  ◌>>=◌, ok_or, ensure, Returns, returns, step, follow, branch, implied, subst,
}
use native.Mathlib.Nat.{add-zero}
use synergistic_juno_contrac.Base.Checked.{u128_mod}
use synergistic_juno_contrac.Vault.{
  Decimals, Error, aborted, unauthorized, invalid_amount, no_withdrawable, invalid_distributor,
  RewardAction, no_action, reward, stake, unstake, treasury_withdraw, syne_staking_reward_withdraw,
  State, Sent, transfer, withdraw_from, Outside,
}
use synergistic_juno_contrac.Vault.Amounts.{
  info_of, update_rewards, update_treasury_amounts, update_syne_staking_amounts,
}
use synergistic_juno_contrac.Vault.Handlers.{
  addr_validate, begin_action, withdrawable_amount, execute_stake, execute_withdraw_rewards,
  execute_withdraw_treasury_rewards, execute_withdraw_syne_staking_rewards, execute_unstake,
  execute_distribute_user_rewards,
}
use synergistic_juno_contrac.Vault.Owed.{FixedPoint}
use synergistic_juno_contrac.Vault.Solvent.{Account, Account_receive, Account_forget, moved}
use synergistic_juno_contrac.Vault.Payments.{
  update_rewards-Owing, update_treasury_amounts-Owing, update_syne_staking_amounts-Owing,
}
use synergistic_juno_contrac.Vault.Kept.{
  both, update_rewards-Same, update_treasury_amounts-Same, update_syne_staking_amounts-Same,
}
use synergistic_juno_contrac.Vault.Messages.{
  paid, deposit_of, action_of, Ready, Solvent, Funded, Completed, settle, Account_note,
  Ready-stakes, finish_reward-Completed, finish_stake-Completed, finish_unstake-Completed,
}

module _ {D : Type 0} {decimals : Decimals D} (fixed : FixedPoint decimals)
    (outside : Outside) where
  abbrev pub Idle : State D → Type 0
  Idle s = action_of s ≡ no_action

  pub idle-Account :
      (tokens : ℕ) (s : State D) → Idle s → Solvent fixed tokens s → Account fixed tokens 0 s
  idle-Account tokens s e h = subst (λ x. Account fixed tokens (deposit_of x) s) e h.account

  -- What can wait: an action whose deposit is covered.
  abbrev Noted : ℕ → State D → RewardAction → Type 0
  Noted tokens s action = Account fixed tokens (deposit_of action) s × Ready fixed action s

  note_lem :
      (tokens : ℕ) (s : State D) (action : RewardAction)
      → Noted tokens s action
      → Funded fixed tokens (
        record s { reward_action = some action },
        withdraw_from s.config.bloop_converter_and_staker ∷ [],
      )
  unfolding paid
  note_lem tokens s waiting (a, r) =
      let t = record s { reward_action = some waiting } in
      (
        omega arith,
        record {
          account =
              moved fixed tokens (deposit_of waiting) (tokens - 0) (deposit_of waiting) t
                (Account_note fixed tokens (deposit_of waiting) waiting s a) (omega arith);
          ready = Ready-stakes fixed outside waiting s t refl r;
        },
      )

  begin_action-Funded :
      (tokens : ℕ) (new : Result Error RewardAction) (s : State D)
      → Idle s
      → Returns (Noted tokens s) new
      → Returns (Funded fixed tokens) (begin_action decimals outside new s)
  begin_action-Funded tokens new s e n =
      rw (e) (follow n λ waiting h. returns (note_lem tokens s waiting h))

  -- The completion of an action while none waits.
  completed :
      (tokens : ℕ) (s : State D) {r : Result Error (State D × List Sent)}
      → Idle s
      → Returns (Completed fixed tokens s) r
      → Returns (Funded fixed tokens) r
  completed tokens s e =
      implied λ (t, sent) (a, same). settle fixed tokens t sent a (rw (same.same_action) e)

  address-Noted :
      (tokens text : ℕ) (s : State D) (make : ℕ → RewardAction)
      → ((address : ℕ) → Noted tokens s (make address))
      → Returns (Noted tokens s) (addr_validate outside text >>= λ address. ok (make address))
  address-Noted tokens text s make h =
      step (addr_validate outside text) λ address _. returns (h address)

  pub execute_stake-Funded :
      (sender amount tokens : ℕ) (s : State D)
      → tokens + amount < u128_mod
      → Idle s
      → Solvent fixed tokens s
      → Returns (Funded fixed (tokens + amount)) (execute_stake decimals outside sender amount s)
  unfolding execute_stake
  execute_stake-Funded sender amount tokens s fits e h =
      let a = Account_receive fixed tokens 0 amount s (idle-Account tokens s e h) in
      let waiting = Account_forget fixed (tokens + amount) (0 + amount) amount s (omega arith) a in
      step (withdrawable_amount decimals outside s) λ n _.
        branch (ltb 0 n)
          (begin_action-Funded (tokens + amount)
            (addr_validate outside sender >>= λ address. ok (stake address amount)) s e
            (address-Noted (tokens + amount) sender s (λ address. stake address amount)
              λ address. (waiting, tt)))
          (step (addr_validate outside sender) λ address _.
            completed (tokens + amount) s e
              (finish_stake-Completed fixed outside (tokens + amount) address amount s fits a))

  -- A reward that is paid at once, whatever its amount.
  pub execute_withdraw_rewards-Funded :
      (text tokens : ℕ) (s : State D)
      → Idle s
      → Solvent fixed tokens s
      → Returns (Funded fixed tokens) (execute_withdraw_rewards decimals outside text s)
  unfolding execute_withdraw_rewards paid
  execute_withdraw_rewards-Funded text tokens s e h =
      let a = idle-Account tokens s e h in
      step (withdrawable_amount decimals outside s) λ n _.
        branch (ltb 0 n)
          (begin_action-Funded tokens
            (addr_validate outside text >>= λ address. ok (reward address)) s e
            (address-Noted tokens text s (λ address. reward address) λ address. (a, tt)))
          (step (addr_validate outside text) λ address _.
            follow
              (both (update_rewards decimals address s)
                (update_rewards-Owing fixed tokens 0 address s a)
                (update_rewards-Same decimals address s))
              λ (t, p) (due, same). returns (
                settle fixed tokens t (transfer s.config.token address p ∷ []) (rw (add-zero p) due)
                  (rw (same.same_action) e)))

  pub execute_withdraw_treasury_rewards-Funded :
      (sender tokens : ℕ) (wanted : Option ℕ) (s : State D)
      → Idle s
      → Solvent fixed tokens s
      → Returns
          (Funded fixed tokens)
          (execute_withdraw_treasury_rewards decimals outside sender wanted s)
  unfolding execute_withdraw_treasury_rewards paid
  execute_withdraw_treasury_rewards-Funded sender tokens wanted s e h =
      let a = idle-Account tokens s e h in
      step (ok_or s.config.treasury_withdrawer aborted) λ w _.
        step (ensure (sender == w) unauthorized) λ _ _.
          step (withdrawable_amount decimals outside s) λ n _.
            branch (ltb 0 n)
              (begin_action-Funded tokens (ok (treasury_withdraw wanted)) s e (returns (a, tt)))
              (follow
                (both (update_treasury_amounts sender wanted s)
                  (update_treasury_amounts-Owing fixed tokens 0 sender wanted s a)
                  (update_treasury_amounts-Same sender wanted s))
                λ (t, p) (due, same). step (ensure (ltb 0 p) no_withdrawable) λ _ _.
                  step (ok_or s.config.treasury_wallet aborted) λ wallet _. returns (
                    settle fixed tokens t (transfer s.config.token wallet p ∷ [])
                      (rw (add-zero p) due) (rw (same.same_action) e)))

  pub execute_withdraw_syne_staking_rewards-Funded :
      (sender tokens : ℕ) (wanted : Option ℕ) (s : State D)
      → Idle s
      → Solvent fixed tokens s
      → Returns
          (Funded fixed tokens)
          (execute_withdraw_syne_staking_rewards decimals outside sender wanted s)
  unfolding execute_withdraw_syne_staking_rewards paid
  execute_withdraw_syne_staking_rewards-Funded sender tokens wanted s e h =
      let a = idle-Account tokens s e h in
      step (withdrawable_amount decimals outside s) λ n _.
        branch (ltb 0 n)
          (begin_action-Funded tokens (ok (syne_staking_reward_withdraw wanted)) s e
            (returns (a, tt)))
          (follow
            (both (update_syne_staking_amounts sender wanted s)
              (update_syne_staking_amounts-Owing fixed tokens 0 sender wanted s a)
              (update_syne_staking_amounts-Same sender wanted s))
            λ (t, p) (due, same). step (ensure (ltb 0 p) no_withdrawable) λ _ _.
              step (ok_or s.config.syne_staking_reward_distributor invalid_distributor) λ to _.
                returns (
                  settle fixed tokens t (transfer s.config.token to p ∷ []) (rw (add-zero p) due)
                    (rw (same.same_action) e)))

  pub execute_unstake-Funded :
      (sender amount tokens : ℕ) (s : State D)
      → Idle s
      → Solvent fixed tokens s
      → Returns (Funded fixed tokens) (execute_unstake decimals outside sender amount s)
  unfolding execute_unstake
  execute_unstake-Funded sender amount tokens s e h =
      let a = idle-Account tokens s e h in
      let own = (info_of decimals sender s).stake in
      step (ensure (ltb 0 amount) invalid_amount) λ _ _.
        step (ensure (leb amount own) invalid_amount) λ _ checked.
          let enough : amount ≤ own = ground arith in
          step (withdrawable_amount decimals outside s) λ n _.
            branch (ltb 0 n)
              (begin_action-Funded tokens (ok (unstake sender amount)) s e (returns (a, enough)))
              (completed tokens s e
                (finish_unstake-Completed fixed outside tokens sender amount s enough a))

  pub execute_distribute_user_rewards-Funded :
      (address tokens : ℕ) (s : State D)
      → Idle s
      → Solvent fixed tokens s
      → Returns (Funded fixed tokens) (execute_distribute_user_rewards decimals outside address s)
  unfolding execute_distribute_user_rewards
  execute_distribute_user_rewards-Funded address tokens s e h =
      completed tokens s e
        (finish_reward-Completed fixed outside tokens address s (idle-Account tokens s e h))
