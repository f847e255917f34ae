-- ===== src/Vault/Kept.antt =====
-- What the functions of Vault/Amounts leave alone: the configuration and the action that waits.
use synergistic_juno_contrac.Base.{
  ℕ, ◌≡◌, refl, Option, Result, ok, err, Returns, returns, raises, step, returned,
}
use synergistic_juno_contrac.Vault.{Decimals, Error, State}
use synergistic_juno_contrac.Vault.Amounts.{
  update_total_rewards, update_rewards, add_stake, remove_stake, update_treasury_amounts,
  update_syne_staking_amounts,
}

module _ {D : Type 0} where
  pub record Same (s t : State D) : Type 0 where
    pub same_config : t.config ≡ s.config
    pub same_action : t.reward_action ≡ s.reward_action

  abbrev pub SameFirst : State D → State D × ℕ → Type 0
  SameFirst s (t, _) = Same s t

  Same-last :
      (s t : State D) (p : ℕ)
      → t.config ≡ s.config
      → t.reward_action ≡ s.reward_action
      → Returns {E = Error} (SameFirst s) (ok (t, p))
  Same-last s t p c a = returns (record { same_config = c; same_action = a })

  abbrev pub SameStakes : State D → State D → Type 0
  SameStakes s t = Same s t × (t.stakes ≡ s.stakes)

  SameStakes-last :
      (s t : State D)
      → t.config ≡ s.config
      → t.reward_action ≡ s.reward_action
      → t.stakes ≡ s.stakes
      → Returns {E = Error} (SameStakes s) (ok t)
  SameStakes-last s t c a d = returns (record { same_config = c; same_action = a }, d)

module _ {E : Type 0} {A : Type 0} {P Q : A → Type 0} where
  pub both : (r : Result E A) → Returns P r → Returns Q r → Returns (λ a. P a × Q a) r
  both (ok a) p q = returns (returned p refl, returned q refl)
  both (err e) p q = raises

module _ {D : Type 0} (decimals : Decimals D) where
  pub update_total_rewards-SameStakes :
      (amount : ℕ) (s : State D) → Returns (SameStakes s) (update_total_rewards decimals amount s)
  unfolding update_total_rewards
  update_total_rewards-SameStakes amount s = search (step, SameStakes-last) depth 12

  pub update_rewards-Same :
      (address : ℕ) (s : State D) → Returns (SameFirst s) (update_rewards decimals address s)
  unfolding update_rewards
  update_rewards-Same address s = search (step, Same-last) depth 10

  pub add_stake-Same :
      (address n : ℕ) (s : State D) → Returns (SameFirst s) (add_stake decimals address n s)
  unfolding add_stake
  add_stake-Same address n s = search (step, Same-last) depth 10

  pub remove_stake-Same :
      (address n : ℕ) (s : State D) → Returns (SameFirst s) (remove_stake decimals address n s)
  unfolding remove_stake
  remove_stake-Same address n s = search (step, Same-last) depth 10

module _ {D : Type 0} where
  pub update_treasury_amounts-Same :
      (sender : ℕ) (wanted : Option ℕ) (s : State D)
      → Returns (SameFirst s) (update_treasury_amounts sender wanted s)
  unfolding update_treasury_amounts
  update_treasury_amounts-Same sender wanted s = search (step, Same-last) depth 10

  pub update_syne_staking_amounts-Same :
      (sender : ℕ) (wanted : Option ℕ) (s : State D)
      → Returns (SameFirst s) (update_syne_staking_amounts sender wanted s)
  unfolding update_syne_staking_amounts
  update_syne_staking_amounts-Same sender wanted s = search (step, Same-last) depth 10
