-- ===== src/Vault/Solvent.antt =====
-- The accounts of the vault of contracts/bloop-vault: a number of tokens that covers the deposits,
-- the fees, the unpaid rewards and a further amount, and how each bookkeeping function of
-- Vault/Amounts moves them.
use native.Mathlib.Nat.{
  le_of_mul-le-mul_right, mul-le-mul_right, add-mul, mul-add, add-zero, le_trans,
}
use synergistic_juno_contrac.Base.{
  ℕ, ◌≡◌, refl, ◌+◌, ◌*◌, ◌-◌, ◌≤◌, Option, none, some, [], ◌∷◌, get_or, arith, ap,
}
use synergistic_juno_contrac.Base.Dict.{Dict, lookup, insert}
use synergistic_juno_contrac.Vault.{Decimals, StakingInfo, State}
use synergistic_juno_contrac.Vault.Amounts.{info_of, default_info, set_stake}
use synergistic_juno_contrac.Vault.Owed.{FixedPoint, sum_of, measure_at, sum_of-insert}

module _ {D : Type 0} {decimals : Decimals D} (fixed : FixedPoint decimals) where
  abbrev pub power_of : State D → ℕ
  power_of s = fixed.atomics s.total_staked.power

  abbrev pub stake_of : StakingInfo D → ℕ
  stake_of info = info.stake

  -- What the power of a stake was worth when it was touched.
  abbrev pub worth_of : StakingInfo D → ℕ
  worth_of info = fixed.atomics info.power_diff * info.stake

  -- No stake was touched at a higher power.
  unfoldable pub Below : ℕ → Dict (StakingInfo D) → Type 0
  Below p [] = Unit
  Below p ((_, info) ∷ d) = (fixed.atomics info.power_diff ≤ p) × Below p d

  abbrev pub liabilities : State D → ℕ → ℕ
  liabilities s more =
      s.total_staked.staked + s.total_staked.pending_treasury_rewards
      + s.total_staked.pending_syne_staking_rewards + more

  -- The tokens cover everything that is owed and `more` tokens besides.
  pub record Account (tokens more : ℕ) (s : State D) : Type 0 where
    pub deposited : sum_of stake_of s.stakes ≡ s.total_staked.staked
    pub touched : Below (power_of s) s.stakes
    pub covered :
        liabilities s more * fixed.unit + power_of s * s.total_staked.staked
        ≤ tokens * fixed.unit + sum_of worth_of s.stakes
    pub fees_fit :
        fixed.atomics s.config.treasury_fee + fixed.atomics s.config.syne_staking_fee ≤ fixed.unit

  worth_le :
      (p : ℕ) (d : Dict (StakingInfo D)) → Below p d → sum_of worth_of d ≤ p * sum_of stake_of d
  unfolding sum_of Below
  worth_le p [] h = omega arith
  worth_le p ((k, i) ∷ d) h =
      omega (
        arith,
        worth_le p d h.1,
        mul-le-mul_right i.stake h.0,
        mul-add p i.stake (sum_of stake_of d),
      )

  Below-insert :
      (p k : ℕ) (i : StakingInfo D) (d : Dict (StakingInfo D))
      → fixed.atomics i.power_diff ≤ p
      → Below p d
      → Below p (insert k i d)
  unfolding insert Below
  Below-insert p k i [] h b = (h, tt)
  Below-insert p k i ((j, w) ∷ d) h b = ground (arith, Below-insert p k i d h b.1)

  pub Below-raise : (p q : ℕ) (d : Dict (StakingInfo D)) → p ≤ q → Below p d → Below q d
  unfolding Below
  Below-raise p q [] h b = tt
  Below-raise p q ((j, w) ∷ d) h b = (le_trans b.0 h, Below-raise p q d h b.1)

  pub Below-lookup :
      (p k : ℕ) (d : Dict (StakingInfo D))
      → Below p d
      → fixed.atomics (get_or (lookup k d) (default_info decimals)).power_diff ≤ p
  unfolding lookup Below
  Below-lookup p k [] b = omega (arith, fixed.atomics_zero)
  Below-lookup p k ((j, w) ∷ d) b = ground (arith, Below-lookup p k d b.1)

  -- The deposits, the fees and the further amount are covered without counting rewards.
  pub Account-le :
      (tokens more : ℕ) (s : State D) → Account tokens more s → liabilities s more ≤ tokens
  Account-le tokens more s a =
      le_of_mul-le-mul_right {m = liabilities s more} {n = tokens} {k = fixed.unit}
        (omega (
          arith,
          a.covered,
          worth_le (power_of s) s.stakes a.touched,
          ap (λ k. power_of s * k) a.deposited,
        ))
        fixed.unit_positive

  -- An account of the same state, when its tokens cover it.
  pub moved :
      (tokens more tokens' more' : ℕ) (s : State D)
      → Account tokens more s
      → tokens + more' ≤ tokens' + more
      → Account tokens' more' s
  moved tokens more tokens' more' s a h = record {
    deposited = a.deposited;
    touched = a.touched;
    covered = omega (
      arith,
      a.covered,
      mul-le-mul_right fixed.unit h,
      add-mul tokens more' fixed.unit,
      add-mul tokens' more fixed.unit,
      add-mul (liabilities s 0) more fixed.unit,
      add-mul (liabilities s 0) more' fixed.unit,
      ap (λ k. (k + more) * fixed.unit) (add-zero _),
      ap (λ k. (k + more') * fixed.unit) (add-zero _),
    );
    fees_fit = a.fees_fit;
  }

  -- Tokens that arrive are owed.
  pub Account_receive :
      (tokens more n : ℕ) (s : State D) → Account tokens more s → Account (tokens + n) (more + n) s
  Account_receive tokens more n s a = moved tokens more (tokens + n) (more + n) s a (omega arith)

  -- Tokens that are owed can be paid out.
  pub Account_pay :
      (tokens more n : ℕ) (s : State D)
      → Account tokens (more + n) s
      → (n ≤ tokens) × Account (tokens - n) more s
  Account_pay tokens more n s a =
      let enough : n ≤ tokens = omega (arith, Account-le tokens (more + n) s a) in
      (enough, moved tokens (more + n) (tokens - n) more s a (omega (arith, enough)))

  -- What is not owed any more may stay with the vault.
  pub Account_forget :
      (tokens more more' : ℕ) (s : State D)
      → more' ≤ more
      → Account tokens more s
      → Account tokens more' s
  Account_forget tokens more more' s h a = moved tokens more tokens more' s a (omega (arith, h))

  pub times_unit : (m n : ℕ) → m ≡ n → m * fixed.unit ≡ n * fixed.unit
  times_unit m n h = ap (λ k. k * fixed.unit) h

  abbrev pub fees_of : State D → ℕ
  fees_of s = s.total_staked.pending_treasury_rewards + s.total_staked.pending_syne_staking_rewards

  abbrev touched_info : ℕ → ℕ → State D → StakingInfo D
  touched_info address own s = record {
    stake = own;
    power_diff = s.total_staked.power;
    syne_power = (info_of decimals address s).syne_power;
  }

  stake_at :
      (o : Option (StakingInfo D))
      → measure_at stake_of o ≡ (get_or o (default_info decimals)).stake
  stake_at none = refl
  stake_at (some i) = refl

  worth_at :
      (o : Option (StakingInfo D))
      → measure_at worth_of o ≡ worth_of (get_or o (default_info decimals))
  worth_at none = omega arith
  worth_at (some i) = refl

  -- A stake is touched: it changes by `own`, and what it has earned is owed from now on.
  pub Account-set_stake :
      (tokens more more' address own all p : ℕ) (s : State D)
      → Account tokens more s
      → own + s.total_staked.staked ≡ (info_of decimals address s).stake + all
      → all + more' ≡ s.total_staked.staked + more
      → p * fixed.unit
          + fixed.atomics (info_of decimals address s).power_diff
            * (info_of decimals address s).stake
        ≤ power_of s * (info_of decimals address s).stake
      → Account tokens (more' + p) (set_stake decimals address own all s)
  Account-set_stake tokens more more' address own all p s a h g e = record {
    deposited = omega (
      arith,
      h,
      a.deposited,
      stake_at (lookup address s.stakes),
      sum_of-insert stake_of address (touched_info address own s) s.stakes,
    );
    touched =
        Below-insert (power_of s) address (touched_info address own s) s.stakes (omega arith)
          a.touched;
    covered = omega (
      arith,
      a.covered,
      e,
      worth_at (lookup address s.stakes),
      sum_of-insert worth_of address (touched_info address own s) s.stakes,
      mul-add (power_of s) own s.total_staked.staked,
      mul-add (power_of s) (info_of decimals address s).stake all,
      ap (λ k. power_of s * k) h,
      add-mul (all + fees_of s + more') p fixed.unit,
      times_unit (liabilities s more) (all + fees_of s + more') (omega (arith, g)),
      times_unit (liabilities (set_stake decimals address own all s) (more' + p))
          (all + fees_of s + more' + p) (omega arith),
    );
    fees_fit = a.fees_fit;
  }
