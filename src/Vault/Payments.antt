-- ===== src/Vault/Payments.antt =====
-- The accounts of the vault of contracts/bloop-vault across the functions of Vault/Amounts: each
-- leaves the amount that it returns among what is owed.
use native.Mathlib.Nat.{mul-le-mul_left, add-mul, mul-add}
use synergistic_juno_contrac.Base.{
  ℕ, ◌≡◌, refl, ◌+◌, ◌*◌, ◌-◌, ◌≤◌, ◌<◌, Option, [], ◌∷◌, ◌==◌, ltb, leb, get_or, arith, ok_or,
  ensure, Returns, returns, step, follow, branch, ok_or-eq-ok, finally, ap,
}
use synergistic_juno_contrac.Base.Checked.{
  checked_sub, checked_sub-eq-some, checked_sub_lem, add128, add_within_lem, add_within-eq-some,
  u128_mod,
}
use synergistic_juno_contrac.Base.Dict.{Dict, lookup}
use synergistic_juno_contrac.Vault.{
  Decimals, aborted, unauthorized, invalid_amount, TokenInfo, StakingInfo, State,
}
use synergistic_juno_contrac.Vault.Amounts.{
  info_of, default_info, raise_power, update_total_rewards, update_rewards, add_stake, remove_stake,
  update_treasury_amounts, update_syne_staking_amounts,
}
use synergistic_juno_contrac.Vault.Owed.{
  FixedPoint, sum_of, earned-Returns, fee_of-Returns, gain-Returns,
}
use synergistic_juno_contrac.Vault.Solvent.{
  Account, power_of, stake_of, Below-lookup, Below-raise, liabilities, fees_of, Account-le,
  Account-set_stake, times_unit,
}

module _ {D : Type 0} {decimals : Decimals D} (fixed : FixedPoint decimals) where
  -- A state and an amount that it owes besides what it owed before.
  abbrev pub Owing : ℕ → ℕ → State D × ℕ → Type 0
  Owing tokens more (s, p) = Account fixed tokens (more + p) s

  -- The stake of one address is part of all deposits.
  stake_le :
      (address : ℕ) (d : Dict (StakingInfo D))
      → (get_or (lookup address d) (default_info decimals)).stake ≤ sum_of (stake_of fixed) d
  unfolding lookup sum_of
  stake_le address [] = omega arith
  stake_le address ((j, w) ∷ d) = ground (arith, stake_le address d)

  pub update_rewards-Owing :
      (tokens more address : ℕ) (s : State D)
      → Account fixed tokens more s
      → Returns (Owing tokens more) (update_rewards decimals address s)
  unfolding update_rewards
  update_rewards-Owing tokens more address s a =
      follow
        (earned-Returns decimals fixed s.total_staked.power (info_of decimals address s)
          (Below-lookup fixed (power_of fixed s) address s.stakes a.touched))
        λ p e. returns (
          Account-set_stake fixed tokens more more address (info_of decimals address s).stake
            s.total_staked.staked p s a (omega arith) refl e)

  pub add_stake-Owing :
      (tokens more address amount : ℕ) (s : State D)
      → tokens < u128_mod
      → Account fixed tokens (more + amount) s
      → Returns (Owing tokens more) (add_stake decimals address amount s)
  unfolding add_stake
  add_stake-Owing tokens more address amount s fits a =
      let within : s.total_staked.staked + amount < u128_mod =
        omega (arith, Account-le fixed tokens (more + amount) s a) in
      let own : (info_of decimals address s).stake + amount < u128_mod =
        omega (arith, stake_le address s.stakes, a.deposited) in
      follow
        (earned-Returns decimals fixed s.total_staked.power (info_of decimals address s)
          (Below-lookup fixed (power_of fixed s) address s.stakes a.touched))
        λ p e.
          rw
            (
              add_within_lem u128_mod s.total_staked.staked amount within,
              add_within_lem u128_mod (info_of decimals address s).stake amount own,
            )
            (returns (
              Account-set_stake fixed tokens (more + amount) more address
                ((info_of decimals address s).stake + amount) (s.total_staked.staked + amount) p s a
                (omega arith) (omega arith) e))

  pub remove_stake-Owing :
      (tokens more address amount : ℕ) (s : State D)
      → amount ≤ (info_of decimals address s).stake
      → Account fixed tokens more s
      → Returns (Owing tokens (more + amount)) (remove_stake decimals address amount s)
  unfolding remove_stake
  remove_stake-Owing tokens more address amount s enough a =
      let within : amount ≤ s.total_staked.staked =
        omega (arith, stake_le address s.stakes, a.deposited, enough) in
      follow
        (earned-Returns decimals fixed s.total_staked.power (info_of decimals address s)
          (Below-lookup fixed (power_of fixed s) address s.stakes a.touched))
        λ p e.
          rw
            (
              checked_sub_lem s.total_staked.staked amount within,
              checked_sub_lem (info_of decimals address s).stake amount enough,
            )
            (returns (
              Account-set_stake fixed tokens more (more + amount) address
                ((info_of decimals address s).stake - amount) (s.total_staked.staked - amount) p s a
                (omega (arith, within, enough)) (omega (arith, within)) e))

  -- A state that differs in the fees that wait only.
  refeed :
      (tokens more more' t q : ℕ) (s : State D)
      → Account fixed tokens more s
      → fees_of fixed s + more ≡ t + q + more'
      → Account fixed tokens more' (record s {
        total_staked = record {
          staked = s.total_staked.staked;
          pending_treasury_rewards = t;
          pending_syne_staking_rewards = q;
          power = s.total_staked.power;
        };
      })
  refeed tokens more more' t q s a h = record {
    deposited = a.deposited;
    touched = a.touched;
    covered = omega (
      arith,
      a.covered,
      times_unit fixed (liabilities fixed s more) (s.total_staked.staked + t + q + more')
          (omega (arith, h)),
    );
    fees_fit = a.fees_fit;
  }

  pub update_treasury_amounts-Owing :
      (tokens more sender : ℕ) (wanted : Option ℕ) (s : State D)
      → Account fixed tokens more s
      → Returns (Owing tokens more) (update_treasury_amounts sender wanted s)
  unfolding update_treasury_amounts
  update_treasury_amounts-Owing tokens more sender wanted s a =
      let amount = get_or wanted s.total_staked.pending_treasury_rewards in
      let pending = s.total_staked.pending_treasury_rewards in
      step (ensure (sender == s.config.bloop_converter_and_staker) unauthorized) λ _ _.
        step (ensure (leb amount pending) invalid_amount) λ _ _.
          step (ok_or (checked_sub pending amount) aborted) λ left e. returns (
            refeed tokens more (more + amount) left s.total_staked.pending_syne_staking_rewards s a
              (omega (
                arith,
                checked_sub-eq-some pending amount
                    (ok_or-eq-ok (checked_sub pending amount) aborted e),
              )))

  pub update_syne_staking_amounts-Owing :
      (tokens more sender : ℕ) (wanted : Option ℕ) (s : State D)
      → Account fixed tokens more s
      → Returns (Owing tokens more) (update_syne_staking_amounts sender wanted s)
  unfolding update_syne_staking_amounts
  update_syne_staking_amounts-Owing tokens more sender wanted s a =
      let amount = get_or wanted s.total_staked.pending_syne_staking_rewards in
      let pending = s.total_staked.pending_syne_staking_rewards in
      step (ensure (sender == s.config.bloop_converter_and_staker) unauthorized) λ _ _.
        step (ensure (leb amount pending) invalid_amount) λ _ _.
          step (ok_or (checked_sub pending amount) aborted) λ left e. returns (
            refeed tokens more (more + amount) s.total_staked.pending_treasury_rewards left s a (
              omega (
                arith,
                checked_sub-eq-some pending amount
                    (ok_or-eq-ok (checked_sub pending amount) aborted e),
              )))

  -- The power after a reward: it grows by no more than the stakes can share of the reward.
  raise_power-Returns :
      (amount t q : ℕ) (info : TokenInfo D)
      → (t + q) * fixed.unit ≤ amount * fixed.unit
      → Returns
          (λ p.
            (fixed.atomics info.power ≤ fixed.atomics p)
            × (fixed.atomics p * info.staked + (t + q) * fixed.unit
                ≤ fixed.atomics info.power * info.staked + amount * fixed.unit))
          (raise_power decimals amount t q info)
  raise_power-Returns amount t q info fit =
      branch (ltb 0 info.staked)
        (follow (gain-Returns decimals fixed amount t q info.staked) λ g share.
          finally (decimals.add info.power g) aborted λ p e.
            let sum = fixed.atomics_add info.power g p e in
            (
              omega (arith, sum),
              omega (
                arith,
                share,
                ap (λ k. k * info.staked) sum,
                add-mul (fixed.atomics info.power) (fixed.atomics g) info.staked,
              ),
            ))
        (returns (omega arith, omega (arith, fit)))

  -- A state with the fees and the power after a reward.
  rewarded :
      (tokens more amount t q treasury syne : ℕ) (p : D) (s : State D)
      → Account fixed tokens (more + amount) s
      → treasury ≡ s.total_staked.pending_treasury_rewards + t
      → syne ≡ s.total_staked.pending_syne_staking_rewards + q
      → fixed.atomics s.total_staked.power ≤ fixed.atomics p
      → fixed.atomics p * s.total_staked.staked + (t + q) * fixed.unit
        ≤ power_of fixed s * s.total_staked.staked + amount * fixed.unit
      → Account fixed tokens more (record s {
        total_staked = record {
          staked = s.total_staked.staked;
          pending_treasury_rewards = treasury;
          pending_syne_staking_rewards = syne;
          power = p;
        };
      })
  rewarded tokens more amount t q treasury syne p s a treasury_eq syne_eq grown shared = record {
    deposited = a.deposited;
    touched = Below-raise fixed (power_of fixed s) (fixed.atomics p) s.stakes grown a.touched;
    covered = omega (
      arith,
      a.covered,
      shared,
      add-mul (liabilities fixed s more) amount fixed.unit,
      times_unit fixed (liabilities fixed s (more + amount)) (liabilities fixed s more + amount)
          (omega arith),
      add-mul (liabilities fixed s more) (t + q) fixed.unit,
      times_unit fixed (s.total_staked.staked + treasury + syne + more)
          (liabilities fixed s more + (t + q)) (omega (arith, treasury_eq, syne_eq)),
    );
    fees_fit = a.fees_fit;
  }

  -- A reward that arrives is owed as fees and as rewards of the stakers.
  pub update_total_rewards-Account :
      (tokens more amount : ℕ) (s : State D)
      → Account fixed tokens (more + amount) s
      → Returns (Account fixed tokens more) (update_total_rewards decimals amount s)
  unfolding update_total_rewards
  update_total_rewards-Account tokens more amount s a =
      follow (fee_of-Returns decimals fixed amount s.config.treasury_fee) λ t t_le.
        follow (fee_of-Returns decimals fixed amount s.config.syne_staking_fee) λ q q_le.
          step (ok_or (add128 s.total_staked.pending_treasury_rewards t) aborted)
            λ treasury treasury_eq.
              step (ok_or (add128 s.total_staked.pending_syne_staking_rewards q) aborted)
                λ syne syne_eq.
                  follow
                    (raise_power-Returns amount t q s.total_staked (
                      omega (
                        arith,
                        t_le,
                        q_le,
                        add-mul t q fixed.unit,
                        mul-add amount (fixed.atomics s.config.treasury_fee)
                            (fixed.atomics s.config.syne_staking_fee),
                        mul-le-mul_left amount a.fees_fit,
                      )))
                    λ p (grown, shared). returns (
                      rewarded tokens more amount t q treasury syne p s a
                        (add_within-eq-some u128_mod s.total_staked.pending_treasury_rewards t (
                          ok_or-eq-ok (add128 s.total_staked.pending_treasury_rewards t) aborted
                            treasury_eq)).0
                        (add_within-eq-some u128_mod s.total_staked.pending_syne_staking_rewards q (
                          ok_or-eq-ok (add128 s.total_staked.pending_syne_staking_rewards q) aborted
                            syne_eq)).0
                        grown shared)
