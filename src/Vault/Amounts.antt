-- ===== src/Vault/Amounts.antt =====
-- The bookkeeping of contracts/bloop-vault/src/contract.rs: the power that rewards add for each
-- staked token, and what a staker is paid when the stake is touched.
use synergistic_juno_contrac.Base.{
  ℕ, Option, ltb, leb, ◌==◌, if◌then◌else◌, Result, ok, ◌>>=◌, ◌>>◌, ensure, ok_or, get_or,
}
use synergistic_juno_contrac.Base.Checked.{add128, checked_sub}
use synergistic_juno_contrac.Base.Dict.{lookup, insert}
use synergistic_juno_contrac.Vault.{
  Decimals, Error, aborted, unauthorized, invalid_amount, TokenInfo, StakingInfo, State,
}

module _ {D : Type 0} (decimals : Decimals D) where
  -- `StakingInfo::default()`
  abbrev pub default_info : StakingInfo D
  default_info = record { stake = 0; power_diff = decimals.zero; syne_power = decimals.zero }

  -- `Decimal::from_atomics(amount, 0).unwrap().checked_mul(fee).unwrap().to_uint_floor()`
  abbrev pub fee_of : ℕ → D → Result Error ℕ
  fee_of amount fee = do
    whole_amount ← ok_or (decimals.whole amount) aborted
    product ← ok_or (decimals.mul whole_amount fee) aborted
    ok (decimals.floor product)

  -- What each staked token gains by a reward.
  abbrev pub gain : ℕ → ℕ → ℕ → ℕ → Result Error D
  gain amount treasury_rewards syne_staking_rewards staked = do
    rest ← ok_or (checked_sub amount treasury_rewards) aborted
    shared ← ok_or (checked_sub rest syne_staking_rewards) aborted
    whole_shared ← ok_or (decimals.whole shared) aborted
    whole_staked ← ok_or (decimals.whole staked) aborted
    ok_or (decimals.div whole_shared whole_staked) aborted

  abbrev pub raised : D → Result Error D → Result Error D
  raised power gaining = do gained ← gaining; ok_or (decimals.add power gained) aborted

  abbrev pub raise_power : ℕ → ℕ → ℕ → TokenInfo D → Result Error D
  raise_power amount treasury_rewards syne_staking_rewards t =
      if ltb 0 t.staked
      then raised t.power (gain amount treasury_rewards syne_staking_rewards t.staked)
      else ok t.power

  unfoldable pub update_total_rewards : ℕ → State D → Result Error (State D)
  update_total_rewards amount s = do
    treasury_rewards ← fee_of amount s.config.treasury_fee
    syne_staking_rewards ← fee_of amount s.config.syne_staking_fee
    treasury ← ok_or (add128 s.total_staked.pending_treasury_rewards treasury_rewards) aborted
    syne_staking ←
        ok_or (add128 s.total_staked.pending_syne_staking_rewards syne_staking_rewards) aborted
    new_power ← raise_power amount treasury_rewards syne_staking_rewards s.total_staked
    ok (record s {
      total_staked = record {
        staked = s.total_staked.staked;
        pending_treasury_rewards = treasury;
        pending_syne_staking_rewards = syne_staking;
        power = new_power;
      };
    })

  -- `total.power.checked_sub(diff).unwrap_or_default().checked_mul(stake).unwrap_or_default()`
  abbrev pub earned : D → StakingInfo D → Result Error ℕ
  earned power info = do
    whole_stake ← ok_or (decimals.whole info.stake) aborted
    ok (
        decimals.floor (
          get_or
            (decimals.mul (get_or (decimals.sub power info.power_diff) decimals.zero) whole_stake)
            decimals.zero))

  abbrev pub info_of : ℕ → State D → StakingInfo D
  info_of address s = get_or (lookup address s.stakes) default_info

  -- The write that the three functions below share: the stake, and the power it was touched at.
  abbrev pub set_stake : ℕ → ℕ → ℕ → State D → State D
  set_stake address own all s = record s {
    stakes =
        insert address
          (record {
            stake = own;
            power_diff = s.total_staked.power;
            syne_power = (info_of address s).syne_power;
          })
          s.stakes;
    total_staked = record {
      staked = all;
      pending_treasury_rewards = s.total_staked.pending_treasury_rewards;
      pending_syne_staking_rewards = s.total_staked.pending_syne_staking_rewards;
      power = s.total_staked.power;
    };
  }

  unfoldable pub update_rewards : ℕ → State D → Result Error (State D × ℕ)
  update_rewards address s = do
    pending ← earned s.total_staked.power (info_of address s)
    ok (set_stake address (info_of address s).stake s.total_staked.staked s, pending)

  unfoldable pub add_stake : ℕ → ℕ → State D → Result Error (State D × ℕ)
  add_stake address amount s = do
    pending ← earned s.total_staked.power (info_of address s)
    ok (
      set_stake address (get_or (add128 (info_of address s).stake amount) 0)
          (get_or (add128 s.total_staked.staked amount) 0) s,
      pending,
    )

  unfoldable pub remove_stake : ℕ → ℕ → State D → Result Error (State D × ℕ)
  remove_stake address amount s = do
    pending ← earned s.total_staked.power (info_of address s)
    ok (
      set_stake address (get_or (checked_sub (info_of address s).stake amount) 0)
          (get_or (checked_sub s.total_staked.staked amount) 0) s,
      pending,
    )

module _ {D : Type 0} where
  unfoldable pub update_treasury_amounts : ℕ → Option ℕ → State D → Result Error (State D × ℕ)
  update_treasury_amounts sender wanted s = do
    ensure (sender == s.config.bloop_converter_and_staker) unauthorized
    let amount = get_or wanted s.total_staked.pending_treasury_rewards
    ensure (leb amount s.total_staked.pending_treasury_rewards) invalid_amount
    left ← ok_or (checked_sub s.total_staked.pending_treasury_rewards amount) aborted
    ok (
      record s {
        total_staked = record {
          staked = s.total_staked.staked;
          pending_treasury_rewards = left;
          pending_syne_staking_rewards = s.total_staked.pending_syne_staking_rewards;
          power = s.total_staked.power;
        };
      },
      amount,
    )

  unfoldable pub update_syne_staking_amounts : ℕ → Option ℕ → State D → Result Error (State D × ℕ)
  update_syne_staking_amounts sender wanted s = do
    ensure (sender == s.config.bloop_converter_and_staker) unauthorized
    let amount = get_or wanted s.total_staked.pending_syne_staking_rewards
    ensure (leb amount s.total_staked.pending_syne_staking_rewards) invalid_amount
    left ← ok_or (checked_sub s.total_staked.pending_syne_staking_rewards amount) aborted
    ok (
      record s {
        total_staked = record {
          staked = s.total_staked.staked;
          pending_treasury_rewards = s.total_staked.pending_treasury_rewards;
          pending_syne_staking_rewards = left;
          power = s.total_staked.power;
        };
      },
      amount,
    )
