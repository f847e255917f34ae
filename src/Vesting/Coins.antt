-- ===== src/Vesting/Coins.antt =====
-- contracts/cw20-vesting/src/state.rs: `deduct_coins`, which every debit but a delegation goes
-- through, and the updates of balances that the handlers share.
use synergistic_juno_contrac.Base.{
  ℕ, Option, none, some, ltb, ◌==◌, if◌then◌else◌, Result, ok, ◌>>=◌, ◌>>◌, reject_if, ok_or,
}
use synergistic_juno_contrac.Base.Checked.{add128, checked_sub}
use synergistic_juno_contrac.Base.Dict.{insert, amount_of}
use synergistic_juno_contrac.Curve.{Curve}
use synergistic_juno_contrac.Curve.Value.{value}
use synergistic_juno_contrac.Vesting.{
  Addr, Block, State, Error, std, overflow, cant_move_vesting_tokens, aborted,
}

-- Writing one key of a map.
abbrev pub update {ℓ} : {V : Type ℓ} → (ℕ → V) → ℕ → V → ℕ → V
update f k v j = if k == j then v else f j

-- How much of an account is locked at a time: 0 with no schedule.
unfoldable pub locked : Option Curve → ℕ → Result Error ℕ
locked none t = ok 0
locked (some c) t = ok_or (value c t) aborted

module _ {E : Type 0} where
  -- A curve that has reached 0 is deleted.
  abbrev pub prune : ℕ → Addr → State E → State E
  prune vesting sender s = record s {
    vesting = if vesting == 0 then update s.vesting sender none else s.vesting;
  }

  unfoldable pub deduct_coins : Block → Addr → ℕ → State E → Result Error (State E)
  unfolding locked
  deduct_coins block sender amount s = do
    vesting ← locked (s.vesting sender) block.time
    let balance = amount_of sender s.balances
    held ← ok_or (add128 balance (amount_of sender s.delegated)) aborted
    remainder ← ok_or (checked_sub held amount) (std overflow)
    reject_if (ltb remainder vesting) cant_move_vesting_tokens
    left ← ok_or (checked_sub balance amount) (std overflow)
    ok (record (prune vesting sender s) { balances = insert sender left s.balances })

  -- `BALANCES.update(.., |b| b.unwrap_or_default() + amount)`
  unfoldable pub credit : Addr → ℕ → State E → Result Error (State E)
  credit rcpt amount s = do
    sum ← ok_or (add128 (amount_of rcpt s.balances) amount) aborted
    ok (record s { balances = insert rcpt sum s.balances })

  -- `TOKEN_INFO.update(.., |i| i.total_supply.checked_sub(amount)?)`
  unfoldable pub reduce_supply : ℕ → State E → Result Error (State E)
  reduce_supply amount s = do
    supply ← ok_or (checked_sub s.token_info.total_supply amount) (std overflow)
    ok (record s { token_info = record (s.token_info) { total_supply = supply } })
