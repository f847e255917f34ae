-- ===== src/Vesting/Supply.antt =====
-- Conservation in cw20-vesting: the sum of all balances is the total supply, after any message.
pub mod Messages
use synergistic_juno_contrac.Base.{
  ℕ, ◌+◌, ◌-◌, ◌≤◌, ◌≡◌, refl, none, some, Option, Result, List, ok, err, arith, >>=-eq-ok,
  Bool-cases, inl, inr, Returns, returns, raises, step, branch, ok_or, returned,
}
use synergistic_juno_contrac.Base.Checked.{add_within, add128, checked_sub}
use synergistic_juno_contrac.Base.Dict.{insert, amount_of, total, total-insert}
use synergistic_juno_contrac.Curve.{Curve}
use synergistic_juno_contrac.Vesting.{
  Text, Addr, Block, Chain, State, Outcome, Message, Logo, aborted, not_enough_to_delegate, Error,
}
use synergistic_juno_contrac.Vesting.Coins.{deduct_coins, credit, reduce_supply}
use synergistic_juno_contrac.Vesting.Ledger.{deduct_coins-Debit, credit-Credit, reduce_supply_lem}
use synergistic_juno_contrac.Vesting.Allowances.{
  validate_addr, deduct_allowance, execute_increase_allowance, execute_decrease_allowance,
  execute_transfer_from, execute_burn_from, execute_send_from,
}
use synergistic_juno_contrac.Vesting.Transfers.{
  store_schedule, execute_transfer, execute_transfer_vesting, execute_burn, execute_mint,
  execute_update_minter, execute_send,
}
use synergistic_juno_contrac.Vesting.Delegation.{
  execute_update_staking_address, execute_delegate, execute_undelegate,
}
use synergistic_juno_contrac.Vesting.AllowList.{execute_add_address, execute_remove_address}
use synergistic_juno_contrac.Vesting.Marketing.{
  load_marketing, execute_update_marketing, execute_upload_logo,
}
use synergistic_juno_contrac.Vesting.Execute.{
  ExecuteMsg, transfer, transfer_vesting, burn, send, increase_allowance, decrease_allowance,
  transfer_from, send_from, burn_from, mint, update_minter, update_marketing, upload_logo,
  allow_vester, deny_vester, update_staking_address, delegate, undelegate, execute,
}

module _ {E : Type 0} (chain : Chain E) where
  -- The sum of all balances is the total supply.
  abbrev pub Balanced : State E → Type 0
  Balanced s = total s.balances ≡ s.token_info.total_supply

  -- `amount` has left the balances, or has been added to the supply, and not been booked yet.
  abbrev pub Owes : ℕ → State E → Type 0
  Owes amount s = total s.balances + amount ≡ s.token_info.total_supply

  pub deduct_coins-Owes :
      (block : Block) (sender : Addr) (amount : ℕ) (s s' : State E)
      → deduct_coins block sender amount s ≡ ok s'
      → Balanced s
      → Owes amount s'
  deduct_coins-Owes block sender amount s s' d b =
      ground (arith, deduct_coins-Debit block sender amount s d)

  pub credit-Balanced :
      (rcpt : Addr) (amount : ℕ) (s s' : State E)
      → credit rcpt amount s ≡ ok s'
      → Owes amount s
      → Balanced s'
  credit-Balanced rcpt amount s s' c o = ground (arith, credit-Credit rcpt amount s c)

  pub reduce_supply-Balanced :
      (amount : ℕ) (s s' : State E) → reduce_supply amount s ≡ ok s' → Owes amount s → Balanced s'
  reduce_supply-Balanced amount s s' r o = ground (arith, reduce_supply_lem amount s r)

  pub deduct_allowance-Balanced :
      (owner spender : Addr) (block : Block) (amount : ℕ) (s s' : State E)
      → deduct_allowance chain owner spender block amount s ≡ ok s'
      → Balanced s
      → Balanced s'
  unfolding deduct_allowance checked_sub
  deduct_allowance-Balanced owner spender block amount s s' d b = ground arith

  pub store_schedule-Balanced :
      (block : Block) (rcpt : Addr) (schedule : Curve) (s s' : State E)
      → store_schedule chain block rcpt schedule s ≡ ok s'
      → Balanced s
      → Balanced s'
  unfolding store_schedule
  store_schedule-Balanced block rcpt schedule s s' d b = ground arith

  -- The new supply of a mint.
  pub minted-Owes :
      (s : State E) (amount supply : ℕ)
      → ok_or (add128 s.token_info.total_supply amount) aborted ≡ ok supply
      → Balanced s
      → Owes amount (record s { token_info = record (s.token_info) { total_supply = supply } })
  unfolding add_within
  minted-Owes s amount supply e b = ground arith

  -- A delegation moves the amount to the staking contract.
  pub delegated-Balanced :
      (s s' : State E) (sender rcpt : Addr) (amount left : ℕ)
      → ok_or (checked_sub (amount_of sender s.balances) amount) not_enough_to_delegate ≡ ok left
      → credit rcpt amount (record s { balances = insert sender left s.balances }) ≡ ok s'
      → Balanced s
      → Balanced s'
  unfolding checked_sub
  delegated-Balanced s s' sender rcpt amount left e c b = ground (
    arith,
    total-insert sender left s.balances,
    credit-Credit rcpt amount (record s { balances = insert sender left s.balances }) c,
  )
