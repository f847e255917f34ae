-- ===== src/Vesting/Supply/Messages.antt =====
-- Every message of cw20-vesting keeps the sum of the balances equal to the total supply.
use synergistic_juno_contrac.Base.{
  ℕ, ◌≡◌, Option, List, ok, Returns, returns, raises, step, branch, ok_or, returned,
}
use synergistic_juno_contrac.Base.Checked.{checked_sub}
use synergistic_juno_contrac.Base.Dict.{insert, amount_of}
use synergistic_juno_contrac.Curve.{Curve}
use synergistic_juno_contrac.Vesting.{
  Text, Addr, Block, Chain, State, Message, Logo, not_enough_to_delegate, Error,
}
use synergistic_juno_contrac.Vesting.Coins.{credit}
use synergistic_juno_contrac.Vesting.Allowances.{
  execute_increase_allowance, execute_decrease_allowance, execute_transfer_from, execute_burn_from,
  execute_send_from,
}
use synergistic_juno_contrac.Vesting.Transfers.{
  execute_transfer, execute_transfer_vesting, execute_burn, execute_mint, execute_update_minter,
  execute_send,
}
use synergistic_juno_contrac.Vesting.Delegation.{
  execute_update_staking_address, execute_delegate, execute_undelegate,
}
use synergistic_juno_contrac.Vesting.AllowList.{execute_add_address, execute_remove_address}
use synergistic_juno_contrac.Vesting.Marketing.{execute_update_marketing, execute_upload_logo}
use synergistic_juno_contrac.Vesting.Execute.{
  ExecuteMsg, transfer, transfer_vesting, burn, send, increase_allowance, decrease_allowance,
  transfer_from, send_from, burn_from, mint, update_minter, update_marketing, upload_logo,
  allow_vester, deny_vester, update_staking_address, delegate, undelegate, execute,
}
use synergistic_juno_contrac.Vesting.Supply.{
  Balanced, deduct_coins-Owes, credit-Balanced, reduce_supply-Balanced, deduct_allowance-Balanced,
  store_schedule-Balanced, minted-Owes, delegated-Balanced,
}

module _ {E : Type 0} (chain : Chain E) where
  ruleset supply_rules = (
    step, returns, raises, branch, deduct_coins-Owes, credit-Balanced, reduce_supply-Balanced,
    deduct_allowance-Balanced, store_schedule-Balanced, minted-Owes, delegated-Balanced,
  )

  -- A successful handler leaves a balanced state.
  abbrev BalancedAfter : State E × List Message → Type 0
  BalancedAfter r = Balanced chain r.0

  execute_transfer-Balanced :
      (block : Block) (sender : Addr) (recipient : Text) (amount : ℕ) (s : State E)
      → Balanced chain s
      → Returns BalancedAfter (execute_transfer chain block sender recipient amount s)
  unfolding execute_transfer
  execute_transfer-Balanced block sender recipient amount s b = search supply_rules depth 14

  execute_transfer_vesting-Balanced :
      (block : Block) (sender : Addr) (recipient : Text) (amount : ℕ) (c : Curve) (s : State E)
      → Balanced chain s
      → Returns BalancedAfter (execute_transfer_vesting chain block sender recipient amount c s)
  unfolding execute_transfer_vesting
  execute_transfer_vesting-Balanced block sender recipient amount c s b =
      search supply_rules depth 14

  execute_burn-Balanced :
      (block : Block) (sender : Addr) (amount : ℕ) (s : State E)
      → Balanced chain s
      → Returns BalancedAfter (execute_burn chain block sender amount s)
  unfolding execute_burn
  execute_burn-Balanced block sender amount s b = search supply_rules depth 14

  execute_mint-Balanced :
      (block : Block) (sender : Addr) (recipient : Text) (amount : ℕ) (s : State E)
      → Balanced chain s
      → Returns BalancedAfter (execute_mint chain block sender recipient amount s)
  unfolding execute_mint
  execute_mint-Balanced block sender recipient amount s b = search supply_rules depth 14

  execute_update_minter-Balanced :
      (sender : Addr) (minter : Text) (s : State E)
      → Balanced chain s
      → Returns BalancedAfter (execute_update_minter chain sender minter s)
  unfolding execute_update_minter
  execute_update_minter-Balanced sender minter s b = search supply_rules depth 14

  execute_send-Balanced :
      (block : Block) (sender : Addr) (contract : Text) (amount : ℕ) (msg : List ℕ) (s : State E)
      → Balanced chain s
      → Returns BalancedAfter (execute_send chain block sender contract amount msg s)
  unfolding execute_send
  execute_send-Balanced block sender contract amount msg s b = search supply_rules depth 14

  execute_increase_allowance-Balanced :
      (sender : Addr) (spender : Text) (amount : ℕ) (expires : Option E) (s : State E)
      → Balanced chain s
      → Returns BalancedAfter (execute_increase_allowance chain sender spender amount expires s)
  unfolding execute_increase_allowance
  execute_increase_allowance-Balanced sender spender amount expires s b =
      search supply_rules depth 14

  execute_transfer_from-Balanced :
      (block : Block) (sender : Addr) (owner recipient : Text) (amount : ℕ) (s : State E)
      → Balanced chain s
      → Returns BalancedAfter (execute_transfer_from chain block sender owner recipient amount s)
  unfolding execute_transfer_from
  execute_transfer_from-Balanced block sender owner recipient amount s b =
      search supply_rules depth 14

  execute_burn_from-Balanced :
      (block : Block) (sender : Addr) (owner : Text) (amount : ℕ) (s : State E)
      → Balanced chain s
      → Returns BalancedAfter (execute_burn_from chain block sender owner amount s)
  unfolding execute_burn_from
  execute_burn_from-Balanced block sender owner amount s b = search supply_rules depth 14

  execute_send_from-Balanced :
      (block : Block) (sender : Addr) (owner contract : Text) (amount : ℕ) (msg : List ℕ)
      (s : State E)
      → Balanced chain s
      → Returns BalancedAfter (execute_send_from chain block sender owner contract amount msg s)
  unfolding execute_send_from
  execute_send_from-Balanced block sender owner contract amount msg s b =
      search supply_rules depth 14

  delegated_last :
      (s s' : State E) (sender rcpt : Addr) (amount left sum : ℕ) (ms : List Message)
      → Balanced chain s
      → ok_or (checked_sub (amount_of sender s.balances) amount) not_enough_to_delegate ≡ ok left
      → credit rcpt amount (record s { balances = insert sender left s.balances }) ≡ ok s'
      → Returns {E = Error} BalancedAfter
          (ok (record s' { delegated = insert sender sum s'.delegated }, ms))
  delegated_last s s' sender rcpt amount left sum ms b e c =
      returns (delegated-Balanced chain s s' sender rcpt amount left e c b)

  execute_delegate-Balanced :
      (sender : Addr) (amount : ℕ) (msg : List ℕ) (s : State E)
      → Balanced chain s
      → Returns BalancedAfter (execute_delegate chain sender amount msg s)
  unfolding execute_delegate
  execute_delegate-Balanced sender amount msg s b = search (step, delegated_last) depth 14

  execute_undelegate-Balanced :
      (block : Block) (sender : Addr) (recipient : Text) (amount : ℕ) (s : State E)
      → Balanced chain s
      → Returns BalancedAfter (execute_undelegate chain block sender recipient amount s)
  unfolding execute_undelegate
  execute_undelegate-Balanced block sender recipient amount s b = search supply_rules depth 14

  execute_add_address-Balanced :
      (sender : Addr) (address : Text) (s : State E)
      → Balanced chain s
      → Returns BalancedAfter (execute_add_address chain sender address s)
  unfolding execute_add_address
  execute_add_address-Balanced sender address s b = search supply_rules depth 14

  execute_remove_address-Balanced :
      (sender : Addr) (address : Text) (s : State E)
      → Balanced chain s
      → Returns BalancedAfter (execute_remove_address chain sender address s)
  unfolding execute_remove_address
  execute_remove_address-Balanced sender address s b = search supply_rules depth 14

  execute_upload_logo-Balanced :
      (sender : Addr) (logo : Logo) (s : State E)
      → Balanced chain s
      → Returns BalancedAfter (execute_upload_logo chain sender logo s)
  unfolding execute_upload_logo
  execute_upload_logo-Balanced sender logo s b = search supply_rules depth 14

  execute_update_marketing-Balanced :
      (sender : Addr) (project description marketing : Option Text) (s : State E)
      → Balanced chain s
      → Returns BalancedAfter
          (execute_update_marketing chain sender project description marketing s)
  unfolding execute_update_marketing
  execute_update_marketing-Balanced sender project description marketing s b =
      search supply_rules depth 14

  execute_decrease_allowance-Balanced :
      (sender : Addr) (spender : Text) (amount : ℕ) (expires : Option E) (s : State E)
      → Balanced chain s
      → Returns BalancedAfter (execute_decrease_allowance chain sender spender amount expires s)
  unfolding execute_decrease_allowance
  execute_decrease_allowance-Balanced sender spender amount expires s b =
      search supply_rules depth 14

  execute_update_staking_address-Balanced :
      (sender : Addr) (staking : Text) (s : State E)
      → Balanced chain s
      → Returns BalancedAfter (execute_update_staking_address chain sender staking s)
  unfolding execute_update_staking_address
  execute_update_staking_address-Balanced sender staking s b = search supply_rules depth 14

  handled :
      (block : Block) (sender : Addr) (msg : ExecuteMsg E) (s : State E)
      → Balanced chain s
      → Returns BalancedAfter (execute chain block sender msg s)
  unfolding execute
  handled block sender (transfer r a) s b = execute_transfer-Balanced block sender r a s b
  handled block sender (transfer_vesting r a c) s b =
      execute_transfer_vesting-Balanced block sender r a c s b
  handled block sender (burn a) s b = execute_burn-Balanced block sender a s b
  handled block sender (send c a m) s b = execute_send-Balanced block sender c a m s b
  handled block sender (increase_allowance p a e) s b =
      execute_increase_allowance-Balanced sender p a e s b
  handled block sender (decrease_allowance p a e) s b =
      execute_decrease_allowance-Balanced sender p a e s b
  handled block sender (transfer_from o r a) s b =
      execute_transfer_from-Balanced block sender o r a s b
  handled block sender (send_from o c a m) s b = execute_send_from-Balanced block sender o c a m s b
  handled block sender (burn_from o a) s b = execute_burn_from-Balanced block sender o a s b
  handled block sender (mint r a) s b = execute_mint-Balanced block sender r a s b
  handled block sender (update_minter m) s b = execute_update_minter-Balanced sender m s b
  handled block sender (update_marketing p d m) s b =
      execute_update_marketing-Balanced sender p d m s b
  handled block sender (upload_logo l) s b = execute_upload_logo-Balanced sender l s b
  handled block sender (allow_vester a) s b = execute_add_address-Balanced sender a s b
  handled block sender (deny_vester a) s b = execute_remove_address-Balanced sender a s b
  handled block sender (update_staking_address a) s b =
      execute_update_staking_address-Balanced sender a s b
  handled block sender (delegate a m) s b = execute_delegate-Balanced sender a m s b
  handled block sender (undelegate r a) s b = execute_undelegate-Balanced block sender r a s b

  -- Every message, from any sender at any time, that succeeds on a state whose balances sum to
  -- the total supply leaves such a state.
  pub execute-Balanced :
      (block : Block) (sender : Addr) (msg : ExecuteMsg E) (s s' : State E) (ms : List Message)
      → execute chain block sender msg s ≡ ok (s', ms)
      → Balanced chain s
      → Balanced chain s'
  execute-Balanced block sender msg s s' ms h b = returned (handled block sender msg s b) h
