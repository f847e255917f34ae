-- ===== src/Vesting/Enforced/Messages.antt =====
-- Every message of cw20-vesting enforces the vesting schedules.
use synergistic_juno_contrac.Base.{
  ℕ, ◌≡◌, Option, List, ok, arith, inl, Returns, returns, step, branch, returned,
}
use synergistic_juno_contrac.Curve.{Curve}
use synergistic_juno_contrac.Vesting.{Text, Addr, Block, Chain, State, Message, Logo}
use synergistic_juno_contrac.Vesting.Allowances.{
  execute_increase_allowance, execute_decrease_allowance, execute_transfer_from, execute_burn_from,
  execute_send_from,
}
use synergistic_juno_contrac.Vesting.Transfers.{
  execute_transfer, execute_transfer_vesting, execute_burn, execute_mint, execute_update_minter,
  execute_send,
}
use synergistic_juno_contrac.Vesting.Delegation.{
  execute_update_staking_address, execute_delegate, execute_undelegate,
}
use synergistic_juno_contrac.Vesting.AllowList.{execute_add_address, execute_remove_address}
use synergistic_juno_contrac.Vesting.Marketing.{execute_update_marketing, execute_upload_logo}
use synergistic_juno_contrac.Vesting.Execute.{
  ExecuteMsg, transfer, transfer_vesting, burn, send, increase_allowance, decrease_allowance,
  transfer_from, send_from, burn_from, mint, update_minter, update_marketing, upload_logo,
  allow_vester, deny_vester, update_staking_address, delegate, undelegate, execute,
}
use synergistic_juno_contrac.Vesting.Enforced.{
  Enforced, credit-Enforced, deduct_coins-Enforced, reduce_supply-Enforced, deduct_allowed-Enforced,
  minted-Enforced, vesting_transfer-Enforced, delegate-Enforced, undelegate-Enforced,
}

module _ {E : Type 0} (chain : Chain E) (block : Block) (a : Addr) where
  abbrev EnforcedAfter : State E → State E × List Message → Type 0
  EnforcedAfter s r = Enforced block a s r.0

  unchanged : (s : State E) → Enforced block a s s
  unchanged s = inl (omega arith)

  ruleset enforced_rules = (
    step, returns, branch, deduct_coins-Enforced, credit-Enforced, reduce_supply-Enforced,
    deduct_allowed-Enforced, minted-Enforced, vesting_transfer-Enforced, delegate-Enforced,
    undelegate-Enforced,
  )

  execute_transfer-Enforced :
      (sender : Addr) (recipient : Text) (amount : ℕ) (s : State E)
      → Returns (EnforcedAfter s) (execute_transfer chain block sender recipient amount s)
  unfolding execute_transfer
  execute_transfer-Enforced sender recipient amount s = search enforced_rules depth 14

  execute_transfer_vesting-Enforced :
      (sender : Addr) (recipient : Text) (amount : ℕ) (c : Curve) (s : State E)
      → Returns (EnforcedAfter s) (execute_transfer_vesting chain block sender recipient amount c s)
  unfolding execute_transfer_vesting
  execute_transfer_vesting-Enforced sender recipient amount c s = search enforced_rules depth 14

  execute_burn-Enforced :
      (sender : Addr) (amount : ℕ) (s : State E)
      → Returns (EnforcedAfter s) (execute_burn chain block sender amount s)
  unfolding execute_burn
  execute_burn-Enforced sender amount s = search enforced_rules depth 14

  execute_mint-Enforced :
      (sender : Addr) (recipient : Text) (amount : ℕ) (s : State E)
      → Returns (EnforcedAfter s) (execute_mint chain block sender recipient amount s)
  unfolding execute_mint
  execute_mint-Enforced sender recipient amount s = search enforced_rules depth 14

  execute_update_minter-Enforced :
      (sender : Addr) (minter : Text) (s : State E)
      → Returns (EnforcedAfter s) (execute_update_minter chain sender minter s)
  unfolding execute_update_minter
  execute_update_minter-Enforced sender minter s = search (step, returns, unchanged) depth 14

  execute_send-Enforced :
      (sender : Addr) (contract : Text) (amount : ℕ) (msg : List ℕ) (s : State E)
      → Returns (EnforcedAfter s) (execute_send chain block sender contract amount msg s)
  unfolding execute_send
  execute_send-Enforced sender contract amount msg s = search enforced_rules depth 14

  execute_increase_allowance-Enforced :
      (sender : Addr) (spender : Text) (amount : ℕ) (expires : Option E) (s : State E)
      → Returns (EnforcedAfter s) (execute_increase_allowance chain sender spender amount expires s)
  unfolding execute_increase_allowance
  execute_increase_allowance-Enforced sender spender amount expires s =
      search (step, returns, unchanged) depth 14

  execute_decrease_allowance-Enforced :
      (sender : Addr) (spender : Text) (amount : ℕ) (expires : Option E) (s : State E)
      → Returns (EnforcedAfter s) (execute_decrease_allowance chain sender spender amount expires s)
  unfolding execute_decrease_allowance
  execute_decrease_allowance-Enforced sender spender amount expires s =
      search (step, returns, branch, unchanged) depth 14

  execute_transfer_from-Enforced :
      (sender : Addr) (owner recipient : Text) (amount : ℕ) (s : State E)
      → Returns
          (EnforcedAfter s)
          (execute_transfer_from chain block sender owner recipient amount s)
  unfolding execute_transfer_from
  execute_transfer_from-Enforced sender owner recipient amount s = search enforced_rules depth 14

  execute_burn_from-Enforced :
      (sender : Addr) (owner : Text) (amount : ℕ) (s : State E)
      → Returns (EnforcedAfter s) (execute_burn_from chain block sender owner amount s)
  unfolding execute_burn_from
  execute_burn_from-Enforced sender owner amount s = search enforced_rules depth 14

  execute_send_from-Enforced :
      (sender : Addr) (owner contract : Text) (amount : ℕ) (msg : List ℕ) (s : State E)
      → Returns (EnforcedAfter s) (execute_send_from chain block sender owner contract amount msg s)
  unfolding execute_send_from
  execute_send_from-Enforced sender owner contract amount msg s = search enforced_rules depth 14

  execute_update_staking_address-Enforced :
      (sender : Addr) (staking : Text) (s : State E)
      → Returns (EnforcedAfter s) (execute_update_staking_address chain sender staking s)
  unfolding execute_update_staking_address
  execute_update_staking_address-Enforced sender staking s =
      search (step, returns, unchanged) depth 14

  execute_delegate-Enforced :
      (sender : Addr) (amount : ℕ) (msg : List ℕ) (s : State E)
      → Returns (EnforcedAfter s) (execute_delegate chain sender amount msg s)
  unfolding execute_delegate
  execute_delegate-Enforced sender amount msg s = search enforced_rules depth 14

  execute_undelegate-Enforced :
      (sender : Addr) (recipient : Text) (amount : ℕ) (s : State E)
      → Returns (EnforcedAfter s) (execute_undelegate chain block sender recipient amount s)
  unfolding execute_undelegate
  execute_undelegate-Enforced sender recipient amount s = search enforced_rules depth 14

  execute_add_address-Enforced :
      (sender : Addr) (address : Text) (s : State E)
      → Returns (EnforcedAfter s) (execute_add_address chain sender address s)
  unfolding execute_add_address
  execute_add_address-Enforced sender address s = search (step, returns, unchanged) depth 14

  execute_remove_address-Enforced :
      (sender : Addr) (address : Text) (s : State E)
      → Returns (EnforcedAfter s) (execute_remove_address chain sender address s)
  unfolding execute_remove_address
  execute_remove_address-Enforced sender address s = search (step, returns, unchanged) depth 14

  execute_upload_logo-Enforced :
      (sender : Addr) (logo : Logo) (s : State E)
      → Returns (EnforcedAfter s) (execute_upload_logo chain sender logo s)
  unfolding execute_upload_logo
  execute_upload_logo-Enforced sender logo s = search (step, returns, unchanged) depth 14

  execute_update_marketing-Enforced :
      (sender : Addr) (project description marketing : Option Text) (s : State E)
      → Returns
          (EnforcedAfter s)
          (execute_update_marketing chain sender project description marketing s)
  unfolding execute_update_marketing
  execute_update_marketing-Enforced sender project description marketing s =
      search (step, returns, unchanged) depth 14

  handled :
      (sender : Addr) (msg : ExecuteMsg E) (s : State E)
      → Returns (EnforcedAfter s) (execute chain block sender msg s)
  unfolding execute
  handled sender (transfer r x) s = execute_transfer-Enforced sender r x s
  handled sender (transfer_vesting r x c) s = execute_transfer_vesting-Enforced sender r x c s
  handled sender (burn x) s = execute_burn-Enforced sender x s
  handled sender (send c x m) s = execute_send-Enforced sender c x m s
  handled sender (increase_allowance p x e) s = execute_increase_allowance-Enforced sender p x e s
  handled sender (decrease_allowance p x e) s = execute_decrease_allowance-Enforced sender p x e s
  handled sender (transfer_from o r x) s = execute_transfer_from-Enforced sender o r x s
  handled sender (send_from o c x m) s = execute_send_from-Enforced sender o c x m s
  handled sender (burn_from o x) s = execute_burn_from-Enforced sender o x s
  handled sender (mint r x) s = execute_mint-Enforced sender r x s
  handled sender (update_minter m) s = execute_update_minter-Enforced sender m s
  handled sender (update_marketing p d m) s = execute_update_marketing-Enforced sender p d m s
  handled sender (upload_logo l) s = execute_upload_logo-Enforced sender l s
  handled sender (allow_vester t) s = execute_add_address-Enforced sender t s
  handled sender (deny_vester t) s = execute_remove_address-Enforced sender t s
  handled sender (update_staking_address t) s = execute_update_staking_address-Enforced sender t s
  handled sender (delegate x m) s = execute_delegate-Enforced sender x m s
  handled sender (undelegate r x) s = execute_undelegate-Enforced sender r x s

  -- Vesting is enforced: after any message that succeeds, from any sender, every account holds,
  -- with what it has delegated, at least as much as before, or at least what its schedule from
  -- before the message still locks at the time of the block.
  pub execute-Enforced :
      (sender : Addr) (msg : ExecuteMsg E) (s s' : State E) (ms : List Message)
      → execute chain block sender msg s ≡ ok (s', ms)
      → Enforced block a s s'
  execute-Enforced sender msg s s' ms h = returned (handled sender msg s) h
