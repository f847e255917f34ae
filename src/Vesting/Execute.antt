-- ===== src/Vesting/Execute.antt =====
-- contracts/cw20-vesting/src/contract.rs: `execute`, over the messages of
-- packages/synedao/src/cw20_vesting.rs.
use synergistic_juno_contrac.Base.{ℕ, Option, List}
use synergistic_juno_contrac.Curve.{Curve}
use synergistic_juno_contrac.Vesting.{Text, Addr, Block, Chain, State, Outcome, Logo}
use synergistic_juno_contrac.Vesting.Allowances.{
  execute_increase_allowance, execute_decrease_allowance, execute_transfer_from, execute_burn_from,
  execute_send_from,
}
use synergistic_juno_contrac.Vesting.Transfers.{
  execute_transfer, execute_transfer_vesting, execute_burn, execute_mint, execute_update_minter,
  execute_send,
}
use synergistic_juno_contrac.Vesting.Delegation.{
  execute_update_staking_address, execute_delegate, execute_undelegate,
}
use synergistic_juno_contrac.Vesting.AllowList.{execute_add_address, execute_remove_address}
use synergistic_juno_contrac.Vesting.Marketing.{execute_update_marketing, execute_upload_logo}

pub data ExecuteMsg (E : Type 0) : Type 0 where
  transfer : Text → ℕ → ExecuteMsg E
  transfer_vesting : Text → ℕ → Curve → ExecuteMsg E
  burn : ℕ → ExecuteMsg E
  send : Text → ℕ → List ℕ → ExecuteMsg E
  increase_allowance decrease_allowance : Text → ℕ → Option E → ExecuteMsg E
  transfer_from : Text → Text → ℕ → ExecuteMsg E
  send_from : Text → Text → ℕ → List ℕ → ExecuteMsg E
  burn_from : Text → ℕ → ExecuteMsg E
  mint : Text → ℕ → ExecuteMsg E
  update_minter : Text → ExecuteMsg E
  update_marketing : Option Text → Option Text → Option Text → ExecuteMsg E
  upload_logo : Logo → ExecuteMsg E
  allow_vester deny_vester update_staking_address : Text → ExecuteMsg E
  delegate : ℕ → List ℕ → ExecuteMsg E
  undelegate : Text → ℕ → ExecuteMsg E

module _ {E : Type 0} (chain : Chain E) where
  unfoldable pub execute : Block → Addr → ExecuteMsg E → State E → Outcome E
  execute block sender (transfer recipient amount) =
      execute_transfer chain block sender recipient amount
  execute block sender (transfer_vesting recipient amount schedule) =
      execute_transfer_vesting chain block sender recipient amount schedule
  execute block sender (burn amount) = execute_burn chain block sender amount
  execute block sender (send contract amount msg) =
      execute_send chain block sender contract amount msg
  execute block sender (increase_allowance spender amount expires) =
      execute_increase_allowance chain sender spender amount expires
  execute block sender (decrease_allowance spender amount expires) =
      execute_decrease_allowance chain sender spender amount expires
  execute block sender (transfer_from owner recipient amount) =
      execute_transfer_from chain block sender owner recipient amount
  execute block sender (send_from owner contract amount msg) =
      execute_send_from chain block sender owner contract amount msg
  execute block sender (burn_from owner amount) = execute_burn_from chain block sender owner amount
  execute block sender (mint recipient amount) = execute_mint chain block sender recipient amount
  execute block sender (update_minter minter) = execute_update_minter chain sender minter
  execute block sender (update_marketing project description marketing) =
      execute_update_marketing chain sender project description marketing
  execute block sender (upload_logo logo) = execute_upload_logo chain sender logo
  execute block sender (allow_vester address) = execute_add_address chain sender address
  execute block sender (deny_vester address) = execute_remove_address chain sender address
  execute block sender (update_staking_address address) =
      execute_update_staking_address chain sender address
  execute block sender (delegate amount msg) = execute_delegate chain sender amount msg
  execute block sender (undelegate recipient amount) =
      execute_undelegate chain block sender recipient amount
