-- ===== src/Vesting/Delegation.antt =====
-- contracts/cw20-vesting/src/contract.rs: delegation to the staking contract.
use synergistic_juno_contrac.Base.{
  ℕ, some, List, [], ◌∷◌, ◌==◌, ok, ◌>>=◌, ◌>>◌, ensure, reject_if, ok_or, is_some,
}
use synergistic_juno_contrac.Base.Checked.{add128, checked_sub}
use synergistic_juno_contrac.Base.Dict.{lookup, insert, amount_of}
use synergistic_juno_contrac.Vesting.{
  Text, Addr, Block, Chain, State, Outcome, receive_delegation, std, overflow, invalid_zero_amount,
  staking_address_not_set, staking_address_already_updated, minter_address_not_set,
  unauthorized_update_staking_address, unauthorized_undelegate, no_tokens_delegated,
  not_enough_to_delegate, aborted,
}
use synergistic_juno_contrac.Vesting.Coins.{deduct_coins, credit}
use synergistic_juno_contrac.Vesting.Allowances.{validate_addr}

module _ {E : Type 0} (chain : Chain E) where
  -- The staking address is set once, by the minter.
  unfoldable pub execute_update_staking_address : Addr → Text → State E → Outcome E
  unfolding validate_addr
  execute_update_staking_address sender staking s = do
    reject_if (is_some s.staking) staking_address_already_updated
    mint ← ok_or s.token_info.mint minter_address_not_set
    ensure (sender == mint.minter) unauthorized_update_staking_address
    staking_address ← validate_addr chain staking
    ok (record s { staking = some staking_address }, [])

  unfoldable pub execute_delegate : Addr → ℕ → List ℕ → State E → Outcome E
  execute_delegate sender amount msg s = do
    reject_if (amount == 0) invalid_zero_amount
    token_address ← ok_or s.staking staking_address_not_set
    left ← ok_or (checked_sub (amount_of sender s.balances) amount) not_enough_to_delegate
    s1 ← credit token_address amount (record s { balances = insert sender left s.balances })
    sum ← ok_or (add128 (amount_of sender s1.delegated) amount) aborted
    ok (
      record s1 { delegated = insert sender sum s1.delegated },
      receive_delegation (chain.addr_text token_address) sender amount msg ∷ [],
    )

  unfoldable pub execute_undelegate : Block → Addr → Text → ℕ → State E → Outcome E
  unfolding validate_addr
  execute_undelegate block sender recipient amount s = do
    reject_if (amount == 0) invalid_zero_amount
    staking ← ok_or s.staking staking_address_not_set
    ensure (staking == sender) unauthorized_undelegate
    rcpt ← validate_addr chain recipient
    old ← ok_or (lookup rcpt s.delegated) no_tokens_delegated
    left ← ok_or (checked_sub old amount) (std overflow)
    s1 ← deduct_coins block sender amount (record s { delegated = insert rcpt left s.delegated })
    s2 ← credit rcpt amount s1
    ok (s2, [])
