-- ===== src/Vesting/Allowances.antt =====
-- contracts/cw20-vesting/src/allowances.rs: allowances, and the handlers that spend them.
use synergistic_juno_contrac.Base.{
  ℕ, Option, none, some, List, [], ◌∷◌, ltb, ◌==◌, if◌then◌else◌, Result, ok, ◌>>=◌, ◌>>◌,
  reject_if, ok_or, get_or,
}
use synergistic_juno_contrac.Base.Checked.{add128, checked_sub}
use synergistic_juno_contrac.Vesting.{
  Text, Addr, Block, Chain, State, Allowance, Error, Outcome, receive, std, overflow, not_found,
  invalid_address, cannot_set_own_account, expired, no_allowance, aborted,
}
use synergistic_juno_contrac.Vesting.Coins.{update, deduct_coins, credit, reduce_supply}

module _ {E : Type 0} (chain : Chain E) where
  -- `deps.api.addr_validate(&text)?`
  unfoldable pub validate_addr : Text → Result Error Addr
  validate_addr text = ok_or (chain.addr_validate text) (std invalid_address)

  -- Writing one allowance; `none` removes it.
  abbrev pub set_allowance : Addr → Addr → Option (Allowance E) → State E → State E
  set_allowance owner spender a s = record s {
    allowances = update s.allowances owner (update (s.allowances owner) spender a);
  }

  -- `unwrap_or_default` on a stored allowance.
  abbrev pub allowance_or_default : Option (Allowance E) → Allowance E
  allowance_or_default none = record { allowance = 0; expires = chain.default_expires }
  allowance_or_default (some a) = a

  unfoldable pub execute_increase_allowance : Addr → Text → ℕ → Option E → State E → Outcome E
  unfolding validate_addr
  execute_increase_allowance sender spender amount expires s = do
    spender_addr ← validate_addr spender
    reject_if (spender_addr == sender) cannot_set_own_account
    let old = allowance_or_default (s.allowances sender spender_addr)
    sum ← ok_or (add128 old.allowance amount) aborted
    ok (
      set_allowance sender spender_addr
          (some (record { allowance = sum; expires = get_or expires old.expires })) s,
      [],
    )

  unfoldable pub execute_decrease_allowance : Addr → Text → ℕ → Option E → State E → Outcome E
  unfolding validate_addr
  execute_decrease_allowance sender spender amount expires s = do
    spender_addr ← validate_addr spender
    reject_if (spender_addr == sender) cannot_set_own_account
    old ← ok_or (s.allowances sender spender_addr) (std not_found)
    if ltb amount old.allowance
        then (do
          left ← ok_or (checked_sub old.allowance amount) (std overflow)
          ok (
            set_allowance sender spender_addr
                (some (record { allowance = left; expires = get_or expires old.expires })) s,
            [],
          ))
        else ok (set_allowance sender spender_addr none s, [])

  unfoldable pub deduct_allowance : Addr → Addr → Block → ℕ → State E → Result Error (State E)
  deduct_allowance owner spender block amount s = do
    a ← ok_or (s.allowances owner spender) no_allowance
    reject_if (chain.is_expired a.expires block) expired
    left ← ok_or (checked_sub a.allowance amount) (std overflow)
    ok (set_allowance owner spender (some (record a { allowance = left })) s)

  unfoldable pub execute_transfer_from : Block → Addr → Text → Text → ℕ → State E → Outcome E
  unfolding validate_addr
  execute_transfer_from block sender owner recipient amount s = do
    rcpt_addr ← validate_addr recipient
    owner_addr ← validate_addr owner
    s1 ← deduct_allowance owner_addr sender block amount s
    s2 ← deduct_coins block owner_addr amount s1
    s3 ← credit rcpt_addr amount s2
    ok (s3, [])

  unfoldable pub execute_burn_from : Block → Addr → Text → ℕ → State E → Outcome E
  unfolding validate_addr
  execute_burn_from block sender owner amount s = do
    owner_addr ← validate_addr owner
    s1 ← deduct_allowance owner_addr sender block amount s
    s2 ← deduct_coins block owner_addr amount s1
    s3 ← reduce_supply amount s2
    ok (s3, [])

  unfoldable pub execute_send_from : Block → Addr → Text → Text → ℕ → List ℕ → State E → Outcome E
  unfolding validate_addr
  execute_send_from block sender owner contract amount msg s = do
    rcpt_addr ← validate_addr contract
    owner_addr ← validate_addr owner
    s1 ← deduct_allowance owner_addr sender block amount s
    s2 ← deduct_coins block owner_addr amount s1
    s3 ← credit rcpt_addr amount s2
    ok (s3, receive contract sender amount msg ∷ [])
