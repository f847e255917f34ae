-- ===== src/Vesting/Enforced.antt =====
-- The vesting schedules of cw20-vesting are enforced: no message takes from an account what is
-- still locked.
pub mod Messages
use synergistic_juno_contrac.Base.{
  ◌⊎◌, ◌≢◌, ℕ, ◌+◌, ◌-◌, ◌≤◌, ◌≡◌, refl, none, some, Option, Result, List, ok, err, arith,
  >>=-eq-ok, Bool-cases, inl, inr, subst, sym, ◌==◌, if◌then◌else◌, Returns, returns, raises, step,
  branch, ok_or, returned,
}
use synergistic_juno_contrac.Base.Checked.{add_within, add128, checked_sub}
use synergistic_juno_contrac.Base.Dict.{
  lookup, lookup-insert, insert, amount_of, total, total-insert,
}
use synergistic_juno_contrac.Curve.{Curve}
use synergistic_juno_contrac.Vesting.{
  Text, Addr, Block, Chain, State, Outcome, Message, Logo, aborted, not_enough_to_delegate, Error,
  TokenInfo, std, overflow, no_tokens_delegated,
}
use synergistic_juno_contrac.Vesting.Coins.{locked, deduct_coins, credit, reduce_supply}
use native.Mathlib.Decide.{ℕ_discrete}
use synergistic_juno_contrac.Vesting.Ledger.{
  deduct_coins_others, deduct_coins_lock, credit_others, deduct_coins-Debit, credit-Credit,
  reduce_supply_lem,
}
use synergistic_juno_contrac.Vesting.Allowances.{
  validate_addr, deduct_allowance, execute_increase_allowance, execute_decrease_allowance,
  execute_transfer_from, execute_burn_from, execute_send_from,
}
use synergistic_juno_contrac.Vesting.Transfers.{
  store_schedule, execute_transfer, execute_transfer_vesting, execute_burn, execute_mint,
  execute_update_minter, execute_send,
}
use synergistic_juno_contrac.Vesting.Delegation.{
  execute_update_staking_address, execute_delegate, execute_undelegate,
}
use synergistic_juno_contrac.Vesting.AllowList.{execute_add_address, execute_remove_address}
use synergistic_juno_contrac.Vesting.Marketing.{
  load_marketing, execute_update_marketing, execute_upload_logo,
}
use synergistic_juno_contrac.Vesting.Execute.{
  ExecuteMsg, transfer, transfer_vesting, burn, send, increase_allowance, decrease_allowance,
  transfer_from, send_from, burn_from, mint, update_minter, update_marketing, upload_logo,
  allow_vester, deny_vester, update_staking_address, delegate, undelegate, execute,
}

-- What an account holds, with what it has delegated.
abbrev pub holding : {E : Type 0} → Addr → State E → ℕ
holding a s = amount_of a s.balances + amount_of a s.delegated

-- The account `a` does not lose anything from `s` to `s'`, or it still holds all that its schedule
-- locks at the time of the block.
abbrev pub Enforced : {E : Type 0} → Block → Addr → State E → State E → Type 0
Enforced block a s s' =
    (holding a s ≤ holding a s')
    ⊎ ((v : ℕ) × (locked (s.vesting a) block.time ≡ ok v) × (v ≤ holding a s'))

module _ {E : Type 0} (chain : Chain E) (block : Block) (a : Addr) where
  credit_grows :
      (rcpt : Addr) (amount : ℕ) (s s' : State E)
      → credit rcpt amount s ≡ ok s'
      → holding a s ≤ holding a s'
  credit_grows rcpt amount s s' c =
      ground (arith, credit-Credit rcpt amount s c, credit_others rcpt a amount s c)

  grown :
      (s s1 s2 : State E)
      → Enforced block a s s1
      → holding a s1 ≤ holding a s2
      → Enforced block a s s2
  grown s s1 s2 (inl h) g = inl (omega arith)
  grown s s1 s2 (inr (v, e, h)) g = inr (v, e, omega arith)

  pub credit-Enforced :
      (rcpt : Addr) (amount : ℕ) (s s1 s2 : State E)
      → credit rcpt amount s1 ≡ ok s2
      → Enforced block a s s1
      → Enforced block a s s2
  credit-Enforced rcpt amount s s1 s2 c h = grown s s1 s2 h (credit_grows rcpt amount s1 s2 c)

  pub deduct_coins-Enforced :
      (sender : Addr) (amount : ℕ) (s s' : State E)
      → deduct_coins block sender amount s ≡ ok s'
      → Enforced block a s s'
  deduct_coins-Enforced sender amount s s' d = elim (ℕ_discrete a sender) [
    | yes e ↦ rw e (inr (deduct_coins_lock block sender amount s d))
    | no ne ↦ inl (
        ground (
          arith,
          deduct_coins_others block sender a amount s d ne,
          deduct_coins-Debit block sender amount s d,
        ))
  ]

  pub reduce_supply-Enforced :
      (amount : ℕ) (s s1 s2 : State E)
      → reduce_supply amount s1 ≡ ok s2
      → Enforced block a s s1
      → Enforced block a s s2
  unfolding reduce_supply checked_sub
  reduce_supply-Enforced amount s s1 s2 r h = grown s s1 s2 h (ground arith)

  -- A debit after the allowance was spent.
  pub deduct_allowed-Enforced :
      (owner spender : Addr) (amount : ℕ) (s s1 s2 : State E)
      → deduct_allowance chain owner spender block amount s ≡ ok s1
      → deduct_coins block owner amount s1 ≡ ok s2
      → Enforced block a s s2
  unfolding deduct_allowance
  deduct_allowed-Enforced owner spender amount s s1 s2 p d =
      ground (arith, deduct_coins-Enforced owner amount s1 s2 d)

  pub same-Enforced :
      (s s' : State E)
      → s'.balances ≡ s.balances
      → s'.delegated ≡ s.delegated
      → Enforced block a s s'
  same-Enforced s s' e f = inl (ground arith)

  -- A credit of tokens that are new.
  pub minted-Enforced :
      (rcpt : Addr) (amount : ℕ) (info : TokenInfo) (s s' : State E)
      → credit rcpt amount (record s { token_info = info }) ≡ ok s'
      → Enforced block a s s'
  minted-Enforced rcpt amount info s s' c =
      inl (credit_grows rcpt amount (record s { token_info = info }) s' c)

  store_schedule_lem :
      (rcpt : Addr) (schedule : Curve) (s s' : State E)
      → store_schedule chain block rcpt schedule s ≡ ok s'
      → (s'.balances ≡ s.balances)
        × (s'.delegated ≡ s.delegated)
        × (if rcpt == a then Unit else (s'.vesting a ≡ s.vesting a))
  unfolding store_schedule
  store_schedule_lem rcpt schedule s s' h = ground arith

  -- A credit of what was debited before.
  debit_credit_grows :
      (sender rcpt : Addr) (amount : ℕ) (s s1 s2 : State E)
      → a ≡ rcpt
      → deduct_coins block sender amount s ≡ ok s1
      → credit rcpt amount s1 ≡ ok s2
      → holding a s ≤ holding a s2
  debit_credit_grows sender rcpt amount s s1 s2 e d c = elim (ℕ_discrete a sender) [
    | yes q ↦
        ground (arith, deduct_coins-Debit block sender amount s d, credit-Credit rcpt amount s1 c)
    | no ne ↦ ground (
      arith,
      deduct_coins_others block sender a amount s d ne,
      deduct_coins-Debit block sender amount s d,
      credit_grows rcpt amount s1 s2 c,
    )
  ]

  -- A debit and a credit after a schedule was added to the recipient's.
  pub vesting_transfer-Enforced :
      (sender rcpt : Addr) (amount : ℕ) (schedule : Curve) (s s1 s2 s3 : State E)
      → store_schedule chain block rcpt schedule s ≡ ok s1
      → deduct_coins block sender amount s1 ≡ ok s2
      → credit rcpt amount s2 ≡ ok s3
      → Enforced block a s s3
  vesting_transfer-Enforced sender rcpt amount schedule s s1 s2 s3 p d c =
      elim (ℕ_discrete a rcpt) [
        | yes e ↦
            let kept = store_schedule_lem rcpt schedule s s1 p in
            let back = debit_credit_grows sender rcpt amount s1 s2 s3 e d c in
            inl (ground (arith, kept, back))
        | no ne ↦
            let kept = store_schedule_lem rcpt schedule s s1 p in
            credit-Enforced rcpt amount s s2 s3 c
              (ground (arith, kept, deduct_coins-Enforced sender amount s1 s2 d))
      ]

  pub delegate-Enforced :
      (sender rcpt : Addr) (amount left sum : ℕ) (s s1 : State E)
      → ok_or (checked_sub (amount_of sender s.balances) amount) not_enough_to_delegate ≡ ok left
      → credit rcpt amount (record s { balances = insert sender left s.balances }) ≡ ok s1
      → ok_or (add128 (amount_of sender s1.delegated) amount) aborted ≡ ok sum
      → Enforced block a s (record s1 { delegated = insert sender sum s1.delegated })
  unfolding checked_sub add_within
  delegate-Enforced sender rcpt amount left sum s s1 e c f =
      let t : State E = record s { balances = insert sender left s.balances } in
      inl (
        ground (
          arith,
          credit-Credit rcpt amount t c,
          credit_grows rcpt amount t s1 c,
          lookup-insert sender a left s.balances,
          lookup-insert sender a sum s1.delegated,
        ))

  pub undelegate-Enforced :
      (sender rcpt : Addr) (amount left old : ℕ) (s s1 s2 : State E)
      → ok_or (lookup rcpt s.delegated) no_tokens_delegated ≡ ok old
      → ok_or (checked_sub old amount) (std overflow) ≡ ok left
      → deduct_coins block sender amount (record s { delegated = insert rcpt left s.delegated })
        ≡ ok s1
      → credit rcpt amount s1 ≡ ok s2
      → Enforced block a s s2
  unfolding checked_sub
  undelegate-Enforced sender rcpt amount left old s s1 s2 e f d c =
      let t : State E = record s { delegated = insert rcpt left s.delegated } in
      elim (ℕ_discrete a rcpt) [
        | yes q ↦ elim (ℕ_discrete a sender) [
          | yes r ↦
              let (v, l, h) = deduct_coins_lock block sender amount t d in
              inr (
                v,
                subst (λ x. locked (s.vesting x) block.time ≡ ok v) (sym r) l,
                ground (arith, credit_grows rcpt amount s1 s2 c),
              )
          | no ne ↦ inl (
              ground (
                arith,
                deduct_coins_others block sender a amount t d ne,
                deduct_coins-Debit block sender amount t d,
                credit-Credit rcpt amount s1 c,
                lookup-insert rcpt a left s.delegated,
              ))
        ]
        | no ne ↦ credit-Enforced rcpt amount s s1 s2 c (
            ground (
              arith,
              deduct_coins-Enforced sender amount t s1 d,
              lookup-insert rcpt a left s.delegated,
            ))
      ]
