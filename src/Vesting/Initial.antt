-- ===== src/Vesting/Initial.antt =====
-- A new token of cw20-vesting starts with balances that sum to its total supply.
pub mod Distinct
mod Tests
use synergistic_juno_contrac.Base.{
  ℕ, ◌+◌, ◌≡◌, ◌≢◌, refl, Bool, true, false, Option, none, some, List, [], ◌∷◌, All, ◌==◌,
  if◌then◌else◌, Result, ok, err, ok_or, ensure, reject_if, arith, sym, ap, subst, ◌∙◌, Returns,
  returns, step, follow, returned, branch,
}
use synergistic_juno_contrac.Base.Text.{Text}
use synergistic_juno_contrac.Base.Checked.{add128, add_within}
use synergistic_juno_contrac.Base.Dict.{
  Dict, lookup, insert, amount_of, total, total-insert, lookup-insert,
}
use synergistic_juno_contrac.Curve.{Curve}
use synergistic_juno_contrac.Vesting.{
  Addr, Block, Chain, State, Error, MinterData, std, invalid_address, aborted,
  duplicate_initial_balance_addresses, generic,
}
use synergistic_juno_contrac.Vesting.Allowances.{validate_addr}
use synergistic_juno_contrac.Vesting.Transfers.{exceeds}
use synergistic_juno_contrac.Vesting.Supply.{Balanced}
use synergistic_juno_contrac.Vesting.Creation.{
  InitBalance, InstantiateMsg, InstantiateMarketingInfo, validate_msg, initial_cap, cap_curve,
}
use synergistic_juno_contrac.Vesting.Creation.Accounts.{
  addresses_of, validate_accounts, open_schedule, save_schedule, add_accounts, create_accounts,
  save_marketing, instantiate, fresh, minter_data, address_list,
}
use synergistic_juno_contrac.Vesting.Initial.Distinct.{
  DistinctTexts, validate_accounts-DistinctTexts,
}

save_schedule_balances :
    {E : Type 0} (chain : Chain E) (a : Addr) (o : Option Curve) (s s1 : State E)
    → save_schedule chain a o s ≡ ok s1
    → s1.balances ≡ s.balances
unfolding save_schedule
save_schedule_balances chain a none s s1 h = ground arith
save_schedule_balances chain a (some c) s s1 h = ground arith

-- `addr_validate` returns the address that it was given, so two texts never give one address.
module _ {E : Type 0} (chain : Chain E)
    (injective : (t u : Text) (a : ℕ)
      → chain.addr_validate t ≡ some a
      → chain.addr_validate u ≡ some a
      → t ≡ u) where
  -- The address of no further row has a balance yet.
  abbrev Fresh : List Text → Dict ℕ → Type 0
  Fresh texts balances =
      All (λ t. (a : ℕ) → chain.addr_validate t ≡ some a → lookup a balances ≡ none) texts

  Fresh-empty : (texts : List Text) → Fresh texts []
  unfolding lookup
  Fresh-empty [] = tt
  Fresh-empty (t ∷ texts) = (λ a e. refl, Fresh-empty texts)

  Fresh-insert :
      (t : Text) (a amount : ℕ) (texts : List Text) (balances : Dict ℕ)
      → chain.addr_validate t ≡ some a
      → All (λ u. t ≢ u) texts
      → Fresh texts balances
      → Fresh texts (insert a amount balances)
  Fresh-insert t a amount [] balances e d f = tt
  Fresh-insert t a amount (u ∷ texts) balances e d f = (
    λ b v. ground (
      arith,
      lookup-insert a b amount balances,
      f.0 b v,
      λ (q : a ≡ b). d.0 (injective t u b (subst (λ x. chain.addr_validate t ≡ some x) q e) v),
    ),
    Fresh-insert t a amount texts balances e d.1 f.1,
  )

  valid : (t : Text) (a : ℕ) → validate_addr chain t ≡ ok a → chain.addr_validate t ≡ some a
  unfolding validate_addr
  valid t a e = ground arith

  -- A new entry raises the sum by its amount.
  counted :
      (balances : Dict ℕ) (a amount n n' : ℕ)
      → lookup a balances ≡ none
      → total balances ≡ n
      → ok_or (add128 n amount) aborted ≡ ok n'
      → total (insert a amount balances) ≡ n'
  unfolding add_within
  counted balances a amount n n' e t f = ground (arith, total-insert a amount balances)

  abbrev Summed : ℕ × State E → Type 0
  Summed r = total r.1.balances ≡ r.0

  add_accounts-Summed :
      (block : Block) (rows : List InitBalance) (n : ℕ) (s : State E)
      → total s.balances ≡ n
      → Fresh (addresses_of rows) s.balances
      → DistinctTexts (addresses_of rows)
      → Returns Summed (add_accounts chain block rows n s)
  unfolding add_accounts addresses_of
  add_accounts-Summed block [] n s t f d = returns t
  add_accounts-Summed block (row ∷ rows) n s t f d =
      step (open_schedule block row.amount row.vesting) λ vesting _.
        step (validate_addr chain row.address) λ a v. step (save_schedule chain a vesting s) λ s1 w.
          step (ok_or (add128 n row.amount) aborted) λ n' e.
            let same = save_schedule_balances chain a vesting s s1 w in
            let valid_a = valid row.address a v in
            add_accounts-Summed block rows n'
              (record s1 { balances = insert a row.amount s1.balances })
              (counted s1.balances a row.amount n n' (ap (lookup a) same ∙ f.0 a valid_a)
                (ap total same ∙ t) e)
              (Fresh-insert row.address a row.amount (addresses_of rows) s1.balances valid_a d.0
                (subst (Fresh (addresses_of rows)) (sym same) f.1))
              d.1

  create_accounts-Summed :
      (block : Block) (rows : List InitBalance) (s : State E)
      → s.balances ≡ []
      → Returns Summed (create_accounts chain block rows s)
  unfolding create_accounts total
  create_accounts-Summed block rows s e = step (validate_accounts rows) λ u v.
      add_accounts-Summed block rows 0 s (ap total e)
        (subst (Fresh (addresses_of rows)) (sym e) (Fresh-empty (addresses_of rows)))
        (validate_accounts-DistinctTexts rows v)

  save_marketing-Balanced :
      (m : Option InstantiateMarketingInfo) (s s1 : State E)
      → save_marketing chain m s ≡ ok s1
      → Balanced chain s
      → Balanced chain s1
  unfolding save_marketing
  save_marketing-Balanced none s s1 h b = ground arith
  save_marketing-Balanced (some m) s s1 h b = ground arith

  instantiated :
      (block : Block) (sender : Addr) (msg : InstantiateMsg)
      → Returns (Balanced chain) (instantiate chain block sender msg)
  unfolding instantiate
  instantiated block sender msg = step (validate_msg msg) λ u _.
      step (initial_cap (cap_curve msg.mint) block) λ cap _.
        follow (create_accounts-Summed block msg.initial_balances (fresh chain msg) refl) λ r t.
          step (reject_if (exceeds r.0 cap) (std generic)) λ v _.
            step (minter_data chain msg.mint) λ mint _.
              step (save_marketing chain msg.marketing _) λ s1 e.
                step (address_list chain sender msg.allowed_vesters)
                  λ allowlist _. returns (save_marketing-Balanced msg.marketing _ s1 e t)

  -- The balances of a token that `instantiate` creates sum to its total supply, provided that
  -- address validation never gives one address for two texts.
  pub instantiate-Balanced :
      (block : Block) (sender : Addr) (msg : InstantiateMsg) (s : State E)
      → instantiate chain block sender msg ≡ ok s
      → Balanced chain s
  instantiate-Balanced block sender msg s h = returned (instantiated block sender msg) h
