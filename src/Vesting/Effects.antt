-- ===== src/Vesting/Effects.antt =====
-- What the handlers of cw20-vesting that move or create tokens do when they succeed.
pub mod Spending
use synergistic_juno_contrac.Base.{
  ℕ, ◌+◌, ◌-◌, ◌≤◌, ◌≡◌, ◌≢◌, refl, ◌∙◌, ap, Bool, true, false, none, some, Option, List, ltb, ◌==◌,
  if◌then◌else◌, ok, err, arith, Result, ◌>>=◌, >>=-eq-ok, Returns, returns, step, branch, returned,
  ok_or,
}
use synergistic_juno_contrac.Base.Checked.{checked_sub}
use synergistic_juno_contrac.Base.Dict.{lookup, insert, amount_of, lookup-insert}
use synergistic_juno_contrac.Curve.{Curve}
use synergistic_juno_contrac.Curve.Value.{value}
use synergistic_juno_contrac.Vesting.{
  Text, Addr, Block, Chain, State, Message, Error, std, invalid_address, no_allowance, MinterData,
  Allowance,
}
use synergistic_juno_contrac.Vesting.Coins.{update, locked, deduct_coins, credit}
use synergistic_juno_contrac.Vesting.Ledger.{
  Debit, Credit, deduct_coins-Debit, deduct_coins_others, credit-Credit, credit_others,
}
use synergistic_juno_contrac.Vesting.Allowances.{
  validate_addr, set_allowance, deduct_allowance, execute_transfer_from,
}
use synergistic_juno_contrac.Vesting.Transfers.{get_cap, exceeds, is_minter, execute_transfer}

-- What a transfer of `amount` from `sender` to `rcpt` does to the balances.
pub record Moved {E : Type 0} (sender rcpt : Addr) (amount : ℕ) (s s' : State E) : Type 0 where
  pub debited : amount_of sender s'.balances + amount ≡ amount_of sender s.balances
  pub credited : amount_of rcpt s'.balances ≡ amount_of rcpt s.balances + amount
  pub others : (a : Addr) → a ≢ sender → a ≢ rcpt → amount_of a s'.balances ≡ amount_of a s.balances
  pub same_info : s'.token_info ≡ s.token_info

-- What a mint of `amount` by `sender` does to the token's data: the new supply is within the cap.
pub record Minted {E : Type 0} (block : Block) (sender : Addr) (amount : ℕ) (s s' : State E)
    : Type 0 where
  pub minter : is_minter s.token_info.mint sender ≡ true
  pub limit : Option ℕ
  pub cap : get_cap s.token_info.mint block.time ≡ ok limit
  pub within : exceeds s'.token_info.total_supply limit ≡ false
  pub risen : s'.token_info.total_supply ≡ s.token_info.total_supply + amount
  pub same_minter : s'.token_info.mint ≡ s.token_info.mint

module _ {E : Type 0} (chain : Chain E) (block : Block) where
  abbrev MovedAfter : Addr → Addr → ℕ → State E → State E × List Message → Type 0
  MovedAfter sender rcpt amount s r = Moved sender rcpt amount s r.0

  abbrev MintedAfter : Addr → ℕ → State E → State E × List Message → Type 0
  MintedAfter sender amount s r = Minted block sender amount s r.0

  pub debit_credit :
      (sender rcpt : Addr) (amount : ℕ) (s s1 s2 : State E)
      → rcpt ≢ sender
      → deduct_coins block sender amount s ≡ ok s1
      → credit rcpt amount s1 ≡ ok s2
      → Moved sender rcpt amount s s2
  debit_credit sender rcpt amount s s1 s2 ne d c =
      let paid = deduct_coins-Debit block sender amount s d in
      let got = credit-Credit rcpt amount s1 c in
      record {
        debited = ground (arith, credit_others rcpt sender amount s1 c);
        credited = ground (arith, deduct_coins_others block sender rcpt amount s d);
        others = λ a na nr. ground (
          arith,
          deduct_coins_others block sender a amount s d,
          credit_others rcpt a amount s1 c,
        );
        same_info = cc;
      }

  -- The end of a transfer to the address that the text stands for.
  moved_last :
      (sender rcpt x : Addr) (recipient : Text) (amount : ℕ) (s s1 s2 : State E) (ms : List Message)
      → chain.addr_validate recipient ≡ some rcpt
      → rcpt ≢ sender
      → ok_or (chain.addr_validate recipient) (std invalid_address) ≡ ok x
      → deduct_coins block sender amount s ≡ ok s1
      → credit x amount s1 ≡ ok s2
      → Returns {E = Error} (MovedAfter sender rcpt amount s) (ok (s2, ms))
  moved_last sender rcpt x recipient amount s s1 s2 ms v ne e d c =
      returns (debit_credit sender rcpt amount s s1 s2 ne d (cc))

  transfer-Moved :
      (sender rcpt : Addr) (recipient : Text) (amount : ℕ) (s : State E)
      → chain.addr_validate recipient ≡ some rcpt
      → rcpt ≢ sender
      → Returns
          (MovedAfter sender rcpt amount s)
          (execute_transfer chain block sender recipient amount s)
  unfolding execute_transfer validate_addr
  transfer-Moved sender rcpt recipient amount s v ne = search (step, moved_last) depth 14

  -- A transfer to another account that succeeds moves exactly its amount, which is not 0, from
  -- the sender to the recipient; no other balance and no part of the token's data changes.
  pub execute_transfer_lem :
      (sender rcpt : Addr) (recipient : Text) (amount : ℕ) (s s' : State E) (ms : List Message)
      → chain.addr_validate recipient ≡ some rcpt
      → rcpt ≢ sender
      → execute_transfer chain block sender recipient amount s ≡ ok (s', ms)
      → Moved sender rcpt amount s s'
  execute_transfer_lem sender rcpt recipient amount s s' ms v ne h =
      returned (transfer-Moved sender rcpt recipient amount s v ne) h
