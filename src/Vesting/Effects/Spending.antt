-- ===== src/Vesting/Effects/Spending.antt =====
-- What a transfer from another account does to the allowance of cw20-vesting that it uses.
use synergistic_juno_contrac.Base.{
  ℕ, ◌+◌, ◌-◌, ◌≡◌, ◌≢◌, ◌∙◌, ap, false, some, List, ok, arith, >>=-eq-ok, Returns, returns, step,
  returned, ok_or,
}
use synergistic_juno_contrac.Base.Checked.{checked_sub}
use synergistic_juno_contrac.Base.Dict.{amount_of}
use synergistic_juno_contrac.Vesting.{
  Text, Addr, Block, Chain, State, Message, Error, std, invalid_address, no_allowance, Allowance,
}
use synergistic_juno_contrac.Vesting.Coins.{deduct_coins, credit}
use synergistic_juno_contrac.Vesting.Allowances.{
  validate_addr, deduct_allowance, execute_transfer_from,
}
use synergistic_juno_contrac.Vesting.Effects.{Moved, debit_credit}

-- What the spending of an allowance does: it was not expired, and falls by exactly `amount`.
pub record Spent {E : Type 0} (chain : Chain E) (block : Block) (owner spender : Addr) (amount : ℕ)
    (s s' : State E) : Type 0 where
  pub old : Allowance E
  pub granted : s.allowances owner spender ≡ some old
  pub fresh : chain.is_expired old.expires block ≡ false
  pub left : Allowance E
  pub stored : s'.allowances owner spender ≡ some left
  pub falls : left.allowance + amount ≡ old.allowance

module _ {E : Type 0} (chain : Chain E) (block : Block) where
  deduct_allowance-Spent :
      (owner spender : Addr) (amount : ℕ) (s s1 : State E)
      → deduct_allowance chain owner spender block amount s ≡ ok s1
      → Spent chain block owner spender amount s s1
  unfolding deduct_allowance checked_sub
  deduct_allowance-Spent owner spender amount s s1 h =
      let (a, granted, rest) = >>=-eq-ok (ok_or (s.allowances owner spender) no_allowance) _ h in
      record {
        old = a;
        granted = ground arith;
        fresh = ground arith;
        left = record a { allowance = a.allowance - amount };
        stored = ground arith;
        falls = ground arith;
      }

  kept_allowances :
      (owner rcpt : Addr) (amount : ℕ) (s1 s2 s3 : State E)
      → deduct_coins block owner amount s1 ≡ ok s2
      → credit rcpt amount s2 ≡ ok s3
      → s3.allowances ≡ s1.allowances
  unfolding deduct_coins credit
  kept_allowances owner rcpt amount s1 s2 s3 d c = ground arith

  Spent-kept :
      (owner rcpt spender : Addr) (amount : ℕ) (s s1 s2 s3 : State E)
      → deduct_allowance chain owner spender block amount s ≡ ok s1
      → deduct_coins block owner amount s1 ≡ ok s2
      → credit rcpt amount s2 ≡ ok s3
      → Spent chain block owner spender amount s s3
  Spent-kept owner rcpt spender amount s s1 s2 s3 a d c =
      let r = deduct_allowance-Spent owner spender amount s s1 a in
      let e = kept_allowances owner rcpt amount s1 s2 s3 d c in
      record {
        old = r.old;
        granted = r.granted;
        fresh = r.fresh;
        left = r.left;
        stored = cc;
        falls = r.falls;
      }

  Moved-kept :
      (owner rcpt spender : Addr) (amount : ℕ) (s s1 s2 s3 : State E)
      → rcpt ≢ owner
      → deduct_allowance chain owner spender block amount s ≡ ok s1
      → deduct_coins block owner amount s1 ≡ ok s2
      → credit rcpt amount s2 ≡ ok s3
      → Moved owner rcpt amount s s3
  unfolding deduct_allowance
  Moved-kept owner rcpt spender amount s s1 s2 s3 ne a d c =
      let m = debit_credit chain block owner rcpt amount s1 s2 s3 ne d c in
      let same : s1.balances ≡ s.balances = ground arith in
      let info : s1.token_info ≡ s.token_info = ground arith in
      record {
        debited = ground (arith, m.debited);
        credited = ground (arith, m.credited);
        others = λ x nx ny. m.others x nx ny ∙ ap (λ b. amount_of x b) same;
        same_info = cc;
      }

  -- After a transfer from `owner`.
  abbrev SpentAfter : Addr → Addr → Addr → ℕ → State E → State E × List Message → Type 0
  SpentAfter owner rcpt sender amount s r =
      Spent chain block owner sender amount s r.0 × Moved owner rcpt amount s r.0

  spent_last :
      (owner sender rcpt x y : Addr) (owner_text recipient : Text) (amount : ℕ)
      (s s1 s2 s3 : State E) (ms : List Message)
      → chain.addr_validate owner_text ≡ some owner
      → chain.addr_validate recipient ≡ some rcpt
      → rcpt ≢ owner
      → ok_or (chain.addr_validate recipient) (std invalid_address) ≡ ok x
      → ok_or (chain.addr_validate owner_text) (std invalid_address) ≡ ok y
      → deduct_allowance chain y sender block amount s ≡ ok s1
      → deduct_coins block y amount s1 ≡ ok s2
      → credit x amount s2 ≡ ok s3
      → Returns {E = Error} (SpentAfter owner rcpt sender amount s) (ok (s3, ms))
  spent_last owner sender rcpt x y owner_text recipient amount s s1 s2 s3 ms vo vr ne ex ey a d c =
      returns (
        Spent-kept owner rcpt sender amount s s1 s2 s3 (cc) (cc) (cc),
        Moved-kept owner rcpt sender amount s s1 s2 s3 ne (cc) (cc) (cc),
      )

  transfer_from-Spent :
      (owner sender rcpt : Addr) (owner_text recipient : Text) (amount : ℕ) (s : State E)
      → chain.addr_validate owner_text ≡ some owner
      → chain.addr_validate recipient ≡ some rcpt
      → rcpt ≢ owner
      → Returns
          (SpentAfter owner rcpt sender amount s)
          (execute_transfer_from chain block sender owner_text recipient amount s)
  unfolding execute_transfer_from validate_addr
  transfer_from-Spent owner sender rcpt owner_text recipient amount s vo vr ne =
      search (step, spent_last) depth 14

  -- A transfer by `sender` from another account to a third one that succeeds moves exactly its
  -- amount from the owner to the recipient, and spends exactly that much of an allowance of
  -- `sender` that has not expired.
  pub execute_transfer_from_lem :
      (owner sender rcpt : Addr) (owner_text recipient : Text) (amount : ℕ) (s s' : State E)
      (ms : List Message)
      → chain.addr_validate owner_text ≡ some owner
      → chain.addr_validate recipient ≡ some rcpt
      → rcpt ≢ owner
      → execute_transfer_from chain block sender owner_text recipient amount s ≡ ok (s', ms)
      → Spent chain block owner sender amount s s' × Moved owner rcpt amount s s'
  execute_transfer_from_lem owner sender rcpt owner_text recipient amount s s' ms vo vr ne h =
      returned (transfer_from-Spent owner sender rcpt owner_text recipient amount s vo vr ne) h
