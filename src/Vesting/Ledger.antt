-- ===== src/Vesting/Ledger.antt =====
-- What the shared balance updates of cw20-vesting do when they succeed.
use synergistic_juno_contrac.Base.{ℕ, ◌+◌, ◌-◌, ◌≤◌, ◌≡◌, ◌≢◌, ok, arith, >>=-eq-ok}
use synergistic_juno_contrac.Base.Checked.{add_within, checked_sub}
use synergistic_juno_contrac.Base.Dict.{amount_of, total, total-insert, lookup-insert}
use synergistic_juno_contrac.Vesting.{Addr, Block, State}
use synergistic_juno_contrac.Vesting.Coins.{locked, deduct_coins, credit, reduce_supply}

module _ {E : Type 0} where
  -- A debit of `amount` from `sender`.
  pub record Debit (block : Block) (sender : Addr) (amount : ℕ) (s s' : State E) : Type 0 where
    pub total_falls : total s'.balances + amount ≡ total s.balances
    pub balance_falls : amount_of sender s'.balances + amount ≡ amount_of sender s.balances
    pub same_info : s'.token_info ≡ s.token_info
    pub same_delegated : s'.delegated ≡ s.delegated
    pub same_allowlist : s'.allowlist ≡ s.allowlist
    pub same_staking : s'.staking ≡ s.staking

  pub deduct_coins-Debit :
      (block : Block) (sender : Addr) (amount : ℕ) (s : State E) {s' : State E}
      → deduct_coins block sender amount s ≡ ok s'
      → Debit block sender amount s s'
  unfolding deduct_coins checked_sub
  deduct_coins-Debit block sender amount s h = ground (
    arith,
    total-insert sender (amount_of sender s.balances - amount) s.balances,
    lookup-insert sender sender (amount_of sender s.balances - amount) s.balances,
  )

  -- No other account is touched.
  pub deduct_coins_others :
      (block : Block) (sender other : Addr) (amount : ℕ) (s : State E) {s' : State E}
      → deduct_coins block sender amount s ≡ ok s'
      → other ≢ sender
      → (amount_of other s'.balances ≡ amount_of other s.balances)
        × (s'.vesting other ≡ s.vesting other)
  unfolding deduct_coins checked_sub
  deduct_coins_others block sender other amount s h ne =
      ground (arith, lookup-insert sender other (amount_of sender s.balances - amount) s.balances)

  -- After a debit the account still holds, with what it has delegated, all that is locked.
  pub deduct_coins_lock :
      (block : Block) (sender : Addr) (amount : ℕ) (s : State E) {s' : State E}
      → deduct_coins block sender amount s ≡ ok s'
      → (v : ℕ) × (locked (s.vesting sender) block.time ≡ ok v)
        × (v ≤ amount_of sender s'.balances + amount_of sender s'.delegated)
  unfolding deduct_coins checked_sub add_within
  deduct_coins_lock block sender amount s h =
      let (v, e, _) = >>=-eq-ok (locked (s.vesting sender) block.time) _ h in
      (
        v,
        e,
        ground
            (arith, lookup-insert sender sender (amount_of sender s.balances - amount) s.balances),
      )

  -- A credit of `amount` to `rcpt`.
  pub record Credit (rcpt : Addr) (amount : ℕ) (s s' : State E) : Type 0 where
    pub total_rises : total s'.balances ≡ total s.balances + amount
    pub balance_rises : amount_of rcpt s'.balances ≡ amount_of rcpt s.balances + amount
    pub same_info : s'.token_info ≡ s.token_info
    pub same_delegated : s'.delegated ≡ s.delegated
    pub same_allowlist : s'.allowlist ≡ s.allowlist
    pub same_staking : s'.staking ≡ s.staking

  pub credit-Credit :
      (rcpt : Addr) (amount : ℕ) (s : State E) {s' : State E}
      → credit rcpt amount s ≡ ok s'
      → Credit rcpt amount s s'
  unfolding credit add_within
  credit-Credit rcpt amount s h = ground (
    arith,
    total-insert rcpt (amount_of rcpt s.balances + amount) s.balances,
    lookup-insert rcpt rcpt (amount_of rcpt s.balances + amount) s.balances,
  )

  pub credit_others :
      (rcpt other : Addr) (amount : ℕ) (s : State E) {s' : State E}
      → credit rcpt amount s ≡ ok s'
      → other ≢ rcpt
      → amount_of other s'.balances ≡ amount_of other s.balances
  unfolding credit add_within
  credit_others rcpt other amount s h ne =
      ground (arith, lookup-insert rcpt other (amount_of rcpt s.balances + amount) s.balances)

  pub reduce_supply_lem :
      (amount : ℕ) (s : State E) {s' : State E}
      → reduce_supply amount s ≡ ok s'
      → (s'.token_info.total_supply + amount ≡ s.token_info.total_supply)
        × (s'.balances ≡ s.balances)
        × (s'.token_info.mint ≡ s.token_info.mint)
  unfolding reduce_supply checked_sub
  reduce_supply_lem amount s h = ground arith
