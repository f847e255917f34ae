-- ===== src/Vesting/Spendable.antt =====
-- What an account of cw20-vesting with a schedule can always send.
use synergistic_juno_contrac.Base.{
  ℕ, ◌+◌, ◌-◌, ◌≤◌, ◌<◌, ◌≡◌, ◌≢◌, refl, ap, some, [], ◌∷◌, ok, arith, ◌⊎◌, inl, inr,
}
use synergistic_juno_contrac.Base.Checked.{add_within, add_within_lem, checked_sub, u128_mod}
use synergistic_juno_contrac.Base.Dict.{Dict, lookup, insert, amount_of, total}
use synergistic_juno_contrac.Curve.{Curve}
use synergistic_juno_contrac.Curve.Monotone.{Fits}
use synergistic_juno_contrac.Curve.Bounded.{end_time}
use synergistic_juno_contrac.Vesting.{Text, Addr, Block, Chain, State}
use synergistic_juno_contrac.Vesting.Coins.{locked, prune, deduct_coins, credit}
use synergistic_juno_contrac.Vesting.Allowances.{validate_addr}
use synergistic_juno_contrac.Vesting.Transfers.{assert_schedule_vests_amount, execute_transfer}
use synergistic_juno_contrac.Vesting.Ledger.{deduct_coins-Debit}
use synergistic_juno_contrac.Vesting.Supply.{Balanced, deduct_coins-Owes}
use synergistic_juno_contrac.Vesting.Schedules.{schedule_bounded, schedule_ends}
use synergistic_juno_contrac.Vesting.Effects.{Moved, execute_transfer_lem}

amount_of-le-total : (a : ℕ) (d : Dict ℕ) → amount_of a d ≤ total d
unfolding lookup total
amount_of-le-total a [] = omega arith
amount_of-le-total a ((j, v) ∷ d) = ground (arith, amount_of-le-total a d)

-- What an accepted schedule leaves free at a time.
schedule_frees :
    (schedule : Curve) (sum amount held t : ℕ)
    → Fits schedule
    → assert_schedule_vests_amount schedule sum ≡ ok tt
    → (end_time schedule ≤ t) ⊎ (sum + amount ≤ held)
    → amount ≤ held
    → (y : ℕ) × (locked (some schedule) t ≡ ok y) × (y + amount ≤ held)
unfolding locked
schedule_frees schedule sum amount held t f h (inl late) has =
    (0, rw (schedule_ends schedule sum t f h late) refl, omega (arith, has))
schedule_frees schedule sum amount held t f h (inr room) has =
    let (y, e, le) = schedule_bounded schedule sum t f h in
    (y, rw (e) refl, omega (arith, le, room))

module _ {E : Type 0} (chain : Chain E) where
  debit_succeeds :
      (block : Block) (a : Addr) (amount y : ℕ) (s : State E)
      → locked (s.vesting a) block.time ≡ ok y
      → amount ≤ amount_of a s.balances
      → amount_of a s.balances + amount_of a s.delegated < u128_mod
      → y + amount ≤ amount_of a s.balances + amount_of a s.delegated
      → deduct_coins block a amount s
        ≡ ok (record (prune y a s) {
          balances = insert a (amount_of a s.balances - amount) s.balances;
        })
  unfolding deduct_coins checked_sub add_within
  debit_succeeds block a amount y s e has fits free = ground arith

  transfer_runs :
      (block : Block) (sender rcpt : Addr) (recipient : Text) (amount : ℕ) (s s1 : State E)
      → 0 < amount
      → chain.addr_validate recipient ≡ some rcpt
      → deduct_coins block sender amount s ≡ ok s1
      → Balanced chain s
      → s.token_info.total_supply < u128_mod
      → (s' : State E) × (execute_transfer chain block sender recipient amount s ≡ ok (s', []))
  unfolding execute_transfer validate_addr credit
  transfer_runs block sender rcpt recipient amount s s1 positive v d balanced fits =
      let debit = deduct_coins-Debit block sender amount s d in
      let owed = deduct_coins-Owes chain block sender amount s s1 d balanced in
      let room : amount_of rcpt s1.balances + amount < u128_mod = omega (
        arith,
        fits,
        owed,
        ap (λ i. i.total_supply) debit.same_info,
        amount_of-le-total rcpt s1.balances,
      ) in
      (
        record s1 { balances = insert rcpt (amount_of rcpt s1.balances + amount) s1.balances },
        rw (v, d, add_within_lem u128_mod (amount_of rcpt s1.balances) amount room) (ground arith),
      )

  -- An account whose schedule was accepted for some sum can transfer any positive amount of its
  -- balance once the schedule has ended, and before that any amount that leaves the sum with it and
  -- its delegations; just that amount moves. The conditions: the schedule's products, the supply and
  -- what the account holds fit into 128 bits, the balances add up to the supply, and the recipient is
  -- another account.
  pub execute_transfer_succeeds :
      (block : Block) (sender rcpt : Addr) (recipient : Text) (schedule : Curve) (amount sum : ℕ)
      (s : State E)
      → s.vesting sender ≡ some schedule
      → Fits schedule
      → assert_schedule_vests_amount schedule sum ≡ ok tt
      → (end_time schedule ≤ block.time)
        ⊎ (sum + amount ≤ amount_of sender s.balances + amount_of sender s.delegated)
      → 0 < amount
      → amount ≤ amount_of sender s.balances
      → amount_of sender s.balances + amount_of sender s.delegated < u128_mod
      → Balanced chain s
      → s.token_info.total_supply < u128_mod
      → chain.addr_validate recipient ≡ some rcpt
      → rcpt ≢ sender
      → (s' : State E) × (execute_transfer chain block sender recipient amount s ≡ ok (s', []))
        × Moved sender rcpt amount s s'
  execute_transfer_succeeds block sender rcpt recipient schedule amount sum s e f h free positive
        has held balanced fits v ne =
      let (y, locked_eq, room) =
        schedule_frees schedule sum amount
          (amount_of sender s.balances + amount_of sender s.delegated) block.time f h free
          (omega (arith, has)) in
      let (s', runs) =
        transfer_runs block sender rcpt recipient amount s _ positive v
          (debit_succeeds block sender amount y s (rw (e) locked_eq) has held room) balanced fits in
      (s', runs, execute_transfer_lem chain block sender rcpt recipient amount s s' [] v ne runs)
