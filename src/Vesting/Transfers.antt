-- ===== src/Vesting/Transfers.antt =====
-- contracts/cw20-vesting/src/contract.rs: the handlers that move, create and destroy tokens, and
-- the checks of a schedule in src/msg.rs.
use synergistic_juno_contrac.Base.{
  ℕ, Bool, false, Option, none, some, List, [], ◌∷◌, ltb, ◌==◌, if◌then◌else◌, Result, ok, err,
  ◌>>=◌, ◌>>◌, ensure, reject_if, ok_or, contains,
}
use synergistic_juno_contrac.Base.Checked.{add128}
use synergistic_juno_contrac.Curve.{Curve}
use synergistic_juno_contrac.Curve
use synergistic_juno_contrac.Curve.Value.{value, range}
use synergistic_juno_contrac.Curve.Validate.{
  Check, validate_monotonic_decreasing, validate_complexity,
}
use synergistic_juno_contrac.Curve.Combine.{combine}
use synergistic_juno_contrac.Vesting.{
  Text, Addr, Block, Chain, State, MinterData, Error, Outcome, receive, curve, unauthorized,
  invalid_zero_amount, never_fully_vested, vests_more_than_sent, cannot_exceed_cap, aborted,
}
use synergistic_juno_contrac.Vesting.Coins.{update, deduct_coins, credit, reduce_supply}
use synergistic_juno_contrac.Vesting.Allowances.{validate_addr}

-- `From<CurveError> for ContractError`; a panic stays a panic.
abbrev pub from_curve : Check → Result Error (Unit {0})
from_curve (ok u) = ok tt
from_curve (err Curve.CurveError.aborted) = err aborted
from_curve (err e) = err (curve e)

-- `assert_schedule_vests_amount`
unfoldable pub assert_schedule_vests_amount : Curve → ℕ → Result Error (Unit {0})
assert_schedule_vests_amount schedule amount = do
  from_curve (validate_monotonic_decreasing schedule)
  (low, high) ← ok_or (range schedule) aborted
  ensure (low == 0) never_fully_vested
  reject_if (ltb amount high) vests_more_than_sent

-- `fully_vested`
unfoldable pub fully_vested : Curve → Block → Result Error Bool
fully_vested schedule block = do y ← ok_or (value schedule block.time) aborted; ok (y == 0)

-- The closure of `VESTING.update`: the old schedule plus the new one.
unfoldable pub add_schedule : Option Curve → Curve → Result Error Curve
add_schedule none schedule = ok schedule
add_schedule (some old) schedule = ok_or (combine old schedule) aborted

-- `TokenInfo::get_cap`
unfoldable pub get_cap : Option MinterData → ℕ → Result Error (Option ℕ)
get_cap none t = ok none
get_cap (some m) t = elim m.cap [
  | none ↦ ok none
  | some c ↦ ok_or (value c t) aborted >>= λ y. ok (some y)
]

-- The comparison of the new supply with the cap.
abbrev pub exceeds : ℕ → Option ℕ → Bool
exceeds supply none = false
exceeds supply (some limit) = ltb limit supply

-- Whether the sender is the minter; without a minter nobody is.
abbrev pub is_minter : Option MinterData → Addr → Bool
is_minter none sender = false
is_minter (some m) sender = m.minter == sender

module _ {E : Type 0} (chain : Chain E) where
  unfoldable pub execute_transfer : Block → Addr → Text → ℕ → State E → Outcome E
  unfolding validate_addr
  execute_transfer block sender recipient amount s = do
    reject_if (amount == 0) invalid_zero_amount
    rcpt_addr ← validate_addr chain recipient
    s1 ← deduct_coins block sender amount s
    s2 ← credit rcpt_addr amount s1
    ok (s2, [])

  -- A schedule that is not over yet is added to the recipient's.
  unfoldable pub store_schedule : Block → Addr → Curve → State E → Result Error (State E)
  unfolding fully_vested add_schedule
  store_schedule block rcpt schedule s = do
    over ← fully_vested schedule block
    if over then ok s else (do
      sum ← add_schedule (s.vesting rcpt) schedule
      from_curve (validate_complexity sum s.max_vesting_complexity)
      ok (record s { vesting = update s.vesting rcpt (some sum) }))

  unfoldable pub execute_transfer_vesting : Block → Addr → Text → ℕ → Curve → State E → Outcome E
  unfolding validate_addr
  execute_transfer_vesting block sender recipient amount schedule s = do
    ensure (contains sender s.allowlist) unauthorized
    reject_if (amount == 0) invalid_zero_amount
    assert_schedule_vests_amount schedule amount
    rcpt_addr ← validate_addr chain recipient
    s1 ← store_schedule block rcpt_addr schedule s
    s2 ← deduct_coins block sender amount s1
    s3 ← credit rcpt_addr amount s2
    ok (s3, [])

  unfoldable pub execute_burn : Block → Addr → ℕ → State E → Outcome E
  execute_burn block sender amount s = do
    reject_if (amount == 0) invalid_zero_amount
    s1 ← deduct_coins block sender amount s
    s2 ← reduce_supply amount s1
    ok (s2, [])

  unfoldable pub execute_mint : Block → Addr → Text → ℕ → State E → Outcome E
  unfolding validate_addr get_cap
  execute_mint block sender recipient amount s = do
    reject_if (amount == 0) invalid_zero_amount
    ensure (is_minter s.token_info.mint sender) unauthorized
    supply ← ok_or (add128 s.token_info.total_supply amount) aborted
    limit ← get_cap s.token_info.mint block.time
    reject_if (exceeds supply limit) cannot_exceed_cap
    rcpt_addr ← validate_addr chain recipient
    s1 ←
        credit rcpt_addr amount
          (record s { token_info = record (s.token_info) { total_supply = supply } })
    ok (s1, [])

  unfoldable pub execute_update_minter : Addr → Text → State E → Outcome E
  unfolding validate_addr
  execute_update_minter sender minter s = do
    mint_addr ← validate_addr chain minter
    m ← ok_or s.token_info.mint unauthorized
    ensure (m.minter == sender) unauthorized
    ok (
      record s {
        token_info = record (s.token_info) { mint = some (record m { minter = mint_addr }) };
      },
      [],
    )

  unfoldable pub execute_send : Block → Addr → Text → ℕ → List ℕ → State E → Outcome E
  unfolding validate_addr
  execute_send block sender contract amount msg s = do
    reject_if (amount == 0) invalid_zero_amount
    rcpt_addr ← validate_addr chain contract
    s1 ← deduct_coins block sender amount s
    s2 ← credit rcpt_addr amount s1
    ok (s2, receive contract sender amount msg ∷ [])
