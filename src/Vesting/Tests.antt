-- ===== src/Vesting/Tests.antt =====
-- cw20-vesting on a small token: account 1 holds 100 tokens with a schedule, account 2 holds 50.
use synergistic_juno_contrac.Base.{
  inl, ℕ, ◌+◌, ◌≤◌, ◌<◌, ◌≡◌, ◌^◌, refl, Option, none, some, [], ◌∷◌, leb, ◌==◌, if◌then◌else◌, ok,
  arith,
}
use synergistic_juno_contrac.Base.Checked.{add_within, checked_sub, mul_within, checked_div}
use synergistic_juno_contrac.Base.Dict.{lookup, insert, amount_of, total}
use synergistic_juno_contrac.Curve.{Curve, saturating_linear}
use synergistic_juno_contrac.Curve.Value.{
  value, range, saturating_value, interpolate, saturating_range,
}
use synergistic_juno_contrac.Curve.Validate.{validate_monotonic_decreasing, saturating_decreasing}
use synergistic_juno_contrac.Curve.Monotone.{Fits}
use synergistic_juno_contrac.Curve.Bounded.{end_time}
use synergistic_juno_contrac.Vesting.{
  Text, Addr, Block, Chain, TokenInfo, MinterData, Allowance, State,
}
use synergistic_juno_contrac.Vesting.Coins.{locked, deduct_coins, credit}
use synergistic_juno_contrac.Vesting.Allowances.{
  validate_addr, deduct_allowance, execute_transfer_from,
}
use synergistic_juno_contrac.Vesting.Transfers.{execute_transfer, assert_schedule_vests_amount}
use synergistic_juno_contrac.Vesting.Execute.{transfer, execute}
use synergistic_juno_contrac.Vesting.Enforced.{Enforced}
use synergistic_juno_contrac.Vesting.Enforced.Messages.{execute-Enforced}
use synergistic_juno_contrac.Vesting.Supply.{Balanced}
use synergistic_juno_contrac.Vesting.Supply.Messages.{execute-Balanced}
use synergistic_juno_contrac.Vesting.Schedules.{schedule_bounded, schedule_ends}
use synergistic_juno_contrac.Vesting.Effects.{Moved, execute_transfer_lem}
use synergistic_juno_contrac.Vesting.Effects.Spending.{Spent, execute_transfer_from_lem}
use synergistic_juno_contrac.Vesting.Spendable.{execute_transfer_succeeds}
use synergistic_juno_contrac.Vesting.Vesters.{execute_outsider_lem}

-- Every text of one character is an address.
abbrev one_char : Text → Option Addr
one_char [] = none
one_char (x ∷ []) = some x
one_char (x ∷ y ∷ text) = none

abbrev chain : Chain ℕ
chain = record {
  addr_validate = one_char;
  addr_text = λ a. a ∷ [];
  is_expired = λ e b. leb e b.time;
  default_expires = 0;
}

abbrev block : Block
block = record { height = 7; time = 15 }

-- 80 tokens are locked until time 10, none from time 20 on.
abbrev schedule : Curve
schedule = saturating_linear (record { min_x = 10; min_y = 80; max_x = 20; max_y = 0 })

abbrev limited : MinterData
limited = record { minter = 2; cap = some (Curve.constant 200) }

abbrev info : TokenInfo
info = record {
  name = 84 ∷ 79 ∷ 75 ∷ [];
  symbol = 84 ∷ 79 ∷ 75 ∷ [];
  decimals = 6;
  total_supply = 150;
  mint = some limited;
}

abbrev granted : Addr → Addr → Option (Allowance ℕ)
granted owner spender =
    if owner == 1
    then (if spender == 3 then some (record { allowance = 30; expires = 99 }) else none)
    else none

abbrev start : State ℕ
start = record {
  allowlist = 2 ∷ [];
  token_info = info;
  balances = (1, 100) ∷ (2, 50) ∷ [];
  allowances = granted;
  vesting = λ a. if a == 1 then some schedule else none;
  max_vesting_complexity = 10;
  staking = some 9;
  delegated = [];
  marketing_info = none;
  logo = none;
}

-- Account 1 sends 60 to account 2.
abbrev sent : State ℕ
sent = record start { balances = (1, 40) ∷ (2, 110) ∷ [] }

transfer_runs : execute_transfer chain block 1 (2 ∷ []) 60 start ≡ ok (sent, [])
unfolding execute_transfer validate_addr deduct_coins locked value saturating_value interpolate
    credit lookup insert add_within checked_sub mul_within checked_div
transfer_runs = refl

message_runs : execute chain block 1 (transfer (2 ∷ []) 60) start ≡ ok (sent, [])
unfolding execute
message_runs = transfer_runs

start-Balanced : Balanced chain start
unfolding total
start-Balanced = refl

execute-Enforced_example : Enforced block 1 start sent
execute-Enforced_example =
    execute-Enforced chain block 1 1 (transfer (2 ∷ []) 60) start sent [] message_runs

execute-Balanced_example : Balanced chain sent
execute-Balanced_example =
    execute-Balanced chain block 1 (transfer (2 ∷ []) 60) start sent [] message_runs start-Balanced

execute_transfer_lem_example : Moved 1 2 60 start sent
execute_transfer_lem_example =
    execute_transfer_lem chain block 1 2 (2 ∷ []) 60 start sent [] refl (λ e. omega arith)
      transfer_runs

execute_outsider_lem_example : sent.allowlist ≡ start.allowlist
execute_outsider_lem_example =
    execute_outsider_lem chain block 1 (transfer (2 ∷ []) 60) start sent [] message_runs refl

-- The minter mints 50 tokens for account 1.
abbrev minted : State ℕ
minted = record start {
  token_info = record info { total_supply = 200 };
  balances = (1, 150) ∷ (2, 50) ∷ [];
}

-- Account 3 uses 10 of its allowance of 30 to send tokens of account 1 to account 2.
abbrev spent : State ℕ
spent = record start {
  balances = (1, 90) ∷ (2, 60) ∷ [];
  allowances = λ owner spender.
      (if 1 == owner
          then (λ (p : Addr).
              if 3 == p then some (record { allowance = 20; expires = 99 }) else granted 1 p)
          else granted owner)
        spender;
}

spend_runs : execute_transfer_from chain block 3 (1 ∷ []) (2 ∷ []) 10 start ≡ ok (spent, [])
unfolding execute_transfer_from validate_addr deduct_allowance deduct_coins locked value
    saturating_value interpolate credit lookup insert add_within checked_sub mul_within checked_div
spend_runs = refl

execute_transfer_from_lem_example : Spent chain block 1 3 10 start spent × Moved 1 2 10 start spent
execute_transfer_from_lem_example =
    execute_transfer_from_lem chain block 1 3 2 (1 ∷ []) (2 ∷ []) 10 start spent [] refl refl
      (λ e. omega arith) spend_runs

schedule-Fits : Fits schedule
schedule-Fits = record {
  start_fits = omega arith;
  end_fits = omega arith;
  rise_fits = omega arith;
  fall_fits = omega arith;
}

schedule_accepted : assert_schedule_vests_amount schedule 100 ≡ ok tt
unfolding assert_schedule_vests_amount validate_monotonic_decreasing saturating_decreasing range
    saturating_range
schedule_accepted = refl

schedule_over : end_time schedule ≤ 30
unfolding end_time
schedule_over = omega arith

schedule_bounded_example : (y : ℕ) × (value schedule 15 ≡ some y) × (y ≤ 100)
schedule_bounded_example = schedule_bounded schedule 100 15 schedule-Fits schedule_accepted

schedule_ends_example : value schedule 30 ≡ some 0
schedule_ends_example = schedule_ends schedule 100 30 schedule-Fits schedule_accepted schedule_over

-- After the end of its schedule account 1 sends all that it has.
abbrev later : Block
later = record { height = 9; time = 30 }

has_all : 100 ≤ amount_of 1 start.balances
unfolding lookup
has_all = omega arith

holding_fits : amount_of 1 start.balances + amount_of 1 start.delegated < 2 ^ 128
unfolding lookup
holding_fits = omega arith

execute_transfer_succeeds_example :
    (s' : State ℕ) × (execute_transfer chain later 1 (2 ∷ []) 100 start ≡ ok (s', []))
    × Moved 1 2 100 start s'
execute_transfer_succeeds_example =
    execute_transfer_succeeds chain later 1 2 (2 ∷ []) schedule 100 100 start refl schedule-Fits
      schedule_accepted (inl schedule_over) (omega arith) has_all holding_fits start-Balanced
      (omega arith) refl (λ e. omega arith)
