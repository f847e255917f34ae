-- ===== src/Vesting.antt =====
-- contracts/cw20-vesting: the token with vesting schedules. This module holds its state
-- (src/state.rs), its errors (src/error.rs) and the messages that it sends. Raw strings are
-- lists of code points. Validated addresses are only compared, so they are numbers.
pub mod Coins
pub mod Allowances
pub mod Transfers
pub mod Delegation
pub mod AllowList
pub mod LogoChecks
pub mod Marketing
pub mod Execute
pub mod Ledger
pub mod Supply
pub mod Enforced
pub mod Schedules
pub mod Effects
pub mod Vesters
pub mod Spendable
pub mod Creation
pub mod Queries
pub mod Initial
mod Tests
use synergistic_juno_contrac.Base.{ℕ, Option, List, Bool, Result}
use synergistic_juno_contrac.Base.Dict.{Dict}
use synergistic_juno_contrac.Curve.{Curve, CurveError}

abbrev pub Text : Type 0
Text = List ℕ

abbrev pub Addr : Type 0
Addr = ℕ

-- The part of `env.block` that the contract reads itself; the time is in seconds.
pub record Block : Type 0 where
  pub height : ℕ
  pub time : ℕ

-- What the contract takes from cosmwasm_std and cw_utils: the validation of an address, the text
-- of one, and the type `E` of expirations with its test and its default.
pub record Chain (E : Type 0) : Type 0 where
  pub addr_validate : Text → Option Addr
  pub addr_text : Addr → Text
  pub is_expired : E → Block → Bool
  pub default_expires : E

-- The variants of `StdError` that the contract raises.
pub data StdError : Type 0 where
  overflow not_found invalid_address generic : StdError

-- `aborted` is no variant of the source: it stands for a panic.
pub data Error : Type 0 where
  std : StdError → Error
  curve : CurveError → Error
  unauthorized cannot_set_own_account invalid_zero_amount expired no_allowance : Error
  cannot_exceed_cap logo_too_big invalid_xml_preamble invalid_png_header : Error
  duplicate_initial_balance_addresses never_fully_vested vests_more_than_sent : Error
  cant_move_vesting_tokens not_enough_to_delegate address_not_found address_already_exist : Error
  at_least_one_address_must_exist staking_address_not_set : Error
  staking_address_already_updated minter_address_not_set : Error
  unauthorized_update_staking_address unauthorized_undelegate no_tokens_delegated : Error
  migration_incorrect_curve invalid_name invalid_symbol too_many_decimals aborted : Error

pub record MinterData : Type 0 where
  pub minter : Addr
  pub cap : Option Curve

pub record TokenInfo : Type 0 where
  pub name : Text
  pub symbol : Text
  pub decimals : ℕ
  pub total_supply : ℕ
  pub mint : Option MinterData

pub record Allowance (E : Type 0) : Type 0 where
  pub allowance : ℕ
  pub expires : E

-- The variants of cw20's `Logo`: a link, or an embedded file.
pub data Logo : Type 0 where
  url : Text → Logo
  svg png : List ℕ → Logo

pub data LogoInfo : Type 0 where
  link : Text → LogoInfo
  embedded : LogoInfo

pub record MarketingInfo : Type 0 where
  pub project : Option Text
  pub description : Option Text
  pub logo_info : Option LogoInfo
  pub marketing : Option Addr

-- The storage of the contract.
pub record State (E : Type 0) : Type 0 where
  pub allowlist : List Addr
  pub token_info : TokenInfo
  pub balances : Dict ℕ
  pub allowances : Addr → Addr → Option (Allowance E)
  pub vesting : Addr → Option Curve
  pub max_vesting_complexity : ℕ
  pub staking : Option Addr
  pub delegated : Dict ℕ
  pub marketing_info : Option MarketingInfo
  pub logo : Option Logo

-- The messages that a handler adds to its response: `Cw20ReceiveMsg` and
-- `Cw20ReceiveDelegationMsg` to a contract, with sender, amount and payload.
pub data Message : Type 0 where
  receive receive_delegation : Text → Addr → ℕ → List ℕ → Message

abbrev pub Outcome : Type 0 → Type 0
Outcome E = Result Error (State E × List Message)
