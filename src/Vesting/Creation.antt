-- ===== src/Vesting/Creation.antt =====
-- contracts/cw20-vesting/src/msg.rs: the message that creates a token, and its validation.
pub mod Accounts
use synergistic_juno_contrac.Base.{
  ℕ, ◌+◌, ◌/◌, ◌%◌, Bool, true, false, ◌&&◌, ◌||◌, Option, none, some, List, [], ◌∷◌, ◌++◌, ltb,
  leb, ◌==◌, if◌then◌else◌, Result, ok, err, ◌>>=◌, ◌>>◌, ensure, reject_if, ok_or, length,
}
use synergistic_juno_contrac.Base.Text.{text_lt, text_eq}
use synergistic_juno_contrac.Base.Checked.{add128}
use synergistic_juno_contrac.Base.Dict.{insert}
use synergistic_juno_contrac.Curve.{Curve, piecewise_linear}
use synergistic_juno_contrac.Curve.Value.{value}
use synergistic_juno_contrac.Curve.Validate.{validate_complexity, validate_monotonic_increasing}
use synergistic_juno_contrac.Vesting.{
  Text, Addr, Block, Chain, State, MinterData, Logo, LogoInfo, Error, std, generic,
  duplicate_initial_balance_addresses, invalid_name, invalid_symbol, too_many_decimals,
  migration_incorrect_curve, aborted,
}
use synergistic_juno_contrac.Vesting.Coins.{update}
use synergistic_juno_contrac.Vesting.Allowances.{validate_addr}
use synergistic_juno_contrac.Vesting.LogoChecks.{verify_logo}
use synergistic_juno_contrac.Vesting.Marketing.{logo_info_of}
use synergistic_juno_contrac.Vesting.Transfers.{
  from_curve, assert_schedule_vests_amount, fully_vested, exceeds,
}

pub record InstantiateMarketingInfo : Type 0 where
  pub project : Option Text
  pub description : Option Text
  pub marketing : Option Text
  pub logo : Option Logo

pub record InitBalance : Type 0 where
  pub address : Text
  pub amount : ℕ
  pub vesting : Option Curve

pub record MinterInfo : Type 0 where
  pub minter : Text
  pub cap : Option Curve

pub record InstantiateMsg : Type 0 where
  pub name : Text
  pub symbol : Text
  pub decimals : ℕ
  pub initial_balances : List InitBalance
  pub mint : Option MinterInfo
  pub marketing : Option InstantiateMarketingInfo
  pub allowed_vesters : Option (List Text)
  pub max_curve_complexity : ℕ

-- The UTF-8 bytes of a character, and of a string: `as_bytes`.
unfoldable pub utf8 : ℕ → List ℕ
utf8 c =
    if ltb c 128
    then c ∷ []
    else if ltb c 2048
    then (192 + c / 64) ∷ (128 + c % 64) ∷ []
    else if ltb c 65536
    then (224 + c / 4096) ∷ (128 + (c / 64) % 64) ∷ (128 + c % 64) ∷ []
    else (240 + c / 262144) ∷ (128 + (c / 4096) % 64) ∷ (128 + (c / 64) % 64) ∷ (128 + c % 64) ∷ []

unfoldable pub as_bytes : Text → List ℕ
unfolding utf8
as_bytes [] = []
as_bytes (c ∷ text) = utf8 c ++ as_bytes text

unfoldable pub is_valid_name : Text → Bool
unfolding as_bytes
is_valid_name name =
    let bytes = as_bytes name in
    if ltb (length bytes) 3 || ltb 50 (length bytes) then false else true

-- A dash or a letter.
unfoldable pub is_symbol_byte : ℕ → Bool
is_symbol_byte byte = byte == 45 || leb 65 byte && leb byte 90 || leb 97 byte && leb byte 122

unfoldable pub all_symbol_bytes : List ℕ → Bool
unfolding is_symbol_byte
all_symbol_bytes [] = true
all_symbol_bytes (byte ∷ bytes) = is_symbol_byte byte && all_symbol_bytes bytes

unfoldable pub is_valid_symbol : Text → Bool
unfolding as_bytes all_symbol_bytes
is_valid_symbol symbol =
    let bytes = as_bytes symbol in
    if ltb (length bytes) 3 || ltb 12 (length bytes) then false else all_symbol_bytes bytes

-- `InstantiateMsg::get_curve`
abbrev pub cap_curve : Option MinterInfo → Option Curve
cap_curve none = none
cap_curve (some m) = m.cap

-- `InstantiateMsg::get_cap`
unfoldable pub initial_cap : Option Curve → Block → Result Error (Option ℕ)
initial_cap none block = ok none
initial_cap (some c) block = ok_or (value c block.time) aborted >>= λ y. ok (some y)

unfoldable pub validate_cap : Option Curve → Result Error (Unit {0})
validate_cap none = ok tt
validate_cap (some c) = from_curve (validate_monotonic_increasing c)

-- `InstantiateMsg::validate`
unfoldable pub validate_msg : InstantiateMsg → Result Error (Unit {0})
unfolding is_valid_name is_valid_symbol validate_cap
validate_msg msg = do
  ensure (is_valid_name msg.name) invalid_name
  ensure (is_valid_symbol msg.symbol) invalid_symbol
  reject_if (ltb 18 msg.decimals) too_many_decimals
  validate_cap (cap_curve msg.mint)
