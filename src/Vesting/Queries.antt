-- ===== src/Vesting/Queries.antt =====
-- contracts/cw20-vesting/src/contract.rs and src/allowances.rs: the queries.
use synergistic_juno_contrac.Base.{
  ℕ, Option, none, some, List, map, Result, ok, err, ◌>>=◌, ok_or, get_or,
}
use synergistic_juno_contrac.Base.Dict.{amount_of}
use synergistic_juno_contrac.Curve.{Curve}
use synergistic_juno_contrac.Curve.Value.{value}
use synergistic_juno_contrac.Vesting.{
  Text, Addr, Block, Chain, State, Allowance, MarketingInfo, url, svg, png, Error, std, not_found,
  aborted,
}
use synergistic_juno_contrac.Vesting.Coins.{locked}
use synergistic_juno_contrac.Vesting.Allowances.{validate_addr, allowance_or_default}

pub record TokenInfoResponse : Type 0 where
  pub name : Text
  pub symbol : Text
  pub decimals : ℕ
  pub total_supply : ℕ

pub record VestingResponse : Type 0 where
  pub schedule : Option Curve
  pub locked_amount : ℕ

pub record MinterResponse : Type 0 where
  pub minter : Text
  pub cap : Option Curve
  pub current_cap : Option ℕ

-- The types of embedded logos: "image/svg+xml" and "image/png".
pub data MimeType : Type 0 where
  image_svg image_png : MimeType

-- The cap's value at a time, which may panic.
unfoldable pub current_cap : Option Curve → ℕ → Result Error (Option ℕ)
current_cap none t = ok none
current_cap (some c) t = ok_or (value c t) aborted >>= λ y. ok (some y)

module _ {E : Type 0} (chain : Chain E) where
  unfoldable pub query_balance : Text → State E → Result Error ℕ
  unfolding validate_addr
  query_balance text s = do address ← validate_addr chain text; ok (amount_of address s.balances)

  unfoldable pub query_vesting : Block → Text → State E → Result Error VestingResponse
  unfolding validate_addr locked
  query_vesting block text s = do
    address ← validate_addr chain text
    amount ← locked (s.vesting address) block.time
    ok (record { schedule = s.vesting address; locked_amount = amount })

  unfoldable pub query_delegated : Text → State E → Result Error ℕ
  unfolding validate_addr
  query_delegated text s = do address ← validate_addr chain text; ok (amount_of address s.delegated)

  unfoldable pub query_token_info : State E → TokenInfoResponse
  query_token_info s = record {
    name = s.token_info.name;
    symbol = s.token_info.symbol;
    decimals = s.token_info.decimals;
    total_supply = s.token_info.total_supply;
  }

  unfoldable pub query_minter : Block → State E → Result Error (Option MinterResponse)
  unfolding current_cap
  query_minter block s = elim s.token_info.mint [
    | none ↦ ok none
    | some m ↦ current_cap m.cap block.time >>= λ c.
        ok (some (record { minter = chain.addr_text m.minter; cap = m.cap; current_cap = c }))
  ]

  -- `unwrap_or_default`
  unfoldable pub query_marketing_info : State E → MarketingInfo
  query_marketing_info s =
      get_or s.marketing_info
        (record { project = none; description = none; logo_info = none; marketing = none })

  unfoldable pub query_allow_list : State E → List Text
  query_allow_list s = map chain.addr_text s.allowlist

  unfoldable pub query_download_logo : State E → Result Error (MimeType × List ℕ)
  query_download_logo s = elim s.logo [
    | none ↦ err (std not_found)
    | some (svg data_bytes) ↦ ok (image_svg, data_bytes)
    | some (png data_bytes) ↦ ok (image_png, data_bytes)
    | some (url _) ↦ err (std not_found)
  ]

  unfoldable pub query_allowance : Text → Text → State E → Result Error (Allowance E)
  unfolding validate_addr
  query_allowance owner spender s = do
    owner_addr ← validate_addr chain owner
    spender_addr ← validate_addr chain spender
    ok (allowance_or_default chain (s.allowances owner_addr spender_addr))

  -- `query_max_complexity` and `query_staking_address`
  unfoldable pub query_max_complexity : State E → ℕ
  query_max_complexity s = s.max_vesting_complexity

  unfoldable pub query_staking_address : State E → Option Addr
  query_staking_address s = s.staking
