-- ===== src/Vesting/Creation/Accounts.antt =====
-- contracts/cw20-vesting/src/contract.rs: the creation of a token, and the migration. The version
-- record of cw2 is left out; `older` is the outcome of its check.
use synergistic_juno_contrac.Base.{
  ℕ, Option, none, some, List, [], ◌∷◌, ◌==◌, if◌then◌else◌, Result, ok, err, ◌>>=◌, ◌>>◌, ensure,
  reject_if, ok_or, length,
}
use synergistic_juno_contrac.Base.Text.{text_lt, text_eq}
use synergistic_juno_contrac.Base.Checked.{add128}
use synergistic_juno_contrac.Base.Dict.{insert}
use synergistic_juno_contrac.Curve.{Curve, piecewise_linear}
use synergistic_juno_contrac.Curve.Validate.{validate_complexity}
use synergistic_juno_contrac.Vesting.{
  Text, Addr, Block, Chain, State, MinterData, Logo, LogoInfo, Error, std, generic,
  duplicate_initial_balance_addresses, migration_incorrect_curve, aborted,
}
use synergistic_juno_contrac.Vesting.Coins.{update}
use synergistic_juno_contrac.Vesting.Allowances.{validate_addr}
use synergistic_juno_contrac.Vesting.LogoChecks.{verify_logo}
use synergistic_juno_contrac.Vesting.Marketing.{logo_info_of}
use synergistic_juno_contrac.Vesting.Transfers.{
  from_curve, assert_schedule_vests_amount, fully_vested, exceeds,
}
use synergistic_juno_contrac.Vesting.Creation.{
  InstantiateMarketingInfo, InitBalance, MinterInfo, InstantiateMsg, cap_curve, initial_cap,
  validate_msg,
}

-- `sort` and `dedup` on strings.
unfoldable pub insert_text : Text → List Text → List Text
insert_text x [] = x ∷ []
insert_text x (y ∷ ys) = let rest = insert_text x ys in if text_lt y x then y ∷ rest else x ∷ y ∷ ys

unfoldable pub sort_texts : List Text → List Text
unfolding insert_text
sort_texts [] = []
sort_texts (x ∷ xs) = insert_text x (sort_texts xs)

-- `dedup` behind an element that is kept.
unfoldable pub dedup_behind : Text → List Text → List Text
dedup_behind x [] = []
dedup_behind x (y ∷ ys) =
    let dropped = dedup_behind x ys in
    let kept = dedup_behind y ys in if text_eq x y then dropped else y ∷ kept

unfoldable pub dedup_texts : List Text → List Text
unfolding dedup_behind
dedup_texts [] = []
dedup_texts (x ∷ xs) = x ∷ dedup_behind x xs

unfoldable pub addresses_of : List InitBalance → List Text
addresses_of [] = []
addresses_of (row ∷ rows) = row.address ∷ addresses_of rows

unfoldable pub validate_accounts : List InitBalance → Result Error (Unit {0})
unfolding addresses_of sort_texts dedup_texts
validate_accounts rows =
    let addresses = dedup_texts (sort_texts (addresses_of rows)) in
    ensure (length addresses == length rows) duplicate_initial_balance_addresses

-- The schedule of a row that is not over yet.
unfoldable pub open_schedule : Block → ℕ → Option Curve → Result Error (Option Curve)
unfolding assert_schedule_vests_amount fully_vested
open_schedule block amount none = ok none
open_schedule block amount (some schedule) = do
  assert_schedule_vests_amount schedule amount
  over ← fully_vested schedule block
  ok (if over then none else some schedule)

module _ {E : Type 0} (chain : Chain E) where
  unfoldable pub save_schedule : Addr → Option Curve → State E → Result Error (State E)
  save_schedule address none s = ok s
  save_schedule address (some schedule) s = do
    from_curve (validate_complexity schedule s.max_vesting_complexity)
    ok (record s { vesting = update s.vesting address (some schedule) })

  -- The loop of `create_accounts`, with the total so far.
  unfoldable pub add_accounts : Block → List InitBalance → ℕ → State E → Result Error (ℕ × State E)
  unfolding open_schedule validate_addr save_schedule
  add_accounts block [] total_supply s = ok (total_supply, s)
  add_accounts block (row ∷ rows) total_supply s = do
    vesting ← open_schedule block row.amount row.vesting
    address ← validate_addr chain row.address
    s1 ← save_schedule address vesting s
    sum ← ok_or (add128 total_supply row.amount) aborted
    add_accounts block rows sum (record s1 { balances = insert address row.amount s1.balances })

  unfoldable pub create_accounts : Block → List InitBalance → State E → Result Error (ℕ × State E)
  unfolding validate_accounts add_accounts
  create_accounts block rows s = do validate_accounts rows; add_accounts block rows 0 s

  unfoldable pub minter_data : Option MinterInfo → Result Error (Option MinterData)
  minter_data none = ok none
  minter_data (some m) = do
    minter ← validate_addr chain m.minter
    ok (some (record { minter = minter; cap = m.cap }))

  unfoldable pub verify_optional : Option Logo → Result Error (Unit {0})
  verify_optional none = ok tt
  verify_optional (some logo) = verify_logo logo

  abbrev pub optional_info : Option Logo → Option LogoInfo
  optional_info none = none
  optional_info (some logo) = some (logo_info_of logo)

  unfoldable pub optional_addr : Option Text → Result Error (Option Addr)
  optional_addr none = ok none
  optional_addr (some text) = validate_addr chain text >>= λ a. ok (some a)

  unfoldable pub save_marketing : Option InstantiateMarketingInfo → State E → Result Error (State E)
  unfolding verify_optional optional_addr
  save_marketing none s = ok s
  save_marketing (some m) s = do
    verify_optional m.logo
    addr ← optional_addr m.marketing
    ok (record s {
      logo = m.logo;
      marketing_info = some (record {
        project = m.project;
        description = m.description;
        logo_info = optional_info m.logo;
        marketing = addr;
      });
    })

  unfoldable pub validate_all : List Text → Result Error (List Addr)
  validate_all [] = ok []
  validate_all (text ∷ texts) = do
    addr ← validate_addr chain text
    addrs ← validate_all texts
    ok (addr ∷ addrs)

  -- The creator may send vesting tokens if no one is named.
  unfoldable pub address_list : Addr → Option (List Text) → Result Error (List Addr)
  unfolding validate_all
  address_list sender none = ok (sender ∷ [])
  address_list sender (some texts) = validate_all texts

  -- The storage before the creation, with the limit on schedules saved.
  abbrev pub fresh : InstantiateMsg → State E
  fresh msg = record {
    allowlist = [];
    token_info = record {
      name = msg.name;
      symbol = msg.symbol;
      decimals = msg.decimals;
      total_supply = 0;
      mint = none;
    };
    balances = [];
    allowances = λ owner spender. none;
    vesting = λ a. none;
    max_vesting_complexity = msg.max_curve_complexity;
    staking = none;
    delegated = [];
    marketing_info = none;
    logo = none;
  }

  unfoldable pub instantiate : Block → Addr → InstantiateMsg → Result Error (State E)
  unfolding validate_msg initial_cap create_accounts minter_data save_marketing address_list
  instantiate block sender msg = do
    validate_msg msg
    cap ← initial_cap (cap_curve msg.mint) block
    (total_supply, s) ← create_accounts block msg.initial_balances (fresh msg)
    reject_if (exceeds total_supply cap) (std generic)
    mint ← minter_data msg.mint
    s1 ← save_marketing msg.marketing (record s {
      token_info = record (s.token_info) { total_supply = total_supply; mint = mint };
    })
    allowlist ← address_list sender msg.allowed_vesters
    ok (record s1 { allowlist = allowlist })

-- The new cap replaces the old one; it is not validated.
unfoldable pub migrate :
    {E : Type 0} → Result Error (Unit {0}) → Curve → State E → Result Error (State E)
migrate older (piecewise_linear c) s = do
  older
  m ← ok_or s.token_info.mint aborted
  ok (record s {
    token_info = record (s.token_info) {
      mint = some (record m { cap = some (piecewise_linear c) });
    };
  })
migrate older c s = older >> err migration_incorrect_curve
