-- ===== src/Vesting/Initial/Tests.antt =====
-- The creation of a small token.
use synergistic_juno_contrac.Base.{ℕ, ◌≡◌, refl, none, some, Option, List, [], ◌∷◌, ok, leb, arith}
use synergistic_juno_contrac.Base.Text.{Text, text_lt, text_eq}
use synergistic_juno_contrac.Base.Checked.{add_within}
use synergistic_juno_contrac.Base.Dict.{insert}
use synergistic_juno_contrac.Vesting.{Addr, Block, Chain, State}
use synergistic_juno_contrac.Vesting.Allowances.{validate_addr}
use synergistic_juno_contrac.Vesting.Supply.{Balanced}
use synergistic_juno_contrac.Vesting.Creation.{
  InitBalance, InstantiateMsg, utf8, as_bytes, is_valid_name, is_valid_symbol, is_symbol_byte,
  all_symbol_bytes, validate_cap, validate_msg, initial_cap,
}
use synergistic_juno_contrac.Vesting.Creation.Accounts.{
  insert_text, sort_texts, dedup_behind, dedup_texts, addresses_of, validate_accounts,
  open_schedule, save_schedule, add_accounts, create_accounts, minter_data, save_marketing,
  address_list, fresh, instantiate,
}
use synergistic_juno_contrac.Vesting.Initial.{instantiate-Balanced}
use synergistic_juno_contrac.Vesting.AllowList.{
  without, execute_add_address, execute_remove_address,
}
use synergistic_juno_contrac.Vesting.Execute.{allow_vester, deny_vester, execute}
use synergistic_juno_contrac.Vesting.Vesters.{Valid, idle, call, run-Valid}

-- Every text of one character is an address.
abbrev one_char : Text → Option Addr
one_char [] = none
one_char (x ∷ []) = some x
one_char (x ∷ y ∷ text) = none

one_char_injective : (t u : Text) (a : ℕ) → one_char t ≡ some a → one_char u ≡ some a → t ≡ u
one_char_injective [] u a h k = cc
one_char_injective (x ∷ []) [] a h k = cc
one_char_injective (x ∷ []) (y ∷ []) a h k = cc
one_char_injective (x ∷ []) (y ∷ z ∷ u) a h k = cc
one_char_injective (x ∷ w ∷ t) u a h k = cc

abbrev chain : Chain ℕ
chain = record {
  addr_validate = one_char;
  addr_text = λ a. a ∷ [];
  is_expired = λ e b. leb e b.time;
  default_expires = 0;
}

abbrev block : Block
block = record { height = 1; time = 15 }

abbrev rows : List InitBalance
rows =
    record { address = 5 ∷ []; amount = 100; vesting = none }
    ∷ record { address = 4 ∷ []; amount = 20; vesting = none }
    ∷ []

abbrev msg : InstantiateMsg
msg = record {
  name = 84 ∷ 79 ∷ 75 ∷ [];
  symbol = 84 ∷ 79 ∷ 75 ∷ [];
  decimals = 6;
  initial_balances = rows;
  mint = none;
  marketing = none;
  allowed_vesters = none;
  max_curve_complexity = 10;
}

abbrev created : State ℕ
created = record (fresh chain msg) {
  allowlist = 5 ∷ [];
  token_info = record {
    name = 84 ∷ 79 ∷ 75 ∷ [];
    symbol = 84 ∷ 79 ∷ 75 ∷ [];
    decimals = 6;
    total_supply = 120;
    mint = none;
  };
  balances = (5, 100) ∷ (4, 20) ∷ [];
}

rows_accepted : validate_accounts rows ≡ ok tt
unfolding validate_accounts addresses_of sort_texts insert_text dedup_texts dedup_behind text_lt
    text_eq
rows_accepted = refl

creation_runs : instantiate chain block 5 msg ≡ ok created
unfolding instantiate validate_msg is_valid_name is_valid_symbol as_bytes utf8 all_symbol_bytes
    is_symbol_byte validate_cap initial_cap create_accounts validate_accounts addresses_of
    sort_texts insert_text dedup_texts dedup_behind text_lt text_eq add_accounts open_schedule
    validate_addr save_schedule add_within insert minter_data save_marketing address_list
creation_runs = refl

instantiate-Balanced_example : Balanced chain created
instantiate-Balanced_example =
    instantiate-Balanced chain one_char_injective block 5 msg created creation_runs

names_creator : address_list chain 5 msg.allowed_vesters ≡ ok (5 ∷ [])
unfolding address_list
names_creator = refl

-- The creator lets account 4 send vesting tokens, which then removes the creator from the list.
abbrev allowed : State ℕ
allowed = record created { allowlist = 5 ∷ 4 ∷ [] }

abbrev denied : State ℕ
denied = record created { allowlist = 4 ∷ [] }

allow_runs : execute chain block 5 (allow_vester (4 ∷ [])) created ≡ ok (allowed, [])
unfolding execute execute_add_address validate_addr
allow_runs = refl

deny_runs : execute chain block 4 (deny_vester (5 ∷ [])) allowed ≡ ok (denied, [])
unfolding execute execute_remove_address validate_addr without
deny_runs = refl

run-Valid_example : Valid denied.allowlist
run-Valid_example =
    run-Valid chain block 5 msg (5 ∷ []) names_creator (λ e. omega arith, (refl, tt)) creation_runs
      (call block 5 (allow_vester (4 ∷ [])) [] allow_runs
        (call block 4 (deny_vester (5 ∷ [])) [] deny_runs idle))
