-- ===== src/Vesting/AllowList.antt =====
-- contracts/cw20-vesting/src/contract.rs: the list of accounts that may send vesting tokens.
use synergistic_juno_contrac.Base.{
  List, [], ◌∷◌, ◌++◌, ◌==◌, if◌then◌else◌, ok, ◌>>=◌, ◌>>◌, ensure, reject_if, contains, length,
}
use synergistic_juno_contrac.Vesting.{
  Text, Addr, Chain, State, Outcome, unauthorized, address_already_exist, address_not_found,
  at_least_one_address_must_exist,
}
use synergistic_juno_contrac.Vesting.Allowances.{validate_addr}

-- `into_iter().filter(|item| *item != addr)`
unfoldable pub without : Addr → List Addr → List Addr
without addr [] = []
without addr (x ∷ xs) = let rest = without addr xs in if x == addr then rest else x ∷ rest

module _ {E : Type 0} (chain : Chain E) where
  unfoldable pub execute_add_address : Addr → Text → State E → Outcome E
  unfolding validate_addr
  execute_add_address sender address s = do
    ensure (contains sender s.allowlist) unauthorized
    addr ← validate_addr chain address
    reject_if (contains addr s.allowlist) address_already_exist
    ok (record s { allowlist = s.allowlist ++ addr ∷ [] }, [])

  unfoldable pub execute_remove_address : Addr → Text → State E → Outcome E
  unfolding validate_addr
  execute_remove_address sender address s = do
    ensure (contains sender s.allowlist) unauthorized
    addr ← validate_addr chain address
    let kept = without addr s.allowlist
    reject_if (length s.allowlist == length kept) address_not_found
    reject_if (length kept == 0) at_least_one_address_must_exist
    ok (record s { allowlist = kept }, [])
