-- ===== src/Vesting/Vesters.antt =====
-- The list of accounts that may send vesting tokens, through every message of cw20-vesting.
use synergistic_juno_contrac.Base.{
  ◌≡◌, ◌≢◌, Option, refl, sym, subst, >>=-eq-ok, Bool, true, false, List, [], ◌∷◌, ◌++◌, ok, ensure,
  arith, contains, length, Returns, returns, step, returned,
}
use synergistic_juno_contrac.Vesting.{Text, Addr, Block, Chain, State, Message, Error, unauthorized}
use synergistic_juno_contrac.Vesting.Coins.{deduct_coins, credit, reduce_supply}
use synergistic_juno_contrac.Vesting.AllowList.{
  without, execute_add_address, execute_remove_address,
}
use synergistic_juno_contrac.Vesting.Allowances.{
  validate_addr, deduct_allowance, execute_increase_allowance, execute_decrease_allowance,
  execute_transfer_from, execute_burn_from, execute_send_from,
}
use synergistic_juno_contrac.Vesting.Creation.{InstantiateMsg}
use synergistic_juno_contrac.Vesting.Creation.Accounts.{address_list, instantiate}
use synergistic_juno_contrac.Vesting.Transfers.{
  store_schedule, execute_transfer, execute_transfer_vesting, execute_burn, execute_mint,
  execute_update_minter, execute_send,
}
use synergistic_juno_contrac.Vesting.Delegation.{
  execute_update_staking_address, execute_delegate, execute_undelegate,
}
use synergistic_juno_contrac.Vesting.Marketing.{execute_update_marketing, execute_upload_logo}
use synergistic_juno_contrac.Vesting.Execute.{
  ExecuteMsg, transfer, transfer_vesting, burn, send, increase_allowance, decrease_allowance,
  transfer_from, send_from, burn_from, mint, update_minter, update_marketing, upload_logo,
  allow_vester, deny_vester, update_staking_address, delegate, undelegate, execute,
}

-- No account is listed twice.
abbrev pub NoDuplicates : List Addr → Type 0
NoDuplicates [] = Unit
NoDuplicates (x ∷ xs) = (contains x xs ≡ false) × NoDuplicates xs

-- The list holds an account, and none twice.
abbrev pub Valid : List Addr → Type 0
Valid xs = (length xs ≢ 0) × NoDuplicates xs

contains-append :
    (x y : Addr) (xs : List Addr)
    → contains x xs ≡ false
    → x ≢ y
    → contains x (xs ++ y ∷ []) ≡ false
contains-append x y [] h ne = ground arith
contains-append x y (z ∷ zs) h ne = ground (arith, contains-append x y zs)

NoDuplicates-append :
    (y : Addr) (xs : List Addr)
    → NoDuplicates xs
    → contains y xs ≡ false
    → NoDuplicates (xs ++ y ∷ [])
NoDuplicates-append y [] d h = (refl, tt)
NoDuplicates-append y (x ∷ xs) d h =
    ground (arith, contains-append x y xs, NoDuplicates-append y xs d.1)

contains-without :
    (x addr : Addr) (xs : List Addr) → contains x xs ≡ false → contains x (without addr xs) ≡ false
unfolding without
contains-without x addr [] h = refl
contains-without x addr (y ∷ ys) h = ground (arith, contains-without x addr ys)

NoDuplicates-without :
    (addr : Addr) (xs : List Addr) → NoDuplicates xs → NoDuplicates (without addr xs)
unfolding without
NoDuplicates-without addr [] d = tt
NoDuplicates-without addr (x ∷ xs) d =
    ground (arith, contains-without x addr xs, NoDuplicates-without addr xs d.1)

length-append_one : (y : Addr) (xs : List Addr) → length (xs ++ y ∷ []) ≢ 0
length-append_one y [] = ground arith
length-append_one y (x ∷ xs) = ground arith

module _ {E : Type 0} (chain : Chain E) (block : Block) (sender : Addr) where
  -- The two messages that change the list.
  abbrev edits : ExecuteMsg E → Bool
  edits (allow_vester address) = true
  edits (deny_vester address) = true
  edits msg = false

  -- Every other message leaves the list alone.
  kept_list :
      (msg : ExecuteMsg E) (s s' : State E) (ms : List Message)
      → edits msg ≡ false
      → execute chain block sender msg s ≡ ok (s', ms)
      → s'.allowlist ≡ s.allowlist
  unfolding execute execute_transfer execute_transfer_vesting execute_burn execute_mint
      execute_update_minter execute_send execute_increase_allowance execute_decrease_allowance
      execute_transfer_from execute_burn_from execute_send_from execute_update_staking_address
      execute_delegate execute_undelegate execute_update_marketing execute_upload_logo
      store_schedule deduct_allowance deduct_coins credit reduce_supply
  kept_list (transfer r x) s s' ms n h = ground arith
  kept_list (transfer_vesting r x c) s s' ms n h = ground arith
  kept_list (burn x) s s' ms n h = ground arith
  kept_list (send c x m) s s' ms n h = ground arith
  kept_list (increase_allowance p x e) s s' ms n h = ground arith
  kept_list (decrease_allowance p x e) s s' ms n h = ground arith
  kept_list (transfer_from o r x) s s' ms n h = ground arith
  kept_list (send_from o c x m) s s' ms n h = ground arith
  kept_list (burn_from o x) s s' ms n h = ground arith
  kept_list (mint r x) s s' ms n h = ground arith
  kept_list (update_minter m) s s' ms n h = ground arith
  kept_list (update_marketing p d m) s s' ms n h = ground arith
  kept_list (upload_logo l) s s' ms n h = ground arith
  kept_list (allow_vester t) s s' ms n h = ground arith
  kept_list (deny_vester t) s s' ms n h = ground arith
  kept_list (update_staking_address t) s s' ms n h = ground arith
  kept_list (delegate x m) s s' ms n h = ground arith
  kept_list (undelegate r x) s s' ms n h = ground arith

  added_Valid :
      (address : Text) (s s' : State E) (ms : List Message)
      → execute_add_address chain sender address s ≡ ok (s', ms)
      → NoDuplicates s.allowlist
      → Valid s'.allowlist
  unfolding execute_add_address
  added_Valid address s s' ms h d =
      let (u, e, rest) = >>=-eq-ok (ensure (contains sender s.allowlist) unauthorized) _ h in
      let (x, v, last) = >>=-eq-ok (validate_addr chain address) _ rest in
      ground (arith, NoDuplicates-append x s.allowlist d, length-append_one x s.allowlist)

  removed_Valid :
      (address : Text) (s s' : State E) (ms : List Message)
      → execute_remove_address chain sender address s ≡ ok (s', ms)
      → NoDuplicates s.allowlist
      → Valid s'.allowlist
  unfolding execute_remove_address
  removed_Valid address s s' ms h d =
      let (u, e, rest) = >>=-eq-ok (ensure (contains sender s.allowlist) unauthorized) _ h in
      let (x, v, last) = >>=-eq-ok (validate_addr chain address) _ rest in
      ground (arith, NoDuplicates-without x s.allowlist d)

  -- A list that holds an account, and none twice, stays so whatever message succeeds.
  pub execute-Valid :
      (msg : ExecuteMsg E) (s s' : State E) (ms : List Message)
      → execute chain block sender msg s ≡ ok (s', ms)
      → Valid s.allowlist
      → Valid s'.allowlist
  unfolding execute
  execute-Valid (allow_vester t) s s' ms h v = added_Valid t s s' ms h v.1
  execute-Valid (deny_vester t) s s' ms h v = removed_Valid t s s' ms h v.1
  execute-Valid msg s s' ms h v = subst Valid (sym (kept_list msg s s' ms refl h)) v

  -- Only an account that may send vesting tokens changes the list of these accounts: a message from
  -- any other sender leaves it alone.
  pub execute_outsider_lem :
      (msg : ExecuteMsg E) (s s' : State E) (ms : List Message)
      → execute chain block sender msg s ≡ ok (s', ms)
      → contains sender s.allowlist ≡ false
      → s'.allowlist ≡ s.allowlist
  unfolding execute execute_add_address execute_remove_address
  execute_outsider_lem (allow_vester t) s s' ms h n = ground arith
  execute_outsider_lem (deny_vester t) s s' ms h n = ground arith
  execute_outsider_lem msg s s' ms h n = kept_list msg s s' ms refl h

module _ {E : Type 0} (chain : Chain E) where
  -- The messages that take the token from one state to another.
  pub data Run : State E → State E → Type 0 where
    idle : {s : State E} → Run s s
    call :
        {s t u : State E} (block : Block) (sender : Addr) (msg : ExecuteMsg E) (sent : List Message)
        → execute chain block sender msg s ≡ ok (t, sent)
        → Run t u
        → Run s u

  abbrev Listed : List Addr → State E → Type 0
  Listed xs s = s.allowlist ≡ xs

  Listed-last :
      (creator : Addr) (texts : Option (List Text)) (xs ys : List Addr) (s : State E)
      → address_list chain creator texts ≡ ok xs
      → address_list chain creator texts ≡ ok ys
      → s.allowlist ≡ ys
      → Returns {E = Error} (Listed xs) (ok s)
  Listed-last creator texts xs ys s e h a = returns (cc)

  listed :
      (block : Block) (creator : Addr) (msg : InstantiateMsg) (xs : List Addr)
      → address_list chain creator msg.allowed_vesters ≡ ok xs
      → Returns (Listed xs) (instantiate chain block creator msg)
  unfolding instantiate
  listed block creator msg xs e = search (step, Listed-last) depth 20

  follow_Valid : {s u : State E} → Valid s.allowlist → Run s u → Valid u.allowlist
  follow_Valid v idle = v
  follow_Valid {s = s} v (call {t = t} block sender msg sent h r) =
      follow_Valid (execute-Valid chain block sender msg s t sent h v) r

  -- If the creation names at least one account that may send vesting tokens, and none twice, or names
  -- none at all, which lists the creator, then the list of these accounts never becomes empty and
  -- never lists an account twice, whatever messages follow.
  pub run-Valid :
      {s u : State E} (block : Block) (creator : Addr) (msg : InstantiateMsg) (xs : List Addr)
      → address_list chain creator msg.allowed_vesters ≡ ok xs
      → Valid xs
      → instantiate chain block creator msg ≡ ok s
      → Run s u
      → Valid u.allowlist
  run-Valid block creator msg xs e v h r =
      follow_Valid (subst Valid (sym (returned (listed block creator msg xs e) h)) v) r
