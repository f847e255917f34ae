-- ===== src/Controllers/Admin.antt =====
-- packages/controllers/src/admin.rs: one optional administrator. The stored item is `none`
-- before `set` was called, and `some none` for a contract without an administrator.
use synergistic_juno_contrac.Base.{
  ℕ, Bool, false, Option, none, some, ◌==◌, Result, ok, ◌>>=◌, ◌>>◌, ensure, ok_or,
}

pub data AdminError : Type 0 where
  not_found not_admin : AdminError

abbrev pub Store : Type 0
Store = Option (Option ℕ)

-- `Admin::set`
unfoldable pub set : Option ℕ → Store → Store
set admin _ = some admin

-- `Admin::get`, and `query_admin`; loading an item that was never stored is an error.
unfoldable pub get : Store → Result AdminError (Option ℕ)
get store = ok_or store not_found

abbrev pub matches : Option ℕ → ℕ → Bool
matches none caller = false
matches (some owner) caller = caller == owner

unfoldable pub is_admin : ℕ → Store → Result AdminError Bool
unfolding get
is_admin caller store = do admin ← get store; ok (matches admin caller)

unfoldable pub assert_admin : ℕ → Store → Result AdminError (Unit {0})
unfolding is_admin
assert_admin caller store = do answer ← is_admin caller store; ensure answer not_admin

unfoldable pub execute_update_admin : ℕ → Option ℕ → Store → Result AdminError Store
unfolding assert_admin set
execute_update_admin sender new_admin store = do assert_admin sender store; ok (set new_admin store)
