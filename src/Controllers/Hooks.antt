-- ===== src/Controllers/Hooks.antt =====
-- packages/controllers/src/hooks.rs: the list of contracts that are told of changes, in one
-- stored item.
use synergistic_juno_contrac.Base.{
  ℕ, Bool, Option, some, List, [], ◌∷◌, ◌++◌, ◌==◌, not, if◌then◌else◌, Result, ok, err, ◌>>=◌,
  ◌>>◌, ensure, ok_or, get_or, contains,
}
use synergistic_juno_contrac.Controllers.Admin.{AdminError, Store, assert_admin}

pub data HookError : Type 0 where
  not_found hook_already_registered hook_not_registered : HookError
  admin : AdminError → HookError

abbrev pub HookStore : Type 0
HookStore = Option (List ℕ)

-- `may_load(..)?.unwrap_or_default()`, and `query_hooks`.
abbrev pub query_hooks : HookStore → List ℕ
query_hooks store = get_or store []

unfoldable pub add_hook : ℕ → HookStore → Result HookError HookStore
add_hook addr store =
    let hooks = query_hooks store in
    if not (contains addr hooks)
    then ok (some (hooks ++ addr ∷ []))
    else err hook_already_registered

-- `hooks.remove(p)` at the first position of the address.
unfoldable pub remove_first : ℕ → List ℕ → List ℕ
remove_first addr [] = []
remove_first addr (x ∷ xs) = if addr == x then xs else x ∷ remove_first addr xs

unfoldable pub remove_hook : ℕ → HookStore → Result HookError HookStore
unfolding remove_first
remove_hook addr store = do
  hooks ← ok_or store not_found
  ensure (contains addr hooks) hook_not_registered
  ok (some (remove_first addr hooks))

-- `prepare_hooks`: one message for each hook, or the first error.
unfoldable pub prepare_list {ℓ} :
    {M : Type ℓ} → (ℕ → Result HookError M) → List ℕ → Result HookError (List M)
prepare_list prep [] = ok []
prepare_list prep (h ∷ hooks) = do m ← prep h; ms ← prepare_list prep hooks; ok (m ∷ ms)

unfoldable pub prepare_hooks {ℓ} :
    {M : Type ℓ} → (ℕ → Result HookError M) → HookStore → Result HookError (List M)
unfolding prepare_list
prepare_hooks prep store = prepare_list prep (query_hooks store)

-- `From<AdminError> for HookError`
abbrev pub from_admin : Result AdminError (Unit {0}) → Result HookError (Unit {0})
from_admin (ok u) = ok tt
from_admin (err e) = err (admin e)

unfoldable pub execute_add_hook : Store → ℕ → ℕ → HookStore → Result HookError HookStore
unfolding add_hook
execute_add_hook admins sender addr store = do
  from_admin (assert_admin sender admins)
  add_hook addr store

unfoldable pub execute_remove_hook : Store → ℕ → ℕ → HookStore → Result HookError HookStore
unfolding remove_hook
execute_remove_hook admins sender addr store = do
  from_admin (assert_admin sender admins)
  remove_hook addr store

-- `query_hook`
unfoldable pub query_hook : ℕ → HookStore → Bool
query_hook hook store = contains hook (query_hooks store)
