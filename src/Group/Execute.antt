-- ===== src/Group/Execute.antt =====
-- contracts/cw4-group/src/contract.rs: `execute`. A `Notice` is the message that a hook is sent.
use synergistic_juno_contrac.Base.{ℕ, Option, List, Result, ok, err, ◌>>=◌, ok_or}
use synergistic_juno_contrac.Base.Text.{Text}
use synergistic_juno_contrac.Controllers.Admin.{AdminError, Store, execute_update_admin}
use synergistic_juno_contrac.Controllers.Hooks.{
  HookError, execute_add_hook, execute_remove_hook, prepare_hooks,
}
use synergistic_juno_contrac.Group.{Error, std, hook, admin_error, Member, MemberDiff, State}
use synergistic_juno_contrac.Group.Members.{validate_optional, update_members}

pub data ExecuteMsg : Type 0 where
  update_admin : Option Text → ExecuteMsg
  update_members_msg : List Text → List Member → ExecuteMsg
  add_hook remove_hook : Text → ExecuteMsg

-- `MemberChangedHookMsg` to a hook.
pub record Notice : Type 0 where
  pub contract : ℕ
  pub diffs : List MemberDiff

-- `diff.clone().into_cosmos_msg(h).map(SubMsg::new)`
abbrev pub notify : List MemberDiff → ℕ → Result HookError Notice
notify diffs h = ok (record { contract = h; diffs = diffs })

abbrev pub from_hook {ℓ} : {A : Type ℓ} → Result HookError A → Result Error A
from_hook (ok a) = ok a
from_hook (err e) = err (hook e)

abbrev pub from_admin_store : Result AdminError Store → Result Error Store
from_admin_store (ok a) = ok a
from_admin_store (err e) = err (admin_error e)

module _ (addr_validate : Text → Option ℕ) where
  unfoldable pub execute_update_members :
      ℕ → List Member → List Text → State → Result Error (State × List Notice)
  execute_update_members sender add remove s = do
    (s', diffs) ← update_members addr_validate sender add remove s
    notices ← from_hook (prepare_hooks (notify diffs) s'.hooks)
    ok (s', notices)

  unfoldable pub execute : ℕ → ExecuteMsg → State → Result Error (State × List Notice)
  unfolding execute_update_members
  execute sender (update_admin admin) s = do
    new_admin ← validate_optional addr_validate admin
    admins ← from_admin_store (execute_update_admin sender new_admin s.admin)
    ok (record s { admin = admins }, List.[])
  execute sender (update_members_msg remove add) s = execute_update_members sender add remove s
  execute sender (add_hook text) s = do
    addr ← ok_or (addr_validate text) std
    hooks ← from_hook (execute_add_hook s.admin sender addr s.hooks)
    ok (record s { hooks = hooks }, List.[])
  execute sender (remove_hook text) s = do
    addr ← ok_or (addr_validate text) std
    hooks ← from_hook (execute_remove_hook s.admin sender addr s.hooks)
    ok (record s { hooks = hooks }, List.[])
