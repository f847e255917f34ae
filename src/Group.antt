-- ===== src/Group.antt =====
-- contracts/cw4-group: a group of weighted members with an administrator and hooks. The state
-- (src/state.rs) holds the current values of the snapshot items; reads at past heights are not
-- modelled. Raw address strings are texts, validated addresses are numbers.
pub mod Members
pub mod Execute
pub mod Unique
pub mod Weights
pub mod Creation
mod Tests
use synergistic_juno_contrac.Base.{ℕ, Option, List}
use synergistic_juno_contrac.Base.Dict.{Dict}
use synergistic_juno_contrac.Base.Text.{Text}
use synergistic_juno_contrac.Controllers.Admin.{Store, AdminError}
use synergistic_juno_contrac.Controllers.Hooks.{HookStore, HookError}

-- `Overflow` is raised by the checked operations on `Uint64`; `std` by address validation, and
-- `not_found` by a load of an item that was never stored.
pub data Error : Type 0 where
  std not_found overflow : Error
  hook : HookError → Error
  admin_error : AdminError → Error
  duplicate_member : Text → Error

-- cw4's `Member` and `MemberDiff`.
pub record Member : Type 0 where
  pub addr : Text
  pub weight : ℕ

pub record MemberDiff : Type 0 where
  pub key : Text
  pub old : Option ℕ
  pub new : Option ℕ

pub record State : Type 0 where
  pub admin : Store
  pub hooks : HookStore
  pub total_weight : Option ℕ
  pub members : Dict ℕ
