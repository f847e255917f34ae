-- ===== src/Group/Members.antt =====
-- contracts/cw4-group/src/contract.rs and src/helpers.rs: the changes of the member list.
use synergistic_juno_contrac.Base.{
  ℕ, Option, none, some, List, [], ◌∷◌, ◌++◌, if◌then◌else◌, Result, ok, err, ◌>>=◌, ◌>>◌, ok_or,
  get_or,
}
use synergistic_juno_contrac.Base.Checked.{add64, checked_sub}
use synergistic_juno_contrac.Base.Dict.{Dict, lookup, insert, erase}
use synergistic_juno_contrac.Base.Text.{Text, text_eq, text_lt}
use synergistic_juno_contrac.Controllers.Admin.{AdminError, assert_admin, set}
use synergistic_juno_contrac.Group.{
  Error, std, not_found, overflow, admin_error, duplicate_member, Member, MemberDiff, State,
}

-- `members.sort_by(|a, b| a.addr.cmp(&b.addr))`, which is stable.
unfoldable pub insert_member : Member → List Member → List Member
insert_member m [] = m ∷ []
insert_member m (n ∷ ns) = if text_lt n.addr m.addr then n ∷ insert_member m ns else m ∷ n ∷ ns

unfoldable pub sort_members : List Member → List Member
unfolding insert_member
sort_members [] = []
sort_members (m ∷ ms) = insert_member m (sort_members ms)

-- The loop over neighbours of the sorted slice.
unfoldable pub check_neighbours : List Member → Result Error (Unit {0})
check_neighbours [] = ok tt
check_neighbours (m ∷ []) = ok tt
check_neighbours (m ∷ n ∷ ns) =
    let rest = check_neighbours (n ∷ ns) in
    if text_eq m.addr n.addr then err (duplicate_member m.addr) else rest

-- `validate_unique_members`: the slice is left sorted.
unfoldable pub validate_unique_members : List Member → Result Error (List Member)
unfolding sort_members check_neighbours
validate_unique_members members = do
  let sorted = sort_members members
  check_neighbours sorted
  ok sorted

-- `From<AdminError> for ContractError`
abbrev pub from_admin : Result AdminError (Unit {0}) → Result Error (Unit {0})
from_admin (ok u) = ok tt
from_admin (err e) = err (admin_error e)

-- One round of the loop over `to_remove`.
unfoldable pub remove_member :
    Text → ℕ → ℕ → Dict ℕ → List MemberDiff → Option ℕ → Result Error (ℕ × Dict ℕ × List MemberDiff)
remove_member text addr total members diffs none = ok (total, members, diffs)
remove_member text addr total members diffs (some weight) = do
  total' ← ok_or (checked_sub total weight) overflow
  ok (
    total',
    erase addr members,
    diffs ++ record { key = text; old = some weight; new = none } ∷ [],
  )

module _ (addr_validate : Text → Option ℕ) where
  -- The loop of `create`, on the total and the members.
  unfoldable pub save_members : List Member → ℕ → Dict ℕ → Result Error (ℕ × Dict ℕ)
  save_members [] total members = ok (total, members)
  save_members (m ∷ ms) total members = do
    total' ← ok_or (add64 total m.weight) overflow
    addr ← ok_or (addr_validate m.addr) std
    save_members ms total' (insert addr m.weight members)

  -- `admin.map(|admin| addr_validate(&admin)).transpose()?`
  unfoldable pub validate_optional : Option Text → Result Error (Option ℕ)
  validate_optional none = ok none
  validate_optional (some text) = do addr ← ok_or (addr_validate text) std; ok (some addr)

  -- `create`, on a fresh contract.
  unfoldable pub create : Option Text → List Member → Result Error State
  unfolding validate_unique_members validate_optional save_members
  create admin members = do
    sorted ← validate_unique_members members
    admin_addr ← validate_optional admin
    (total, saved) ← save_members sorted 0 []
    ok (record {
      admin = set admin_addr none;
      hooks = none;
      total_weight = some total;
      members = saved;
    })

  -- The loop over `to_add`.
  unfoldable pub add_members :
      List Member → ℕ → Dict ℕ → List MemberDiff → Result Error (ℕ × Dict ℕ × List MemberDiff)
  add_members [] total members diffs = ok (total, members, diffs)
  add_members (m ∷ ms) total members diffs = do
    addr ← ok_or (addr_validate m.addr) std
    let old = lookup addr members
    less ← ok_or (checked_sub total (get_or old 0)) overflow
    total' ← ok_or (add64 less m.weight) overflow
    add_members ms total' (insert addr m.weight members)
        (diffs ++ record { key = m.addr; old = old; new = some m.weight } ∷ [])

  unfoldable pub remove_members :
      List Text → ℕ → Dict ℕ → List MemberDiff → Result Error (ℕ × Dict ℕ × List MemberDiff)
  unfolding remove_member
  remove_members [] total members diffs = ok (total, members, diffs)
  remove_members (text ∷ texts) total members diffs = do
    addr ← ok_or (addr_validate text) std
    (total', members', diffs') ← remove_member text addr total members diffs (lookup addr members)
    remove_members texts total' members' diffs'

  -- `update_members`: the new state and the diffs for the hooks.
  unfoldable pub update_members :
      ℕ → List Member → List Text → State → Result Error (State × List MemberDiff)
  unfolding validate_unique_members add_members remove_members
  update_members sender to_add to_remove s = do
    sorted ← validate_unique_members to_add
    from_admin (assert_admin sender s.admin)
    total ← ok_or s.total_weight not_found
    (total1, members1, diffs1) ← add_members sorted total s.members []
    (total2, members2, diffs2) ← remove_members to_remove total1 members1 diffs1
    ok (record s { total_weight = some total2; members = members2 }, diffs2)
