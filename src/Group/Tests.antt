-- ===== src/Group/Tests.antt =====
-- cw4-group on two members.
use synergistic_juno_contrac.Base.{ℕ, ◌≡◌, refl, none, some, Option, List, [], ◌∷◌, ok}
use synergistic_juno_contrac.Base.Text.{Text, text_lt, text_eq}
use synergistic_juno_contrac.Base.Checked.{add_within, checked_sub}
use synergistic_juno_contrac.Base.Dict.{lookup, insert, erase, total}
use synergistic_juno_contrac.Controllers.Admin.{assert_admin, is_admin, get, set}
use synergistic_juno_contrac.Controllers.Hooks.{prepare_hooks, prepare_list}
use synergistic_juno_contrac.Group.{Member, State}
use synergistic_juno_contrac.Group.Members.{
  insert_member, sort_members, check_neighbours, validate_unique_members, validate_optional,
  save_members, create, add_members, remove_member, remove_members, update_members,
}
use synergistic_juno_contrac.Group.Execute.{update_members_msg, execute_update_members, execute}
use synergistic_juno_contrac.Group.Weights.{Consistent, execute-Consistent}
use synergistic_juno_contrac.Group.Creation.{create-Consistent}

-- Every text of one character is an address.
abbrev one_char : Text → Option ℕ
one_char [] = none
one_char (x ∷ []) = some x
one_char (x ∷ y ∷ text) = none

one_char_injective : (t u : Text) (a : ℕ) → one_char t ≡ some a → one_char u ≡ some a → t ≡ u
one_char_injective [] u a h k = cc
one_char_injective (x ∷ []) [] a h k = cc
one_char_injective (x ∷ []) (y ∷ []) a h k = cc
one_char_injective (x ∷ []) (y ∷ z ∷ u) a h k = cc
one_char_injective (x ∷ w ∷ t) u a h k = cc

abbrev two : List Member
two = record { addr = 5 ∷ []; weight = 10 } ∷ record { addr = 4 ∷ []; weight = 7 } ∷ []

abbrev two_sorted : List Member
two_sorted = record { addr = 4 ∷ []; weight = 7 } ∷ record { addr = 5 ∷ []; weight = 10 } ∷ []

abbrev start : State
start = record {
  admin = some (some 1);
  hooks = none;
  total_weight = some 17;
  members = (4, 7) ∷ (5, 10) ∷ [];
}

sorted_runs : validate_unique_members two ≡ ok two_sorted
unfolding validate_unique_members sort_members insert_member check_neighbours text_lt text_eq
sorted_runs = refl

create_runs : create one_char (some (1 ∷ [])) two ≡ ok start
unfolding create validate_unique_members sort_members insert_member check_neighbours text_lt text_eq
    validate_optional save_members add_within insert set
create_runs = refl

-- Member 4 leaves, and member 5 gets another weight.
abbrev changed : State
changed = record start { total_weight = some 3; members = (5, 3) ∷ [] }

update_runs :
    execute one_char 1
      (update_members_msg ((4 ∷ []) ∷ []) (record { addr = 5 ∷ []; weight = 3 } ∷ []))
      start
    ≡ ok (changed, [])
unfolding execute execute_update_members update_members validate_unique_members sort_members
    insert_member check_neighbours assert_admin is_admin get add_members remove_members
    remove_member add_within checked_sub lookup insert erase prepare_hooks prepare_list
update_runs = refl

start_Consistent : Consistent start
unfolding lookup total
start_Consistent = record { unique = (refl, (refl, tt)); weighed = refl }

execute-Consistent_example : Consistent changed
execute-Consistent_example =
    execute-Consistent one_char 1
      (update_members_msg ((4 ∷ []) ∷ []) (record { addr = 5 ∷ []; weight = 3 } ∷ [])) start changed
      [] update_runs start_Consistent

create-Consistent_example : Consistent start
create-Consistent_example =
    create-Consistent one_char one_char_injective (some (1 ∷ [])) two start create_runs
