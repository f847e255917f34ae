-- ===== src/Group/Weights.antt =====
-- The total weight of a cw4-group is the sum of the weights of its members, after any message.
use synergistic_juno_contrac.Base.{
  ℕ, ◌≡◌, refl, Option, none, some, List, [], ◌∷◌, ok, ok_or, get_or, arith, Returns, returns, step,
  follow, returned, sym, ap, subst,
}
use synergistic_juno_contrac.Base.Checked.{add64, add_within, checked_sub}
use synergistic_juno_contrac.Base.Dict.{
  Dict, lookup, insert, erase, Unique, Unique-insert, Unique-erase, total, total-insert,
  total-erase,
}
use synergistic_juno_contrac.Base.Text.{Text}
use synergistic_juno_contrac.Controllers.Admin.{assert_admin}
use synergistic_juno_contrac.Controllers.Hooks.{prepare_hooks}
use synergistic_juno_contrac.Group.{Member, MemberDiff, State, overflow, std, not_found}
use synergistic_juno_contrac.Group.Members.{
  add_members, remove_member, remove_members, update_members, validate_unique_members, from_admin,
}
use synergistic_juno_contrac.Group.Execute.{
  ExecuteMsg, update_admin, update_members_msg, add_hook, remove_hook, Notice, notify, from_hook,
  execute,
}

-- No member is stored twice, and the weights sum to the total.
abbrev pub Weighed : ℕ → Dict ℕ → Type 0
Weighed n members = Unique members × (total members ≡ n)

pub record Consistent (s : State) : Type 0 where
  pub unique : Unique s.members
  pub weighed : s.total_weight ≡ some (total s.members)

insert-Weighed :
    (members : Dict ℕ) (addr weight n less n' : ℕ)
    → Weighed n members
    → ok_or (checked_sub n (get_or (lookup addr members) 0)) overflow ≡ ok less
    → ok_or (add64 less weight) overflow ≡ ok n'
    → Weighed n' (insert addr weight members)
unfolding checked_sub add_within
insert-Weighed members addr weight n less n' w e f =
    (Unique-insert addr weight members w.0, ground (arith, total-insert addr weight members))

erase-Weighed :
    (members : Dict ℕ) (addr weight n n' : ℕ)
    → Weighed n members
    → lookup addr members ≡ some weight
    → ok_or (checked_sub n weight) overflow ≡ ok n'
    → Weighed n' (erase addr members)
unfolding checked_sub
erase-Weighed members addr weight n n' w e f =
    (Unique-erase addr members w.0, ground (arith, total-erase addr members w.0))

stored_total :
    (s : State) (n : ℕ) → Consistent s → ok_or s.total_weight not_found ≡ ok n → total s.members ≡ n
stored_total s n c e = ground arith

same_members :
    (s s' : State)
    → Consistent s
    → s'.members ≡ s.members
    → s'.total_weight ≡ s.total_weight
    → Consistent s'
same_members s s' c e f = record {
  unique = subst Unique (sym e) c.unique;
  weighed = ground (arith, c.weighed);
}

module _ (addr_validate : Text → Option ℕ) where
  abbrev WeighedAfter : ℕ × Dict ℕ × List MemberDiff → Type 0
  WeighedAfter (n, members, _) = Weighed n members

  add_members-Weighed :
      (ms : List Member) (n : ℕ) (members : Dict ℕ) (diffs : List MemberDiff)
      → Weighed n members
      → Returns WeighedAfter (add_members addr_validate ms n members diffs)
  unfolding add_members
  add_members-Weighed [] n members diffs w = returns w
  add_members-Weighed (m ∷ ms) n members diffs w =
      search (step, add_members-Weighed ms, insert-Weighed) depth 10

  remove_member-Weighed :
      (text : Text) (addr n : ℕ) (members : Dict ℕ) (diffs : List MemberDiff) (old : Option ℕ)
      → Weighed n members
      → lookup addr members ≡ old
      → Returns WeighedAfter (remove_member text addr n members diffs old)
  unfolding remove_member checked_sub
  remove_member-Weighed text addr n members diffs none w e = returns w
  remove_member-Weighed text addr n members diffs (some weight) w e =
      search (step, returns, erase-Weighed) depth 8

  remove_members-Weighed :
      (texts : List Text) (n : ℕ) (members : Dict ℕ) (diffs : List MemberDiff)
      → Weighed n members
      → Returns WeighedAfter (remove_members addr_validate texts n members diffs)
  unfolding remove_members
  remove_members-Weighed [] n members diffs w = returns w
  remove_members-Weighed (text ∷ texts) n members diffs w =
      step (ok_or (addr_validate text) std) λ addr _.
        follow (remove_member-Weighed text addr n members diffs (lookup addr members) w refl)
          λ r v. remove_members-Weighed texts r.0 r.1 r.2 v

  update_members-Consistent :
      (sender : ℕ) (to_add : List Member) (to_remove : List Text) (s : State)
      → Consistent s
      → Returns (λ r. Consistent r.0) (update_members addr_validate sender to_add to_remove s)
  unfolding update_members
  update_members-Consistent sender to_add to_remove s c =
      step (validate_unique_members to_add) λ sorted _.
        step (from_admin (assert_admin sender s.admin)) λ _ _.
          step (ok_or s.total_weight not_found) λ n e.
            follow (add_members-Weighed sorted n s.members [] (c.unique, stored_total s n c e))
              λ r w.
                follow (remove_members-Weighed to_remove r.0 r.1 r.2 w)
                  λ q v. returns (record { unique = v.0; weighed = ap some (sym v.1) })

  handled :
      (sender : ℕ) (msg : ExecuteMsg) (s : State)
      → Consistent s
      → Returns (λ r. Consistent r.0) (execute addr_validate sender msg s)
  unfolding execute
  handled sender (update_admin admin) s c = search (step, returns, same_members)
  handled sender (add_hook text) s c = search (step, returns, same_members)
  handled sender (remove_hook text) s c = search (step, returns, same_members)
  handled sender (update_members_msg remove add) s c =
      follow (update_members-Consistent sender add remove s c)
        λ r k. step (from_hook (prepare_hooks (notify r.1) r.0.hooks)) λ notices _. returns k

  -- Every message that succeeds on a group in which no member is stored twice and the total
  -- weight is the sum of the weights leaves such a group.
  pub execute-Consistent :
      (sender : ℕ) (msg : ExecuteMsg) (s s' : State) (notices : List Notice)
      → execute addr_validate sender msg s ≡ ok (s', notices)
      → Consistent s
      → Consistent s'
  execute-Consistent sender msg s s' notices h c = returned (handled sender msg s c) h
