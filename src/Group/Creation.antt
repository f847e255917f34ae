-- ===== src/Group/Creation.antt =====
-- A new cw4-group is consistent: `create` sums the weights that it stores.
use synergistic_juno_contrac.Base.{
  ℕ, ◌≡◌, ◌≢◌, refl, Option, none, some, List, [], ◌∷◌, ok, ok_or, arith, All, Returns, returns,
  step, follow, returned, sym, ap, subst,
}
use synergistic_juno_contrac.Base.Checked.{add64, add_within}
use synergistic_juno_contrac.Base.Dict.{
  Dict, lookup, insert, Unique-insert, total, total-insert, lookup-insert,
}
use synergistic_juno_contrac.Base.Text.{Text}
use synergistic_juno_contrac.Group.{Member, State, overflow, std}
use synergistic_juno_contrac.Group.Members.{
  save_members, create, validate_unique_members, validate_optional,
}
use synergistic_juno_contrac.Group.Unique.{DistinctAddrs, validate-DistinctAddrs}
use synergistic_juno_contrac.Group.Weights.{Weighed, Consistent}

insert_fresh-Weighed :
    (members : Dict ℕ) (addr weight n n' : ℕ)
    → Weighed n members
    → lookup addr members ≡ none
    → ok_or (add64 n weight) overflow ≡ ok n'
    → Weighed n' (insert addr weight members)
unfolding add_within
insert_fresh-Weighed members addr weight n n' w e f =
    (Unique-insert addr weight members w.0, ground (arith, total-insert addr weight members))

validated : (o : Option ℕ) (a : ℕ) → ok_or o std ≡ ok a → o ≡ some a
validated none a e = cc
validated (some b) a e = cc

-- `addr_validate` returns the address that it was given, so two texts never give one address.
module _ (addr_validate : Text → Option ℕ)
    (injective : (t u : Text) (a : ℕ)
      → addr_validate t ≡ some a
      → addr_validate u ≡ some a
      → t ≡ u) where
  -- The address of no further member is stored yet.
  abbrev Fresh : List Member → Dict ℕ → Type 0
  Fresh ms members = All (λ m. (a : ℕ) → addr_validate m.addr ≡ some a → lookup a members ≡ none) ms

  Fresh-insert :
      (m : Member) (addr : ℕ) (ms : List Member) (members : Dict ℕ)
      → addr_validate m.addr ≡ some addr
      → All (λ n. m.addr ≢ n.addr) ms
      → Fresh ms members
      → Fresh ms (insert addr m.weight members)
  Fresh-insert m addr [] members e d f = tt
  Fresh-insert m addr (n ∷ ns) members e d f = (
    λ a v. ground (
      arith,
      lookup-insert addr a m.weight members,
      f.0 a v,
      λ (q : addr ≡ a).
          d.0 (injective m.addr n.addr a (subst (λ x. addr_validate m.addr ≡ some x) q e) v),
    ),
    Fresh-insert m addr ns members e d.1 f.1,
  )

  save_members-Weighed :
      (ms : List Member) (n : ℕ) (members : Dict ℕ)
      → Weighed n members
      → Fresh ms members
      → DistinctAddrs ms
      → Returns (λ r. Weighed r.0 r.1) (save_members addr_validate ms n members)
  unfolding save_members
  save_members-Weighed [] n members w f d = returns w
  save_members-Weighed (m ∷ ms) n members w f d = step (ok_or (add64 n m.weight) overflow) λ n' e.
      step (ok_or (addr_validate m.addr) std) λ addr v.
        let v' = validated (addr_validate m.addr) addr v in
        save_members-Weighed ms n' (insert addr m.weight members)
          (insert_fresh-Weighed members addr m.weight n n' w (f.0 addr v') e)
          (Fresh-insert m addr ms members v' d.0 f.1) d.1

  Fresh-empty : (ms : List Member) → Fresh ms []
  unfolding lookup
  Fresh-empty [] = tt
  Fresh-empty (m ∷ ms) = (λ a e. refl, Fresh-empty ms)

  created :
      (admin : Option Text) (ms : List Member) → Returns Consistent (create addr_validate admin ms)
  unfolding create
  created admin ms = step (validate_unique_members ms) λ sorted v.
      step (validate_optional addr_validate admin) λ admin_addr _.
        follow
          (save_members-Weighed sorted 0 [] (tt, nothing) (Fresh-empty sorted)
            (validate-DistinctAddrs ms sorted v))
          λ r w. returns (record { unique = w.0; weighed = ap some (sym w.1) })
    where
      nothing : total [] ≡ 0
      nothing = unfold total in refl

  -- A group that `create` returns stores no member twice, and its total weight is the sum of the
  -- weights, provided that address validation never gives one address for two texts.
  pub create-Consistent :
      (admin : Option Text) (ms : List Member) (s : State)
      → create addr_validate admin ms ≡ ok s
      → Consistent s
  create-Consistent admin ms s h = returned (created admin ms) h
