-- ===== src/Gauge/Moves.antt =====
-- What placing votes does to the points (contracts/synergistic_wynd_gauge/src/contract.rs).
use synergistic_juno_contrac.Base.{
  ℕ, ◌+◌, Bool, ◌≡◌, refl, Option, none, some, List, [], ◌∷◌, arith, get_or, ◌==◌, if◌then◌else◌,
}
use synergistic_juno_contrac.Base.Checked.{
  add128, checked_sub, u128_mod, add_within-eq-some, checked_sub-eq-some, Gives, gives, pass, given,
  weaken,
}
use synergistic_juno_contrac.Base.Dict.{
  lookup, insert, amount_of, Unique, Unique-insert, lookup-insert,
}
use synergistic_juno_contrac.Gauge.{Decimals, Vote, Tally}
use synergistic_juno_contrac.Gauge.Counting.{Update, update_option, update_options, update_tallies}
use synergistic_juno_contrac.Gauge.Placing.{Diff, old_of, to_updates, old_diff, new_diff}

-- The old and the new votes that a diff has for an option.
abbrev pub new_of : Option (ℕ × ℕ) → ℕ
new_of none = 0
new_of (some (_, new)) = new

abbrev pub olds : ℕ → Diff → ℕ
olds o d = old_of (lookup o d)

abbrev pub news : ℕ → Diff → ℕ
news o d = new_of (lookup o d)

module _ (name_lt : ℕ → ℕ → Bool) where
  update_option_points :
      (u : Update) (o : ℕ) (t : Tally)
      → Gives
          (λ t'.
            amount_of o t'.points + (if u.option == o then u.old_vote else 0)
            ≡ amount_of o t.points + (if u.option == o then u.new_vote else 0))
          (update_option name_lt u t)
  unfolding update_option
  update_option_points u o t =
      pass (add128 (amount_of u.option t.points) u.new_vote) λ raised add_eq.
        pass (checked_sub raised u.old_vote) λ count sub_eq. gives (
          ground (
            arith,
            lookup-insert u.option o count t.points,
            add_within-eq-some u128_mod (amount_of u.option t.points) u.new_vote add_eq,
            checked_sub-eq-some raised u.old_vote sub_eq,
          ))

  abbrev PointsMoved : ℕ → Diff → Tally → ℕ × ℕ × Tally → Type 0
  PointsMoved o d t (_, _, t') = amount_of o t'.points + olds o d ≡ amount_of o t.points + news o d

  update_options_points :
      (d : Diff) (o a b : ℕ) (t : Tally)
      → Unique d
      → Gives (PointsMoved o d t) (update_options name_lt (to_updates d) a b t)
  unfolding update_options to_updates lookup
  update_options_points [] o a b t u = gives refl
  update_options_points ((k, (old, new)) ∷ d) o a b t u = pass (add128 a old) λ old_sum old_eq.
      pass (add128 b new) λ new_sum new_eq.
        pass (update_option name_lt (record { option = k; old_vote = old; new_vote = new }) t)
          λ next next_eq.
            let here =
              given
                (update_option_points (record { option = k; old_vote = old; new_vote = new }) o t)
                next_eq in
            weaken (λ (x, y, t') later. ground (arith, here, later, u.0))
              (update_options_points d o old_sum new_sum next u.1)

  pub update_tallies_points :
      (d : Diff) (o : ℕ) (t : Tally)
      → Unique d
      → Gives
          (λ t'. amount_of o t'.points + olds o d ≡ amount_of o t.points + news o d)
          (update_tallies name_lt (to_updates d) t)
  unfolding update_tallies
  update_tallies_points d o t u =
      pass (update_options name_lt (to_updates d) 0 0 t) λ (x, y, next) loop_eq.
        pass (add128 (get_or next.total_cast 0) y) λ raised add_eq.
          pass (checked_sub raised x)
            λ left sub_eq. gives (given (update_options_points d o 0 0 t u) loop_eq)

module _ {D : Type 0} (decimals : Decimals D) where
  -- The part of a power that votes give an option: that of the last vote for it.
  abbrev pub part : ℕ → ℕ → List (Vote D) → ℕ → ℕ
  part o power [] n = n
  part o power (v ∷ vs) n =
      part o power vs (if v.option == o then get_or (decimals.times power v.weight) 0 else n)

  -- A map of unique options in which `o` has the given old and new votes.
  abbrev pub Has : ℕ → ℕ → ℕ → Diff → Type 0
  Has o old new d = Unique d × (olds o d ≡ old) × (news o d ≡ new)

  pub old_diff-Has :
      (o power : ℕ) (vs : List (Vote D)) (d : Diff) (old : ℕ)
      → Has o old 0 d
      → Gives (Has o (part o power vs old) 0) (old_diff decimals power vs d)
  unfolding old_diff
  old_diff-Has o power [] d old h = gives h
  old_diff-Has o power (v ∷ vs) d old h = pass (decimals.times power v.weight) λ n n_eq.
      let now = if v.option == o then n else old in
      let has : Has o now 0 (insert v.option (n, 0) d) = (
        Unique-insert v.option (n, 0) d h.0,
        ground (arith, lookup-insert v.option o (n, 0) d, h.1),
        ground (arith, lookup-insert v.option o (n, 0) d, h.2),
      ) in
      rw n_eq (old_diff-Has o power vs (insert v.option (n, 0) d) now has)

  pub new_diff-Has :
      (o power : ℕ) (vs : List (Vote D)) (d : Diff) (old new : ℕ)
      → Has o old new d
      → Gives (Has o old (part o power vs new)) (new_diff decimals power vs d)
  unfolding new_diff
  new_diff-Has o power [] d old new h = gives h
  new_diff-Has o power (v ∷ vs) d old new h = pass (decimals.times power v.weight) λ n n_eq.
      let now = if v.option == o then n else new in
      let kept = old_of (lookup v.option d) in
      let has : Has o old now (insert v.option (kept, n) d) = (
        Unique-insert v.option (kept, n) d h.0,
        ground (arith, lookup-insert v.option o (kept, n) d, h.1),
        ground (arith, lookup-insert v.option o (kept, n) d, h.2),
      ) in
      rw n_eq (new_diff-Has o power vs (insert v.option (kept, n) d) old now has)
