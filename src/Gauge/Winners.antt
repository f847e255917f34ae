-- ===== src/Gauge/Winners.antt =====
-- The selected set of contracts/synergistic_wynd_gauge/src/contract.rs: no option is left out in
-- favour of one with fewer points.
use synergistic_juno_contrac.Base.{
  ℕ, zero, suc, ◌≤◌, true, false, ◌≡◌, refl, Option, none, some, List, [], ◌∷◌, arith, length,
  is_some, All, ◌⊎◌, inl, inr, Bool-cases, Option-cases, ◌==◌, if◌then◌else◌, ◌||◌, ok, ok_or,
  Returns, returns, raises, step, returned, get_or, ap, sym, ◌∙◌,
}
use synergistic_juno_contrac.Base.Checked.{Gives, gives, pass, given, weaken}
use synergistic_juno_contrac.Base.Dict.{Dict, lookup, Unique, total}
use synergistic_juno_contrac.Gauge.{Error, not_found, aborted, Decimals, Gauge, Tally, State}
use synergistic_juno_contrac.Gauge.Index.{Descending, Below}
use synergistic_juno_contrac.Gauge.Selection.{
  is_selected, capped, select, selected_set, is_resetting, tally_of,
}
use synergistic_juno_contrac.Gauge.Counted.{Counted, Mirrored}
use synergistic_juno_contrac.Gauge.Consistent.{Consistent}

lookup-Below :
    (b o : ℕ) (index : Dict ℕ) → All (Below b) index → (p : ℕ) → lookup o index ≡ some p → p ≤ b
unfolding lookup
lookup-Below b o [] a p e = absurd (cc)
lookup-Below b o ((r, q) ∷ index) a p e = ground (arith, lookup-Below b o index a.1 p)

module _ {D : Type 0} (decimals : Decimals D) (g : Gauge D) (total_cast : ℕ) where
  -- A set of at most `n` options: those in it are options of the tally that pass the test, with
  -- their points up to the cap; an option that passes and is not in it finds the set full of options
  -- with at least as many points.
  pub record Winners (n : ℕ) (points : Dict ℕ) (set : List (ℕ × ℕ)) : Type 0 where
    pub few : length set ≤ n
    pub once : Unique set
    pub sound :
        (o share : ℕ)
        → lookup o set ≡ some share
        → (p : ℕ) × (lookup o points ≡ some p)
          × (is_selected decimals g total_cast p ≡ some true)
          × (capped decimals g total_cast p ≡ some share)
    pub complete :
        (o p : ℕ)
        → lookup o points ≡ some p
        → is_selected decimals g total_cast p ≡ some true
        → (is_some (lookup o set) ≡ true)
          ⊎ ((length set ≡ n)
              × ((k q : ℕ) → lookup k points ≡ some q → is_some (lookup k set) ≡ true → p ≤ q))

  absent :
      (n : ℕ) (index set : Dict ℕ)
      → Winners n index set
      → (o : ℕ) → lookup o index ≡ none
      → lookup o set ≡ none
  absent n index set w o e = elim (Option-cases (lookup o set)) [
    | inl gone ↦ gone
    | inr (share, listed) ↦ absurd (let (p, at, _, _) = w.sound o share listed in cc)
  ]

  -- The first option of the index is taken.
  winner :
      (n option power share : ℕ) (index : Dict ℕ) (set : List (ℕ × ℕ))
      → Unique ((option, power) ∷ index)
      → Descending ((option, power) ∷ index)
      → is_selected decimals g total_cast power ≡ some true
      → capped decimals g total_cast power ≡ some share
      → Winners n index set
      → Winners (suc n) ((option, power) ∷ index) ((option, share) ∷ set)
  unfolding lookup
  winner n option power share index set u d t e w = record {
    few = omega (arith, w.few);
    once = (absent n index set w option u.0, w.once);
    sound = λ o v listed. elim (Bool-cases (option == o)) [
      | inl same ↦ (power, ground arith, t, ground arith)
      | inr other ↦
          let (p, at, passes, share_eq) = w.sound o v (ground arith) in
          (p, ground arith, passes, share_eq)
    ];
    complete = λ o p listed passes. elim (Bool-cases (option == o)) [
      | inl same ↦ inl (ground arith)
      | inr other ↦ elim (w.complete o p (ground arith) passes) [
        | inl taken ↦ inl (ground arith)
        | inr (full, best) ↦ inr (
          omega (arith, full),
          λ k q at taken. elim (Bool-cases (option == k)) [
            | inl first ↦ ground (arith, lookup-Below power o index d.0 p)
            | inr later ↦ best k q (ground arith) (ground arith)
          ],
        )
      ]
    ];
  }

  -- The first option of the index does not pass the test.
  loser :
      (n option power : ℕ) (index : Dict ℕ) (set : List (ℕ × ℕ))
      → Unique ((option, power) ∷ index)
      → is_selected decimals g total_cast power ≡ some false
      → Winners (suc n) index set
      → Winners (suc n) ((option, power) ∷ index) set
  unfolding lookup
  loser n option power index set u t w = record {
    few = w.few;
    once = w.once;
    sound = λ o v listed.
        let (p, at, passes, share_eq) = w.sound o v listed in (p, ground arith, passes, share_eq);
    complete = λ o p listed passes. elim (Bool-cases (option == o)) [
      | inl same ↦ absurd (ground arith)
      | inr other ↦ elim (w.complete o p (ground arith) passes) [
        | inl taken ↦ inl taken
        | inr (full, best) ↦ inr (
          full,
          λ k q at taken. elim (Bool-cases (option == k)) [
            | inl first ↦ ground (arith, absent (suc n) index set w option u.0)
            | inr later ↦ best k q (ground arith) taken
          ],
        )
      ]
    ];
  }

  select-Winners :
      (n : ℕ) (index : Dict ℕ)
      → Unique index
      → Descending index
      → Gives (Winners n index) (select decimals g total_cast n index)
  unfolding select lookup
  select-Winners zero index u d = gives (record {
    few = omega arith;
    once = tt;
    sound = λ o share e. absurd (cc);
    complete = λ o p e t. inr (refl, λ k q eq it. absurd (cc));
  })
  select-Winners (suc n) [] u d = gives (record {
    few = omega arith;
    once = tt;
    sound = λ o share e. absurd (cc);
    complete = λ o p e t. absurd (cc);
  })
  select-Winners (suc n) ((option, power) ∷ index) u d =
      pass (is_selected decimals g total_cast power) λ chosen chosen_eq. elim (Bool-cases chosen) [
        | inl t ↦ rw t (
            pass (capped decimals g total_cast power) λ share share_eq.
              pass (select decimals g total_cast n index) λ found found_eq. gives (
                winner n option power share index found u d (cc) share_eq
                  (given (select-Winners n index u.1 d.1) found_eq)))
        | inr f ↦ rw f (
            weaken (λ set. loser n option power index set u (cc))
              (select-Winners (suc n) index u.1 d.1))
      ]

cast_of : (o : Option ℕ) (n : ℕ) → ok_or {E = Error} o not_found ≡ ok n → some n ≡ o
cast_of none n e = cc
cast_of (some m) n e = cc

module _ {D : Type 0} (decimals : Decimals D) where
  -- The index and the tally it mirrors have the same winners.
  Winners-same :
      (g : Gauge D) (sum n : ℕ) (t : Tally) (set : List (ℕ × ℕ))
      → Mirrored t
      → Winners decimals g sum n t.by_points set
      → Winners decimals g sum n t.points set
  Winners-same g sum n t set m w = record {
    few = w.few;
    once = w.once;
    sound = λ o share listed.
        let (p, at, passes, share_eq) = w.sound o share listed in
        (p, sym (m.same o) ∙ at, passes, share_eq);
    complete = λ o p at passes. elim (w.complete o p (m.same o ∙ at) passes) [
      | inl taken ↦ inl taken
      | inr (full, best) ↦ inr (full, λ k q at' taken. best k q (m.same k ∙ at') taken)
    ];
  }

  -- What the query answers: nothing while the gauge is being reset or no points are cast.
  abbrev pub Answered : Gauge D → Tally → List (ℕ × ℕ) → Type 0
  Answered g t set =
      let sum = total t.points in
      let idle = is_resetting g || sum == 0 in
      ((idle ≡ true) × (set ≡ []))
      ⊎ ((idle ≡ false) × Winners decimals g sum g.max_options_selected t.points set)

  chosen-Answered :
      (g : Gauge D) (t : Tally)
      → Counted t
      → Returns {E = Error} (Answered g t) (
          if is_resetting g || total t.points == 0
          then ok []
          else ok_or
              (select decimals g (total t.points) g.max_options_selected t.by_points)
              aborted)
  chosen-Answered g t c = elim (Bool-cases (is_resetting g || total t.points == 0)) [
    | inl idle ↦ rw idle (returns (inl (idle, refl)))
    | inr busy ↦
        rw busy
          (elim (Option-cases
            (select decimals g (total t.points) g.max_options_selected t.by_points)) [
              | inl e ↦ rw e raises
              | inr (set, e) ↦ rw e (
                  returns (
                    inr (
                      busy,
                      Winners-same g (total t.points) g.max_options_selected t set c.mirrored (
                          given
                            (select-Winners decimals g (total t.points) g.max_options_selected
                              t.by_points c.mirrored.unique_index c.mirrored.descending)
                            e),
                    )))
            ])
  ]

  selected_set-Returns :
      (gauge_id : ℕ) (g : Gauge D) (s : State D)
      → Consistent s
      → lookup gauge_id s.gauges ≡ some g
      → Returns (Answered g (tally_of gauge_id s)) (selected_set decimals gauge_id s)
  unfolding selected_set
  selected_set-Returns gauge_id g s c found =
      step (ok_or (lookup gauge_id s.gauges) not_found) λ g' g_eq.
        step (ok_or ((tally_of gauge_id s).total_cast) not_found) λ sum sum_eq.
          let same : g' ≡ g = cc in
          let sums : sum ≡ total ((tally_of gauge_id s).points) =
            ap (λ v. get_or v 0) (cast_of ((tally_of gauge_id s).total_cast) sum sum_eq)
            ∙ (c gauge_id).sums in
          rw (same, sums) (chosen-Answered g (tally_of gauge_id s) (c gauge_id))

  -- If the query of the selected set succeeds on consistent tallies, its answer is empty while the
  -- gauge is being reset or no points are cast, and else it has at most `max_options_selected`
  -- options of the tally, each once, that pass the test against the sum of all points, with their
  -- points up to the cap; an option that passes the test and is left out finds the set full of
  -- options with at least as many points.
  pub selected_set-Answered :
      (gauge_id : ℕ) (g : Gauge D) (s : State D) (set : List (ℕ × ℕ))
      → Consistent s
      → lookup gauge_id s.gauges ≡ some g
      → selected_set decimals gauge_id s ≡ ok set
      → Answered g (tally_of gauge_id s) set
  selected_set-Answered gauge_id g s set c found h =
      returned (selected_set-Returns gauge_id g s c found) h
