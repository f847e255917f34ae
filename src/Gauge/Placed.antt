-- ===== src/Gauge/Placed.antt =====
-- `place_votes` of contracts/synergistic_wynd_gauge/src/contract.rs, when it succeeds.
use synergistic_juno_contrac.Base.{
  ℕ, ◌+◌, Bool, ◌≡◌, ◌≢◌, refl, ◌∙◌, ap, subst, Option, none, some, List, [], arith, get_or,
  ok_or-eq-ok, ==_refl, if◌then◌else◌, Bool-cases, inl, inr, ok, ok_or, reject_if, Returns, returns,
  implied, step, follow, branch, returned,
}
use synergistic_juno_contrac.Base.Checked.{given}
use synergistic_juno_contrac.Base.Dict.{
  lookup, insert, erase, amount_of, Unique, lookup-insert, lookup-erase,
}
use synergistic_juno_contrac.Gauge.{
  Error, aborted, gauge_missing, gauge_pending, Decimals, Gauge, Vote, WeightedVotes, Tally, State,
}
use synergistic_juno_contrac.Gauge.Counting.{no_tally, update_tallies}
use synergistic_juno_contrac.Gauge.Selection.{tally_of, is_pending, is_expired}
use synergistic_juno_contrac.Gauge.Epochs.{Querier, update_epoch}
use synergistic_juno_contrac.Gauge.Placing.{
  Diff, old_of, to_updates, is_empty, votes_of, still_valid, default_votes, old_diff, new_diff,
  check_options,
}
use synergistic_juno_contrac.Gauge.Votes.{get_voting_power, begin_epoch, store_votes, place_votes}
use synergistic_juno_contrac.Gauge.Moves.{
  new_of, part, old_diff-Has, new_diff-Has, update_tallies_points,
}

-- An order in which a hash map is iterated has the same entries.
abbrev pub IsOrder : (Diff → Diff) → Type 0
IsOrder order =
    (d : Diff) → Unique d → Unique (order d) × ((o : ℕ) → lookup o (order d) ≡ lookup o d)

module _ {D : Type 0} (decimals : Decimals D) where
  -- What storing `new_votes` with a power over the previous votes does to the gauge `id`.
  pub record Stored (now sender id power : ℕ) (new_votes : List (Vote D))
      (previous : WeightedVotes D) (s s' : State D) : Type 0 where
    pub points :
        (o : ℕ)
        → amount_of o ((tally_of id s').points) + part decimals o previous.power previous.votes 0
          ≡ amount_of o ((tally_of id s).points) + part decimals o power new_votes 0
    pub others : (j : ℕ) → j ≢ id → tally_of j s' ≡ tally_of j s
    pub ballot : lookup id (votes_of sender s') ≡ (
        if is_empty new_votes
        then none
        else some (record { gauge_id = id; power = power; votes = new_votes; cast = some now }))

  -- The beginning of an epoch leaves the votes, the tallies, the configuration and the reset.
  abbrev Begun : Gauge D → State D → Gauge D × State D → Type 0
  Begun g s (g', s') = (g'.reset ≡ g.reset) × (s'.votes ≡ s.votes) × (s'.tallies ≡ s.tallies)

  begun :
      (g g' : Gauge D) (s s' : State D)
      → g'.reset ≡ g.reset
      → s'.votes ≡ s.votes
      → s'.tallies ≡ s.tallies
      → Returns {E = Error} (Begun g s) (ok (g', s'))
  begun g g' s s' a b c = returns (a, b, c)

  update_epoch-Begun :
      (id next : ℕ) (g : Gauge D) (votes : List (Vote D)) (b : Bool) (s : State D)
      → Returns (Begun g s) (update_epoch id g next votes b s)
  unfolding update_epoch
  update_epoch-Begun id next g votes b s = search (step, begun) depth 8

  begin_epoch-Begun :
      (now id next : ℕ) (g : Gauge D) (s : State D)
      → Returns (Begun g s) (begin_epoch decimals now id next g s)
  unfolding begin_epoch
  begin_epoch-Begun now id next g s = search (branch, step, begun, update_epoch-Begun) depth 8

  -- What is stored over a state with the same votes and tallies.
  Stored-same :
      (now sender id power : ℕ) (vs : List (Vote D)) (p : WeightedVotes D) (s t u : State D)
      → t.tallies ≡ s.tallies
      → Stored now sender id power vs p t u
      → Stored now sender id power vs p s u
  Stored-same now sender id power vs p s t u e q = record {
    points = λ o.
        subst
          (λ ts.
            amount_of o ((tally_of id u).points) + part decimals o p.power p.votes 0
            ≡ amount_of o ((get_or (lookup id ts) no_tally).points) + part decimals o power vs 0)
          e (q.points o);
    others = λ j ne. q.others j ne ∙ ap (λ ts. get_or (lookup j ts) no_tally) e;
    ballot = q.ballot;
  }

module _ {D : Type 0} where
  -- The previous votes that still count.
  abbrev pub previous_votes : ℕ → ℕ → Gauge D → State D → WeightedVotes D
  previous_votes sender id g s =
      get_or (still_valid g (lookup id (votes_of sender s))) default_votes

module _ {D Duration : Type 0} (decimals : Decimals D) (querier : Querier D Duration) where
  -- A successful placement with the voting power that the staking contract reports.
  pub record Placement (now sender id : ℕ) (placed : Option (List (Vote D))) (g : Gauge D)
      (s s' : State D) : Type 0 where
    pub power : ℕ
    pub reported : get_voting_power querier sender s.config.voting_powers ≡ ok power
    pub stored :
        Stored decimals now sender id power (get_or placed []) (previous_votes sender id g s) s s'

module _ {D Duration : Type 0} (decimals : Decimals D) (name_lt : ℕ → ℕ → Bool)
    (order : Diff → Diff) (querier : Querier D Duration) (same_entries : IsOrder order) where
  points_moved :
      (id power : ℕ) (new_votes : List (Vote D)) (previous : WeightedVotes D) (s : State D)
      (t : Tally) (old diff : Diff) (o : ℕ)
      → old_diff decimals previous.power previous.votes [] ≡ some old
      → new_diff decimals power new_votes old ≡ some diff
      → update_tallies name_lt (to_updates (order diff)) (tally_of id s) ≡ some t
      → amount_of o t.points + part decimals o previous.power previous.votes 0
        ≡ amount_of o ((tally_of id s).points) + part decimals o power new_votes 0
  unfolding lookup
  points_moved id power new_votes previous s t old diff o old_eq diff_eq t_eq =
      let first =
        given (old_diff-Has decimals o previous.power previous.votes [] 0 (tt, refl, refl))
          old_eq in
      let (unique, olds_eq, news_eq) =
        given
          (new_diff-Has decimals o power new_votes old
            (part decimals o previous.power previous.votes 0) 0 first)
          diff_eq in
      let (unique', same) = same_entries diff unique in
      let moved =
        given (update_tallies_points name_lt (order diff) o (tally_of id s) unique') t_eq in
      omega (arith, moved, ap old_of (same o), ap new_of (same o), olds_eq, news_eq)

  store_votes-Stored :
      (now sender id power : ℕ) (new_votes : List (Vote D)) (previous : WeightedVotes D)
      (s : State D)
      → Returns
          (Stored decimals now sender id power new_votes previous s)
          (store_votes decimals name_lt order querier now sender id power new_votes previous s)
  unfolding store_votes
  store_votes-Stored now sender id power new_votes previous s =
      step (ok_or (old_diff decimals previous.power previous.votes []) aborted) λ old old_eq.
        step (ok_or (new_diff decimals power new_votes old) aborted) λ diff diff_eq.
          step (check_options id (order diff) s) λ _ _.
            step (ok_or (update_tallies name_lt (to_updates (order diff)) (tally_of id s)) aborted)
              λ t t_eq.
                let moved : (o : ℕ)
                    → amount_of o t.points + part decimals o previous.power previous.votes 0
                      ≡ amount_of o ((tally_of id s).points) + part decimals o power new_votes 0 =
                  λ o.
                    points_moved id power new_votes previous s t old diff o
                      (ok_or-eq-ok (old_diff decimals previous.power previous.votes []) aborted
                        old_eq)
                      (ok_or-eq-ok (new_diff decimals power new_votes old) aborted diff_eq)
                      (ok_or-eq-ok
                        (update_tallies name_lt (to_updates (order diff)) (tally_of id s)) aborted
                        t_eq) in
                elim (Bool-cases (is_empty new_votes)) [
                  | inl e ↦ rw e (
                      returns (record {
                        points = λ o. rw (lookup-insert id id t s.tallies, ==_refl id) (moved o);
                        others = λ j ne. ground (arith, lookup-insert id j t s.tallies);
                        ballot =
                            rw
                              (
                                lookup-insert sender sender (erase id (votes_of sender s)) s.votes,
                                ==_refl sender,
                                lookup-erase id id (votes_of sender s),
                                ==_refl id,
                                e,
                              )
                              refl;
                      }))
                  | inr e ↦ rw e (
                      returns (record {
                        points = λ o. rw (lookup-insert id id t s.tallies, ==_refl id) (moved o);
                        others = λ j ne. ground (arith, lookup-insert id j t s.tallies);
                        ballot =
                            let cast : WeightedVotes D = record {
                              gauge_id = id;
                              power = power;
                              votes = new_votes;
                              cast = some now;
                            } in
                            rw
                              (
                                lookup-insert sender sender (insert id cast (votes_of sender s))
                                    s.votes,
                                ==_refl sender,
                                lookup-insert id id cast (votes_of sender s),
                                ==_refl id,
                                e,
                              )
                              refl;
                      }))
                ]

  still_same :
      (g g' : Gauge D) (o : Option (WeightedVotes D))
      → g'.reset ≡ g.reset
      → still_valid g' o ≡ still_valid g o
  unfolding is_expired
  still_same g g' none e = refl
  still_same g g' (some v) e = rw e refl

  previous_same :
      (sender id : ℕ) (g g' : Gauge D) (s t : State D)
      → g'.reset ≡ g.reset
      → t.votes ≡ s.votes
      → previous_votes sender id g' t ≡ previous_votes sender id g s
  previous_same sender id g g' s t r e =
      rw (e, still_same g g' (lookup id (votes_of sender s)) r) refl

  placed_last :
      (now sender id power : ℕ) (placed : Option (List (Vote D))) (g g' : Gauge D) (s t : State D)
      → get_voting_power querier sender s.config.voting_powers ≡ ok power
      → Begun decimals g s (g', t)
      → Returns (Placement decimals querier now sender id placed g s) (
          store_votes decimals name_lt order querier now sender id power
            (get_or placed [])
            (previous_votes sender id g' t)
            t)
  placed_last now sender id power placed g g' s t reported (same_reset, same_votes, same_tallies) =
      rw (previous_same sender id g g' s t same_reset same_votes) (
        implied
          (λ u q. record {
            power = power;
            reported = reported;
            stored =
                Stored-same decimals now sender id power (get_or placed [])
                  (previous_votes sender id g s) s t u same_tallies q;
          })
          (store_votes-Stored now sender id power (get_or placed []) (previous_votes sender id g s)
            t))

  place_votes-Placement :
      (now sender id : ℕ) (placed : Option (List (Vote D))) (g : Gauge D) (s : State D)
      → lookup id s.gauges ≡ some g
      → Returns
          (Placement decimals querier now sender id placed g s)
          (place_votes decimals name_lt order querier now sender id placed s)
  unfolding place_votes
  place_votes-Placement now sender id placed g s e =
      step (ok_or (lookup id s.gauges) (gauge_missing id)) λ g0 g_eq.
        let same : g0 ≡ g = cc in
        rw same (
          step (ok_or (querier.wynd_gauge_by_id s.config.wynd_gauge g.wynd_gauge_id) aborted) λ w _.
            step (ok_or (is_pending now w.next_epoch g) aborted) λ pending _.
              step (reject_if pending (gauge_pending id)) λ _ _.
                follow (begin_epoch-Begun decimals now id w.next_epoch g s)
                  λ (g', t) b. search (step, placed_last) depth 12)

  -- Votes that are placed, with the power that the staking contract reports, give each option of
  -- the gauge what its last vote weighs, in place of what the voter's previous votes gave it if
  -- they have not expired; the tallies of all other gauges stay, and the new votes are stored, or none if
  -- there are none. The hash map may be iterated in any order.
  pub place_votes_lem :
      (now sender id : ℕ) (placed : Option (List (Vote D))) (g : Gauge D) (s s' : State D)
      → lookup id s.gauges ≡ some g
      → place_votes decimals name_lt order querier now sender id placed s ≡ ok s'
      → Placement decimals querier now sender id placed g s s'
  place_votes_lem now sender id placed g s s' e h =
      returned (place_votes-Placement now sender id placed g s e) h
