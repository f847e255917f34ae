-- ===== src/Gauge/Selection.antt =====
-- contracts/synergistic_wynd_gauge: the tests on gauges and votes of src/state.rs, and the query
-- `selected_set` of src/contract.rs.
use synergistic_juno_contrac.Base.{
  ℕ, zero, suc, Bool, true, false, not, ◌&&◌, ◌||◌, Option, none, some, List, [], ◌∷◌, ltb, leb,
  ◌==◌, if◌then◌else◌, Result, ok, ◌>>=◌, ok_or, get_or,
}
use synergistic_juno_contrac.Base.Checked.{add128, checked_sub}
use synergistic_juno_contrac.Base.Checked
use synergistic_juno_contrac.Base.Dict.{Dict, lookup}
use synergistic_juno_contrac.Gauge.{
  Error, not_found, aborted, Decimals, Reset, Gauge, Vote, WeightedVotes, Tally, State,
}
use synergistic_juno_contrac.Gauge.Counting.{no_tally}

abbrev pub is_time : Option ℕ → ℕ → Bool
is_time none t = false
is_time (some u) t = u == t

abbrev pub reset_running : Option Reset → Bool
reset_running none = false
reset_running (some r) = is_time r.last r.next

abbrev pub older : Option Reset → Option ℕ → Bool
older none cast = false
older (some r) cast = elim r.last [ none ↦ false | some expired ↦ ltb (get_or cast 0) expired ]

module _ {D : Type 0} where
  unfoldable pub is_resetting : Gauge D → Bool
  is_resetting g = reset_running g.reset

  -- `is_pending`: the difference panics below zero. `wynd_next` is the next epoch of the gauge that
  -- the votes are for.
  unfoldable pub is_pending : ℕ → ℕ → Gauge D → Option Bool
  is_pending timestamp wynd_next g =
      Checked.◌>>=◌ (checked_sub g.next_epoch g.epoch_pending_size) λ start. some (
        if ltb start timestamp && leb timestamp g.next_epoch
        then true
        else ltb g.next_epoch timestamp && ltb wynd_next timestamp)

  unfoldable pub is_expired : Gauge D → WeightedVotes D → Bool
  is_expired g v = older g.reset v.cast

  -- The tally of a gauge, empty before its first option.
  abbrev pub tally_of : ℕ → State D → Tally
  tally_of gauge_id s = get_or (lookup gauge_id s.tallies) no_tally

-- The sum of the powers of a set.
unfoldable pub sum_powers : ℕ → List (ℕ × ℕ) → Option ℕ
sum_powers sum [] = some sum
sum_powers sum ((_, power) ∷ set) = Checked.◌>>=◌ (add128 sum power) λ next. sum_powers next set

module _ {D : Type 0} (decimals : Decimals D) where
  -- The test of `filter`.
  unfoldable pub is_selected : Gauge D → ℕ → ℕ → Option Bool
  is_selected g total_cast power = elim (g.min_percent_selected) [
    | none ↦ some (not (power == 0))
    | some least ↦
        Checked.◌>>=◌ (decimals.from_ratio power total_cast)
          λ share. some (decimals.at_most least share)
  ]

  -- The power that `map` gives an option.
  unfoldable pub capped : Gauge D → ℕ → ℕ → Option ℕ
  capped g total_cast power = elim (g.max_available_percentage) [
    | none ↦ some power
    | some most ↦ Checked.◌>>=◌ (decimals.from_ratio power total_cast) λ share.
        let cut = decimals.times total_cast most in
        if decimals.at_most share most then some power else cut
  ]

  -- The iterator over the index, which `take` ends: what comes later is not computed.
  unfoldable pub select : Gauge D → ℕ → ℕ → Dict ℕ → Option (List (ℕ × ℕ))
  select g total_cast zero index = some []
  select g total_cast (suc n) [] = some []
  select g total_cast (suc n) ((option, power) ∷ index) =
      let others = select g total_cast (suc n) index in
      let rest = select g total_cast n index in
      Checked.◌>>=◌ (is_selected g total_cast power) λ chosen.
        if chosen
        then (Checked.◌>>=◌ (capped g total_cast power)
            λ share. Checked.◌>>=◌ rest λ found. some ((option, share) ∷ found))
        else others

  unfoldable pub selected_set : ℕ → State D → Result Error (List (ℕ × ℕ))
  selected_set gauge_id s = do
    g ← ok_or (lookup gauge_id s.gauges) not_found
    total_cast ← ok_or ((tally_of gauge_id s).total_cast) not_found
    let chosen = select g total_cast g.max_options_selected ((tally_of gauge_id s).by_points)
    if is_resetting g || total_cast == 0 then ok [] else ok_or chosen aborted

  -- The weight of each option: `Decimal::from_ratio`.
  unfoldable pub ratios : ℕ → List (ℕ × ℕ) → Option (List (Vote D))
  ratios sum [] = some []
  ratios sum ((option, power) ∷ set) = Checked.◌>>=◌ (decimals.from_ratio power sum) λ weight.
      Checked.◌>>=◌ (ratios sum set)
        λ rest. some (record { option = option; weight = weight } ∷ rest)

  unfoldable pub weigh : List (ℕ × ℕ) → Option (List (Vote D))
  weigh set = Checked.◌>>=◌ (sum_powers 0 set) λ sum. ratios sum set
