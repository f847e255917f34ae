-- ===== src/Gauge/Consistent.antt =====
-- The tallies of all gauges of contracts/synergistic_wynd_gauge stay consistent under every message. The
-- handlers are here, their dispatch is in Messages.
pub mod Messages
use synergistic_juno_contrac.Base.{
  ℕ, Bool, true, false, ◌≡◌, refl, subst, Option, none, some, List, [], ◌∷◌, arith, get_or, Result,
  ok, err, ◌>>=◌, Returns, returns, raises, step, follow, branch, returned, ok_or, ensure,
  reject_if, Option-cases, Bool-cases, inl, inr, if◌then◌else◌, ◌==◌,
}
use synergistic_juno_contrac.Base.Text.{Text}
use synergistic_juno_contrac.Base.Checked.{Gives, given}
use synergistic_juno_contrac.Base.Dict.{Dict, lookup, insert, lookup-insert}
use synergistic_juno_contrac.Gauge.{
  Error, std, aborted, gauge_cannot_create, Decimals, Gauge, Vote, WeightedVotes, Tally, State,
}
use synergistic_juno_contrac.Gauge.Counting.{
  no_tally, Update, update_tallies, update_tally, remove_tally,
}
use synergistic_juno_contrac.Gauge.Counted.{
  Counted, no_tally-Counted, update_tallies-Counted, remove_tally-Counted,
}
use synergistic_juno_contrac.Gauge.Selection.{tally_of}
use synergistic_juno_contrac.Gauge.Epochs.{Querier, PlaceVotes, update_epoch}
use synergistic_juno_contrac.Gauge.Epochs
use synergistic_juno_contrac.Gauge.Options.{
  save_tally, fetch_last_id, remove_option, add_option, add_options, attach_gauge, attach_gauges,
  create_gauge, instantiate, InstantiateMsg, GaugeConfig,
}
use synergistic_juno_contrac.Gauge.Administration.{update_gauge, stop_gauge}
use synergistic_juno_contrac.Gauge.Placing.{Diff, MemberDiff}
use synergistic_juno_contrac.Gauge.Votes.{
  begin_epoch, change_power, change_powers, apply_diffs, member_changed, store_votes, place_votes,
}
use synergistic_juno_contrac.Gauge.Execute.{
  ExecuteMsg, member_changed_hook, create, update, stop, add, remove, place, execute_gauge, silent,
  execute,
}

pub counted :
    (o : Option Tally) (t : Tally)
    → Gives Counted o
    → ok_or {E = Error} o aborted ≡ ok t
    → Counted t
counted (some u) t k e = given k (cc)
counted none t k e = absurd (cc)

module _ {D : Type 0} where
  -- The tally of every gauge is consistent.
  abbrev pub Consistent : State D → Type 0
  Consistent s = (g : ℕ) → Counted (tally_of g s)

  abbrev pub Consistent1 : {A : Type 0} → A × State D → Type 0
  Consistent1 (_, s) = Consistent s

  abbrev pub Consistent0 : {A : Type 0} → State D × A → Type 0
  Consistent0 (s, _) = Consistent s

  pub follow1 :
      {A B : Type 0} {P : B → Type 0} {r : Result Error (A × State D)}
      {f : A × State D → Result Error B}
      → Returns Consistent1 r
      → ((x : A × State D) → Consistent1 x → Returns P (f x))
      → Returns P (r >>= f)
  follow1 q k = follow q k

  pub save_tally-Consistent :
      (g : ℕ) (t : Tally) (s : State D) → Consistent s → Counted t → Consistent (save_tally g t s)
  save_tally-Consistent g t s c k j = elim (Bool-cases (g == j)) [
    | inl e ↦ rw (lookup-insert g j t s.tallies, e) k
    | inr e ↦ rw (lookup-insert g j t s.tallies, e) (c j)
  ]

  pub fetch_last_id-Consistent :
      (s : State D) → Consistent s → Returns Consistent1 (fetch_last_id s)
  unfolding fetch_last_id
  fetch_last_id-Consistent s c = search (step, returns) depth 6

  pub remove_option-Consistent :
      (sender g o : ℕ) (s : State D)
      → Consistent s
      → Returns Consistent (remove_option sender g o s)
  unfolding remove_option
  remove_option-Consistent sender g o s c =
      search (step, returns, save_tally-Consistent, counted, remove_tally-Counted) depth 8

  pub stop_gauge-Consistent :
      (sender g : ℕ) (s : State D) → Consistent s → Returns Consistent (stop_gauge sender g s)
  unfolding stop_gauge
  stop_gauge-Consistent sender g s c = search (step, returns) depth 6

  pub update_epoch-Consistent :
      (gauge_id : ℕ) (g : Gauge D) (next : ℕ) (votes : List (Vote D)) (b : Bool) (s : State D)
      → Consistent s
      → Returns Consistent1 (update_epoch gauge_id g next votes b s)
  unfolding update_epoch
  update_epoch-Consistent gauge_id g next votes b s c = search (step, returns) depth 6

module _ {D Duration : Type 0} (name_lt : ℕ → ℕ → Bool) (querier : Querier D Duration) where
  pub add_option-Consistent :
      (sender g o : ℕ) (b : Bool) (s : State D)
      → Consistent s
      → Returns Consistent (add_option name_lt querier sender g o b s)
  unfolding add_option update_tally
  add_option-Consistent sender g o b s c =
      search (step, returns, save_tally-Consistent, counted, update_tallies-Counted name_lt) depth 9

  pub add_options-Consistent :
      (sender g : ℕ) (os : List ℕ) (s : State D)
      → Consistent s
      → Returns Consistent (add_options name_lt querier sender g os s)
  unfolding add_options
  add_options-Consistent sender g [] s c = returns c
  add_options-Consistent sender g (o ∷ os) s c =
      follow (add_option-Consistent sender g o false s c) (add_options-Consistent sender g os)

  pub attach_gauge-Consistent :
      (options : GaugeConfig) (s : State D)
      → Consistent s
      → Returns Consistent (attach_gauge name_lt querier options s)
  unfolding attach_gauge
  attach_gauge-Consistent options s c =
      step (ok_or (querier.wynd_gauge_by_id s.config.wynd_gauge options.wynd_gauge_id) aborted)
        λ w _. step (reject_if w.is_stopped (gauge_cannot_create options.wynd_gauge_id)) λ _ _.
          step (ok_or (querier.addr_validate w.adapter) std) λ adapter _.
            follow (fetch_last_id-Consistent s c) λ (last_id, s1) c1.
              step (ok_or (querier.all_options w.adapter) std)
                λ os _. follow (add_options-Consistent adapter last_id os _ c1) λ s2 c2. returns c2

  pub create_gauge-Consistent :
      (sender : ℕ) (options : GaugeConfig) (s : State D)
      → Consistent s
      → Returns Consistent (create_gauge name_lt querier sender options s)
  unfolding create_gauge
  create_gauge-Consistent sender options s c = search (step, attach_gauge-Consistent) depth 6

  pub attach_gauges-Consistent :
      (gs : List GaugeConfig) (s : State D)
      → Consistent s
      → Returns Consistent (attach_gauges name_lt querier gs s)
  unfolding attach_gauges
  attach_gauges-Consistent [] s c = returns c
  attach_gauges-Consistent (g ∷ gs) s c =
      follow (attach_gauge-Consistent g s c) (attach_gauges-Consistent gs)
