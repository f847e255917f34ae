-- ===== src/Gauge/Progress/Unchanged.antt =====
-- The handlers of contracts/synergistic_wynd_gauge/src/contract.rs that change votes and tallies only.
use synergistic_juno_contrac.Base.{
  ℕ, Bool, false, ◌≡◌, refl, ◌∙◌, List, [], ◌∷◌, get_or, Result, ok, ok_or, Returns, returns,
  raises, step, follow, branch,
}
use synergistic_juno_contrac.Base.Dict.{Dict}
use synergistic_juno_contrac.Gauge.{Error, std, Decimals, Vote, WeightedVotes, State}
use synergistic_juno_contrac.Gauge.Epochs.{Querier}
use synergistic_juno_contrac.Gauge.Options.{add_option, add_options, remove_option}
use synergistic_juno_contrac.Gauge.Placing.{Diff, MemberDiff}
use synergistic_juno_contrac.Gauge.Votes.{
  change_power, change_powers, apply_diffs, member_changed, store_votes,
}
use synergistic_juno_contrac.Gauge.Progress.{Same}

module _ {D : Type 0} where
  Same-refl : (s : State D) → Same s s
  Same-refl s = record {
    same_gauges = refl;
    same_id = refl;
    same_epoch = refl;
    same_history = refl;
    same_config = refl;
  }

  pub Same-trans : (s t u : State D) → Same s t → Same t u → Same s u
  Same-trans s t u p q = record {
    same_gauges = q.same_gauges ∙ p.same_gauges;
    same_id = q.same_id ∙ p.same_id;
    same_epoch = q.same_epoch ∙ p.same_epoch;
    same_history = q.same_history ∙ p.same_history;
    same_config = q.same_config ∙ p.same_config;
  }

  Same-follows :
      (s t : State D) {r : Result Error (State D)}
      → Same s t
      → Returns (Same t) r
      → Returns (Same s) r
  Same-follows s t p (returns {a = u} q) = returns (Same-trans s t u p q)
  Same-follows s t p raises = raises

  Same-last : (s s' : State D) → Same s s' → Returns {E = Error} (Same s) (ok s')
  Same-last s s' p = returns p

  Same-intro :
      (s s' : State D)
      → s'.gauges ≡ s.gauges
      → s'.last_id ≡ s.last_id
      → s'.last_epoch ≡ s.last_epoch
      → s'.vote_history ≡ s.vote_history
      → s'.config ≡ s.config
      → Returns {E = Error} (Same s) (ok s')
  Same-intro s s' a b c d e =
      returns
        (record { same_gauges = a; same_id = b; same_epoch = c; same_history = d; same_config = e })

  pub remove_option-Same :
      (sender g o : ℕ) (s : State D) → Returns (Same s) (remove_option sender g o s)
  unfolding remove_option
  remove_option-Same sender g o s = search (step, Same-intro) depth 10

module _ {D Duration : Type 0} (name_lt : ℕ → ℕ → Bool) (querier : Querier D Duration) where
  pub add_option-Same :
      (sender g o : ℕ) (b : Bool) (s : State D)
      → Returns (Same s) (add_option name_lt querier sender g o b s)
  unfolding add_option
  add_option-Same sender g o b s = search (step, Same-intro) depth 10

  pub add_options-Same :
      (sender g : ℕ) (os : List ℕ) (s : State D)
      → Returns (Same s) (add_options name_lt querier sender g os s)
  unfolding add_options
  add_options-Same sender g [] s = returns (Same-refl s)
  add_options-Same sender g (o ∷ os) s =
      follow (add_option-Same sender g o false s)
        λ t p. Same-follows s t p (add_options-Same sender g os t)

module _ {D : Type 0} (decimals : Decimals D) (name_lt : ℕ → ℕ → Bool) where
  change_power-Same :
      (voter old new : ℕ) (v : WeightedVotes D) (s : State D)
      → Returns (Same s) (change_power decimals name_lt voter old new v s)
  unfolding change_power
  change_power-Same voter old new v s = search (branch, step, Same-intro) depth 12

  change_powers-Same :
      (voter old new : ℕ) (vs : Dict (WeightedVotes D)) (s : State D)
      → Returns (Same s) (change_powers decimals name_lt voter old new vs s)
  unfolding change_powers
  change_powers-Same voter old new [] s = returns (Same-refl s)
  change_powers-Same voter old new ((_, v) ∷ vs) s =
      follow (change_power-Same voter old new v s)
        λ t p. Same-follows s t p (change_powers-Same voter old new vs t)

  module _ {Duration : Type 0} (querier : Querier D Duration) where
    apply_diffs-Same :
        (ds : List MemberDiff) (s : State D)
        → Returns (Same s) (apply_diffs decimals name_lt querier ds s)
    unfolding apply_diffs
    apply_diffs-Same [] s = returns (Same-refl s)
    apply_diffs-Same (d ∷ ds) s = step (ok_or (querier.addr_validate d.key) std) λ voter _.
        follow (change_powers-Same voter (get_or d.old 0) (get_or d.new 0) _ s)
          λ t p. Same-follows s t p (apply_diffs-Same ds t)

    pub member_changed-Same :
        (sender : ℕ) (ds : List MemberDiff) (s : State D)
        → Returns (Same s) (member_changed decimals name_lt querier sender ds s)
    unfolding member_changed
    member_changed-Same sender ds s = search (step, apply_diffs-Same) depth 6

    pub store_votes-Same :
        (order : Diff → Diff) (now sender g power : ℕ) (vs : List (Vote D))
        (previous : WeightedVotes D) (s : State D)
        → Returns
            (Same s)
            (store_votes decimals name_lt order querier now sender g power vs previous s)
    unfolding store_votes
    store_votes-Same order now sender g power vs previous s =
        search (branch, step, Same-intro) depth 14
