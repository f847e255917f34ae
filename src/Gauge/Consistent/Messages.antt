-- ===== src/Gauge/Consistent/Messages.antt =====
-- Votes, executions and the messages of contracts/synergistic_wynd_gauge keep the tallies consistent.
use synergistic_juno_contrac.Base.{
  ℕ, Bool, false, ◌≡◌, Option, List, [], ◌∷◌, get_or, Result, ok, Returns, returns, step, follow,
  branch, returned, ok_or,
}
use synergistic_juno_contrac.Base.Text.{Text}
use synergistic_juno_contrac.Base.Dict.{Dict, lookup}
use synergistic_juno_contrac.Gauge.{Error, std, Decimals, Gauge, Vote, WeightedVotes, State}
use synergistic_juno_contrac.Gauge.Counted.{no_tally-Counted, update_tallies-Counted}
use synergistic_juno_contrac.Gauge.Epochs.{Querier, PlaceVotes, update_epoch}
use synergistic_juno_contrac.Gauge.Epochs
use synergistic_juno_contrac.Gauge.Options.{instantiate, InstantiateMsg}
use synergistic_juno_contrac.Gauge.Administration.{update_gauge}
use synergistic_juno_contrac.Gauge.Placing.{Diff, MemberDiff}
use synergistic_juno_contrac.Gauge.Votes.{
  begin_epoch, change_power, change_powers, apply_diffs, member_changed, store_votes, place_votes,
}
use synergistic_juno_contrac.Gauge.Execute.{
  ExecuteMsg, member_changed_hook, create, update, stop, add, remove, place, execute_gauge, silent,
  execute,
}
use synergistic_juno_contrac.Gauge.Consistent.{
  Consistent, Consistent0, Consistent1, add_option-Consistent, attach_gauges-Consistent, counted,
  create_gauge-Consistent, follow1, remove_option-Consistent, save_tally-Consistent,
  stop_gauge-Consistent, update_epoch-Consistent,
}

module _ {D : Type 0} (decimals : Decimals D) where
  update_gauge-Consistent :
      (sender g : ℕ) (size pending : Option ℕ) (least : Option D) (most : Option ℕ) (cap : Option D)
      (s : State D)
      → Consistent s
      → Returns Consistent (update_gauge decimals sender g size pending least most cap s)
  unfolding update_gauge
  update_gauge-Consistent sender g size pending least most cap s c = search (step, returns) depth 12

  begin_epoch-Consistent :
      (now gauge_id next : ℕ) (g : Gauge D) (s : State D)
      → Consistent s
      → Returns Consistent1 (begin_epoch decimals now gauge_id next g s)
  unfolding begin_epoch
  begin_epoch-Consistent now gauge_id next g s c =
      search (branch, step, returns, update_epoch-Consistent) depth 8

  execute_gauge-Consistent :
      {Duration : Type 0} (querier : Querier D Duration) (now g : ℕ) (s : State D)
      → Consistent s
      → Returns Consistent0 (Epochs.execute decimals querier now g s)
  unfolding Epochs.execute
  execute_gauge-Consistent querier now g s c =
      search (step, follow1, returns, update_epoch-Consistent) depth 16

module _ {D : Type 0} (decimals : Decimals D) (name_lt : ℕ → ℕ → Bool) where
  change_power-Consistent :
      (voter old new : ℕ) (v : WeightedVotes D) (s : State D)
      → Consistent s
      → Returns Consistent (change_power decimals name_lt voter old new v s)
  unfolding change_power
  change_power-Consistent voter old new v s c =
      search (branch, step, returns, save_tally-Consistent, counted, update_tallies-Counted name_lt)
        depth 12

  change_powers-Consistent :
      (voter old new : ℕ) (vs : Dict (WeightedVotes D)) (s : State D)
      → Consistent s
      → Returns Consistent (change_powers decimals name_lt voter old new vs s)
  unfolding change_powers
  change_powers-Consistent voter old new [] s c = returns c
  change_powers-Consistent voter old new ((_, v) ∷ vs) s c =
      follow (change_power-Consistent voter old new v s c)
        (change_powers-Consistent voter old new vs)

  module _ {Duration : Type 0} (querier : Querier D Duration) where
    apply_diffs-Consistent :
        (ds : List MemberDiff) (s : State D)
        → Consistent s
        → Returns Consistent (apply_diffs decimals name_lt querier ds s)
    unfolding apply_diffs
    apply_diffs-Consistent [] s c = returns c
    apply_diffs-Consistent (d ∷ ds) s c = step (ok_or (querier.addr_validate d.key) std) λ voter _.
        follow (change_powers-Consistent voter (get_or d.old 0) (get_or d.new 0) _ s c)
          (apply_diffs-Consistent ds)

    member_changed-Consistent :
        (sender : ℕ) (ds : List MemberDiff) (s : State D)
        → Consistent s
        → Returns Consistent (member_changed decimals name_lt querier sender ds s)
    unfolding member_changed
    member_changed-Consistent sender ds s c = search (step, apply_diffs-Consistent) depth 6

    module _ (order : Diff → Diff) where
      store_votes-Consistent :
          (now sender g power : ℕ) (vs : List (Vote D)) (previous : WeightedVotes D) (s : State D)
          → Consistent s
          → Returns Consistent
              (store_votes decimals name_lt order querier now sender g power vs previous s)
      unfolding store_votes
      store_votes-Consistent now sender g power vs previous s c =
          search
            (branch, step, returns, save_tally-Consistent, counted, update_tallies-Counted name_lt)
            depth 14

      place_votes-Consistent :
          (now sender g : ℕ) (placed : Option (List (Vote D))) (s : State D)
          → Consistent s
          → Returns Consistent (place_votes decimals name_lt order querier now sender g placed s)
      unfolding place_votes
      place_votes-Consistent now sender g placed s c =
          search (step, follow1, begin_epoch-Consistent decimals, store_votes-Consistent) depth 18

module _ {D Duration : Type 0} (decimals : Decimals D) (name_lt : ℕ → ℕ → Bool)
    (order : Diff → Diff) (querier : Querier D Duration) where
  silent-Consistent :
      {r : Result Error (State D)}
      → Returns Consistent r
      → Returns (Consistent0 {A = List (PlaceVotes D)}) (silent decimals name_lt order querier r)
  silent-Consistent q = follow q λ s c. returns c

  execute-Returns :
      (now sender : ℕ) (msg : ExecuteMsg D) (s : State D)
      → Consistent s
      → Returns Consistent0 (execute decimals name_lt order querier now sender msg s)
  unfolding execute
  execute-Returns now sender (member_changed_hook ds) s c =
      silent-Consistent (member_changed-Consistent decimals name_lt querier sender ds s c)
  execute-Returns now sender (create options) s c =
      silent-Consistent (create_gauge-Consistent name_lt querier sender options s c)
  execute-Returns now sender (update g size pending least most cap) s c =
      silent-Consistent (update_gauge-Consistent decimals sender g size pending least most cap s c)
  execute-Returns now sender (stop g) s c = silent-Consistent (stop_gauge-Consistent sender g s c)
  execute-Returns now sender (add g o) s c =
      silent-Consistent (add_option-Consistent name_lt querier sender g o false s c)
  execute-Returns now sender (remove g o) s c =
      silent-Consistent (remove_option-Consistent sender g o s c)
  execute-Returns now sender (place g placed) s c =
      silent-Consistent
        (place_votes-Consistent decimals name_lt querier order now sender g placed s c)
  execute-Returns now sender (execute_gauge g) s c =
      execute_gauge-Consistent decimals querier now g s c

  new-Consistent :
      (wynd : Text) (sender : ℕ) (msg : InstantiateMsg)
      → Returns Consistent (instantiate {D = D} name_lt querier wynd sender msg)
  unfolding instantiate lookup
  new-Consistent wynd sender msg = step (ok_or (querier.addr_validate msg.voting_powers) std) λ v _.
      step (ok_or (querier.addr_validate msg.owner) std) λ o _.
        step (ok_or (querier.addr_validate msg.wynd_staker) std) λ w _.
          step (ok_or (querier.addr_validate wynd) std) λ g _.
            attach_gauges-Consistent name_lt querier (get_or msg.gauges []) _ λ j. no_tally-Counted

  -- Every message that succeeds keeps the tally of every gauge consistent: the total of the votes
  -- cast is the sum of the points, and the sorted index lists exactly the options of the tally
  -- with their points, each once, the most points first. It needs nothing of the decimal numbers,
  -- of the order of names and hash maps or of what other contracts answer.
  pub execute-Consistent :
      (now sender : ℕ) (msg : ExecuteMsg D) (s s' : State D) (sent : List (PlaceVotes D))
      → Consistent s
      → execute decimals name_lt order querier now sender msg s ≡ ok (s', sent)
      → Consistent s'
  execute-Consistent now sender msg s s' sent c h = returned (execute-Returns now sender msg s c) h

  -- A new contract, with the gauges that it is created with, is consistent.
  pub instantiate-Consistent :
      (wynd : Text) (sender : ℕ) (msg : InstantiateMsg) (s : State D)
      → instantiate name_lt querier wynd sender msg ≡ ok s
      → Consistent s
  instantiate-Consistent wynd sender msg s h = returned (new-Consistent wynd sender msg) h
