-- ===== src/Gauge/Runs.antt =====
-- Runs of contracts/synergistic_wynd_gauge: the messages that succeed, one after the other.
use synergistic_juno_contrac.Base.{
  ℕ, Bool, true, false, ◌≡◌, refl, some, List, [], ◌∷◌, arith, get_or, is_some, ltb, Result, ok,
  err, ok_or, Returns, returns, step, follow, returned,
}
use synergistic_juno_contrac.Base.Text.{Text}
use synergistic_juno_contrac.Base.Dict.{lookup}
use synergistic_juno_contrac.Gauge.{Error, std, gauge_stopped, Decimals, Gauge, VoteHistory, State}
use synergistic_juno_contrac.Gauge.Epochs
use synergistic_juno_contrac.Gauge.Epochs.{Querier, PlaceVotes, history_of}
use synergistic_juno_contrac.Gauge.Options.{InstantiateMsg, GaugeConfig, attach_gauges, instantiate}
use synergistic_juno_contrac.Gauge.Placing.{Diff}
use synergistic_juno_contrac.Gauge.Execute.{
  ExecuteMsg, member_changed_hook, create, update, stop, add, remove, place, execute_gauge, silent,
  execute,
}
use synergistic_juno_contrac.Gauge.Consistent.{Consistent}
use synergistic_juno_contrac.Gauge.Consistent.Messages.{execute-Consistent, instantiate-Consistent}
use synergistic_juno_contrac.Gauge.Progress.{
  Valid, Progress, Progress-refl, Progress-trans, version,
}
use synergistic_juno_contrac.Gauge.Progress.Unchanged.{
  add_option-Same, remove_option-Same, member_changed-Same,
}
use synergistic_juno_contrac.Gauge.Progress.Handlers.{
  Progress0, then_unchanged, stop_gauge-Progress, update_gauge-Progress, execute-Progress,
  place_votes-Progress, attach_gauge-Progress, create_gauge-Progress,
}

module _ {D : Type 0} (Duration : Type 0) (decimals : Decimals D) (name_lt : ℕ → ℕ → Bool) where
  -- The messages that take the contract from one state to another. With each of them the other
  -- contracts may give new answers, and the hash maps of `place_votes` a new order.
  pub data Run : State D → State D → Type 0 where
    idle : {s : State D} → Run s s
    call :
        {s t u : State D} (order : Diff → Diff) (querier : Querier D Duration) (now sender : ℕ)
        (msg : ExecuteMsg D) (sent : List (PlaceVotes D))
        → execute decimals name_lt order querier now sender msg s ≡ ok (t, sent)
        → Run t u
        → Run s u

module _ {D Duration : Type 0} (decimals : Decimals D) (name_lt : ℕ → ℕ → Bool)
    (order : Diff → Diff) (querier : Querier D Duration) where
  silent-Progress :
      (s : State D) {r : Result Error (State D)}
      → Returns (Progress s) r
      → Returns (Progress0 s) (silent decimals name_lt order querier r)
  silent-Progress s q = follow q λ t p. returns p

  execute-Returns :
      (now sender : ℕ) (msg : ExecuteMsg D) (s : State D)
      → Valid s
      → Returns (Progress0 s) (execute decimals name_lt order querier now sender msg s)
  unfolding execute
  execute-Returns now sender (member_changed_hook ds) s v = silent-Progress s (
      then_unchanged s s (Progress-refl s v)
        (member_changed-Same decimals name_lt querier sender ds s))
  execute-Returns now sender (create options) s v =
      silent-Progress s (create_gauge-Progress name_lt querier sender options s v)
  execute-Returns now sender (update g size pending least most cap) s v =
      silent-Progress s (update_gauge-Progress decimals sender g size pending least most cap s v)
  execute-Returns now sender (stop g) s v = silent-Progress s (stop_gauge-Progress sender g s v)
  execute-Returns now sender (add g o) s v =
      silent-Progress s (
        then_unchanged s s (Progress-refl s v) (add_option-Same name_lt querier sender g o false s))
  execute-Returns now sender (remove g o) s v =
      silent-Progress s (then_unchanged s s (Progress-refl s v) (remove_option-Same sender g o s))
  execute-Returns now sender (place g placed) s v =
      silent-Progress s
        (place_votes-Progress decimals name_lt order querier now sender g placed s v)
  execute-Returns now sender (execute_gauge g) s v = execute-Progress decimals querier now g s v

  attach_gauges-Valid :
      (gs : List GaugeConfig) (s : State D)
      → Valid s
      → Returns Valid (attach_gauges name_lt querier gs s)
  unfolding attach_gauges
  attach_gauges-Valid [] s v = returns v
  attach_gauges-Valid (g ∷ gs) s v =
      follow (attach_gauge-Progress name_lt querier g s v) λ t p. attach_gauges-Valid gs t p.valid

  new-Valid :
      (wynd : Text) (sender : ℕ) (msg : InstantiateMsg)
      → Returns Valid (instantiate {D = D} name_lt querier wynd sender msg)
  unfolding instantiate lookup
  new-Valid wynd sender msg = step (ok_or (querier.addr_validate msg.voting_powers) std) λ v _.
      step (ok_or (querier.addr_validate msg.owner) std) λ o _.
        step (ok_or (querier.addr_validate msg.wynd_staker) std) λ w _.
          step (ok_or (querier.addr_validate wynd) std) λ g _.
            attach_gauges-Valid (get_or msg.gauges []) _ (record {
              no_gauge = λ j le. refl;
              no_epoch = λ j le. refl;
              recorded = λ j e. ground arith;
            })

module _ {D : Type 0} (Duration : Type 0) (decimals : Decimals D) (name_lt : ℕ → ℕ → Bool) where
  run-Progress : {s u : State D} → Valid s → Run Duration decimals name_lt s u → Progress s u
  run-Progress {s = s} v idle = Progress-refl s v
  run-Progress {s = s} {u = u} v (call {t = t} order querier now sender msg sent h r) =
      let p = returned (execute-Returns decimals name_lt order querier now sender msg s v) h in
      Progress-trans s t u p (run-Progress p.valid r)

  -- A gauge that is stopped is never executed again: after any run of messages, with any answers
  -- of the other contracts to each of them, it is still there with the last executed set that it
  -- had, and executing it fails with `GaugeStopped` whatever the other contracts answer then.
  pub run_stopped :
      {s u : State D} (querier : Querier D Duration) (now id : ℕ) (g : Gauge D)
      → Valid s
      → lookup id s.gauges ≡ some g
      → g.is_stopped ≡ true
      → Run Duration decimals name_lt s u
      → ((g' : Gauge D) × (lookup id u.gauges ≡ some g')
          × (g'.last_executed_set ≡ g.last_executed_set))
        × (Epochs.execute decimals querier now id u ≡ err (gauge_stopped id))
  unfolding Epochs.execute
  run_stopped querier now id g v e stopped r =
      let (g', e', kept) = (run-Progress v r).gauges id g e in
      ((g', e', (kept stopped).1), rw (e', (kept stopped).0) refl)

  -- Over any run of messages, with any answers of the other contracts to each of them, no entry of the history of a gauge changes, and at the end the
  -- history of a gauge has an entry for exactly the epochs below its version.
  pub run_history :
      {s u : State D} (id e : ℕ)
      → Valid s
      → Run Duration decimals name_lt s u
      → ((h : VoteHistory D)
          → lookup e (history_of id s) ≡ some h
          → lookup e (history_of id u) ≡ some h)
        × (is_some (lookup e (history_of id u)) ≡ ltb e (version id u))
  run_history id e v r = let p = run-Progress v r in (p.history id e, p.valid.recorded id e)

  run-Consistent : {s u : State D} → Consistent s → Run Duration decimals name_lt s u → Consistent u
  run-Consistent c idle = c
  run-Consistent {s = s} c (call {t = t} order querier now sender msg sent h r) =
      run-Consistent (execute-Consistent decimals name_lt order querier now sender msg s t sent c h)
        r

  -- Whatever messages follow the creation of the contract, and whatever the other contracts answer
  -- to each of them, the total of the votes cast on a gauge
  -- is the sum of its points, its sorted index mirrors its tally, no gauge has an identifier that is
  -- still to be given, and its history has exactly the epochs below its version.
  pub reachable-Consistent :
      (querier : Querier D Duration) (wynd : Text) (sender : ℕ) (msg : InstantiateMsg)
      {s u : State D}
      → instantiate name_lt querier wynd sender msg ≡ ok s
      → Run Duration decimals name_lt s u
      → Consistent u × Valid u
  reachable-Consistent querier wynd sender msg {s = s} h r = (
    run-Consistent (instantiate-Consistent decimals name_lt (λ d. d) querier wynd sender msg s h) r,
    (run-Progress (returned (new-Valid decimals name_lt (λ d. d) querier wynd sender msg) h)
        r).valid,
  )
