-- ===== src/Gauge/Tests.antt =====
-- contracts/synergistic_wynd_gauge with one gauge of two options and one voter.
use synergistic_juno_contrac.Base.{
  ℕ, ◌*◌, ◌/◌, ◌^◌, true, false, ◌≡◌, refl, Option, none, some, List, [], ◌∷◌, ltb, leb, ◌==◌,
  if◌then◌else◌, ok, err, arith, is_some,
}
use synergistic_juno_contrac.Base.Text.{Text}
use synergistic_juno_contrac.Base.Checked.{add_within, add128, checked_sub}
use synergistic_juno_contrac.Base.Dict.{lookup, insert}
use synergistic_juno_contrac.Gauge.{Decimals, Gauge, Vote, VoteHistory, State, gauge_stopped}
use synergistic_juno_contrac.Gauge.Counting.{
  update_option, update_options, update_tallies, update_tally, save_point, remove_point,
}
use synergistic_juno_contrac.Gauge.Selection.{
  is_resetting, is_pending, is_expired, is_selected, capped, select, selected_set, sum_powers,
  ratios, weigh, tally_of,
}
use synergistic_juno_contrac.Gauge.Epochs
use synergistic_juno_contrac.Gauge.Epochs.{
  Querier, GaugeResponse, PlaceVotes, update_epoch, history_of,
}
use synergistic_juno_contrac.Gauge.Options.{
  InstantiateMsg, fetch_last_id, add_option, add_options, attach_gauge, attach_gauges, instantiate,
}
use synergistic_juno_contrac.Gauge.Placing.{
  Diff, to_updates, sum_weights, old_diff, new_diff, check_options,
}
use synergistic_juno_contrac.Gauge.Votes.{
  add_balances, get_voting_power, begin_epoch, store_votes, place_votes,
}
use synergistic_juno_contrac.Gauge.Execute.{place, execute_gauge, execute}
use synergistic_juno_contrac.Gauge.Consistent.{Consistent}
use synergistic_juno_contrac.Gauge.Consistent.Messages.{execute-Consistent, instantiate-Consistent}
use synergistic_juno_contrac.Gauge.Winners.{Answered, selected_set-Answered}
use synergistic_juno_contrac.Gauge.Progress.{Valid, version}
use synergistic_juno_contrac.Gauge.Runs.{
  Run, idle, call, run_stopped, run_history, reachable-Consistent,
}
use synergistic_juno_contrac.Gauge.Placed.{Placement, IsOrder, place_votes_lem}
use synergistic_juno_contrac.Gauge.Executed.{Executed}

-- Decimal numbers as multiples of 10^-18.
abbrev atomic : Decimals ℕ
atomic = record {
  is_zero = λ d. d == 0;
  zero = 0;
  one = 10 ^ 18;
  add = add128;
  from_ratio = λ a b. if b == 0 then none else some (a * 10 ^ 18 / b);
  times = λ n d. some (n * d / 10 ^ 18);
  at_most = leb;
}

abbrev one_char : Text → Option ℕ
one_char [] = none
one_char (x ∷ []) = some x
one_char (x ∷ y ∷ text) = none

-- The other gauge contract has one gauge, its adapter two options, and every voter a power of 100.
abbrev answers : Querier ℕ ℕ
answers = record {
  addr_validate = one_char;
  wynd_gauge_by_id = λ contract id. some (record {
    adapter = 9 ∷ [];
    epoch_size = 700;
    min_percent_selected = none;
    max_options_selected = 2;
    max_available_percentage = none;
    is_stopped = false;
    next_epoch = 1000;
  });
  all_options = λ adapter. some (1 ∷ 2 ∷ []);
  check_option = λ adapter option. none;
  voting_power_at_height = λ contract voter. none;
  durations = λ contract. some (0 ∷ []);
  balance_by_duration = λ contract voter duration. some 100;
}

-- Later the voters have staked less, and the other gauge has moved on to its next epoch.
abbrev later_answers : Querier ℕ ℕ
later_answers = record answers {
  wynd_gauge_by_id = λ contract id. some (record {
    adapter = 9 ∷ [];
    epoch_size = 700;
    min_percent_selected = none;
    max_options_selected = 2;
    max_available_percentage = none;
    is_stopped = false;
    next_epoch = 1700;
  });
  balance_by_duration = λ contract voter duration. some 5;
}

abbrev same_order : Diff → Diff
same_order d = d

abbrev weekly : Gauge ℕ
weekly = record {
  title = [];
  adapter = 9;
  epoch = 700;
  min_percent_selected = none;
  max_options_selected = 2;
  max_available_percentage = none;
  is_stopped = false;
  next_epoch = 1000;
  last_executed_set = none;
  reset = none;
  epoch_pending_size = 100;
  wynd_gauge_id = 7;
}

abbrev created : State ℕ
created = record {
  config = record {
    voting_powers = 11;
    owner = 12;
    dao_core = 1;
    wynd_gauge = 13;
    wynd_staker = 14;
  };
  gauges = (0, weekly) ∷ [];
  last_id = some 1;
  last_epoch = (0, 0) ∷ [];
  vote_history = [];
  votes = [];
  tallies =
      (
        0,
        record {
          total_cast = some 0;
          points = (1, 0) ∷ (2, 0) ∷ [];
          by_points = (2, 0) ∷ (1, 0) ∷ [];
        },
      )
      ∷ [];
}

abbrev message : InstantiateMsg
message = record {
  voting_powers = 11 ∷ [];
  owner = 12 ∷ [];
  wynd_staker = 14 ∷ [];
  gauges = some (record { title = []; wynd_gauge_id = 7; epoch_pending_size = 100 } ∷ []);
}

created_runs : instantiate ltb answers (13 ∷ []) 1 message ≡ ok created
unfolding instantiate attach_gauges attach_gauge fetch_last_id add_options add_option update_tally
    update_tallies update_options update_option save_point remove_point add_within checked_sub
    lookup insert
created_runs = refl

abbrev ballot : List (Vote ℕ)
ballot =
    record { option = 1; weight = 6 * 10 ^ 17 } ∷ record { option = 2; weight = 4 * 10 ^ 17 } ∷ []

abbrev voted : State ℕ
voted = record created {
  votes = (3, (0, record { gauge_id = 0; power = 100; votes = ballot; cast = some 500 }) ∷ []) ∷ [];
  tallies =
      (
        0,
        record {
          total_cast = some 100;
          points = (1, 60) ∷ (2, 40) ∷ [];
          by_points = (1, 60) ∷ (2, 40) ∷ [];
        },
      )
      ∷ [];
}

place_runs : place_votes atomic ltb same_order answers 500 3 0 (some ballot) created ≡ ok voted
unfolding place_votes get_voting_power add_balances begin_epoch store_votes is_pending is_resetting
    is_expired sum_weights old_diff new_diff check_options to_updates update_tallies update_options
    update_option save_point remove_point add_within checked_sub lookup insert
place_runs = refl

abbrev best : List (ℕ × ℕ)
best = (1, 60) ∷ (2, 40) ∷ []

abbrev executed : State ℕ
executed = record voted {
  gauges = (0, record weekly { last_executed_set = some best }) ∷ [];
  last_epoch = (0, 1) ∷ [];
  vote_history =
      (0, (0, record { epoch = 700; next_epoch = 1000; votes = ballot; executed = true }) ∷ [])
      ∷ [];
}

abbrev order_sent : List (PlaceVotes ℕ)
order_sent = record { contract = 14; gauge = 7; votes = ballot } ∷ []

selected_runs : selected_set atomic 0 voted ≡ ok best
unfolding selected_set select is_selected capped is_resetting lookup
selected_runs = refl

place_call :
    execute atomic ltb same_order answers 500 3 (place 0 (some ballot)) created ≡ ok (voted, [])
unfolding execute
place_call = rw place_runs refl

-- The execution in the next epoch of the other gauge.
abbrev executed_later : State ℕ
executed_later = record voted {
  gauges = (0, record weekly { last_executed_set = some best; next_epoch = 1700 }) ∷ [];
  last_epoch = (0, 1) ∷ [];
  vote_history =
      (0, (0, record { epoch = 700; next_epoch = 1000; votes = ballot; executed = true }) ∷ [])
      ∷ [];
}

later_call :
    execute atomic ltb same_order later_answers 950 3 (execute_gauge 0) voted
    ≡ ok (executed_later, order_sent)
unfolding execute Epochs.execute update_epoch selected_set select is_selected capped weigh
    sum_powers ratios is_pending is_resetting add_within checked_sub lookup insert
later_call = refl

created-Consistent : Consistent created
created-Consistent =
    instantiate-Consistent atomic ltb same_order answers (13 ∷ []) 1 message created created_runs

voted-Consistent : Consistent voted
voted-Consistent =
    execute-Consistent atomic ltb same_order answers 500 3 (place 0 (some ballot)) created voted []
      created-Consistent place_call

abbrev whole_run : Run ℕ atomic ltb created executed_later
whole_run =
    call same_order answers 500 3 (place 0 (some ballot)) [] place_call
      (call same_order later_answers 950 3 (execute_gauge 0) order_sent later_call idle)

reachable-Consistent_example : Consistent executed_later × Valid executed_later
reachable-Consistent_example =
    reachable-Consistent ℕ atomic ltb answers (13 ∷ []) 1 message created_runs whole_run

created-Valid : Valid created
created-Valid = (reachable-Consistent ℕ atomic ltb answers (13 ∷ []) 1 message created_runs idle).1

run_history_example :
    ((h : VoteHistory ℕ)
      → lookup 0 (history_of 0 created) ≡ some h
      → lookup 0 (history_of 0 executed_later) ≡ some h)
    × (is_some (lookup 0 (history_of 0 executed_later)) ≡ ltb 0 (version 0 executed_later))
run_history_example = run_history ℕ atomic ltb 0 0 created-Valid whole_run

-- The gauge stopped from the start.
abbrev halted_gauge : Gauge ℕ
halted_gauge = record weekly { is_stopped = true }

abbrev halted : State ℕ
halted = record created { gauges = (0, halted_gauge) ∷ [] }

halted-Valid : Valid halted
unfolding lookup
halted-Valid = record {
  no_gauge = λ g le. ground arith;
  no_epoch = λ g le. ground arith;
  recorded = λ g e. ground arith;
}

halted_found : lookup 0 halted.gauges ≡ some halted_gauge
unfolding lookup
halted_found = refl

abbrev halted_voted : State ℕ
halted_voted = record voted { gauges = (0, halted_gauge) ∷ [] }

halted_place :
    execute atomic ltb same_order answers 500 3 (place 0 (some ballot)) halted
    ≡ ok (halted_voted, [])
unfolding execute place_votes get_voting_power add_balances begin_epoch store_votes is_pending
    is_resetting is_expired sum_weights old_diff new_diff check_options to_updates update_tallies
    update_options update_option save_point remove_point add_within checked_sub lookup insert
halted_place = refl

run_stopped_example :
    ((g : Gauge ℕ) × (lookup 0 halted_voted.gauges ≡ some g) × (g.last_executed_set ≡ none))
    × (Epochs.execute atomic later_answers 950 0 halted_voted ≡ err (gauge_stopped 0))
run_stopped_example =
    run_stopped ℕ atomic ltb later_answers 950 0 halted_gauge halted-Valid halted_found refl
      (call same_order answers 500 3 (place 0 (some ballot)) [] halted_place idle)

created_found : lookup 0 created.gauges ≡ some weekly
unfolding lookup
created_found = refl

same_order-IsOrder : IsOrder same_order
same_order-IsOrder d u = (u, λ o. refl)

place_votes_lem_example : Placement atomic answers 500 3 0 (some ballot) weekly created voted
place_votes_lem_example =
    place_votes_lem atomic ltb same_order answers same_order-IsOrder 500 3 0 (some ballot) weekly
      created voted created_found place_runs

selected_set-Answered_example : Answered atomic weekly (tally_of 0 voted) best
selected_set-Answered_example =
    selected_set-Answered atomic 0 weekly voted best voted-Consistent created_found selected_runs
