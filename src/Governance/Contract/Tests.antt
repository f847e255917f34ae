-- ===== src/Governance/Contract/Tests.antt =====
-- contracts/syneswap_proposal with one proposal and one voter.
use synergistic_juno_contrac.Base.{
  ℕ, ◌^◌, true, false, ◌≡◌, refl, some, List, [], ◌∷◌, ltb, leb, ◌==◌, ok,
}
use synergistic_juno_contrac.Base.Checked.{add_within, checked_sub}
use synergistic_juno_contrac.Base.Dict.{Dict, lookup, insert}
use synergistic_juno_contrac.Governance.{
  Decimals, Duration, time, yes, open_status, passed, executed, absolute_count,
}
use synergistic_juno_contrac.Governance.Voting.{zero_votes, add_vote, validate_voting_period}
use synergistic_juno_contrac.Governance.Thresholds.{validate_threshold}
use synergistic_juno_contrac.Governance.Proposals.{
  is_passed, threshold_passed, current_status, update_status, advance_proposal_id,
}
use synergistic_juno_contrac.Governance.Contract.{
  Proposal, State, InstantiateMsg, propose, vote_on, execute_proposal, Chain,
}
use synergistic_juno_contrac.Governance.Contract.Handlers.{
  is_final, unlock, verifying_voting_period, instantiate, get_voting_power, add_totals,
  get_total_power, execute_propose, execute_vote, take_back, execute_execute, execute,
}
use synergistic_juno_contrac.Governance.Contract.Lifecycle.{Valid}
use synergistic_juno_contrac.Governance.Contract.Runs.{Run, idle, call, run_final, reachable-Valid}
use synergistic_juno_contrac.Governance.Contract.Executed.{Executed, execute_execute_lem}
use synergistic_juno_contrac.Governance.Contract.Locks.{Locked}
use synergistic_juno_contrac.Governance.Contract.Locks.Quiet.{Quiet, quiet_lem}

-- No decimal number is used.
abbrev numbers : Decimals ℕ
numbers = record {
  atomics = λ d. d;
  decimal_places = λ d. 18;
  is_zero = λ d. d == 0;
  above_one = λ d. ltb (10 ^ 18) d;
  one_minus = λ d. checked_sub (10 ^ 18) d;
}

abbrev seconds_after : Duration → ℕ → ℕ
seconds_after (time n) now = 1000
seconds_after (Duration.height n) now = 1000

-- Every account has a power of 100, and the staking contract a total of 100.
abbrev chain : Chain ℕ ℕ ℕ ℕ ℕ
chain = record {
  is_expired = leb;
  after = seconds_after;
  seconds = λ now. now;
  proposal_size = λ p. some 500;
  balance = λ dao a. some 100;
  durations = λ dao. some (0 ∷ []);
  total_balance = λ dao d. some 100;
}

abbrev message : InstantiateMsg ℕ
message = record {
  threshold = absolute_count 50;
  max_voting_period = time 900;
  min_voting_period = time 60;
  only_members_execute = true;
  allow_revoting = false;
  close_proposal_on_execution_failure = false;
  dao = 7 ∷ [];
  proposal_creation_token_limit = 40;
  token_hold_duration = 10;
}

abbrev created : State ℕ ℕ ℕ
created = record {
  config = record {
    threshold = absolute_count 50;
    max_voting_period = time 900;
    min_voting_period = time 60;
    dao = 7 ∷ [];
    admin = 1;
    proposal_creation_token_limit = 40;
    token_hold_duration = 10;
  };
  proposal_count = some 0;
  proposals = [];
  ballots = [];
  proposers_info = [];
}

created_runs : instantiate numbers chain 1 message ≡ ok created
unfolding instantiate validate_threshold validate_voting_period
created_runs = refl

abbrev proposal : Proposal ℕ ℕ ℕ
proposal = record {
  expiration = 1000;
  threshold = absolute_count 50;
  status = open_status;
  votes = zero_votes;
  allow_revoting = false;
  total_power = 0;
  rest = record {
    title = [];
    description = [];
    proposer = 3;
    msgs = 77 ∷ [];
    voting_start_time = 100;
  };
}

abbrev proposed : State ℕ ℕ ℕ
proposed = record created {
  proposal_count = some 1;
  proposals = (1, proposal) ∷ [];
  proposers_info = (3, 40) ∷ [];
}

propose_runs :
    execute numbers chain 100 3 (propose [] [] (77 ∷ []) (time 900)) created ≡ ok (proposed, [])
unfolding execute execute_propose verifying_voting_period get_voting_power update_status
    current_status is_passed threshold_passed advance_proposal_id add_within checked_sub lookup
    insert
propose_runs = refl

abbrev voted_proposal : Proposal ℕ ℕ ℕ
voted_proposal = record proposal {
  status = passed;
  votes = record { yes = 100; no = 0; abstain = 0 };
  total_power = 100;
}

abbrev voted : State ℕ ℕ ℕ
voted = record proposed {
  proposals = (1, voted_proposal) ∷ [];
  ballots = (1, (4, record { power = 100; vote = yes }) ∷ []) ∷ [];
}

vote_runs : execute numbers chain 200 4 (vote_on 1 yes) proposed ≡ ok (voted, [])
unfolding execute execute_vote get_voting_power take_back add_vote get_total_power add_totals
    update_status current_status is_passed threshold_passed add_within lookup insert
vote_runs = refl

abbrev done_proposal : Proposal ℕ ℕ ℕ
done_proposal = record voted_proposal { status = executed }

abbrev done : State ℕ ℕ ℕ
done = record voted { proposals = (1, done_proposal) ∷ []; proposers_info = (3, 0) ∷ [] }

execute_runs : execute_execute numbers chain 300 4 1 voted ≡ ok (done, 77 ∷ [])
unfolding execute_execute get_voting_power is_passed threshold_passed update_status current_status
    checked_sub lookup insert
execute_runs = refl

-- Later the account has unstaked most of its tokens.
abbrev later_chain : Chain ℕ ℕ ℕ ℕ ℕ
later_chain = record chain { balance = λ dao a. some 30; total_balance = λ dao d. some 30 }

later_call : execute numbers later_chain 300 4 (execute_proposal 1) voted ≡ ok (done, 77 ∷ [])
unfolding execute execute_execute get_voting_power is_passed threshold_passed update_status
    current_status checked_sub lookup insert
later_call = refl

abbrev whole_run : Run ℕ ℕ numbers created done
whole_run = call chain 100 3 (propose [] [] (77 ∷ []) (time 900)) [] propose_runs (
    call chain 200 4 (vote_on 1 yes) [] vote_runs
      (call later_chain 300 4 (execute_proposal 1) (77 ∷ []) later_call idle))

reachable-Valid_example : Valid done
reachable-Valid_example = reachable-Valid ℕ ℕ numbers chain 1 message created_runs whole_run

found : lookup 1 voted.proposals ≡ some voted_proposal
unfolding lookup
found = refl

found_done : lookup 1 done.proposals ≡ some done_proposal
unfolding lookup
found_done = refl

execute_execute_lem_example : Executed numbers chain 300 1 voted_proposal voted done (77 ∷ [])
execute_execute_lem_example =
    execute_execute_lem numbers chain 300 4 1 voted_proposal voted done (77 ∷ []) found execute_runs

-- Another proposal after the first is executed.
abbrev again : State ℕ ℕ ℕ
again = record done {
  proposal_count = some 2;
  proposals = (1, done_proposal) ∷ (2, proposal) ∷ [];
  proposers_info = (3, 40) ∷ [];
}

again_runs : execute numbers chain 100 3 (propose [] [] (77 ∷ []) (time 900)) done ≡ ok (again, [])
unfolding execute execute_propose verifying_voting_period get_voting_power update_status
    current_status is_passed threshold_passed advance_proposal_id add_within checked_sub lookup
    insert
again_runs = refl

run_final_example :
    (lookup 1 again.proposals ≡ some done_proposal)
    × ((r : State ℕ ℕ ℕ × List ℕ) → execute_execute numbers later_chain 400 4 1 again ≡ ok r → ⊥)
run_final_example =
    run_final ℕ ℕ numbers later_chain 400 4 1 done_proposal reachable-Valid_example found_done refl
      (call chain 100 3 (propose [] [] (77 ∷ []) (time 900)) [] again_runs idle)

created-Valid : Valid created
created-Valid = reachable-Valid ℕ ℕ numbers chain 1 message created_runs idle

created-Locked : Locked created
unfolding lookup
created-Locked a = refl

quiet_lem_example :
    Locked done
    × ((id : ℕ) (p : Proposal ℕ ℕ ℕ)
        → lookup id done.proposals ≡ some p
        → is_final p.status ≡ false
        → (info : Dict ℕ) × (unlock p.rest.proposer done ≡ ok info))
quiet_lem_example = quiet_lem ℕ ℕ numbers created-Valid created-Locked (
    Quiet.call chain 100 3 (propose [] [] (77 ∷ []) (time 900)) [] refl propose_runs (
      Quiet.call chain 200 4 (vote_on 1 yes) [] refl vote_runs
        (Quiet.call later_chain 300 4 (execute_proposal 1) (77 ∷ []) refl later_call Quiet.idle)))
