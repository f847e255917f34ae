-- ===== src/Governance/Contract/Handlers.antt =====
-- contracts/syneswap_proposal/src/contract.rs: instantiation, the handlers and their dispatch.
use synergistic_juno_contrac.Base.{
  ℕ, Bool, true, false, ◌&&◌, Option, none, some, List, [], ◌∷◌, ltb, leb, ◌==◌, if◌then◌else◌,
  Result, ok, err, ◌>>=◌, ◌>>◌, ok_or, get_or, ensure, reject_if,
}
use synergistic_juno_contrac.Base.Text.{Text}
use synergistic_juno_contrac.Base.Checked.{add128, add64, checked_sub}
use synergistic_juno_contrac.Base.Checked
use synergistic_juno_contrac.Base.Dict.{Dict, lookup, insert, amount_of}
use synergistic_juno_contrac.Governance.{
  Decimals, Threshold, Duration, time, Vote, Votes, Status, open_status, rejected, passed, executed,
  closed, Error, generic, aborted,
}
use synergistic_juno_contrac.Governance.Voting.{
  zero_votes, add_vote, remove_vote, validate_voting_period,
}
use synergistic_juno_contrac.Governance.Thresholds.{validate_threshold}
use synergistic_juno_contrac.Governance.Proposals.{is_passed, update_status, advance_proposal_id}
use synergistic_juno_contrac.Governance.Contract.{
  Proposal, Ballot, Config, State, InstantiateMsg, ExecuteMsg, propose, vote_on, execute_proposal,
  close, update_config, Chain,
}

abbrev pub max_proposal_size : ℕ
max_proposal_size = 30000

-- Only periods in seconds are accepted.
unfoldable pub verifying_voting_period : Duration → Duration → Duration → Bool
verifying_voting_period (time vp) (time mvp1) (time mvp2) = leb mvp1 vp && leb vp mvp2
verifying_voting_period vp mvp1 mvp2 = false

abbrev pub is_final : Status → Bool
is_final executed = true
is_final closed = true
is_final s = false

abbrev pub is_status_passed : Status → Bool
is_status_passed passed = true
is_status_passed s = false

abbrev pub is_rejected : Status → Bool
is_rejected rejected = true
is_rejected s = false

abbrev pub is_blank : Text → Bool
is_blank [] = true
is_blank (_ ∷ _) = false

abbrev pub same_vote : Vote → Vote → Bool
same_vote Vote.yes Vote.yes = true
same_vote Vote.no Vote.no = true
same_vote Vote.abstain Vote.abstain = true
same_vote v w = false

-- The votes without the ballot that the voter has cast before. With `allow_revoting` the same
-- vote is refused.
unfoldable pub take_back : Bool → Vote → Option Ballot → Votes → Result Error Votes
take_back allow_revoting vote none votes = ok votes
take_back allow_revoting vote (some current) votes =
    let removed = ok_or (remove_vote current.vote current.power votes) aborted in
    if allow_revoting && same_vote current.vote vote then err generic else removed

module _ {D E Msg : Type 0} where
  -- The locked amount of a proposer is lowered by the limit of the present configuration.
  abbrev pub unlock : ℕ → State D E Msg → Result Error (Dict ℕ)
  unlock proposer s = do
    lowered ←
        ok_or
          (checked_sub (amount_of proposer s.proposers_info) s.config.proposal_creation_token_limit)
          aborted
    ok (insert proposer lowered s.proposers_info)

  abbrev pub ballots_of : ℕ → State D E Msg → Dict Ballot
  ballots_of proposal_id s = get_or (lookup proposal_id s.ballots) []

  abbrev pub silent : Result Error (State D E Msg) → Result Error (State D E Msg × List Msg)
  silent r = r >>= λ s. ok (s, [])

module _ {D E Block Msg Period : Type 0} (decimals : Decimals D)
    (chain : Chain D E Block Msg Period) where
  unfoldable pub instantiate : ℕ → InstantiateMsg D → Result Error (State D E Msg)
  instantiate sender msg = do
    validate_threshold decimals msg.threshold
    (min_voting_period, max_voting_period) ←
        validate_voting_period msg.min_voting_period msg.max_voting_period
    ok (record {
      config = record {
        threshold = msg.threshold;
        max_voting_period = max_voting_period;
        min_voting_period = min_voting_period;
        dao = msg.dao;
        admin = sender;
        proposal_creation_token_limit = msg.proposal_creation_token_limit;
        token_hold_duration = msg.token_hold_duration;
      };
      proposal_count = some 0;
      proposals = [];
      ballots = [];
      proposers_info = [];
    })

  -- A query that fails counts as zero.
  unfoldable pub get_voting_power : ℕ → Text → ℕ
  get_voting_power sender dao = get_or (chain.balance dao sender) 0

  unfoldable pub add_totals : Text → List Period → ℕ → Option ℕ
  add_totals dao [] total_power = some total_power
  add_totals dao (d ∷ ds) total_power =
      Checked.◌>>=◌ (add128 total_power (get_or (chain.total_balance dao d) 0))
        λ next. add_totals dao ds next

  unfoldable pub get_total_power : Text → Result Error ℕ
  get_total_power dao = do
    durations ← ok_or (chain.durations dao) generic
    ok_or (add_totals dao durations 0) aborted

  abbrev pub refresh : Block → Proposal D E Msg → Result Error (Proposal D E Msg)
  refresh block p = ok_or (update_status decimals chain.is_expired block p) aborted

  abbrev pub new_proposal :
      Block → ℕ → Text → Text → List Msg → Duration → Config D → Proposal D E Msg
  new_proposal block sender title description msgs voting_period config = record {
    expiration = chain.after voting_period block;
    threshold = config.threshold;
    status = open_status;
    votes = zero_votes;
    allow_revoting = false;
    total_power = 0;
    rest = record {
      title = title;
      description = description;
      proposer = sender;
      msgs = msgs;
      voting_start_time = chain.seconds block;
    };
  }

  unfoldable pub execute_propose :
      Block → ℕ → Text → Text → List Msg → Duration → State D E Msg → Result Error (State D E Msg)
  execute_propose block sender title description msgs voting_period s = do
    ensure
        (verifying_voting_period voting_period s.config.min_voting_period
          s.config.max_voting_period)
        generic
    let vote_power = get_voting_power sender s.config.dao
    reject_if (vote_power == 0) generic
    let locked_amount = amount_of sender s.proposers_info
    free ← ok_or (checked_sub vote_power locked_amount) aborted
    reject_if (ltb free s.config.proposal_creation_token_limit) generic
    raised ← ok_or (add128 locked_amount s.config.proposal_creation_token_limit) aborted
    proposal ←
        refresh block (new_proposal block sender title description msgs voting_period s.config)
    id ← ok_or (advance_proposal_id s.proposal_count) aborted
    size ← ok_or (chain.proposal_size proposal) generic
    reject_if (ltb max_proposal_size size) generic
    ok (record s {
      proposers_info = insert sender raised s.proposers_info;
      proposal_count = some id;
      proposals = insert id proposal s.proposals;
    })

  -- The messages of the proposal are sent.
  unfoldable pub execute_execute :
      Block → ℕ → ℕ → State D E Msg → Result Error (State D E Msg × List Msg)
  execute_execute block sender proposal_id s = do
    prop ← ok_or (lookup proposal_id s.proposals) generic
    reject_if (get_voting_power sender s.config.dao == 0) generic
    info ← unlock prop.rest.proposer s
    answer ← ok_or (is_passed decimals chain.is_expired block prop) aborted
    ensure (is_blank answer.description) generic
    current ← refresh block prop
    ensure (is_status_passed current.status) generic
    ok (
      record s {
        proposers_info = info;
        proposals = insert proposal_id (record current { status = executed }) s.proposals;
      },
      prop.rest.msgs,
    )

  unfoldable pub execute_vote : Block → ℕ → ℕ → Vote → State D E Msg → Result Error (State D E Msg)
  execute_vote block sender proposal_id vote s = do
    prop ← ok_or (lookup proposal_id s.proposals) generic
    let vote_power = get_voting_power sender s.config.dao
    reject_if (vote_power == 0) generic
    reject_if (chain.is_expired prop.expiration block) generic
    reject_if (is_final prop.status) generic
    let cast = ballots_of proposal_id s
    left ← take_back prop.allow_revoting vote (lookup sender cast) prop.votes
    votes ← ok_or (add_vote vote vote_power left) aborted
    total_power ← get_total_power s.config.dao
    current ← refresh block (record prop { votes = votes; total_power = total_power })
    ok (record s {
      ballots =
          insert proposal_id (insert sender (record { power = vote_power; vote = vote }) cast)
            s.ballots;
      proposals = insert proposal_id current s.proposals;
    })

  unfoldable pub execute_close : Block → ℕ → State D E Msg → Result Error (State D E Msg)
  execute_close block proposal_id s = do
    prop ← ok_or (lookup proposal_id s.proposals) generic
    held_until ← ok_or (add64 prop.rest.voting_start_time s.config.token_hold_duration) aborted
    reject_if (ltb (chain.seconds block) held_until) generic
    current ← refresh block prop
    ensure (is_rejected current.status) generic
    info ← unlock prop.rest.proposer s
    ok (record s {
      proposers_info = info;
      proposals = insert proposal_id (record current { status = closed }) s.proposals;
    })

  abbrev pub checked_threshold : Option (Threshold D) → Threshold D → Result Error (Threshold D)
  checked_threshold none old = ok old
  checked_threshold (some new) old = do validate_threshold decimals new; ok new

  unfoldable pub execute_update_config :
      ℕ
      → Option (Threshold D)
      → Option Duration
      → Option Duration
      → Option Text
      → Option ℕ
      → Option ℕ
      → State D E Msg
      → Result Error (State D E Msg)
  execute_update_config sender new_threshold new_max new_min new_dao new_hold new_limit s = do
    let config = s.config
    ensure (sender == config.admin) generic
    threshold ← checked_threshold new_threshold config.threshold
    (min_voting_period, max_voting_period) ←
        validate_voting_period (get_or new_min config.min_voting_period)
          (get_or new_max config.max_voting_period)
    ok (record s {
      config = record {
        threshold = threshold;
        max_voting_period = max_voting_period;
        min_voting_period = min_voting_period;
        dao = get_or new_dao config.dao;
        admin = config.admin;
        token_hold_duration = get_or new_hold config.token_hold_duration;
        proposal_creation_token_limit = get_or new_limit config.proposal_creation_token_limit;
      };
    })

  -- The entry point `execute`.
  unfoldable pub execute :
      Block → ℕ → ExecuteMsg D Msg → State D E Msg → Result Error (State D E Msg × List Msg)
  execute block sender (propose title description msgs voting_period) s =
      silent (execute_propose block sender title description msgs voting_period s)
  execute block sender (vote_on proposal_id vote) s =
      silent (execute_vote block sender proposal_id vote s)
  execute block sender (execute_proposal proposal_id) s = execute_execute block sender proposal_id s
  execute block sender (close proposal_id) s = silent (execute_close block proposal_id s)
  execute block sender (update_config threshold max min dao hold limit) s =
      silent (execute_update_config sender threshold max min dao hold limit s)
