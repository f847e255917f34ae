-- ===== src/Governance/Contract/Runs.antt =====
-- Runs of contracts/syneswap_proposal: the messages that succeed, one after the other.
use synergistic_juno_contrac.Base.{
  ℕ, true, ◌≡◌, refl, sym, ◌∙◌, ap, subst, Option, some, List, Result, ok, ok_or, ensure, Returns,
  returns, step, follow, returned,
}
use synergistic_juno_contrac.Base.Text.{Text}
use synergistic_juno_contrac.Base.Dict.{lookup}
use synergistic_juno_contrac.Governance.{Decimals, Threshold, Duration, Error, generic}
use synergistic_juno_contrac.Governance.Voting.{validate_voting_period}
use synergistic_juno_contrac.Governance.Thresholds.{validate_threshold}
use synergistic_juno_contrac.Governance.Contract.{
  Proposal, State, InstantiateMsg, ExecuteMsg, propose, vote_on, execute_proposal, close,
  update_config, Chain,
}
use synergistic_juno_contrac.Governance.Contract.Handlers.{
  is_final, is_status_passed, refresh, instantiate, execute_execute, execute_update_config, silent,
  execute,
}
use synergistic_juno_contrac.Governance.Contract.Lifecycle.{
  Valid, Progress, Progress-refl, Progress-trans,
}
use synergistic_juno_contrac.Governance.Contract.Lifecycle.Handlers.{
  First, refresh_lem, passed_not_final, contradiction, propose-Progress, execute-Progress,
  close-Progress, vote-Progress,
}

module _ {D E Msg : Type 0} (Block Period : Type 0) (decimals : Decimals D) where
  -- The messages that take the contract from one state to another. With each of them the chain and
  -- the staking contract may answer anew, so voting powers may change in between.
  pub data Run : State D E Msg → State D E Msg → Type 0 where
    idle : {s : State D E Msg} → Run s s
    call :
        {s t u : State D E Msg} (chain : Chain D E Block Msg Period) (block : Block) (sender : ℕ)
        (msg : ExecuteMsg D Msg) (sent : List Msg)
        → execute decimals chain block sender msg s ≡ ok (t, sent)
        → Run t u
        → Run s u

module _ {D E Block Msg Period : Type 0} (decimals : Decimals D)
    (chain : Chain D E Block Msg Period) where
  kept :
      (s s' : State D E Msg)
      → s'.proposals ≡ s.proposals
      → s'.ballots ≡ s.ballots
      → s'.proposal_count ≡ s.proposal_count
      → Valid s
      → Returns {E = Error} (Progress s) (ok s')
  kept s s' p b n v = returns (record {
    valid = record {
      fresh = λ id lt. rw p (v.fresh id (rw (sym n) lt));
      unvoted = λ id e. rw b (v.unvoted id (sym (ap (lookup id) p) ∙ e));
      unique = λ id. rw b (v.unique id);
      tallied = λ id q e. rw b (v.tallied id q (sym (ap (lookup id) p) ∙ e));
    };
    proposals = λ id q e. (
      q,
      ap (lookup id) p ∙ e,
      record { same_rest = refl; same_expiration = refl; same_threshold = refl; final = λ f. refl },
    );
  })

  update_config-Progress :
      (sender : ℕ) (threshold : Option (Threshold D)) (most least : Option Duration)
      (dao : Option Text) (hold limit : Option ℕ) (s : State D E Msg)
      → Valid s
      → Returns
          (Progress s)
          (execute_update_config decimals chain sender threshold most least dao hold limit s)
  unfolding execute_update_config
  update_config-Progress sender threshold most least dao hold limit s v =
      search (step, kept) depth 10

  silent-Progress :
      (s : State D E Msg) {r : Result Error (State D E Msg)}
      → Returns (Progress s) r
      → Returns (First decimals chain s) (silent r)
  silent-Progress s q = follow q λ t p. returns p

  pub execute-Returns :
      (block : Block) (sender : ℕ) (msg : ExecuteMsg D Msg) (s : State D E Msg)
      → Valid s
      → Returns (First decimals chain s) (execute decimals chain block sender msg s)
  unfolding execute
  execute-Returns block sender (propose title description msgs period) s v =
      silent-Progress s
        (propose-Progress decimals chain block sender title description msgs period s v)
  execute-Returns block sender (vote_on id vote) s v =
      silent-Progress s (vote-Progress decimals chain block sender id vote s v)
  execute-Returns block sender (execute_proposal id) s v =
      execute-Progress decimals chain block sender id s v
  execute-Returns block sender (close id) s v =
      silent-Progress s (close-Progress decimals chain block id s v)
  execute-Returns block sender (update_config threshold most least dao hold limit) s v =
      silent-Progress s (update_config-Progress sender threshold most least dao hold limit s v)

  abbrev Never : State D E Msg × List Msg → Type 0
  Never r = ⊥

  final_last :
      (block : Block) (id : ℕ) (p q cur : Proposal D E Msg) (s : State D E Msg)
      (r : State D E Msg × List Msg)
      → lookup id s.proposals ≡ some p
      → is_final p.status ≡ true
      → ok_or {E = Error} (lookup id s.proposals) generic ≡ ok q
      → refresh decimals chain block q ≡ ok cur
      → ensure {E = Error} (is_status_passed cur.status) generic ≡ ok tt
      → Returns {E = Error} Never (ok r)
  final_last block id p q cur s r e f q_eq r_eq t =
      let same : p ≡ q = cc in
      let final : is_final q.status ≡ true = subst (λ x. is_final x.status ≡ true) same f in
      let (st, cur_eq, kept) = refresh_lem decimals chain block q cur r_eq in
      absurd (
        contradiction (is_final cur.status)
          (ap (λ x. is_final x.status) cur_eq ∙ ap is_final (kept final) ∙ final)
          (passed_not_final decimals chain cur.status t))

  final_not_executed :
      (block : Block) (sender id : ℕ) (p : Proposal D E Msg) (s : State D E Msg)
      → lookup id s.proposals ≡ some p
      → is_final p.status ≡ true
      → Returns Never (execute_execute decimals chain block sender id s)
  unfolding execute_execute
  final_not_executed block sender id p s e f = search (step, final_last) depth 12

  new-Valid :
      (sender : ℕ) (msg : InstantiateMsg D) → Returns Valid (instantiate decimals chain sender msg)
  unfolding instantiate lookup
  new-Valid sender msg = step (validate_threshold decimals msg.threshold) λ _ _.
      step (validate_voting_period msg.min_voting_period msg.max_voting_period) λ (least, most) _.
        returns (record {
          fresh = λ id lt. refl;
          unvoted = λ id e. refl;
          unique = λ id. tt;
          tallied = λ id p e. absurd (cc);
        })

module _ {D E Msg : Type 0} (Block Period : Type 0) (decimals : Decimals D) where
  run-Progress : {s u : State D E Msg} → Valid s → Run Block Period decimals s u → Progress s u
  run-Progress {s = s} v idle = Progress-refl s v
  run-Progress {s = s} {u = u} v (call {t = t} chain block sender msg sent h r) =
      let p = returned (execute-Returns decimals chain block sender msg s v) h in
      Progress-trans s t u p (run-Progress p.valid r)

  -- A proposal that is executed or closed stays as it is over any run of messages, with any
  -- answers of the staking contract to each of them; and after the run no execution of it succeeds,
  -- whatever the staking contract answers then.
  pub run_final :
      {s u : State D E Msg} (chain : Chain D E Block Msg Period) (block : Block) (sender id : ℕ)
      (p : Proposal D E Msg)
      → Valid s
      → lookup id s.proposals ≡ some p
      → is_final p.status ≡ true
      → Run Block Period decimals s u
      → (lookup id u.proposals ≡ some p)
        × ((r : State D E Msg × List Msg)
            → execute_execute decimals chain block sender id u ≡ ok r
            → ⊥)
  run_final {u = u} chain block sender id p v e f run =
      let (p', e', kept) = (run-Progress v run).proposals id p e in
      let found : lookup id u.proposals ≡ some p = e' ∙ ap some (kept.final f) in
      (found, λ r h. returned (final_not_executed decimals chain block sender id p u found f) h)

  -- Whatever messages follow the creation of the contract, and whatever the staking contract
  -- answers to each of them, only identifiers up to the count are
  -- in use, and the yes, no and abstain votes of each proposal are the sums of the powers of the
  -- ballots that are stored for it, of which each voter has one at most.
  pub reachable-Valid :
      (chain : Chain D E Block Msg Period) (sender : ℕ) (msg : InstantiateMsg D)
      {s u : State D E Msg}
      → instantiate decimals chain sender msg ≡ ok s
      → Run Block Period decimals s u
      → Valid u
  reachable-Valid chain sender msg h r =
      (run-Progress (returned (new-Valid decimals chain sender msg) h) r).valid
