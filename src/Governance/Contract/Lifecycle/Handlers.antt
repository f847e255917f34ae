-- ===== src/Governance/Contract/Lifecycle/Handlers.antt =====
-- The handlers of contracts/syneswap_proposal/src/contract.rs keep proposals valid and final ones as they are.
use synergistic_juno_contrac.Base.{
  ℕ, ◌+◌, Bool, true, false, ◌≡◌, refl, sym, ◌∙◌, ap, subst, Option, none, some, List, arith, ◌==◌,
  get_or, Option-cases, inl, inr, ok, ok_or, ok_or-eq-ok, ensure, reject_if, Returns, returns, step,
  ltb,
}
use synergistic_juno_contrac.Base.Text.{Text}
use synergistic_juno_contrac.Base.Checked.{add_within, add128, checked_sub, ◌>>=◌}
use synergistic_juno_contrac.Base.Dict.{Dict, lookup, insert, Unique-insert, amount_of}
use synergistic_juno_contrac.Governance.{
  Decimals, Duration, Votes, Vote, Status, open_status, rejected, passed, execution_failed,
  executed, closed, Error, generic, aborted,
}
use synergistic_juno_contrac.Governance.Voting.{add_vote}
use synergistic_juno_contrac.Governance.Proposals.{
  advance_proposal_id, is_open, current_status, update_status,
}
use synergistic_juno_contrac.Governance.Contract.{Proposal, State, Chain}
use synergistic_juno_contrac.Governance.Contract.Handlers.{
  is_final, verifying_voting_period, max_proposal_size, ballots_of, take_back, refresh,
  new_proposal, get_voting_power, execute_propose, execute_vote, execute_execute, execute_close,
  is_status_passed, is_rejected,
}
use synergistic_juno_contrac.Governance.Contract.Ballots.{Counts, vote-Counts}
use synergistic_juno_contrac.Governance.Contract.Lifecycle.{
  save-Progress, save_ballots-Progress, new-Progress, Valid, Evolves, Progress,
}

pub advanced :
    (count : Option ℕ) (id : ℕ)
    → ok_or {E = Error} (advance_proposal_id count) aborted ≡ ok id
    → id ≡ get_or count 0 + 1
unfolding advance_proposal_id add_within
advanced none id e = ground arith
advanced (some n) id e = ground arith

pub contradiction : (b : Bool) → b ≡ true → b ≡ false → ⊥
contradiction b t f = cc

module _ {D E Block Msg Period : Type 0} (decimals : Decimals D)
    (chain : Chain D E Block Msg Period) where
  pub passed_not_final :
      (st : Status) → ensure {E = Error} (is_status_passed st) generic ≡ ok tt → is_final st ≡ false
  passed_not_final open_status e = cc
  passed_not_final rejected e = cc
  passed_not_final passed e = cc
  passed_not_final executed e = cc
  passed_not_final closed e = cc
  passed_not_final execution_failed e = cc

  pub rejected_not_final :
      (st : Status) → ensure {E = Error} (is_rejected st) generic ≡ ok tt → is_final st ≡ false
  rejected_not_final open_status e = cc
  rejected_not_final rejected e = cc
  rejected_not_final passed e = cc
  rejected_not_final executed e = cc
  rejected_not_final closed e = cc
  rejected_not_final execution_failed e = cc

  pub not_final :
      (st : Status) → reject_if {E = Error} (is_final st) generic ≡ ok tt → is_final st ≡ false
  not_final open_status e = cc
  not_final rejected e = cc
  not_final passed e = cc
  not_final executed e = cc
  not_final closed e = cc
  not_final execution_failed e = cc

  -- The update of a status from what `current_status` returns.
  unknown :
      (o : Option Status) (p q : Proposal D E Msg)
      → o ≡ none
      → ok_or {E = Error} (o >>= λ st. some (record p { status = st })) aborted ≡ ok q
      → ⊥
  unknown none p q e h = cc
  unknown (some st) p q e h = cc

  known :
      (o : Option Status) (p q : Proposal D E Msg) (st : Status)
      → o ≡ some st
      → ok_or {E = Error} (o >>= λ st. some (record p { status = st })) aborted ≡ ok q
      → q ≡ record p { status = st }
  known none p q st e h = cc
  known (some u) p q st e h =
      let same : u ≡ st = cc in
      let it : record p { status = u } ≡ q = cc in sym it ∙ ap (λ u. record p { status = u }) same

  not_open : (st : Status) → is_final st ≡ true → is_open st ≡ false
  not_open executed e = refl
  not_open closed e = refl
  not_open open_status e = cc
  not_open rejected e = refl
  not_open passed e = refl
  not_open execution_failed e = refl

  current_final :
      (block : Block) (p : Proposal D E Msg)
      → is_final p.status ≡ true
      → current_status decimals chain.is_expired block p ≡ some p.status
  unfolding current_status
  current_final block p f = rw (not_open p.status f) refl

  -- The status is refreshed, but not a final one.
  pub refresh_lem :
      (block : Block) (p q : Proposal D E Msg)
      → refresh decimals chain block p ≡ ok q
      → (st : Status) × (q ≡ record p { status = st }) × (is_final p.status ≡ true → st ≡ p.status)
  unfolding update_status
  refresh_lem block p q h = elim (Option-cases (current_status decimals chain.is_expired block p)) [
    | inl e ↦ absurd (unknown (current_status decimals chain.is_expired block p) p q e h)
    | inr (st, e) ↦ (
      st,
      known (current_status decimals chain.is_expired block p) p q st e h,
      λ f. let kept = current_final block p f in cc,
    )
  ]

  -- A proposal whose refreshed status is not final may get any status.
  decided :
      (block : Block) (p q : Proposal D E Msg) (u : Status)
      → refresh decimals chain block p ≡ ok q
      → is_final q.status ≡ false
      → Evolves p (record q { status = u })
  decided block p q u r undecided =
      let (st, q_eq, kept) = refresh_lem block p q r in
      record {
        same_rest = ap (λ x. x.rest) q_eq;
        same_expiration = ap (λ x. x.expiration) q_eq;
        same_threshold = ap (λ x. x.threshold) q_eq;
        final = λ f. absurd (
            contradiction (is_final p.status) f
              (ap is_final (sym (kept f) ∙ sym (ap (λ x. x.status) q_eq)) ∙ undecided));
      }

  same_votes :
      (block : Block) (p q : Proposal D E Msg)
      → refresh decimals chain block p ≡ ok q
      → q.votes ≡ p.votes
  same_votes block p q r = let (st, q_eq, kept) = refresh_lem block p q r in ap (λ x. x.votes) q_eq

  abbrev pub First : State D E Msg → State D E Msg × List Msg → Type 0
  First s r = Progress s r.0

  executed_last :
      (block : Block) (id : ℕ) (p q : Proposal D E Msg) (info : Dict ℕ) (msgs : List Msg)
      (s : State D E Msg)
      → Valid s
      → ok_or {E = Error} (lookup id s.proposals) generic ≡ ok p
      → refresh decimals chain block p ≡ ok q
      → ensure {E = Error} (is_status_passed q.status) generic ≡ ok tt
      → Returns {E = Error} (First s) (
          ok (
            record s {
              proposers_info = info;
              proposals = insert id (record q { status = executed }) s.proposals;
            },
            msgs,
          ))
  executed_last block id p q info msgs s v e r t = returns (
      save-Progress id p (record q { status = executed }) info s v
        (ok_or-eq-ok (lookup id s.proposals) generic e) (same_votes block p q r)
        (decided block p q executed r (passed_not_final q.status t)))

  closed_last :
      (block : Block) (id : ℕ) (p q : Proposal D E Msg) (info : Dict ℕ) (s : State D E Msg)
      → Valid s
      → ok_or {E = Error} (lookup id s.proposals) generic ≡ ok p
      → refresh decimals chain block p ≡ ok q
      → ensure {E = Error} (is_rejected q.status) generic ≡ ok tt
      → Returns {E = Error} (Progress s) (
          ok (record s {
            proposers_info = info;
            proposals = insert id (record q { status = closed }) s.proposals;
          }))
  closed_last block id p q info s v e r t = returns (
      save-Progress id p (record q { status = closed }) info s v
        (ok_or-eq-ok (lookup id s.proposals) generic e) (same_votes block p q r)
        (decided block p q closed r (rejected_not_final q.status t)))

  voted_last :
      (block : Block) (sender id power total : ℕ) (vote : Vote) (p q : Proposal D E Msg)
      (left votes : Votes) (s : State D E Msg)
      → Valid s
      → ok_or {E = Error} (lookup id s.proposals) generic ≡ ok p
      → reject_if {E = Error} (is_final p.status) generic ≡ ok tt
      → take_back p.allow_revoting vote (lookup sender (ballots_of id s)) p.votes ≡ ok left
      → ok_or {E = Error} (add_vote vote power left) aborted ≡ ok votes
      → refresh decimals chain block (record p { votes = votes; total_power = total }) ≡ ok q
      → Returns {E = Error} (Progress s) (
          ok (record s {
            ballots =
                insert id
                  (insert sender (record { power = power; vote = vote }) (ballots_of id s))
                  s.ballots;
            proposals = insert id q s.proposals;
          }))
  voted_last block sender id power total vote p q left votes s v e f t a r =
      let found = ok_or-eq-ok (lookup id s.proposals) generic e in
      let counted : Proposal D E Msg = record p { votes = votes; total_power = total } in
      let (st, q_eq, kept) = refresh_lem block counted q r in
      returns (
        save_ballots-Progress id p q
          (insert sender (record { power = power; vote = vote }) (ballots_of id s)) s v found
          (Unique-insert sender (record { power = power; vote = vote }) (ballots_of id s)
            (v.unique id))
          (subst
            (λ x.
              Counts x (insert sender (record { power = power; vote = vote }) (ballots_of id s)))
            (sym (same_votes block counted q r))
            (vote-Counts p.allow_revoting vote sender power p.votes left votes (ballots_of id s)
              (v.tallied id p found) t (ok_or-eq-ok (add_vote vote power left) aborted a)))
          (record {
            same_rest = ap (λ x. x.rest) q_eq;
            same_expiration = ap (λ x. x.expiration) q_eq;
            same_threshold = ap (λ x. x.threshold) q_eq;
            final =
                λ final. absurd (contradiction (is_final p.status) final (not_final p.status f));
          }))

  pub propose-Progress :
      (block : Block) (sender : ℕ) (title description : Text) (msgs : List Msg) (period : Duration)
      (s : State D E Msg)
      → Valid s
      → Returns
          (Progress s)
          (execute_propose decimals chain block sender title description msgs period s)
  unfolding execute_propose
  propose-Progress block sender title description msgs period s v =
      step
        (ensure
          (verifying_voting_period period s.config.min_voting_period s.config.max_voting_period)
          generic)
        λ _ _.
          step (reject_if (get_voting_power decimals chain sender s.config.dao == 0) generic) λ _ _.
            step
              (ok_or
                (checked_sub (get_voting_power decimals chain sender s.config.dao)
                  (amount_of sender s.proposers_info))
                aborted)
              λ free _.
                step (reject_if (ltb free s.config.proposal_creation_token_limit) generic) λ _ _.
                  step
                    (ok_or
                      (add128 (amount_of sender s.proposers_info)
                        s.config.proposal_creation_token_limit)
                      aborted)
                    λ raised _.
                      step
                        (refresh decimals chain block (
                          new_proposal decimals chain block sender title description msgs period
                            s.config))
                        λ p p_eq.
                          step (ok_or (advance_proposal_id s.proposal_count) aborted) λ id id_eq.
                            step (ok_or (chain.proposal_size p) generic) λ size _.
                              step (reject_if (ltb max_proposal_size size) generic) λ _ _. returns (
                                new-Progress id p _ s v (advanced s.proposal_count id id_eq) (
                                  same_votes block
                                    (new_proposal decimals chain block sender title description msgs
                                      period s.config)
                                    p p_eq))

  pub execute-Progress :
      (block : Block) (sender id : ℕ) (s : State D E Msg)
      → Valid s
      → Returns (First s) (execute_execute decimals chain block sender id s)
  unfolding execute_execute
  execute-Progress block sender id s v = search (step, executed_last) depth 12

  pub close-Progress :
      (block : Block) (id : ℕ) (s : State D E Msg)
      → Valid s
      → Returns (Progress s) (execute_close decimals chain block id s)
  unfolding execute_close
  close-Progress block id s v = search (step, closed_last) depth 12

  pub vote-Progress :
      (block : Block) (sender id : ℕ) (vote : Vote) (s : State D E Msg)
      → Valid s
      → Returns (Progress s) (execute_vote decimals chain block sender id vote s)
  unfolding execute_vote
  vote-Progress block sender id vote s v = search (step, voted_last) depth 12
