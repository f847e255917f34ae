-- ===== src/Governance/Contract/Lifecycle.antt =====
-- How proposals of contracts/syneswap_proposal change: identifiers are new, what is decided stays, and the
-- votes are the sums of the ballots.
pub mod Handlers
use synergistic_juno_contrac.Base.{
  ℕ, ◌+◌, ◌≤◌, ◌<◌, Bool, true, false, ◌≡◌, refl, sym, ◌∙◌, ap, subst, Option, none, some, List, [],
  ◌∷◌, arith, ◌==◌, if◌then◌else◌, get_or, Bool-cases, Option-cases, inl, inr, Result, ok, err,
  ok_or, ok_or-eq-ok, ensure, reject_if, Returns, returns, raises, step, follow, branch, returned,
  ltb,
}
use synergistic_juno_contrac.Base.Text.{Text}
use synergistic_juno_contrac.Base.Checked.{add_within, add128, add64, checked_sub, ◌>>=◌}
use synergistic_juno_contrac.Base.Dict.{
  Dict, lookup, insert, Unique, Unique-insert, lookup-insert, insert-cases, lookup-insert_same,
  lookup-insert_other, amount_of,
}
use synergistic_juno_contrac.Governance.{
  Decimals, Threshold, Duration, Votes, Vote, yes, no, abstain, Status, open_status, rejected,
  passed, execution_failed, executed, closed, Error, generic, aborted,
}
use synergistic_juno_contrac.Governance.Voting.{zero_votes, add_vote, validate_voting_period}
use synergistic_juno_contrac.Governance.Proposals.{
  SingleChoiceProposal, PassedResponse, advance_proposal_id, is_open, is_passed, current_status,
  update_status,
}
use synergistic_juno_contrac.Governance.Contract.{Details, Proposal, Ballot, State, Chain}
use synergistic_juno_contrac.Governance.Contract.Handlers.{
  is_final, verifying_voting_period, max_proposal_size, ballots_of, take_back, unlock, refresh,
  new_proposal, get_voting_power, get_total_power, execute_propose, execute_vote, execute_execute,
  execute_close, execute_update_config, is_blank, is_status_passed, is_rejected, checked_threshold,
}
use synergistic_juno_contrac.Governance.Contract.Ballots.{votes_for, powers, Counts, vote-Counts}

zero_for : (w : Vote) → votes_for w zero_votes ≡ 0
zero_for yes = refl
zero_for no = refl
zero_for abstain = refl

module _ {D E Msg : Type 0} where
  -- Only identifiers up to the count are in use, only stored proposals have ballots, no voter has
  -- two, and the votes of a proposal are the sums of its ballots.
  pub record Valid (s : State D E Msg) : Type 0 where
    pub fresh : (id : ℕ) → get_or s.proposal_count 0 < id → lookup id s.proposals ≡ none
    pub unvoted : (id : ℕ) → lookup id s.proposals ≡ none → ballots_of id s ≡ []
    pub unique : (id : ℕ) → Unique (ballots_of id s)
    pub tallied :
        (id : ℕ) (p : Proposal D E Msg)
        → lookup id s.proposals ≡ some p
        → Counts p.votes (ballots_of id s)

  -- A proposal changes in its status, its votes and the total power only, and not at all once it
  -- is executed or closed.
  pub record Evolves (p p' : Proposal D E Msg) : Type 0 where
    pub same_rest : p'.rest ≡ p.rest
    pub same_expiration : p'.expiration ≡ p.expiration
    pub same_threshold : p'.threshold ≡ p.threshold
    pub final : is_final p.status ≡ true → p' ≡ p

  pub record Progress (s s' : State D E Msg) : Type 0 where
    pub valid : Valid s'
    pub proposals :
        (id : ℕ) (p : Proposal D E Msg)
        → lookup id s.proposals ≡ some p
        → (p' : Proposal D E Msg) × (lookup id s'.proposals ≡ some p') × Evolves p p'

  pub Evolves-refl : (p : Proposal D E Msg) → Evolves p p
  Evolves-refl p = record {
    same_rest = refl;
    same_expiration = refl;
    same_threshold = refl;
    final = λ f. refl;
  }

  pub Progress-refl : (s : State D E Msg) → Valid s → Progress s s
  Progress-refl s v = record { valid = v; proposals = λ id p e. (p, e, Evolves-refl p) }

  Evolves-trans : (p q r : Proposal D E Msg) → Evolves p q → Evolves q r → Evolves p r
  Evolves-trans p q r e f = record {
    same_rest = f.same_rest ∙ e.same_rest;
    same_expiration = f.same_expiration ∙ e.same_expiration;
    same_threshold = f.same_threshold ∙ e.same_threshold;
    final = λ fin. let same = e.final fin in f.final (rw same fin) ∙ same;
  }

  pub Progress-trans : (s t u : State D E Msg) → Progress s t → Progress t u → Progress s u
  Progress-trans s t u a b = record {
    valid = b.valid;
    proposals = λ id p e.
        let (p1, e1, v1) = a.proposals id p e in
        let (p2, e2, v2) = b.proposals id p1 e1 in (p2, e2, Evolves-trans p p1 p2 v1 v2);
  }

  pub replaced :
      (id : ℕ) (p p' : Proposal D E Msg) (s : State D E Msg)
      → lookup id s.proposals ≡ some p
      → Evolves p p'
      → (j : ℕ) (q : Proposal D E Msg) → lookup j s.proposals ≡ some q
      → (q' : Proposal D E Msg) × (lookup j (insert id p' s.proposals) ≡ some q') × Evolves q q'
  replaced id p p' s e k j q found = elim (Bool-cases (id == j)) [
    | inl here ↦
        let same_id : id ≡ j = ground arith in
        let same_p : p ≡ q = ground (arith, e, found) in
        (
          p',
          subst (λ i. lookup i (insert id p' s.proposals) ≡ some p') same_id
              (lookup-insert_same id p' s.proposals),
          subst (λ x. Evolves x p') same_p k,
        )
    | inr there ↦ (q, lookup-insert_other id j p' s.proposals there ∙ found, Evolves-refl q)
  ]

  -- A stored proposal is replaced by one with the same votes.
  pub save-Progress :
      (id : ℕ) (p p' : Proposal D E Msg) (info : Dict ℕ) (s : State D E Msg)
      → Valid s
      → lookup id s.proposals ≡ some p
      → p'.votes ≡ p.votes
      → Evolves p p'
      → Progress s (record s { proposers_info = info; proposals = insert id p' s.proposals })
  save-Progress id p p' info s v e same k = record {
    valid = record {
      fresh = λ j lt. ground (arith, v.fresh j lt, lookup-insert id j p' s.proposals);
      unvoted = λ j none_eq. ground (arith, v.unvoted j, lookup-insert id j p' s.proposals);
      unique = v.unique;
      tallied = λ j q found w. elim (insert-cases id j p' q s.proposals found) [
        | inl (same_id, same_p) ↦
            subst (λ i. votes_for w q.votes ≡ powers w (ballots_of i s)) same_id
              (ap (λ x. votes_for w x.votes) (sym same_p)
                ∙ ap (votes_for w) same
                ∙ v.tallied id p e w)
        | inr (other, old) ↦ v.tallied j q old w
      ];
    };
    proposals = replaced id p p' s e k;
  }

  -- A stored proposal and its ballots are replaced together.
  pub save_ballots-Progress :
      (id : ℕ) (p p' : Proposal D E Msg) (d : Dict Ballot) (s : State D E Msg)
      → Valid s
      → lookup id s.proposals ≡ some p
      → Unique d
      → Counts p'.votes d
      → Evolves p p'
      → Progress s
          (record s { ballots = insert id d s.ballots; proposals = insert id p' s.proposals })
  save_ballots-Progress id p p' d s v e u c k = record {
    valid = record {
      fresh = λ j lt. ground (arith, v.fresh j lt, lookup-insert id j p' s.proposals);
      unvoted = λ j none_eq.
          ground
            (arith, v.unvoted j, lookup-insert id j p' s.proposals, lookup-insert id j d s.ballots);
      unique = λ j. elim (Bool-cases (id == j)) [
        | inl here ↦ rw (lookup-insert id j d s.ballots, here) u
        | inr there ↦ rw (lookup-insert id j d s.ballots, there) (v.unique j)
      ];
      tallied = λ j q found w. elim (insert-cases id j p' q s.proposals found) [
        | inl (same_id, same_p) ↦
            subst
              (λ i. votes_for w q.votes ≡ powers w (get_or (lookup i (insert id d s.ballots)) []))
              same_id
              (ap (λ x. votes_for w x.votes) (sym same_p)
                ∙ c w
                ∙ ap (λ o. powers w (get_or o [])) (sym (lookup-insert_same id d s.ballots)))
        | inr (other, old) ↦ rw (lookup-insert id j d s.ballots, other) (v.tallied j q old w)
      ];
    };
    proposals = replaced id p p' s e k;
  }

  -- A proposal without votes is stored under the next identifier.
  pub new-Progress :
      (id : ℕ) (p : Proposal D E Msg) (info : Dict ℕ) (s : State D E Msg)
      → Valid s
      → id ≡ get_or s.proposal_count 0 + 1
      → p.votes ≡ zero_votes
      → Progress s (record s {
        proposers_info = info;
        proposal_count = some id;
        proposals = insert id p s.proposals;
      })
  new-Progress id p info s v e z =
      let absent : lookup id s.proposals ≡ none = v.fresh id (omega (arith, e)) in
      record {
        valid = record {
          fresh = λ j lt. ground (arith, v.fresh j, lookup-insert id j p s.proposals);
          unvoted = λ j none_eq. ground (arith, v.unvoted j, lookup-insert id j p s.proposals);
          unique = v.unique;
          tallied = λ j q found w. elim (insert-cases id j p q s.proposals found) [
            | inl (same_id, same_p) ↦
                subst (λ i. votes_for w q.votes ≡ powers w (ballots_of i s)) same_id
                  (ap (λ x. votes_for w x.votes) (sym same_p)
                    ∙ ap (votes_for w) z
                    ∙ zero_for w
                    ∙ ap (powers w) (sym (v.unvoted id absent)))
            | inr (other, old) ↦ v.tallied j q old w
          ];
        };
        proposals = λ j q found.
            (q, ground (arith, absent, lookup-insert id j p s.proposals), Evolves-refl q);
      }
