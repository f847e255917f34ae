-- ===== src/Governance/Contract/Executed.antt =====
-- `execute_execute` of contracts/syneswap_proposal/src/contract.rs, when it succeeds.
use synergistic_juno_contrac.Base.{
  ℕ, ◌+◌, true, false, ◌≡◌, refl, ◌∙◌, ap, subst, some, List, arith, ◌⊎◌, inl, inr, Option-cases,
  Bool-cases, ok, ok_or, ok_or-eq-ok, >>=-eq-ok, ensure, ◌==◌, Returns, returns, step, returned,
}
use synergistic_juno_contrac.Base.Checked.{checked_sub, checked_sub-eq-some}
use synergistic_juno_contrac.Base.Dict.{
  Dict, lookup, insert, amount_of, lookup-insert_same, lookup-insert_other,
}
use synergistic_juno_contrac.Governance.{
  Decimals, Status, open_status, rejected, passed, executed, closed, execution_failed, Error,
  generic, aborted,
}
use synergistic_juno_contrac.Governance.Proposals.{
  is_passed, current_status, update_status, PassedResponse,
}
use synergistic_juno_contrac.Governance.Contract.{Proposal, State, Chain}
use synergistic_juno_contrac.Governance.Contract.Handlers.{
  is_status_passed, refresh, unlock, execute_execute,
}
use synergistic_juno_contrac.Governance.Contract.Lifecycle.Handlers.{refresh_lem}

is_passed_status :
    (st : Status) → ensure {E = Error} (is_status_passed st) generic ≡ ok tt → st ≡ passed
is_passed_status open_status e = cc
is_passed_status rejected e = cc
is_passed_status passed e = cc
is_passed_status executed e = cc
is_passed_status closed e = cc
is_passed_status execution_failed e = cc

module _ {D E Block Msg Period : Type 0} (decimals : Decimals D)
    (chain : Chain D E Block Msg Period) where
  -- Why a proposal could be executed: it was marked as passed, or it was open and has passed.
  abbrev pub Accepted : Block → Proposal D E Msg → Type 0
  Accepted block p =
      (p.status ≡ passed)
      ⊎ ((p.status ≡ open_status)
          × ((r : PassedResponse) × (is_passed decimals chain.is_expired block p ≡ some r)
              × (r.is_passed ≡ true)))

  accepted :
      (st st' : Status) (block : Block) (p : Proposal D E Msg)
      → p.status ≡ st
      → current_status decimals chain.is_expired block p ≡ some st'
      → st' ≡ passed
      → Accepted block p
  unfolding current_status
  accepted open_status st' block p e h t =
      elim (Option-cases (is_passed decimals chain.is_expired block p)) [
        | inl unknown ↦ absurd (ground arith)
        | inr (r, r_eq) ↦ elim (Bool-cases r.is_passed) [
          | inl yes_passed ↦ inr (e, (r, r_eq, yes_passed))
          | inr not_passed ↦ absurd (ground arith)
        ]
      ]
  accepted passed st' block p e h t = inl e
  accepted rejected st' block p e h t = absurd (ground arith)
  accepted executed st' block p e h t = absurd (ground arith)
  accepted closed st' block p e h t = absurd (ground arith)
  accepted execution_failed st' block p e h t = absurd (ground arith)

  -- A successful execution of the proposal `id`, which was `p`.
  pub record Executed (block : Block) (id : ℕ) (p : Proposal D E Msg) (s s' : State D E Msg)
      (sent : List Msg) : Type 0 where
    pub why : Accepted block p
    pub released :
        amount_of p.rest.proposer s'.proposers_info + s.config.proposal_creation_token_limit
        ≡ amount_of p.rest.proposer s.proposers_info
    pub messages : sent ≡ p.rest.msgs
    pub marked :
        (p' : Proposal D E Msg) × (lookup id s'.proposals ≡ some p')
        × (p'.status ≡ executed)
        × (p'.votes ≡ p.votes)
        × (p'.rest ≡ p.rest)
    pub others : (j : ℕ) → (id == j) ≡ false → lookup j s'.proposals ≡ lookup j s.proposals

  abbrev ExecutedBy :
      Block → ℕ → Proposal D E Msg → State D E Msg → State D E Msg × List Msg → Type 0
  ExecutedBy block id p s r = Executed block id p s r.0 r.1

  pub status_of :
      (block : Block) (p q : Proposal D E Msg)
      → refresh decimals chain block p ≡ ok q
      → current_status decimals chain.is_expired block p ≡ some q.status
  unfolding update_status
  status_of block p q r = elim (Option-cases (current_status decimals chain.is_expired block p)) [
    | inl unknown ↦ absurd (ground arith)
    | inr (st, e) ↦ ground arith
  ]

  released_lem :
      (proposer : ℕ) (s : State D E Msg) (info : Dict ℕ)
      → unlock proposer s ≡ ok info
      → amount_of proposer info + s.config.proposal_creation_token_limit
        ≡ amount_of proposer s.proposers_info
  released_lem proposer s info h =
      let locked = amount_of proposer s.proposers_info in
      let limit = s.config.proposal_creation_token_limit in
      let (lowered, e, last) = >>=-eq-ok (ok_or (checked_sub locked limit) aborted) _ h in
      ground (
        arith,
        checked_sub-eq-some locked limit (ok_or-eq-ok (checked_sub locked limit) aborted e),
        lookup-insert_same proposer lowered s.proposers_info,
      )

  executed_last :
      (block : Block) (id : ℕ) (p q cur : Proposal D E Msg) (info : Dict ℕ) (s : State D E Msg)
      → lookup id s.proposals ≡ some p
      → ok_or {E = Error} (lookup id s.proposals) generic ≡ ok q
      → unlock q.rest.proposer s ≡ ok info
      → refresh decimals chain block q ≡ ok cur
      → ensure {E = Error} (is_status_passed cur.status) generic ≡ ok tt
      → Returns {E = Error} (ExecutedBy block id p s) (
          ok (
            record s {
              proposers_info = info;
              proposals = insert id (record cur { status = executed }) s.proposals;
            },
            q.rest.msgs,
          ))
  executed_last block id p q cur info s e q_eq l r t =
      let same : q ≡ p = cc in
      let (st, cur_eq, kept) = refresh_lem decimals chain block q cur r in
      returns (record {
        why = subst (Accepted block) same (
            accepted q.status cur.status block q refl (status_of block q cur r)
              (is_passed_status cur.status t));
        released =
            subst
              (λ x.
                amount_of x.rest.proposer info + s.config.proposal_creation_token_limit
                ≡ amount_of x.rest.proposer s.proposers_info)
              same (released_lem q.rest.proposer s info l);
        messages = ap (λ x. x.rest.msgs) same;
        marked = (
          record cur { status = executed },
          lookup-insert_same id (record cur { status = executed }) s.proposals,
          refl,
          ap (λ x. x.votes) cur_eq ∙ ap (λ x. x.votes) same,
          ap (λ x. x.rest) cur_eq ∙ ap (λ x. x.rest) same,
        );
        others = λ j ne. lookup-insert_other id j (record cur { status = executed }) s.proposals ne;
      })

  execute-Executed :
      (block : Block) (sender id : ℕ) (p : Proposal D E Msg) (s : State D E Msg)
      → lookup id s.proposals ≡ some p
      → Returns (ExecutedBy block id p s) (execute_execute decimals chain block sender id s)
  unfolding execute_execute
  execute-Executed block sender id p s e = search (step, executed_last) depth 12

  -- When an execution succeeds, the proposal was marked as passed, or it was open and has passed at
  -- this block; exactly its messages are sent; what is locked for its proposer falls by the limit; it
  -- is marked as executed with its votes and its data as they were, and no other proposal changes.
  pub execute_execute_lem :
      (block : Block) (sender id : ℕ) (p : Proposal D E Msg) (s s' : State D E Msg)
      (sent : List Msg)
      → lookup id s.proposals ≡ some p
      → execute_execute decimals chain block sender id s ≡ ok (s', sent)
      → Executed block id p s s' sent
  execute_execute_lem block sender id p s s' sent e h =
      returned (execute-Executed block sender id p s e) h
