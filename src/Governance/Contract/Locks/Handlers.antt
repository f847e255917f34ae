-- ===== src/Governance/Contract/Locks/Handlers.antt =====
-- Each handler of contracts/syneswap_proposal/src/contract.rs and the locked tokens.
use synergistic_juno_contrac.Base.{
  ℕ, ◌+◌, ◌*◌, Bool, true, false, ◌≡◌, refl, sym, ◌∙◌, ap, subst, none, some, List, arith, ◌==◌,
  Bool-cases, inl, inr, Result, ok, ok_or, ok_or-eq-ok, ensure, reject_if, Returns, returns, step,
  follow, ◌>>=◌,
}
use synergistic_juno_contrac.Base.Text.{Text}
use synergistic_juno_contrac.Base.Checked.{add128, checked_sub, u128_mod, add_within-eq-some}
use synergistic_juno_contrac.Base.Dict.{Dict, lookup, insert, amount_of}
use synergistic_juno_contrac.Governance.{
  Decimals, Duration, Vote, Votes, Status, executed, closed, Error, generic, aborted,
}
use synergistic_juno_contrac.Governance.Proposals.{advance_proposal_id}
use synergistic_juno_contrac.Governance.Contract.{Proposal, Ballot, State, Chain}
use synergistic_juno_contrac.Governance.Contract.Handlers.{
  is_final, is_status_passed, is_rejected, unlock, refresh, get_voting_power, execute_propose,
  execute_vote, execute_execute, execute_close,
}
use synergistic_juno_contrac.Governance.Contract.Lifecycle.{Valid}
use synergistic_juno_contrac.Governance.Contract.Lifecycle.Handlers.{
  refresh_lem, passed_not_final, rejected_not_final, not_final, advanced, contradiction,
}
use synergistic_juno_contrac.Governance.Contract.Locks.{
  live_one, live, Locked, live-insert, balance, release_there, lock_here, refresh_not_final,
  released_last,
}

module _ {D E Block Msg Period : Type 0} (decimals : Decimals D)
    (chain : Chain D E Block Msg Period) where
  -- A new proposal of `sender`.
  locked_last :
      (id sender raised : ℕ) (p : Proposal D E Msg) (s : State D E Msg)
      → Locked s
      → lookup id s.proposals ≡ none
      → is_final p.status ≡ false
      → p.rest.proposer ≡ sender
      → raised ≡ amount_of sender s.proposers_info + s.config.proposal_creation_token_limit
      → Locked (record s {
        proposers_info = insert sender raised s.proposers_info;
        proposal_count = some id;
        proposals = insert id p s.proposals;
      })
  locked_last id sender raised p s l e f r g a =
      balance s.config.proposal_creation_token_limit (amount_of a s.proposers_info) _
        (live a s.proposals) (live a (insert id p s.proposals)) (live_one a (some p)) 0 (l a)
        (ap (λ o. live a (insert id p s.proposals) + live_one a o) (sym e)
          ∙ live-insert a id p s.proposals)
        (elim (Bool-cases (sender == a)) [
          | inl here ↦
              lock_here s.config.proposal_creation_token_limit sender a raised (live_one a (some p))
                s.proposers_info here g (ground (arith, r, f))
          | inr there ↦
              release_there s.config.proposal_creation_token_limit sender a raised 0
                (live_one a (some p)) s.proposers_info there refl (ground (arith, r, f))
        ])

  -- A live proposal that stays live.
  kept_last :
      (id : ℕ) (p p' : Proposal D E Msg) (d : Dict (Dict Ballot)) (s : State D E Msg)
      → Locked s
      → lookup id s.proposals ≡ some p
      → is_final p.status ≡ false
      → is_final p'.status ≡ false
      → p'.rest ≡ p.rest
      → Locked (record s { ballots = d; proposals = insert id p' s.proposals })
  kept_last id p p' d s l e f f' r a =
      balance s.config.proposal_creation_token_limit (amount_of a s.proposers_info) _
        (live a s.proposals) (live a (insert id p' s.proposals)) (live_one a (some p'))
        (live_one a (some p)) (l a)
        (ap (λ o. live a (insert id p' s.proposals) + live_one a o) (sym e)
          ∙ live-insert a id p' s.proposals)
        (ap (λ k. amount_of a s.proposers_info + s.config.proposal_creation_token_limit * k)
          (ground (arith, f, f', r)))

  abbrev pub LockedAfter : State D E Msg × List Msg → Type 0
  LockedAfter (s, _) = Locked s

  proposed :
      (block : Block) (id sender raised : ℕ) (p q : Proposal D E Msg) (s : State D E Msg)
      → Valid s
      → Locked s
      → is_final p.status ≡ false
      → p.rest.proposer ≡ sender
      → ok_or {E = Error}
          (add128 (amount_of sender s.proposers_info) s.config.proposal_creation_token_limit)
          aborted
        ≡ ok raised
      → refresh decimals chain block p ≡ ok q
      → ok_or {E = Error} (advance_proposal_id s.proposal_count) aborted ≡ ok id
      → Returns {E = Error} Locked (
          ok (record s {
            proposers_info = insert sender raised s.proposers_info;
            proposal_count = some id;
            proposals = insert id q s.proposals;
          }))
  proposed block id sender raised p q s v l f r a q_eq id_eq =
      let (st, cur_eq, kept) = refresh_lem decimals chain block p q q_eq in
      returns (
        locked_last id sender raised q s l
          (v.fresh id (omega (arith, advanced s.proposal_count id id_eq)))
          (refresh_not_final decimals chain block p q q_eq f) (ap (λ x. x.rest.proposer) cur_eq ∙ r)
          ((add_within-eq-some u128_mod (amount_of sender s.proposers_info)
            s.config.proposal_creation_token_limit
            (ok_or-eq-ok
              (add128 (amount_of sender s.proposers_info) s.config.proposal_creation_token_limit)
              aborted a)).0))

  -- The locked amounts once the lock of `p` is released.
  abbrev Unlocked : Proposal D E Msg → State D E Msg → Dict ℕ → Type 0
  Unlocked p s info =
      (lowered : ℕ) × (checked_sub (amount_of p.rest.proposer s.proposers_info)
          s.config.proposal_creation_token_limit
        ≡ some lowered)
      × (info ≡ insert p.rest.proposer lowered s.proposers_info)

  unlock-Unlocked :
      (p : Proposal D E Msg) (s : State D E Msg) → Returns (Unlocked p s) (unlock p.rest.proposer s)
  unlock-Unlocked p s =
      step
        (ok_or
          (checked_sub (amount_of p.rest.proposer s.proposers_info)
            s.config.proposal_creation_token_limit)
          aborted)
        λ lowered e. returns (
          lowered,
          ok_or-eq-ok
              (checked_sub (amount_of p.rest.proposer s.proposers_info)
                s.config.proposal_creation_token_limit)
              aborted e,
          refl,
        )

  follow_unlock :
      {A : Type 0} {P : A → Type 0} (p : Proposal D E Msg) (s : State D E Msg)
      (f : Dict ℕ → Result Error A)
      → ((info : Dict ℕ) → Unlocked p s info → Returns P (f info))
      → Returns P (unlock p.rest.proposer s >>= f)
  follow_unlock p s f k = follow (unlock-Unlocked p s) k

  still_open : (b : Bool) → ((b ≡ true) → ⊥) → b ≡ false
  still_open true k = absurd (k refl)
  still_open false k = refl

  -- A refreshed live proposal `q` gets a final status.
  ended :
      (block : Block) (id : ℕ) (p q : Proposal D E Msg) (u : Status) (info : Dict ℕ)
      (s : State D E Msg)
      → Locked s
      → ok_or {E = Error} (lookup id s.proposals) generic ≡ ok p
      → refresh decimals chain block p ≡ ok q
      → is_final q.status ≡ false
      → is_final u ≡ true
      → Unlocked p s info
      → Locked (record s {
        proposers_info = info;
        proposals = insert id (record q { status = u }) s.proposals;
      })
  ended block id p q u info s l e r undecided final (lowered, c, same) =
      let (st, q_eq, kept) = refresh_lem decimals chain block p q r in
      subst
        (λ i. Locked (record s {
          proposers_info = i;
          proposals = insert id (record q { status = u }) s.proposals;
        }))
        (sym same)
        (released_last decimals chain id p (record q { status = u }) lowered s l
          (ok_or-eq-ok (lookup id s.proposals) generic e)
          (still_open (is_final p.status) λ final'.
            contradiction (is_final q.status)
              (ap (λ x. is_final x.status) q_eq ∙ ap is_final (kept final') ∙ final') undecided)
          (ap (λ x. x.rest) q_eq) final c)

  executed_last :
      (block : Block) (id : ℕ) (p q : Proposal D E Msg) (info : Dict ℕ) (msgs : List Msg)
      (s : State D E Msg)
      → Locked s
      → ok_or {E = Error} (lookup id s.proposals) generic ≡ ok p
      → Unlocked p s info
      → refresh decimals chain block p ≡ ok q
      → ensure {E = Error} (is_status_passed q.status) generic ≡ ok tt
      → Returns {E = Error} LockedAfter (
          ok (
            record s {
              proposers_info = info;
              proposals = insert id (record q { status = executed }) s.proposals;
            },
            msgs,
          ))
  executed_last block id p q info msgs s l e u r t =
      returns (
        ended block id p q executed info s l e r (passed_not_final decimals chain q.status t) refl
          u)

  closed_last :
      (block : Block) (id : ℕ) (p q : Proposal D E Msg) (info : Dict ℕ) (s : State D E Msg)
      → Locked s
      → ok_or {E = Error} (lookup id s.proposals) generic ≡ ok p
      → Unlocked p s info
      → refresh decimals chain block p ≡ ok q
      → ensure {E = Error} (is_rejected q.status) generic ≡ ok tt
      → Returns {E = Error} Locked (
          ok (record s {
            proposers_info = info;
            proposals = insert id (record q { status = closed }) s.proposals;
          }))
  closed_last block id p q info s l e u r t =
      returns (
        ended block id p q closed info s l e r (rejected_not_final decimals chain q.status t) refl
          u)

  voted_last :
      (block : Block) (id total : ℕ) (votes : Votes) (p q : Proposal D E Msg)
      (d : Dict (Dict Ballot)) (s : State D E Msg)
      → Locked s
      → ok_or {E = Error} (lookup id s.proposals) generic ≡ ok p
      → reject_if {E = Error} (is_final p.status) generic ≡ ok tt
      → refresh decimals chain block (record p { votes = votes; total_power = total }) ≡ ok q
      → Returns {E = Error} Locked
          (ok (record s { ballots = d; proposals = insert id q s.proposals }))
  voted_last block id total votes p q d s l e f r =
      let counted : Proposal D E Msg = record p { votes = votes; total_power = total } in
      let (st, q_eq, kept) = refresh_lem decimals chain block counted q r in
      returns (
        kept_last id p q d s l (ok_or-eq-ok (lookup id s.proposals) generic e)
          (not_final decimals chain p.status f)
          (refresh_not_final decimals chain block counted q r (not_final decimals chain p.status f))
          (ap (λ x. x.rest) q_eq))

  pub propose-Locked :
      (block : Block) (sender : ℕ) (title description : Text) (msgs : List Msg) (period : Duration)
      (s : State D E Msg)
      → Valid s
      → Locked s
      → Returns Locked (execute_propose decimals chain block sender title description msgs period s)
  unfolding execute_propose
  propose-Locked block sender title description msgs period s v l = search (step, proposed) depth 14

  pub execute-Locked :
      (block : Block) (sender id : ℕ) (s : State D E Msg)
      → Locked s
      → Returns LockedAfter (execute_execute decimals chain block sender id s)
  unfolding execute_execute
  execute-Locked block sender id s l = step (ok_or (lookup id s.proposals) generic) λ p e.
      step (reject_if (get_voting_power decimals chain sender s.config.dao == 0) generic)
        λ _ _. follow (unlock-Unlocked p s) λ info u. search (step, executed_last) depth 10

  pub close-Locked :
      (block : Block) (id : ℕ) (s : State D E Msg)
      → Locked s
      → Returns Locked (execute_close decimals chain block id s)
  unfolding execute_close
  close-Locked block id s l = search (step, follow_unlock, closed_last) depth 12

  pub vote-Locked :
      (block : Block) (sender id : ℕ) (vote : Vote) (s : State D E Msg)
      → Locked s
      → Returns Locked (execute_vote decimals chain block sender id vote s)
  unfolding execute_vote
  vote-Locked block sender id vote s l = search (step, voted_last) depth 12
