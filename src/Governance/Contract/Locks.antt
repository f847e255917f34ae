-- ===== src/Governance/Contract/Locks.antt =====
-- The tokens that contracts/syneswap_proposal locks for proposals.
pub mod Handlers
pub mod Quiet
use synergistic_juno_contrac.Base.{
  ℕ, ◌+◌, ◌*◌, ◌≤◌, Bool, true, false, not, ◌&&◌, ◌≡◌, refl, sym, ◌∙◌, ap, subst, Option, none,
  some, List, [], ◌∷◌, arith, ◌==◌, if◌then◌else◌, Bool-cases, Option-cases, inl, inr, Result, ok,
  err, ok_or, ok_or-eq-ok, ensure, reject_if, get_or, ltb, Returns, returns, step, follow, returned,
  ◌>>=◌,
}
use synergistic_juno_contrac.Base.Text.{Text}
use synergistic_juno_contrac.Base.Checked.{
  add_within, add128, checked_sub, u128_mod, add_within-eq-some, checked_sub-eq-some,
  checked_sub_lem,
}
use synergistic_juno_contrac.Base.Dict.{
  Dict, lookup, insert, lookup-insert_same, lookup-insert_other, amount_of,
}
use synergistic_juno_contrac.Governance.{
  Decimals, Duration, Vote, Votes, Status, open_status, rejected, passed, executed, closed,
  execution_failed, Error, generic, aborted,
}
use synergistic_juno_contrac.Governance.Voting.{add_vote}
use synergistic_juno_contrac.Governance.Proposals.{
  is_passed, current_status, update_status, advance_proposal_id,
}
use synergistic_juno_contrac.Governance.Contract.{
  Proposal, Ballot, State, ExecuteMsg, propose, vote_on, execute_proposal, close, update_config,
  Chain,
}
use synergistic_juno_contrac.Governance.Contract.Handlers.{
  is_final, is_status_passed, is_rejected, verifying_voting_period, max_proposal_size, unlock,
  ballots_of, refresh, new_proposal, get_voting_power, execute_propose, execute_vote,
  execute_execute, execute_close, silent, execute,
}
use synergistic_juno_contrac.Governance.Contract.Lifecycle.{Valid}
use synergistic_juno_contrac.Governance.Contract.Lifecycle.Handlers.{
  refresh_lem, passed_not_final, rejected_not_final, not_final, advanced,
}
use synergistic_juno_contrac.Governance.Contract.Runs.{execute-Returns}
use synergistic_juno_contrac.Governance.Contract.Executed.{status_of}

-- A step that adds and releases amounts keeps the equation if the live proposals change alike.
pub balance :
    (limit n m x y a b : ℕ)
    → n ≡ limit * x
    → y + b ≡ x + a
    → m + limit * b ≡ n + limit * a
    → m ≡ limit * y
balance limit n m x y a b e f g = omega (arith, e, g, ap (λ k. limit * k) f)

-- Releasing the lock of one proposal, for its proposer and for the others.
release_here :
    (limit b a lowered x y : ℕ) (info : Dict ℕ)
    → (b == a) ≡ true
    → checked_sub (amount_of b info) limit ≡ some lowered
    → x ≡ 1
    → y ≡ 0
    → amount_of a (insert b lowered info) + limit * x ≡ amount_of a info + limit * y
release_here limit b a lowered x y info h c e f =
    let same : b ≡ a = ground arith in
    omega (
      arith,
      ap (λ k. limit * k) e,
      ap (λ k. limit * k) f,
      checked_sub-eq-some (amount_of b info) limit c,
      ap (λ k. amount_of k info) same,
      ap (λ k. amount_of k (insert b lowered info)) same,
      ap (λ o. get_or o 0) (lookup-insert_same b lowered info),
    )

pub release_there :
    (limit b a lowered x y : ℕ) (info : Dict ℕ)
    → (b == a) ≡ false
    → x ≡ 0
    → y ≡ 0
    → amount_of a (insert b lowered info) + limit * x ≡ amount_of a info + limit * y
release_there limit b a lowered x y info h e f = omega (
  arith,
  ap (λ k. limit * k) e,
  ap (λ k. limit * k) f,
  ap (λ o. get_or o 0) (lookup-insert_other b a lowered info h),
)

-- Locking for one more proposal.
pub lock_here :
    (limit b a raised x : ℕ) (info : Dict ℕ)
    → (b == a) ≡ true
    → raised ≡ amount_of b info + limit
    → x ≡ 1
    → amount_of a (insert b raised info) + limit * 0 ≡ amount_of a info + limit * x
lock_here limit b a raised x info h c e =
    let same : b ≡ a = ground arith in
    omega (
      arith,
      ap (λ k. limit * k) e,
      c,
      ap (λ k. amount_of k info) same,
      ap (λ k. amount_of k (insert b raised info)) same,
      ap (λ o. get_or o 0) (lookup-insert_same b raised info),
    )

module _ {D E Msg : Type 0} where
  -- 1 for a proposal of the account that is neither executed nor closed.
  abbrev pub live_one : ℕ → Option (Proposal D E Msg) → ℕ
  live_one a none = 0
  live_one a (some p) = if p.rest.proposer == a && not (is_final p.status) then 1 else 0

  -- How many such proposals an account has.
  abbrev pub live : ℕ → Dict (Proposal D E Msg) → ℕ
  live a [] = 0
  live a ((_, p) ∷ ps) = live_one a (some p) + live a ps

  pub live-insert :
      (a id : ℕ) (p : Proposal D E Msg) (ps : Dict (Proposal D E Msg))
      → live a (insert id p ps) + live_one a (lookup id ps) ≡ live a ps + live_one a (some p)
  unfolding insert lookup
  live-insert a id p [] = omega arith
  live-insert a id p ((j, q) ∷ ps) = ground (arith, live-insert a id p ps)

  -- The locked amount of every account is the limit times its live proposals.
  abbrev pub Locked : State D E Msg → Type 0
  Locked s =
      (a : ℕ)
      → amount_of a s.proposers_info ≡ s.config.proposal_creation_token_limit * live a s.proposals

module _ {D E Block Msg Period : Type 0} (decimals : Decimals D)
    (chain : Chain D E Block Msg Period) where
  status_not_final :
      (st st' : Status) (block : Block) (p : Proposal D E Msg)
      → p.status ≡ st
      → is_final st ≡ false
      → current_status decimals chain.is_expired block p ≡ some st'
      → is_final st' ≡ false
  unfolding current_status
  status_not_final open_status st' block p e f h =
      elim (Option-cases (is_passed decimals chain.is_expired block p)) [
        | inl unknown ↦ absurd (ground arith)
        | inr (r, r_eq) ↦ ground arith
      ]
  status_not_final passed st' block p e f h = ground arith
  status_not_final rejected st' block p e f h = ground arith
  status_not_final execution_failed st' block p e f h = ground arith
  status_not_final executed st' block p e f h = absurd (cc)
  status_not_final closed st' block p e f h = absurd (cc)

  pub refresh_not_final :
      (block : Block) (p q : Proposal D E Msg)
      → refresh decimals chain block p ≡ ok q
      → is_final p.status ≡ false
      → is_final q.status ≡ false
  refresh_not_final block p q r f =
      status_not_final p.status q.status block p refl f (status_of decimals chain block p q r)

  -- The proposal `id` of a live proposal becomes final and its lock is released.
  pub released_last :
      (id : ℕ) (p p' : Proposal D E Msg) (lowered : ℕ) (s : State D E Msg)
      → Locked s
      → lookup id s.proposals ≡ some p
      → is_final p.status ≡ false
      → p'.rest ≡ p.rest
      → is_final p'.status ≡ true
      → checked_sub
          (amount_of p.rest.proposer s.proposers_info)
          s.config.proposal_creation_token_limit
        ≡ some lowered
      → Locked (record s {
        proposers_info = insert p.rest.proposer lowered s.proposers_info;
        proposals = insert id p' s.proposals;
      })
  released_last id p p' lowered s l e f r g c a =
      balance s.config.proposal_creation_token_limit (amount_of a s.proposers_info) _
        (live a s.proposals) (live a (insert id p' s.proposals)) (live_one a (some p'))
        (live_one a (some p)) (l a)
        (ap (λ o. live a (insert id p' s.proposals) + live_one a o) (sym e)
          ∙ live-insert a id p' s.proposals)
        (elim (Bool-cases (p.rest.proposer == a)) [
          | inl here ↦
              release_here s.config.proposal_creation_token_limit p.rest.proposer a lowered
                (live_one a (some p)) (live_one a (some p')) s.proposers_info here c
                (ground (arith, f)) (ground (arith, g))
          | inr there ↦
              release_there s.config.proposal_creation_token_limit p.rest.proposer a lowered
                (live_one a (some p)) (live_one a (some p')) s.proposers_info there (ground arith)
                (ground (arith, g))
        ])
