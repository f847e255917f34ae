-- ===== src/Governance/Contract/Locks/Quiet.antt =====
-- The locked tokens of contracts/syneswap_proposal while its configuration stays.
use synergistic_juno_contrac.Base.{
  ℕ, ◌+◌, ◌-◌, ◌*◌, ◌≤◌, Bool, true, false, ◌≡◌, refl, sym, ap, subst, some, List, [], ◌∷◌, arith,
  ◌==◌, Bool-cases, inl, inr, Result, ok, Returns, returns, follow, returned,
}
use synergistic_juno_contrac.Base.Checked.{checked_sub_lem}
use synergistic_juno_contrac.Base.Dict.{Dict, lookup, insert, amount_of}
use synergistic_juno_contrac.Governance.{Decimals, Error}
use synergistic_juno_contrac.Governance.Contract.{
  Proposal, State, ExecuteMsg, propose, vote_on, execute_proposal, close, update_config, Chain,
}
use synergistic_juno_contrac.Governance.Contract.Handlers.{is_final, unlock, silent, execute}
use synergistic_juno_contrac.Governance.Contract.Lifecycle.{Valid}
use synergistic_juno_contrac.Governance.Contract.Runs.{execute-Returns}
use synergistic_juno_contrac.Governance.Contract.Locks.{live_one, live, Locked}
use synergistic_juno_contrac.Governance.Contract.Locks.Handlers.{
  LockedAfter, propose-Locked, execute-Locked, close-Locked, vote-Locked,
}

-- Whether a message changes the configuration.
abbrev pub changes_config : {D Msg : Type 0} → ExecuteMsg D Msg → Bool
changes_config (update_config threshold most least dao hold limit) = true
changes_config msg = false

module _ {D E Msg : Type 0} (Block Period : Type 0) (decimals : Decimals D) where
  -- Messages that leave the configuration. With each of them the chain and the staking contract may
  -- answer anew.
  pub data Quiet : State D E Msg → State D E Msg → Type 0 where
    idle : {s : State D E Msg} → Quiet s s
    call :
        {s t u : State D E Msg} (chain : Chain D E Block Msg Period) (block : Block) (sender : ℕ)
        (msg : ExecuteMsg D Msg) (sent : List Msg)
        → changes_config msg ≡ false
        → execute decimals chain block sender msg s ≡ ok (t, sent)
        → Quiet t u
        → Quiet s u

module _ {D E Msg : Type 0} where
  live_le :
      (id : ℕ) (p : Proposal D E Msg) (ps : Dict (Proposal D E Msg))
      → lookup id ps ≡ some p
      → is_final p.status ≡ false
      → 1 ≤ live p.rest.proposer ps
  unfolding lookup
  live_le id p [] e f = absurd (cc)
  live_le id p ((j, q) ∷ ps) e f = elim (Bool-cases (j == id)) [
    | inl here ↦
        let same : q ≡ p = ground arith in
        subst (λ x. 1 ≤ live_one p.rest.proposer (some x) + live p.rest.proposer ps) (sym same)
          (ground (arith, f))
    | inr there ↦ omega (arith, live_le id p ps (ground arith) f)
  ]

  release_succeeds :
      (s : State D E Msg)
      → Locked s
      → (id : ℕ) (p : Proposal D E Msg) → lookup id s.proposals ≡ some p
      → is_final p.status ≡ false
      → (info : Dict ℕ) × (unlock p.rest.proposer s ≡ ok info)
  release_succeeds s l id p e f =
      let limit = s.config.proposal_creation_token_limit in
      let n = live p.rest.proposer s.proposals in
      let one_more : n ≡ (n - 1) + 1 = omega (arith, live_le id p s.proposals e f) in
      let enough : limit ≤ amount_of p.rest.proposer s.proposers_info =
        omega (arith, l p.rest.proposer, ap (λ k. limit * k) one_more) in
      (
        insert p.rest.proposer (amount_of p.rest.proposer s.proposers_info - limit)
            s.proposers_info,
        rw (checked_sub_lem (amount_of p.rest.proposer s.proposers_info) limit enough) refl,
      )

module _ {D E Block Msg Period : Type 0} (decimals : Decimals D)
    (chain : Chain D E Block Msg Period) where
  silent-Locked :
      {r : Result Error (State D E Msg)}
      → Returns Locked r
      → Returns (LockedAfter decimals chain) (silent r)
  silent-Locked q = follow q λ t l. returns l

  execute-Returns-Locked :
      (block : Block) (sender : ℕ) (msg : ExecuteMsg D Msg) (s : State D E Msg)
      → changes_config msg ≡ false
      → Valid s
      → Locked s
      → Returns (LockedAfter decimals chain) (execute decimals chain block sender msg s)
  unfolding execute
  execute-Returns-Locked block sender (propose title description msgs period) s c v l =
      silent-Locked (propose-Locked decimals chain block sender title description msgs period s v l)
  execute-Returns-Locked block sender (vote_on id vote) s c v l =
      silent-Locked (vote-Locked decimals chain block sender id vote s l)
  execute-Returns-Locked block sender (execute_proposal id) s c v l =
      execute-Locked decimals chain block sender id s l
  execute-Returns-Locked block sender (close id) s c v l =
      silent-Locked (close-Locked decimals chain block id s l)
  execute-Returns-Locked block sender (update_config threshold most least dao hold limit) s c v l =
      absurd (cc)

module _ {D E Msg : Type 0} (Block Period : Type 0) (decimals : Decimals D) where
  -- As long as no message changes the configuration, and whatever the staking contract answers to
  -- each of them, what is locked for an account stays the limit
  -- times its proposals that are neither executed nor closed; then the release for such a proposal never fails.
  pub quiet_lem :
      {s u : State D E Msg}
      → Valid s
      → Locked s
      → Quiet Block Period decimals s u
      → Locked u
        × ((id : ℕ) (p : Proposal D E Msg)
            → lookup id u.proposals ≡ some p
            → is_final p.status ≡ false
            → (info : Dict ℕ) × (unlock p.rest.proposer u ≡ ok info))
  quiet_lem {s = s} v l idle = (l, release_succeeds s l)
  quiet_lem {s = s} v l (call {t = t} chain block sender msg sent c h q) =
      quiet_lem ((returned (execute-Returns decimals chain block sender msg s v) h).valid)
        (returned (execute-Returns-Locked decimals chain block sender msg s c v l) h) q
