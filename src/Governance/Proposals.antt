-- ===== src/Governance/Proposals.antt =====
-- contracts/syneswap_proposal/src/proposal.rs: when a proposal has passed, and its status.
use synergistic_juno_contrac.Base.{
  ℕ, Bool, true, false, not, ◌&&◌, Option, none, some, [], ◌∷◌, leb, if◌then◌else◌,
}
use synergistic_juno_contrac.Base.Text.{Text}
use synergistic_juno_contrac.Base.Checked.{add64, checked_sub, ◌>>=◌}
use synergistic_juno_contrac.Governance.{
  Decimals, Votes, Threshold, absolute_percentage, threshold_quorum, absolute_count, Status,
  open_status, rejected, passed, PercentageThreshold,
}
use synergistic_juno_contrac.Governance.Voting.{votes_total, does_vote_count_pass}

-- The fields of `SingleChoiceProposal` that decide its status, and the rest as one value:
-- title, description, proposer, messages and start time. `E` is the type of expirations.
pub record SingleChoiceProposal (D E Rest : Type 0) : Type 0 where
  pub expiration : E
  pub threshold : Threshold D
  pub status : Status
  pub votes : Votes
  pub allow_revoting : Bool
  pub total_power : ℕ
  pub rest : Rest

pub record PassedResponse : Type 0 where
  pub is_passed : Bool
  pub description : Text

abbrev pub without_text : Bool → PassedResponse
without_text b = record { is_passed = b; description = [] }

-- "Voting time is not expired yet"
abbrev pub not_expired_yet : Text
not_expired_yet =
    86 ∷ 111 ∷ 116 ∷ 105 ∷ 110 ∷ 103 ∷ 32 ∷ 116 ∷ 105 ∷ 109 ∷ 101 ∷ 32 ∷ 105 ∷ 115 ∷ 32 ∷ 110 ∷ 111
    ∷ 116 ∷ 32 ∷ 101 ∷ 120 ∷ 112 ∷ 105 ∷ 114 ∷ 101 ∷ 100 ∷ 32 ∷ 121 ∷ 101 ∷ 116 ∷ []

abbrev pub not_expired : PassedResponse
not_expired = record { is_passed = false; description = not_expired_yet }

-- The count of proposals, or none yet.
unfoldable pub advance_proposal_id : Option ℕ → Option ℕ
advance_proposal_id none = add64 0 1
advance_proposal_id (some n) = add64 n 1

abbrev pub is_open : Status → Bool
is_open open_status = true
is_open s = false

-- All votes but the abstentions.
unfoldable pub cast_options : Votes → Option ℕ
cast_options v = votes_total v >>= λ total. checked_sub total v.abstain

module _ {D : Type 0} (decimals : Decimals D) where
  -- The comparison once the options are known.
  abbrev pub answer : ℕ → ℕ → ℕ → PercentageThreshold D → Option PassedResponse
  answer yes_votes options total_power threshold =
      does_vote_count_pass decimals yes_votes options total_power threshold >>= λ b.
      some (without_text b)

  -- The answer under a threshold, with whether the proposal has expired.
  unfoldable pub threshold_passed : Bool → Votes → ℕ → Threshold D → Option PassedResponse
  unfolding cast_options
  threshold_passed expired v total_power (absolute_percentage percentage) =
      if expired
      then (cast_options v >>= λ options. answer v.yes options total_power percentage)
      else some not_expired
  threshold_passed expired v total_power (threshold_quorum threshold quorum) = do
    total ← votes_total v
    met ← does_vote_count_pass decimals total total_power total_power quorum
    if met
        then (do
          options ← if expired then cast_options v else checked_sub total_power v.abstain
          answer v.yes options total_power threshold)
        else some (without_text false)
  threshold_passed expired v total_power (absolute_count threshold) =
      some (without_text (leb threshold v.yes))

module _ {D E Block Rest : Type 0} (decimals : Decimals D) (is_expired : E → Block → Bool) where
  unfoldable pub is_passed : Block → SingleChoiceProposal D E Rest → Option PassedResponse
  is_passed block p =
      let answered =
        threshold_passed decimals (is_expired p.expiration block) p.votes p.total_power
          p.threshold in
      if p.allow_revoting && not (is_expired p.expiration block)
      then some (without_text false)
      else answered

  unfoldable pub current_status : Block → SingleChoiceProposal D E Rest → Option Status
  current_status block p =
      let status = is_passed block p >>= λ r. some (
        if is_expired p.expiration block && not r.is_passed
        then rejected
        else if r.is_passed
        then passed
        else p.status) in
      if is_open p.status then status else some p.status

  unfoldable pub update_status :
      Block → SingleChoiceProposal D E Rest → Option (SingleChoiceProposal D E Rest)
  update_status block p = current_status block p >>= λ status. some (record p { status = status })
