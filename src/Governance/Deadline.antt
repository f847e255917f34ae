-- ===== src/Governance/Deadline.antt =====
-- The status of a proposal of contracts/syneswap_proposal once its time is over.
use synergistic_juno_contrac.Base.{
  ℕ, ◌+◌, ◌*◌, ◌^◌, ◌<◌, ◌≡◌, ◌≢◌, refl, Bool, true, false, some, ◌⊎◌, inl, inr, leb, ◌==◌,
  if◌then◌else◌, arith, Bool-cases,
}
use synergistic_juno_contrac.Base.Checked.{checked_div, u128_mod}
use synergistic_juno_contrac.Governance.{
  Decimals, Votes, geq, PercentageThreshold, percent, majority, Threshold, absolute_percentage,
  threshold_quorum, absolute_count, open_status, rejected, passed,
}
use synergistic_juno_contrac.Governance.Voting.{
  u256_mod, fit256, multiply_ratio, compare_vote_count, does_vote_count_pass, precision_factor,
}
use synergistic_juno_contrac.Governance.Proposals.{
  SingleChoiceProposal, PassedResponse, without_text, threshold_passed, is_passed, current_status,
}
use synergistic_juno_contrac.Governance.Rounding.{share_of}
use synergistic_juno_contrac.Governance.Outcomes.{votes_sum, votes_total_lem, cast_options_lem}

module _ {D : Type 0} (decimals : Decimals D) where
  -- The percentage of the total power, and its scale, fit into 256 bits.
  abbrev pub FitsPercentage : ℕ → PercentageThreshold D → Type 0
  FitsPercentage power majority = Unit
  FitsPercentage power (percent p) =
      (10 ^ decimals.decimal_places p < u256_mod)
      × (10 ^ decimals.decimal_places p ≢ 0)
      × (share_of decimals power p < u256_mod)

  abbrev pub FitsThreshold : ℕ → Threshold D → Type 0
  FitsThreshold power (absolute_percentage percentage) = FitsPercentage power percentage
  FitsThreshold power (threshold_quorum threshold quorum) =
      FitsPercentage power threshold × FitsPercentage power quorum
  FitsThreshold power (absolute_count count) = Unit

  compare_total :
      (n power : ℕ) (p : D)
      → FitsPercentage power (percent p)
      → (b : Bool) × (compare_vote_count decimals n geq power p ≡ some b)
  unfolding compare_vote_count fit256 multiply_ratio checked_div
  compare_total n power p (scale, positive, share) =
      (leb (share_of decimals power p) (n * precision_factor), ground arith)

  pass_total :
      (y o power : ℕ) (t : PercentageThreshold D)
      → FitsPercentage power t
      → (b : Bool) × (does_vote_count_pass decimals y o power t ≡ some b)
  unfolding does_vote_count_pass
  pass_total y o power majority f = (_, refl)
  pass_total y o power (percent p) f =
      let (b, e) = compare_total y power p f in (if o == 0 then false else b, ground arith)

  threshold_total :
      (v : Votes) (power : ℕ) (t : Threshold D)
      → votes_sum v < u128_mod
      → FitsThreshold power t
      → (r : PassedResponse) × (threshold_passed decimals true v power t ≡ some r)
  unfolding threshold_passed
  threshold_total v power (absolute_percentage t) fits f =
      let (b, e) = pass_total v.yes (v.yes + v.no) power t f in
      (without_text b, ground (arith, cast_options_lem v fits))
  threshold_total v power (threshold_quorum t q) fits f =
      let (met, m) = pass_total (votes_sum v) power power q f.1 in
      let (b, e) = pass_total v.yes (v.yes + v.no) power t f.0 in
      (
        without_text (if met then b else false),
        ground (arith, cast_options_lem v fits, votes_total_lem v fits),
      )
  threshold_total v power (absolute_count t) fits f = (_, refl)

module _ {D E Block Rest : Type 0} (decimals : Decimals D) (is_expired : E → Block → Bool) where
  expired_total :
      (block : Block) (p : SingleChoiceProposal D E Rest)
      → is_expired p.expiration block ≡ true
      → votes_sum p.votes < u128_mod
      → FitsThreshold decimals p.total_power p.threshold
      → (r : PassedResponse) × (is_passed decimals is_expired block p ≡ some r)
  unfolding is_passed
  expired_total block p late fits f =
      let (r, e) = threshold_total decimals p.votes p.total_power p.threshold fits f in
      (r, ground arith)

  -- Once an open proposal has expired, its status is computed without a panic, and it has either
  -- passed or been rejected, provided that its votes sum to less than 2^128 and that the share
  -- of the voting power that it needs fits into 256 bits.
  pub expired_decided :
      (block : Block) (p : SingleChoiceProposal D E Rest)
      → p.status ≡ open_status
      → is_expired p.expiration block ≡ true
      → votes_sum p.votes < u128_mod
      → FitsThreshold decimals p.total_power p.threshold
      → (current_status decimals is_expired block p ≡ some passed)
        ⊎ (current_status decimals is_expired block p ≡ some rejected)
  unfolding current_status
  expired_decided block p is_new late fits f =
      let (r, e) = expired_total block p late fits f in
      elim (Bool-cases r.is_passed) [ inl pro ↦ inl (ground arith) | inr con ↦ inr (ground arith) ]
