-- ===== src/Governance/Rounding.antt =====
-- How closely a percentage of contracts/syneswap_proposal/src/voting.rs is compared.
use native.Mathlib.Nat.{mul-le-mul_left, lt-div-mul-add}
use synergistic_juno_contrac.Base.{
  ℕ, ◌+◌, ◌*◌, ◌/◌, ◌^◌, ◌≤◌, ◌<◌, ◌≡◌, ◌≢◌, Bool, true, some, leb, arith,
}
use synergistic_juno_contrac.Base.Checked.{checked_div}
use synergistic_juno_contrac.Governance.{Decimals, geq}
use synergistic_juno_contrac.Governance.Voting.{
  precision_factor, fit256, multiply_ratio, compare_vote_count,
}

share_tight : (t k a v s : ℕ) → s ≢ 0 → t * k * a / s ≤ v * k → t * k * a < (v * k + 1) * s
share_tight t k a v s p h =
    omega (arith, lt-div-mul-add {a = t * k * a} {b = s} (omega arith), mul-le-mul_left s h)

-- A comparison that does not panic compares with the rounded share.
module _ {D : Type 0} (decimals : Decimals D) where
  abbrev pub share_of : ℕ → D → ℕ
  share_of total p =
      total * precision_factor * decimals.atomics p / (10 ^ decimals.decimal_places p)

  compared_lem :
      (votes total : ℕ) (p : D) (b : Bool)
      → compare_vote_count decimals votes geq total p ≡ some b
      → (10 ^ decimals.decimal_places p ≢ 0)
        × (b ≡ leb (share_of total p) (votes * precision_factor))
  unfolding compare_vote_count fit256 multiply_ratio checked_div
  compared_lem votes total p b h = (ground arith, ground arith)

  -- A comparison that succeeds says that the votes reach the percentage up to less than 10^-9 of a
  -- vote.
  pub compare-tight :
      (votes total : ℕ) (p : D)
      → compare_vote_count decimals votes geq total p ≡ some true
      → total * precision_factor * decimals.atomics p
        < (votes * precision_factor + 1) * 10 ^ decimals.decimal_places p
  compare-tight votes total p h =
      let (positive, e) = compared_lem votes total p true h in
      share_tight total precision_factor (decimals.atomics p) votes (10 ^ decimals.decimal_places p)
        positive (ground arith)
