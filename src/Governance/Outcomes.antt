-- ===== src/Governance/Outcomes.antt =====
-- What later votes can do to a proposal of contracts/syneswap_proposal that has passed.
use synergistic_juno_contrac.Base.{ℕ, ◌+◌, ◌≤◌, ◌<◌, ◌≡◌, some, arith}
use synergistic_juno_contrac.Base.Checked.{add_within, checked_sub, u128_mod}
use synergistic_juno_contrac.Governance.{Votes}
use synergistic_juno_contrac.Governance.Voting.{votes_total}
use synergistic_juno_contrac.Governance.Proposals.{cast_options}

-- The votes after some more have been cast; nobody takes a vote back.
pub record Later (v v' : Votes) : Type 0 where
  pub yes_later : v.yes ≤ v'.yes
  pub no_later : v.no ≤ v'.no
  pub abstain_later : v.abstain ≤ v'.abstain

-- The sum of all votes.
abbrev pub votes_sum : Votes → ℕ
votes_sum v = v.yes + v.no + v.abstain

pub votes_total_lem : (v : Votes) → votes_sum v < u128_mod → votes_total v ≡ some (votes_sum v)
unfolding votes_total add_within
votes_total_lem v h = ground arith

votes_total-eq-some : (v : Votes) (n : ℕ) → votes_total v ≡ some n → n ≡ votes_sum v
unfolding votes_total add_within
votes_total-eq-some v n h = ground arith

pub cast_options_lem : (v : Votes) → votes_sum v < u128_mod → cast_options v ≡ some (v.yes + v.no)
unfolding cast_options checked_sub
cast_options_lem v h = ground (arith, votes_total_lem v h)
