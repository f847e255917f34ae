-- ===== src/Governance/Tests.antt =====
-- Proposals at concrete votes. A decimal number is its number of atomics, with 18 places.
use synergistic_juno_contrac.Base.{
  [], ◌∷◌, ok, ℕ, ◌+◌, ◌*◌, ◌-◌, ◌^◌, ◌<◌, ◌≡◌, ◌⊎◌, refl, true, false, none, some, ltb, leb, ◌==◌,
  if◌then◌else◌, arith,
}
use synergistic_juno_contrac.Base.Checked.{add_within, checked_div}
use synergistic_juno_contrac.Governance.{
  MultipleChoiceVote, MultipleChoiceVotes, Decimals, Votes, geq, majority, percent,
  threshold_quorum, open_status, passed, rejected,
}
use synergistic_juno_contrac.Governance.Voting.{
  change_at, add_choice, remove_choice, precision_factor, fit256, multiply_ratio,
  compare_vote_count,
}
use synergistic_juno_contrac.Governance.Proposals.{SingleChoiceProposal, current_status}
use synergistic_juno_contrac.Governance.Rounding.{compare-tight}
use synergistic_juno_contrac.Governance.Deadline.{expired_decided}
use synergistic_juno_contrac.Governance.RoundTrip.{weights_sum, remove_choice-add_choice}

abbrev one : ℕ
one = 10 ^ 18

abbrev decimals : Decimals ℕ
decimals = record {
  atomics = λ d. d;
  decimal_places = λ d. 18;
  is_zero = λ d. d == 0;
  above_one = λ d. ltb one d;
  one_minus = λ d. if leb d one then some (one - d) else none;
}

abbrev half : ℕ
half = 500000000000000000

abbrev proposal : SingleChoiceProposal ℕ ℕ (Unit {0})
proposal = record {
  expiration = 50;
  threshold = threshold_quorum majority (percent half);
  status = open_status;
  votes = record { yes = 60; no = 10; abstain = 5 };
  allow_revoting = false;
  total_power = 100;
  rest = tt;
}

abbrev more : Votes
more = record { yes = 60; no = 30; abstain = 10 }

expired_decided_example :
    (current_status decimals leb 70 proposal ≡ some passed)
    ⊎ (current_status decimals leb 70 proposal ≡ some rejected)
expired_decided_example =
    expired_decided decimals leb 70 proposal refl refl (omega arith)
      (tt, (omega arith, (λ e. omega arith), omega arith))

half_reached : compare_vote_count decimals 10 geq 20 half ≡ some true
unfolding compare_vote_count fit256 multiply_ratio checked_div
half_reached = refl

compare-tight_example : 20 * precision_factor * half < (10 * precision_factor + 1) * 10 ^ 18
compare-tight_example = compare-tight decimals 10 20 half half_reached

abbrev weights : MultipleChoiceVotes
weights = record { vote_weights = 3 ∷ 4 ∷ [] }

abbrev second : MultipleChoiceVote
second = record { option_id = 1 }

vote_added : add_choice second 5 weights ≡ ok (record { vote_weights = 3 ∷ 9 ∷ [] })
unfolding add_choice change_at add_within
vote_added = refl

remove_choice-add_choice_example :
    (remove_choice second 5 (record { vote_weights = 3 ∷ 9 ∷ [] }) ≡ ok weights)
    × (weights_sum (3 ∷ 9 ∷ []) ≡ weights_sum (3 ∷ 4 ∷ []) + 5)
remove_choice-add_choice_example =
    remove_choice-add_choice second 5 weights (record { vote_weights = 3 ∷ 9 ∷ [] }) vote_added
