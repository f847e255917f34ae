-- ===== src/Governance/Voting.antt =====
-- contracts/syneswap_proposal/src/voting.rs: counting votes and comparing counts.
use synergistic_juno_contrac.Base.{
  ℕ, zero, suc, ◌+◌, ◌*◌, ◌^◌, Bool, true, false, Option, none, some, List, [], ◌∷◌, ltb, leb, ◌==◌,
  if◌then◌else◌, Result, ok, err, ensure,
}
use synergistic_juno_contrac.Base
use synergistic_juno_contrac.Base.Checked.{add128, checked_sub, checked_div, ◌>>=◌}
use synergistic_juno_contrac.Governance.{
  Decimals, Votes, Vote, yes, no, abstain, MultipleChoiceVote, MultipleChoiceVotes, VoteCmp,
  greater, geq, PercentageThreshold, majority, percent, Error, generic, overflow, aborted, Duration,
  height, time,
}

abbrev pub u256_mod : ℕ
u256_mod = 2 ^ 256

abbrev pub precision_factor : ℕ
precision_factor = 10 ^ 9

-- A value of `Uint256`, or a panic.
unfoldable pub fit256 : ℕ → Option ℕ
fit256 n = if ltb n u256_mod then some n else none

-- `multiply_ratio` of `Uint256`: the product has 512 bits, the quotient is rounded down.
unfoldable pub multiply_ratio : ℕ → ℕ → ℕ → Option ℕ
unfolding checked_div fit256
multiply_ratio n numerator denominator = checked_div (n * numerator) denominator >>= fit256

abbrev pub compare : VoteCmp → ℕ → ℕ → Bool
compare greater votes threshold = ltb threshold votes
compare geq votes threshold = leb threshold votes

module _ {D : Type 0} (decimals : Decimals D) where
  -- `full_mul` of two `Uint128` always fits into 256 bits.
  unfoldable pub compare_vote_count : ℕ → VoteCmp → ℕ → D → Option Bool
  unfolding fit256 multiply_ratio
  compare_vote_count votes cmp total_power passing_percentage = do
    scale ← fit256 (10 ^ decimals.decimal_places passing_percentage)
    threshold ←
        multiply_ratio (total_power * precision_factor) (decimals.atomics passing_percentage) scale
    some (compare cmp (votes * precision_factor) threshold)

  unfoldable pub does_vote_count_pass : ℕ → ℕ → ℕ → PercentageThreshold D → Option Bool
  does_vote_count_pass yes_votes total_votes total_power majority =
      some (if total_votes == 0 then false else ltb total_votes (yes_votes * 2))
  does_vote_count_pass yes_votes total_votes total_power (percent p) =
      let compared = compare_vote_count yes_votes geq total_power p in
      if total_votes == 0 then some false else compared

  unfoldable pub does_vote_count_fail : ℕ → ℕ → PercentageThreshold D → Option Bool
  does_vote_count_fail no_votes options majority =
      some (if options == 0 then true else leb options (no_votes * 2))
  does_vote_count_fail no_votes options (percent p) =
      let compared = decimals.one_minus p >>= compare_vote_count no_votes greater options in
      if options == 0 then some true else compared

abbrev pub zero_votes : Votes
zero_votes = record { yes = 0; no = 0; abstain = 0 }

unfoldable pub add_vote : Vote → ℕ → Votes → Option Votes
add_vote yes power v = add128 v.yes power >>= λ n. some (record v { yes = n })
add_vote no power v = add128 v.no power >>= λ n. some (record v { no = n })
add_vote abstain power v = add128 v.abstain power >>= λ n. some (record v { abstain = n })

unfoldable pub remove_vote : Vote → ℕ → Votes → Option Votes
remove_vote yes power v = checked_sub v.yes power >>= λ n. some (record v { yes = n })
remove_vote no power v = checked_sub v.no power >>= λ n. some (record v { no = n })
remove_vote abstain power v = checked_sub v.abstain power >>= λ n. some (record v { abstain = n })

-- `Votes::total`
unfoldable pub votes_total : Votes → Option ℕ
votes_total v = add128 v.yes v.no >>= λ n. add128 n v.abstain

unfoldable pub sum_from : ℕ → List ℕ → Option ℕ
sum_from sum [] = some sum
sum_from sum (w ∷ ws) = add128 sum w >>= λ n. sum_from n ws

-- `MultipleChoiceVotes::total`
unfoldable pub weights_total : MultipleChoiceVotes → Option ℕ
unfolding sum_from
weights_total v = sum_from 0 v.vote_weights

-- One entry of a vector changed by `f`: an index out of range panics, a failing `f` is an
-- overflow error.
unfoldable pub change_at : (ℕ → Option ℕ) → ℕ → List ℕ → Result Error (List ℕ)
change_at f i [] = err aborted
change_at f zero (w ∷ ws) = Base.◌>>=◌ (Base.ok_or (f w) overflow) λ x. ok (x ∷ ws)
change_at f (suc i) (w ∷ ws) = Base.◌>>=◌ (change_at f i ws) λ xs. ok (w ∷ xs)

unfoldable pub add_choice :
    MultipleChoiceVote → ℕ → MultipleChoiceVotes → Result Error MultipleChoiceVotes
add_choice vote weight v =
    Base.◌>>=◌ (change_at (λ w. add128 w weight) vote.option_id v.vote_weights)
      λ ws. ok (record { vote_weights = ws })

unfoldable pub remove_choice :
    MultipleChoiceVote → ℕ → MultipleChoiceVotes → Result Error MultipleChoiceVotes
remove_choice vote weight v =
    Base.◌>>=◌ (change_at (λ w. checked_sub w weight) vote.option_id v.vote_weights)
      λ ws. ok (record { vote_weights = ws })

-- `MultipleChoiceVotes::zero`
unfoldable pub zero_weights : ℕ → List ℕ
zero_weights zero = []
zero_weights (suc n) = 0 ∷ zero_weights n

-- The shorter period, then the longer one, in the same unit.
unfoldable pub validate_voting_period : Duration → Duration → Result Error (Duration × Duration)
validate_voting_period (time a) (time b) = if leb a b then ok (time a, time b) else err generic
validate_voting_period (height a) (height b) =
    if leb a b then ok (height a, height b) else err generic
validate_voting_period a b = err generic
