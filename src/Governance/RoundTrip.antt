-- ===== src/Governance/RoundTrip.antt =====
-- Casting a vote for an option of contracts/syneswap_proposal and taking it back.
use synergistic_juno_contrac.Base.{ℕ, zero, suc, ◌+◌, ◌≡◌, List, [], ◌∷◌, ok, arith, >>=-eq-ok}
use synergistic_juno_contrac.Base.Checked.{add128, add_within, checked_sub}
use synergistic_juno_contrac.Governance.{MultipleChoiceVote, MultipleChoiceVotes}
use synergistic_juno_contrac.Governance.Voting.{change_at, add_choice, remove_choice}

-- The sum of all weights.
unfoldable pub weights_sum : List ℕ → ℕ
weights_sum [] = 0
weights_sum (w ∷ ws) = w + weights_sum ws

change_back :
    (weight i : ℕ) (ws ws' : List ℕ)
    → change_at (λ w. add128 w weight) i ws ≡ ok ws'
    → (change_at (λ w. checked_sub w weight) i ws' ≡ ok ws)
      × (weights_sum ws' ≡ weights_sum ws + weight)
unfolding change_at weights_sum add_within checked_sub
change_back weight i [] ws' h = ground arith
change_back weight zero (w ∷ ws) ws' h = ground arith
change_back weight (suc i) (w ∷ ws) [] h = ground arith
change_back weight (suc i) (w ∷ ws) (v ∷ vs) h =
    let (rest, e, last) = >>=-eq-ok (change_at (λ w. add128 w weight) i ws) _ h in
    ground (arith, change_back weight i ws rest e)

-- A vote that is added for an option raises the sum of the weights by its own weight, and taking it
-- back restores the weights.
pub remove_choice-add_choice :
    (vote : MultipleChoiceVote) (weight : ℕ) (v v' : MultipleChoiceVotes)
    → add_choice vote weight v ≡ ok v'
    → (remove_choice vote weight v' ≡ ok v)
      × (weights_sum v'.vote_weights ≡ weights_sum v.vote_weights + weight)
unfolding add_choice remove_choice
remove_choice-add_choice vote weight v v' h =
    let (ws, e, last) =
      >>=-eq-ok (change_at (λ w. add128 w weight) vote.option_id v.vote_weights) _ h in
    ground (arith, change_back weight vote.option_id v.vote_weights ws e)
