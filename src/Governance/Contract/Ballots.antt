-- ===== src/Governance/Contract/Ballots.antt =====
-- The ballots of contracts/syneswap_proposal add up to the votes of the proposals.
use synergistic_juno_contrac.Base.{
  ℕ, ◌+◌, Bool, ◌&&◌, ◌≡◌, Option, none, some, [], ◌∷◌, arith, if◌then◌else◌, ok, ok_or, Returns,
  returns, finally, raises, branch, returned,
}
use synergistic_juno_contrac.Base.Checked.{add_within, checked_sub}
use synergistic_juno_contrac.Base.Dict.{Dict, lookup, insert}
use synergistic_juno_contrac.Governance.{Votes, Vote, yes, no, abstain, Error, aborted}
use synergistic_juno_contrac.Governance.Voting.{add_vote, remove_vote}
use synergistic_juno_contrac.Governance.Contract.{Ballot}
use synergistic_juno_contrac.Governance.Contract.Handlers.{same_vote, take_back}

-- What a ballot gives to a position, and what all ballots give to it.
abbrev pub share : Vote → Option Ballot → ℕ
share w none = 0
share w (some b) = if same_vote b.vote w then b.power else 0

abbrev pub powers : Vote → Dict Ballot → ℕ
powers w [] = 0
powers w ((_, b) ∷ d) = share w (some b) + powers w d

powers-insert :
    (w : Vote) (k : ℕ) (b : Ballot) (d : Dict Ballot)
    → powers w (insert k b d) + share w (lookup k d) ≡ powers w d + share w (some b)
unfolding insert lookup
powers-insert w k b [] = omega arith
powers-insert w k b ((j, c) ∷ d) = ground (arith, powers-insert w k b d)

abbrev pub votes_for : Vote → Votes → ℕ
votes_for yes v = v.yes
votes_for no v = v.no
votes_for abstain v = v.abstain

-- The votes are the sums of the ballots.
abbrev pub Counts : Votes → Dict Ballot → Type 0
Counts v d = (w : Vote) → votes_for w v ≡ powers w d

votes_for-remove_vote :
    (vote w : Vote) (power : ℕ) (v v' : Votes)
    → remove_vote vote power v ≡ some v'
    → votes_for w v' + share w (some (record { power = power; vote = vote })) ≡ votes_for w v
unfolding remove_vote checked_sub
votes_for-remove_vote yes yes power v v' h = ground arith
votes_for-remove_vote yes no power v v' h = ground arith
votes_for-remove_vote yes abstain power v v' h = ground arith
votes_for-remove_vote no yes power v v' h = ground arith
votes_for-remove_vote no no power v v' h = ground arith
votes_for-remove_vote no abstain power v v' h = ground arith
votes_for-remove_vote abstain yes power v v' h = ground arith
votes_for-remove_vote abstain no power v v' h = ground arith
votes_for-remove_vote abstain abstain power v v' h = ground arith

removed :
    (w : Vote) (c : Ballot) (v : Votes)
    → Returns
        (λ v'. votes_for w v' + share w (some c) ≡ votes_for w v)
        (ok_or {E = Error} (remove_vote c.vote c.power v) aborted)
removed w c v =
    finally (remove_vote c.vote c.power v) aborted
      λ v' e. votes_for-remove_vote c.vote w c.power v v' e

votes_for-take_back :
    (b : Bool) (vote w : Vote) (old : Option Ballot) (v : Votes)
    → Returns (λ v'. votes_for w v' + share w old ≡ votes_for w v) (take_back b vote old v)
unfolding take_back
votes_for-take_back b vote w none v = returns (omega arith)
votes_for-take_back b vote w (some c) v = branch (b && same_vote c.vote vote) raises (removed w c v)

votes_for-add_vote :
    (vote w : Vote) (power : ℕ) (v v' : Votes)
    → add_vote vote power v ≡ some v'
    → votes_for w v' ≡ votes_for w v + share w (some (record { power = power; vote = vote }))
unfolding add_vote add_within
votes_for-add_vote yes yes power v v' h = ground arith
votes_for-add_vote yes no power v v' h = ground arith
votes_for-add_vote yes abstain power v v' h = ground arith
votes_for-add_vote no yes power v v' h = ground arith
votes_for-add_vote no no power v v' h = ground arith
votes_for-add_vote no abstain power v v' h = ground arith
votes_for-add_vote abstain yes power v v' h = ground arith
votes_for-add_vote abstain no power v v' h = ground arith
votes_for-add_vote abstain abstain power v v' h = ground arith

-- A vote moves the votes and the ballots alike.
pub vote-Counts :
    (b : Bool) (vote : Vote) (voter power : ℕ) (v left v' : Votes) (d : Dict Ballot)
    → Counts v d
    → take_back b vote (lookup voter d) v ≡ ok left
    → add_vote vote power left ≡ some v'
    → Counts v' (insert voter (record { power = power; vote = vote }) d)
vote-Counts b vote voter power v left v' d c t a w = omega (
  arith,
  c w,
  returned (votes_for-take_back b vote w (lookup voter d) v) t,
  votes_for-add_vote vote w power left v' a,
  powers-insert w voter (record { power = power; vote = vote }) d,
)
