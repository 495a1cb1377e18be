-- ===== src/Consensus/HeightVoteSet/Tests.antt =====
-- Runs of the vote sets of a small height, and the theorems at them.
use totally_not_a_fork_of_ce.Prelude.{
  none, ℕ, ◌≡◌, ◌≢◌, refl, Bool, true, List, [], ◌∷◌, Option, arith,
}
use totally_not_a_fork_of_ce.Consensus.HeightVoteSet.Agreement.{
  KeptFor, SignedBoth, majorities_share_signers,
}
use totally_not_a_fork_of_ce.Types.VoteSet.Sample.{voted_for}
use totally_not_a_fork_of_ce.Types.BlockVotes
use totally_not_a_fork_of_ce.Prelude.Bytes.{bytes_equal, Bytes, bytes_eq, int_eq}
use totally_not_a_fork_of_ce.Prelude.Int.{ℤ, pos, pos_part, ◌+ℤ◌}
use totally_not_a_fork_of_ce.Prelude.Outcome.{done}
use totally_not_a_fork_of_ce.Types.BlockId
use totally_not_a_fork_of_ce.Types.BlockVotes.{BlockVotes}
use totally_not_a_fork_of_ce.Types.BlockId.{BlockId}
use totally_not_a_fork_of_ce.Types.ValidatorSet
use totally_not_a_fork_of_ce.Types.ValidatorSet.{total_voting_power}
use totally_not_a_fork_of_ce.Types.VoteSet.{two_thirds_majority}
use totally_not_a_fork_of_ce.Types.Vote.{
  verify, vote_sign_bytes, canonicalize_vote, canonicalize_block_id, type_eq, is_vote_type_valid,
  Vote, prevote,
}
use totally_not_a_fork_of_ce.Types.VoteSet
use totally_not_a_fork_of_ce.Types.VoteSet.{VoteSet}
use totally_not_a_fork_of_ce.Consensus.Sample.{polka, start, decided_at}
use totally_not_a_fork_of_ce.Types.Sample.{toy, two, two-IsValid, block, vote}
use totally_not_a_fork_of_ce.Consensus.HeightVoteSet
use totally_not_a_fork_of_ce.Consensus.HeightVoteSet.{
  get_vote_set, of_type, add_vote_in, add_to, HeightVoteSet, RoundVoteSet, AddedToHeight, reset,
  add_round, add_fresh_round, add_vote, set_round, pol_info, set_peer_maj23,
}
use totally_not_a_fork_of_ce.Consensus.HeightVoteSet.Valid.{IsValid, Follows, Majority, frame_of}
use totally_not_a_fork_of_ce.Consensus.HeightVoteSet.SetRound.{new_valid, set_round-Follows}
use totally_not_a_fork_of_ce.Consensus.HeightVoteSet.Addition.{IsHeightAddition}
use totally_not_a_fork_of_ce.Consensus.HeightVoteSet.AddVote.{
  add_vote-IsHeightAddition, set_peer_maj23-HeightFollows,
}
use totally_not_a_fork_of_ce.Consensus.HeightVoteSet.History.{
  Call, adds, claims, moves, run, run-HeightFollows,
}
use totally_not_a_fork_of_ce.Consensus.HeightVoteSet.Pol.{IsLastPolka, pol_info_lem}

new-start : HeightVoteSet.new [] (pos 3) two ≡ done start
unfolding HeightVoteSet.new reset add_round add_fresh_round VoteSet.new ValidatorSet.size
new-start = refl

ne : pos 3 ≢ pos 0
ne h = ground arith

start-IsValid : IsValid toy start
start-IsValid =
    let (hvs, e, _, v) = new_valid toy [] (pos 3) two two-IsValid ne in
    let same : hvs ≡ start = cc (e, new-start) in rw same at v

-- A prevote in a later round.
abbrev late : ℤ → Vote
late round = record (vote 0 7 (block 1)) { round = round }

abbrev peer : Bytes
peer = 4 ∷ []

-- A peer opens the rounds 5 and 9, is refused the round 12, and the node moves on to round 6.
abbrev calls : List Call
calls =
    adds (late (pos 5)) peer
    ∷ adds (late (pos 9)) peer
    ∷ adds (late (pos 12)) peer
    ∷ claims (pos 5) prevote peer (block 1)
    ∷ moves (pos 6)
    ∷ []

valid_block : BlockId.validate_basic (block 1) ≡ true
unfolding BlockId.validate_basic
valid_block = refl

run-HeightFollows_example :
    (hvs : HeightVoteSet) × (run toy start calls ≡ done hvs) × Follows toy start hvs
run-HeightFollows_example =
    run-HeightFollows toy start calls start-IsValid
      (valid_block, (valid_block, (valid_block, (omega arith, omega arith, tt))))

add_vote-IsHeightAddition_example :
    (r : AddedToHeight) × (add_vote toy start (late (pos 5)) peer ≡ done r)
    × IsHeightAddition toy (late (pos 5)) peer start r
add_vote-IsHeightAddition_example =
    add_vote-IsHeightAddition toy start (late (pos 5)) peer start-IsValid valid_block

set_peer_maj23-HeightFollows_example :
    (hvs : HeightVoteSet) × (failed : Bool) × (set_peer_maj23 start (pos 0) prevote peer (block 1)
      ≡ done (hvs, failed))
    × (hvs.round ≡ pos 0)
    × Follows toy start hvs
set_peer_maj23-HeightFollows_example =
    set_peer_maj23-HeightFollows toy start (pos 0) prevote peer (block 1) start-IsValid

set_round-Follows_example :
    (hvs : HeightVoteSet) × (set_round start (pos 6) ≡ done hvs)
    × (hvs.round ≡ pos 6)
    × Follows toy start hvs
set_round-Follows_example =
    set_round-Follows toy start (pos 6) start-IsValid (omega arith) (omega arith)

new_valid_example :
    (hvs : HeightVoteSet) × (HeightVoteSet.new [] (pos 3) two ≡ done hvs)
    × (hvs.round ≡ pos 0)
    × IsValid toy hvs
new_valid_example = new_valid toy [] (pos 3) two two-IsValid ne

pol_info_lem_example :
    (a : Option (ℕ × BlockId)) × (pol_info polka ≡ done a)
    × IsLastPolka polka (pos_part (pos 0 +ℤ pos 1)) a
pol_info_lem_example = pol_info_lem polka

add_vote-decided :
    add_vote toy start (vote 0 7 (block 1)) peer
    ≡ done (record { state = decided_at 1; added = true; error = none })
unfolding add_vote is_vote_type_valid get_vote_set of_type add_vote_in add_to VoteSet.add_vote
    VoteSet.add_vote_of VoteSet.get_vote VoteSet.add_if_new VoteSet.add_new_vote
    VoteSet.add_verified_vote VoteSet.report VoteSet.place VoteSet.track VoteSet.finish
    total_voting_power verify vote_sign_bytes canonicalize_vote canonicalize_block_id
    BlockId.validate_basic BlockId.is_zero bytes_equal type_eq VoteSet.same_step
    ValidatorSet.get_by_index BlockVotes.new ValidatorSet.size
add_vote-decided = refl

add_vote-other :
    add_vote toy start (vote 0 7 (block 2)) peer
    ≡ done (record { state = decided_at 2; added = true; error = none })
unfolding add_vote is_vote_type_valid get_vote_set of_type add_vote_in add_to VoteSet.add_vote
    VoteSet.add_vote_of VoteSet.get_vote VoteSet.add_if_new VoteSet.add_new_vote
    VoteSet.add_verified_vote VoteSet.report VoteSet.place VoteSet.track VoteSet.finish
    total_voting_power verify vote_sign_bytes canonicalize_vote canonicalize_block_id
    BlockId.validate_basic BlockId.is_zero bytes_equal type_eq VoteSet.same_step
    ValidatorSet.get_by_index BlockVotes.new ValidatorSet.size
add_vote-other = refl

valid_other : BlockId.validate_basic (block 2) ≡ true
unfolding BlockId.validate_basic
valid_other = refl

decided_at-IsValid : IsValid toy (decided_at 1)
decided_at-IsValid =
    let (r, e, a) =
      add_vote-IsHeightAddition toy start (vote 0 7 (block 1)) peer start-IsValid valid_block in
    let same : r.state ≡ decided_at 1 = cc (e, add_vote-decided) in rw same at a.follows.valid

other-IsValid : IsValid toy (decided_at 2)
other-IsValid =
    let (r, e, a) =
      add_vote-IsHeightAddition toy start (vote 0 7 (block 2)) peer start-IsValid valid_other in
    let same : r.state ≡ decided_at 2 = cc (e, add_vote-other) in rw same at a.follows.valid

Majority-decided_at : (n : ℕ) → Majority (decided_at n) (pos 0) prevote (block n)
unfolding get_vote_set of_type two_thirds_majority
Majority-decided_at n = (voted_for n, refl, refl)

majorities_share_signers_example :
    (x : BlockVotes) × (y : BlockVotes) × KeptFor (decided_at 1) (pos 0) prevote (block 1) x
    × KeptFor (decided_at 2) (pos 0) prevote (block 2) y
    × SignedBoth toy (frame_of (decided_at 1) (pos 0) prevote) (block 1) (block 2) x y
majorities_share_signers_example =
    majorities_share_signers toy (decided_at 1) (decided_at 2) (pos 0) prevote (block 1) (block 2)
      decided_at-IsValid other-IsValid (refl, refl, refl) (Majority-decided_at 1)
      (Majority-decided_at 2)
