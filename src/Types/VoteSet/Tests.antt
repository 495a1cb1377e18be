-- ===== src/Types/VoteSet/Tests.antt =====
-- Runs of a small vote set, and the theorems at them.
use totally_not_a_fork_of_ce.Prelude.{
  ℕ, ◌==◌, ◌≤◌, ◌<◌, ◌*◌, ◌≡◌, ◌↔◌, refl, Bool, true, List, [], ◌∷◌, none, some, arith, ◌≢◌, ◌⊎◌,
}
use totally_not_a_fork_of_ce.Prelude.Bytes.{Bytes, bytes_equal, bytes_eq}
use totally_not_a_fork_of_ce.Prelude.Int.{pos}
use totally_not_a_fork_of_ce.Prelude.Outcome.{done, panic}
use totally_not_a_fork_of_ce.Types.BlockId
use totally_not_a_fork_of_ce.Types.BlockId.{BlockId}
use totally_not_a_fork_of_ce.Types.BlockVotes.{BlockVotes}
use totally_not_a_fork_of_ce.Types.ValidatorSet
use totally_not_a_fork_of_ce.Types.ValidatorSet.{
  ValidatorSet, Validator, total, total_voting_power, max_total_voting_power,
  update_total_voting_power,
}
use totally_not_a_fork_of_ce.Types.Vote.{
  Vote, prevote, verify, vote_sign_bytes, canonicalize_vote, canonicalize_block_id, type_eq,
}
use totally_not_a_fork_of_ce.Types.BlockVotes
use totally_not_a_fork_of_ce.Types.VoteSet.{
  VoteSet, new, Added, add_vote, add_vote_of, get_vote, add_if_new, add_new_vote, add_verified_vote,
  report, place, track, finish, same_step, set_peer_maj23, two_thirds_majority,
  has_two_thirds_majority, has_two_thirds_any, has_all,
}
use totally_not_a_fork_of_ce.Types.Sample.{toy, two, two-IsValid, block, vote}
use totally_not_a_fork_of_ce.Types.VoteSet.Valid.{frame, IsAccepted, IsValid}
use totally_not_a_fork_of_ce.Types.VoteSet.Add.{Follows}
use totally_not_a_fork_of_ce.Types.VoteSet.AddVote.{IsAddition, add_vote-IsAddition}
use totally_not_a_fork_of_ce.Types.VoteSet.Majority.{
  TwoThirds, two_thirds_majority_backed, has_two_thirds_majority_iff, has_two_thirds_any_lem,
  has_all_lem, two_majorities_share_signers,
}
use totally_not_a_fork_of_ce.Types.VoteSet.Sample.{no_votes, voted_for}
use totally_not_a_fork_of_ce.Types.VoteSet.Power.{voted, in_both}
use totally_not_a_fork_of_ce.Types.VoteSet.Slices.{At}
use totally_not_a_fork_of_ce.Types.VoteSet.Claims.{new-IsValid, set_peer_maj23-Follows}
use totally_not_a_fork_of_ce.Types.VoteSet.History.{Call, adds, claims, run, run-Follows}

abbrev empty : VoteSet
empty = no_votes prevote

new-empty : new [] (pos 3) (pos 0) prevote two ≡ done empty
unfolding new ValidatorSet.size
new-empty = refl

empty-IsValid : IsValid toy empty
empty-IsValid =
    let (vs, e, v) = new-IsValid toy [] (pos 3) (pos 0) prevote two two-IsValid ne in
    let same : vs ≡ empty = cc (e, new-empty) in rw same at v
  where
    ne : pos 3 ≢ pos 0
    ne h = ground arith

-- The first validator votes for block 1 and then for block 2; a peer claims block 2.
abbrev calls : List Call
calls =
    adds (vote 0 7 (block 1))
    ∷ claims (4 ∷ []) (block 2)
    ∷ adds (vote 0 7 (block 2))
    ∷ adds (vote 1 8 (block 2))
    ∷ []

run-Follows_example : (vs : VoteSet) × (run toy empty calls ≡ done vs) × Follows toy empty vs
unfolding BlockId.validate_basic
run-Follows_example = run-Follows toy empty calls empty-IsValid (refl, (refl, (refl, tt)))

new-IsValid_example :
    (vs : VoteSet) × (new [] (pos 3) (pos 0) prevote two ≡ done vs) × IsValid toy vs
new-IsValid_example = new-IsValid toy [] (pos 3) (pos 0) prevote two two-IsValid (λ h. ground arith)

abbrev decided : VoteSet
decided = voted_for 1

abbrev other : VoteSet
other = voted_for 2

add_vote-decided :
    add_vote toy empty (some (vote 0 7 (block 1)))
    ≡ done (record { state = decided; added = true; error = none })
unfolding add_vote add_vote_of get_vote add_if_new add_new_vote add_verified_vote report place track
    finish total_voting_power verify vote_sign_bytes canonicalize_vote canonicalize_block_id
    BlockId.validate_basic BlockId.is_zero bytes_equal type_eq same_step ValidatorSet.get_by_index
    BlockVotes.new ValidatorSet.size
add_vote-decided = refl

add_vote-other :
    add_vote toy empty (some (vote 0 7 (block 2)))
    ≡ done (record { state = other; added = true; error = none })
unfolding add_vote add_vote_of get_vote add_if_new add_new_vote add_verified_vote report place track
    finish total_voting_power verify vote_sign_bytes canonicalize_vote canonicalize_block_id
    BlockId.validate_basic BlockId.is_zero bytes_equal type_eq same_step ValidatorSet.get_by_index
    BlockVotes.new ValidatorSet.size
add_vote-other = refl

add_vote-IsAddition_example :
    (r : Added) × (add_vote toy empty (some (vote 0 7 (block 1))) ≡ done r)
    × IsAddition toy empty (vote 0 7 (block 1)) r
unfolding BlockId.validate_basic
add_vote-IsAddition_example = add_vote-IsAddition toy empty empty-IsValid (vote 0 7 (block 1)) refl

decided-IsValid : IsValid toy decided
decided-IsValid =
    let (r, e, a) = add_vote-IsAddition_example in
    let same : r.state ≡ decided = cc (e, add_vote-decided) in rw same at a.follows.valid

other-IsValid : IsValid toy other
unfolding BlockId.validate_basic
other-IsValid =
    let (r, e, a) = add_vote-IsAddition toy empty empty-IsValid (vote 0 7 (block 2)) refl in
    let same : r.state ≡ other = cc (e, add_vote-other) in rw same at a.follows.valid

two_thirds_majority_backed_example :
    (bv : BlockVotes) × (decided.votes_by_block (BlockId.key (block 1)) ≡ some bv)
    × TwoThirds decided bv
    × ((i : ℕ) (w : Vote)
        → At bv.votes i w
        → (BlockId.key w.block_id ≡ BlockId.key (block 1)) × IsAccepted toy (frame decided) i w)
unfolding two_thirds_majority
two_thirds_majority_backed_example =
    two_thirds_majority_backed toy decided decided-IsValid (block 1) refl

has_two_thirds_majority_iff_example : (has_two_thirds_majority decided ≡ true) ↔ (
    (k : Bytes) × (bv : BlockVotes) × (decided.votes_by_block k ≡ some bv) × TwoThirds decided bv)
has_two_thirds_majority_iff_example = has_two_thirds_majority_iff toy decided decided-IsValid

has_two_thirds_any_lem_example :
    (r : Bool) × (has_two_thirds_any decided ≡ done r)
    × ((r ≡ true) ↔ (2 * total two.validators < 3 * voted two.validators decided.votes))
has_two_thirds_any_lem_example = has_two_thirds_any_lem toy decided decided-IsValid

has_all_lem_example :
    (decided.sum ≤ total two.validators)
    × (has_all decided ≡ done (voted two.validators decided.votes == total two.validators))
has_all_lem_example = has_all_lem toy decided decided-IsValid

two_majorities_share_signers_example :
    (x : BlockVotes) × (y : BlockVotes) × (decided.votes_by_block (BlockId.key (block 1)) ≡ some x)
    × (other.votes_by_block (BlockId.key (block 2)) ≡ some y)
    × (total two.validators < 3 * in_both two.validators x.votes y.votes)
    × ((i : ℕ) (p q : Vote)
        → At x.votes i p
        → At y.votes i q
        → (BlockId.key p.block_id ≡ BlockId.key (block 1))
          × (BlockId.key q.block_id ≡ BlockId.key (block 2))
          × IsAccepted toy (frame decided) i p
          × IsAccepted toy (frame decided) i q)
unfolding two_thirds_majority
two_majorities_share_signers_example =
    two_majorities_share_signers toy decided other (block 1) (block 2) decided-IsValid other-IsValid
      refl refl refl

set_peer_maj23-Follows_example : Follows toy decided (set_peer_maj23 decided (4 ∷ []) (block 2)).0
set_peer_maj23-Follows_example =
    set_peer_maj23-Follows toy decided decided-IsValid (4 ∷ []) (block 2)

update_total_voting_power_lem_example :
    ((total two.validators ≤ max_total_voting_power)
      × (vals : ValidatorSet) × (update_total_voting_power two ≡ done vals)
      × (vals.validators ≡ two.validators)
      × (vals.proposer ≡ two.proposer)
      × (vals.cached_power ≡ total two.validators)
      × (total_voting_power vals ≡ done (total two.validators)))
    ⊎ ((max_total_voting_power < total two.validators) × (update_total_voting_power two ≡ panic))
update_total_voting_power_lem_example = ValidatorSet.update_total_voting_power_lem two
