-- ===== src/Types/Commit/Tests.antt =====
-- A commit that is made from a small set of precommits.
use totally_not_a_fork_of_ce.Prelude.{
  ℕ, zero, suc, ◌≡◌, refl, true, false, [], ◌∷◌, none, some, arith, inl, ◌∙◌, ap, sym,
}
use totally_not_a_fork_of_ce.Prelude.Bytes.{bytes_equal, bytes_eq}
use totally_not_a_fork_of_ce.Prelude.Int.{pos}
use totally_not_a_fork_of_ce.Prelude.Maps.{insert}
use totally_not_a_fork_of_ce.Prelude.Outcome.{done}
use totally_not_a_fork_of_ce.Types.BlockId
use totally_not_a_fork_of_ce.Types.BlockId.{nil_block_id}
use totally_not_a_fork_of_ce.Types.BlockVotes
use totally_not_a_fork_of_ce.Types.Commit.{Commit, make_commit}
use totally_not_a_fork_of_ce.Types.Commit.RoundTrip.{IsWhole, Carries, make_commit-get_vote}
use totally_not_a_fork_of_ce.Types.Sample.{toy, two, two-IsValid, block, vote}
use totally_not_a_fork_of_ce.Types.ValidatorSet
use totally_not_a_fork_of_ce.Types.ValidatorSet.{total_voting_power}
use totally_not_a_fork_of_ce.Types.Vote.{
  Vote, precommit, verify, vote_sign_bytes, canonicalize_vote, canonicalize_block_id, type_eq,
}
use totally_not_a_fork_of_ce.Types.VoteSet.{
  VoteSet, new, add_vote, add_vote_of, get_vote as vote_at, add_if_new, add_new_vote,
  add_verified_vote, report, place, track, finish, same_step,
}
use totally_not_a_fork_of_ce.Types.VoteSet.AddVote.{add_vote-IsAddition}
use totally_not_a_fork_of_ce.Types.VoteSet.Claims.{new-IsValid}
use totally_not_a_fork_of_ce.Types.VoteSet.Sample.{no_votes}
use totally_not_a_fork_of_ce.Types.VoteSet.Slices.{At}
use totally_not_a_fork_of_ce.Types.VoteSet.Valid.{IsValid}

abbrev empty : VoteSet
empty = no_votes precommit

abbrev ballot : Vote
ballot = record (vote 0 7 (block 1)) { type = precommit }

abbrev decided : VoteSet
decided = record empty {
  votes_bit_array = true ∷ false ∷ [];
  votes = some ballot ∷ none ∷ [];
  sum = 5;
  maj23 = some (block 1);
  votes_by_block =
      insert (BlockId.key (block 1))
        (record {
          peer_maj23 = false;
          bit_array = true ∷ false ∷ [];
          votes = some ballot ∷ none ∷ [];
          sum = 5;
        })
        (λ _. none);
}

new-empty : new [] (pos 3) (pos 0) precommit two ≡ done empty
unfolding new ValidatorSet.size
new-empty = refl

add_vote-decided :
    add_vote toy empty (some ballot) ≡ done (record { state = decided; added = true; error = none })
unfolding add_vote add_vote_of vote_at add_if_new add_new_vote add_verified_vote report place track
    finish total_voting_power verify vote_sign_bytes canonicalize_vote canonicalize_block_id
    BlockId.validate_basic BlockId.is_zero bytes_equal type_eq same_step ValidatorSet.get_by_index
    BlockVotes.new ValidatorSet.size
add_vote-decided = refl

empty-IsValid : IsValid toy empty
empty-IsValid =
    let (vs, e, v) =
      new-IsValid toy [] (pos 3) (pos 0) precommit two two-IsValid (λ h. ground arith) in
    let same : vs ≡ empty = cc (e, new-empty) in rw same at v

decided-IsValid : IsValid toy decided
unfolding BlockId.validate_basic
decided-IsValid =
    let (r, e, a) = add_vote-IsAddition toy empty empty-IsValid ballot refl in
    let same : r.state ≡ decided = cc (e, add_vote-decided) in rw same at a.follows.valid

whole : (i : ℕ) (v : Vote) → At decided.votes i v → IsWhole v.block_id
unfolding BlockId.is_complete
whole zero v h =
    let q : ballot ≡ v = cc h in
    let r : BlockId.is_complete ballot.block_id ≡ true = refl in
    inl (ap (λ w. BlockId.is_complete w.block_id) (sym q) ∙ r)
whole (suc zero) v h = cc
whole (suc (suc i)) v h = cc

make_commit-get_vote_example :
    (cm : Commit) × (make_commit decided ≡ done cm) × Carries cm 0 (some ballot)
make_commit-get_vote_example =
    make_commit-get_vote toy decided (block 1) decided-IsValid refl refl whole 0 (some ballot) refl
