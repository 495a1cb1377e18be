-- ===== src/Consensus/HeightVoteSet/History.antt =====
-- Any sequence of calls on the vote sets of a height.
use totally_not_a_fork_of_ce.Prelude.{◌≡◌, refl, true, List, [], ◌∷◌}
use totally_not_a_fork_of_ce.Prelude.Bytes.{Bytes}
use totally_not_a_fork_of_ce.Prelude.Int.{ℤ, ◌≤ℤ◌, ◌<ℤ◌}
use totally_not_a_fork_of_ce.Prelude.Outcome.{Outcome, done, ◌>>=◌}
use totally_not_a_fork_of_ce.Types.BlockId
use totally_not_a_fork_of_ce.Types.BlockId.{BlockId}
use totally_not_a_fork_of_ce.Types.Vote.{Vote, SignedMsgType, Crypto}
use totally_not_a_fork_of_ce.Consensus.HeightVoteSet.{
  HeightVoteSet, add_vote, set_peer_maj23, set_round,
}
use totally_not_a_fork_of_ce.Consensus.HeightVoteSet.Valid.{
  IsValid, Follows, Follows-refl, Follows-trans,
}
use totally_not_a_fork_of_ce.Consensus.HeightVoteSet.AddVote.{
  add_vote-IsHeightAddition, set_peer_maj23-HeightFollows,
}
use totally_not_a_fork_of_ce.Consensus.HeightVoteSet.SetRound.{max_int32, set_round-Follows}

pub data Call : Type 0 where
  adds : Vote → Bytes → Call
  claims : ℤ → SignedMsgType → Bytes → BlockId → Call
  moves : ℤ → Call

abbrev pub step : Crypto → HeightVoteSet → Call → Outcome HeightVoteSet
step c hvs (adds vote peer) = add_vote c hvs vote peer >>= λ r. done r.state
step c hvs (claims r type peer b) = set_peer_maj23 hvs r type peer b >>= λ r. done r.0
step c hvs (moves round) = set_round hvs round

unfoldable pub run : Crypto → HeightVoteSet → List Call → Outcome HeightVoteSet
run c hvs [] = done hvs
run c hvs (call ∷ calls) = step c hvs call >>= λ hvs'. run c hvs' calls

-- Every vote that is added has a valid block ID, as ValidateBasic of its message has checked, and
-- the node's own round, at first `round`, does not go back and is not the greatest int32.
abbrev pub Orderly : ℤ → List Call → Type 0
Orderly round [] = Unit
Orderly round (adds vote peer ∷ calls) =
    (BlockId.validate_basic vote.block_id ≡ true) × Orderly round calls
Orderly round (claims _ _ _ _ ∷ calls) = Orderly round calls
Orderly round (moves next ∷ calls) = (round ≤ℤ next) × (next <ℤ max_int32) × Orderly next calls

-- Any sequence of votes with valid block IDs from any peers, of peers' claims and of moves of the
-- node to rounds that do not go back and are below the greatest int32 is handled without a panic,
-- and keeps the invariant and every majority that is there.
pub run-HeightFollows :
    (c : Crypto) (hvs : HeightVoteSet) (calls : List Call)
    → IsValid c hvs
    → Orderly hvs.round calls
    → (hvs' : HeightVoteSet) × (run c hvs calls ≡ done hvs') × Follows c hvs hvs'
unfolding run
run-HeightFollows c hvs [] v h = (hvs, refl, Follows-refl c hvs v)
run-HeightFollows c hvs (adds vote peer ∷ calls) v h =
    let (r, e, a) = add_vote-IsHeightAddition c hvs vote peer v h.0 in
    let (hvs', e', f) = run-HeightFollows c r.state calls a.follows.valid (rw a.same_round h.1) in
    (hvs', rw e e', Follows-trans a.follows f)
run-HeightFollows c hvs (claims r type peer b ∷ calls) v h =
    let (next, failed, e, same, g) = set_peer_maj23-HeightFollows c hvs r type peer b v in
    let (hvs', e', f) = run-HeightFollows c next calls g.valid (rw same h) in
    (hvs', rw e e', Follows-trans g f)
run-HeightFollows c hvs (moves round ∷ calls) v h =
    let (next, e, same, g) = set_round-Follows c hvs round v h.0 h.1 in
    let (hvs', e', f) = run-HeightFollows c next calls g.valid (rw same h.2) in
    (hvs', rw e e', Follows-trans g f)
