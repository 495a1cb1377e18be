-- ===== src/Types/VoteSet/History.antt =====
-- Any sequence of calls on a new vote set.
use totally_not_a_fork_of_ce.Prelude.{◌≡◌, refl, true, List, [], ◌∷◌, some, ◌∙◌}
use totally_not_a_fork_of_ce.Prelude.Bytes.{Bytes}
use totally_not_a_fork_of_ce.Prelude.Outcome.{Outcome, done, ◌>>=◌}
use totally_not_a_fork_of_ce.Types.BlockId
use totally_not_a_fork_of_ce.Types.BlockId.{BlockId}
use totally_not_a_fork_of_ce.Types.Vote.{Vote, Crypto}
use totally_not_a_fork_of_ce.Types.VoteSet.{VoteSet, add_vote, set_peer_maj23}
use totally_not_a_fork_of_ce.Types.VoteSet.Valid.{IsValid}
use totally_not_a_fork_of_ce.Types.VoteSet.Add.{Follows}
use totally_not_a_fork_of_ce.Types.VoteSet.AddVote.{add_vote-IsAddition}
use totally_not_a_fork_of_ce.Types.VoteSet.Claims.{set_peer_maj23-Follows}

pub data Call : Type 0 where
  adds : Vote → Call
  claims : Bytes → BlockId → Call

abbrev pub step : Crypto → VoteSet → Call → Outcome VoteSet
step c vs (adds vote) = add_vote c vs (some vote) >>= λ r. done r.state
step c vs (claims peer block_id) = done (set_peer_maj23 vs peer block_id).0

unfoldable pub run : Crypto → VoteSet → List Call → Outcome VoteSet
run c vs [] = done vs
run c vs (call ∷ calls) = step c vs call >>= λ vs'. run c vs' calls

-- Every vote that is added has a valid block ID, as ValidateBasic of its message has checked.
abbrev pub AllValidated : List Call → Type 0
AllValidated [] = Unit
AllValidated (adds vote ∷ calls) =
    (BlockId.validate_basic vote.block_id ≡ true) × AllValidated calls
AllValidated (claims peer block_id ∷ calls) = AllValidated calls

Follows-trans :
    {c : Crypto} {vs ws us : VoteSet} → Follows c vs ws → Follows c ws us → Follows c vs us
Follows-trans f g = record {
  valid = g.valid;
  same_frame = g.same_frame ∙ f.same_frame;
  stable = λ b e. g.stable b (f.stable b e);
}

-- Any sequence of votes with valid block IDs and of peers' claims is handled without a panic, and
-- keeps the invariant, the step and a majority once it is there.
pub run-Follows :
    (c : Crypto) (vs : VoteSet) (calls : List Call)
    → IsValid c vs
    → AllValidated calls
    → (vs' : VoteSet) × (run c vs calls ≡ done vs') × Follows c vs vs'
unfolding run
run-Follows c vs [] v h = (vs, refl, record { valid = v; same_frame = refl; stable = λ b e. e })
run-Follows c vs (adds vote ∷ calls) v h =
    let (r, e, a) = add_vote-IsAddition c vs v vote h.0 in
    let (vs', e', f) = run-Follows c r.state calls a.follows.valid h.1 in
    (vs', rw e e', Follows-trans a.follows f)
run-Follows c vs (claims peer block_id ∷ calls) v h =
    let g = set_peer_maj23-Follows c vs v peer block_id in
    let (vs', e', f) = run-Follows c (set_peer_maj23 vs peer block_id).0 calls g.valid h in
    (vs', e', Follows-trans g f)
