-- ===== src/Types/VoteSet.antt =====
-- types/vote_set.go: VoteSet. The mutex only serialises the calls; a call returns the new set.

pub mod Power
pub mod Slices
pub mod Valid
pub mod Add
pub mod AddVote
pub mod Claims
pub mod Majority
pub mod History
pub mod Sample
mod Tests
use totally_not_a_fork_of_ce.Prelude.{
  ℕ, ◌+◌, ◌*◌, ◌/◌, Bool, true, false, List, [], ◌∷◌, Option, none, some, not, ◌&&◌, ◌||◌, ltb, leb,
  ◌==◌, if◌then◌else◌, length, get_elem?, set, replicate,
}
use totally_not_a_fork_of_ce.Prelude.Int.{ℤ, pos, negsuc, ◌==ℤ◌}
use totally_not_a_fork_of_ce.Prelude.Bytes.{Bytes, bytes_equal, bytes_eq}
use totally_not_a_fork_of_ce.Prelude.Maps.{Map, insert}
use totally_not_a_fork_of_ce.Prelude.Outcome.{Outcome, done, panic, ◌>>=◌, or_panic}
use totally_not_a_fork_of_ce.Types.BlockId
use totally_not_a_fork_of_ce.Types.BlockId.{BlockId}
use totally_not_a_fork_of_ce.Types.BlockVotes
use totally_not_a_fork_of_ce.Types.BlockVotes.{BlockVotes, at_index}
use totally_not_a_fork_of_ce.Types.ValidatorSet
use totally_not_a_fork_of_ce.Types.ValidatorSet.{ValidatorSet, Validator, total_voting_power}
use totally_not_a_fork_of_ce.Types.Vote
use totally_not_a_fork_of_ce.Types.Vote.{
  Vote, SignedMsgType, precommit, type_eq, Crypto, VoteError, unexpected_step,
  invalid_validator_index, invalid_validator_address, non_deterministic_signature, nil_vote,
  conflicting_votes,
}

pub record VoteSet : Type 0 where
  pub chain_id : Bytes
  pub height : ℤ
  pub round : ℤ
  pub signed_msg_type : SignedMsgType
  pub val_set : ValidatorSet
  pub votes_bit_array : List Bool
  pub votes : List (Option Vote)
  pub sum : ℕ
  pub maj23 : Option BlockId
  pub votes_by_block : Map Bytes BlockVotes
  pub peer_maj23s : Map Bytes BlockId

-- Height 0 panics.
unfoldable pub new : Bytes → ℤ → ℤ → SignedMsgType → ValidatorSet → Outcome VoteSet
new chain_id height round type val_set =
    if height ==ℤ pos 0
    then panic
    else done (record {
      chain_id = chain_id;
      height = height;
      round = round;
      signed_msg_type = type;
      val_set = val_set;
      votes_bit_array = replicate (ValidatorSet.size val_set) false;
      votes = replicate (ValidatorSet.size val_set) none;
      sum = 0;
      maj23 = none;
      votes_by_block = λ _. none;
      peer_maj23s = λ _. none;
    })

-- The canonical vote if it is for the block, else the other.
unfoldable pub canonical_or : Option Vote → Bytes → Outcome (Option Vote) → Outcome (Option Vote)
canonical_or none key other = other
canonical_or (some existing) key other =
    if bytes_equal (BlockId.key existing.block_id) key then done (some existing) else other

-- Prefers the canonical vote, then the one kept for the block.
unfoldable pub get_vote : VoteSet → ℕ → Bytes → Outcome (Option Vote)
unfolding canonical_or BlockVotes.get_by_index
get_vote vs i key = do
  canonical ← or_panic (get_elem? vs.votes i)
  canonical_or canonical key (BlockVotes.get_by_index (vs.votes_by_block key) i)

-- voteSet.maj23 != nil && voteSet.maj23.Key() == blockKey
abbrev pub has_key : Option BlockId → Bytes → Bool
has_key none key = false
has_key (some b) key = bytes_equal (BlockId.key b) key

-- The first part of addVerifiedVote: the canonical votes, and the conflicting vote if any.
unfoldable pub place :
    VoteSet → ℕ → Vote → Bytes → ℕ → Option Vote → Outcome (VoteSet × Option Vote)
place vs i vote key power (some existing) =
    if BlockId.equals existing.block_id vote.block_id
    then panic
    else done (
      if has_key vs.maj23 key
          then record vs {
            votes = set vs.votes i (some vote);
            votes_bit_array = set vs.votes_bit_array i true;
          }
          else vs,
      some existing,
    )
place vs i vote key power none = done (
  record vs {
    votes = set vs.votes i (some vote);
    votes_bit_array = set vs.votes_bit_array i true;
    sum = vs.sum + power;
  },
  none,
)

-- The votes for the block if the vote is to be added to them, else `none`: a conflicting vote is
-- only kept for a block that a peer claims to have a majority.
unfoldable pub track : VoteSet → Bytes → Bool → Option BlockVotes
track vs key conflicts = elim (vs.votes_by_block key) [
  | some bv ↦ if conflicts && not bv.peer_maj23 then none else some bv
  | none ↦ if conflicts then none else some (BlockVotes.new false (ValidatorSet.size vs.val_set))
]

-- for i, vote := range votesByBlock.votes { if vote != nil { voteSet.votes[i] = vote } }
-- Both lists have an entry for each validator.
unfoldable pub copy_over : List (Option Vote) → List (Option Vote) → List (Option Vote)
copy_over (some v ∷ source) (x ∷ votes) = some v ∷ copy_over source votes
copy_over (none ∷ source) (x ∷ votes) = x ∷ copy_over source votes
copy_over _ votes = votes

-- TotalVotingPower()*2/3 + 1
abbrev pub quorum_of : ℕ → ℕ
quorum_of total = total * 2 / 3 + 1

-- After the vote was added to those for its block: the first quorum becomes the majority.
unfoldable pub promote : VoteSet → BlockId → ℕ → ℕ → BlockVotes → VoteSet
unfolding copy_over
promote vs block_id orig_sum quorum bv =
    if ltb orig_sum quorum && leb quorum bv.sum
    then (elim vs.maj23 [
      | some b ↦ vs
      | none ↦ record vs { maj23 = some block_id; votes = copy_over bv.votes vs.votes }
    ])
    else vs

-- The last part of addVerifiedVote, for a block whose votes are tracked.
unfoldable pub count : VoteSet → Vote → Bytes → ℕ → BlockVotes → Outcome VoteSet
unfolding promote BlockVotes.add_verified_vote
count vs vote key power bv = do
  total ← total_voting_power vs.val_set
  bv' ← BlockVotes.add_verified_vote bv vote power
  let vs' = record vs { votes_by_block = insert key bv' vs.votes_by_block }
  done (promote vs' vote.block_id bv.sum (quorum_of total) bv')

abbrev pub is_some {ℓ} : {A : Type ℓ} → Option A → Bool
is_some none = false
is_some (some a) = true

-- The vote is counted if its block is tracked.
unfoldable pub finish :
    VoteSet
    → Vote
    → Bytes
    → ℕ
    → Option Vote
    → Option BlockVotes
    → Outcome (VoteSet × Bool × Option Vote)
unfolding count
finish vs vote key power conflicting none = done (vs, false, conflicting)
finish vs vote key power conflicting (some bv) =
    count vs vote key power bv >>= λ vs'. done (vs', true, conflicting)

-- The new set, whether the vote was added, and a conflicting vote.
unfoldable pub add_verified_vote :
    VoteSet → Vote → Bytes → ℕ → Outcome (VoteSet × Bool × Option Vote)
add_verified_vote vs vote key power = do
  i ← at_index vote.validator_index
  existing ← or_panic (get_elem? vs.votes i)
  placed ← place vs i vote key power existing
  finish placed.0 vote key power placed.1 (track placed.0 key (is_some placed.1))

pub record Added : Type 0 where
  pub state : VoteSet
  pub added : Bool
  pub error : Option VoteError

abbrev pub refuse : VoteSet → VoteError → Outcome Added
refuse vs e = done (record { state = vs; added = false; error = some e })

-- The height, round and type of the vote are those of the set.
unfoldable pub same_step : VoteSet → Vote → Bool
same_step vs vote =
    vote.height ==ℤ vs.height && vote.round ==ℤ vs.round && type_eq vote.type vs.signed_msg_type

-- The end of addVote.
unfoldable pub report : Vote → VoteSet → Bool → Option Vote → Outcome Added
report vote vs added (some conflicting) =
    done (record { state = vs; added = added; error = some (conflicting_votes conflicting vote) })
report vote vs true none = done (record { state = vs; added = true; error = none })
report vote vs false none = panic

module _ (c : Crypto) where
  -- addVote from the signature on, for a vote that is not known yet.
  unfoldable pub add_new_vote : VoteSet → Vote → Validator → Outcome Added
  add_new_vote vs vote val = do
    bad ← Vote.verify c vs.chain_id vote val.pub_key
    elim bad [
      | some e ↦ refuse vs e
      | none ↦ add_verified_vote vs vote (BlockId.key vote.block_id) val.voting_power >>= λ r.
          report vote r.0 r.1 r.2
    ]

  -- addVote from the lookup of a known vote on.
  unfoldable pub add_if_new : VoteSet → Vote → Validator → Option Vote → Outcome Added
  add_if_new vs vote val none = add_new_vote vs vote val
  add_if_new vs vote val (some existing) =
      if bytes_equal existing.signature vote.signature
      then done (record { state = vs; added = false; error = none })
      else refuse vs non_deterministic_signature

  -- addVote from the lookup of the validator on.
  unfoldable pub add_vote_of : VoteSet → Vote → ℕ → Validator → Outcome Added
  add_vote_of vs vote i val =
      if not (bytes_equal vote.validator_address val.address)
      then refuse vs invalid_validator_address
      else get_vote vs i (BlockId.key vote.block_id) >>= add_if_new vs vote val

  -- addVote from the lookup by index on: `none` is no validator.
  unfoldable pub add_vote_by : VoteSet → Vote → ℕ → Option Validator → Outcome Added
  add_vote_by vs vote i none = refuse vs invalid_validator_index
  add_vote_by vs vote i (some val) = add_vote_of vs vote i val

  -- addVote from the test of the index on.
  unfoldable pub add_vote_at : VoteSet → Vote → ℤ → Outcome Added
  unfolding add_vote_by
  add_vote_at vs vote (negsuc _) = refuse vs invalid_validator_index
  add_vote_at vs vote (pos i) =
      if length vote.validator_address == 0
      then refuse vs invalid_validator_address
      else if not (same_step vs vote)
      then refuse vs unexpected_step
      else add_vote_by vs vote i (ValidatorSet.get_by_index vs.val_set (pos i))

  -- addVote; AddVote takes the lock around it.
  unfoldable pub add_vote : VoteSet → Option Vote → Outcome Added
  unfolding add_vote_at
  add_vote vs none = refuse vs nil_vote
  add_vote vs (some vote) = add_vote_at vs vote vote.validator_index

-- SetPeerMaj23; the Boolean is true for the error of a second, other claim.
unfoldable pub set_peer_maj23 : VoteSet → Bytes → BlockId → VoteSet × Bool
set_peer_maj23 vs peer block_id =
    let key = BlockId.key block_id in
    let claimed = record vs { peer_maj23s = insert peer block_id vs.peer_maj23s } in
    elim (vs.peer_maj23s peer) [
      | some existing ↦ (vs, not (BlockId.equals existing block_id))
      | none ↦ elim (vs.votes_by_block key) [
        | some bv ↦ (
          if bv.peer_maj23 then claimed else record claimed {
            votes_by_block = insert key (record bv { peer_maj23 = true }) vs.votes_by_block;
          },
          false,
        )
        | none ↦ (
          record claimed {
            votes_by_block =
                insert key (BlockVotes.new true (ValidatorSet.size vs.val_set)) vs.votes_by_block;
          },
          false,
        )
      ]
    ]

-- GetByIndex
unfoldable pub get_by_index : VoteSet → ℤ → Outcome (Option Vote)
get_by_index vs index = do i ← at_index index; or_panic (get_elem? vs.votes i)

-- GetByAddress
unfoldable pub get_by_address : VoteSet → Bytes → Outcome (Option Vote)
get_by_address vs address = do
  found ← or_panic (ValidatorSet.get_by_address vs.val_set address)
  or_panic (get_elem? vs.votes found.0)

unfoldable pub has_two_thirds_majority : VoteSet → Bool
has_two_thirds_majority vs = is_some vs.maj23

unfoldable pub is_commit : VoteSet → Bool
is_commit vs = type_eq vs.signed_msg_type precommit && is_some vs.maj23

unfoldable pub has_two_thirds_any : VoteSet → Outcome Bool
has_two_thirds_any vs = do total ← total_voting_power vs.val_set; done (ltb (total * 2 / 3) vs.sum)

unfoldable pub has_all : VoteSet → Outcome Bool
has_all vs = do total ← total_voting_power vs.val_set; done (vs.sum == total)

-- `none` for (BlockID{}, false).
unfoldable pub two_thirds_majority : VoteSet → Option BlockId
two_thirds_majority vs = vs.maj23

-- BitArrayByBlockID
unfoldable pub bit_array_by_block_id : VoteSet → BlockId → Option (List Bool)
bit_array_by_block_id vs block_id = elim (vs.votes_by_block (BlockId.key block_id)) [
  | some bv ↦ some bv.bit_array
  | none ↦ none
]
