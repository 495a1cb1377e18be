-- ===== src/Types/VoteSet/Valid.antt =====
-- The invariant of a vote set, and that placing a canonical vote keeps it.
pub mod Place
pub mod Count
use totally_not_a_fork_of_ce.Prelude.{
  ℕ, ◌+◌, ◌≤◌, ◌<◌, ◌≡◌, refl, sym, ap, List, Bool, true, false, Option, none, some, arith, length,
  length-set, get_elem?, set, map, ◌⊎◌, inl, inr, ◌≢◌, ◌∙◌, Bool-cases,
}
use totally_not_a_fork_of_ce.Prelude.Bytes.{Bytes, bytes_equal_iff}
use totally_not_a_fork_of_ce.Prelude.Int.{ℤ, pos}
use totally_not_a_fork_of_ce.Prelude.Outcome.{done}
use totally_not_a_fork_of_ce.Types.BlockId
use totally_not_a_fork_of_ce.Types.BlockId.{BlockId}
use totally_not_a_fork_of_ce.Types.BlockVotes.{BlockVotes}
use totally_not_a_fork_of_ce.Types.ValidatorSet
use totally_not_a_fork_of_ce.Types.ValidatorSet.{ValidatorSet, Validator, total}
use totally_not_a_fork_of_ce.Types.Vote.{Vote, SignedMsgType, Crypto, verify}
use totally_not_a_fork_of_ce.Types.VoteSet.{VoteSet, is_some, has_key, quorum_of, place}
use totally_not_a_fork_of_ce.Types.VoteSet.Power.{
  voted, Covers, voted-set_new, voted-set_again, map-set,
}
use totally_not_a_fork_of_ce.Types.VoteSet.Slices.{
  Votes, At, At-set, At-set_self, At-set_keep, Covers-set_right,
}

-- What a vote set is for; its calls leave this alone.
pub record Frame : Type 0 where
  pub chain_id : Bytes
  pub height : ℤ
  pub round : ℤ
  pub type : SignedMsgType
  pub val_set : ValidatorSet

abbrev pub frame : VoteSet → Frame
frame vs = record {
  chain_id = vs.chain_id;
  height = vs.height;
  round = vs.round;
  type = vs.signed_msg_type;
  val_set = vs.val_set;
}

-- A vote for this height, round and type, signed by the validator of its index.
pub record IsAccepted (c : Crypto) (f : Frame) (i : ℕ) (v : Vote) : Type 0 where
  pub val : Validator
  pub height : v.height ≡ f.height
  pub round : v.round ≡ f.round
  pub type : v.type ≡ f.type
  pub index : v.validator_index ≡ pos i
  pub member : get_elem? f.val_set.validators i ≡ some val
  pub address : v.validator_address ≡ val.address
  pub verified : verify c f.chain_id v val.pub_key ≡ done none

-- The votes kept for one block, `k` its key.
pub record IsTally (c : Crypto) (f : Frame) (votes : Votes) (k : Bytes) (bv : BlockVotes)
    : Type 0 where
  pub size : length bv.votes ≡ length f.val_set.validators
  pub bits : bv.bit_array ≡ map is_some bv.votes
  pub sum : bv.sum ≡ voted f.val_set.validators bv.votes
  pub keyed : (i : ℕ) (v : Vote) → At bv.votes i v → BlockId.key v.block_id ≡ k
  pub accepted : (i : ℕ) (v : Vote) → At bv.votes i v → IsAccepted c f i v
  pub covered : Covers bv.votes votes

-- The canonical vote of who voted for the majority's block is for it.
abbrev pub Promoted : Bytes → Votes → Votes → Type 0
Promoted k xs votes =
    (i : ℕ) (v : Vote) → At xs i v → (w : Vote) × At votes i w × (BlockId.key w.block_id ≡ k)

abbrev pub quorum : Frame → ℕ
quorum f = quorum_of (total f.val_set.validators)

pub record IsMajority (vs : VoteSet) (b : BlockId) : Type 0 where
  pub bv : BlockVotes
  pub tallied : vs.votes_by_block (BlockId.key b) ≡ some bv
  pub enough : quorum (frame vs) ≤ bv.sum
  pub promoted : Promoted (BlockId.key b) bv.votes vs.votes

pub record IsValid (c : Crypto) (vs : VoteSet) : Type 0 where
  pub vals : ValidatorSet.IsValid vs.val_set
  pub size : length vs.votes ≡ length vs.val_set.validators
  pub bits : vs.votes_bit_array ≡ map is_some vs.votes
  pub sum : vs.sum ≡ voted vs.val_set.validators vs.votes
  pub accepted : (i : ℕ) (v : Vote) → At vs.votes i v → IsAccepted c (frame vs) i v
  pub tallies :
      (k : Bytes) (bv : BlockVotes)
      → vs.votes_by_block k ≡ some bv
      → IsTally c (frame vs) vs.votes k bv
  pub majority : (b : BlockId) → vs.maj23 ≡ some b → IsMajority vs b
  pub no_majority :
      vs.maj23 ≡ none
      → (k : Bytes) (bv : BlockVotes) → vs.votes_by_block k ≡ some bv
      → bv.sum < quorum (frame vs)

-- Tallies stay tallies when the canonical votes grow.
pub IsTally-covers :
    {c : Crypto} {f : Frame} {xs ys : Votes} {k : Bytes} {bv : BlockVotes}
    → IsTally c f xs k bv
    → Covers bv.votes ys
    → IsTally c f ys k bv
IsTally-covers t h = record {
  size = t.size;
  bits = t.bits;
  sum = t.sum;
  keyed = t.keyed;
  accepted = t.accepted;
  covered = h;
}
