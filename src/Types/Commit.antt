-- ===== src/Types/Commit.antt =====
-- types/block.go: CommitSig and Commit; types/vote.go (CommitSig) and types/vote_set.go
-- (MakeCommit), which make them from votes.
pub mod RoundTrip
mod Tests
use totally_not_a_fork_of_ce.Prelude.{
  ℕ, suc, Bool, true, false, List, [], ◌∷◌, Option, none, some, not, ◌&&◌, ltb, ◌==◌, if◌then◌else◌,
  get_elem?, length,
}
use totally_not_a_fork_of_ce.Prelude.Bytes.{Bytes}
use totally_not_a_fork_of_ce.Prelude.Int.{ℤ, pos, ltb_ℤ, leb_ℤ}
use totally_not_a_fork_of_ce.Prelude.Outcome.{Outcome, done, panic, ◌>>=◌, or_panic}
use totally_not_a_fork_of_ce.Types.BlockId
use totally_not_a_fork_of_ce.Types.BlockId.{BlockId, nil_block_id}
use totally_not_a_fork_of_ce.Types.ValidatorSet.{ValidatorSet}
use totally_not_a_fork_of_ce.Types.Vote
use totally_not_a_fork_of_ce.Types.Vote.{Vote, precommit, Crypto, type_eq}
use totally_not_a_fork_of_ce.Types.VoteSet
use totally_not_a_fork_of_ce.Types.VoteSet.{VoteSet, add_vote, Added}

-- `unknown` stands for the bytes that no constant names.
pub data BlockIdFlag : Type 0 where
  absent commit nil unknown : BlockIdFlag

pub record CommitSig : Type 0 where
  pub block_id_flag : BlockIdFlag
  pub validator_address : Bytes
  pub timestamp : ℕ
  pub signature : Bytes

-- NewCommitSigAbsent
abbrev pub absent_sig : CommitSig
absent_sig = record {
  block_id_flag = absent;
  validator_address = [];
  timestamp = 0;
  signature = [];
}

abbrev flag_is_commit : BlockIdFlag → Bool
flag_is_commit commit = true
flag_is_commit _ = false

abbrev flag_is_absent : BlockIdFlag → Bool
flag_is_absent absent = true
flag_is_absent _ = false

unfoldable pub for_block : CommitSig → Bool
for_block cs = flag_is_commit cs.block_id_flag

unfoldable pub is_absent : CommitSig → Bool
is_absent cs = flag_is_absent cs.block_id_flag

abbrev pub block_id_of : BlockIdFlag → BlockId → Outcome BlockId
block_id_of absent b = done nil_block_id
block_id_of commit b = done b
block_id_of nil b = done nil_block_id
block_id_of unknown b = panic

-- CommitSig.BlockID
unfoldable pub sig_block_id : CommitSig → BlockId → Outcome BlockId
sig_block_id cs b = block_id_of cs.block_id_flag b

-- MaxSignatureSize and crypto.AddressSize
abbrev pub max_signature_size : ℕ
max_signature_size = 64

abbrev pub address_size : ℕ
address_size = 20

abbrev valid_for : BlockIdFlag → CommitSig → Bool
valid_for unknown cs = false
valid_for absent cs =
    length cs.validator_address == 0 && cs.timestamp == 0 && length cs.signature == 0
valid_for _ cs =
    length cs.validator_address == address_size
    && not (length cs.signature == 0)
    && not (ltb max_signature_size (length cs.signature))

-- CommitSig.ValidateBasic: false stands for the error.
unfoldable pub sig_validate_basic : CommitSig → Bool
sig_validate_basic cs = valid_for cs.block_id_flag cs

pub record Commit : Type 0 where
  pub height : ℤ
  pub round : ℤ
  pub block_id : BlockId
  pub signatures : List CommitSig

unfoldable pub all_valid : List CommitSig → Bool
unfolding sig_validate_basic
all_valid [] = true
all_valid (cs ∷ rest) = sig_validate_basic cs && all_valid rest

-- Commit.ValidateBasic: false stands for the error.
unfoldable pub validate_basic : Commit → Bool
unfolding all_valid BlockId.is_zero
validate_basic c =
    if ltb_ℤ c.height (pos 0)
    then false
    else if ltb_ℤ c.round (pos 0)
    then false
    else if leb_ℤ (pos 1) c.height
    then not (BlockId.is_zero c.block_id)
      && not (length c.signatures == 0)
      && all_valid c.signatures
    else true

-- The vote that a signature at index `i` of a commit stands for.
unfoldable pub vote_of : Commit → ℕ → CommitSig → Outcome Vote
unfolding sig_block_id
vote_of c i cs = do
  b ← sig_block_id cs c.block_id
  done (record {
    type = precommit;
    height = c.height;
    round = c.round;
    block_id = b;
    timestamp = cs.timestamp;
    validator_address = cs.validator_address;
    validator_index = pos i;
    signature = cs.signature;
  })

-- GetVote
unfoldable pub get_vote : Commit → ℕ → Outcome Vote
unfolding vote_of
get_vote c i = do cs ← or_panic (get_elem? c.signatures i); vote_of c i cs

-- VoteSignBytes
unfoldable pub vote_sign_bytes : Crypto → Bytes → Commit → ℕ → Outcome Bytes
unfolding get_vote
vote_sign_bytes k chain_id c i = do v ← get_vote c i; Vote.vote_sign_bytes k chain_id v

abbrev sig_of : BlockIdFlag → Vote → CommitSig
sig_of flag v = record {
  block_id_flag = flag;
  validator_address = v.validator_address;
  timestamp = v.timestamp;
  signature = v.signature;
}

-- Vote.CommitSig
unfoldable pub commit_sig : Option Vote → Outcome CommitSig
commit_sig none = done absent_sig
commit_sig (some v) =
    if BlockId.is_complete v.block_id
    then done (sig_of commit v)
    else if BlockId.is_zero v.block_id
    then done (sig_of nil v)
    else panic

-- One round of the loop of MakeCommit: a vote for another block counts as absent.
unfoldable pub make_sig : BlockId → Option Vote → Outcome CommitSig
unfolding commit_sig for_block
make_sig maj23 none = commit_sig none
make_sig maj23 (some v) = do
  cs ← commit_sig (some v)
  done (if for_block cs && not (BlockId.equals v.block_id maj23) then absent_sig else cs)

unfoldable pub make_sigs : BlockId → List (Option Vote) → Outcome (List CommitSig)
unfolding make_sig
make_sigs maj23 [] = done []
make_sigs maj23 (v ∷ votes) = do
  cs ← make_sig maj23 v
  rest ← make_sigs maj23 votes
  done (cs ∷ rest)

-- MakeCommit
unfoldable pub make_commit : VoteSet → Outcome Commit
unfolding make_sigs
make_commit vs = if not (type_eq vs.signed_msg_type precommit) then panic else do
  maj23 ← or_panic vs.maj23
  sigs ← make_sigs maj23 vs.votes
  done (record { height = vs.height; round = vs.round; block_id = maj23; signatures = sigs })

-- A vote that is not added, or is added with an error, panics.
abbrev must_add : Added → Outcome VoteSet
must_add r = if r.added then (elim r.error [ none ↦ done r.state | some e ↦ panic ]) else panic

-- The loop of CommitToVoteSet, from index `i` on.
unfoldable pub add_sigs : Crypto → Commit → ℕ → List CommitSig → VoteSet → Outcome VoteSet
unfolding is_absent vote_of
add_sigs k c i [] vs = done vs
add_sigs k c i (cs ∷ rest) vs =
    let added = vote_of c i cs >>= λ v. add_vote k vs (some v) >>= must_add in
    (if is_absent cs then done vs else added) >>= add_sigs k c (suc i) rest

-- CommitToVoteSet
unfoldable pub commit_to_vote_set : Crypto → Bytes → Commit → ValidatorSet → Outcome VoteSet
unfolding add_sigs
commit_to_vote_set k chain_id c vals = do
  vs ← VoteSet.new chain_id c.height c.round precommit vals
  add_sigs k c 0 c.signatures vs
