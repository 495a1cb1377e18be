-- ===== src/Privval/Toy.antt =====
-- A signature scheme and an encoding for the runs of the private validator: concrete functions that
-- do what the libraries document.
use totally_not_a_fork_of_ce.Prelude.{
  ℕ, zero, suc, ◌≡◌, refl, sym, ◌∙◌, ap, [], ◌∷◌, ◌++◌, length, take, drop, Option, none, some,
}
use totally_not_a_fork_of_ce.Prelude.Bytes.{Bytes, bytes_equal, bytes_equal_iff}
use totally_not_a_fork_of_ce.Prelude.Int.{ℤ, pos, negsuc}
use totally_not_a_fork_of_ce.Types.BlockId.{BlockId}
use totally_not_a_fork_of_ce.Types.Vote.{
  CanonicalVote, Crypto, SignedMsgType, unknown, prevote, precommit, proposal,
}
use totally_not_a_fork_of_ce.Types.Proposal.{CanonicalProposal}
use totally_not_a_fork_of_ce.Privval.{Codec}
use totally_not_a_fork_of_ce.Privval.Kinds.{IsFaithful}

abbrev type_code : SignedMsgType → ℕ
type_code unknown = 0
type_code prevote = 1
type_code precommit = 2
type_code proposal = 3

abbrev type_of : ℕ → SignedMsgType
type_of zero = unknown
type_of (suc zero) = prevote
type_of (suc (suc zero)) = precommit
type_of _ = proposal

abbrev sign_of : ℤ → ℕ
sign_of (pos n) = 0
sign_of (negsuc n) = 1

abbrev size_of : ℤ → ℕ
size_of (pos n) = n
size_of (negsuc n) = n

abbrev int_of : ℕ → ℕ → ℤ
int_of zero n = pos n
int_of _ n = negsuc n

type_code-back : (t : SignedMsgType) → type_of (type_code t) ≡ t
type_code-back unknown = refl
type_code-back prevote = refl
type_code-back precommit = refl
type_code-back proposal = refl

int_back : (i : ℤ) → int_of (sign_of i) (size_of i) ≡ i
int_back (pos n) = refl
int_back (negsuc n) = refl

take-length_append : (xs ys : Bytes) → take (length xs) (xs ++ ys) ≡ xs
take-length_append [] ys = refl
take-length_append (x ∷ xs) ys = ap (λ t. x ∷ t) (take-length_append xs ys)

drop-length_append : (xs ys : Bytes) → drop (length xs) (xs ++ ys) ≡ ys
drop-length_append [] ys = refl
drop-length_append (x ∷ xs) ys = drop-length_append xs ys

abbrev block_bytes : Option BlockId → Bytes → Bytes
block_bytes none rest = 0 ∷ rest
block_bytes (some b) rest =
    1 ∷ length b.hash ∷ (b.hash ++ (b.parts.total ∷ length b.parts.hash ∷ (b.parts.hash ++ rest)))

abbrev parts_of : Bytes → Bytes → Option (Option BlockId × Bytes)
parts_of hash (total ∷ n ∷ rest) = some (
  some (record { hash = hash; parts = record { total = total; hash = take n rest } }),
  drop n rest,
)
parts_of hash _ = none

abbrev block_of : Bytes → Option (Option BlockId × Bytes)
block_of (zero ∷ rest) = some (none, rest)
block_of (_ ∷ n ∷ rest) = parts_of (take n rest) (drop n rest)
block_of _ = none

block_back : (b : Option BlockId) (rest : Bytes) → block_of (block_bytes b rest) ≡ some (b, rest)
block_back none rest = refl
block_back (some b) rest =
    rw
      (
        take-length_append b.hash (b.parts.total ∷ length b.parts.hash ∷ (b.parts.hash ++ rest)),
        drop-length_append b.hash (b.parts.total ∷ length b.parts.hash ∷ (b.parts.hash ++ rest)),
        take-length_append b.parts.hash rest,
        drop-length_append b.parts.hash rest,
      )
      refl

abbrev make_vote : ℕ → ℕ → ℕ → ℕ → ℕ → ℕ → Option (Option BlockId × Bytes) → Option CanonicalVote
make_vote t s h u r time none = none
make_vote t s h u r time (some (b, chain_id)) = some (record {
  type = type_of t;
  height = int_of s h;
  round = int_of u r;
  block_id = b;
  timestamp = time;
  chain_id = chain_id;
})

abbrev vote_bytes : CanonicalVote → Bytes
vote_bytes v =
    type_code v.type
    ∷ sign_of v.height
    ∷ size_of v.height
    ∷ sign_of v.round
    ∷ size_of v.round
    ∷ v.timestamp
    ∷ block_bytes v.block_id v.chain_id

abbrev read_vote : Bytes → Option CanonicalVote
read_vote (t ∷ s ∷ h ∷ u ∷ r ∷ time ∷ rest) = make_vote t s h u r time (block_of rest)
read_vote _ = none

abbrev make_proposal :
    ℕ → ℕ → ℕ → ℕ → ℕ → ℕ → ℕ → ℕ → Option (Option BlockId × Bytes) → Option CanonicalProposal
make_proposal t s h u r q p time none = none
make_proposal t s h u r q p time (some (b, chain_id)) = some (record {
  type = type_of t;
  height = int_of s h;
  round = int_of u r;
  pol_round = int_of q p;
  block_id = b;
  timestamp = time;
  chain_id = chain_id;
})

abbrev proposal_bytes : CanonicalProposal → Bytes
proposal_bytes v =
    type_code v.type
    ∷ sign_of v.height
    ∷ size_of v.height
    ∷ sign_of v.round
    ∷ size_of v.round
    ∷ sign_of v.pol_round
    ∷ size_of v.pol_round
    ∷ v.timestamp
    ∷ block_bytes v.block_id v.chain_id

abbrev read_proposal : Bytes → Option CanonicalProposal
read_proposal (t ∷ s ∷ h ∷ u ∷ r ∷ q ∷ p ∷ time ∷ rest) =
    make_proposal t s h u r q p time (block_of rest)
read_proposal _ = none

vote_back : (v : CanonicalVote) → read_vote (vote_bytes v) ≡ some v
vote_back v =
    rw
      (block_back v.block_id v.chain_id, type_code-back v.type, int_back v.height, int_back v.round)
      refl

proposal_back : (v : CanonicalProposal) → read_proposal (proposal_bytes v) ≡ some v
proposal_back v =
    rw
      (
        block_back v.block_id v.chain_id,
        type_code-back v.type,
        int_back v.height,
        int_back v.round,
        int_back v.pol_round,
      )
      refl

abbrev pub scheme : Crypto
scheme = record {
  address = λ k. k;
  verify_signature = λ k m s. bytes_equal s k;
  marshal_delimited = vote_bytes;
}

abbrev pub codec : Codec
codec = record {
  unmarshal_vote = read_vote;
  equal_votes = λ a b. bytes_equal (vote_bytes a) (vote_bytes b);
  marshal_proposal = proposal_bytes;
  unmarshal_proposal = read_proposal;
  equal_proposals = λ a b. bytes_equal (proposal_bytes a) (proposal_bytes b);
}

abbrev or_vote : CanonicalVote → Option CanonicalVote → CanonicalVote
or_vote d none = d
or_vote d (some v) = v

abbrev or_proposal : CanonicalProposal → Option CanonicalProposal → CanonicalProposal
or_proposal d none = d
or_proposal d (some v) = v

pub codec-IsFaithful : IsFaithful scheme codec
codec-IsFaithful = record {
  vote = vote_back;
  same_votes = λ a b h. ap (or_vote a) (
      sym (vote_back a)
      ∙ ap read_vote ((bytes_equal_iff (vote_bytes a) (vote_bytes b)).0 h)
      ∙ vote_back b);
  proposal = proposal_back;
  same_proposals = λ a b h. ap (or_proposal a) (
      sym (proposal_back a)
      ∙ ap read_proposal ((bytes_equal_iff (proposal_bytes a) (proposal_bytes b)).0 h)
      ∙ proposal_back b);
}
