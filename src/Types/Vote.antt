-- ===== src/Types/Vote.antt =====
-- types/vote.go, types/canonical.go and types/signed_msg_type.go.
use totally_not_a_fork_of_ce.Prelude.{
  ℕ, ◌≡◌, ◌↔◌, Bool, true, false, Option, none, some, not, arith, if◌then◌else◌, Bool-cases, refl,
  inl, inr,
}
use totally_not_a_fork_of_ce.Prelude.Bytes.{Bytes, bytes_equal}
use totally_not_a_fork_of_ce.Prelude.Int.{ℤ}
use totally_not_a_fork_of_ce.Prelude.Outcome.{Outcome, done, panic, ◌>>=◌}
use totally_not_a_fork_of_ce.Types.BlockId
use totally_not_a_fork_of_ce.Types.BlockId.{BlockId}

pub data SignedMsgType : Type 0 where
  unknown prevote precommit proposal : SignedMsgType

unfoldable pub type_eq : SignedMsgType → SignedMsgType → Bool
type_eq unknown unknown = true
type_eq prevote prevote = true
type_eq precommit precommit = true
type_eq proposal proposal = true
type_eq _ _ = false

pub type_eq_iff : (a b : SignedMsgType) → (type_eq a b ≡ true) ↔ (a ≡ b)
unfolding type_eq
type_eq_iff a b = ground arith

unfoldable pub is_vote_type_valid : SignedMsgType → Bool
is_vote_type_valid prevote = true
is_vote_type_valid precommit = true
is_vote_type_valid _ = false

-- Times are nanoseconds since the zero `time.Time`.
pub record Vote : Type 0 where
  pub type : SignedMsgType
  pub height : ℤ
  pub round : ℤ
  pub block_id : BlockId
  pub timestamp : ℕ
  pub validator_address : Bytes
  pub validator_index : ℤ
  pub signature : Bytes

-- `none` for the nil CanonicalBlockID.
pub record CanonicalVote : Type 0 where
  pub type : SignedMsgType
  pub height : ℤ
  pub round : ℤ
  pub block_id : Option BlockId
  pub timestamp : ℕ
  pub chain_id : Bytes

-- What the code takes from the signature schemes and from the protobuf library: the address of a
-- public key, the verification of a signature, and MarshalDelimited of a canonical vote.
-- The encoder does not fail, as timestamps are times that protobuf encodes.
pub record Crypto : Type 0 where
  pub address : Bytes → Bytes
  pub verify_signature : Bytes → Bytes → Bytes → Bool
  pub marshal_delimited : CanonicalVote → Bytes

-- BlockIDFromProto validates the ID, and its error panics here.
unfoldable pub canonicalize_block_id : BlockId → Outcome (Option BlockId)
canonicalize_block_id b =
    if not (BlockId.validate_basic b)
    then panic
    else done (if BlockId.is_zero b then none else some b)

unfoldable pub canonicalize_vote : Bytes → Vote → Outcome CanonicalVote
canonicalize_vote chain_id v = do
  b ← canonicalize_block_id v.block_id
  done (record {
    type = v.type;
    height = v.height;
    round = v.round;
    block_id = b;
    timestamp = v.timestamp;
    chain_id = chain_id;
  })

pub data VoteError : Type 0 where
  unexpected_step invalid_validator_index invalid_validator_address : VoteError
  invalid_signature non_deterministic_signature nil_vote unwanted_round : VoteError
  conflicting_votes : Vote → Vote → VoteError

module _ (c : Crypto) where
  -- VoteSignBytes, less the panic on an error of the encoder.
  unfoldable pub vote_sign_bytes : Bytes → Vote → Outcome Bytes
  vote_sign_bytes chain_id v = do pb ← canonicalize_vote chain_id v; done (c.marshal_delimited pb)

  -- Vote.Verify: `none` for a nil error.
  unfoldable pub verify : Bytes → Vote → Bytes → Outcome (Option VoteError)
  verify chain_id v pub_key =
      if not (bytes_equal (c.address pub_key) v.validator_address)
      then done (some invalid_validator_address)
      else (do
        bz ← vote_sign_bytes chain_id v
        done (
            if not (c.verify_signature pub_key bz v.signature)
            then some invalid_signature
            else none))

  pub vote_sign_bytes_total :
      (chain_id : Bytes) (v : Vote)
      → BlockId.validate_basic v.block_id ≡ true
      → (bz : Bytes) × (vote_sign_bytes chain_id v ≡ done bz)
  unfolding vote_sign_bytes canonicalize_vote canonicalize_block_id
  vote_sign_bytes_total chain_id v h = rw h (_, refl)

  -- A vote with a valid block ID is verified without a panic.
  pub verify_total :
      (chain_id : Bytes) (v : Vote) (pub_key : Bytes)
      → BlockId.validate_basic v.block_id ≡ true
      → (e : Option VoteError) × (verify chain_id v pub_key ≡ done e)
  unfolding verify
  verify_total chain_id v pub_key h =
      let (bz, e) = vote_sign_bytes_total chain_id v h in
      elim (Bool-cases (bytes_equal (c.address pub_key) v.validator_address)) [
        | inl hit ↦ rw (hit, e) (_, refl)
        | inr miss ↦ rw miss (_, refl)
      ]
