-- ===== src/Types/Proposal.antt =====
-- types/proposal.go and types/canonical.go: proposals and their sign bytes.
use totally_not_a_fork_of_ce.Prelude.{ℕ, Option}
use totally_not_a_fork_of_ce.Prelude.Bytes.{Bytes}
use totally_not_a_fork_of_ce.Prelude.Int.{ℤ}
use totally_not_a_fork_of_ce.Prelude.Outcome.{Outcome, done, ◌>>=◌}
use totally_not_a_fork_of_ce.Types.BlockId.{BlockId}
use totally_not_a_fork_of_ce.Types.Vote.{SignedMsgType, proposal, canonicalize_block_id}

pub record Proposal : Type 0 where
  pub type : SignedMsgType
  pub height : ℤ
  pub round : ℤ
  pub pol_round : ℤ
  pub block_id : BlockId
  pub timestamp : ℕ
  pub signature : Bytes

pub record CanonicalProposal : Type 0 where
  pub type : SignedMsgType
  pub height : ℤ
  pub round : ℤ
  pub pol_round : ℤ
  pub block_id : Option BlockId
  pub timestamp : ℕ
  pub chain_id : Bytes

unfoldable pub canonicalize_proposal : Bytes → Proposal → Outcome CanonicalProposal
canonicalize_proposal chain_id p = do
  b ← canonicalize_block_id p.block_id
  done (record {
    type = proposal;
    height = p.height;
    round = p.round;
    pol_round = p.pol_round;
    block_id = b;
    timestamp = p.timestamp;
    chain_id = chain_id;
  })

-- ProposalSignBytes; `marshal` is MarshalDelimited of the protobuf library.
unfoldable pub proposal_sign_bytes : (CanonicalProposal → Bytes) → Bytes → Proposal → Outcome Bytes
proposal_sign_bytes marshal chain_id p = do pb ← canonicalize_proposal chain_id p; done (marshal pb)
