-- ===== src/Types.antt =====
-- The package types/: block IDs, votes, validator sets, vote sets, commits and their verification.
pub mod PartSetHeader
pub mod BlockId
pub mod Vote
pub mod Proposal
pub mod ValidatorSet
pub mod BlockVotes
pub mod Sample
pub mod VoteSet
pub mod Commit
pub mod Header
pub mod Validation
