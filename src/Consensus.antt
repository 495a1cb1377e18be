-- ===== src/Consensus.antt =====
-- The consensus component, internal/consensus.
pub mod HeightVoteSet
pub mod Sample
pub mod RoundStep
pub mod State
