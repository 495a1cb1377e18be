-- ===== src/Consensus/State/Final.antt =====
-- What it takes to finalize a block.
use totally_not_a_fork_of_ce.Prelude.{◌≡◌, ◌≢◌, true, none, some, ◌⊎◌, ◌∷◌, length}
use totally_not_a_fork_of_ce.Prelude.Int.{pos}
use totally_not_a_fork_of_ce.Prelude.Bytes.{Bytes}
use totally_not_a_fork_of_ce.Prelude.Outcome.{Outcome}
use totally_not_a_fork_of_ce.Types.BlockId.{BlockId}
use totally_not_a_fork_of_ce.Types.Vote.{precommit}
use totally_not_a_fork_of_ce.Types.VoteSet.{VoteSet}
use totally_not_a_fork_of_ce.Consensus.HeightVoteSet
use totally_not_a_fork_of_ce.Consensus.HeightVoteSet.{get_vote_set}
use totally_not_a_fork_of_ce.Consensus.HeightVoteSet.Valid.{Majority}
use totally_not_a_fork_of_ce.Consensus.RoundStep.{RoundStep}
use totally_not_a_fork_of_ce.Consensus.State.{
  Env, ChainState, State, Output, timeout, finalizes, hashes_to,
}

module _ {e : Env} where
  -- The block is final: the precommits of the commit round have a majority for it, and it is the
  -- proposal block, has the hash of the majority and is valid.
  pub record IsFinal (cs : State e) (b : BlockId) (block : e.Block) : Type 0 where
    pub majority : Majority cs.votes cs.commit_round precommit b
    pub proposal : cs.proposal_block ≡ some block
    pub hash : e.hash block ≡ b.hash
    pub some_hash : length b.hash ≢ 0
    pub valid : e.validate_block cs.chain block ≡ true

  -- The output is sent, and the timeout for the next height if the block was applied.
  abbrev pub SendsOnce : State e → e.Block → Output → State e → Type 0
  SendsOnce cs block o cs' =
      ((e.apply_block cs.chain block ≡ none) × (cs'.sent ≡ o ∷ cs.sent))
      ⊎ ((chain : ChainState) × (e.apply_block cs.chain block ≡ some chain)
          × (cs'.sent ≡ timeout cs'.height (pos 0) RoundStep.new_height ∷ o ∷ cs.sent))

  -- The step is that of the commit, and the proposal block is the one that the precommits of the
  -- commit round have a majority for.
  abbrev pub IsReady : State e → Type 0
  IsReady cs =
      (b : BlockId) × (cs.step ≡ RoundStep.commit)
      × Majority cs.votes cs.commit_round precommit b
      × (length b.hash ≢ 0)
      × (hashes_to e cs.proposal_block b.hash ≡ true)

  -- The call has changed nothing, as it was not time, or has sent one final block.
  abbrev pub Finalizes : State e → State e → Type 0
  Finalizes cs cs' =
      ((¬ IsReady cs) × (cs' ≡ cs))
      ⊎ ((b : BlockId) × (block : e.Block) × IsFinal cs b block
          × SendsOnce cs block (finalizes cs.height cs.commit_round b) cs')
