-- ===== src/Consensus/State/Commit.antt =====
-- internal/consensus/state.go: enterCommit, finalizeCommit and updateToState.
use totally_not_a_fork_of_ce.Prelude.{
  Bool, false, Option, none, some, not, ◌&&◌, ◌||◌, leb, ◌==◌, if◌then◌else◌, length,
}
use totally_not_a_fork_of_ce.Prelude.Int.{ℤ, pos, negsuc, ◌+ℤ◌, ltb_ℤ, leb_ℤ, ◌==ℤ◌}
use totally_not_a_fork_of_ce.Prelude.Outcome.{Outcome, done, panic, ◌>>=◌, or_panic}
use totally_not_a_fork_of_ce.Types.BlockId.{BlockId}
use totally_not_a_fork_of_ce.Types.VoteSet.{VoteSet, is_some}
use totally_not_a_fork_of_ce.Consensus.HeightVoteSet
use totally_not_a_fork_of_ce.Consensus.HeightVoteSet.{HeightVoteSet, precommits_of, majority_of}
use totally_not_a_fork_of_ce.Consensus.RoundStep
use totally_not_a_fork_of_ce.Consensus.RoundStep.{number}
use totally_not_a_fork_of_ce.Consensus.State.{
  Env, ChainState, State, finalizes, hashes_to, has_header, send, schedule_timeout,
}
use totally_not_a_fork_of_ce.Consensus.State.Precommit.{await_block}

unfoldable pub next_height : ChainState → ℤ
next_height chain =
    let height = chain.last_block_height +ℤ pos 1 in
    if height ==ℤ pos 1 then chain.initial_height else height

module _ {e : Env} where
  -- The first guards of updateToState.
  unfoldable pub is_consistent : State e → ChainState → Bool
  is_consistent cs chain =
      not (
        ltb_ℤ (negsuc 0) cs.commit_round
        && ltb_ℤ (pos 0) cs.height
        && not (cs.height ==ℤ chain.last_block_height))
      && not (
          ltb_ℤ (pos 0) cs.chain.last_block_height
          && not (cs.chain.last_block_height +ℤ pos 1 ==ℤ cs.height))
      && not (ltb_ℤ (pos 0) cs.chain.last_block_height && (cs.height ==ℤ cs.chain.initial_height))

  -- The last commit of the new height.
  unfoldable pub next_last_commit : State e → ChainState → Outcome (Option VoteSet)
  next_last_commit cs chain =
      if chain.last_block_height ==ℤ pos 0
      then done none
      else if ltb_ℤ (negsuc 0) cs.commit_round
      then (precommits_of cs.votes cs.commit_round >>= λ vs.
          if is_some (majority_of vs) then done vs else panic)
      else if is_some cs.last_commit
      then done cs.last_commit
      else panic

  -- The fields that updateToState sets.
  unfoldable pub at_height : State e → ChainState → ℤ → Option VoteSet → HeightVoteSet → State e
  at_height cs chain height last_commit votes = record cs {
    chain = chain;
    height = height;
    round = pos 0;
    step = RoundStep.new_height;
    validators = chain.validators;
    proposal = none;
    proposal_block = none;
    proposal_parts = none;
    locked_round = negsuc 0;
    locked_block = none;
    locked_parts = none;
    valid_round = negsuc 0;
    valid_block = none;
    valid_parts = none;
    votes = votes;
    commit_round = negsuc 0;
    last_commit = last_commit;
    triggered_timeout_precommit = false;
  }

  -- updateToState, of a state that is not empty and has votes.
  unfoldable pub update_to_state : State e → ChainState → Outcome (State e)
  update_to_state cs chain =
      if not (is_consistent cs chain)
      then panic
      else if leb_ℤ chain.last_block_height cs.chain.last_block_height
      then done cs
      else do
        last_commit ← next_last_commit cs chain
        votes ← HeightVoteSet.new chain.chain_id (next_height chain) chain.validators
        done (at_height cs chain (next_height chain) last_commit votes)

  -- finalizeCommit from ApplyBlock on, for the block that is saved.
  unfoldable pub apply_commit : State e → e.Block → Outcome (State e)
  apply_commit cs block = elim (e.apply_block cs.chain block) [
    | none ↦ done cs
    | some chain ↦ update_to_state cs chain >>= λ cs'.
        done (schedule_timeout cs' cs'.height (pos 0) RoundStep.new_height)
  ]

  -- finalizeCommit from the test of the majority on; SaveBlock is the output.
  unfoldable pub finalize : State e → BlockId → e.Block → Outcome (State e)
  finalize cs b block =
      if not (has_header e cs.proposal_parts b.parts)
      then panic
      else if not (hashes_to e (some block) b.hash)
      then panic
      else if not (e.validate_block cs.chain block)
      then panic
      else apply_commit (send cs (finalizes cs.height cs.commit_round b)) block

  unfoldable pub finalize_commit : State e → ℤ → Outcome (State e)
  finalize_commit cs height =
      if not (cs.height ==ℤ height) || not (number cs.step == number RoundStep.commit)
      then done cs
      else do
        vs ← precommits_of cs.votes cs.commit_round
        b ← or_panic (majority_of vs)
        block ← or_panic cs.proposal_block
        finalize cs b block

  -- tryFinalizeCommit from the test of the majority on.
  unfoldable pub try_finalize : State e → ℤ → Option BlockId → Outcome (State e)
  try_finalize cs height none = done cs
  try_finalize cs height (some b) =
      if length b.hash == 0
      then done cs
      else if hashes_to e cs.proposal_block b.hash
      then finalize_commit cs height
      else done cs

  unfoldable pub try_finalize_commit : State e → ℤ → Outcome (State e)
  try_finalize_commit cs height =
      if cs.height ==ℤ height
      then (precommits_of cs.votes cs.commit_round >>= λ vs.
          try_finalize cs height (majority_of vs))
      else panic

  -- enterCommit moves the locked block over, and awaits a block that we do not have.
  unfoldable pub stage_commit : State e → BlockId → State e
  stage_commit cs b =
      let cs' =
        if hashes_to e cs.locked_block b.hash
        then record cs { proposal_block = cs.locked_block; proposal_parts = cs.locked_parts }
        else cs in
      if hashes_to e cs'.proposal_block b.hash then cs' else await_block cs' b

  unfoldable pub enter_commit : State e → ℤ → ℤ → Outcome (State e)
  enter_commit cs height commit_round =
      if not (cs.height ==ℤ height) || leb (number RoundStep.commit) (number cs.step)
      then done cs
      else do
        vs ← precommits_of cs.votes commit_round
        b ← or_panic (majority_of vs)
        try_finalize_commit
            (record (stage_commit cs b) { step = RoundStep.commit; commit_round = commit_round })
            height
