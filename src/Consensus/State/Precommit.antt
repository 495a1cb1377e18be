-- ===== src/Consensus/State/Precommit.antt =====
-- internal/consensus/state.go: enterPrecommit and enterPrecommitWait.
use totally_not_a_fork_of_ce.Prelude.{
  ℕ, Bool, true, false, Option, none, some, not, ◌&&◌, ◌||◌, ◌==◌, if◌then◌else◌, length,
}
use totally_not_a_fork_of_ce.Prelude.Int.{ℤ, pos, negsuc, ltb_ℤ, ◌==ℤ◌}
use totally_not_a_fork_of_ce.Prelude.Outcome.{Outcome, done, panic, ◌>>=◌}
use totally_not_a_fork_of_ce.Types.BlockId.{BlockId, nil_block_id}
use totally_not_a_fork_of_ce.Types.Vote.{precommit}
use totally_not_a_fork_of_ce.Types.VoteSet.{is_some}
use totally_not_a_fork_of_ce.Consensus.HeightVoteSet.{
  prevotes_of, precommits_of, majority_of, pol_info,
}
use totally_not_a_fork_of_ce.Consensus.RoundStep
use totally_not_a_fork_of_ce.Consensus.State.{
  Env, State, hashes_to, has_header, any_of, update_round_step, schedule_timeout, sign_add_vote,
  is_stale,
}

-- The round of POLInfo's answer.
abbrev pub pol_info_round : Option (ℕ × BlockId) → ℤ
pol_info_round none = negsuc 0
pol_info_round (some (r, b)) = pos r

module _ {e : Env} where
  abbrev pub unlock : State e → State e
  unlock cs = record cs { locked_round = negsuc 0; locked_block = none; locked_parts = none }

  abbrev pub lock_proposal : State e → ℤ → State e
  lock_proposal cs round = record cs {
    locked_round = round;
    locked_block = cs.proposal_block;
    locked_parts = cs.proposal_parts;
  }

  -- The parts of a block that we do not have are awaited.
  abbrev pub await_block : State e → BlockId → State e
  await_block cs b =
      if has_header e cs.proposal_parts b.parts
      then cs
      else record cs { proposal_block = none; proposal_parts = some (e.from_header b.parts) }

  abbrev pub is_valid_proposal : State e → Bool
  is_valid_proposal cs = elim cs.proposal_block [
    | none ↦ false
    | some block ↦ e.validate_block cs.chain block
  ]

  -- enterPrecommit from the test of the majority's hash on: the new locks, and the vote.
  unfoldable pub lock_for : State e → ℤ → BlockId → Outcome (State e × BlockId)
  lock_for cs round b =
      if length b.hash == 0
      then done (if is_some cs.locked_block then unlock cs else cs, nil_block_id)
      else if hashes_to e cs.locked_block b.hash
      then done (record cs { locked_round = round }, b)
      else if hashes_to e cs.proposal_block b.hash
      then (if is_valid_proposal cs then done (lock_proposal cs round, b) else panic)
      else done (await_block (unlock cs) b, nil_block_id)

  -- enterPrecommit from the lookup of the majority on.
  unfoldable pub precommit_for : State e → ℤ → Option BlockId → Outcome (State e × BlockId)
  precommit_for cs round none = done (cs, nil_block_id)
  precommit_for cs round (some b) = pol_info cs.votes >>= λ pol.
      if ltb_ℤ (pol_info_round pol) round then panic else lock_for cs round b

  unfoldable pub enter_precommit : State e → ℤ → ℤ → Outcome (State e)
  enter_precommit cs height round =
      if is_stale cs height round RoundStep.precommit
      then done cs
      else prevotes_of cs.votes round >>= λ vs. precommit_for cs round (majority_of vs) >>= λ r.
          done (update_round_step (sign_add_vote r.0 precommit r.1) round RoundStep.precommit)

  -- The guard of enterPrecommitWait.
  unfoldable pub is_stale_wait : State e → ℤ → ℤ → Bool
  is_stale_wait cs height round =
      not (cs.height ==ℤ height)
      || ltb_ℤ round cs.round
      || (cs.round ==ℤ round && cs.triggered_timeout_precommit)

  unfoldable pub enter_precommit_wait : State e → ℤ → ℤ → Outcome (State e)
  enter_precommit_wait cs height round =
      if is_stale_wait cs height round
      then done cs
      else precommits_of cs.votes round >>= any_of >>= λ any.
          if any
          then done (record (schedule_timeout cs height round RoundStep.precommit_wait) {
            triggered_timeout_precommit = true;
          })
          else panic
