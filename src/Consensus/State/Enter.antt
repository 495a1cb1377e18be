-- ===== src/Consensus/State/Enter.antt =====
-- internal/consensus/state.go: the handlers that enter a step up to the prevotes.
use totally_not_a_fork_of_ce.Prelude.{
  Bool, false, Option, none, some, not, ◌&&◌, ◌||◌, ltb, ◌==◌, if◌then◌else◌,
}
use totally_not_a_fork_of_ce.Prelude.Int.{ℤ, pos, ◌+ℤ◌, ◌-ℤ◌, ltb_ℤ, ◌==ℤ◌}
use totally_not_a_fork_of_ce.Prelude.Bytes.{Bytes, bytes_equal}
use totally_not_a_fork_of_ce.Prelude.Outcome.{Outcome, done, panic, ◌>>=◌, or_panic}
use totally_not_a_fork_of_ce.Types.BlockId.{BlockId, nil_block_id}
use totally_not_a_fork_of_ce.Types.ValidatorSet.{get_proposer}
use totally_not_a_fork_of_ce.Types.Vote.{prevote}
use totally_not_a_fork_of_ce.Types.VoteSet.{VoteSet, has_two_thirds_majority}
use totally_not_a_fork_of_ce.Consensus.HeightVoteSet.{set_round, prevotes_of}
use totally_not_a_fork_of_ce.Consensus.RoundStep.{RoundStep, number}
use totally_not_a_fork_of_ce.Consensus.State.{
  Env, State, proposes, has_address, any_of, id_of, update_round_step, send, schedule_timeout,
  sign_add_vote, is_stale, is_proposal_complete,
}

-- SafeAddInt32(round, 1)
unfoldable pub successor : ℤ → Outcome ℤ
successor round = if ltb_ℤ (pos 2147483646) round then panic else done (round +ℤ pos 1)

module _ {e : Env} where
  -- The vote of defaultDoPrevote: for the locked block, else for a valid proposal block, else nil.
  unfoldable pub prevote_for : State e → BlockId
  prevote_for cs = elim cs.locked_block [
    | some locked ↦ id_of e locked cs.locked_parts
    | none ↦ elim cs.proposal_block [
      | none ↦ nil_block_id
      | some block ↦
          if e.validate_block cs.chain block then id_of e block cs.proposal_parts else nil_block_id
    ]
  ]

  unfoldable pub enter_prevote : State e → ℤ → ℤ → Outcome (State e)
  enter_prevote cs height round =
      if is_stale cs height round RoundStep.prevote
      then done cs
      else done
          (update_round_step (sign_add_vote cs prevote (prevote_for cs)) round RoundStep.prevote)

  unfoldable pub enter_prevote_wait : State e → ℤ → ℤ → Outcome (State e)
  enter_prevote_wait cs height round =
      if is_stale cs height round RoundStep.prevote_wait
      then done cs
      else prevotes_of cs.votes round >>= any_of >>= λ any.
          if any
          then done (
              update_round_step (schedule_timeout cs height round RoundStep.prevote_wait) round
                RoundStep.prevote_wait)
          else panic

  -- The commit that createProposalBlock uses: `none` for the error, `some none` for the empty one.
  unfoldable pub commit_to_use : State e → Option (Option VoteSet)
  commit_to_use cs =
      if cs.height ==ℤ cs.chain.initial_height then some none else elim cs.last_commit [
        | none ↦ none
        | some vs ↦ if has_two_thirds_majority vs then some (some vs) else none
      ]

  -- createProposalBlock; MakeCommit is a part of `create_block`.
  unfoldable pub create_proposal_block : State e → Bytes → Option (e.Block × Option e.Parts)
  create_proposal_block cs address = elim (commit_to_use cs) [
    | none ↦ none
    | some commit ↦
        let (block, parts) = e.create_block cs.height cs.chain commit address in
        some (block, some parts)
  ]

  -- The block that defaultDecideProposal proposes: the valid block, if there is one.
  unfoldable pub block_to_propose : State e → Bytes → Option (e.Block × Option e.Parts)
  block_to_propose cs address = elim cs.valid_block [
    | some block ↦ some (block, cs.valid_parts)
    | none ↦ create_proposal_block cs address
  ]

  -- defaultDecideProposal: the request that is signed, whose block then comes back in parts.
  unfoldable pub decide_proposal : State e → ℤ → ℤ → Bytes → State e
  decide_proposal cs height round address = elim (block_to_propose cs address) [
    | none ↦ cs
    | some (block, parts) ↦ send cs (proposes height round cs.valid_round (id_of e block parts))
  ]

  -- enterPropose from the lookup of the proposer on.
  unfoldable pub propose_if_proposer : State e → ℤ → ℤ → Bytes → Outcome (State e)
  propose_if_proposer cs height round address = do
    found ← get_proposer cs.validators
    proposer ← or_panic found
    if bytes_equal proposer.address address
        then done (decide_proposal cs height round address)
        else done cs

  -- The part of enterPropose before its deferred function.
  unfoldable pub propose_as : State e → ℤ → ℤ → Option Bytes → Outcome (State e)
  propose_as cs height round none = done cs
  propose_as cs height round (some address) =
      if has_address cs.validators.validators address
      then propose_if_proposer cs height round address
      else done cs

  unfoldable pub prevote_if_complete : State e → ℤ → Bool → Outcome (State e)
  prevote_if_complete cs height complete =
      if complete then enter_prevote cs height cs.round else done cs

  -- The deferred function of enterPropose.
  unfoldable pub after_propose : State e → ℤ → ℤ → Outcome (State e)
  after_propose cs height round =
      let cs' = update_round_step cs round RoundStep.propose in
      is_proposal_complete cs' >>= prevote_if_complete cs' height

  unfoldable pub enter_propose : State e → ℤ → ℤ → Outcome (State e)
  enter_propose cs height round =
      if is_stale cs height round RoundStep.propose
      then done cs
      else propose_as (schedule_timeout cs height round RoundStep.propose) height round e.address
        >>= λ cs'. after_propose cs' height round

  -- The state of enterNewRound once its fields are set.
  unfoldable pub reset_round : State e → ℤ → State e
  reset_round cs round =
      let cs' = record cs {
        round = round;
        step = RoundStep.new_round;
        validators =
            if ltb_ℤ cs.round round
            then e.increment_proposer_priority cs.validators (round -ℤ cs.round)
            else cs.validators;
        triggered_timeout_precommit = false;
      } in
      if round ==ℤ pos 0
      then cs'
      else record cs' { proposal = none; proposal_block = none; proposal_parts = none }

  -- The end of enterNewRound.
  unfoldable pub propose_or_wait : State e → ℤ → ℤ → Outcome (State e)
  propose_or_wait cs height round =
      if e.wait_for_txs && (round ==ℤ pos 0) && not (e.need_proof_block height)
      then done (
          if ltb 0 e.create_empty_blocks_interval
          then schedule_timeout cs height round RoundStep.new_round
          else cs)
      else enter_propose cs height round

  -- The guard of enterNewRound.
  unfoldable pub is_stale_round : State e → ℤ → ℤ → Bool
  is_stale_round cs height round =
      not (cs.height ==ℤ height)
      || ltb_ℤ round cs.round
      || (cs.round ==ℤ round && not (number cs.step == number RoundStep.new_height))

  unfoldable pub enter_new_round : State e → ℤ → ℤ → Outcome (State e)
  enter_new_round cs height round = if is_stale_round cs height round then done cs else do
    next ← successor round
    votes ← set_round cs.votes next
    propose_or_wait (record (reset_round cs round) { votes = votes }) height round
