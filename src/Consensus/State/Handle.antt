-- ===== src/Consensus/State/Handle.antt =====
-- internal/consensus/state.go: the handlers of votes and of timeouts.

use totally_not_a_fork_of_ce.Prelude.{
  Bool, false, Option, none, some, not, ◌&&◌, ◌||◌, leb, ltb, ◌==◌, if◌then◌else◌, length,
}
use totally_not_a_fork_of_ce.Prelude.Int.{ℤ, pos, ◌+ℤ◌, ltb_ℤ, leb_ℤ, ◌==ℤ◌}
use totally_not_a_fork_of_ce.Prelude.Bytes.{Bytes}
use totally_not_a_fork_of_ce.Prelude.Outcome.{Outcome, done, panic, ◌>>=◌, or_panic}
use totally_not_a_fork_of_ce.Types.BlockId.{BlockId}
use totally_not_a_fork_of_ce.Types.Vote.{
  Vote, Crypto, SignedMsgType, unknown, prevote, precommit, proposal, type_eq,
}
use totally_not_a_fork_of_ce.Types.VoteSet
use totally_not_a_fork_of_ce.Types.VoteSet.{VoteSet, is_some, has_all}
use totally_not_a_fork_of_ce.Consensus.HeightVoteSet
use totally_not_a_fork_of_ce.Consensus.HeightVoteSet.{prevotes_of, precommits_of, majority_of}
use totally_not_a_fork_of_ce.Consensus.RoundStep.{
  RoundStep, number, new_height, new_round, propose, prevote_wait, precommit_wait, commit,
}
use totally_not_a_fork_of_ce.Consensus.State.{
  Env, State, hashes_to, has_header, any_of, schedule_timeout, is_proposal_complete,
}
use totally_not_a_fork_of_ce.Consensus.State.Enter.{
  enter_new_round, enter_propose, enter_prevote, enter_prevote_wait,
}
use totally_not_a_fork_of_ce.Consensus.State.Precommit.{
  unlock, enter_precommit, enter_precommit_wait,
}
use totally_not_a_fork_of_ce.Consensus.State.Commit.{enter_commit}

-- HasAll of a pointer that may be nil.
unfoldable pub all_of : Option VoteSet → Outcome Bool
all_of vs = or_panic vs >>= has_all

module _ {e : Env} where
  -- A polka of a round since the lock, for another block, unlocks.
  unfoldable pub unlock_by : State e → ℤ → BlockId → State e
  unlock_by cs round b =
      if is_some cs.locked_block
        && ltb_ℤ cs.locked_round round
        && leb_ℤ round cs.round
        && not (hashes_to e cs.locked_block b.hash)
      then unlock cs
      else cs

  -- A polka of this round makes the proposal block valid, or replaces it.
  unfoldable pub valid_by : State e → ℤ → BlockId → State e
  valid_by cs round b =
      if not (length b.hash == 0) && ltb_ℤ cs.valid_round round && (round ==ℤ cs.round)
      then (let cs' =
            if hashes_to e cs.proposal_block b.hash
            then record cs {
              valid_round = round;
              valid_block = cs.proposal_block;
              valid_parts = cs.proposal_parts;
            }
            else record cs { proposal_block = none } in
          if has_header e cs'.proposal_parts b.parts
          then cs'
          else record cs' { proposal_parts = some (e.from_header b.parts) })
      else cs

  unfoldable pub note_polka : State e → ℤ → Option BlockId → State e
  note_polka cs round none = cs
  note_polka cs round (some b) = valid_by (unlock_by cs round b) round b

  -- The prevotes of the current round after another one was added.
  unfoldable pub advance_current :
      State e → ℤ → ℤ → Option BlockId → Bool → Bool → Outcome (State e)
  advance_current cs height round polka any complete = elim polka [
    | some b ↦
        if complete || (length b.hash == 0)
        then enter_precommit cs height round
        else if any
        then enter_prevote_wait cs height round
        else done cs
    | none ↦ if any then enter_prevote_wait cs height round else done cs
  ]

  -- The proposal waits for the prevotes of the round.
  unfoldable pub awaits_pol : State e → ℤ → Bool
  awaits_pol cs round = elim cs.proposal [
    | none ↦ false
    | some p ↦ leb_ℤ (pos 0) p.pol_round && (p.pol_round ==ℤ round)
  ]

  -- The switch of addVote for prevotes.
  unfoldable pub advance_by_prevotes :
      State e → ℤ → ℤ → Option BlockId → Bool → Bool → Outcome (State e)
  advance_by_prevotes cs height round polka any complete =
      if ltb_ℤ cs.round round && any
      then enter_new_round cs height round
      else if (cs.round ==ℤ round) && leb (number RoundStep.prevote) (number cs.step)
      then advance_current cs height round polka any complete
      else if awaits_pol cs round && complete
      then enter_prevote cs height cs.round
      else done cs

  -- addVote for a prevote that was added.
  unfoldable pub after_prevote : State e → ℤ → ℤ → Outcome (State e)
  after_prevote cs height round = do
    vs ← prevotes_of cs.votes round
    any ← any_of vs
    complete ← is_proposal_complete (note_polka cs round (majority_of vs))
    advance_by_prevotes (note_polka cs round (majority_of vs)) height round (majority_of vs) any
        complete

  unfoldable pub skip_timeout : State e → Option VoteSet → Outcome (State e)
  skip_timeout cs vs =
      if e.skip_timeout_commit
      then (all_of vs >>= λ all. if all then enter_new_round cs cs.height (pos 0) else done cs)
      else done cs

  -- addVote for a majority of precommits.
  unfoldable pub after_commit : State e → ℤ → ℤ → Option VoteSet → BlockId → Outcome (State e)
  after_commit cs height round vs b = do
    cs₁ ← enter_new_round cs height round
    cs₂ ← enter_precommit cs₁ height round
    if length b.hash == 0
        then enter_precommit_wait cs₂ height round
        else enter_commit cs₂ height round >>= λ cs₃. skip_timeout cs₃ vs

  -- addVote for a precommit that was added, on the majority of the precommits of its round.
  unfoldable pub advance_by_precommits :
      State e → ℤ → ℤ → Option VoteSet → Option BlockId → Bool → Outcome (State e)
  advance_by_precommits cs height round vs (some b) any = after_commit cs height round vs b
  advance_by_precommits cs height round vs none any =
      if leb_ℤ cs.round round && any
      then (enter_new_round cs height round >>= λ cs'. enter_precommit_wait cs' height round)
      else done cs

  unfoldable pub after_precommit : State e → ℤ → ℤ → Outcome (State e)
  after_precommit cs height round = do
    vs ← precommits_of cs.votes round
    any ← any_of vs
    advance_by_precommits cs height round vs (majority_of vs) any

  -- addVote for a vote of the current height that was added.
  unfoldable pub after_vote : State e → ℤ → ℤ → SignedMsgType → Outcome (State e)
  after_vote cs height round prevote = after_prevote cs height round
  after_vote cs height round precommit = after_precommit cs height round
  after_vote cs height round unknown = panic
  after_vote cs height round proposal = panic

  -- addVote for a late precommit of the height before.
  unfoldable pub add_late_precommit : Crypto → State e → Vote → Outcome (State e)
  add_late_precommit c cs vote = if not (number cs.step == number new_height) then done cs else do
    last ← or_panic cs.last_commit
    r ← VoteSet.add_vote c last (some vote)
    let cs' = record cs { last_commit = some r.state }
    if r.added then skip_timeout cs' (some r.state) else done cs'

  -- addVote, through tryAddVote, which reports its errors.
  unfoldable pub add_vote : Crypto → State e → Vote → Bytes → Outcome (State e)
  add_vote c cs vote peer =
      if (vote.height +ℤ pos 1 ==ℤ cs.height) && type_eq vote.type precommit
      then add_late_precommit c cs vote
      else if not (vote.height ==ℤ cs.height)
      then done cs
      else (HeightVoteSet.add_vote c cs.votes vote peer >>= λ r.
          let cs' = record cs { votes = r.state } in
          if r.added then after_vote cs' cs.height vote.round vote.type else done cs')

  -- The switch of handleTimeout.
  unfoldable pub fire : State e → ℤ → ℤ → RoundStep → Outcome (State e)
  fire cs height round new_height = enter_new_round cs height (pos 0)
  fire cs height round new_round = enter_propose cs height (pos 0)
  fire cs height round propose = enter_prevote cs height round
  fire cs height round prevote_wait = enter_precommit cs height round
  fire cs height round precommit_wait =
      enter_precommit cs height round >>= λ cs'. enter_new_round cs' height (round +ℤ pos 1)
  fire cs height round RoundStep.prevote = panic
  fire cs height round RoundStep.precommit = panic
  fire cs height round commit = panic

  -- handleTimeout, for a round below MaxInt32.
  unfoldable pub handle_timeout : State e → ℤ → ℤ → RoundStep → Outcome (State e)
  handle_timeout cs height round step =
      if not (height ==ℤ cs.height)
        || ltb_ℤ round cs.round
        || ((round ==ℤ cs.round) && ltb (number step) (number cs.step))
      then done cs
      else fire cs height round step

  -- handleTxsAvailable
  unfoldable pub handle_txs_available : State e → Outcome (State e)
  handle_txs_available cs =
      if not (cs.round ==ℤ pos 0)
      then done cs
      else if number cs.step == number new_height
      then done (
          if e.need_proof_block cs.height
          then cs
          else schedule_timeout cs cs.height (pos 0) new_round)
      else if number cs.step == number new_round
      then enter_propose cs cs.height (pos 0)
      else done cs
