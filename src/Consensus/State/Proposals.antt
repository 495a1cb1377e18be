-- ===== src/Consensus/State/Proposals.antt =====
-- internal/consensus/state.go: the handlers of proposals and of block parts.

use totally_not_a_fork_of_ce.Prelude.{
  Bool, Option, none, some, not, ◌&&◌, ◌||◌, leb, ◌==◌, if◌then◌else◌,
}
use totally_not_a_fork_of_ce.Prelude.Int.{ℤ, pos, negsuc, ltb_ℤ, leb_ℤ, ◌==ℤ◌}
use totally_not_a_fork_of_ce.Prelude.Outcome.{Outcome, done, ◌>>=◌, or_panic}
use totally_not_a_fork_of_ce.Types.BlockId
use totally_not_a_fork_of_ce.Types.BlockId.{BlockId}
use totally_not_a_fork_of_ce.Types.Proposal.{Proposal}
use totally_not_a_fork_of_ce.Types.ValidatorSet.{Validator, get_proposer}
use totally_not_a_fork_of_ce.Types.VoteSet.{is_some}
use totally_not_a_fork_of_ce.Consensus.HeightVoteSet.{prevotes_of, majority_of}
use totally_not_a_fork_of_ce.Consensus.RoundStep.{number, propose, commit}
use totally_not_a_fork_of_ce.Consensus.State.{Env, State, hashes_to, is_proposal_complete}
use totally_not_a_fork_of_ce.Consensus.State.Enter.{enter_prevote}
use totally_not_a_fork_of_ce.Consensus.State.Precommit.{enter_precommit}
use totally_not_a_fork_of_ce.Consensus.State.Commit.{try_finalize_commit}

-- The test of POLRound: -1 or a round before the proposal's.
unfoldable pub is_bad_pol : Proposal → Bool
is_bad_pol p =
    ltb_ℤ p.pol_round (negsuc 0) || (leb_ℤ (pos 0) p.pol_round && leb_ℤ p.round p.pol_round)

module _ {e : Env} where
  -- defaultSetProposal from the checks of the signature on.
  unfoldable pub accept_proposal : State e → Proposal → State e
  accept_proposal cs p = record cs {
    proposal = some p;
    proposal_parts = elim cs.proposal_parts [
      | some parts ↦ some parts
      | none ↦ some (e.from_header p.block_id.parts)
    ];
  }

  unfoldable pub check_proposal : State e → Proposal → Validator → State e
  check_proposal cs p proposer =
      if e.verify_proposal cs.chain proposer p then accept_proposal cs p else cs

  -- defaultSetProposal; its errors only reach the log.
  unfoldable pub set_proposal : State e → Proposal → Outcome (State e)
  set_proposal cs p =
      if is_some cs.proposal
        || not ((p.height ==ℤ cs.height) && (p.round ==ℤ cs.round))
        || is_bad_pol p
      then done cs
      else get_proposer cs.validators >>= or_panic >>= λ proposer.
          done (check_proposal cs p proposer)

  -- The update of Valid* for a complete block.
  unfoldable pub note_valid : State e → Option BlockId → State e
  note_valid cs none = cs
  note_valid cs (some b) =
      if not (BlockId.is_zero b)
        && ltb_ℤ cs.valid_round cs.round
        && hashes_to e cs.proposal_block b.hash
      then record cs {
        valid_round = cs.round;
        valid_block = cs.proposal_block;
        valid_parts = cs.proposal_parts;
      }
      else cs

  unfoldable pub precommit_if : State e → ℤ → Bool → Outcome (State e)
  precommit_if cs height polka = if polka then enter_precommit cs height cs.round else done cs

  -- addProposalBlockPart once the block is complete.
  unfoldable pub advance_with_block : State e → ℤ → Bool → Bool → Outcome (State e)
  advance_with_block cs height complete polka =
      if leb (number cs.step) (number propose) && complete
      then (enter_prevote cs height cs.round >>= λ cs'. precommit_if cs' height polka)
      else if number cs.step == number commit
      then try_finalize_commit cs height
      else done cs

  unfoldable pub with_block : State e → ℤ → Option e.Block → Outcome (State e)
  with_block cs height none = done cs
  with_block cs height (some block) = prevotes_of cs.votes cs.round >>= λ vs.
      (let cs' = note_valid (record cs { proposal_block = some block }) (majority_of vs) in
        is_proposal_complete cs' >>= λ complete.
        advance_with_block cs' height complete (is_some (majority_of vs)))

  -- addProposalBlockPart from the call of AddPart on.
  unfoldable pub with_parts : State e → ℤ → e.Parts → Bool → Outcome (State e)
  with_parts cs height parts added =
      let cs' = record cs { proposal_parts = some parts } in
      if not (e.exceeds_max_bytes parts) && added && e.is_complete parts
      then with_block cs' height (e.decode parts)
      else done cs'

  unfoldable pub add_part_to : State e → ℤ → e.Part → Option e.Parts → Outcome (State e)
  add_part_to cs height part none = done cs
  add_part_to cs height part (some parts) = elim (e.add_part parts part) [
    | none ↦ done cs
    | some (parts', added) ↦ with_parts cs height parts' added
  ]

  -- addProposalBlockPart
  unfoldable pub add_proposal_block_part : State e → ℤ → e.Part → Outcome (State e)
  add_proposal_block_part cs height part =
      if cs.height ==ℤ height then add_part_to cs height part cs.proposal_parts else done cs
