-- ===== src/Consensus/State.antt =====
-- internal/consensus/state.go: the state of the consensus algorithm, and the small operations that
-- its handlers share.

pub mod Enter
pub mod Precommit
pub mod Commit
pub mod Proposals
pub mod Handle
pub mod Order
pub mod Asking
pub mod Locks
pub mod Final
pub mod Signed
mod Tests
use totally_not_a_fork_of_ce.Prelude.{
  ℕ, ◌+◌, Bool, true, false, List, [], ◌∷◌, Option, none, some, not, ◌&&◌, ◌||◌, ltb, leb, ◌==◌,
  if◌then◌else◌, length,
}
use totally_not_a_fork_of_ce.Prelude.Int.{ℤ, pos, negsuc, ◌+ℤ◌, ◌-ℤ◌, ltb_ℤ, leb_ℤ, ◌==ℤ◌}
use totally_not_a_fork_of_ce.Prelude.Bytes.{Bytes, bytes_equal}
use totally_not_a_fork_of_ce.Prelude.Outcome.{Outcome, done, panic, ◌>>=◌, or_panic}
use totally_not_a_fork_of_ce.Types.PartSetHeader
use totally_not_a_fork_of_ce.Types.PartSetHeader.{PartSetHeader}
use totally_not_a_fork_of_ce.Types.BlockId.{BlockId}
use totally_not_a_fork_of_ce.Types.Proposal.{Proposal}
use totally_not_a_fork_of_ce.Types.ValidatorSet.{ValidatorSet, Validator}
use totally_not_a_fork_of_ce.Types.Vote.{SignedMsgType}
use totally_not_a_fork_of_ce.Types.VoteSet.{VoteSet, has_two_thirds_any, is_some}
use totally_not_a_fork_of_ce.Consensus.HeightVoteSet.{HeightVoteSet, prevotes_of, majority_of}
use totally_not_a_fork_of_ce.Consensus.RoundStep
use totally_not_a_fork_of_ce.Consensus.RoundStep.{RoundStep, number}

-- What the algorithm reads of the chain's state, cs.state.
pub record ChainState : Type 0 where
  pub chain_id : Bytes
  pub initial_height : ℤ
  pub last_block_height : ℤ
  pub validators : ValidatorSet

-- What the algorithm calls: blocks and part sets (types/block.go, types/part_set.go), the block
-- executor, the mempool's and the block store's answers, and the configuration.
pub record Env : Type 1 where
  pub Block : Type 0
  pub Parts : Type 0
  pub Part : Type 0
  pub hash : Block → Bytes
  pub header : Parts → PartSetHeader
  pub from_header : PartSetHeader → Parts
  -- AddPart: `none` for its error, else the parts and whether the part was added.
  pub add_part : Parts → Part → Option (Parts × Bool)
  pub exceeds_max_bytes : Parts → Bool
  -- The block that the parts decode to, `none` for an error.
  pub is_complete : Parts → Bool
  pub decode : Parts → Option Block
  pub validate_block : ChainState → Block → Bool
  pub create_block : ℤ → ChainState → Option VoteSet → Bytes → Block × Parts
  -- ApplyBlock, `none` for its error.
  pub apply_block : ChainState → Block → Option ChainState
  pub increment_proposer_priority : ValidatorSet → ℤ → ValidatorSet
  pub verify_proposal : ChainState → Validator → Proposal → Bool
  pub need_proof_block : ℤ → Bool
  pub wait_for_txs : Bool
  pub create_empty_blocks_interval : ℕ
  pub skip_timeout_commit : Bool
  -- The address of this node's key, if it is a validator whose key is known.
  pub address : Option Bytes

-- What the handlers send: a scheduled timeout, the request for the signature of a vote or of a
-- proposal, and a block that is final.
pub data Output : Type 0 where
  timeout : ℤ → ℤ → RoundStep → Output
  vote : SignedMsgType → ℤ → ℤ → BlockId → Output
  proposes : ℤ → ℤ → ℤ → BlockId → Output
  finalizes : ℤ → ℤ → BlockId → Output

-- State with its RoundState; `sent` is what it has sent, the latest first.
pub record State (e : Env) : Type 0 where
  pub chain : ChainState
  pub height : ℤ
  pub round : ℤ
  pub step : RoundStep
  pub validators : ValidatorSet
  pub proposal : Option Proposal
  pub proposal_block : Option e.Block
  pub proposal_parts : Option e.Parts
  pub locked_round : ℤ
  pub locked_block : Option e.Block
  pub locked_parts : Option e.Parts
  pub valid_round : ℤ
  pub valid_block : Option e.Block
  pub valid_parts : Option e.Parts
  pub votes : HeightVoteSet
  pub commit_round : ℤ
  pub last_commit : Option VoteSet
  pub triggered_timeout_precommit : Bool
  pub sent : List Output

abbrev pub has_address : List Validator → Bytes → Bool
has_address [] address = false
has_address (val ∷ vals) address =
    let rest = has_address vals address in if bytes_equal val.address address then true else rest

-- HasTwoThirdsAny of a pointer that may be nil.
abbrev pub any_of : Option VoteSet → Outcome Bool
any_of none = done false
any_of (some vs) = has_two_thirds_any vs

module _ (e : Env) where
  -- HashesTo
  unfoldable pub hashes_to : Option e.Block → Bytes → Bool
  hashes_to none hash = false
  hashes_to (some block) hash = not (length hash == 0) && bytes_equal (e.hash block) hash

  -- HasHeader
  unfoldable pub has_header : Option e.Parts → PartSetHeader → Bool
  has_header none header = false
  has_header (some parts) header = PartSetHeader.equals (e.header parts) header

  -- PartSet.Header, of a pointer that may be nil.
  abbrev pub header_of : Option e.Parts → PartSetHeader
  header_of none = record { total = 0; hash = [] }
  header_of (some parts) = e.header parts

  -- Hash() and Header() for a block ID.
  abbrev pub id_of : e.Block → Option e.Parts → BlockId
  id_of block parts = record { hash = e.hash block; parts = header_of parts }

module _ {e : Env} where
  -- updateRoundStep
  abbrev pub update_round_step : State e → ℤ → RoundStep → State e
  update_round_step cs round step = record cs { round = round; step = step }

  abbrev pub send : State e → Output → State e
  send cs o = record cs { sent = o ∷ cs.sent }

  -- scheduleTimeout, less the duration.
  abbrev pub schedule_timeout : State e → ℤ → ℤ → RoundStep → State e
  schedule_timeout cs height round step = send cs (timeout height round step)

  -- signAddVote: the request that signVote makes, if this node is a validator. The vote comes back
  -- through the queue of messages once it is signed.
  unfoldable pub sign_add_vote : State e → SignedMsgType → BlockId → State e
  sign_add_vote cs type b = elim e.address [
    | none ↦ cs
    | some address ↦
        if has_address cs.validators.validators address
        then send cs (vote type cs.height cs.round b)
        else cs
  ]

  -- The guard of the handlers of a step: the call is for another height, or for a step that is
  -- behind.
  unfoldable pub is_stale : State e → ℤ → ℤ → RoundStep → Bool
  is_stale cs height round step =
      not (cs.height ==ℤ height)
      || ltb_ℤ round cs.round
      || (cs.round ==ℤ round && leb (number step) (number cs.step))

  -- isProposalComplete
  unfoldable pub is_proposal_complete : State e → Outcome Bool
  is_proposal_complete cs = elim cs.proposal [
    | none ↦ done false
    | some p ↦
        if not (is_some cs.proposal_block)
        then done false
        else if ltb_ℤ p.pol_round (pos 0)
        then done true
        else prevotes_of cs.votes p.pol_round >>= λ vs. done (is_some (majority_of vs))
  ]
