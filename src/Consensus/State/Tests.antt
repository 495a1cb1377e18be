-- ===== src/Consensus/State/Tests.antt =====
-- Runs of the state machine on toy blocks, and the theorems at them.
use totally_not_a_fork_of_ce.Prelude.{
  sym, inl, ℕ, ◌≡◌, refl, true, false, [], ◌∷◌, Option, none, some, arith, replicate, ap, inr,
}
use totally_not_a_fork_of_ce.Prelude.Bytes.{bytes_equal}
use totally_not_a_fork_of_ce.Prelude.Int.{ℤ, pos, negsuc, ◌+ℤ◌, ◌-ℤ◌}
use totally_not_a_fork_of_ce.Prelude.Outcome.{Outcome, done, panic}
use totally_not_a_fork_of_ce.Types.BlockId.{nil_block_id}
use totally_not_a_fork_of_ce.Types.Vote.{prevote}
use totally_not_a_fork_of_ce.Types.Sample.{toy, two, block}
use totally_not_a_fork_of_ce.Consensus.Sample.{start, polka}
use totally_not_a_fork_of_ce.Consensus.RoundStep.{RoundStep}
use totally_not_a_fork_of_ce.Consensus.State.{
  Env, ChainState, State, Output, timeout, is_stale, sign_add_vote,
}
use totally_not_a_fork_of_ce.Consensus.State
use totally_not_a_fork_of_ce.Consensus.HeightVoteSet.{
  set_round, ensure_rounds, ensure_round, predecessor, add_round, add_fresh_round,
}
use totally_not_a_fork_of_ce.Types.VoteSet
use totally_not_a_fork_of_ce.Types.ValidatorSet
use totally_not_a_fork_of_ce.Types.ValidatorSet.{
  get_proposer, find_proposer, compare_proposer_priority,
}
use totally_not_a_fork_of_ce.Consensus.State.{is_proposal_complete}
use totally_not_a_fork_of_ce.Consensus.State.Enter.{
  enter_prevote, prevote_for, enter_new_round, is_stale_round, successor, reset_round,
  propose_or_wait, enter_propose, propose_as, propose_if_proposer, decide_proposal,
  block_to_propose, create_proposal_block, commit_to_use, after_propose, prevote_if_complete,
}
use totally_not_a_fork_of_ce.Consensus.State.Precommit.{enter_precommit}
use totally_not_a_fork_of_ce.Consensus.State.Commit.{next_height}
use totally_not_a_fork_of_ce.Consensus.State.Handle.{handle_timeout, fire}
use totally_not_a_fork_of_ce.Consensus.State.Order.Keeps.{Good, Keeps}
use totally_not_a_fork_of_ce.Consensus.State.Order.NextHeight.{IsLawful}
use totally_not_a_fork_of_ce.Consensus.State.Order.History.{Turns, next, times_out, Turns-Keeps}
use totally_not_a_fork_of_ce.Consensus.State.Order.History as History
use totally_not_a_fork_of_ce.Consensus.State.Locks.{Precommits, enter_precommit_lem}
use totally_not_a_fork_of_ce.Types.VoteSet.Sample.{no_votes}
use totally_not_a_fork_of_ce.Prelude.Bytes.{int_eq}
use totally_not_a_fork_of_ce.Prelude.Maps.{insert}
use totally_not_a_fork_of_ce.Types.Vote.{precommit}
use totally_not_a_fork_of_ce.Privval.{FilePv, LastSignState, Codec}
use totally_not_a_fork_of_ce.Types.BlockId
use totally_not_a_fork_of_ce.Types.Vote.{is_vote_type_valid}
use totally_not_a_fork_of_ce.Consensus.State.Signed.{Signable, sign_all, asked_are_signed}
use mathlib.Core.List.{Memᴰ}

-- A block is a byte, which is also its only part.
abbrev toy_env : Env
toy_env = record {
  Block = ℕ;
  Parts = ℕ;
  Part = ℕ;
  hash = λ n. replicate 32 n;
  header = λ n. record { total = 1; hash = replicate 32 n };
  from_header = λ h. 0;
  add_part = λ parts n. some (n, true);
  exceeds_max_bytes = λ parts. false;
  is_complete = λ parts. true;
  decode = λ parts. some parts;
  validate_block = λ chain n. true;
  create_block = λ height chain commit address. (1, 1);
  apply_block = λ chain n. some (record chain { last_block_height = next_height chain });
  increment_proposer_priority = λ vals n. vals;
  verify_proposal = λ chain val p. true;
  need_proof_block = λ height. false;
  wait_for_txs = false;
  create_empty_blocks_interval = 0;
  skip_timeout_commit = false;
  address = some (7 ∷ []);
}

last_height : ChainState → Option ChainState → ℤ
last_height chain none = chain.last_block_height
last_height chain (some chain') = chain'.last_block_height

toy_env-IsLawful : IsLawful toy_env
unfolding last_height next_height
toy_env-IsLawful = record { applied = λ chain chain' n ok h. ap (last_height chain) (sym h) }

abbrev toy_chain : ChainState
toy_chain = record {
  chain_id = [];
  initial_height = pos 1;
  last_block_height = pos 2;
  validators = two;
}

-- The node waits for a proposal.
abbrev proposing : State toy_env
proposing = record {
  chain = toy_chain;
  height = pos 3;
  round = pos 0;
  step = RoundStep.propose;
  validators = two;
  proposal = none;
  proposal_block = none;
  proposal_parts = none;
  locked_round = negsuc 0;
  locked_block = none;
  locked_parts = none;
  valid_round = negsuc 0;
  valid_block = none;
  valid_parts = none;
  votes = start;
  commit_round = negsuc 0;
  last_commit = none;
  triggered_timeout_precommit = false;
  sent = timeout (pos 3) (pos 0) RoundStep.propose ∷ [];
}

-- It prevotes nil once it has waited long enough.
abbrev prevoted : State toy_env
prevoted = record proposing {
  step = RoundStep.prevote;
  sent =
      State.vote prevote (pos 3) (pos 0) nil_block_id
      ∷ timeout (pos 3) (pos 0) RoundStep.propose
      ∷ [];
}

proposing_times_out : handle_timeout proposing (pos 3) (pos 0) RoundStep.propose ≡ done prevoted
unfolding handle_timeout fire enter_prevote is_stale prevote_for sign_add_vote bytes_equal
proposing_times_out = refl

-- The node starts the first height of a chain, at which it proposes.
abbrev starting : State toy_env
starting = record proposing {
  chain = record toy_chain { initial_height = pos 3; last_block_height = pos 0 };
  step = RoundStep.new_height;
  sent = timeout (pos 3) (pos 0) RoundStep.new_height ∷ [];
}

starting-Good : Good starting
unfolding next_height ◌+ℤ◌
starting-Good = record {
  sorted = tt;
  settled = (inr (refl, inr (refl, omega arith)), tt);
  positive = omega arith;
  next = refl;
}

abbrev or_start : Outcome (State toy_env) → State toy_env
or_start (done cs) = cs
or_start panic = starting

abbrev proposed : State toy_env
proposed = or_start (handle_timeout starting (pos 3) (pos 0) RoundStep.new_height)

abbrev voted : State toy_env
voted = or_start (handle_timeout proposed (pos 3) (pos 0) RoundStep.propose)

abbrev Runs : Type 0
Runs =
    (handle_timeout starting (pos 3) (pos 0) RoundStep.new_height ≡ done proposed)
    × (proposed.sent
        ≡ State.proposes (pos 3) (pos 0) (negsuc 0) (block 1)
          ∷ timeout (pos 3) (pos 0) RoundStep.propose
          ∷ timeout (pos 3) (pos 0) RoundStep.new_height
          ∷ [])
    × (handle_timeout proposed (pos 3) (pos 0) RoundStep.propose ≡ done voted)
    × (voted.sent ≡ State.vote prevote (pos 3) (pos 0) nil_block_id ∷ proposed.sent)

-- It proposes block 1, and prevotes nil as the block does not come back in time.
runs : Runs
unfolding handle_timeout fire enter_new_round is_stale_round successor set_round ensure_rounds
    ensure_round predecessor add_round VoteSet.new ValidatorSet.size reset_round propose_or_wait
    enter_propose is_stale propose_as propose_if_proposer get_proposer find_proposer
    compare_proposer_priority bytes_equal decide_proposal block_to_propose create_proposal_block
    commit_to_use after_propose is_proposal_complete prevote_if_complete enter_prevote prevote_for
    sign_add_vote ◌-ℤ◌ ◌+ℤ◌ add_fresh_round
runs = (refl, refl, refl, refl)

turns : Turns toy_env toy starting voted
turns =
    let second : Memᴰ (timeout (pos 3) (pos 0) RoundStep.propose) proposed.sent =
      rw runs.1 (Memᴰ.tail (Memᴰ.head refl)) in
    next
      (next History.start (times_out (pos 3) (pos 0) RoundStep.new_height (Memᴰ.head refl) runs.0))
      (times_out (pos 3) (pos 0) RoundStep.propose second runs.2)

Turns-Keeps_example : Keeps starting voted
Turns-Keeps_example = Turns-Keeps toy_env-IsLawful toy starting voted starting-Good turns

-- The prevotes of round 0 have a majority for the proposal block.
abbrev with_polka : State toy_env
with_polka = record prevoted { proposal_block = some 1; proposal_parts = some 1; votes = polka }

precommit_due : is_stale with_polka (pos 3) (pos 0) RoundStep.precommit ≡ false
unfolding is_stale
precommit_due = refl

enter_precommit_lem_example :
    Precommits with_polka (pos 0) (enter_precommit with_polka (pos 3) (pos 0))
enter_precommit_lem_example = enter_precommit_lem with_polka (pos 3) 0 precommit_due (omega arith)

-- The precommits of round 0 have a majority for the proposal block.
abbrev committing : State toy_env
committing = record with_polka {
  step = RoundStep.commit;
  commit_round = pos 0;
  votes = record start {
    round_vote_sets =
        insert (pos 0)
          (record {
            prevotes = no_votes prevote;
            precommits = record (no_votes precommit) { maj23 = some (block 1) };
          })
          start.round_vote_sets;
  };
}

-- The private validator last signed a precommit of the height before.
abbrev signed_before : LastSignState
signed_before = record {
  height = pos 2;
  round = pos 0;
  step = 3;
  signature = some [];
  sign_bytes = some [];
}

abbrev toy_codec : Codec
toy_codec = record {
  unmarshal_vote = λ bz. none;
  equal_votes = λ a b. false;
  marshal_proposal = λ p. [];
  unmarshal_proposal = λ bz. none;
  equal_proposals = λ a b. false;
}

voted-Signable : Signable signed_before voted.sent
unfolding is_vote_type_valid BlockId.validate_basic
voted-Signable =
    rw (runs.3, runs.1) ((refl, refl, inl (omega arith), (refl, inl (omega arith), tt)))

asked_are_signed_example :
    (pv : FilePv) × (sign_all toy toy_codec []
        (λ bz. some bz)
        (7 ∷ [])
        (pos 0)
        (λ t h r. 9)
        (record { last = signed_before; disk = signed_before })
        voted.sent
      ≡ done (pv, true))
asked_are_signed_example =
    asked_are_signed toy toy_codec [] (λ bz. some bz) (7 ∷ []) (pos 0) (λ t h r. 9)
      (λ bz. (bz, refl)) toy_env-IsLawful toy starting voted
      (record { last = signed_before; disk = signed_before }) starting-Good turns voted-Signable
