-- ===== src/Types/Validation/Entry.antt =====
-- types/validation.go: VerifyCommit, VerifyCommitLight and VerifyCommitLightTrusting.
use totally_not_a_fork_of_ce.Prelude.{
  ℕ, ◌*◌, ◌/◌, true, false, Option, none, some, not, ◌==◌, if◌then◌else◌, length,
}
use totally_not_a_fork_of_ce.Prelude.Bytes.{Bytes}
use totally_not_a_fork_of_ce.Prelude.Int.{ℤ, pos, ◌==ℤ◌}
use totally_not_a_fork_of_ce.Prelude.Outcome.{done, ◌>>=◌}
use totally_not_a_fork_of_ce.Types.BlockId
use totally_not_a_fork_of_ce.Types.BlockId.{BlockId}
use totally_not_a_fork_of_ce.Types.ValidatorSet
use totally_not_a_fork_of_ce.Types.ValidatorSet.{
  ValidatorSet, Validator, total_voting_power, get_by_address, get_proposer, max_int64,
}
use totally_not_a_fork_of_ce.Types.Vote.{Crypto}
use totally_not_a_fork_of_ce.Types.Commit.{Commit, for_block, is_absent}
use totally_not_a_fork_of_ce.Types.Validation.{
  Verdict, Mode, Batch, verify_either, nil_validator_set, nil_commit, zero_denominator, overflow,
  invalid_commit_signatures, invalid_commit_height, wrong_block_id,
}
use totally_not_a_fork_of_ce.Types.Validation.Arithmetic.{Fraction, to_int64, safe_mul, div_int64}

-- verifyBasicValsAndCommit
unfoldable pub verify_basic :
    Option ValidatorSet → Option Commit → ℤ → BlockId → (ValidatorSet → Commit → Verdict) → Verdict
verify_basic none commit height block_id next = done (some nil_validator_set)
verify_basic (some vals) none height block_id next = done (some nil_commit)
verify_basic (some vals) (some commit) height block_id next =
    if not (ValidatorSet.size vals == length commit.signatures)
    then done (some (invalid_commit_signatures (ValidatorSet.size vals) (length commit.signatures)))
    else if not (height ==ℤ commit.height)
    then done (some (invalid_commit_height height commit.height))
    else if not (BlockId.equals block_id commit.block_id)
    then done (some (wrong_block_id block_id commit.block_id))
    else next vals commit

-- The three ways to verify a commit: all signatures, those for the block, and those for the block
-- by validators that are looked up by address.
abbrev pub full_mode : ℕ → Mode
full_mode total = record {
  needed = pos (total * 2 / 3);
  ignore = is_absent;
  counts = for_block;
  count_all = true;
  by_index = true;
}

abbrev pub light_mode : ℕ → Mode
light_mode total = record {
  needed = pos (total * 2 / 3);
  ignore = λ c. not (for_block c);
  counts = λ _. true;
  count_all = false;
  by_index = true;
}

abbrev pub trusting_mode : ℤ → Mode
trusting_mode needed = record {
  needed = needed;
  ignore = λ c. not (for_block c);
  counts = λ _. true;
  count_all = false;
  by_index = false;
}

module _ (k : Crypto) (b : Batch) (chain_id : Bytes) where
  unfoldable pub verify_commit : Option ValidatorSet → BlockId → ℤ → Option Commit → Verdict
  verify_commit vals block_id height commit =
      verify_basic vals commit height block_id λ vals commit. do
        total ← total_voting_power vals
        verify_either k chain_id vals commit (full_mode total) b

  unfoldable pub verify_commit_light : Option ValidatorSet → BlockId → ℤ → Option Commit → Verdict
  verify_commit_light vals block_id height commit =
      verify_basic vals commit height block_id λ vals commit. do
        total ← total_voting_power vals
        verify_either k chain_id vals commit (light_mode total) b

  unfoldable pub verify_commit_light_trusting :
      Option ValidatorSet → Option Commit → Fraction → Verdict
  verify_commit_light_trusting none commit level = done (some nil_validator_set)
  verify_commit_light_trusting (some vals) commit level =
      if level.denominator == 0 then done (some zero_denominator) else (elim commit [
        | none ↦ done (some nil_commit)
        | some commit ↦ do
          total ← total_voting_power vals
          elim (safe_mul total (to_int64 level.numerator)) [
            | none ↦ done (some overflow)
            | some product ↦
                verify_either k chain_id vals commit
                  (trusting_mode (div_int64 product (to_int64 level.denominator))) b
          ]
      ])
