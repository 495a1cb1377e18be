-- ===== src/Types/Validation/Tests.antt =====
-- Runs of the verification of a small commit, and the theorems at them.
use totally_not_a_fork_of_ce.Prelude.{
  ℕ, ◌*◌, ◌<◌, ◌≡◌, ◌↔◌, refl, true, List, [], ◌∷◌, map, none, some, arith, replicate,
}
use totally_not_a_fork_of_ce.Prelude.Bytes.{Bytes, bytes_equal}
use totally_not_a_fork_of_ce.Prelude.Int.{pos}
use totally_not_a_fork_of_ce.Prelude.Outcome.{done}
use totally_not_a_fork_of_ce.Types.BlockId
use totally_not_a_fork_of_ce.Types.PartSetHeader
use totally_not_a_fork_of_ce.Types.BlockId.{BlockId}
use totally_not_a_fork_of_ce.Types.ValidatorSet
use totally_not_a_fork_of_ce.Types.ValidatorSet.{
  ValidatorSet, Validator, total, get_proposer, total_voting_power, get_by_address,
}
use totally_not_a_fork_of_ce.Types.Vote
use totally_not_a_fork_of_ce.Types.Vote.{Crypto, canonicalize_vote, canonicalize_block_id}
use totally_not_a_fork_of_ce.Types.Commit.{
  Commit, CommitSig, absent_sig, commit, vote_sign_bytes, for_block, is_absent, get_vote, vote_of,
  sig_block_id,
}
use totally_not_a_fork_of_ce.Types.Validation.{
  bad_entry, single_found, single_case, single_step, single_loop, Batch, verify_either,
  verify_commit_single, wrong_signature, not_enough_voting_power_signed, double_vote, look_up,
  look_address, look_seen, seen_at, tally, enough, short_of, batch_found, batch_case, batch_step,
  batch_loop, batch_end, verify_commit_batch, should_batch_verify, proposer_key, first_invalid,
}
use totally_not_a_fork_of_ce.Types.Validation.Arithmetic.{
  safe_mul, div_int64, to_int64, mul_limit, mul_int64,
}
use totally_not_a_fork_of_ce.Types.Validation.Entry.{
  full_mode, verify_basic, verify_commit, verify_commit_light, verify_commit_light_trusting,
}
use totally_not_a_fork_of_ce.Types.Validation.Batching.{verify_either_lem}
use totally_not_a_fork_of_ce.Types.Validation.Faithful.{
  accepted, IsFaithful, AddsAll, all_entries_valid, entry_valid,
}
use totally_not_a_fork_of_ce.Types.Validation.Sound.{all_signed, block_power, signed_power}
use totally_not_a_fork_of_ce.Types.Validation.Accepts.{
  Fits, verify_commit-accepts, verify_commit_light_sound, verify_commit_light_of_full,
}

-- A scheme in which a signature is the public key itself.
abbrev toy : Crypto
toy = record {
  address = λ k. k;
  verify_signature = λ k m s. bytes_equal s k;
  marshal_delimited = λ v. [];
}

abbrev toy_batch : Batch
toy_batch = record {
  supports = λ _. true;
  accepts = λ key e. true;
  verify = λ key es. (all_entries_valid toy es, map (entry_valid toy) es);
}

toy-IsFaithful : IsFaithful toy toy_batch
toy-IsFaithful = record { verified = λ key e es. refl }

toy-AddsAll : (key : Bytes) (vals : ValidatorSet) → AddsAll toy toy_batch key vals
toy-AddsAll key vals val mem message sig h = ground arith

abbrev validator : ℕ → ℕ → Validator
validator n power = record {
  address = n ∷ [];
  pub_key = n ∷ [];
  voting_power = power;
  proposer_priority = pos 0;
}

abbrev three : ValidatorSet
three = record {
  validators = validator 7 5 ∷ validator 8 2 ∷ validator 9 2 ∷ [];
  proposer = some (validator 7 5);
  cached_power = 0;
}

three-IsValid : ValidatorSet.IsValid three
three-IsValid = record { within = omega arith; cached = λ h. absurd (h refl) }

abbrev block : BlockId
block = record { hash = replicate 32 1; parts = record { total = 1; hash = replicate 32 2 } }

abbrev sig : ℕ → CommitSig
sig n = record {
  block_id_flag = commit;
  validator_address = n ∷ [];
  timestamp = 4;
  signature = n ∷ [];
}

abbrev of_sigs : List CommitSig → Commit
of_sigs sigs = record { height = pos 3; round = pos 0; block_id = block; signatures = sigs }

abbrev good_sigs : List CommitSig
good_sigs = sig 7 ∷ sig 8 ∷ absent_sig ∷ []

-- A third signature that VerifyCommitLight does not come to.
abbrev early : List CommitSig
early = sig 7 ∷ sig 8 ∷ sig 8 ∷ []

three-proposes : get_proposer three ≡ done (some (validator 7 5))
unfolding get_proposer
three-proposes = refl

accepted_run :
    verify_commit toy toy_batch [] (some three) block (pos 3) (some (of_sigs good_sigs)) ≡ done none
unfolding verify_commit verify_basic verify_either should_batch_verify verify_commit_batch
    proposer_key batch_loop batch_step batch_case batch_found batch_end tally enough short_of
    look_up get_proposer total_voting_power ValidatorSet.sum_powers ValidatorSet.safe_add_clip
    vote_sign_bytes get_vote vote_of sig_block_id for_block is_absent Vote.vote_sign_bytes
    canonicalize_vote canonicalize_block_id BlockId.equals ValidatorSet.size bytes_equal
    PartSetHeader.equals BlockId.validate_basic
accepted_run = refl

wrong_signature_run :
    verify_commit toy toy_batch []
      (some three)
      block
      (pos 3)
      (some (of_sigs (sig 7 ∷ sig 7 ∷ absent_sig ∷ [])))
    ≡ done (some (wrong_signature 1))
unfolding verify_commit verify_basic verify_either should_batch_verify verify_commit_batch
    proposer_key batch_loop batch_step batch_case batch_found batch_end tally enough short_of
    look_up get_proposer total_voting_power ValidatorSet.sum_powers ValidatorSet.safe_add_clip
    vote_sign_bytes get_vote vote_of sig_block_id for_block is_absent Vote.vote_sign_bytes
    canonicalize_vote canonicalize_block_id BlockId.equals ValidatorSet.size bytes_equal
    PartSetHeader.equals BlockId.validate_basic first_invalid
wrong_signature_run = refl

too_little_run :
    verify_commit toy toy_batch []
      (some three)
      block
      (pos 3)
      (some (of_sigs (absent_sig ∷ sig 8 ∷ sig 9 ∷ [])))
    ≡ done (some (not_enough_voting_power_signed 4 (pos 6)))
unfolding verify_commit verify_basic verify_either should_batch_verify verify_commit_batch
    proposer_key batch_loop batch_step batch_case batch_found batch_end tally enough short_of
    look_up get_proposer total_voting_power ValidatorSet.sum_powers ValidatorSet.safe_add_clip
    vote_sign_bytes get_vote vote_of sig_block_id for_block is_absent Vote.vote_sign_bytes
    canonicalize_vote canonicalize_block_id BlockId.equals ValidatorSet.size bytes_equal
    PartSetHeader.equals BlockId.validate_basic
too_little_run = refl

-- A batch verifier that refuses all keys but the one that it is created for, as if each key had a
-- type of its own: the same commit is rejected in a batch and accepted one by one.
abbrev strict_batch : Batch
strict_batch = record toy_batch { accepts = λ key (pub_key, message, sig). bytes_equal pub_key key }

mixed_keys_run :
    (verify_either toy [] three (of_sigs good_sigs) (full_mode 9) strict_batch
      ≡ done (some bad_entry))
    × (verify_commit_single toy [] three (of_sigs good_sigs) (full_mode 9) ≡ done none)
unfolding verify_either should_batch_verify verify_commit_batch proposer_key batch_loop batch_step
    batch_case batch_found batch_end tally enough short_of look_up get_proposer vote_sign_bytes
    get_vote vote_of sig_block_id for_block is_absent Vote.vote_sign_bytes canonicalize_vote
    canonicalize_block_id bytes_equal BlockId.validate_basic verify_commit_single single_loop
    single_step single_case single_found
mixed_keys_run = (refl, refl)

light_run :
    verify_commit_light toy toy_batch [] (some three) block (pos 3) (some (of_sigs early))
    ≡ done none
unfolding verify_commit verify_basic verify_either should_batch_verify verify_commit_batch
    proposer_key batch_loop batch_step batch_case batch_found batch_end tally enough short_of
    look_up get_proposer total_voting_power ValidatorSet.sum_powers ValidatorSet.safe_add_clip
    vote_sign_bytes get_vote vote_of sig_block_id for_block is_absent Vote.vote_sign_bytes
    canonicalize_vote canonicalize_block_id BlockId.equals ValidatorSet.size bytes_equal
    PartSetHeader.equals BlockId.validate_basic verify_commit_light
light_run = refl

trusting_run :
    verify_commit_light_trusting toy toy_batch []
      (some three)
      (some (of_sigs (sig 9 ∷ sig 7 ∷ [])))
      (record { numerator = 1; denominator = 3 })
    ≡ done none
unfolding verify_commit verify_basic verify_either should_batch_verify verify_commit_batch
    proposer_key batch_loop batch_step batch_case batch_found batch_end tally enough short_of
    look_up get_proposer total_voting_power ValidatorSet.sum_powers ValidatorSet.safe_add_clip
    vote_sign_bytes get_vote vote_of sig_block_id for_block is_absent Vote.vote_sign_bytes
    canonicalize_vote canonicalize_block_id BlockId.equals ValidatorSet.size bytes_equal
    PartSetHeader.equals BlockId.validate_basic verify_commit_light_trusting safe_mul div_int64
    to_int64 get_by_address look_address look_seen seen_at ValidatorSet.find_address mul_limit
    mul_int64
trusting_run = refl

double_vote_run :
    verify_commit_light_trusting toy toy_batch []
      (some three)
      (some (of_sigs (sig 9 ∷ sig 9 ∷ [])))
      (record { numerator = 1; denominator = 3 })
    ≡ done (some (double_vote 0 1))
unfolding verify_commit verify_basic verify_either should_batch_verify verify_commit_batch
    proposer_key batch_loop batch_step batch_case batch_found batch_end tally enough short_of
    look_up get_proposer total_voting_power ValidatorSet.sum_powers ValidatorSet.safe_add_clip
    vote_sign_bytes get_vote vote_of sig_block_id for_block is_absent Vote.vote_sign_bytes
    canonicalize_vote canonicalize_block_id BlockId.equals ValidatorSet.size bytes_equal
    PartSetHeader.equals BlockId.validate_basic verify_commit_light_trusting safe_mul div_int64
    to_int64 get_by_address look_address look_seen seen_at ValidatorSet.find_address mul_limit
    mul_int64
double_vote_run = refl

verify_either_lem_example :
    accepted (verify_either toy [] three (of_sigs good_sigs) (full_mode 9) toy_batch)
    ≡ accepted (verify_commit_single toy [] three (of_sigs good_sigs) (full_mode 9))
verify_either_lem_example =
    verify_either_lem toy [] three (of_sigs good_sigs) (full_mode 9) toy_batch toy-IsFaithful refl
      (validator 7 5) three-proposes (toy-AddsAll (7 ∷ []) three)

verify_commit-accepts_example :
    (verify_commit toy toy_batch [] (some three) block (pos 3) (some (of_sigs good_sigs))
      ≡ done none)
    ↔ (Fits three block (pos 3) (of_sigs good_sigs)
        × (all_signed toy [] three (of_sigs good_sigs) 0 good_sigs ≡ true)
        × (2 * total three.validators
            < 3 * block_power toy [] three (of_sigs good_sigs) 0 good_sigs))
verify_commit-accepts_example =
    verify_commit-accepts toy toy_batch [] three (of_sigs good_sigs) toy-IsFaithful three-IsValid
      (validator 7 5) three-proposes (toy-AddsAll (7 ∷ []) three) block (pos 3)

verify_commit_light_sound_example :
    Fits three block (pos 3) (of_sigs early)
    × (2 * total three.validators < 3 * signed_power toy [] three (of_sigs early) 0 early)
verify_commit_light_sound_example =
    verify_commit_light_sound toy toy_batch [] three (of_sigs early) toy-IsFaithful three-IsValid
      (validator 7 5) three-proposes block (pos 3) light_run

verify_commit_light_of_full_example :
    verify_commit_light toy toy_batch [] (some three) block (pos 3) (some (of_sigs good_sigs))
    ≡ done none
verify_commit_light_of_full_example =
    verify_commit_light_of_full toy toy_batch [] three (of_sigs good_sigs) toy-IsFaithful
      three-IsValid (validator 7 5) three-proposes (toy-AddsAll (7 ∷ []) three) block (pos 3)
      accepted_run
