-- ===== src/Light/Tests.antt =====
-- Runs of the light client's verification, and the theorems at them.
use totally_not_a_fork_of_ce.Prelude.{
  ℕ, ◌*◌, ◌<◌, ◌≤◌, ◌≡◌, ◌⊎◌, refl, true, false, List, [], ◌∷◌, map, none, some, arith, replicate,
}
use totally_not_a_fork_of_ce.Prelude.Bytes.{bytes_equal}
use totally_not_a_fork_of_ce.Prelude.Int.{pos, ◌+ℤ◌}
use totally_not_a_fork_of_ce.Prelude.Outcome.{done}
use totally_not_a_fork_of_ce.Types.BlockId.{BlockId}
use totally_not_a_fork_of_ce.Types.BlockId
use totally_not_a_fork_of_ce.Types.PartSetHeader
use totally_not_a_fork_of_ce.Types.Vote
use totally_not_a_fork_of_ce.Types.Commit
use totally_not_a_fork_of_ce.Types.Header
use totally_not_a_fork_of_ce.Types.Validation
use totally_not_a_fork_of_ce.Types.ValidatorSet
use totally_not_a_fork_of_ce.Types.Validation.Entry
use totally_not_a_fork_of_ce.Types.ValidatorSet.{ValidatorSet, Validator, get_proposer}
use totally_not_a_fork_of_ce.Types.Vote.{Crypto}
use totally_not_a_fork_of_ce.Types.Commit.{Commit, CommitSig, absent_sig, commit}
use totally_not_a_fork_of_ce.Types.Header.{Header, Hashing, SignedHeader}
use totally_not_a_fork_of_ce.Types.Validation.{Batch}
use totally_not_a_fork_of_ce.Types.Validation.Arithmetic.{Fraction}
use totally_not_a_fork_of_ce.Types.Validation.Faithful.{IsFaithful, all_entries_valid, entry_valid}
use totally_not_a_fork_of_ce.Light.{
  verify, verify_adjacent, has_required_fields, verify_new_header_and_vals, check_commit,
  header_expired, validate_trust_level,
}
use totally_not_a_fork_of_ce.Light.Sound.{
  IsNewer, IsCommitted, IsLinked, IsTrusted, verify_lem, validate_trust_level_lem,
}

-- A scheme in which a signature is the public key itself.
abbrev toy : Crypto
toy = record {
  address = λ k. k;
  verify_signature = λ k m s. bytes_equal s k;
  marshal_delimited = λ v. [];
}

abbrev toy_batch : Batch
toy_batch = record {
  supports = λ _. true;
  accepts = λ key e. true;
  verify = λ key es. (all_entries_valid toy es, map (entry_valid toy) es);
}

toy-IsFaithful : IsFaithful toy toy_batch
toy-IsFaithful = record { verified = λ key e es. refl }

abbrev validator : ℕ → ℕ → Validator
validator n power = record {
  address = n ∷ [];
  pub_key = n ∷ [];
  voting_power = power;
  proposer_priority = pos 0;
}

abbrev three : ValidatorSet
three = record {
  validators = validator 7 5 ∷ validator 8 2 ∷ validator 9 2 ∷ [];
  proposer = some (validator 7 5);
  cached_power = 0;
}

three-IsValid : ValidatorSet.IsValid three
three-IsValid = record { within = omega arith; cached = λ h. absurd (h refl) }

abbrev block : BlockId
block = record { hash = replicate 32 1; parts = record { total = 1; hash = replicate 32 2 } }

abbrev sig : ℕ → CommitSig
sig n = record {
  block_id_flag = commit;
  validator_address = replicate 20 n;
  timestamp = 4;
  signature = n ∷ [];
}

abbrev of_sigs : List CommitSig → Commit
of_sigs sigs = record { height = pos 3; round = pos 0; block_id = block; signatures = sigs }

abbrev good_sigs : List CommitSig
good_sigs = sig 7 ∷ sig 8 ∷ absent_sig ∷ []

three-proposes : get_proposer three ≡ done (some (validator 7 5))
unfolding get_proposer
three-proposes = refl

abbrev roots : Hashing
roots = record { header_root = λ h. replicate 32 1; validators_root = λ vals. replicate 32 5 }

abbrev header : ℕ → ℕ → Header
header height time = record {
  block_protocol = 11;
  app_version = 0;
  chain_id = 3 ∷ [];
  height = pos height;
  time = time;
  last_block_id = block;
  last_commit_hash = [];
  data_hash = [];
  validators_hash = replicate 32 5;
  next_validators_hash = replicate 32 5;
  consensus_hash = [];
  app_hash = [];
  last_results_hash = [];
  evidence_hash = [];
  proposer_address = replicate 20 7;
}

abbrev trusted : SignedHeader
trusted = record { header = header 2 10; commit = none }

abbrev untrusted : SignedHeader
untrusted = record { header = header 3 20; commit = some (of_sigs good_sigs) }

abbrev third : Fraction
third = record { numerator = 1; denominator = 3 }

verify_run :
    verify toy toy_batch roots trusted three untrusted three (pos 100) 30 (pos 5) third ≡ done none
unfolding verify ◌+ℤ◌ verify_adjacent has_required_fields header_expired verify_new_header_and_vals
    Header.signed_validate_basic Header.header_validate_basic BlockId.validate_basic
    Commit.validate_basic bytes_equal Header.header_hash check_commit Entry.verify_commit_light
    Entry.verify_basic ValidatorSet.size BlockId.equals PartSetHeader.equals BlockId.is_zero
    Commit.all_valid Commit.for_block Commit.get_vote Commit.sig_block_id Commit.sig_validate_basic
    Commit.vote_of Commit.vote_sign_bytes PartSetHeader.is_zero PartSetHeader.validate_basic
    PartSetHeader.validate_hash Validation.batch_case Validation.batch_end Validation.batch_found
    Validation.batch_loop Validation.batch_step Validation.enough Validation.look_up
    Validation.proposer_key Validation.short_of Validation.should_batch_verify Validation.tally
    Validation.verify_commit_batch Validation.verify_either get_proposer ValidatorSet.safe_add_clip
    ValidatorSet.sum_powers ValidatorSet.total_voting_power Vote.canonicalize_block_id
    Vote.canonicalize_vote Vote.vote_sign_bytes
verify_run = refl

verify_lem_example :
    (IsLinked toy toy_batch roots toy-IsFaithful trusted untrusted three three-IsValid
        (validator 7 5)
        three-proposes
      ⊎ IsTrusted toy toy_batch roots toy-IsFaithful trusted untrusted three three-IsValid
          (validator 7 5)
          three-proposes
          three
          third)
    × (header_expired untrusted (pos 100) 30 ≡ false)
    × IsNewer roots trusted untrusted three 30 (pos 5)
    × IsCommitted toy toy_batch roots toy-IsFaithful trusted untrusted three three-IsValid
        (validator 7 5)
        three-proposes
verify_lem_example =
    verify_lem toy toy_batch roots toy-IsFaithful trusted untrusted three three-IsValid
      (validator 7 5) three-proposes three (pos 100) 30 (pos 5) third verify_run

third_run : validate_trust_level third ≡ none
unfolding validate_trust_level
third_run = refl

validate_trust_level_lem_example : (3 ≤ 3 * 1) × (1 < 3)
validate_trust_level_lem_example = validate_trust_level_lem third third_run
