-- ===== src/Light.antt =====
-- light/verifier.go: the verification of a header from a trusted one.
pub mod Sound
mod Tests
use totally_not_a_fork_of_ce.Prelude.{
  ℕ, ◌*◌, ◌%◌, ◌^◌, Bool, true, false, Option, none, some, not, ◌||◌, ltb, leb, ◌==◌, if◌then◌else◌,
  length,
}
use totally_not_a_fork_of_ce.Prelude.Bytes.{Bytes, bytes_equal}
use totally_not_a_fork_of_ce.Prelude.Int.{ℤ, pos, ltb_ℤ, leb_ℤ, ◌==ℤ◌, ◌+ℤ◌}
use totally_not_a_fork_of_ce.Prelude.Outcome.{Outcome, done, panic, ◌>>=◌, or_panic}
use totally_not_a_fork_of_ce.Types.ValidatorSet.{ValidatorSet}
use totally_not_a_fork_of_ce.Types.Vote.{Crypto}
use totally_not_a_fork_of_ce.Types.Commit.{Commit}
use totally_not_a_fork_of_ce.Types.Header.{
  Header, Hashing, SignedHeader, header_hash, header_validate_basic, signed_validate_basic,
}
use totally_not_a_fork_of_ce.Types.Validation.{Error, Batch, not_enough_voting_power_signed}
use totally_not_a_fork_of_ce.Types.Validation.Arithmetic.{Fraction}
use totally_not_a_fork_of_ce.Types.Validation.Entry.{
  verify_commit_light, verify_commit_light_trusting,
}

-- Why a header is invalid.
pub data Reason : Type 0 where
  basic height_not_greater time_not_after time_from_future wrong_validators : Reason
  wrong_next_validators other_chain time_not_before wrong_hash : Reason
  commit_refused : Error → Reason

pub data LightError : Type 0 where
  adjacent not_adjacent bad_trust_level old_header_expired : LightError
  new_val_set_cant_be_trusted : ℕ → ℤ → LightError
  invalid_header : Reason → LightError

-- The product of uint64 wraps around.
unfoldable pub validate_trust_level : Fraction → Option LightError
validate_trust_level lvl =
    if ltb (lvl.numerator * 3 % 2 ^ 64) lvl.denominator
      || leb lvl.denominator lvl.numerator
      || lvl.denominator == 0
    then some bad_trust_level
    else none

unfoldable pub header_expired : SignedHeader → ℤ → ℕ → Bool
header_expired sh trusting_period now =
    not (ltb_ℤ (pos now) (pos sh.header.time +ℤ trusting_period))

-- checkRequiredHeaderFields panics where this is false.
unfoldable pub has_required_fields : Header → Bool
has_required_fields h = not (h.height ==ℤ pos 0 || h.time == 0 || length h.chain_id == 0)

unfoldable pub verify_new_header_and_vals :
    Hashing → SignedHeader → ValidatorSet → SignedHeader → ℕ → ℤ → Option Reason
verify_new_header_and_vals m untrusted vals trusted now max_clock_drift =
    if not (signed_validate_basic m untrusted trusted.header.chain_id)
    then some basic
    else if leb_ℤ untrusted.header.height trusted.header.height
    then some height_not_greater
    else if not (ltb trusted.header.time untrusted.header.time)
    then some time_not_after
    else if not (ltb_ℤ (pos untrusted.header.time) (pos now +ℤ max_clock_drift))
    then some time_from_future
    else if not (bytes_equal untrusted.header.validators_hash (m.validators_root vals))
    then some wrong_validators
    else none

-- The error of the trusting verification.
abbrev pub distrust : Error → LightError
distrust (not_enough_voting_power_signed got needed) = new_val_set_cant_be_trusted got needed
distrust e = invalid_header (commit_refused e)

-- VerifyBackwards
unfoldable pub verify_backwards : Hashing → Header → Header → Option LightError
verify_backwards m untrusted trusted =
    if not (header_validate_basic untrusted)
    then some (invalid_header basic)
    else if not (bytes_equal untrusted.chain_id trusted.chain_id)
    then some (invalid_header other_chain)
    else if not (ltb untrusted.time trusted.time)
    then some (invalid_header time_not_before)
    else if not (bytes_equal (header_hash m untrusted) trusted.last_block_id.hash)
    then some (invalid_header wrong_hash)
    else none

module _ (k : Crypto) (b : Batch) (m : Hashing) where
  abbrev as_invalid : Option Error → Option LightError
  as_invalid none = none
  as_invalid (some e) = some (invalid_header (commit_refused e))

  -- The last check: more than two thirds of the new validators signed.
  unfoldable pub check_commit :
      SignedHeader → ValidatorSet → SignedHeader → Outcome (Option LightError)
  check_commit untrusted vals trusted = do
    commit ← or_panic untrusted.commit
    e ←
        verify_commit_light k b trusted.header.chain_id (some vals) commit.block_id
          untrusted.header.height (some commit)
    done (as_invalid e)

  -- VerifyNonAdjacent from the trusting verification on.
  unfoldable pub check_trust :
      SignedHeader
      → ValidatorSet
      → SignedHeader
      → ValidatorSet
      → Fraction
      → Outcome (Option LightError)
  check_trust trusted trusted_vals untrusted vals level = do
    e ←
        verify_commit_light_trusting k b trusted.header.chain_id (some trusted_vals)
          untrusted.commit level
    elim e [ some e ↦ done (some (distrust e)) | none ↦ check_commit untrusted vals trusted ]

  abbrev go_on : Option Reason → Outcome (Option LightError) → Outcome (Option LightError)
  go_on none next = next
  go_on (some r) next = done (some (invalid_header r))

  abbrev with_level : Option LightError → Outcome (Option LightError) → Outcome (Option LightError)
  with_level none next = next
  with_level (some e) next = done (some e)

  unfoldable pub verify_non_adjacent :
      SignedHeader
      → ValidatorSet
      → SignedHeader
      → ValidatorSet
      → ℤ
      → ℕ
      → ℤ
      → Fraction
      → Outcome (Option LightError)
  verify_non_adjacent trusted trusted_vals untrusted vals period now drift level =
      if not (has_required_fields trusted.header)
      then panic
      else if untrusted.header.height ==ℤ trusted.header.height +ℤ pos 1
      then done (some adjacent)
      else with_level (validate_trust_level level) (
          if header_expired untrusted period now
          then done (some old_header_expired)
          else go_on (verify_new_header_and_vals m untrusted vals trusted now drift)
              (check_trust trusted trusted_vals untrusted vals level))

  unfoldable pub verify_adjacent :
      SignedHeader → SignedHeader → ValidatorSet → ℤ → ℕ → ℤ → Outcome (Option LightError)
  verify_adjacent trusted untrusted vals period now drift =
      if not (has_required_fields trusted.header)
      then panic
      else if length trusted.header.next_validators_hash == 0
      then panic
      else if not (untrusted.header.height ==ℤ trusted.header.height +ℤ pos 1)
      then done (some not_adjacent)
      else if header_expired untrusted period now
      then done (some old_header_expired)
      else go_on (verify_new_header_and_vals m untrusted vals trusted now drift) (
          if not (bytes_equal untrusted.header.validators_hash trusted.header.next_validators_hash)
          then done (some (invalid_header wrong_next_validators))
          else check_commit untrusted vals trusted)

  unfoldable pub verify :
      SignedHeader
      → ValidatorSet
      → SignedHeader
      → ValidatorSet
      → ℤ
      → ℕ
      → ℤ
      → Fraction
      → Outcome (Option LightError)
  verify trusted trusted_vals untrusted vals period now drift level =
      if not (untrusted.header.height ==ℤ trusted.header.height +ℤ pos 1)
      then verify_non_adjacent trusted trusted_vals untrusted vals period now drift level
      else verify_adjacent trusted untrusted vals period now drift
