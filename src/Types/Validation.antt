-- ===== src/Types/Validation.antt =====
-- types/validation.go: the verification of commits, one signature at a time or in a batch.
pub mod Arithmetic
pub mod Entry
pub mod Finding
pub mod Faithful
pub mod Batching
pub mod Sound
pub mod Accepts
mod Tests
use totally_not_a_fork_of_ce.Prelude.{
  ℕ, suc, ◌+◌, ◌*◌, ◌/◌, ◌%◌, ◌^◌, ◌-◌, Bool, true, false, List, [], ◌∷◌, ◌++◌, Option, none, some,
  not, ◌&&◌, ◌||◌, ltb, leb, ◌==◌, if◌then◌else◌, get_elem?, length, ◌≡◌,
}
use totally_not_a_fork_of_ce.Prelude.Bytes.{Bytes}
use totally_not_a_fork_of_ce.Prelude.Int.{ℤ, pos, negsuc, ltb_ℤ, leb_ℤ, ◌==ℤ◌}
use totally_not_a_fork_of_ce.Prelude.Outcome.{Outcome, done, panic, ◌>>=◌, or_panic}
use totally_not_a_fork_of_ce.Types.BlockId
use totally_not_a_fork_of_ce.Types.BlockId.{BlockId}
use totally_not_a_fork_of_ce.Types.ValidatorSet
use totally_not_a_fork_of_ce.Types.ValidatorSet.{
  ValidatorSet, Validator, total_voting_power, get_by_address, get_proposer, max_int64,
}
use totally_not_a_fork_of_ce.Types.Vote.{Crypto}
use totally_not_a_fork_of_ce.Types.Commit
use totally_not_a_fork_of_ce.Types.Commit.{Commit, CommitSig, for_block, is_absent, vote_sign_bytes}

-- The errors of verification; `bad_entry` is an error of BatchVerifier.Add.
pub data Error : Type 0 where
  nil_validator_set nil_commit zero_denominator overflow unsupported bad_entry batch_bug : Error
  invalid_commit_signatures : ℕ → ℕ → Error
  invalid_commit_height : ℤ → ℤ → Error
  wrong_block_id : BlockId → BlockId → Error
  double_vote : ℕ → ℕ → Error
  wrong_signature : ℕ → Error
  not_enough_voting_power_signed : ℕ → ℤ → Error

-- `none` for a nil error.
abbrev pub Verdict : Type 0
Verdict = Outcome (Option Error)

-- The map seenVals, from a validator's index to a signature's.
abbrev pub Seen : Type 0
Seen = List (ℕ × ℕ)

unfoldable pub seen_at : ℕ → Seen → Option ℕ
seen_at i [] = none
seen_at i ((j, idx) ∷ rest) = if j == i then some idx else seen_at i rest

-- The arguments of verifyCommitBatch and verifyCommitSingle behind the commit.
pub record Mode : Type 0 where
  pub needed : ℤ
  pub ignore : CommitSig → Bool
  pub counts : CommitSig → Bool
  pub count_all : Bool
  pub by_index : Bool

-- The validator of a signature: none to be found, one that has signed before, or a new one.
pub data Lookup : Type 0 where
  skip : Lookup
  double : ℕ → Lookup
  found : Validator → Seen → Lookup

unfoldable pub look_seen : Seen → ℕ → ℕ → Validator → Option ℕ → Lookup
look_seen seen idx val_idx val (some first) = double first
look_seen seen idx val_idx val none = found val ((val_idx, idx) ∷ seen)

unfoldable pub look_address : Seen → ℕ → Option (ℕ × Validator) → Lookup
look_address seen idx none = skip
look_address seen idx (some (val_idx, val)) = look_seen seen idx val_idx val (seen_at val_idx seen)

unfoldable pub look_up : ValidatorSet → Mode → ℕ → CommitSig → Seen → Outcome Lookup
look_up vals m idx sig seen =
    if m.by_index
    then (or_panic (get_elem? vals.validators idx) >>= λ val. done (found val seen))
    else done (look_address seen idx (get_by_address vals sig.validator_address))

unfoldable pub tally : Mode → CommitSig → Validator → ℕ → ℕ
tally m sig val tallied = if m.counts sig then tallied + val.voting_power else tallied

-- if got <= needed { return ErrNotEnoughVotingPowerSigned }
unfoldable pub short_of : Mode → ℕ → Bool
short_of m tallied = leb_ℤ (pos tallied) m.needed

-- !countAllSignatures && talliedVotingPower > votingPowerNeeded
unfoldable pub enough : Mode → ℕ → Bool
enough m tallied = not m.count_all && ltb_ℤ m.needed (pos tallied)

-- One signature to verify: the key, the bytes and the signature.
abbrev pub Entry : Type 0
Entry = Bytes × Bytes × Bytes

-- crypto.BatchVerifier and crypto/batch: the keys that there is a verifier for, and of the verifier
-- that is created for a key, which entries Add refuses, and Verify on the entries added.
pub record Batch : Type 0 where
  pub supports : Bytes → Bool
  pub accepts : Bytes → Entry → Bool
  pub verify : Bytes → List Entry → Bool × List Bool

module _ (k : Crypto) (chain_id : Bytes) (vals : ValidatorSet) (commit : Commit) (m : Mode) where
  -- The body of the loop of verifyCommitSingle; `next` is the loop from the next signature on.
  unfoldable pub single_found :
      ℕ → CommitSig → ℕ → (Seen → ℕ → Verdict) → Seen → Validator → Verdict
  single_found idx sig tallied next seen val = do
    bz ← vote_sign_bytes k chain_id commit idx
    let tallied' = tally m sig val tallied
    let go_on = next seen tallied'
    if not (k.verify_signature val.pub_key bz sig.signature)
        then done (some (wrong_signature idx))
        else if enough m tallied'
        then done none
        else go_on

  unfoldable pub single_case : ℕ → CommitSig → Seen → ℕ → (Seen → ℕ → Verdict) → Lookup → Verdict
  single_case idx sig seen tallied next skip = next seen tallied
  single_case idx sig seen tallied next (double first) = done (some (double_vote first idx))
  single_case idx sig seen tallied next (found val seen') =
      single_found idx sig tallied next seen' val

  unfoldable pub single_step : ℕ → CommitSig → Seen → ℕ → (Seen → ℕ → Verdict) → Verdict
  single_step idx sig seen tallied next =
      if m.ignore sig
      then next seen tallied
      else look_up vals m idx sig seen >>= single_case idx sig seen tallied next

  unfoldable pub single_loop : ℕ → List CommitSig → Seen → ℕ → Verdict
  single_loop idx [] seen tallied =
      done (
        if short_of m tallied then some (not_enough_voting_power_signed tallied m.needed) else none)
  single_loop idx (sig ∷ sigs) seen tallied =
      single_step idx sig seen tallied (single_loop (suc idx) sigs)

  unfoldable pub verify_commit_single : Verdict
  verify_commit_single = single_loop 0 commit.signatures [] 0

  -- The first invalid signature of a batch.
  unfoldable pub first_invalid : List ℕ → List Bool → Error
  first_invalid (idx ∷ idxs) (true ∷ oks) = first_invalid idxs oks
  first_invalid (idx ∷ idxs) (false ∷ oks) = wrong_signature idx
  first_invalid _ _ = batch_bug

  -- `key` is the key that the batch verifier was created for.
  module _ (b : Batch) (key : Bytes) where
    -- What follows the loop of verifyCommitBatch, on the entries and indices in order.
    unfoldable pub batch_end : List Entry → List ℕ → ℕ → Verdict
    batch_end entries idxs tallied =
        if short_of m tallied
        then done (some (not_enough_voting_power_signed tallied m.needed))
        else (let (ok, oks) = b.verify key entries in
            if ok then done none else done (some (first_invalid idxs oks)))

    unfoldable pub batch_found :
        ℕ
        → CommitSig
        → ℕ
        → List Entry
        → List ℕ
        → (Seen → ℕ → List Entry → List ℕ → Verdict)
        → Seen
        → Validator
        → Verdict
    batch_found idx sig tallied entries idxs next seen val = do
      bz ← vote_sign_bytes k chain_id commit idx
      let entry : Entry = (val.pub_key, bz, sig.signature)
      let tallied' = tally m sig val tallied
      let entries' = entries ++ entry ∷ []
      let idxs' = idxs ++ idx ∷ []
      let go_on = next seen tallied' entries' idxs'
      if not (b.accepts key entry)
          then done (some bad_entry)
          else if enough m tallied'
          then batch_end entries' idxs' tallied'
          else go_on

    unfoldable pub batch_case :
        ℕ
        → CommitSig
        → Seen
        → ℕ
        → List Entry
        → List ℕ
        → (Seen → ℕ → List Entry → List ℕ → Verdict)
        → Lookup
        → Verdict
    batch_case idx sig seen tallied entries idxs next skip = next seen tallied entries idxs
    batch_case idx sig seen tallied entries idxs next (double first) =
        done (some (double_vote first idx))
    batch_case idx sig seen tallied entries idxs next (found val seen') =
        batch_found idx sig tallied entries idxs next seen' val

    -- The body of the loop of verifyCommitBatch; `next` is the loop from the next signature on.
    unfoldable pub batch_step :
        ℕ
        → CommitSig
        → Seen
        → ℕ
        → List Entry
        → List ℕ
        → (Seen → ℕ → List Entry → List ℕ → Verdict)
        → Verdict
    batch_step idx sig seen tallied entries idxs next =
        if m.ignore sig
        then next seen tallied entries idxs
        else look_up vals m idx sig seen >>= batch_case idx sig seen tallied entries idxs next

    unfoldable pub batch_loop : ℕ → List CommitSig → Seen → ℕ → List Entry → List ℕ → Verdict
    batch_loop idx [] seen tallied entries idxs = batch_end entries idxs tallied
    batch_loop idx (sig ∷ sigs) seen tallied entries idxs =
        batch_step idx sig seen tallied entries idxs (batch_loop (suc idx) sigs)

  -- GetProposer().PubKey; a nil proposer panics.
  unfoldable pub proposer_key : Outcome Bytes
  proposer_key = do proposer ← get_proposer vals; p ← or_panic proposer; done p.pub_key

  module _ (b : Batch) where
    unfoldable pub verify_commit_batch : Verdict
    verify_commit_batch = do
      key ← proposer_key
      if not (b.supports key) || ltb (length commit.signatures) 2
          then done (some unsupported)
          else batch_loop b key 0 commit.signatures [] 0 [] []

    -- shouldBatchVerify: the length is tested first.
    unfoldable pub should_batch_verify : Outcome Bool
    should_batch_verify =
        if leb 2 (length commit.signatures)
        then (proposer_key >>= λ key. done (b.supports key))
        else done false

    -- The end of the three functions below.
    unfoldable pub verify_either : Verdict
    verify_either = do
      batch ← should_batch_verify
      if batch then verify_commit_batch else verify_commit_single
