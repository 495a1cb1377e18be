-- ===== src/Light/Sound.antt =====
-- light/verifier.go: what it means that a header is accepted.
use totally_not_a_fork_of_ce.Prelude.{
  ℕ, ◌*◌, ◌<◌, ◌≤◌, ◌≡◌, refl, ◌⊎◌, inl, inr, Bool, true, false, not, Option, none, some, ltb,
  ltb→lt, ◌==◌, if◌then◌else◌, length, arith, Bool-cases,
}
use totally_not_a_fork_of_ce.Prelude.Bytes.{bytes_equal, bytes_equal_iff}
use totally_not_a_fork_of_ce.Prelude.Int.{ℤ, pos, ltb_ℤ, leb_ℤ, ◌==ℤ◌, ==ℤ_iff, ◌+ℤ◌, ◌<ℤ◌}
use totally_not_a_fork_of_ce.Prelude.Outcome.{
  Outcome, done, panic, ◌>>=◌, or_panic, Outcome-cases, done_inj,
}
use totally_not_a_fork_of_ce.Types.ValidatorSet
use totally_not_a_fork_of_ce.Types.ValidatorSet.{ValidatorSet, Validator, get_proposer, total}
use totally_not_a_fork_of_ce.Types.Vote.{Crypto}
use totally_not_a_fork_of_ce.Types.Commit.{Commit}
use totally_not_a_fork_of_ce.Types.Header.{Hashing, SignedHeader, signed_validate_basic}
use totally_not_a_fork_of_ce.Types.Validation.{Batch}
use totally_not_a_fork_of_ce.Types.Validation.Arithmetic.{Fraction}
use totally_not_a_fork_of_ce.Types.Validation.Entry.{
  verify_commit_light, verify_commit_light_trusting,
}
use totally_not_a_fork_of_ce.Types.Validation.Faithful.{IsFaithful}
use totally_not_a_fork_of_ce.Types.Validation.Sound.{signed_power}
use totally_not_a_fork_of_ce.Types.Validation.Accepts.{Fits, verify_commit_light_sound}
use totally_not_a_fork_of_ce.Light.{
  LightError, Reason, validate_trust_level, header_expired, has_required_fields,
  verify_new_header_and_vals, check_commit, check_trust, verify_adjacent, verify_non_adjacent,
  verify, as_invalid, go_on, with_level,
}

-- A trust level that ValidateTrustLevel accepts is at least a third and less than one, though the
-- code compares with a product that wraps around.
pub validate_trust_level_lem :
    (lvl : Fraction)
    → validate_trust_level lvl ≡ none
    → (lvl.denominator ≤ 3 * lvl.numerator) × (lvl.numerator < lvl.denominator)
unfolding validate_trust_level
validate_trust_level_lem lvl h = ground arith

guard_none :
    {A : Type 0} (t : Bool) (a : A) (o : Option A)
    → (if t then some a else o) ≡ none
    → (t ≡ false) × (o ≡ none)
guard_none true a o h = ground arith
guard_none false a o h = (refl, h)

guard_done :
    (t : Bool) (e : LightError) (o : Outcome (Option LightError))
    → (if t then done (some e) else o) ≡ done none
    → (t ≡ false) × (o ≡ done none)
guard_done true e o h = ground (arith, done_inj h)
guard_done false e o h = (refl, h)

guard_panic :
    (t : Bool) (o : Outcome (Option LightError))
    → (if t then panic else o) ≡ done none
    → (t ≡ false) × (o ≡ done none)
guard_panic true o h = ground arith
guard_panic false o h = (refl, h)

not-false : (b : Bool) → not b ≡ false → b ≡ true
not-false true h = refl
not-false false h = ground arith

greater_ℤ : (a b : ℤ) → leb_ℤ a b ≡ false → b <ℤ a
greater_ℤ a b h = ground arith

less_ℤ : (a b : ℤ) → ltb_ℤ a b ≡ true → a <ℤ b
less_ℤ a b h = ground arith

go_on_inv :
    (k : Crypto) (b : Batch) (m : Hashing) (r : Option Reason) (o : Outcome (Option LightError))
    → go_on k b m r o ≡ done none
    → (r ≡ none) × (o ≡ done none)
go_on_inv k b m none o h = (refl, h)
go_on_inv k b m (some r) o h = ground (arith, done_inj h)

with_level_inv :
    (k : Crypto) (b : Batch) (m : Hashing) (r : Option LightError) (o : Outcome (Option LightError))
    → with_level k b m r o ≡ done none
    → (r ≡ none) × (o ≡ done none)
with_level_inv k b m none o h = (refl, h)
with_level_inv k b m (some r) o h = ground (arith, done_inj h)

-- What the new header satisfies against the trusted one.
pub record IsNewer (m : Hashing) (trusted untrusted : SignedHeader) (vals : ValidatorSet) (now : ℕ)
    (drift : ℤ) : Type 0 where
  pub well_formed : signed_validate_basic m untrusted trusted.header.chain_id ≡ true
  pub higher : trusted.header.height <ℤ untrusted.header.height
  pub later : trusted.header.time < untrusted.header.time
  pub not_future : pos untrusted.header.time <ℤ (pos now +ℤ drift)
  pub validators : untrusted.header.validators_hash ≡ m.validators_root vals

new_header-IsNewer :
    (m : Hashing) (trusted untrusted : SignedHeader) (vals : ValidatorSet) (now : ℕ) (drift : ℤ)
    → verify_new_header_and_vals m untrusted vals trusted now drift ≡ none
    → IsNewer m trusted untrusted vals now drift
unfolding verify_new_header_and_vals
new_header-IsNewer m trusted untrusted vals now drift h =
    let (a, h1) =
      guard_none (not (signed_validate_basic m untrusted trusted.header.chain_id)) _ _ h in
    let (b, h2) = guard_none (leb_ℤ untrusted.header.height trusted.header.height) _ _ h1 in
    let (c, h3) = guard_none (not (ltb trusted.header.time untrusted.header.time)) _ _ h2 in
    let (d, h4) = guard_none (not (ltb_ℤ (pos untrusted.header.time) (pos now +ℤ drift))) _ _ h3 in
    let (e, _) =
      guard_none (not (bytes_equal untrusted.header.validators_hash (m.validators_root vals))) _ _
        h4 in
    record {
      well_formed = not-false _ a;
      higher = greater_ℤ untrusted.header.height trusted.header.height b;
      later = ltb→lt _ _ (not-false _ c);
      not_future = less_ℤ (pos untrusted.header.time) (pos now +ℤ drift) (not-false _ d);
      validators = (bytes_equal_iff _ _).0 (not-false _ e);
    }

module _ (k : Crypto) (b : Batch) (m : Hashing) (faithful : IsFaithful k b)
    (trusted untrusted : SignedHeader) (vals : ValidatorSet) (valid : ValidatorSet.IsValid vals)
    (p : Validator) (proposes : get_proposer vals ≡ done (some p)) where
  -- The commit fits the header, and validators with more than two thirds of the power signed it.
  pub record IsCommitted : Type 0 where
    pub commit : Commit
    pub there : untrusted.commit ≡ some commit
    pub fits : Fits vals commit.block_id untrusted.header.height commit
    pub quorum :
        2 * total vals.validators
        < 3 * signed_power k trusted.header.chain_id vals commit 0 commit.signatures

  light_commit :
      (commit : Commit)
      → untrusted.commit ≡ some commit
      → (verify_commit_light k b trusted.header.chain_id
            (some vals)
            commit.block_id
            untrusted.header.height
            (some commit)
          >>= λ e. done (as_invalid k b m e))
        ≡ done none
      → IsCommitted
  light_commit commit there =
      elim (Outcome-cases (
        verify_commit_light k b trusted.header.chain_id (some vals) commit.block_id
          untrusted.header.height (some commit))) [
            | inl failed ↦ rw failed (λ h. ground arith)
            | inr (none, e) ↦ λ _.
                let (fits, quorum) =
                  verify_commit_light_sound k b trusted.header.chain_id vals commit faithful valid p
                    proposes commit.block_id untrusted.header.height e in
                record { commit = commit; there = there; fits = fits; quorum = quorum }
            | inr (some x, e) ↦ rw e (λ h. ground (arith, done_inj h))
          ]

  some_commit :
      (o : Option Commit)
      → untrusted.commit ≡ o
      → (or_panic o >>= λ commit.
          verify_commit_light k b trusted.header.chain_id
            (some vals)
            commit.block_id
            untrusted.header.height
            (some commit)
          >>= λ e. done (as_invalid k b m e))
        ≡ done none
      → IsCommitted
  some_commit none there h = ground arith
  some_commit (some commit) there h = light_commit commit there h

  check_commit-IsCommitted : check_commit k b m untrusted vals trusted ≡ done none → IsCommitted
  unfolding check_commit
  check_commit-IsCommitted h = some_commit untrusted.commit refl h

  -- Adjacent headers are linked by the hash of the validators.
  abbrev pub IsLinked : Type 0
  IsLinked =
      (untrusted.header.height ≡ trusted.header.height +ℤ pos 1)
      × (untrusted.header.validators_hash ≡ trusted.header.next_validators_hash)

  -- Other headers are trusted at a level of at least a third.
  abbrev pub IsTrusted : ValidatorSet → Fraction → Type 0
  IsTrusted trusted_vals level =
      (level.denominator ≤ 3 * level.numerator)
      × (level.numerator < level.denominator)
      × (verify_commit_light_trusting k b trusted.header.chain_id (some trusted_vals)
            untrusted.commit level
          ≡ done none)

  adjacent_lem :
      (period : ℤ) (now : ℕ) (drift : ℤ)
      → verify_adjacent k b m trusted untrusted vals period now drift ≡ done none
      → IsLinked
        × (header_expired untrusted period now ≡ false)
        × IsNewer m trusted untrusted vals now drift
        × IsCommitted
  unfolding verify_adjacent
  adjacent_lem period now drift h =
      let (_, h1) = guard_panic (not (has_required_fields trusted.header)) _ h in
      let (_, h2) = guard_panic (length trusted.header.next_validators_hash == 0) _ h1 in
      let (a, h3) =
        guard_done (not (untrusted.header.height ==ℤ trusted.header.height +ℤ pos 1)) _ _ h2 in
      let (x, h4) = guard_done (header_expired untrusted period now) _ _ h3 in
      let (n, h5) = go_on_inv k b m _ _ h4 in
      let (v, h6) =
        guard_done
          (not (bytes_equal untrusted.header.validators_hash trusted.header.next_validators_hash)) _
          _ h5 in
      (
        ((==ℤ_iff _ _).0 (not-false _ a), (bytes_equal_iff _ _).0 (not-false _ v)),
        x,
        new_header-IsNewer m trusted untrusted vals now drift n,
        check_commit-IsCommitted h6,
      )

  trust_lem :
      (trusted_vals : ValidatorSet) (level : Fraction)
      → check_trust k b m trusted trusted_vals untrusted vals level ≡ done none
      → (verify_commit_light_trusting k b trusted.header.chain_id
            (some trusted_vals)
            untrusted.commit
            level
          ≡ done none)
        × IsCommitted
  unfolding check_trust
  trust_lem trusted_vals level =
      elim (Outcome-cases (
        verify_commit_light_trusting k b trusted.header.chain_id (some trusted_vals)
          untrusted.commit level)) [
            | inl failed ↦ rw failed (λ h. ground arith)
            | inr (none, e) ↦ rw e (λ h. (refl, check_commit-IsCommitted h))
            | inr (some x, e) ↦ rw e (λ h. ground (arith, done_inj h))
          ]

  non_adjacent_lem :
      (trusted_vals : ValidatorSet) (period : ℤ) (now : ℕ) (drift : ℤ) (level : Fraction)
      → verify_non_adjacent k b m trusted trusted_vals untrusted vals period now drift level
        ≡ done none
      → IsTrusted trusted_vals level
        × (header_expired untrusted period now ≡ false)
        × IsNewer m trusted untrusted vals now drift
        × IsCommitted
  unfolding verify_non_adjacent
  non_adjacent_lem trusted_vals period now drift level h =
      let (_, h1) = guard_panic (not (has_required_fields trusted.header)) _ h in
      let (_, h2) =
        guard_done (untrusted.header.height ==ℤ trusted.header.height +ℤ pos 1) _ _ h1 in
      let (l, h3) = with_level_inv k b m _ _ h2 in
      let (x, h4) = guard_done (header_expired untrusted period now) _ _ h3 in
      let (n, h5) = go_on_inv k b m _ _ h4 in
      let (t, c) = trust_lem trusted_vals level h5 in
      let (low, high) = validate_trust_level_lem level l in
      ((low, high, t), x, new_header-IsNewer m trusted untrusted vals now drift n, c)

  -- For a valid set of new validators with a known proposer and a batch verifier whose Verify is
  -- as documented, a header that Verify accepts is well formed, higher and later than the trusted
  -- one, not from the future and not expired; validators with more than two thirds of the power of
  -- the set that it names signed its commit; and it is adjacent and linked to the trusted header
  -- by the hash of the validators, or VerifyCommitLightTrusting at a level of at least a third and
  -- below one accepts its commit.
  pub verify_lem :
      (trusted_vals : ValidatorSet) (period : ℤ) (now : ℕ) (drift : ℤ) (level : Fraction)
      → verify k b m trusted trusted_vals untrusted vals period now drift level ≡ done none
      → (IsLinked ⊎ IsTrusted trusted_vals level)
        × (header_expired untrusted period now ≡ false)
        × IsNewer m trusted untrusted vals now drift
        × IsCommitted
  unfolding verify
  verify_lem trusted_vals period now drift level =
      elim (Bool-cases (untrusted.header.height ==ℤ trusted.header.height +ℤ pos 1)) [
        | inl next ↦
            rw next (λ h. let (l, x, n, c) = adjacent_lem period now drift h in (inl l, x, n, c))
        | inr other ↦ rw other (λ h.
            let (t, x, n, c) = non_adjacent_lem trusted_vals period now drift level h in
            (inr t, x, n, c))
      ]
