-- ===== src/Types/Validation/Sound.antt =====
-- types/validation.go: what it means that verifyCommitSingle accepts a commit, with all signatures
-- checked (VerifyCommit) and with those for the block checked up to a quorum (VerifyCommitLight).
use totally_not_a_fork_of_ce.Prelude.{
  ℕ, suc, ◌+◌, ◌*◌, ◌/◌, ◌<◌, ◌≡◌, refl, ◌∙◌, ap, Bool, true, false, List, [], ◌∷◌, Option, none,
  some, not, ◌&&◌, ◌||◌, ltb, if◌then◌else◌, get_elem?, arith, Bool-cases, Option-cases, inl, inr,
}
use totally_not_a_fork_of_ce.Prelude.Bytes.{Bytes}
use totally_not_a_fork_of_ce.Prelude.Outcome.{Outcome, done, panic, Outcome-cases}
use totally_not_a_fork_of_ce.Types.ValidatorSet.{ValidatorSet, Validator}
use totally_not_a_fork_of_ce.Types.Vote.{Crypto}
use totally_not_a_fork_of_ce.Types.Commit.{Commit, CommitSig, vote_sign_bytes, for_block, is_absent}
use totally_not_a_fork_of_ce.Types.Validation.{
  Error, Verdict, Seen, look_up, tally, enough, short_of, single_found, single_case, single_step,
  single_loop,
}
use totally_not_a_fork_of_ce.Types.Validation.Entry.{full_mode, light_mode}
use totally_not_a_fork_of_ce.Types.Validation.Faithful.{accepted}

short_lem :
    (short ok : Bool) (e : Error)
    → not short ≡ ok
    → accepted (done (if short then some e else none)) ≡ ok
short_lem true ok e h = h
short_lem false ok e h = h

absent-not_block : (sig : CommitSig) → is_absent sig ≡ true → for_block sig ≡ false
unfolding is_absent for_block
absent-not_block sig h = ground arith

block-not_absent : (sig : CommitSig) → for_block sig ≡ true → is_absent sig ≡ false
unfolding is_absent for_block
block-not_absent sig h = ground arith

and-right : (a b : Bool) → a && b ≡ true → b ≡ true
and-right true b h = h
and-right false b h = ground arith

module _ (k : Crypto) (chain_id : Bytes) (vals : ValidatorSet) (commit : Commit) where
  verifies : Outcome Bytes → CommitSig → Validator → Bool
  verifies (done bz) sig val = k.verify_signature val.pub_key bz sig.signature
  verifies panic sig val = false

  -- The signature at index `idx` of the commit is the validator's, for the vote that it stands for.
  signed_by : ℕ → CommitSig → Option Validator → Bool
  unfolding verifies
  signed_by idx sig none = false
  signed_by idx sig (some val) = verifies (vote_sign_bytes k chain_id commit idx) sig val

  abbrev power_if : Bool → Option Validator → ℕ
  power_if true (some val) = val.voting_power
  power_if _ _ = 0

  -- Each signature from index `idx` on is absent or its validator's.
  unfoldable pub all_signed : ℕ → List CommitSig → Bool
  unfolding signed_by
  all_signed idx [] = true
  all_signed idx (sig ∷ sigs) =
      (is_absent sig || signed_by idx sig (get_elem? vals.validators idx))
      && all_signed (suc idx) sigs

  -- The power of the validators whose signatures are for the block.
  unfoldable pub block_power : ℕ → List CommitSig → ℕ
  block_power idx [] = 0
  block_power idx (sig ∷ sigs) =
      power_if (for_block sig) (get_elem? vals.validators idx) + block_power (suc idx) sigs

  -- The power of the validators that did sign for the block.
  unfoldable pub signed_power : ℕ → List CommitSig → ℕ
  unfolding signed_by
  signed_power idx [] = 0
  signed_power idx (sig ∷ sigs) =
      power_if (for_block sig && signed_by idx sig (get_elem? vals.validators idx))
        (get_elem? vals.validators idx)
      + signed_power (suc idx) sigs

  tally_eq :
      (counts : Bool) (t : ℕ) (val : Validator) (power : ℕ)
      → (if counts then t + val.voting_power else t) + power
        ≡ t + (power_if counts (some val) + power)
  tally_eq true t val power = omega arith
  tally_eq false t val power = omega arith

  full_found :
      (total idx : ℕ) (sig : CommitSig) (seen : Seen) (t : ℕ) (next : Seen → ℕ → Verdict)
      (good : Bool) (power : ℕ)
      → ((seen : Seen) (t : ℕ) → accepted (next seen t) ≡ good && ltb (total * 2 / 3) (t + power))
      → (val : Validator)
      → accepted (single_found k chain_id vals commit (full_mode total) idx sig t next seen val)
        ≡ (signed_by idx sig (some val) && good)
          && ltb (total * 2 / 3) (t + (power_if (for_block sig) (some val) + power))
  unfolding single_found tally enough signed_by
  full_found total idx sig seen t next good power h val =
      elim (Outcome-cases (vote_sign_bytes k chain_id commit idx)) [
        | inl failed ↦ rw failed refl
        | inr (bz, e) ↦ rw e (elim (Bool-cases (k.verify_signature val.pub_key bz sig.signature)) [
          | inl valid ↦ rw valid (
              h seen _
              ∙ ap (λ n. good && ltb (total * 2 / 3) n) (tally_eq (for_block sig) t val power))
          | inr wrong ↦ rw wrong refl
        ])
      ]

  full_step :
      (total idx : ℕ) (sig : CommitSig) (seen : Seen) (t : ℕ) (next : Seen → ℕ → Verdict)
      (good : Bool) (power : ℕ)
      → ((seen : Seen) (t : ℕ) → accepted (next seen t) ≡ good && ltb (total * 2 / 3) (t + power))
      → accepted (single_step k chain_id vals commit (full_mode total) idx sig seen t next)
        ≡ ((is_absent sig || signed_by idx sig (get_elem? vals.validators idx)) && good)
          && ltb
              (total * 2 / 3)
              (t + (power_if (for_block sig) (get_elem? vals.validators idx) + power))
  unfolding single_step look_up signed_by single_case
  full_step total idx sig seen t next good power h = elim (Bool-cases (is_absent sig)) [
    | inl gone ↦
        rw (gone, absent-not_block sig gone)
          (h seen t ∙ ap (λ n. good && ltb (total * 2 / 3) n) (omega arith))
    | inr there ↦ rw there (elim (Option-cases (get_elem? vals.validators idx)) [
      | inl e ↦ rw e refl
      | inr (val, e) ↦ rw e (full_found total idx sig seen t next good power h val)
    ])
  ]

  pub full_loop :
      (total idx : ℕ) (sigs : List CommitSig) (seen : Seen) (t : ℕ)
      → accepted (single_loop k chain_id vals commit (full_mode total) idx sigs seen t)
        ≡ all_signed idx sigs && ltb (total * 2 / 3) (t + block_power idx sigs)
  unfolding single_loop all_signed block_power short_of
  full_loop total idx [] seen t = short_lem (short_of (full_mode total) t) _ _ (ground arith)
  full_loop total idx (sig ∷ sigs) seen t =
      full_step total idx sig seen t _ (all_signed (suc idx) sigs) (block_power (suc idx) sigs)
        (full_loop total (suc idx) sigs)

  light_more :
      (total sum power : ℕ) (go_on : Verdict)
      → (accepted go_on ≡ true → total * 2 / 3 < sum + power)
      → accepted (if enough (light_mode total) sum then done none else go_on) ≡ true
      → total * 2 / 3 < sum + power
  unfolding enough
  light_more total sum power go_on h q = ground (arith, h)

  light_found :
      (total idx : ℕ) (sig : CommitSig) (seen : Seen) (t : ℕ) (next : Seen → ℕ → Verdict)
      (power : ℕ)
      → ((seen : Seen) (t : ℕ) → accepted (next seen t) ≡ true → total * 2 / 3 < t + power)
      → (val : Validator)
      → accepted (single_found k chain_id vals commit (light_mode total) idx sig t next seen val)
        ≡ true
      → total * 2 / 3 < t + (power_if (signed_by idx sig (some val)) (some val) + power)
  unfolding single_found signed_by tally
  light_found total idx sig seen t next power h val =
      elim (Outcome-cases (vote_sign_bytes k chain_id commit idx)) [
        | inl failed ↦ rw failed (λ q. ground arith)
        | inr (bz, e) ↦ rw e (elim (Bool-cases (k.verify_signature val.pub_key bz sig.signature)) [
          | inl valid ↦ rw valid (λ q.
              let r =
                light_more total (t + val.voting_power) power _ (h seen (t + val.voting_power)) q in
              omega arith)
          | inr wrong ↦ rw wrong (λ q. ground arith)
        ])
      ]

  light_step :
      (total idx : ℕ) (sig : CommitSig) (seen : Seen) (t : ℕ) (next : Seen → ℕ → Verdict)
      (power : ℕ)
      → ((seen : Seen) (t : ℕ) → accepted (next seen t) ≡ true → total * 2 / 3 < t + power)
      → accepted (single_step k chain_id vals commit (light_mode total) idx sig seen t next) ≡ true
      → total * 2 / 3
        < t
          + (power_if
                (for_block sig && signed_by idx sig (get_elem? vals.validators idx))
                (get_elem? vals.validators idx)
              + power)
  unfolding single_step look_up single_case
  light_step total idx sig seen t next power h = elim (Bool-cases (for_block sig)) [
    | inr other ↦ rw other (λ q. let r = h seen t q in omega arith)
    | inl counted ↦ rw counted (elim (Option-cases (get_elem? vals.validators idx)) [
      | inl e ↦ rw e (λ q. ground arith)
      | inr (val, e) ↦ rw e (light_found total idx sig seen t next power h val)
    ])
  ]

  pub light_loop :
      (total idx : ℕ) (sigs : List CommitSig) (seen : Seen) (t : ℕ)
      → accepted (single_loop k chain_id vals commit (light_mode total) idx sigs seen t) ≡ true
      → total * 2 / 3 < t + signed_power idx sigs
  unfolding single_loop signed_power short_of
  light_loop total idx [] seen t q = ground arith
  light_loop total idx (sig ∷ sigs) seen t q =
      light_step total idx sig seen t _ (signed_power (suc idx) sigs)
        (light_loop total (suc idx) sigs) q

  stop_or_more :
      (total sum power : ℕ) (go_on : Verdict)
      → (total * 2 / 3 < sum + power → accepted go_on ≡ true)
      → total * 2 / 3 < sum + power
      → accepted (if enough (light_mode total) sum then done none else go_on) ≡ true
  unfolding enough
  stop_or_more total sum power go_on h q = ground (arith, h)

  light_of_full_step :
      (total idx : ℕ) (sig : CommitSig) (seen : Seen) (t : ℕ) (next : Seen → ℕ → Verdict)
      (good : Bool) (power : ℕ)
      → ((seen : Seen) (t : ℕ)
          → good ≡ true
          → total * 2 / 3 < t + power
          → accepted (next seen t) ≡ true)
      → (is_absent sig || signed_by idx sig (get_elem? vals.validators idx)) && good ≡ true
      → total * 2 / 3 < t + (power_if (for_block sig) (get_elem? vals.validators idx) + power)
      → accepted (single_step k chain_id vals commit (light_mode total) idx sig seen t next) ≡ true
  unfolding single_step look_up single_case single_found signed_by tally
  light_of_full_step total idx sig seen t next good power h = elim (Bool-cases (for_block sig)) [
    | inr other ↦ rw other (λ ok q. h seen t (and-right _ good ok) (omega arith))
    | inl counted ↦
        rw (counted, block-not_absent sig counted)
          (elim (Option-cases (get_elem? vals.validators idx)) [
            | inl e ↦ rw e (λ ok q. ground arith)
            | inr (val, e) ↦ rw e (elim (Outcome-cases (vote_sign_bytes k chain_id commit idx)) [
              | inl failed ↦ rw failed (λ ok q. ground arith)
              | inr (bz, e') ↦
                  rw e' (elim (Bool-cases (k.verify_signature val.pub_key bz sig.signature)) [
                    | inl valid ↦ rw valid (λ ok q.
                        stop_or_more total (t + val.voting_power) power _
                          (h seen (t + val.voting_power) ok) (omega arith))
                    | inr wrong ↦ rw wrong (λ ok q. ground arith)
                  ])
            ])
          ])
  ]

  -- All signatures valid and a quorum among them: the quorum is found.
  pub light_of_full :
      (total idx : ℕ) (sigs : List CommitSig) (seen : Seen) (t : ℕ)
      → all_signed idx sigs ≡ true
      → total * 2 / 3 < t + block_power idx sigs
      → accepted (single_loop k chain_id vals commit (light_mode total) idx sigs seen t) ≡ true
  unfolding single_loop all_signed block_power short_of
  light_of_full total idx [] seen t ok q = ground arith
  light_of_full total idx (sig ∷ sigs) seen t ok q =
      light_of_full_step total idx sig seen t _ (all_signed (suc idx) sigs)
        (block_power (suc idx) sigs) (light_of_full total (suc idx) sigs) ok q
