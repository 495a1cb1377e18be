-- ===== src/Types/Validation/Accepts.antt =====
-- types/validation.go: what it means that VerifyCommit and VerifyCommitLight accept a commit.
use totally_not_a_fork_of_ce.Prelude.{
  ℕ, ◌*◌, ◌/◌, ◌<◌, ◌≡◌, ◌↔◌, refl, sym, ◌∙◌, ap, Bool, true, false, [], none, some, not, ◌&&◌, ltb,
  ◌==◌, if◌then◌else◌, length, arith, ==_iff, lt→ltb,
}
use totally_not_a_fork_of_ce.Prelude.Bytes.{Bytes}
use totally_not_a_fork_of_ce.Prelude.Int.{ℤ, pos, leb_ℤ, ◌==ℤ◌, ==ℤ_iff}
use totally_not_a_fork_of_ce.Prelude.Outcome.{done, ◌>>=◌}
use totally_not_a_fork_of_ce.Types.BlockId
use totally_not_a_fork_of_ce.Types.BlockId.{BlockId}
use totally_not_a_fork_of_ce.Types.ValidatorSet
use totally_not_a_fork_of_ce.Types.ValidatorSet.{
  ValidatorSet, Validator, get_proposer, total, total_voting_power_lem, total_voting_power,
}
use totally_not_a_fork_of_ce.Types.Vote.{Crypto}
use totally_not_a_fork_of_ce.Types.Commit.{Commit}
use totally_not_a_fork_of_ce.Types.Validation.{
  Verdict, Error, invalid_commit_signatures, invalid_commit_height, wrong_block_id, Batch,
  verify_either, verify_commit_single, single_loop,
}
use totally_not_a_fork_of_ce.Types.Validation.Entry.{
  verify_basic, verify_commit, verify_commit_light, full_mode, light_mode,
}
use totally_not_a_fork_of_ce.Types.Validation.Batching.{verify_either_sound, verify_either_lem}
use totally_not_a_fork_of_ce.Types.Validation.Faithful.{accepted, accepted_iff, IsFaithful, AddsAll}
use totally_not_a_fork_of_ce.Types.Validation.Sound.{
  all_signed, block_power, signed_power, full_loop, light_loop, light_of_full,
}

-- The commit is of the height and the block, with one signature for each validator.
pub record Fits (vals : ValidatorSet) (block_id : BlockId) (height : ℤ) (commit : Commit)
    : Type 0 where
  pub same_size : ValidatorSet.size vals ≡ length commit.signatures
  pub same_height : height ≡ commit.height
  pub same_block : BlockId.equals block_id commit.block_id ≡ true

guards_iff :
    (a b c : Bool) (e e' e'' : Error) (v : Verdict)
    → ((if not a
          then done (some e)
          else if not b
          then done (some e')
          else if not c
          then done (some e'')
          else v)
        ≡ done none)
      ↔ ((a ≡ true) × (b ≡ true) × (c ≡ true) × (v ≡ done none))
guards_iff true true true e e' e'' v = ((λ h. (refl, refl, refl, h)), (λ (_, _, _, h). h))
guards_iff true true false e e' e'' v =
    ((λ h. ground (arith, ap accepted h)), (λ (_, _, q, h). ground (arith, q)))
guards_iff true false c e e' e'' v =
    ((λ h. ground (arith, ap accepted h)), (λ (_, q, _, h). ground (arith, q)))
guards_iff false b c e e' e'' v =
    ((λ h. ground (arith, ap accepted h)), (λ (q, _, _, h). ground (arith, q)))

basic-accepts :
    (vals : ValidatorSet) (block_id : BlockId) (height : ℤ) (commit : Commit)
    (next : ValidatorSet → Commit → Verdict)
    → (verify_basic (some vals) (some commit) height block_id next ≡ done none)
      ↔ (Fits vals block_id height commit × (next vals commit ≡ done none))
unfolding verify_basic
basic-accepts vals block_id height commit next =
    let (there, back) =
      guards_iff (ValidatorSet.size vals == length commit.signatures) (height ==ℤ commit.height)
        (BlockId.equals block_id commit.block_id) (invalid_commit_signatures _ _)
        (invalid_commit_height _ _) (wrong_block_id _ _) (next vals commit) in
    (
      (λ h.
          let (n, i, e, q) = there h in
          (
            record {
              same_size = (==_iff _ _).0 n;
              same_height = (==ℤ_iff _ _).0 i;
              same_block = e;
            },
            q,
          )),
      (λ (f, q). back ((==_iff _ _).1 f.same_size, (==ℤ_iff _ _).1 f.same_height, f.same_block, q)),
    )

and_quorum :
    (signed : Bool) (total power : ℕ)
    → signed && ltb (total * 2 / 3) power ≡ true
    → (signed ≡ true) × (2 * total < 3 * power)
and_quorum true total power h = (refl, ground arith)
and_quorum false total power h = ground arith

quorum_iff :
    (v : Verdict) (signed : Bool) (total power : ℕ)
    → accepted v ≡ signed && ltb (total * 2 / 3) power
    → (v ≡ done none) ↔ ((signed ≡ true) × (2 * total < 3 * power))
quorum_iff v signed total power e = (
  (λ h. and_quorum signed total power (sym e ∙ ap accepted h)),
  (λ (ok, q). accepted_iff v (e ∙ rw ok (lt→ltb _ _ (omega arith)))),
)

leb_zero : (n : ℕ) → leb_ℤ (pos 0) (pos n) ≡ true
leb_zero n = ground arith

module _ (k : Crypto) (b : Batch) (chain_id : Bytes) (vals : ValidatorSet) (commit : Commit)
    (faithful : IsFaithful k b) (valid : ValidatorSet.IsValid vals) (p : Validator)
    (proposes : get_proposer vals ≡ done (some p)) where
  single_accepts :
      accepted (verify_commit_single k chain_id vals commit (full_mode (total vals.validators)))
      ≡ all_signed k chain_id vals commit 0 commit.signatures
        && ltb
            (total vals.validators * 2 / 3)
            (block_power k chain_id vals commit 0 commit.signatures)
  unfolding verify_commit_single
  single_accepts =
      full_loop k chain_id vals commit (total vals.validators) 0 commit.signatures [] 0
      ∙ ap
          (λ n.
            all_signed k chain_id vals commit 0 commit.signatures
            && ltb (total vals.validators * 2 / 3) n)
          (omega arith)

  light_sound :
      (total_voting_power vals >>= λ t. verify_either k chain_id vals commit (light_mode t) b)
        ≡ done none
      → accepted (
          single_loop k chain_id vals commit
            (light_mode (total vals.validators))
            0
            commit.signatures
            []
            0)
        ≡ true
  unfolding verify_commit_single
  light_sound = rw (total_voting_power_lem vals valid) (λ h.
      verify_either_sound k chain_id vals commit (light_mode (total vals.validators)) b faithful
        (leb_zero _) p proposes (ap accepted h))

  -- For a valid validator set with a known proposer and a batch verifier whose Verify is as
  -- documented, a commit that VerifyCommitLight accepts fits, and the validators whose signatures
  -- for the block verify have more than two thirds of the power.
  pub verify_commit_light_sound :
      (block_id : BlockId) (height : ℤ)
      → verify_commit_light k b chain_id (some vals) block_id height (some commit) ≡ done none
      → Fits vals block_id height commit
        × (2 * total vals.validators < 3 * signed_power k chain_id vals commit 0 commit.signatures)
  unfolding verify_commit_light
  verify_commit_light_sound block_id height h =
      let (there, back) = basic-accepts vals block_id height commit _ in
      let (fits, e) = there h in
      (
        fits,
        let q =
              light_loop k chain_id vals commit (total vals.validators) 0 commit.signatures [] 0
                (light_sound e) in
            omega arith,
      )

  -- What VerifyCommit and VerifyCommitLight accept exactly, for a verifier that adds all valid
  -- signatures of the set.
  module _ (adds : AddsAll k b p.pub_key vals) where
    full_accepts :
        (total_voting_power vals >>= λ t. verify_either k chain_id vals commit (full_mode t) b)
          ≡ done none
        ↔ ((all_signed k chain_id vals commit 0 commit.signatures ≡ true)
            × (2 * total vals.validators
                < 3 * block_power k chain_id vals commit 0 commit.signatures))
    full_accepts = rw (total_voting_power_lem vals valid) (
        quorum_iff _ _ _ _ (
          verify_either_lem k chain_id vals commit (full_mode (total vals.validators)) b faithful
            (leb_zero _) p proposes adds
          ∙ single_accepts))

    light_iff :
        (total_voting_power vals >>= λ t. verify_either k chain_id vals commit (light_mode t) b)
          ≡ done none
        ↔ (accepted (
              single_loop k chain_id vals commit
                (light_mode (total vals.validators))
                0
                commit.signatures
                []
                0)
            ≡ true)
    unfolding verify_commit_single
    light_iff =
        let same =
          verify_either_lem k chain_id vals commit (light_mode (total vals.validators)) b faithful
            (leb_zero _) p proposes adds in
        rw (total_voting_power_lem vals valid)
          ((λ h. sym same ∙ ap accepted h), (λ h. accepted_iff _ (same ∙ h)))

    -- For a valid validator set with a known proposer and a batch verifier whose Verify is as
    -- documented and whose Add refuses no valid signature of the validators, as when their keys
    -- are all of the type of the proposer's, VerifyCommit accepts a commit exactly if it fits the
    -- set, the height and the block, each signature is absent or its validator's, and the
    -- validators whose signatures are for the block have more than two thirds of the power.
    pub verify_commit-accepts :
        (block_id : BlockId) (height : ℤ)
        → (verify_commit k b chain_id (some vals) block_id height (some commit) ≡ done none) ↔ (
            Fits vals block_id height commit
            × (all_signed k chain_id vals commit 0 commit.signatures ≡ true)
            × (2 * total vals.validators
                < 3 * block_power k chain_id vals commit 0 commit.signatures))
    unfolding verify_commit
    verify_commit-accepts block_id height =
        let (there, back) = basic-accepts vals block_id height commit _ in
        let (to, from) = full_accepts in
        (
          (λ h. let (fits, e) = there h in let (signed, quorum) = to e in (fits, signed, quorum)),
          (λ (fits, signed, quorum). back (fits, from (signed, quorum))),
        )

    -- For a valid validator set with a known proposer and a batch verifier whose Verify is as
    -- documented and whose Add refuses no valid signature of the validators, as when their keys
    -- are all of the type of the proposer's, VerifyCommitLight accepts each commit that
    -- VerifyCommit accepts.
    pub verify_commit_light_of_full :
        (block_id : BlockId) (height : ℤ)
        → verify_commit k b chain_id (some vals) block_id height (some commit) ≡ done none
        → verify_commit_light k b chain_id (some vals) block_id height (some commit) ≡ done none
    unfolding verify_commit_light
    verify_commit_light_of_full block_id height h =
        let (fits, signed, quorum) = (verify_commit-accepts block_id height).0 h in
        (basic-accepts vals block_id height commit _).1 (
          fits,
          light_iff.1 (
              light_of_full k chain_id vals commit (total vals.validators) 0 commit.signatures [] 0
                signed (omega arith)),
        )
