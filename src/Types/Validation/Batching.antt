-- ===== src/Types/Validation/Batching.antt =====
-- types/validation.go: verifyCommitBatch accepts the commits that verifyCommitSingle accepts, for a
-- batch verifier that does what its interface says.
use totally_not_a_fork_of_ce.Prelude.{
  ℕ, suc, ◌≡◌, refl, sym, ◌∙◌, ap, Bool, true, false, List, [], ◌∷◌, ◌++◌, map, some, not, ◌&&◌,
  ◌||◌, ltb, leb, if◌then◌else◌, length, arith, Bool-cases, inl, inr,
}
use mathlib.Core.List.{Memᴰ}
use totally_not_a_fork_of_ce.Prelude.Int.{pos, leb_ℤ}
use totally_not_a_fork_of_ce.Types.Validation.Finding.{look_up-Memᴰ}
use totally_not_a_fork_of_ce.Prelude.Bytes.{Bytes}
use totally_not_a_fork_of_ce.Prelude.Outcome.{done, ◌>>=◌, Outcome-cases}
use totally_not_a_fork_of_ce.Types.ValidatorSet.{ValidatorSet, Validator, get_proposer}
use totally_not_a_fork_of_ce.Types.Vote.{Crypto}
use totally_not_a_fork_of_ce.Types.Commit.{Commit, CommitSig, vote_sign_bytes}
use totally_not_a_fork_of_ce.Types.Validation.{
  Verdict, Mode, Batch, Entry, Seen, Lookup, skip, double, found, look_up, tally, enough, short_of,
  single_found, single_case, single_step, single_loop, verify_commit_single, batch_found,
  batch_case, batch_step, batch_loop, batch_end, verify_commit_batch, verify_either,
  should_batch_verify, proposer_key, first_invalid, unsupported, not_enough_voting_power_signed,
}
use totally_not_a_fork_of_ce.Types.Validation.Faithful.{
  accepted, entry_valid, all_entries_valid, IsFaithful, AddsAll, Agree, Agree-eq, and-false,
  and-true, all_entries_valid-snoc, batch_answer, not_short, enough-short_of, same_body,
}

module _ (k : Crypto) (chain_id : Bytes) (vals : ValidatorSet) (commit : Commit) (m : Mode)
    (b : Batch) (faithful : IsFaithful k b) (low : leb_ℤ (pos 0) m.needed ≡ true)
    (key : Bytes) where
  abbrev Adds : Type 0
  Adds = AddsAll k b key vals

  -- Nothing is counted before an entry is added.
  abbrev Ready : List Entry → ℕ → Type 0
  Ready es tallied = es ≡ [] → tallied ≡ 0

  Ready-snoc : (es : List Entry) (e : Entry) (t : ℕ) → Ready (es ++ e ∷ []) t
  Ready-snoc [] e t h = cc
  Ready-snoc (x ∷ es) e t h = cc

  -- The rests of the two loops.
  abbrev Next : (Seen → ℕ → List Entry → List ℕ → Verdict) → (Seen → ℕ → Verdict) → Type 0
  Next nb ns =
      (seen : Seen) (t : ℕ) (es : List Entry) (is : List ℕ)
      → Ready es t
      → Agree Adds (accepted (nb seen t es is)) (all_entries_valid k es && accepted (ns seen t))

  zero_short : (t : ℕ) → t ≡ 0 → short_of m t ≡ true
  unfolding short_of
  zero_short t h = rw h low

  long_end :
      (es : List Entry) (is : List ℕ) (tallied : ℕ)
      → Ready es tallied
      → short_of m tallied ≡ false
      → accepted (batch_end k chain_id vals commit m b key es is tallied)
        ≡ all_entries_valid k es && true
  unfolding batch_end
  long_end [] is tallied ready more = cc (zero_short tallied (ready refl), more)
  long_end (e ∷ es) is tallied ready more =
      rw (more, faithful.verified key e es)
        (batch_answer (all_entries_valid k (e ∷ es))
          (first_invalid k chain_id vals commit m is (map (entry_valid k) (e ∷ es))))

  batch_end_lem :
      (es : List Entry) (is : List ℕ) (tallied : ℕ)
      → Ready es tallied
      → accepted (batch_end k chain_id vals commit m b key es is tallied)
        ≡ all_entries_valid k es && not (short_of m tallied)
  unfolding batch_end
  batch_end_lem es is tallied ready = elim (Bool-cases (short_of m tallied)) [
    | inl short ↦ rw short (sym (and-false (all_entries_valid k es)))
    | inr more ↦
        long_end es is tallied ready more ∙ ap (λ t. all_entries_valid k es && not t) (sym more)
  ]

  enough_end :
      (es : List Entry) (is : List ℕ) (tallied : ℕ)
      → Ready es tallied
      → enough m tallied ≡ true
      → accepted (batch_end k chain_id vals commit m b key es is tallied) ≡ all_entries_valid k es
  enough_end es is tallied ready q =
      batch_end_lem es is tallied ready
      ∙ rw (enough-short_of m tallied q) (and-true (all_entries_valid k es))

  batch_found_lem :
      (idx : ℕ) (sig : CommitSig) (tallied : ℕ) (es : List Entry) (is : List ℕ)
      (nb : Seen → ℕ → List Entry → List ℕ → Verdict) (ns : Seen → ℕ → Verdict)
      → Next nb ns
      → (seen : Seen) (val : Validator) → Memᴰ val vals.validators
      → Agree Adds
          (accepted (batch_found k chain_id vals commit m b key idx sig tallied es is nb seen val))
          (all_entries_valid k es
            && accepted (single_found k chain_id vals commit m idx sig tallied ns seen val))
  unfolding batch_found single_found
  batch_found_lem idx sig tallied es is nb ns h seen val mem =
      elim (Outcome-cases (vote_sign_bytes k chain_id commit idx)) [
        | inl failed ↦ rw failed (Agree-eq Adds _ _ (sym (and-false (all_entries_valid k es))))
        | inr (bz, e) ↦
            let entry : Entry = (val.pub_key, bz, sig.signature) in
            let tallied' = tally m sig val tallied in
            let ready = Ready-snoc es entry tallied' in
            let more = h seen tallied' (es ++ entry ∷ []) (is ++ idx ∷ []) ready in
            rw e (
              same_body Adds (b.accepts key entry) (k.verify_signature val.pub_key bz sig.signature)
                (enough m tallied') (all_entries_valid k es) _ _ _ _ _
                (λ adds. adds val mem bz sig.signature)
                (λ q.
                  enough_end (es ++ entry ∷ []) (is ++ idx ∷ []) tallied' ready q
                  ∙ all_entries_valid-snoc k es entry)
                (rw (all_entries_valid-snoc k es entry) at more))
      ]

  batch_case_lem :
      (idx : ℕ) (sig : CommitSig) (seen : Seen) (tallied : ℕ) (es : List Entry) (is : List ℕ)
      (nb : Seen → ℕ → List Entry → List ℕ → Verdict) (ns : Seen → ℕ → Verdict)
      → Next nb ns
      → Ready es tallied
      → (l : Lookup) → ((val : Validator) (s : Seen) → l ≡ found val s → Memᴰ val vals.validators)
      → Agree Adds
          (accepted (batch_case k chain_id vals commit m b key idx sig seen tallied es is nb l))
          (all_entries_valid k es
            && accepted (single_case k chain_id vals commit m idx sig seen tallied ns l))
  unfolding batch_case single_case
  batch_case_lem idx sig seen tallied es is nb ns h ready skip mem = h seen tallied es is ready
  batch_case_lem idx sig seen tallied es is nb ns h ready (double i) mem =
      Agree-eq Adds _ _ (sym (and-false (all_entries_valid k es)))
  batch_case_lem idx sig seen tallied es is nb ns h ready (found val seen') mem =
      batch_found_lem idx sig tallied es is nb ns h seen' val (mem val seen' refl)

  batch_step_lem :
      (idx : ℕ) (sig : CommitSig) (seen : Seen) (tallied : ℕ) (es : List Entry) (is : List ℕ)
      (nb : Seen → ℕ → List Entry → List ℕ → Verdict) (ns : Seen → ℕ → Verdict)
      → Next nb ns
      → Ready es tallied
      → Agree Adds
          (accepted (batch_step k chain_id vals commit m b key idx sig seen tallied es is nb))
          (all_entries_valid k es
            && accepted (single_step k chain_id vals commit m idx sig seen tallied ns))
  unfolding batch_step single_step
  batch_step_lem idx sig seen tallied es is nb ns h ready = elim (Bool-cases (m.ignore sig)) [
    | inl ignored ↦ rw ignored (h seen tallied es is ready)
    | inr counted ↦ rw counted (elim (Outcome-cases (look_up vals m idx sig seen)) [
      | inl failed ↦ rw failed (Agree-eq Adds _ _ (sym (and-false (all_entries_valid k es))))
      | inr (l, e) ↦ rw e (
          batch_case_lem idx sig seen tallied es is nb ns h ready l
            (λ val s q. look_up-Memᴰ vals m idx sig seen s val (e ∙ ap done q)))
    ])
  ]

  batch_loop_lem :
      (idx : ℕ) (sigs : List CommitSig) (seen : Seen) (tallied : ℕ) (es : List Entry) (is : List ℕ)
      → Ready es tallied
      → Agree Adds
          (accepted (batch_loop k chain_id vals commit m b key idx sigs seen tallied es is))
          (all_entries_valid k es
            && accepted (single_loop k chain_id vals commit m idx sigs seen tallied))
  unfolding batch_loop single_loop
  batch_loop_lem idx [] seen tallied es is ready = Agree-eq Adds _ _ (
      batch_end_lem es is tallied ready
      ∙ ap (λ t. all_entries_valid k es && t)
          (not_short (short_of m tallied) (not_enough_voting_power_signed tallied m.needed)))
  batch_loop_lem idx (sig ∷ sigs) seen tallied es is ready =
      batch_step_lem idx sig seen tallied es is _ _ (batch_loop_lem (suc idx) sigs) ready

  supported_lem :
      (ok few : Bool)
      → few ≡ false
      → Agree Adds
          (accepted (
            done ok >>= λ batch.
            if batch
            then (done key >>= λ key.
                if not ok || few
                then done (some unsupported)
                else batch_loop k chain_id vals commit m b key 0 commit.signatures [] 0 [] [])
            else single_loop k chain_id vals commit m 0 commit.signatures [] 0))
          (accepted (single_loop k chain_id vals commit m 0 commit.signatures [] 0))
  supported_lem false few h = Agree-eq Adds _ _ refl
  supported_lem true few h = rw h (batch_loop_lem 0 commit.signatures [] 0 [] [] (λ _. refl))

Agree-both : (C : Type 0) (x y : Bool) → C → Agree C x y → x ≡ y
Agree-both C true y c (to, from) = sym (to refl)
Agree-both C false true c (to, from) = from c refl
Agree-both C false false c (to, from) = refl

module _ (k : Crypto) (chain_id : Bytes) (vals : ValidatorSet) (commit : Commit) (m : Mode)
    (b : Batch) (faithful : IsFaithful k b) (low : leb_ℤ (pos 0) m.needed ≡ true) (p : Validator)
    (proposes : get_proposer vals ≡ done (some p)) where
  either_agrees :
      Agree
        (AddsAll k b p.pub_key vals)
        (accepted (verify_either k chain_id vals commit m b))
        (accepted (verify_commit_single k chain_id vals commit m))
  unfolding verify_either should_batch_verify proposer_key verify_commit_batch verify_commit_single
  either_agrees = elim (Bool-cases (leb 2 (length commit.signatures))) [
    | inl many ↦
        rw (many, proposes)
          (supported_lem k chain_id vals commit m b faithful low p.pub_key (b.supports p.pub_key)
            (ltb (length commit.signatures) 2) (ground (arith, many)))
    | inr few ↦ rw few (Agree-eq (AddsAll k b p.pub_key vals) _ _ refl)
  ]

  pub verify_either_sound :
      accepted (verify_either k chain_id vals commit m b) ≡ true
      → accepted (verify_commit_single k chain_id vals commit m) ≡ true
  verify_either_sound = either_agrees.0

  -- Where the proposer is known, the power needed is not negative and there is a batch verifier
  -- whose Verify is as documented and whose Add refuses no valid signature of the validators, as
  -- when their keys are all of the type of the proposer's, the verification that is chosen, in a
  -- batch or one by one, accepts exactly what the verification one by one accepts.
  pub verify_either_lem :
      AddsAll k b p.pub_key vals
      → accepted (verify_either k chain_id vals commit m b)
        ≡ accepted (verify_commit_single k chain_id vals commit m)
  verify_either_lem adds = Agree-both (AddsAll k b p.pub_key vals) _ _ adds either_agrees
