-- ===== src/Types/VoteSet/AddVote.antt =====
-- AddVote: total on votes with a valid block ID, and what it does to the set.
use totally_not_a_fork_of_ce.Prelude.{
  ℕ, ◌≡◌, refl, sym, Bool, true, false, Option, none, some, arith, length, ◌==◌, get_elem?, inl,
  inr, ◌≢◌, Bool-cases,
}
use totally_not_a_fork_of_ce.Prelude.Bytes.{Bytes, bytes_equal, bytes_equal_iff}
use totally_not_a_fork_of_ce.Prelude.Int.{ℤ, pos, negsuc, ==ℤ_iff}
use totally_not_a_fork_of_ce.Prelude.Outcome.{Outcome, done}
use totally_not_a_fork_of_ce.Types.BlockId
use totally_not_a_fork_of_ce.Types.BlockVotes
use totally_not_a_fork_of_ce.Types.BlockVotes.{BlockVotes}
use totally_not_a_fork_of_ce.Types.VoteSet.Slices.{in_range}
use totally_not_a_fork_of_ce.Types.ValidatorSet
use totally_not_a_fork_of_ce.Types.ValidatorSet.{Validator}
use totally_not_a_fork_of_ce.Types.Vote.{
  Vote, Crypto, VoteError, conflicting_votes, verify, verify_total, type_eq_iff,
}
use totally_not_a_fork_of_ce.Types.VoteSet.{
  VoteSet, get_vote, Added, add_vote, add_vote_at, add_vote_by, add_vote_of, add_new_vote,
  add_if_new, canonical_or, same_step, report,
}
use totally_not_a_fork_of_ce.Types.VoteSet.Valid.{frame, IsAccepted, IsValid}
use totally_not_a_fork_of_ce.Types.VoteSet.Add.{
  Follows, Holds, add_verified_vote_lem, get_vote-IsUnknown,
}

-- What AddVote does: the invariant is kept, a vote counts as added only if it is signed by the
-- validator of its index for this height, round and type, and is then kept for its block; and
-- without a conflict a refusal changes nothing.
pub record IsAddition (c : Crypto) (vs : VoteSet) (vote : Vote) (r : Added) : Type 0 where
  pub follows : Follows c vs r.state
  pub counted : r.added ≡ true → (i : ℕ) × IsAccepted c (frame vs) i vote × Holds r.state i vote
  pub refused :
      r.added ≡ false → ((w : Vote) → r.error ≢ some (conflicting_votes w vote)) → r.state ≡ vs

Follows-refl : (c : Crypto) (vs : VoteSet) → IsValid c vs → Follows c vs vs
Follows-refl c vs v = record { valid = v; same_frame = refl; stable = λ b e. e }

abbrev conflict_error : Vote → Option Vote → Option VoteError
conflict_error vote none = none
conflict_error vote (some w) = some (conflicting_votes w vote)

report_lem :
    (vote : Vote) (vs : VoteSet) (added : Bool) (w : Option Vote)
    → (w ≡ none → added ≡ true)
    → report vote vs added w
      ≡ done (record { state = vs; added = added; error = conflict_error vote w })
unfolding report
report_lem vote vs added (some w) h = refl
report_lem vote vs true none h = refl
report_lem vote vs false none h = cc (h refl)

conflict_error-some :
    (vote : Vote) (added : Bool) (w : Option Vote)
    → (w ≡ none → added ≡ true)
    → added ≡ false
    → (x : Vote) × (conflict_error vote w ≡ some (conflicting_votes x vote))
conflict_error-some vote added none h e = cc (h refl)
conflict_error-some vote added (some w) h e = (w, refl)

module _ (c : Crypto) (vs : VoteSet) (v : IsValid c vs) (vote : Vote) where
  abbrev stays : Option VoteError → Added
  stays e = record { state = vs; added = false; error = e }

  stays-IsAddition : (e : Option VoteError) → IsAddition c vs vote (stays e)
  stays-IsAddition e = record {
    follows = Follows-refl c vs v;
    counted = λ h. cc;
    refused = λ h k. refl;
  }

  abbrev Adds : Outcome Added → Type 0
  Adds o = (r : Added) × (o ≡ done r) × IsAddition c vs vote r

  added-IsAddition :
      (i : ℕ) (ok : IsAccepted c (frame vs) i vote) (vs' : VoteSet) (added : Bool)
      (e : Option VoteError)
      → Follows c vs vs'
      → (added ≡ true → Holds vs' i vote)
      → (added ≡ false → (w : Vote) × (e ≡ some (conflicting_votes w vote)))
      → IsAddition c vs vote (record { state = vs'; added = added; error = e })
  added-IsAddition i ok vs' added e f holds conflict = record {
    follows = f;
    counted = λ h. (i, ok, holds h);
    refused = λ h k. absurd (k (conflict h).0 (conflict h).1);
  }

  report-IsAddition :
      (i : ℕ) (ok : IsAccepted c (frame vs) i vote) (vs' : VoteSet) (added : Bool) (w : Option Vote)
      → Follows c vs vs'
      → (w ≡ none → added ≡ true)
      → (added ≡ true → Holds vs' i vote)
      → Adds (report vote vs' added w)
  report-IsAddition i ok vs' added w f reported holds = (
    record { state = vs'; added = added; error = conflict_error vote w },
    report_lem vote vs' added w reported,
    added-IsAddition i ok vs' added (conflict_error vote w) f holds
        (conflict_error-some vote added w reported),
  )

  same_step_facts :
      same_step vs vote ≡ true
      → (vote.height ≡ vs.height) × (vote.round ≡ vs.round) × (vote.type ≡ vs.signed_msg_type)
  unfolding same_step
  same_step_facts h = ground (
    arith,
    ==ℤ_iff vote.height vs.height,
    ==ℤ_iff vote.round vs.round,
    type_eq_iff vote.type vs.signed_msg_type,
  )

  module _ (valid : BlockId.validate_basic vote.block_id ≡ true) (step : same_step vs vote ≡ true)
      (i : ℕ) (index : vote.validator_index ≡ pos i) (val : Validator)
      (member : get_elem? vs.val_set.validators i ≡ some val) where
    abbrev is_accepted :
        vote.validator_address ≡ val.address
        → verify c vs.chain_id vote val.pub_key ≡ done none
        → IsAccepted c (frame vs) i vote
    is_accepted address e = record {
      val = val;
      height = (same_step_facts step).0;
      round = (same_step_facts step).1;
      type = (same_step_facts step).2;
      index = index;
      member = member;
      address = address;
      verified = e;
    }

    add_new_vote_lem :
        vote.validator_address ≡ val.address
        → get_vote vs i (BlockId.key vote.block_id) ≡ done none
        → Adds (add_new_vote c vs vote val)
    unfolding add_new_vote
    add_new_vote_lem address unknown = go (verify_total c vs.chain_id vote val.pub_key valid)
      where
        go :
            (bad : Option VoteError) × (verify c vs.chain_id vote val.pub_key ≡ done bad)
            → Adds (add_new_vote c vs vote val)
        go (some e, h) = rw h (stays (some e), refl, stays-IsAddition (some e))
        go (none, h) =
            let ok = is_accepted address h in
            let (r, e, a) =
              add_verified_vote_lem c vs v i vote (get_vote-IsUnknown vs i _ unknown) ok in
            rw (h, e) (report-IsAddition i ok r.0 r.1 r.2 a.follows a.reported a.holds)

    -- `get_vote` does not panic at the index of a validator.
    get_vote_total : (k : Bytes) → (o : Option Vote) × (get_vote vs i k ≡ done o)
    unfolding get_vote
    get_vote_total k =
        let (canonical, e) = in_range _ vs.votes i val (sym v.size) member in
        let (w, h) = by_block (vs.votes_by_block k) refl in rw e (by_canonical canonical w _ h)
      where
        by_block :
            (o : Option BlockVotes)
            → vs.votes_by_block k ≡ o
            → (w : Option Vote) × (BlockVotes.get_by_index (vs.votes_by_block k) i ≡ done w)
        by_block none e = rw e (none, refl)
        by_block (some bv) e =
            let (w, h) = in_range _ bv.votes i val (sym (v.tallies k bv e).size) member in
            rw (e, h) (w, refl)

        by_canonical :
            (canonical w : Option Vote) (other : Outcome (Option Vote))
            → other ≡ done w
            → (o : Option Vote) × (canonical_or canonical k other ≡ done o)
        by_canonical none w other h = (w, h)
        by_canonical (some x) w other h =
            elim (Bool-cases (bytes_equal (BlockId.key x.block_id) k)) [
              | inl same ↦ rw same (some x, refl)
              | inr differ ↦ rw differ (w, h)
            ]

    add_if_new_lem :
        vote.validator_address ≡ val.address
        → (o : Option Vote) → get_vote vs i (BlockId.key vote.block_id) ≡ done o
        → Adds (add_if_new c vs vote val o)
    unfolding add_if_new
    add_if_new_lem address none e = add_new_vote_lem address e
    add_if_new_lem address (some w) e = elim (Bool-cases (bytes_equal w.signature vote.signature)) [
      | inl same ↦ rw same (stays _, refl, stays-IsAddition _)
      | inr differ ↦ rw differ (stays _, refl, stays-IsAddition _)
    ]

    add_vote_of_lem : Adds (add_vote_of c vs vote i val)
    unfolding add_vote_of
    add_vote_of_lem = elim (Bool-cases (bytes_equal vote.validator_address val.address)) [
      | inr miss ↦ rw miss (stays _, refl, stays-IsAddition _)
      | inl hit ↦
          let (o, e) = get_vote_total (BlockId.key vote.block_id) in
          rw (hit, e)
            (add_if_new_lem ((bytes_equal_iff vote.validator_address val.address).0 hit) o e)
    ]

  module _ (valid : BlockId.validate_basic vote.block_id ≡ true) where
    add_vote_by_lem :
        same_step vs vote ≡ true
        → (i : ℕ) → vote.validator_index ≡ pos i
        → (o : Option Validator) → get_elem? vs.val_set.validators i ≡ o
        → Adds (add_vote_by c vs vote i o)
    unfolding add_vote_by
    add_vote_by_lem step i index none e = (stays _, refl, stays-IsAddition _)
    add_vote_by_lem step i index (some val) e = add_vote_of_lem valid step i index val e

    add_vote_at_lem :
        (index : ℤ) → vote.validator_index ≡ index → Adds (add_vote_at c vs vote index)
    unfolding add_vote_at ValidatorSet.get_by_index
    add_vote_at_lem (negsuc n) e = (stays _, refl, stays-IsAddition _)
    add_vote_at_lem (pos i) e = elim (Bool-cases (length vote.validator_address == 0)) [
      | inl empty ↦ rw empty (stays _, refl, stays-IsAddition _)
      | inr address ↦ elim (Bool-cases (same_step vs vote)) [
        | inr other ↦ rw (address, other) (stays _, refl, stays-IsAddition _)
        | inl step ↦ rw (address, step) (add_vote_by_lem step i e _ refl)
      ]
    ]

  -- On a vote set that satisfies the invariant, AddVote of a vote with a valid block ID returns
  -- without a panic; the invariant, the step and a majority once found are kept; a vote that is
  -- added is signed by the validator of its index for this height, round and type and is kept for
  -- its block; and a vote that is refused for another reason than a conflict changes nothing.
  pub add_vote-IsAddition :
      BlockId.validate_basic vote.block_id ≡ true
      → (r : Added) × (add_vote c vs (some vote) ≡ done r) × IsAddition c vs vote r
  unfolding add_vote
  add_vote-IsAddition valid = add_vote_at_lem valid vote.validator_index refl
