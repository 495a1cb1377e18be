-- ===== src/Types/VoteSet/Valid/Count.antt =====
-- Counting a vote for its block (the last part of addVerifiedVote) keeps the invariant.
use totally_not_a_fork_of_ce.Prelude.{
  ℕ, ◌+◌, ◌≤◌, ◌<◌, ◌≡◌, refl, sym, ap, List, Bool, true, none, some, arith, length-set, get_elem?,
  set, ◌⊎◌, inl, inr, ◌≢◌, ◌∙◌, Bool-cases, Option-cases, leb,
}
use totally_not_a_fork_of_ce.Prelude.Bytes.{Bytes, bytes_equal, bytes_equal_iff, bytes_eq}
use totally_not_a_fork_of_ce.Prelude.Maps.{insert}
use totally_not_a_fork_of_ce.Prelude.Outcome.{done}
use totally_not_a_fork_of_ce.Types.BlockId
use totally_not_a_fork_of_ce.Types.BlockId.{BlockId}
use totally_not_a_fork_of_ce.Types.BlockVotes.{BlockVotes}
use totally_not_a_fork_of_ce.Types.ValidatorSet.{total_voting_power_lem}
use totally_not_a_fork_of_ce.Types.Vote.{Vote, Crypto}
use totally_not_a_fork_of_ce.Types.VoteSet.{VoteSet, is_some, has_key, count, promote, copy_over}
use totally_not_a_fork_of_ce.Types.VoteSet.Power.{
  Covers, voted-set_new, map-set, length-copy_over, voted-copy_over, bits-copy_over,
  get_elem?-copy_over,
}
use totally_not_a_fork_of_ce.Types.VoteSet.Slices.{
  Votes, At, At-set, At-copy_over, Covers-set_left, Covers-copy_over,
}
use totally_not_a_fork_of_ce.Types.VoteSet.Valid.{
  frame, IsAccepted, IsTally, IsMajority, IsValid, IsTally-covers, quorum,
}

-- The tally of the vote's block before the vote is added to it.
pub record IsOpen (c : Crypto) (vs : VoteSet) (i : ℕ) (vote : Vote) (bv : BlockVotes) : Type 0 where
  pub tally : IsTally c (frame vs) vs.votes (BlockId.key vote.block_id) bv
  pub free : get_elem? bv.votes i ≡ some none
  pub low : vs.maj23 ≡ none → bv.sum < quorum (frame vs)
  pub tracked :
      (b : BlockId)
      → vs.maj23 ≡ some b
      → BlockId.key vote.block_id ≡ BlockId.key b
      → vs.votes_by_block (BlockId.key vote.block_id) ≡ some bv
  pub present : Vote
  pub there : At vs.votes i present
  pub canonical : has_key vs.maj23 (BlockId.key vote.block_id) ≡ true → At vs.votes i vote

module _ (c : Crypto) (vs : VoteSet) (v : IsValid c vs) (i : ℕ) (vote : Vote)
    (ok : IsAccepted c (frame vs) i vote) (bv : BlockVotes) (o : IsOpen c vs i vote bv) where
  -- The tally with the vote.
  abbrev pub counted : BlockVotes
  counted = record bv {
    bit_array = set bv.bit_array i true;
    votes = set bv.votes i (some vote);
    sum = bv.sum + ok.val.voting_power;
  }

  counted-IsTally : IsTally c (frame vs) vs.votes (BlockId.key vote.block_id) counted
  counted-IsTally = record {
    size = length-set bv.votes i (some vote) ∙ o.tally.size;
    bits =
        ap (λ (bs : List Bool). set bs i true) o.tally.bits
        ∙ sym (map-set is_some bv.votes i (some vote));
    sum = omega (
      arith,
      o.tally.sum,
      voted-set_new vs.val_set.validators bv.votes i ok.val vote ok.member o.free,
    );
    keyed = λ j w h. elim (At-set bv.votes i j vote w h) [
      | inl (e, e') ↦ rw (← e') refl
      | inr old ↦ o.tally.keyed j w old
    ];
    accepted = λ j w h. elim (At-set bv.votes i j vote w h) [
      | inl (e, e') ↦ rw (e, ← e') ok
      | inr old ↦ o.tally.accepted j w old
    ];
    covered = Covers-set_left bv.votes vs.votes i vote o.present o.tally.covered o.there;
  }

  abbrev stored : VoteSet
  stored = record vs {
    votes_by_block = insert (BlockId.key vote.block_id) counted vs.votes_by_block;
  }

  -- Each tally after the vote is the new one or an old one.
  stored_cases :
      (k : Bytes) (b : BlockVotes)
      → stored.votes_by_block k ≡ some b
      → ((k ≡ BlockId.key vote.block_id) × (b ≡ counted))
        ⊎ ((k ≢ BlockId.key vote.block_id) × (vs.votes_by_block k ≡ some b))
  stored_cases k b h = ground (arith, bytes_equal_iff (BlockId.key vote.block_id) k)

  stored-tallies :
      (votes : Votes)
      → ((xs : Votes) → Covers xs vs.votes → Covers xs votes)
      → (k : Bytes) (b : BlockVotes) → stored.votes_by_block k ≡ some b
      → IsTally c (frame vs) votes k b
  stored-tallies votes grow k b h = elim (stored_cases k b h) [
    | inl (e, e') ↦
        rw (e, e') (IsTally-covers counted-IsTally (grow counted.votes counted-IsTally.covered))
    | inr (ne, old) ↦ IsTally-covers (v.tallies k b old) (grow b.votes (v.tallies k b old).covered)
  ]

  stored_self : stored.votes_by_block (BlockId.key vote.block_id) ≡ some counted
  stored_self =
      ground (arith, bytes_equal_iff (BlockId.key vote.block_id) (BlockId.key vote.block_id))

  stored-other :
      (k : Bytes) → k ≢ BlockId.key vote.block_id → stored.votes_by_block k ≡ vs.votes_by_block k
  stored-other k ne = ground (arith, bytes_equal_iff (BlockId.key vote.block_id) k)

  majority-hit :
      (b : BlockId)
      → vs.maj23 ≡ some b
      → BlockId.key vote.block_id ≡ BlockId.key b
      → At vs.votes i vote
  majority-hit b e same =
      o.canonical
        (rw e ((bytes_equal_iff (BlockId.key b) (BlockId.key vote.block_id)).1 (sym same)))

  stored-IsMajority_same :
      (b : BlockId)
      → vs.maj23 ≡ some b
      → BlockId.key vote.block_id ≡ BlockId.key b
      → IsMajority vs b
      → IsMajority stored b
  stored-IsMajority_same b e same m = record {
    bv = counted;
    tallied = rw (← same) stored_self;
    enough = omega (arith, m.enough, ap (λ (t : BlockVotes). t.sum) is_bv);
    promoted = λ j w h. elim (At-set bv.votes i j vote w h) [
      | inl (at, _) ↦ rw at (vote, majority-hit b e same, same)
      | inr old ↦ m.promoted j w (rw is_bv old)
    ];
  }
    where
      is_bv : m.bv ≡ bv
      is_bv = cc (m.tallied, o.tracked b e same, ap vs.votes_by_block same)

  stored-IsMajority : (b : BlockId) → vs.maj23 ≡ some b → IsMajority stored b
  stored-IsMajority b e =
      let m = v.majority b e in
      elim (Bool-cases (bytes_equal (BlockId.key b) (BlockId.key vote.block_id))) [
        | inl hit ↦
            stored-IsMajority_same b e
              (sym ((bytes_equal_iff (BlockId.key b) (BlockId.key vote.block_id)).0 hit)) m
        | inr miss ↦ record {
          bv = m.bv;
          tallied =
              stored-other (BlockId.key b)
                (λ same. cc ((bytes_equal_iff (BlockId.key b) (BlockId.key vote.block_id)).1 same))
              ∙ m.tallied;
          enough = m.enough;
          promoted = m.promoted;
        }
      ]

  stored-IsValid : (vs.maj23 ≡ none → counted.sum < quorum (frame vs)) → IsValid c stored
  stored-IsValid low = record {
    vals = v.vals;
    size = v.size;
    bits = v.bits;
    sum = v.sum;
    accepted = v.accepted;
    tallies = stored-tallies vs.votes (λ xs h. h);
    majority = stored-IsMajority;
    no_majority = λ none_yet k b h. elim (stored_cases k b h) [
      | inl (e, e') ↦ rw e' (low none_yet)
      | inr (ne, old) ↦ v.no_majority none_yet k b old
    ];
  }

  abbrev promoted : VoteSet
  promoted = record stored { maj23 = some vote.block_id; votes = copy_over counted.votes vs.votes }

  promoted-IsValid : quorum (frame vs) ≤ counted.sum → IsValid c promoted
  promoted-IsValid enough = record {
    vals = v.vals;
    size = length-copy_over counted.votes vs.votes ∙ v.size;
    bits = v.bits ∙ sym (bits-copy_over counted.votes vs.votes counted-IsTally.covered);
    sum =
        v.sum
        ∙ sym
            (voted-copy_over vs.val_set.validators counted.votes vs.votes counted-IsTally.covered);
    accepted = λ j w h. elim (At-copy_over counted.votes vs.votes j w h) [
      | inl new ↦ counted-IsTally.accepted j w new
      | inr old ↦ v.accepted j w old
    ];
    tallies =
        stored-tallies (copy_over counted.votes vs.votes)
          (λ xs. Covers-copy_over counted.votes xs vs.votes);
    majority = λ b e.
        let same : vote.block_id ≡ b = cc in
        record {
          bv = counted;
          tallied = rw (← same) stored_self;
          enough = enough;
          promoted = λ j w h. (
            w,
            get_elem?-copy_over counted.votes vs.votes j w h counted-IsTally.covered,
            rw (← same) (counted-IsTally.keyed j w h),
          );
        };
    no_majority = λ e. cc;
  }

  -- What `count` gives.
  pub record IsCounted (vs' : VoteSet) : Type 0 where
    pub valid : IsValid c vs'
    pub same_frame : frame vs' ≡ frame vs
    pub stable : (b : BlockId) → vs.maj23 ≡ some b → vs'.maj23 ≡ some b
    pub tallied : vs'.votes_by_block (BlockId.key vote.block_id) ≡ some counted

  promote_lem : IsCounted (promote stored vote.block_id bv.sum (quorum (frame vs)) counted)
  unfolding promote
  promote_lem = elim (Option-cases vs.maj23) [
    | inr (b, e) ↦
        let kept : promote stored vote.block_id bv.sum (quorum (frame vs)) counted ≡ stored =
          ground (arith, e) in
        rw kept (unchanged (λ none_yet. cc))
    | inl none_yet ↦ elim (Bool-cases (leb (quorum (frame vs)) counted.sum)) [
      | inl enough ↦
          let crossed : promote stored vote.block_id bv.sum (quorum (frame vs)) counted ≡ promoted =
            ground (arith, o.low none_yet, none_yet) in
          rw crossed (record {
            valid = promoted-IsValid (ground arith);
            same_frame = refl;
            stable = λ b e. cc;
            tallied = stored_self;
          })
      | inr short ↦
          let kept : promote stored vote.block_id bv.sum (quorum (frame vs)) counted ≡ stored =
            ground arith in
          rw kept (unchanged (λ _. ground arith))
    ]
  ]
    where
      unchanged : (vs.maj23 ≡ none → counted.sum < quorum (frame vs)) → IsCounted stored
      unchanged low = record {
        valid = stored-IsValid low;
        same_frame = refl;
        stable = λ b e. e;
        tallied = stored_self;
      }

  pub count_lem :
      (vs' : VoteSet) × (count vs vote (BlockId.key vote.block_id) ok.val.voting_power bv
        ≡ done vs')
      × IsCounted vs'
  unfolding count
  count_lem = (
    promote stored vote.block_id bv.sum (quorum (frame vs)) counted,
    simp (total_voting_power_lem vs.val_set v.vals, ok.index, o.free),
    promote_lem,
  )
