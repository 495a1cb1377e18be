-- ===== src/Types/VoteSet/Valid/Place.antt =====
-- Placing a canonical vote (the first part of addVerifiedVote) keeps the invariant.
use totally_not_a_fork_of_ce.Prelude.{
  ℕ, ◌+◌, ◌≡◌, refl, sym, ap, List, Bool, true, false, none, some, arith, length-set, get_elem?,
  set, ◌⊎◌, inl, inr, ◌∙◌, Bool-cases,
}
use totally_not_a_fork_of_ce.Prelude.Bytes.{Bytes, bytes_equal_iff}
use totally_not_a_fork_of_ce.Prelude.Outcome.{done}
use totally_not_a_fork_of_ce.Types.BlockId
use totally_not_a_fork_of_ce.Types.BlockId.{BlockId}
use totally_not_a_fork_of_ce.Types.BlockVotes.{BlockVotes}
use totally_not_a_fork_of_ce.Types.Vote.{Vote, Crypto}
use totally_not_a_fork_of_ce.Types.VoteSet.{VoteSet, is_some, has_key, place}
use totally_not_a_fork_of_ce.Types.VoteSet.Power.{voted, voted-set_new, voted-set_again, map-set}
use totally_not_a_fork_of_ce.Types.VoteSet.Slices.{
  Votes, At, At-set, At-set_self, At-set_keep, Covers-set_right,
}
use totally_not_a_fork_of_ce.Types.VoteSet.Valid.{
  frame, IsAccepted, IsTally, Promoted, IsMajority, IsValid, IsTally-covers,
}

module _ (c : Crypto) (vs : VoteSet) (v : IsValid c vs) (i : ℕ) (vote : Vote)
    (ok : IsAccepted c (frame vs) i vote) where
  set-accepted :
      (j : ℕ) (w : Vote) → At (set vs.votes i (some vote)) j w → IsAccepted c (frame vs) j w
  set-accepted j w h = elim (At-set vs.votes i j vote w h) [
    | inl (e, e') ↦ rw (e, ← e') ok
    | inr old ↦ v.accepted j w old
  ]

  set-tallies :
      (k : Bytes) (bv : BlockVotes)
      → vs.votes_by_block k ≡ some bv
      → IsTally c (frame vs) (set vs.votes i (some vote)) k bv
  set-tallies k bv h =
      let t = v.tallies k bv h in
      IsTally-covers t (Covers-set_right bv.votes vs.votes i vote t.covered)

  -- The majority's votes stay promoted if the index was free or the vote is for it too.
  set-Promoted :
      (k : Bytes) (xs : Votes)
      → Promoted k xs vs.votes
      → (get_elem? vs.votes i ≡ some none) ⊎ (BlockId.key vote.block_id ≡ k)
      → Promoted k xs (set vs.votes i (some vote))
  set-Promoted k xs p free j x h =
      let (w, at, e) = p j x h in
      elim (At-set_keep vs.votes i j vote w at) [
        | inl (old, new) ↦ elim free [ inl none_there ↦ cc | inr same ↦ (vote, new, same) ]
        | inr kept ↦ (w, kept, e)
      ]

  set-IsMajority :
      (b : BlockId)
      → IsMajority vs b
      → (get_elem? vs.votes i ≡ some none) ⊎ (BlockId.key vote.block_id ≡ BlockId.key b)
      → (sum : ℕ)
      → IsMajority
          (record vs {
            votes = set vs.votes i (some vote);
            votes_bit_array = set vs.votes_bit_array i true;
            sum = sum;
          })
          b
  set-IsMajority b m free sum = record {
    bv = m.bv;
    tallied = m.tallied;
    enough = m.enough;
    promoted = set-Promoted (BlockId.key b) m.bv.votes m.promoted free;
  }

  set-IsValid :
      (sum : ℕ)
      → sum ≡ voted vs.val_set.validators (set vs.votes i (some vote))
      → ((b : BlockId)
          → vs.maj23 ≡ some b
          → (get_elem? vs.votes i ≡ some none) ⊎ (BlockId.key vote.block_id ≡ BlockId.key b))
      → IsValid c (record vs {
        votes = set vs.votes i (some vote);
        votes_bit_array = set vs.votes_bit_array i true;
        sum = sum;
      })
  set-IsValid sum e free = record {
    vals = v.vals;
    size = length-set vs.votes i (some vote) ∙ v.size;
    bits =
        ap (λ (bs : List Bool). set bs i true) v.bits
        ∙ sym (map-set is_some vs.votes i (some vote));
    sum = e;
    accepted = set-accepted;
    tallies = set-tallies;
    majority = λ b h. set-IsMajority b (v.majority b h) (free b h) sum;
    no_majority = v.no_majority;
  }

-- What `place` gives: a valid set, where the validator has a canonical vote, which is the new one if
-- the vote is for the majority's block.
pub record IsPlaced (c : Crypto) (vs : VoteSet) (i : ℕ) (vote : Vote) (vs' : VoteSet) : Type 0 where
  pub valid : IsValid c vs'
  pub present : Vote
  pub there : At vs'.votes i present
  pub canonical : has_key vs.maj23 (BlockId.key vote.block_id) ≡ true → At vs'.votes i vote
  pub same_majority : vs'.maj23 ≡ vs.maj23
  pub same_blocks : vs'.votes_by_block ≡ vs.votes_by_block
  pub same_frame : frame vs' ≡ frame vs

has_key-some : (b : BlockId) (k : Bytes) → has_key (some b) k ≡ true → k ≡ BlockId.key b
has_key-some b k h = sym ((bytes_equal_iff (BlockId.key b) k).0 h)

module _ (c : Crypto) (vs : VoteSet) (v : IsValid c vs) (i : ℕ) (vote : Vote)
    (ok : IsAccepted c (frame vs) i vote) where
  pub place_new :
      get_elem? vs.votes i ≡ some none
      → (vs' : VoteSet) × (place vs i vote (BlockId.key vote.block_id) ok.val.voting_power none
          ≡ done (vs', none))
        × IsPlaced c vs i vote vs'
  unfolding place
  place_new h = (
    record vs {
      votes = set vs.votes i (some vote);
      votes_bit_array = set vs.votes_bit_array i true;
      sum = vs.sum + ok.val.voting_power;
    },
    refl,
    record {
      valid =
          set-IsValid c vs v i vote ok (vs.sum + ok.val.voting_power)
            (omega (
              arith,
              v.sum,
              voted-set_new vs.val_set.validators vs.votes i ok.val vote ok.member h,
            ))
            (λ b e. inl h);
      present = vote;
      there = At-set_self vs.votes i none vote h;
      canonical = λ _. At-set_self vs.votes i none vote h;
      same_majority = refl;
      same_blocks = refl;
      same_frame = refl;
    },
  )

  pub place_conflict :
      (existing : Vote)
      → At vs.votes i existing
      → ¬ (BlockId.key existing.block_id ≡ BlockId.key vote.block_id)
      → (vs' : VoteSet) × (place vs i vote
            (BlockId.key vote.block_id)
            ok.val.voting_power
            (some existing)
          ≡ done (vs', some existing))
        × IsPlaced c vs i vote vs'
  unfolding place
  place_conflict existing h ne =
      elim (Bool-cases (BlockId.equals existing.block_id vote.block_id)) [
        | inl same ↦
            absurd
              (ne (ap BlockId.key ((BlockId.equals_iff existing.block_id vote.block_id).0 same)))
        | inr differ ↦ elim (Bool-cases (has_key vs.maj23 (BlockId.key vote.block_id))) [
          | inl hit ↦ rw (differ, hit) (replaced, refl, replaced-IsPlaced hit)
          | inr miss ↦ rw (differ, miss) (vs, refl, kept-IsPlaced miss)
        ]
      ]
    where
      replaced : VoteSet
      replaced = record vs {
        votes = set vs.votes i (some vote);
        votes_bit_array = set vs.votes_bit_array i true;
      }

      matches :
          (b : BlockId)
          → has_key vs.maj23 (BlockId.key vote.block_id) ≡ true
          → vs.maj23 ≡ some b
          → BlockId.key vote.block_id ≡ BlockId.key b
      matches b hit e = has_key-some b _ (rw e at hit)

      replaced-IsPlaced :
          has_key vs.maj23 (BlockId.key vote.block_id) ≡ true → IsPlaced c vs i vote replaced
      replaced-IsPlaced hit = record {
        valid =
            set-IsValid c vs v i vote ok vs.sum
              (v.sum ∙ sym (voted-set_again vs.val_set.validators vs.votes i existing vote h))
              (λ b e. inr (matches b hit e));
        present = vote;
        there = At-set_self vs.votes i (some existing) vote h;
        canonical = λ _. At-set_self vs.votes i (some existing) vote h;
        same_majority = refl;
        same_blocks = refl;
        same_frame = refl;
      }

      kept-IsPlaced : has_key vs.maj23 (BlockId.key vote.block_id) ≡ false → IsPlaced c vs i vote vs
      kept-IsPlaced miss = record {
        valid = v;
        present = existing;
        there = h;
        canonical = λ hit. cc;
        same_majority = refl;
        same_blocks = refl;
        same_frame = refl;
      }
