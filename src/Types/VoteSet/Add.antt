-- ===== src/Types/VoteSet/Add.antt =====
-- addVerifiedVote, for a vote that is accepted and not known yet.
use totally_not_a_fork_of_ce.Prelude.{
  ℕ, zero, suc, ◌∷◌, map, ◌<◌, ◌≡◌, refl, sym, ap, Bool, true, false, Option, none, some, arith,
  length, get_elem?, replicate, length-replicate, inl, inr, ◌∙◌, Bool-cases, Option-cases, not,
  ◌&&◌, length,
}
use totally_not_a_fork_of_ce.Prelude.Bytes.{Bytes, bytes_equal, bytes_equal_iff}
use totally_not_a_fork_of_ce.Prelude.Int.{pos}
use totally_not_a_fork_of_ce.Prelude.Outcome.{done}
use totally_not_a_fork_of_ce.Prelude.Maps.{Map}
use totally_not_a_fork_of_ce.Types.BlockId
use totally_not_a_fork_of_ce.Types.BlockId.{BlockId}
use totally_not_a_fork_of_ce.Types.BlockVotes
use totally_not_a_fork_of_ce.Types.BlockVotes.{BlockVotes}
use totally_not_a_fork_of_ce.Types.ValidatorSet
use totally_not_a_fork_of_ce.Types.ValidatorSet.{Validator}
use totally_not_a_fork_of_ce.Types.Vote.{Vote, Crypto, verify}
use totally_not_a_fork_of_ce.Types.VoteSet.{
  VoteSet, is_some, get_vote, has_key, track, finish, add_verified_vote, place,
}
use totally_not_a_fork_of_ce.Types.VoteSet.Slices.{
  At, At-set_self, Covers-replicate, replicate-none, replicate_free, get_elem?-lt,
}
use totally_not_a_fork_of_ce.Types.VoteSet.Power.{voted-replicate}
use totally_not_a_fork_of_ce.Types.VoteSet.Valid.{Frame, frame, IsAccepted, IsTally, IsValid}
use totally_not_a_fork_of_ce.Types.VoteSet.Valid.Place.{IsPlaced, place_new, place_conflict}
use totally_not_a_fork_of_ce.Types.VoteSet.Valid.Count.{IsOpen, counted, count_lem}

-- What it means that `get_vote` finds nothing.
pub record IsUnknown (vs : VoteSet) (i : ℕ) (k : Bytes) : Type 0 where
  pub conflicting : Option Vote
  pub canonical : get_elem? vs.votes i ≡ some conflicting
  pub differs : (e : Vote) → conflicting ≡ some e → ¬ (BlockId.key e.block_id ≡ k)
  pub untallied :
      (bv : BlockVotes) → vs.votes_by_block k ≡ some bv → get_elem? bv.votes i ≡ some none

get_by_index-none :
    (o : Option BlockVotes) (i : ℕ)
    → BlockVotes.get_by_index o i ≡ done none
    → (bv : BlockVotes) → o ≡ some bv
    → get_elem? bv.votes i ≡ some none
unfolding BlockVotes.get_by_index
get_by_index-none o i h bv e = ground arith

pub get_vote-IsUnknown :
    (vs : VoteSet) (i : ℕ) (k : Bytes) → get_vote vs i k ≡ done none → IsUnknown vs i k
unfolding get_vote
get_vote-IsUnknown vs i k h = elim (Option-cases (get_elem? vs.votes i)) [
  | inl e ↦ cc
  | inr (none, e) ↦ record {
    conflicting = none;
    canonical = e;
    differs = λ w e'. cc;
    untallied = get_by_index-none (vs.votes_by_block k) i (rw e at h);
  }
  | inr (some w, e) ↦ elim (Bool-cases (bytes_equal (BlockId.key w.block_id) k)) [
    | inl same ↦ cc
    | inr ne ↦ record {
      conflicting = some w;
      canonical = e;
      differs = λ w' e'. ground (arith, bytes_equal_iff (BlockId.key w.block_id) k);
      untallied = get_by_index-none (vs.votes_by_block k) i (rw ne at (rw e at h));
    }
  ]
]

pub bits-replicate : (n : ℕ) → replicate n false ≡ map is_some (replicate {A = Option Vote} n none)
bits-replicate zero = refl
bits-replicate (suc n) = ap (◌∷◌ false) (bits-replicate n)

module _ (c : Crypto) (vs : VoteSet) (v : IsValid c vs) where
  pub new-IsTally :
      (claimed : Bool) (k : Bytes)
      → IsTally c (frame vs) vs.votes k (BlockVotes.new claimed (ValidatorSet.size vs.val_set))
  unfolding BlockVotes.new ValidatorSet.size
  new-IsTally claimed k =
      let n = length vs.val_set.validators in
      record {
        size = length-replicate n none;
        bits = bits-replicate n;
        sum = sym (voted-replicate vs.val_set.validators n);
        keyed = λ i w h. absurd (replicate-none n i w h);
        accepted = λ i w h. absurd (replicate-none n i w h);
        covered = rw (← v.size) (Covers-replicate vs.votes);
      }

module _ (c : Crypto) (vs : VoteSet) (i : ℕ) (vote : Vote)
    (u : IsUnknown vs i (BlockId.key vote.block_id)) (vs' : VoteSet)
    (p : IsPlaced c vs i vote vs') where
  canonical_after : has_key vs'.maj23 (BlockId.key vote.block_id) ≡ true → At vs'.votes i vote
  canonical_after h = p.canonical (rw p.same_majority at h)

  tracked-IsOpen :
      (bv : BlockVotes)
      → vs'.votes_by_block (BlockId.key vote.block_id) ≡ some bv
      → IsOpen c vs' i vote bv
  tracked-IsOpen bv h = record {
    tally = p.valid.tallies _ bv h;
    free =
        u.untallied bv
          (cc (ap (λ (m : Map Bytes BlockVotes). m (BlockId.key vote.block_id)) p.same_blocks));
    low = λ e. p.valid.no_majority e _ bv h;
    tracked = λ b e same. h;
    present = p.present;
    there = p.there;
    canonical = canonical_after;
  }

  new-IsOpen :
      i < length vs'.val_set.validators
      → vs'.votes_by_block (BlockId.key vote.block_id) ≡ none
      → IsOpen c vs' i vote (BlockVotes.new false (ValidatorSet.size vs'.val_set))
  unfolding BlockVotes.new ValidatorSet.size
  new-IsOpen lt h = record {
    tally = new-IsTally c vs' p.valid false (BlockId.key vote.block_id);
    free = replicate_free (length vs'.val_set.validators) i lt;
    low = λ e. omega arith;
    tracked = λ b e same. cc ((p.valid.majority b e).tallied, ap vs'.votes_by_block same);
    present = p.present;
    there = p.there;
    canonical = canonical_after;
  }

-- A state that a call may leave: the invariant holds, and the set is for the same step and keeps
-- its majority.
pub record Follows (c : Crypto) (vs vs' : VoteSet) : Type 0 where
  pub valid : IsValid c vs'
  pub same_frame : frame vs' ≡ frame vs
  pub stable : (b : BlockId) → vs.maj23 ≡ some b → vs'.maj23 ≡ some b

-- The vote is kept among those for its block.
abbrev pub Holds : VoteSet → ℕ → Vote → Type 0
Holds vs i vote =
    (bv : BlockVotes) × (vs.votes_by_block (BlockId.key vote.block_id) ≡ some bv)
    × At bv.votes i vote

pub record IsAdded (c : Crypto) (vs : VoteSet) (i : ℕ) (vote : Vote)
    (r : VoteSet × Bool × Option Vote) : Type 0 where
  pub follows : Follows c vs r.0
  pub reported : r.2 ≡ none → r.1 ≡ true
  pub holds : r.1 ≡ true → Holds r.0 i vote

module _ (c : Crypto) (vs : VoteSet) (i : ℕ) (vote : Vote)
    (u : IsUnknown vs i (BlockId.key vote.block_id)) (ok : IsAccepted c (frame vs) i vote)
    (vs' : VoteSet) (p : IsPlaced c vs i vote vs') where
  placed-Follows : Follows c vs vs'
  placed-Follows = record {
    valid = p.valid;
    same_frame = p.same_frame;
    stable = λ b e. p.same_majority ∙ e;
  }

  abbrev ok' : IsAccepted c (frame vs') i vote
  ok' = record {
    val = ok.val;
    height = ok.height ∙ sym (ap (λ (f : Frame). f.height) p.same_frame);
    round = ok.round ∙ sym (ap (λ (f : Frame). f.round) p.same_frame);
    type = ok.type ∙ sym (ap (λ (f : Frame). f.type) p.same_frame);
    index = ok.index;
    member = ap (λ (f : Frame). get_elem? f.val_set.validators i) p.same_frame ∙ ok.member;
    address = ok.address;
    verified =
        ap (λ (f : Frame). verify c f.chain_id vote ok.val.pub_key) p.same_frame ∙ ok.verified;
  }

  -- The count of a vote whose block is tracked.
  counted-IsAdded :
      (conflict : Option Vote) (bv : BlockVotes) (o : IsOpen c vs' i vote bv)
      → (r : VoteSet × Bool × Option Vote) × (finish vs' vote
            (BlockId.key vote.block_id)
            ok.val.voting_power
            conflict
            (some bv)
          ≡ done r)
        × IsAdded c vs i vote r
  unfolding finish
  counted-IsAdded conflict bv o =
      let (vs'', e, k) = count_lem c vs' p.valid i vote ok' bv o in
      (
        (vs'', true, conflict),
        rw e,
        record {
          follows = record {
            valid = k.valid;
            same_frame = k.same_frame ∙ p.same_frame;
            stable = λ b h. k.stable b (p.same_majority ∙ h);
          };
          reported = λ _. refl;
          holds = λ _. (
            counted c vs' p.valid i vote ok' bv o,
            k.tallied,
            At-set_self bv.votes i none vote o.free,
          );
        },
      )

  forgotten :
      (conflict : Option Vote)
      → track vs' (BlockId.key vote.block_id) (is_some conflict) ≡ none
      → is_some conflict ≡ true
      → (r : VoteSet × Bool × Option Vote) × (finish vs' vote
            (BlockId.key vote.block_id)
            ok.val.voting_power
            conflict
            (track vs' (BlockId.key vote.block_id) (is_some conflict))
          ≡ done r)
        × IsAdded c vs i vote r
  unfolding finish
  forgotten conflict e h = (
    (vs', false, conflict),
    rw e,
    record { follows = placed-Follows; reported = λ e'. cc; holds = λ e'. cc },
  )

  -- The tail of addVerifiedVote after the vote was placed.
  tracked-IsAdded :
      (conflict : Option Vote)
      → (r : VoteSet × Bool × Option Vote) × (finish vs' vote
            (BlockId.key vote.block_id)
            ok.val.voting_power
            conflict
            (track vs' (BlockId.key vote.block_id) (is_some conflict))
          ≡ done r)
        × IsAdded c vs i vote r
  unfolding track
  tracked-IsAdded conflict = elim (Option-cases (vs'.votes_by_block (BlockId.key vote.block_id))) [
    | inr (bv, e) ↦ elim (Bool-cases (is_some conflict && not bv.peer_maj23)) [
      | inl skip ↦ forgotten conflict (rw (e, track, skip) refl) (ground arith)
      | inr go ↦
          rw (e, track, go) (counted-IsAdded conflict bv (tracked-IsOpen c vs i vote u vs' p bv e))
    ]
    | inl e ↦ elim (Bool-cases (is_some conflict)) [
      | inl skip ↦ forgotten conflict (rw (e, track, skip) refl) skip
      | inr go ↦
          rw (e, track, go)
            (counted-IsAdded conflict _ (
              new-IsOpen c vs i vote u vs' p
                (get_elem?-lt vs'.val_set.validators i ok'.val ok'.member) e))
    ]
  ]

add_verified_vote_step :
    (vs : VoteSet) (vote : Vote) (k : Bytes) (power i : ℕ) (conflicting : Option Vote)
    (vs' : VoteSet)
    → vote.validator_index ≡ pos i
    → get_elem? vs.votes i ≡ some conflicting
    → place vs i vote k power conflicting ≡ done (vs', conflicting)
    → add_verified_vote vs vote k power
      ≡ finish vs' vote k power conflicting (track vs' k (is_some conflicting))
unfolding add_verified_vote
add_verified_vote_step vs vote k power i conflicting vs' index at e = simp (index, at, e)

module _ (c : Crypto) (vs : VoteSet) (v : IsValid c vs) (i : ℕ) (vote : Vote)
    (u : IsUnknown vs i (BlockId.key vote.block_id)) (ok : IsAccepted c (frame vs) i vote) where
  pub add_verified_vote_lem :
      (r : VoteSet × Bool × Option Vote) × (add_verified_vote vs vote
          (BlockId.key vote.block_id)
          ok.val.voting_power
        ≡ done r)
      × IsAdded c vs i vote r
  add_verified_vote_lem = go u.conflicting u.canonical u.differs
    where
      step :
          (conflicting : Option Vote) (vs' : VoteSet)
          → get_elem? vs.votes i ≡ some conflicting
          → place vs i vote (BlockId.key vote.block_id) ok.val.voting_power conflicting
            ≡ done (vs', conflicting)
          → add_verified_vote vs vote (BlockId.key vote.block_id) ok.val.voting_power
            ≡ finish vs' vote
                (BlockId.key vote.block_id)
                ok.val.voting_power
                conflicting
                (track vs' (BlockId.key vote.block_id) (is_some conflicting))
      step conflicting vs' at e = add_verified_vote_step vs vote _ _ i conflicting vs' ok.index at e

      go :
          (conflicting : Option Vote)
          → get_elem? vs.votes i ≡ some conflicting
          → ((e : Vote)
              → conflicting ≡ some e
              → ¬ (BlockId.key e.block_id ≡ BlockId.key vote.block_id))
          → (r : VoteSet × Bool × Option Vote) × (add_verified_vote vs vote
                (BlockId.key vote.block_id)
                ok.val.voting_power
              ≡ done r)
            × IsAdded c vs i vote r
      go none at differs =
          let (vs', e, p) = place_new c vs v i vote ok at in
          rw (step none vs' at e) (tracked-IsAdded c vs i vote u ok vs' p none)
      go (some w) at differs =
          let (vs', e, p) = place_conflict c vs v i vote ok w at (differs w refl) in
          rw (step (some w) vs' at e) (tracked-IsAdded c vs i vote u ok vs' p (some w))
