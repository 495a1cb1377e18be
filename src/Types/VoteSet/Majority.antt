-- ===== src/Types/VoteSet/Majority.antt =====
-- What the majority of a vote set means, and what two majorities would mean.
use totally_not_a_fork_of_ce.Prelude.{
  ℕ, ◌*◌, ◌/◌, ◌≤◌, ◌<◌, ◌≡◌, ◌↔◌, Bool, true, some, arith, inl, inr, Option-cases, ap, ltb, ◌==◌,
}
use totally_not_a_fork_of_ce.Prelude.Bytes.{Bytes}
use totally_not_a_fork_of_ce.Prelude.Outcome.{done}
use totally_not_a_fork_of_ce.Types.BlockId
use totally_not_a_fork_of_ce.Types.BlockId.{BlockId}
use totally_not_a_fork_of_ce.Types.BlockVotes.{BlockVotes}
use totally_not_a_fork_of_ce.Types.ValidatorSet.{total, total_voting_power_lem}
use totally_not_a_fork_of_ce.Types.Vote.{Vote, Crypto}
use totally_not_a_fork_of_ce.Types.VoteSet.{
  VoteSet, two_thirds_majority, has_two_thirds_majority, has_two_thirds_any, has_all,
}
use totally_not_a_fork_of_ce.Types.VoteSet.Power.{voted, in_both, voted_overlap, voted-le-total}
use totally_not_a_fork_of_ce.Types.VoteSet.Slices.{At}
use totally_not_a_fork_of_ce.Types.VoteSet.Valid.{Frame, frame, IsAccepted, IsValid}

-- More than two thirds of the power of `vs` stands behind the votes of `bv`.
abbrev pub TwoThirds : VoteSet → BlockVotes → Type 0
TwoThirds vs bv = 2 * total vs.val_set.validators < 3 * voted vs.val_set.validators bv.votes

module _ (c : Crypto) (vs : VoteSet) (v : IsValid c vs) where
  -- The majority that a vote set with the invariant reports is backed by votes for a block of that
  -- key, each signed by its validator for this height, round and type, with more than two thirds
  -- of the power.
  pub two_thirds_majority_backed :
      (b : BlockId)
      → two_thirds_majority vs ≡ some b
      → (bv : BlockVotes) × (vs.votes_by_block (BlockId.key b) ≡ some bv)
        × TwoThirds vs bv
        × ((i : ℕ) (w : Vote)
            → At bv.votes i w
            → (BlockId.key w.block_id ≡ BlockId.key b) × IsAccepted c (frame vs) i w)
  unfolding two_thirds_majority
  two_thirds_majority_backed b e =
      let m = v.majority b e in
      let t = v.tallies (BlockId.key b) m.bv m.tallied in
      (m.bv, m.tallied, omega (arith, m.enough, t.sum), λ i w h. (t.keyed i w h, t.accepted i w h))

  -- On a vote set with the invariant, HasTwoThirdsMajority is true exactly when the votes for some
  -- tracked block have more than two thirds of the power.
  pub has_two_thirds_majority_iff :
      (has_two_thirds_majority vs ≡ true)
      ↔ ((k : Bytes) × (bv : BlockVotes) × (vs.votes_by_block k ≡ some bv) × TwoThirds vs bv)
  unfolding has_two_thirds_majority
  has_two_thirds_majority_iff = (
    (λ h. elim (Option-cases vs.maj23) [
      | inl e ↦ cc
      | inr (b, e) ↦
          let m = v.majority b e in
          let t = v.tallies (BlockId.key b) m.bv m.tallied in
          (BlockId.key b, m.bv, m.tallied, omega (arith, m.enough, t.sum))
    ]),
    (λ h. elim (Option-cases vs.maj23) [
      | inr (b, e) ↦ rw e
      | inl e ↦
          let low = v.no_majority e h.0 h.1 h.2 in
          absurd (omega (arith, low, (v.tallies h.0 h.1 h.2).sum, h.3))
    ]),
  )

  -- On a vote set with the invariant, HasTwoThirdsAny returns, and is true exactly when the
  -- validators that voted at all have more than two thirds of the power.
  pub has_two_thirds_any_lem :
      (r : Bool) × (has_two_thirds_any vs ≡ done r)
      × ((r ≡ true) ↔ (2 * total vs.val_set.validators < 3 * voted vs.val_set.validators vs.votes))
  unfolding has_two_thirds_any
  has_two_thirds_any_lem =
      let e = total_voting_power_lem vs.val_set v.vals in
      (
        ltb (total vs.val_set.validators * 2 / 3) vs.sum,
        rw e,
        ((λ h. ground (arith, v.sum)), (λ h. ground (arith, v.sum))),
      )

  -- On a vote set with the invariant, the power counted is at most the total, and HasAll returns
  -- whether the power of the validators that voted is the total.
  pub has_all_lem :
      (vs.sum ≤ total vs.val_set.validators)
      × (has_all vs ≡ done (voted vs.val_set.validators vs.votes == total vs.val_set.validators))
  unfolding has_all
  has_all_lem = (
    omega (arith, v.sum, voted-le-total vs.val_set.validators vs.votes),
    rw (total_voting_power_lem vs.val_set v.vals, v.sum),
  )

-- If two vote sets of the same step that satisfy the invariant report majorities for two blocks,
-- validators with more than a third of the power are both among the votes that the first set keeps
-- for its block and among those that the second keeps for its own, and all of these votes are
-- signed.
pub two_majorities_share_signers :
    (c : Crypto) (vs ws : VoteSet) (a b : BlockId)
    → IsValid c vs
    → IsValid c ws
    → frame ws ≡ frame vs
    → two_thirds_majority vs ≡ some a
    → two_thirds_majority ws ≡ some b
    → (x : BlockVotes) × (y : BlockVotes) × (vs.votes_by_block (BlockId.key a) ≡ some x)
      × (ws.votes_by_block (BlockId.key b) ≡ some y)
      × (total vs.val_set.validators < 3 * in_both vs.val_set.validators x.votes y.votes)
      × ((i : ℕ) (p q : Vote)
          → At x.votes i p
          → At y.votes i q
          → (BlockId.key p.block_id ≡ BlockId.key a)
            × (BlockId.key q.block_id ≡ BlockId.key b)
            × IsAccepted c (frame vs) i p
            × IsAccepted c (frame vs) i q)
two_majorities_share_signers c vs ws a b v w same ea eb =
    let (x, kx, tx, sx) = two_thirds_majority_backed c vs v a ea in
    let (y, ky, ty, sy) = two_thirds_majority_backed c ws w b eb in
    let vals : ws.val_set.validators ≡ vs.val_set.validators =
      ap (λ (f : Frame). f.val_set.validators) same in
    (
      x,
      y,
      kx,
      ky,
      omega (arith, voted_overlap vs.val_set.validators x.votes y.votes, tx, rw vals at ty),
      λ i p q hp hq. ((sx i p hp).0, (sy i q hq).0, (sx i p hp).1, rw same at ((sy i q hq).1)),
    )
