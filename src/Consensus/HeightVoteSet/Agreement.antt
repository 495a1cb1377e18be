-- ===== src/Consensus/HeightVoteSet/Agreement.antt =====
-- What majorities for two blocks in the vote sets of two nodes would show.
use totally_not_a_fork_of_ce.Prelude.{ℕ, ◌*◌, ◌<◌, ◌≡◌, sym, ◌∙◌, some}
use totally_not_a_fork_of_ce.Prelude.Int.{ℤ}
use totally_not_a_fork_of_ce.Prelude.Outcome.{done}
use totally_not_a_fork_of_ce.Types.BlockId
use totally_not_a_fork_of_ce.Types.BlockId.{BlockId}
use totally_not_a_fork_of_ce.Types.BlockVotes.{BlockVotes}
use totally_not_a_fork_of_ce.Types.ValidatorSet.{total}
use totally_not_a_fork_of_ce.Types.Vote.{Vote, SignedMsgType, Crypto}
use totally_not_a_fork_of_ce.Types.VoteSet.{VoteSet, two_thirds_majority}
use totally_not_a_fork_of_ce.Types.VoteSet.Power.{in_both}
use totally_not_a_fork_of_ce.Types.VoteSet.Slices.{At}
use totally_not_a_fork_of_ce.Types.VoteSet.Valid.{Frame, frame, IsAccepted}
use totally_not_a_fork_of_ce.Types.VoteSet.Valid
use totally_not_a_fork_of_ce.Types.VoteSet.Majority.{two_majorities_share_signers}
use totally_not_a_fork_of_ce.Consensus.HeightVoteSet.{HeightVoteSet, get_vote_set}
use totally_not_a_fork_of_ce.Consensus.HeightVoteSet.Valid.{
  IsValid, Majority, frame_of, get_vote_set_cases,
}

-- Two nodes at the same height of the same chain.
abbrev pub SameHeight : HeightVoteSet → HeightVoteSet → Type 0
SameHeight a b = (b.chain_id ≡ a.chain_id) × (b.height ≡ a.height) × (b.val_set ≡ a.val_set)

-- A majority comes from a vote set that satisfies its invariant, for its round and type.
backing_set :
    (c : Crypto) (hvs : HeightVoteSet) (r : ℤ) (t : SignedMsgType) (b : BlockId)
    → IsValid c hvs
    → Majority hvs r t b
    → (vs : VoteSet) × (get_vote_set hvs r t ≡ done (some vs))
      × Valid.IsValid c vs
      × (frame vs ≡ frame_of hvs r t)
      × (two_thirds_majority vs ≡ some b)
backing_set c hvs r t b v (vs, e, m) =
    let (rvs, has, found) = get_vote_set_cases hvs r t vs e in
    let ok = v.well.sets r rvs has t vs found in (vs, e, ok.0, ok.1, m)

same_frames :
    (a b : HeightVoteSet) (r : ℤ) (t : SignedMsgType)
    → SameHeight a b
    → frame_of b r t ≡ frame_of a r t
same_frames a b r t (ec, eh, ev) = cc

-- The votes that the node has kept for the block in that round and type.
abbrev pub KeptFor : HeightVoteSet → ℤ → SignedMsgType → BlockId → BlockVotes → Type 0
KeptFor hvs r t b bv =
    (vs : VoteSet) × (get_vote_set hvs r t ≡ done (some vs))
    × (vs.votes_by_block (BlockId.key b) ≡ some bv)

-- Validators with more than a third of the power are in the two sets of votes, each of which is
-- signed and for its block, in that step.
abbrev pub SignedBoth : Crypto → Frame → BlockId → BlockId → BlockVotes → BlockVotes → Type 0
SignedBoth c f a b x y =
    (total f.val_set.validators < 3 * in_both f.val_set.validators x.votes y.votes)
    × ((i : ℕ) (p q : Vote)
        → At x.votes i p
        → At y.votes i q
        → (BlockId.key p.block_id ≡ BlockId.key a)
          × (BlockId.key q.block_id ≡ BlockId.key b)
          × IsAccepted c f i p
          × IsAccepted c f i q)

signed_along :
    (c : Crypto) (f g : Frame) (a b : BlockId) (x y : BlockVotes)
    → g ≡ f
    → SignedBoth c f a b x y
    → SignedBoth c g a b x y
signed_along c f g a b x y e h = rw e h

-- If the vote sets of two nodes at the same height of one chain with one validator set satisfy the
-- invariant and have majorities for two blocks in the same round and type, validators with more
-- than a third of the power are both among the votes that the one node keeps for its block in that
-- step and among those that the other keeps for its own, and all of these votes are signed.
pub majorities_share_signers :
    (c : Crypto) (hvs hws : HeightVoteSet) (r : ℤ) (t : SignedMsgType) (a b : BlockId)
    → IsValid c hvs
    → IsValid c hws
    → SameHeight hvs hws
    → Majority hvs r t a
    → Majority hws r t b
    → (x : BlockVotes) × (y : BlockVotes) × KeptFor hvs r t a x
      × KeptFor hws r t b y
      × SignedBoth c (frame_of hvs r t) a b x y
majorities_share_signers c hvs hws r t a b v w same ma mb =
    let (vs, ka, va, fa, ea) = backing_set c hvs r t a v ma in
    let (ws, kb, vb, fb, eb) = backing_set c hws r t b w mb in
    let f : frame ws ≡ frame vs = fb ∙ same_frames hvs hws r t same ∙ sym fa in
    let (x, y, kx, ky, over, signed) = two_majorities_share_signers c vs ws a b va vb f ea eb in
    (
      x,
      y,
      (vs, ka, kx),
      (ws, kb, ky),
      signed_along c (frame vs) (frame_of hvs r t) a b x y (sym fa) (over, signed),
    )
