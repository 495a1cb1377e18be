-- ===== src/Types/VoteSet/Claims.antt =====
-- NewVoteSet and SetPeerMaj23, and the histories of calls on a vote set.
use totally_not_a_fork_of_ce.Prelude.{
  ◌<◌, ◌≡◌, refl, sym, ap, true, none, some, arith, length, length-replicate, ◌≢◌, ◌∙◌, ◌⊎◌, inl,
  inr, Bool-cases, Option-cases,
}
use totally_not_a_fork_of_ce.Prelude.Bytes.{Bytes, bytes_equal, bytes_equal_iff, bytes_eq}
use totally_not_a_fork_of_ce.Prelude.Maps.{Map, insert}
use totally_not_a_fork_of_ce.Prelude.Int.{ℤ, pos, ◌==ℤ◌, ==ℤ_iff}
use totally_not_a_fork_of_ce.Prelude.Outcome.{done}
use totally_not_a_fork_of_ce.Types.BlockId
use totally_not_a_fork_of_ce.Types.BlockId.{BlockId}
use totally_not_a_fork_of_ce.Types.BlockVotes
use totally_not_a_fork_of_ce.Types.BlockVotes.{BlockVotes}
use totally_not_a_fork_of_ce.Types.ValidatorSet
use totally_not_a_fork_of_ce.Types.ValidatorSet.{ValidatorSet}
use totally_not_a_fork_of_ce.Types.Vote.{SignedMsgType, Crypto}
use totally_not_a_fork_of_ce.Types.VoteSet.{VoteSet, new, set_peer_maj23}
use totally_not_a_fork_of_ce.Types.VoteSet.Power.{voted-replicate}
use totally_not_a_fork_of_ce.Types.VoteSet.Slices.{replicate-none}
use totally_not_a_fork_of_ce.Types.VoteSet.Valid.{frame, IsTally, IsMajority, IsValid, quorum}
use totally_not_a_fork_of_ce.Types.VoteSet.Add.{Follows, new-IsTally, bits-replicate}

-- NewVoteSet for a valid validator set and a height other than 0 returns a set that satisfies the
-- invariant.
pub new-IsValid :
    (c : Crypto) (chain_id : Bytes) (height round : ℤ) (type : SignedMsgType) (vals : ValidatorSet)
    → ValidatorSet.IsValid vals
    → height ≢ pos 0
    → (vs : VoteSet) × (new chain_id height round type vals ≡ done vs) × IsValid c vs
unfolding new ValidatorSet.size
new-IsValid c chain_id height round type vals v ne =
    let n = length vals.validators in
    elim (Bool-cases (height ==ℤ pos 0)) [
      | inl zero ↦ absurd (ne ((==ℤ_iff height (pos 0)).0 zero))
      | inr other ↦ rw other (
        _,
        refl,
        record {
          vals = v;
          size = length-replicate n none;
          bits = bits-replicate n;
          sum = sym (voted-replicate vals.validators n);
          accepted = λ i w h. absurd (replicate-none n i w h);
          tallies = λ k bv h. cc;
          majority = λ b h. cc;
          no_majority = λ h k bv h'. cc;
        },
      )
    ]

module _ (c : Crypto) (vs : VoteSet) (v : IsValid c vs) where
  -- A tally may be marked, or an empty one added: `bv` replaces what stands at `k`.
  module _ (k : Bytes) (bv : BlockVotes) (claims : Map Bytes BlockId)
      (tally : IsTally c (frame vs) vs.votes k bv)
      (low : vs.maj23 ≡ none → bv.sum < quorum (frame vs))
      (old : (w : BlockVotes)
        → vs.votes_by_block k ≡ some w
        → (w.sum ≡ bv.sum) × (w.votes ≡ bv.votes)) where
    abbrev replaced : VoteSet
    replaced = record vs { peer_maj23s = claims; votes_by_block = insert k bv vs.votes_by_block }

    replaced_cases :
        (j : Bytes) (w : BlockVotes)
        → replaced.votes_by_block j ≡ some w
        → ((j ≡ k) × (w ≡ bv)) ⊎ (vs.votes_by_block j ≡ some w)
    replaced_cases j w h = ground (arith, bytes_equal_iff k j)

    replaced-IsMajority : (b : BlockId) → IsMajority vs b → IsMajority replaced b
    replaced-IsMajority b m = elim (Bool-cases (bytes_equal k (BlockId.key b))) [
      | inl hit ↦
          let same : k ≡ BlockId.key b = (bytes_equal_iff k (BlockId.key b)).0 hit in
          let (sums, votes) = old m.bv (ap vs.votes_by_block same ∙ m.tallied) in
          record {
            bv = bv;
            tallied = rw hit;
            enough = rw (← sums) m.enough;
            promoted = rw (← votes) m.promoted;
          }
      | inr miss ↦ record {
        bv = m.bv;
        tallied = rw miss m.tallied;
        enough = m.enough;
        promoted = m.promoted;
      }
    ]

    replaced-IsValid : IsValid c replaced
    replaced-IsValid = record {
      vals = v.vals;
      size = v.size;
      bits = v.bits;
      sum = v.sum;
      accepted = v.accepted;
      tallies = λ j w h. elim (replaced_cases j w h) [
        | inl (e, e') ↦ rw (e, e') tally
        | inr before ↦ v.tallies j w before
      ];
      majority = λ b e. replaced-IsMajority b (v.majority b e);
      no_majority = λ e j w h. elim (replaced_cases j w h) [
        | inl (_, e') ↦ rw e' (low e)
        | inr before ↦ v.no_majority e j w before
      ];
    }

    replaced-Follows : Follows c vs replaced
    replaced-Follows = record { valid = replaced-IsValid; same_frame = refl; stable = λ b e. e }

  new_low : (BlockVotes.new true (ValidatorSet.size vs.val_set)).sum < quorum (frame vs)
  unfolding BlockVotes.new
  new_low = omega arith

  marked-IsTally :
      (k : Bytes) (bv : BlockVotes)
      → IsTally c (frame vs) vs.votes k bv
      → IsTally c (frame vs) vs.votes k (record bv { peer_maj23 = true })
  marked-IsTally k bv t = record {
    size = t.size;
    bits = t.bits;
    sum = t.sum;
    keyed = t.keyed;
    accepted = t.accepted;
    covered = t.covered;
  }

  claimed-IsValid : (claims : Map Bytes BlockId) → IsValid c (record vs { peer_maj23s = claims })
  claimed-IsValid claims = record {
    vals = v.vals;
    size = v.size;
    bits = v.bits;
    sum = v.sum;
    accepted = v.accepted;
    tallies = v.tallies;
    majority = λ b e.
        let m = v.majority b e in
        record { bv = m.bv; tallied = m.tallied; enough = m.enough; promoted = m.promoted };
    no_majority = v.no_majority;
  }

  -- SetPeerMaj23 on a vote set with the invariant keeps the invariant, the step and the majority.
  pub set_peer_maj23-Follows :
      (peer : Bytes) (block_id : BlockId) → Follows c vs (set_peer_maj23 vs peer block_id).0
  unfolding set_peer_maj23
  set_peer_maj23-Follows peer block_id = elim (Option-cases (vs.peer_maj23s peer)) [
    | inr (b, e) ↦
        rw (e, set_peer_maj23) (record { valid = v; same_frame = refl; stable = λ b e. e })
    | inl e ↦ elim (Option-cases (vs.votes_by_block (BlockId.key block_id))) [
      | inl fresh ↦
          rw (e, fresh, set_peer_maj23)
            (replaced-Follows (BlockId.key block_id)
              (BlockVotes.new true (ValidatorSet.size vs.val_set)) _
              (new-IsTally c vs v true (BlockId.key block_id)) (λ h. new_low) (λ w h. cc))
      | inr (bv, known) ↦ elim (Bool-cases bv.peer_maj23) [
        | inl marked ↦
            rw (e, known, set_peer_maj23, marked)
              (record { valid = claimed-IsValid _; same_frame = refl; stable = λ b e. e })
        | inr unmarked ↦
            rw (e, known, set_peer_maj23, unmarked)
              (replaced-Follows (BlockId.key block_id) (record bv { peer_maj23 = true }) _
                (marked-IsTally (BlockId.key block_id) bv (v.tallies _ bv known))
                (λ h. v.no_majority h _ bv known) (λ w h. ground arith))
      ]
    ]
  ]
