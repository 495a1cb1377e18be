-- ===== src/Consensus/HeightVoteSet/Addition.antt =====
-- AddVote of a height vote set, with a vote set of the right round and for a peer that opens one.
use totally_not_a_fork_of_ce.Prelude.{
  ℕ, ◌≤◌, ◌<◌, ◌≡◌, refl, List, [], ◌∷◌, ◌++◌, true, false, Option, none, some, arith, length,
  length-append, inl, inr, ◌∙◌, Bool-cases,
}
use totally_not_a_fork_of_ce.Prelude.Bytes.{Bytes, bytes_equal, bytes_equal_iff, bytes_eq, int_eq}
use totally_not_a_fork_of_ce.Prelude.Int.{ℤ}
use totally_not_a_fork_of_ce.Prelude.Maps.{insert}
use totally_not_a_fork_of_ce.Prelude.Outcome.{done}
use totally_not_a_fork_of_ce.Types.BlockId
use totally_not_a_fork_of_ce.Types.BlockId.{BlockId}
use totally_not_a_fork_of_ce.Types.Vote.{Vote, Crypto, VoteError}
use totally_not_a_fork_of_ce.Types.VoteSet.{VoteSet}
use totally_not_a_fork_of_ce.Types.VoteSet.Valid.{IsAccepted}
use totally_not_a_fork_of_ce.Types.VoteSet.Add.{Holds}
use totally_not_a_fork_of_ce.Types.VoteSet.AddVote
use totally_not_a_fork_of_ce.Types.VoteSet.AddVote.{IsAddition}
use totally_not_a_fork_of_ce.Consensus.HeightVoteSet.{
  HeightVoteSet, RoundVoteSet, get_vote_set, of_type, add_to, AddedToHeight, update,
}
use totally_not_a_fork_of_ce.Consensus.HeightVoteSet.Valid.{
  frame_of, Has, IsRound, IsValid, Follows, Follows-refl, Follows-trans,
}
use totally_not_a_fork_of_ce.Consensus.HeightVoteSet.Valid.Rounds.{
  with_round-IsWell, insert_self, insert_other, insert_cases,
}
use totally_not_a_fork_of_ce.Consensus.HeightVoteSet.SetRound.{Majority-kept}
use totally_not_a_fork_of_ce.Consensus.HeightVoteSet.Store.{stored, stored_found, stored-Follows}
use mathlib.Core.List.{Memᴰ}
use mathlib.Core.List.Memᴰ

module _ (c : Crypto) where
  module _ (vote : Vote) (peer : Bytes) where
    -- What AddVote does: the invariant and the majorities are kept; a vote counts as added only if
    -- it is signed by the validator of its index for this height and its own round, and is then
    -- kept in the vote set of its round and type; and a peer that has opened two rounds cannot
    -- open another.
    pub record IsHeightAddition (hvs : HeightVoteSet) (r : AddedToHeight) : Type 0 where
      pub follows : Follows c hvs r.state
      pub same_round : r.state.round ≡ hvs.round
      pub counted :
          r.added ≡ true
          → (vs : VoteSet) × (i : ℕ) × (get_vote_set r.state vote.round vote.type ≡ done (some vs))
            × IsAccepted c (frame_of hvs vote.round vote.type) i vote
            × Holds vs i vote
      pub limited :
          hvs.round_vote_sets vote.round ≡ none
          → length (hvs.peer_catchup_rounds peer) ≡ 2
          → (r.state ≡ hvs) × (r.added ≡ false)

    pub unchanged-IsHeightAddition :
        (hvs : HeightVoteSet) (e : Option VoteError)
        → IsValid c hvs
        → IsHeightAddition hvs (record { state = hvs; added = false; error = e })
    unchanged-IsHeightAddition hvs e v = record {
      follows = Follows-refl c hvs v;
      same_round = refl;
      counted = λ h. cc;
      limited = λ h k. (refl, refl);
    }

    -- AddVote with a vote set of the right round and type.
    module _ (valid : BlockId.validate_basic vote.block_id ≡ true) (hvs : HeightVoteSet)
        (v : IsValid c hvs) (vs : VoteSet) (rvs : RoundVoteSet) (has : Has hvs vote.round rvs)
        (found : of_type rvs vote.type ≡ done vs) where
      pub add_to_lem :
          (r : AddedToHeight) × (add_to c hvs vote (some vs) ≡ done r) × IsHeightAddition hvs r
      unfolding add_to
      add_to_lem =
          let ok = v.well.sets vote.round rvs has vote.type vs found in
          let (r, e, a) = AddVote.add_vote-IsAddition c vs ok.0 vote valid in
          (
            record {
              state = stored c hvs v vote.round vote.type vs r.state rvs has found a.follows;
              added = r.added;
              error = r.error;
            },
            rw (add_to, e, has) refl,
            record {
              follows =
                  stored-Follows c hvs v vote.round vote.type vs r.state rvs has found a.follows;
              same_round = refl;
              counted = λ h.
                  let (i, accepted, holds) = a.counted h in
                  (
                    r.state,
                    i,
                    stored_found c hvs v vote.round vote.type vs r.state rvs has found a.follows,
                    rw ok.1 at accepted,
                    holds,
                  );
              limited = λ h k. cc;
            },
          )

    -- AddVote for a peer that opens the round.
    module _ (hvs : HeightVoteSet) (v : IsValid c hvs)
        (fresh : hvs.round_vote_sets vote.round ≡ none)
        (room : length (hvs.peer_catchup_rounds peer) < 2) (rvs : RoundVoteSet)
        (ok : IsRound c hvs vote.round rvs) where
      abbrev rounds_after : Bytes → List ℤ
      rounds_after =
          update peer (hvs.peer_catchup_rounds peer ++ (vote.round ∷ [])) hvs.peer_catchup_rounds

      abbrev reopened : HeightVoteSet
      reopened = record hvs {
        round_vote_sets = insert vote.round rvs hvs.round_vote_sets;
        peer_catchup_rounds = rounds_after;
      }

      rounds_after-few : (p : Bytes) → length (rounds_after p) ≤ 2
      rounds_after-few p = elim (Bool-cases (bytes_equal peer p)) [
        | inl hit ↦
            rw hit
              (omega (arith, length-append (hvs.peer_catchup_rounds peer) (vote.round ∷ []), room))
        | inr miss ↦ rw miss (v.well.few p)
      ]

      rounds_after-keeps :
          (p : Bytes) (r : ℤ) → Memᴰ r (hvs.peer_catchup_rounds p) → Memᴰ r (rounds_after p)
      rounds_after-keeps p r h = elim (Bool-cases (bytes_equal peer p)) [
        | inl hit ↦
            let same : peer ≡ p = (bytes_equal_iff peer p).0 hit in
            rw hit (Memᴰ.append_left (vote.round ∷ []) (rw (← same) at h))
        | inr miss ↦ rw miss h
      ]

      rounds_after-new : Memᴰ vote.round (rounds_after peer)
      rounds_after-new =
          rw ((bytes_equal_iff peer peer).1 refl)
            (Memᴰ.append_right (hvs.peer_catchup_rounds peer) (Memᴰ.head refl))

      reopened-IsValid : IsValid c reopened
      reopened-IsValid =
          let w = with_round-IsWell c hvs v.well vote.round rvs ok in
          record {
            well = record {
              vals = w.vals;
              height = w.height;
              sets = w.sets;
              few = rounds_after-few;
            };
            nonneg = v.nonneg;
            tracked = λ r low high. let (x, e) = v.tracked r low high in (x, kept r x e);
            opened = λ r x h. elim (insert_cases hvs.round_vote_sets vote.round rvs r x h) [
              | inl (e, _) ↦ inr (peer, rw e rounds_after-new)
              | inr old ↦ elim (v.opened r x old) [
                | inl own ↦ inl own
                | inr (p, m) ↦ inr (p, rounds_after-keeps p r m)
              ]
            ];
          }
        where
          kept : (r : ℤ) (x : RoundVoteSet) → Has hvs r x → Has reopened r x
          kept r x h = insert_other hvs.round_vote_sets vote.round rvs r (λ e. cc) ∙ h

      reopened-Follows : Follows c hvs reopened
      reopened-Follows = record {
        valid = reopened-IsValid;
        chain_id = refl;
        height = refl;
        val_set = refl;
        forward = omega arith;
        stable =
            Majority-kept c hvs reopened
              (λ r x h. insert_other hvs.round_vote_sets vote.round rvs r (λ e. cc) ∙ h);
      }

      pub add_reopened_lem :
          (vs : VoteSet)
          → BlockId.validate_basic vote.block_id ≡ true
          → of_type rvs vote.type ≡ done vs
          → (r : AddedToHeight) × (add_to c reopened vote (some vs) ≡ done r)
            × IsHeightAddition hvs r
      add_reopened_lem vs valid found =
          let (r, e, a) =
            add_to_lem valid reopened reopened-IsValid vs rvs
              (insert_self hvs.round_vote_sets vote.round rvs) found in
          (
            r,
            e,
            record {
              follows = Follows-trans reopened-Follows a.follows;
              same_round = a.same_round;
              counted = a.counted;
              limited = λ h k. absurd (omega (arith, room));
            },
          )
