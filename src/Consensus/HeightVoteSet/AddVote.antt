-- ===== src/Consensus/HeightVoteSet/AddVote.antt =====
-- AddVote and SetPeerMaj23 of a height vote set.
use totally_not_a_fork_of_ce.Prelude.{
  ◌<◌, ◌≡◌, refl, Bool, true, Option, none, some, ltb, ltb→lt, length, inl, inr, Bool-cases,
}
use totally_not_a_fork_of_ce.Prelude.Bytes.{Bytes, bytes_eq, int_eq}
use totally_not_a_fork_of_ce.Prelude.Int.{ℤ}
use totally_not_a_fork_of_ce.Prelude.Maps.{insert}
use totally_not_a_fork_of_ce.Prelude.Outcome.{Outcome, done}
use totally_not_a_fork_of_ce.Types.BlockId
use totally_not_a_fork_of_ce.Types.BlockId.{BlockId}
use totally_not_a_fork_of_ce.Types.Vote.{Vote, SignedMsgType, is_vote_type_valid, Crypto}
use totally_not_a_fork_of_ce.Types.VoteSet.{VoteSet}
use totally_not_a_fork_of_ce.Types.VoteSet.Claims
use totally_not_a_fork_of_ce.Consensus.HeightVoteSet.{
  HeightVoteSet, get_vote_set, add_catchup_vote, add_vote_in, add_vote, AddedToHeight,
  set_peer_maj23, claim_in,
}
use totally_not_a_fork_of_ce.Consensus.HeightVoteSet.Valid.{
  IsValid, Follows, Follows-refl, get_vote_set_cases, get_vote_set_of, get_vote_set_total,
  get_vote_set-none, of_type_total,
}
use totally_not_a_fork_of_ce.Consensus.HeightVoteSet.Valid.Rounds.{add_round_lem, insert_self}
use totally_not_a_fork_of_ce.Consensus.HeightVoteSet.Store.{stored-Follows}
use totally_not_a_fork_of_ce.Consensus.HeightVoteSet.Addition.{
  IsHeightAddition, unchanged-IsHeightAddition, add_to_lem, add_reopened_lem,
}

module _ (c : Crypto) where
  module _ (vote : Vote) (peer : Bytes) where
    module _ (valid : BlockId.validate_basic vote.block_id ≡ true) (hvs : HeightVoteSet)
        (v : IsValid c hvs) (typed : is_vote_type_valid vote.type ≡ true) where
      abbrev Adds : Outcome AddedToHeight → Type 0
      Adds o = (r : AddedToHeight) × (o ≡ done r) × IsHeightAddition c vote peer hvs r

      add_catchup_vote_lem :
          hvs.round_vote_sets vote.round ≡ none
          → length (hvs.peer_catchup_rounds peer) < 2
          → Adds (add_catchup_vote c hvs vote peer (hvs.peer_catchup_rounds peer))
      unfolding add_catchup_vote
      add_catchup_vote_lem fresh room =
          let (rvs, e, ok) = add_round_lem c hvs v.well vote.round fresh in
          let (vs, found) = of_type_total rvs vote.type typed in
          let g =
            get_vote_set_of
              (record hvs { round_vote_sets = insert vote.round rvs hvs.round_vote_sets })
              vote.round vote.type vs rvs (insert_self hvs.round_vote_sets vote.round rvs) found in
          let (r, h, a) = add_reopened_lem c vote peer hvs v fresh room rvs ok vs valid found in
          (r, rw (add_catchup_vote, e, g) h, a)

      add_vote_in_lem :
          (o : Option VoteSet)
          → get_vote_set hvs vote.round vote.type ≡ done o
          → Adds (add_vote_in c hvs vote peer o)
      unfolding add_vote_in
      add_vote_in_lem (some vs) e =
          let (rvs, has, found) = get_vote_set_cases hvs vote.round vote.type vs e in
          add_to_lem c vote peer valid hvs v vs rvs has found
      add_vote_in_lem none e = elim (Bool-cases (ltb (length (hvs.peer_catchup_rounds peer)) 2)) [
        | inr full ↦ rw full (_, refl, unchanged-IsHeightAddition c vote peer hvs _ v)
        | inl room ↦ rw room (
            add_catchup_vote_lem (get_vote_set-none hvs vote.round vote.type e typed)
              (ltb→lt _ _ room))
      ]

  -- On vote sets of a height that satisfy the invariant, AddVote of a vote with a valid block ID
  -- returns without a panic; the invariant, the round and the majorities are kept; a vote that is
  -- added is signed by the validator of its index for this height, round and type and is kept in
  -- the vote set of its round and type; and for a round without vote sets, a peer that has opened
  -- two rounds is refused with nothing changed.
  pub add_vote-IsHeightAddition :
      (hvs : HeightVoteSet) (vote : Vote) (peer : Bytes)
      → IsValid c hvs
      → BlockId.validate_basic vote.block_id ≡ true
      → (r : AddedToHeight) × (add_vote c hvs vote peer ≡ done r)
        × IsHeightAddition c vote peer hvs r
  unfolding add_vote
  add_vote-IsHeightAddition hvs vote peer v valid =
      elim (Bool-cases (is_vote_type_valid vote.type)) [
        | inr other ↦ rw other (_, refl, unchanged-IsHeightAddition c vote peer hvs none v)
        | inl typed ↦
            let (o, e) = get_vote_set_total hvs vote.round vote.type typed in
            rw (typed, e) (add_vote_in_lem vote peer valid hvs v typed o e)
      ]

  -- On vote sets of a height that satisfy the invariant, SetPeerMaj23 returns without a panic and
  -- keeps the invariant, the round and the majorities.
  pub set_peer_maj23-HeightFollows :
      (hvs : HeightVoteSet) (r : ℤ) (type : SignedMsgType) (peer : Bytes) (b : BlockId)
      → IsValid c hvs
      → (hvs' : HeightVoteSet) × (failed : Bool) × (set_peer_maj23 hvs r type peer b
          ≡ done (hvs', failed))
        × (hvs'.round ≡ hvs.round)
        × Follows c hvs hvs'
  unfolding set_peer_maj23 claim_in
  set_peer_maj23-HeightFollows hvs r type peer b v = elim (Bool-cases (is_vote_type_valid type)) [
    | inr other ↦ (hvs, true, rw other refl, refl, Follows-refl c hvs v)
    | inl typed ↦
        let (o, e) = get_vote_set_total hvs r type typed in
        (
          (claim_in hvs r type peer b o).0,
          (claim_in hvs r type peer b o).1,
          rw (typed, e) refl,
          (claimed o e).0,
          (claimed o e).1,
        )
  ]
    where
      claimed :
          (o : Option VoteSet)
          → get_vote_set hvs r type ≡ done o
          → ((claim_in hvs r type peer b o).0.round ≡ hvs.round)
            × Follows c hvs (claim_in hvs r type peer b o).0
      claimed none e = (refl, Follows-refl c hvs v)
      claimed (some vs) e =
          let (rvs, has, found) = get_vote_set_cases hvs r type vs e in
          let ok = v.well.sets r rvs has type vs found in
          rw has (
            refl,
            stored-Follows c hvs v r type vs _ rvs has found
                (Claims.set_peer_maj23-Follows c vs ok.0 peer b),
          )
