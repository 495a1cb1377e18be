-- ===== src/Consensus/HeightVoteSet/Store.antt =====
-- The write of a changed vote set to its round.
use totally_not_a_fork_of_ce.Prelude.{◌≡◌, refl, sym, some, arith, ◌⊎◌, inl, inr, ◌∙◌, Bool-cases}
use totally_not_a_fork_of_ce.Prelude.Bytes.{bytes_eq, int_eq}
use totally_not_a_fork_of_ce.Prelude.Int.{ℤ, ◌==ℤ◌, ==ℤ_iff}
use totally_not_a_fork_of_ce.Prelude.Maps.{insert}
use totally_not_a_fork_of_ce.Prelude.Outcome.{done, done_inj}
use totally_not_a_fork_of_ce.Types.BlockId.{BlockId}
use totally_not_a_fork_of_ce.Types.Vote.{
  SignedMsgType, unknown, prevote, precommit, proposal, Crypto,
}
use totally_not_a_fork_of_ce.Types.VoteSet.{VoteSet, two_thirds_majority}
use totally_not_a_fork_of_ce.Types.VoteSet.Add
use totally_not_a_fork_of_ce.Types.VoteSet.Add.{Holds}
use totally_not_a_fork_of_ce.Consensus.HeightVoteSet.{
  HeightVoteSet, RoundVoteSet, get_vote_set, of_type, with_type,
}
use totally_not_a_fork_of_ce.Consensus.HeightVoteSet.Valid.{
  Has, IsRound, IsValid, Majority, Follows, get_vote_set_cases, get_vote_set_of,
}
use totally_not_a_fork_of_ce.Consensus.HeightVoteSet.Valid.Rounds.{
  with_round-IsWell, insert_self, insert_cases,
}

of_type-with_type :
    (rvs : RoundVoteSet) (type : SignedMsgType) (vs vs' : VoteSet)
    → of_type rvs type ≡ done vs
    → of_type (with_type rvs type vs') type ≡ done vs'
unfolding of_type
of_type-with_type rvs unknown vs vs' h = cc
of_type-with_type rvs prevote vs vs' h = refl
of_type-with_type rvs precommit vs vs' h = refl
of_type-with_type rvs proposal vs vs' h = cc

of_type_cases :
    (rvs : RoundVoteSet) (type : SignedMsgType) (vs' : VoteSet) (t : SignedMsgType) (x : VoteSet)
    → of_type (with_type rvs type vs') t ≡ done x
    → ((t ≡ type) × (x ≡ vs')) ⊎ (of_type rvs t ≡ done x)
unfolding of_type
of_type_cases rvs prevote vs' prevote x h = inl (refl, sym (done_inj h))
of_type_cases rvs precommit vs' precommit x h = inl (refl, sym (done_inj h))
of_type_cases rvs prevote vs' precommit x h = inr h
of_type_cases rvs precommit vs' prevote x h = inr h
of_type_cases rvs unknown vs' t x h = inr h
of_type_cases rvs proposal vs' t x h = inr h
of_type_cases rvs prevote vs' unknown x h = cc
of_type_cases rvs prevote vs' proposal x h = cc
of_type_cases rvs precommit vs' unknown x h = cc
of_type_cases rvs precommit vs' proposal x h = cc

-- The other vote set of the round is left alone.
of_type-keeps :
    (rvs : RoundVoteSet) (type : SignedMsgType) (vs' : VoteSet) (t : SignedMsgType) (x : VoteSet)
    → of_type rvs t ≡ done x
    → (t ≡ type) ⊎ (of_type (with_type rvs type vs') t ≡ done x)
unfolding of_type
of_type-keeps rvs prevote vs' prevote x h = inl refl
of_type-keeps rvs precommit vs' precommit x h = inl refl
of_type-keeps rvs prevote vs' precommit x h = inr h
of_type-keeps rvs precommit vs' prevote x h = inr h
of_type-keeps rvs unknown vs' t x h = inr h
of_type-keeps rvs proposal vs' t x h = inr h
of_type-keeps rvs prevote vs' unknown x h = cc
of_type-keeps rvs prevote vs' proposal x h = cc
of_type-keeps rvs precommit vs' unknown x h = cc
of_type-keeps rvs precommit vs' proposal x h = cc

module _ (c : Crypto) where
  -- A vote set of the height is replaced by one that follows it.
  module _ (hvs : HeightVoteSet) (v : IsValid c hvs) (r : ℤ) (type : SignedMsgType)
      (vs vs' : VoteSet) (rvs : RoundVoteSet) (has : Has hvs r rvs)
      (found : of_type rvs type ≡ done vs) (f : Add.Follows c vs vs') where
    abbrev pub stored : HeightVoteSet
    stored = record hvs { round_vote_sets = insert r (with_type rvs type vs') hvs.round_vote_sets }

    with_type-IsRound : IsRound c hvs r (with_type rvs type vs')
    with_type-IsRound t x h = elim (of_type_cases rvs type vs' t x h) [
      | inl (et, ex) ↦ rw (et, ex) (f.valid, f.same_frame ∙ (v.well.sets r rvs has type vs found).1)
      | inr old ↦ v.well.sets r rvs has t x old
    ]

    stored-IsValid : IsValid c stored
    stored-IsValid = record {
      well = with_round-IsWell c hvs v.well r (with_type rvs type vs') with_type-IsRound;
      nonneg = v.nonneg;
      tracked = λ s low high. elim (Bool-cases (r ==ℤ s)) [
        | inl hit ↦ (with_type rvs type vs', rw hit refl)
        | inr miss ↦ let (x, e) = v.tracked s low high in (x, rw miss e)
      ];
      opened = λ s x h. elim (insert_cases hvs.round_vote_sets r (with_type rvs type vs') s x h) [
        | inl (e, _) ↦ rw e (v.opened r rvs has)
        | inr old ↦ v.opened s x old
      ];
    }

    pub stored_found : get_vote_set stored r type ≡ done (some vs')
    stored_found =
        get_vote_set_of stored r type vs' (with_type rvs type vs')
          (insert_self hvs.round_vote_sets r (with_type rvs type vs'))
          (of_type-with_type rvs type vs vs' found)

    stored_stable :
        (s : ℤ) (t : SignedMsgType) (b : BlockId) → Majority hvs s t b → Majority stored s t b
    unfolding two_thirds_majority
    stored_stable s t b (x, e, m) =
        let (y, h, k) = get_vote_set_cases hvs s t x e in
        elim (Bool-cases (r ==ℤ s)) [
          | inr miss ↦ (x, get_vote_set_of stored s t x y (rw miss h) k, m)
          | inl hit ↦
              let same : r ≡ s = (==ℤ_iff r s).0 hit in
              let ey : y ≡ rvs = cc in
              elim (of_type-keeps rvs type vs' t x (rw ey at k)) [
                | inr other ↦ (
                  x,
                  get_vote_set_of stored s t x (with_type rvs type vs') (rw hit refl) other,
                  m,
                )
                | inl et ↦
                    let ex : vs ≡ x = done_inj (cc (found, k, ey, et)) in
                    (vs', rw (← same, et) stored_found, f.stable b (rw ex m))
              ]
        ]

    pub stored-Follows : Follows c hvs stored
    stored-Follows = record {
      valid = stored-IsValid;
      chain_id = refl;
      height = refl;
      val_set = refl;
      forward = omega arith;
      stable = stored_stable;
    }
