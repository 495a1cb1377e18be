-- ===== src/Consensus/HeightVoteSet/SetRound.antt =====
-- NewHeightVoteSet and SetRound.
use totally_not_a_fork_of_ce.Prelude.{
  ℕ, ◌+◌, ◌≡◌, refl, ap, [], false, none, not, ◌&&◌, arith, inl, inr, ◌≢◌, Bool-cases,
}
use totally_not_a_fork_of_ce.Prelude.Bytes.{Bytes, bytes_eq, int_eq}
use totally_not_a_fork_of_ce.Prelude.Int.{
  ℤ, pos, pos_part, neg_part, ◌+ℤ◌, ◌-ℤ◌, ◌≤ℤ◌, ◌<ℤ◌, ◌==ℤ◌, ltb_ℤ, eq_of_parts,
}
use totally_not_a_fork_of_ce.Prelude.Maps.{Map, insert}
use totally_not_a_fork_of_ce.Prelude.Outcome.{done, ◌>>=◌}
use totally_not_a_fork_of_ce.Types.BlockId.{BlockId}
use totally_not_a_fork_of_ce.Types.ValidatorSet
use totally_not_a_fork_of_ce.Types.ValidatorSet.{ValidatorSet}
use totally_not_a_fork_of_ce.Types.Vote.{SignedMsgType, Crypto}
use totally_not_a_fork_of_ce.Consensus.HeightVoteSet
use totally_not_a_fork_of_ce.Consensus.HeightVoteSet.{
  HeightVoteSet, RoundVoteSet, get_vote_set, add_round, predecessor, reset, set_round,
}
use totally_not_a_fork_of_ce.Consensus.HeightVoteSet.Valid.{
  Has, IsWell, IsValid, Majority, Follows, get_vote_set_cases, get_vote_set_of,
}
use totally_not_a_fork_of_ce.Consensus.HeightVoteSet.Valid.Rounds.{
  Within, suc_parts, Extends, with_round-IsWell, add_round_lem, ensure_rounds_lem, insert_cases,
}

pred_parts : (a : ℤ) → pos_part (a -ℤ pos 1) + neg_part a + 1 ≡ pos_part a + neg_part (a -ℤ pos 1)
unfolding ◌-ℤ◌
pred_parts a = ground arith

sub_parts :
    (a b : ℤ) → b ≤ℤ a → pos_part (a -ℤ b) + pos_part b + neg_part a ≡ pos_part a + neg_part b
unfolding ◌-ℤ◌
sub_parts a b h = ground arith

-- The greatest int32. The loop of SetRound compares `r <= round` after `r++`, so that it goes on for
-- ever at this round.
abbrev pub max_int32 : ℤ
max_int32 = pos 2147483647

-- The rounds that SetRound goes through are those from the current one less one to the new one.
abbrev turns : ℤ → ℤ → ℕ
turns a b = pos_part ((b +ℤ pos 1) -ℤ (a -ℤ pos 1))

Within-turns :
    (a b s : ℤ)
    → a ≤ℤ b
    → ((a ≤ℤ s) × (s ≤ℤ b) → Within (a -ℤ pos 1) (turns a b) s)
      × (Within (a -ℤ pos 1) (turns a b) s → (a ≤ℤ (s +ℤ pos 1)) × (s ≤ℤ b))
Within-turns a b s h =
    let d = sub_parts (b +ℤ pos 1) (a -ℤ pos 1) (omega (arith, suc_parts b, pred_parts a)) in
    let sb = suc_parts b in
    let ss = suc_parts s in
    let pa = pred_parts a in ((λ k. (omega arith, omega arith)), (λ k. (omega arith, omega arith)))

module _ (c : Crypto) where
  -- A majority that is there stays when entries are only added.
  pub Majority-kept :
      (hvs hvs' : HeightVoteSet)
      → ((s : ℤ) (rvs : RoundVoteSet) → Has hvs s rvs → Has hvs' s rvs)
      → (r : ℤ) (type : SignedMsgType) (b : BlockId) → Majority hvs r type b
      → Majority hvs' r type b
  Majority-kept hvs hvs' kept r type b (vs, e, m) =
      let (rvs, h, t) = get_vote_set_cases hvs r type vs e in
      (vs, get_vote_set_of hvs' r type vs rvs (kept r rvs h) t, m)

  module _ (hvs : HeightVoteSet) (v : IsValid c hvs) (round : ℤ) (up : hvs.round ≤ℤ round)
      (m : Map ℤ RoundVoteSet)
      (f : Extends c hvs (hvs.round -ℤ pos 1) (turns hvs.round round) m) where
    abbrev moved : HeightVoteSet
    moved = record hvs { round_vote_sets = m; round = round }

    moved-IsValid : IsValid c moved
    moved-IsValid = record {
      well = record {
        vals = f.well.vals;
        height = f.well.height;
        sets = f.well.sets;
        few = f.well.few;
      };
      nonneg = omega (arith, v.nonneg);
      tracked = λ r low high. elim (Bool-cases (ltb_ℤ r hvs.round)) [
        | inl old ↦ let (rvs, e) = v.tracked r low (ground arith) in (rvs, f.kept r rvs e)
        | inr new ↦ f.filled r ((Within-turns hvs.round round r up).0 (ground arith))
      ];
      opened = λ r rvs h. elim (f.added r rvs h) [
        | inl old ↦ elim (v.opened r rvs old) [
          | inl (low, high) ↦ inl (low, omega arith)
          | inr peer ↦ inr peer
        ]
        | inr now ↦
            let k = (Within-turns hvs.round round r up).1 now in
            inl (ground (arith, suc_parts r, v.nonneg), k.1)
      ];
    }

    moved-Follows : Follows c hvs moved
    moved-Follows = record {
      valid = moved-IsValid;
      chain_id = refl;
      height = refl;
      val_set = refl;
      forward = up;
      stable = Majority-kept hvs moved f.kept;
    }

  predecessor_lem : (a : ℤ) → pos 0 ≤ℤ a → predecessor a ≡ done (a -ℤ pos 1)
  unfolding predecessor
  predecessor_lem a h = ground arith

  guard_lem :
      (hvs : HeightVoteSet) (round : ℤ)
      → hvs.round ≤ℤ round
      → (not (hvs.round ==ℤ pos 0) && ltb_ℤ round (hvs.round -ℤ pos 1)) ≡ false
  guard_lem hvs round h = ground (arith, pred_parts hvs.round)

  -- On vote sets of a height that satisfy the invariant, SetRound to a round that is not below the
  -- current one and is below the greatest int32 returns without a panic, makes it the current
  -- round, and keeps the invariant, by which all rounds up to it are tracked, and every majority.
  pub set_round-Follows :
      (hvs : HeightVoteSet) (round : ℤ)
      → IsValid c hvs
      → hvs.round ≤ℤ round
      → round <ℤ max_int32
      → (hvs' : HeightVoteSet) × (set_round hvs round ≡ done hvs')
        × (hvs'.round ≡ round)
        × Follows c hvs hvs'
  unfolding set_round
  set_round-Follows hvs round v up below =
      let (m, e, f) = ensure_rounds_lem c hvs (hvs.round -ℤ pos 1) (turns hvs.round round) v.well in
      (
        moved hvs v round up m f,
        rw (set_round, predecessor_lem hvs.round v.nonneg, guard_lem hvs round up, e) refl,
        refl,
        moved-Follows hvs v round up m f,
      )

  module _ (chain_id : Bytes) (height : ℤ) (vals : ValidatorSet) (v : ValidatorSet.IsValid vals)
      (ne : height ≢ pos 0) where
    -- Reset before the call of addRound.
    abbrev blank : HeightVoteSet
    blank = record {
      chain_id = chain_id;
      height = height;
      val_set = vals;
      round = pos 0;
      round_vote_sets = λ _. none;
      peer_catchup_rounds = λ _. [];
    }

    blank-IsWell : IsWell c blank
    blank-IsWell = record { vals = v; height = ne; sets = λ r x h. cc; few = λ p. omega arith }

    first : RoundVoteSet → HeightVoteSet
    first rvs = record blank { round_vote_sets = insert (pos 0) rvs (λ _. none) }

    first-IsValid : (rvs : RoundVoteSet) → IsWell c (first rvs) → IsValid c (first rvs)
    unfolding first
    first-IsValid rvs w = record {
      well = w;
      nonneg = omega arith;
      tracked =
          λ r low high. let e : r ≡ pos 0 = eq_of_parts r (pos 0) (omega arith) in (rvs, rw e refl);
      opened = λ r x h. elim (insert_cases (λ _. none) (pos 0) rvs r x h) [
        | inl (e, _) ↦ inl (rw e (omega arith, omega arith))
        | inr old ↦ cc
      ];
    }

    -- NewHeightVoteSet for a valid validator set and a height other than 0 returns vote sets at
    -- round 0 that satisfy the invariant.
    pub new_valid :
        (hvs : HeightVoteSet) × (HeightVoteSet.new chain_id height vals ≡ done hvs)
        × (hvs.round ≡ pos 0)
        × IsValid c hvs
    unfolding HeightVoteSet.new reset first
    new_valid =
        let (rvs, e, ok) = add_round_lem c blank blank-IsWell (pos 0) refl in
        (
          first rvs,
          ap (λ o. o >>= λ (h : HeightVoteSet). done (record h { round = pos 0 })) e,
          refl,
          first-IsValid rvs (with_round-IsWell c blank blank-IsWell (pos 0) rvs ok),
        )
