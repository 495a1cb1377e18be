-- ===== src/Consensus/HeightVoteSet/Valid/Rounds.antt =====
-- addRound and the loop of SetRound.
use totally_not_a_fork_of_ce.Prelude.{
  ℕ, zero, suc, ◌+◌, ◌≤◌, ◌<◌, ◌≡◌, refl, sym, ap, none, some, arith, ◌⊎◌, inl, inr, ◌≢◌, ◌∙◌,
  Bool-cases, Option-cases,
}
use totally_not_a_fork_of_ce.Prelude.Bytes.{Bytes, bytes_eq, int_eq}
use totally_not_a_fork_of_ce.Prelude.Int.{ℤ, pos, pos_part, neg_part, ◌+ℤ◌, ◌==ℤ◌, ==ℤ_iff}
use totally_not_a_fork_of_ce.Prelude.Maps.{Map, insert}
use totally_not_a_fork_of_ce.Prelude.Outcome.{done, done_inj}
use totally_not_a_fork_of_ce.Types.ValidatorSet.{ValidatorSet}
use totally_not_a_fork_of_ce.Types.Vote.{
  SignedMsgType, unknown, prevote, precommit, proposal, Crypto,
}
use totally_not_a_fork_of_ce.Types.VoteSet
use totally_not_a_fork_of_ce.Types.VoteSet.{VoteSet}
use totally_not_a_fork_of_ce.Types.VoteSet.Valid
use totally_not_a_fork_of_ce.Types.VoteSet.Valid.{Frame, frame}
use totally_not_a_fork_of_ce.Types.VoteSet.Claims.{new-IsValid}
use totally_not_a_fork_of_ce.Consensus.HeightVoteSet.{
  HeightVoteSet, RoundVoteSet, of_type, add_round, add_fresh_round, ensure_round, ensure_rounds,
}
use totally_not_a_fork_of_ce.Consensus.HeightVoteSet.Valid.{IsRound, Has, IsWell}

-- s is one of the n rounds from r on.
abbrev pub Within : ℤ → ℕ → ℤ → Type 0
Within r n s =
    (pos_part r + neg_part s ≤ pos_part s + neg_part r)
    × (pos_part s + neg_part r < pos_part r + neg_part s + n)

pub suc_parts :
    (r : ℤ) → pos_part (r +ℤ pos 1) + neg_part r ≡ pos_part r + 1 + neg_part (r +ℤ pos 1)
unfolding ◌+ℤ◌
suc_parts r = ground arith

pub Within-here : (r : ℤ) (n : ℕ) → Within r (suc n) r
Within-here r n = (omega arith, omega arith)

pub Within-next : (r : ℤ) (n : ℕ) (s : ℤ) → Within (r +ℤ pos 1) n s → Within r (suc n) s
Within-next r n s h = ground (arith, suc_parts r)

pub Within-cases : (r : ℤ) (n : ℕ) (s : ℤ) → Within r (suc n) s → (s ≡ r) ⊎ Within (r +ℤ pos 1) n s
Within-cases r n s h = ground (arith, suc_parts r, ==ℤ_iff s r)

pub insert_cases :
    (m : Map ℤ RoundVoteSet) (k : ℤ) (v : RoundVoteSet) (r : ℤ) (w : RoundVoteSet)
    → insert k v m r ≡ some w
    → ((r ≡ k) × (w ≡ v)) ⊎ (m r ≡ some w)
insert_cases m k v r w h = ground (arith, ==ℤ_iff k r)

pub insert_self : (m : Map ℤ RoundVoteSet) (k : ℤ) (v : RoundVoteSet) → insert k v m k ≡ some v
insert_self m k v = rw ((==ℤ_iff k k).1 refl) refl

pub insert_other :
    (m : Map ℤ RoundVoteSet) (k : ℤ) (v : RoundVoteSet) (r : ℤ) → k ≢ r → insert k v m r ≡ m r
insert_other m k v r h = ground (arith, ==ℤ_iff k r)

-- The frame of a new vote set is what it is made for.
new-frame :
    (chain_id : Bytes) (height round : ℤ) (type : SignedMsgType) (vals : ValidatorSet)
    (vs : VoteSet)
    → VoteSet.new chain_id height round type vals ≡ done vs
    → frame vs
      ≡ record { chain_id = chain_id; height = height; round = round; type = type; val_set = vals }
unfolding VoteSet.new
new-frame chain_id height round type vals vs h = elim (Bool-cases (height ==ℤ pos 0)) [
  | inl reserved ↦ cc
  | inr other ↦ ap frame (sym (done_inj (rw other at h)))
]

module _ (c : Crypto) (hvs : HeightVoteSet) (w : IsWell c hvs) where
  abbrev pub with_sets : Map ℤ RoundVoteSet → HeightVoteSet
  with_sets m = record hvs { round_vote_sets = m }

  abbrev pub with_round : ℤ → RoundVoteSet → HeightVoteSet
  with_round r rvs = with_sets (insert r rvs hvs.round_vote_sets)

  pub with_round-IsWell :
      (r : ℤ) (rvs : RoundVoteSet) → IsRound c hvs r rvs → IsWell c (with_round r rvs)
  with_round-IsWell r rvs h = record {
    vals = w.vals;
    height = w.height;
    sets = λ s x e. elim (insert_cases hvs.round_vote_sets r rvs s x e) [
      | inl (es, ex) ↦ rw (es, ex) h
      | inr old ↦ w.sets s x old
    ];
    few = w.few;
  }

  add_fresh_round_lem :
      (r : ℤ)
      → (rvs : RoundVoteSet) × (add_fresh_round hvs r ≡ done (with_round r rvs))
        × IsRound c hvs r rvs
  unfolding add_fresh_round of_type
  add_fresh_round_lem r =
      let (a, ea, va) =
        new-IsValid c hvs.chain_id hvs.height r prevote hvs.val_set w.vals w.height in
      let (b, eb, vb) =
        new-IsValid c hvs.chain_id hvs.height r precommit hvs.val_set w.vals w.height in
      (
        record { prevotes = a; precommits = b },
        rw (add_fresh_round, ea, eb) refl,
        both a b ea eb va vb,
      )
    where
      both :
          (a b : VoteSet)
          → VoteSet.new hvs.chain_id hvs.height r prevote hvs.val_set ≡ done a
          → VoteSet.new hvs.chain_id hvs.height r precommit hvs.val_set ≡ done b
          → Valid.IsValid c a
          → Valid.IsValid c b
          → IsRound c hvs r (record { prevotes = a; precommits = b })
      both a b ea eb va vb unknown vs e = cc
      both a b ea eb va vb prevote vs e =
          rw (← done_inj e) (va, new-frame hvs.chain_id hvs.height r prevote hvs.val_set a ea)
      both a b ea eb va vb precommit vs e =
          rw (← done_inj e) (vb, new-frame hvs.chain_id hvs.height r precommit hvs.val_set b eb)
      both a b ea eb va vb proposal vs e = cc

  pub add_round_lem :
      (r : ℤ)
      → hvs.round_vote_sets r ≡ none
      → (rvs : RoundVoteSet) × (add_round hvs r ≡ done (with_round r rvs)) × IsRound c hvs r rvs
  unfolding add_round
  add_round_lem r fresh = rw (add_round, fresh) (add_fresh_round_lem r)

-- The map `m` has the entries of `hvs` and new ones for all of the n rounds from r on.
pub record Extends (c : Crypto) (hvs : HeightVoteSet) (r : ℤ) (n : ℕ) (m : Map ℤ RoundVoteSet)
    : Type 0 where
  pub well : IsWell c (record hvs { round_vote_sets = m })
  pub kept : (s : ℤ) (rvs : RoundVoteSet) → Has hvs s rvs → m s ≡ some rvs
  pub added : (s : ℤ) (rvs : RoundVoteSet) → m s ≡ some rvs → Has hvs s rvs ⊎ Within r n s
  pub filled : (s : ℤ) → Within r n s → (rvs : RoundVoteSet) × (m s ≡ some rvs)

module _ (c : Crypto) where
  Extends-step :
      (hvs : HeightVoteSet) (r : ℤ) (n : ℕ) (m m' : Map ℤ RoundVoteSet)
      → Extends c hvs r 1 m
      → Extends c (record hvs { round_vote_sets = m }) (r +ℤ pos 1) n m'
      → Extends c hvs r (suc n) m'
  Extends-step hvs r n m m' f g = record {
    well = g.well;
    kept = λ s rvs h. g.kept s rvs (f.kept s rvs h);
    added = λ s rvs h. elim (g.added s rvs h) [
      | inr later ↦ inr (Within-next r n s later)
      | inl early ↦ elim (f.added s rvs early) [ inl old ↦ inl old | inr now ↦ inr (ground arith) ]
    ];
    filled = λ s h. elim (Within-cases r n s h) [
      | inr later ↦ g.filled s later
      | inl now ↦ let (rvs, e) = f.filled s (rw now (Within-here r 0)) in (rvs, g.kept s rvs e)
    ];
  }

  -- The entry of r is added where there was none.
  Extends-fresh :
      (hvs : HeightVoteSet) (w : IsWell c hvs) (r : ℤ) (rvs : RoundVoteSet)
      → hvs.round_vote_sets r ≡ none
      → IsRound c hvs r rvs
      → Extends c hvs r 1 (insert r rvs hvs.round_vote_sets)
  Extends-fresh hvs w r rvs fresh ok = record {
    well = with_round-IsWell c hvs w r rvs ok;
    kept = λ s x h. insert_other hvs.round_vote_sets r rvs s (λ e. cc) ∙ h;
    added = λ s x h. elim (insert_cases hvs.round_vote_sets r rvs s x h) [
      | inl (e, _) ↦ inr (rw e (Within-here r 0))
      | inr old ↦ inl old
    ];
    filled = λ s h. elim (Within-cases r 0 s h) [
      | inl e ↦ (rvs, rw e (insert_self hvs.round_vote_sets r rvs))
      | inr later ↦ absurd (omega arith)
    ];
  }

  pub ensure_round_lem :
      (hvs : HeightVoteSet) (r : ℤ)
      → IsWell c hvs
      → (m : Map ℤ RoundVoteSet) × (ensure_round hvs r ≡ done (record hvs { round_vote_sets = m }))
        × Extends c hvs r 1 m
  unfolding ensure_round
  ensure_round_lem hvs r w = elim (Option-cases (hvs.round_vote_sets r)) [
    | inl fresh ↦
        let (rvs, e, ok) = add_round_lem c hvs w r fresh in
        (
          insert r rvs hvs.round_vote_sets,
          rw (ensure_round, fresh) e,
          Extends-fresh hvs w r rvs fresh ok,
        )
    | inr (rvs, e) ↦ (
      hvs.round_vote_sets,
      rw (ensure_round, e) refl,
      record {
        well = w;
        kept = λ s x h. h;
        added = λ s x h. inl h;
        filled = λ s h. elim (Within-cases r 0 s h) [
          | inl now ↦ (rvs, rw now e)
          | inr later ↦ absurd (omega arith)
        ];
      },
    )
  ]

  pub ensure_rounds_lem :
      (hvs : HeightVoteSet) (r : ℤ) (n : ℕ)
      → IsWell c hvs
      → (m : Map ℤ RoundVoteSet) × (ensure_rounds hvs r n
          ≡ done (record hvs { round_vote_sets = m }))
        × Extends c hvs r n m
  unfolding ensure_rounds
  ensure_rounds_lem hvs r zero w = (
    hvs.round_vote_sets,
    refl,
    record {
      well = w;
      kept = λ s x h. h;
      added = λ s x h. inl h;
      filled = λ s h. absurd (omega arith);
    },
  )
  ensure_rounds_lem hvs r (suc n) w =
      let (m, e, f) = ensure_round_lem hvs r w in
      let (m', e', g) =
        ensure_rounds_lem (record hvs { round_vote_sets = m }) (r +ℤ pos 1) n f.well in
      (m', rw e e', Extends-step hvs r n m m' f g)
