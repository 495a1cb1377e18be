-- ===== src/Consensus/HeightVoteSet/Pol.antt =====
-- POLInfo, the last round with a majority of prevotes.
use totally_not_a_fork_of_ce.Prelude.{
  ℕ, zero, suc, ◌<◌, ◌≡◌, refl, true, Option, none, some, arith, inl, inr, ◌⊎◌,
}
use totally_not_a_fork_of_ce.Prelude.Int.{ℤ, pos, pos_part, ◌+ℤ◌}
use totally_not_a_fork_of_ce.Prelude.Outcome.{Outcome, done, done_inj}
use totally_not_a_fork_of_ce.Types.BlockId.{BlockId}
use totally_not_a_fork_of_ce.Types.Vote.{prevote, is_vote_type_valid}
use totally_not_a_fork_of_ce.Types.VoteSet.{VoteSet}
use totally_not_a_fork_of_ce.Consensus.HeightVoteSet.{
  HeightVoteSet, get_vote_set, majority_of, pol_at, pol_info, pol_info_below,
}
use totally_not_a_fork_of_ce.Consensus.HeightVoteSet.Valid.{Majority, get_vote_set_total}

-- The answer names the last of the rounds below n with a majority of prevotes.
abbrev pub IsLastPolka : HeightVoteSet → ℕ → Option (ℕ × BlockId) → Type 0
IsLastPolka hvs n none = (m : ℕ) (b : BlockId) → m < n → ¬ Majority hvs (pos m) prevote b
IsLastPolka hvs n (some (r, b)) =
    (r < n)
    × Majority hvs (pos r) prevote b
    × ((m : ℕ) (b' : BlockId) → r < m → m < n → ¬ Majority hvs (pos m) prevote b')

-- A round whose vote set reports nothing has no majority.
pub vote_set_without :
    (hvs : HeightVoteSet) (r : ℤ) (o : Option VoteSet)
    → get_vote_set hvs r prevote ≡ done o
    → majority_of o ≡ none
    → (b : BlockId) → ¬ Majority hvs r prevote b
vote_set_without hvs r o e h b (vs, e', m) =
    let same : o ≡ some vs = done_inj (cc (e, e')) in cc (rw same at h, m)

-- The round n is the last of the rounds below n + 1.
last_cases : (m n : ℕ) → m < suc n → (m ≡ n) ⊎ (m < n)
last_cases m n h = ground arith

module _ (hvs : HeightVoteSet) where
  extend_below :
      (n : ℕ) (a : Option (ℕ × BlockId))
      → ((b : BlockId) → ¬ Majority hvs (pos n) prevote b)
      → IsLastPolka hvs n a
      → IsLastPolka hvs (suc n) a
  extend_below n none free h = λ m b lt. elim (last_cases m n lt) [
    | inl e ↦ λ maj. free b (rw e at maj)
    | inr lt' ↦ h m b lt'
  ]
  extend_below n (some (r, b)) free (lt, maj, above) = (
    omega arith,
    maj,
    λ m b' low high. elim (last_cases m n high) [
      | inl e ↦ λ maj'. free b' (rw e at maj')
      | inr lt' ↦ above m b' low lt'
    ],
  )

  abbrev Answers : ℕ → Outcome (Option (ℕ × BlockId)) → Type 0
  Answers n o = (a : Option (ℕ × BlockId)) × (o ≡ done a) × IsLastPolka hvs n a

  answer_at :
      (n : ℕ) (o : Option VoteSet) (rest : Outcome (Option (ℕ × BlockId)))
      → get_vote_set hvs (pos n) prevote ≡ done o
      → (m : Option BlockId) → majority_of o ≡ m
      → Answers n rest
      → Answers (suc n) (pol_at n rest m)
  unfolding pol_at
  answer_at n o rest e none h (a, ea, p) =
      (a, ea, extend_below n a (vote_set_without hvs (pos n) o e h) p)
  answer_at n none rest e (some b) h (a, ea, p) = cc
  answer_at n (some vs) rest e (some b) h (a, ea, p) =
      (some (n, b), refl, (omega arith, (vs, e, h), λ m b' low high. absurd (omega arith)))

  pol_info_below_lem : (n : ℕ) → Answers n (pol_info_below hvs n)
  unfolding pol_info_below is_vote_type_valid
  pol_info_below_lem zero = (none, refl, λ m b lt. absurd (omega arith))
  pol_info_below_lem (suc n) =
      let (o, e) = get_vote_set_total hvs (pos n) prevote prevote_valid in
      rw e (answer_at n o (pol_info_below hvs n) e (majority_of o) refl (pol_info_below_lem n))
    where
      prevote_valid : is_vote_type_valid prevote ≡ true
      prevote_valid = refl

-- POLInfo returns, without a panic, the last round from 0 to the current one in which the prevotes
-- have a majority, with the block of that majority, and no round exactly if there is none.
pub pol_info_lem :
    (hvs : HeightVoteSet)
    → (a : Option (ℕ × BlockId)) × (pol_info hvs ≡ done a)
      × IsLastPolka hvs (pos_part (hvs.round +ℤ pos 1)) a
unfolding pol_info
pol_info_lem hvs = pol_info_below_lem hvs (pos_part (hvs.round +ℤ pos 1))
