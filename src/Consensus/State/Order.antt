-- ===== src/Consensus/State/Order.antt =====
-- The votes and proposals that a node asks to sign, and the timeouts it schedules, are in order.
pub mod Keeps
pub mod Enter
pub mod Propose
pub mod NewRound
pub mod Precommit
pub mod NextHeight
pub mod Commit
pub mod Prevotes
pub mod Handle
pub mod Proposals
pub mod History
use totally_not_a_fork_of_ce.Prelude.{
  ℕ, ◌+◌, ◌≤◌, ◌<◌, ◌≡◌, refl, sym, ap, List, [], ◌∷◌, Bool, true, false, Option, none, some, arith,
  ◌⊎◌, inl, inr, ◌∙◌, Bool-cases, Option-cases,
}
use totally_not_a_fork_of_ce.Prelude.Int.{
  ℤ, pos, pos_part, neg_part, ◌≤ℤ◌, ◌<ℤ◌, ◌==ℤ◌, ==ℤ_iff, ltb_ℤ, eq_of_parts,
}
use totally_not_a_fork_of_ce.Types.BlockId.{BlockId}
use totally_not_a_fork_of_ce.Types.Vote.{SignedMsgType, unknown, prevote, precommit, proposal}
use totally_not_a_fork_of_ce.Consensus.RoundStep
use totally_not_a_fork_of_ce.Consensus.RoundStep.{RoundStep, number}
use totally_not_a_fork_of_ce.Prelude.Outcome.{Outcome, done, panic, ◌>>=◌, Returns}
use totally_not_a_fork_of_ce.Consensus.State.{
  Env, State, Output, timeout, vote, proposes, finalizes, schedule_timeout, update_round_step,
  sign_add_vote, send, has_address,
}
use totally_not_a_fork_of_ce.Consensus.State.Commit.{next_height}
use mathlib.Core.List.{Memᴰ}
use mathlib.Core.List.Memᴰ

-- A height, a round and the number of a step.
pub record Place : Type 0 where
  pub height : ℤ
  pub round : ℤ
  pub step : ℕ

-- Places are compared by height, then by round, then by step.
abbrev pub Before : Place → Place → Type 0
Before a b =
    (a.height <ℤ b.height)
    ⊎ ((a.height ≡ b.height) × ((a.round <ℤ b.round) ⊎ ((a.round ≡ b.round) × (a.step < b.step))))

abbrev pub UpTo : Place → Place → Type 0
UpTo a b =
    (a.height <ℤ b.height)
    ⊎ ((a.height ≡ b.height) × ((a.round <ℤ b.round) ⊎ ((a.round ≡ b.round) × (a.step ≤ b.step))))

pub UpTo-refl : (a : Place) → UpTo a a
UpTo-refl a = inr (refl, inr (refl, omega arith))

pub UpTo-eq : (a b : Place) → b ≡ a → UpTo a b
UpTo-eq a b h = rw h (UpTo-refl a)

pub UpTo-trans : (a b d : Place) → UpTo a b → UpTo b d → UpTo a d
UpTo-trans a b d h k = ground arith

pub UpTo-Before : (a b d : Place) → UpTo a b → Before b d → Before a d
UpTo-Before a b d h k = ground arith

pub Before-UpTo : (a b : Place) → Before a b → UpTo a b
Before-UpTo a b h = ground arith

-- The place of a request: the proposal of a round comes before the prevote, which comes before the
-- precommit.
abbrev pub vote_place : SignedMsgType → ℤ → ℤ → Place
vote_place prevote h r = record { height = h; round = r; step = number RoundStep.prevote }
vote_place precommit h r = record { height = h; round = r; step = number RoundStep.precommit }
vote_place unknown h r = record { height = h; round = r; step = 0 }
vote_place proposal h r = record { height = h; round = r; step = number RoundStep.propose }

-- The first place of a round.
abbrev pub round_place : ℤ → ℤ → Place
round_place h r = record { height = h; round = r; step = 0 }

-- Every vote and proposal asked for is before the place.
abbrev pub AllBefore : Place → List Output → Type 0
AllBefore p [] = Unit
AllBefore p (vote t h r b ∷ os) = Before (vote_place t h r) p × AllBefore p os
AllBefore p (timeout h r s ∷ os) = AllBefore p os
AllBefore p (proposes h r v b ∷ os) = Before (vote_place proposal h r) p × AllBefore p os
AllBefore p (finalizes h r b ∷ os) = AllBefore p os

-- Every vote and proposal asked for is strictly later, by height, round and type, than those asked
-- for before it. In particular no two are for the same height, round and type.
abbrev pub Sorted : List Output → Type 0
Sorted [] = Unit
Sorted (vote t h r b ∷ os) = AllBefore (vote_place t h r) os × Sorted os
Sorted (timeout h r s ∷ os) = Sorted os
Sorted (proposes h r v b ∷ os) = AllBefore (vote_place proposal h r) os × Sorted os
Sorted (finalizes h r b ∷ os) = Sorted os

-- No vote or proposal asked for and no round of a timeout is later than the place.
abbrev pub Settled : Place → List Output → Type 0
Settled p [] = Unit
Settled p (vote t h r b ∷ os) = UpTo (vote_place t h r) p × Settled p os
Settled p (timeout h r s ∷ os) = UpTo (round_place h r) p × Settled p os
Settled p (proposes h r v b ∷ os) = UpTo (vote_place proposal h r) p × Settled p os
Settled p (finalizes h r b ∷ os) = Settled p os

pub Settled-mono : (p q : Place) (os : List Output) → UpTo p q → Settled p os → Settled q os
Settled-mono p q [] u h = tt
Settled-mono p q (vote t h r b ∷ os) u (k, rest) =
    (UpTo-trans (vote_place t h r) p q k u, Settled-mono p q os u rest)
Settled-mono p q (timeout h r s ∷ os) u (k, rest) =
    (UpTo-trans (round_place h r) p q k u, Settled-mono p q os u rest)
Settled-mono p q (proposes h r v b ∷ os) u (k, rest) =
    (UpTo-trans (vote_place proposal h r) p q k u, Settled-mono p q os u rest)
Settled-mono p q (finalizes h r b ∷ os) u rest = Settled-mono p q os u rest

pub Settled-AllBefore :
    (p q : Place) (os : List Output) → Settled p os → Before p q → AllBefore q os
Settled-AllBefore p q [] h u = tt
Settled-AllBefore p q (vote t h r b ∷ os) (k, rest) u =
    (UpTo-Before (vote_place t h r) p q k u, Settled-AllBefore p q os rest u)
Settled-AllBefore p q (timeout h r s ∷ os) (k, rest) u = Settled-AllBefore p q os rest u
Settled-AllBefore p q (proposes h r v b ∷ os) (k, rest) u =
    (UpTo-Before (vote_place proposal h r) p q k u, Settled-AllBefore p q os rest u)
Settled-AllBefore p q (finalizes h r b ∷ os) rest u = Settled-AllBefore p q os rest u

-- A timeout that was scheduled is for a round that was reached.
pub Settled-timeout :
    (p : Place) (os : List Output) (h r : ℤ) (s : RoundStep)
    → Settled p os
    → Memᴰ (timeout h r s) os
    → UpTo (round_place h r) p
Settled-timeout p [] h r s k m = absurd (Memᴰ.not-nil m)
Settled-timeout p (o ∷ os) h r s k m = elim (Memᴰ.cases_cons m) [
  | inl here ↦ (rw (← here) at k).0
  | inr there ↦ Settled-timeout p os h r s (tail_of o k) there
]
  where
    tail_of : (o : Output) → Settled p (o ∷ os) → Settled p os
    tail_of (vote t h r b) (k, rest) = rest
    tail_of (timeout h r s) (k, rest) = rest
    tail_of (proposes h r v b) (k, rest) = rest
    tail_of (finalizes h r b) rest = rest
