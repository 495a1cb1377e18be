-- ===== src/Consensus/HeightVoteSet/Valid.antt =====
-- The invariant, and what a call on the vote sets of a height keeps.
pub mod Rounds
use totally_not_a_fork_of_ce.Prelude.{
  ℕ, ◌≤◌, ◌≡◌, refl, sym, ap, List, [], ◌∷◌, ◌++◌, Bool, true, false, Option, none, some, arith,
  length, ◌⊎◌, inl, inr, ◌≢◌, ◌∙◌, Bool-cases, Option-cases,
}
use totally_not_a_fork_of_ce.Prelude.Bytes.{Bytes, bytes_eq, int_eq}
use totally_not_a_fork_of_ce.Prelude.Int.{ℤ, pos, negsuc, ◌≤ℤ◌, ◌==ℤ◌, ==ℤ_iff}
use totally_not_a_fork_of_ce.Prelude.Outcome.{Outcome, done, panic, ◌>>=◌, done_inj}
use totally_not_a_fork_of_ce.Types.BlockId.{BlockId}
use totally_not_a_fork_of_ce.Types.ValidatorSet
use totally_not_a_fork_of_ce.Types.ValidatorSet.{ValidatorSet}
use totally_not_a_fork_of_ce.Types.Vote.{
  SignedMsgType, unknown, prevote, precommit, proposal, is_vote_type_valid, Crypto,
}
use totally_not_a_fork_of_ce.Types.VoteSet.{VoteSet, two_thirds_majority}
use totally_not_a_fork_of_ce.Types.VoteSet.Valid
use totally_not_a_fork_of_ce.Types.VoteSet.Valid.{Frame, frame}
use mathlib.Core.List.{Memᴰ}
use totally_not_a_fork_of_ce.Consensus.HeightVoteSet.{
  HeightVoteSet, RoundVoteSet, of_type, get_vote_set,
}

-- The step that the votes of a round are for.
abbrev pub frame_of : HeightVoteSet → ℤ → SignedMsgType → Frame
frame_of hvs r type = record {
  chain_id = hvs.chain_id;
  height = hvs.height;
  round = r;
  type = type;
  val_set = hvs.val_set;
}

-- Both vote sets of a round satisfy their invariant, and are for that round.
abbrev pub IsRound : Crypto → HeightVoteSet → ℤ → RoundVoteSet → Type 0
IsRound c hvs r rvs =
    (type : SignedMsgType) (vs : VoteSet)
    → of_type rvs type ≡ done vs
    → Valid.IsValid c vs × (frame vs ≡ frame_of hvs r type)

abbrev pub Has : HeightVoteSet → ℤ → RoundVoteSet → Type 0
Has hvs r rvs = hvs.round_vote_sets r ≡ some rvs

pub record IsWell (c : Crypto) (hvs : HeightVoteSet) : Type 0 where
  pub vals : ValidatorSet.IsValid hvs.val_set
  pub height : hvs.height ≢ pos 0
  pub sets : (r : ℤ) (rvs : RoundVoteSet) → Has hvs r rvs → IsRound c hvs r rvs
  pub few : (p : Bytes) → length (hvs.peer_catchup_rounds p) ≤ 2

-- The rounds that may have an entry: those of the node itself, and those that a peer opened.
abbrev pub Opened : HeightVoteSet → ℤ → Type 0
Opened hvs r =
    ((negsuc 0 ≤ℤ r) × (r ≤ℤ hvs.round)) ⊎ ((p : Bytes) × Memᴰ r (hvs.peer_catchup_rounds p))

pub record IsValid (c : Crypto) (hvs : HeightVoteSet) : Type 0 where
  pub well : IsWell c hvs
  pub nonneg : pos 0 ≤ℤ hvs.round
  pub tracked : (r : ℤ) → pos 0 ≤ℤ r → r ≤ℤ hvs.round → (rvs : RoundVoteSet) × Has hvs r rvs
  pub opened : (r : ℤ) (rvs : RoundVoteSet) → Has hvs r rvs → Opened hvs r

-- The vote set of the round and type has a majority for the block.
abbrev pub Majority : HeightVoteSet → ℤ → SignedMsgType → BlockId → Type 0
Majority hvs r type b =
    (vs : VoteSet) × (get_vote_set hvs r type ≡ done (some vs)) × (two_thirds_majority vs ≡ some b)

-- What a call keeps.
pub record Follows (c : Crypto) (hvs hvs' : HeightVoteSet) : Type 0 where
  pub valid : IsValid c hvs'
  pub chain_id : hvs'.chain_id ≡ hvs.chain_id
  pub height : hvs'.height ≡ hvs.height
  pub val_set : hvs'.val_set ≡ hvs.val_set
  pub forward : hvs.round ≤ℤ hvs'.round
  pub stable :
      (r : ℤ) (type : SignedMsgType) (b : BlockId) → Majority hvs r type b → Majority hvs' r type b

pub Follows-refl : (c : Crypto) (hvs : HeightVoteSet) → IsValid c hvs → Follows c hvs hvs
Follows-refl c hvs v = record {
  valid = v;
  chain_id = refl;
  height = refl;
  val_set = refl;
  forward = omega arith;
  stable = λ r type b m. m;
}

pub Follows-trans :
    {c : Crypto} {a b d : HeightVoteSet} → Follows c a b → Follows c b d → Follows c a d
Follows-trans f g = record {
  valid = g.valid;
  chain_id = g.chain_id ∙ f.chain_id;
  height = g.height ∙ f.height;
  val_set = g.val_set ∙ f.val_set;
  forward = omega (arith, f.forward, g.forward);
  stable = λ r type b m. g.stable r type b (f.stable r type b m);
}

-- A vote set that is found is an entry of its round.
pub get_vote_set_cases :
    (hvs : HeightVoteSet) (r : ℤ) (type : SignedMsgType) (vs : VoteSet)
    → get_vote_set hvs r type ≡ done (some vs)
    → (rvs : RoundVoteSet) × Has hvs r rvs × (of_type rvs type ≡ done vs)
unfolding get_vote_set
get_vote_set_cases hvs r type vs h = elim (Option-cases (hvs.round_vote_sets r)) [
  | inl e ↦ cc
  | inr (rvs, e) ↦ (rvs, e, of_some (of_type rvs type) (rw (get_vote_set, e) at h))
]
  where
    of_some : (o : Outcome VoteSet) → (o >>= λ vs. done (some vs)) ≡ done (some vs) → o ≡ done vs
    of_some (done v) h = cc
    of_some panic h = cc

pub get_vote_set_of :
    (hvs : HeightVoteSet) (r : ℤ) (type : SignedMsgType) (vs : VoteSet) (rvs : RoundVoteSet)
    → Has hvs r rvs
    → of_type rvs type ≡ done vs
    → get_vote_set hvs r type ≡ done (some vs)
unfolding get_vote_set
get_vote_set_of hvs r type vs rvs h e = rw (get_vote_set, h, e) refl

pub of_type_total :
    (rvs : RoundVoteSet) (type : SignedMsgType)
    → is_vote_type_valid type ≡ true
    → (vs : VoteSet) × (of_type rvs type ≡ done vs)
unfolding of_type is_vote_type_valid
of_type_total rvs unknown h = ground arith
of_type_total rvs prevote h = (rvs.prevotes, refl)
of_type_total rvs precommit h = (rvs.precommits, refl)
of_type_total rvs proposal h = ground arith

pub get_vote_set_total :
    (hvs : HeightVoteSet) (r : ℤ) (type : SignedMsgType)
    → is_vote_type_valid type ≡ true
    → (o : Option VoteSet) × (get_vote_set hvs r type ≡ done o)
unfolding get_vote_set
get_vote_set_total hvs r type h = elim (Option-cases (hvs.round_vote_sets r)) [
  | inl e ↦ (none, rw (get_vote_set, e) refl)
  | inr (rvs, e) ↦
      let (vs, found) = of_type_total rvs type h in (some vs, rw (get_vote_set, e, found) refl)
]

-- Only a round without an entry has no vote set.
pub get_vote_set-none :
    (hvs : HeightVoteSet) (r : ℤ) (type : SignedMsgType)
    → get_vote_set hvs r type ≡ done none
    → is_vote_type_valid type ≡ true
    → hvs.round_vote_sets r ≡ none
get_vote_set-none hvs r type e h = elim (Option-cases (hvs.round_vote_sets r)) [
  | inl fresh ↦ fresh
  | inr (rvs, has) ↦
      let (vs, found) = of_type_total rvs type h in
      cc (e, get_vote_set_of hvs r type vs rvs has found)
]
