-- ===== src/Consensus/HeightVoteSet.antt =====
-- internal/consensus/types/height_vote_set.go: HeightVoteSet, the vote sets of a height by round.
-- The mutex only serialises the calls; a call returns the new set.

pub mod Valid
pub mod SetRound
pub mod Store
pub mod Addition
pub mod AddVote
pub mod History
pub mod Pol
pub mod Agreement
mod Tests
use totally_not_a_fork_of_ce.Prelude.{
  ℕ, zero, suc, Bool, true, false, List, [], ◌∷◌, ◌++◌, Option, none, some, not, ◌&&◌, ltb,
  if◌then◌else◌, length,
}
use totally_not_a_fork_of_ce.Prelude.Int.{ℤ, pos, negsuc, pos_part, ◌+ℤ◌, ◌-ℤ◌, ltb_ℤ, ◌==ℤ◌}
use totally_not_a_fork_of_ce.Prelude.Bytes.{Bytes, bytes_eq, int_eq}
use totally_not_a_fork_of_ce.Prelude.Maps.{Map, insert}
use totally_not_a_fork_of_ce.Prelude.Outcome.{Outcome, done, panic, ◌>>=◌}
use totally_not_a_fork_of_ce.Types.BlockId.{BlockId}
use totally_not_a_fork_of_ce.Types.ValidatorSet.{ValidatorSet}
use totally_not_a_fork_of_ce.Types.Vote.{
  Vote, SignedMsgType, unknown, prevote, precommit, proposal, is_vote_type_valid, Crypto, VoteError,
  unwanted_round,
}
use totally_not_a_fork_of_ce.Types.VoteSet
use totally_not_a_fork_of_ce.Types.VoteSet.{VoteSet, Added, two_thirds_majority}

pub record RoundVoteSet : Type 0 where
  pub prevotes : VoteSet
  pub precommits : VoteSet

-- A peer without an entry in the Go map has the empty list of rounds.
pub record HeightVoteSet : Type 0 where
  pub chain_id : Bytes
  pub height : ℤ
  pub val_set : ValidatorSet
  pub round : ℤ
  pub round_vote_sets : Map ℤ RoundVoteSet
  pub peer_catchup_rounds : Bytes → List ℤ

-- m[k] = v
abbrev pub update : Bytes → List ℤ → (Bytes → List ℤ) → Bytes → List ℤ
update k v m j = if bytes_eq.beq k j then v else m j

-- addRound, for a round without an entry.
unfoldable pub add_fresh_round : HeightVoteSet → ℤ → Outcome HeightVoteSet
add_fresh_round hvs round = do
  prevotes ← VoteSet.new hvs.chain_id hvs.height round prevote hvs.val_set
  precommits ← VoteSet.new hvs.chain_id hvs.height round precommit hvs.val_set
  done (record hvs {
    round_vote_sets =
        insert round (record { prevotes = prevotes; precommits = precommits }) hvs.round_vote_sets;
  })

unfoldable pub add_round : HeightVoteSet → ℤ → Outcome HeightVoteSet
add_round hvs round = elim (hvs.round_vote_sets round) [
  | some _ ↦ panic
  | none ↦ add_fresh_round hvs round
]

-- Reset
unfoldable pub reset : HeightVoteSet → ℤ → ValidatorSet → Outcome HeightVoteSet
reset hvs height val_set = do
  hvs' ←
      add_round
        (record hvs {
          height = height;
          val_set = val_set;
          round_vote_sets = λ _. none;
          peer_catchup_rounds = λ _. [];
        })
        (pos 0)
  done (record hvs' { round = pos 0 })

-- NewHeightVoteSet; Reset sets all but the chain ID.
unfoldable pub new : Bytes → ℤ → ValidatorSet → Outcome HeightVoteSet
new chain_id height val_set =
    reset
      (record {
        chain_id = chain_id;
        height = pos 0;
        val_set = val_set;
        round = pos 0;
        round_vote_sets = λ _. none;
        peer_catchup_rounds = λ _. [];
      })
      height val_set

-- The body of the loop of SetRound.
unfoldable pub ensure_round : HeightVoteSet → ℤ → Outcome HeightVoteSet
ensure_round hvs r = elim (hvs.round_vote_sets r) [ some _ ↦ done hvs | none ↦ add_round hvs r ]

-- `n` turns of the loop, from the round `r` on.
unfoldable pub ensure_rounds : HeightVoteSet → ℤ → ℕ → Outcome HeightVoteSet
ensure_rounds hvs r zero = done hvs
ensure_rounds hvs r (suc n) = ensure_round hvs r >>= λ hvs'. ensure_rounds hvs' (r +ℤ pos 1) n

-- SafeSubInt32(a, 1)
unfoldable pub predecessor : ℤ → Outcome ℤ
predecessor a = if ltb_ℤ a (negsuc 2147483646) then panic else done (a -ℤ pos 1)

-- SetRound, for a round below MaxInt32, after which the loop's variable would wrap around.
unfoldable pub set_round : HeightVoteSet → ℤ → Outcome HeightVoteSet
set_round hvs round = do
  new_round ← predecessor hvs.round
  if not (hvs.round ==ℤ pos 0) && ltb_ℤ round new_round
      then panic
      else ensure_rounds hvs new_round (pos_part ((round +ℤ pos 1) -ℤ new_round)) >>= λ hvs'.
          done (record hvs' { round = round })

-- The switch of getVoteSet.
unfoldable pub of_type : RoundVoteSet → SignedMsgType → Outcome VoteSet
of_type rvs prevote = done rvs.prevotes
of_type rvs precommit = done rvs.precommits
of_type rvs _ = panic

-- `none` for the nil pointer.
unfoldable pub get_vote_set : HeightVoteSet → ℤ → SignedMsgType → Outcome (Option VoteSet)
get_vote_set hvs round type = elim (hvs.round_vote_sets round) [
  | none ↦ done none
  | some rvs ↦ of_type rvs type >>= λ vs. done (some vs)
]

-- A Go vote set is shared by pointer: a call on it changes the entry of its round.
abbrev pub with_type : RoundVoteSet → SignedMsgType → VoteSet → RoundVoteSet
with_type rvs prevote vs = record rvs { prevotes = vs }
with_type rvs precommit vs = record rvs { precommits = vs }
with_type rvs unknown vs = rvs
with_type rvs proposal vs = rvs

abbrev pub store_in :
    HeightVoteSet → ℤ → SignedMsgType → VoteSet → Option RoundVoteSet → HeightVoteSet
store_in hvs round type vs none = hvs
store_in hvs round type vs (some rvs) = record hvs {
  round_vote_sets = insert round (with_type rvs type vs) hvs.round_vote_sets;
}

abbrev pub store : HeightVoteSet → ℤ → SignedMsgType → VoteSet → HeightVoteSet
store hvs round type vs = store_in hvs round type vs (hvs.round_vote_sets round)

pub record AddedToHeight : Type 0 where
  pub state : HeightVoteSet
  pub added : Bool
  pub error : Option VoteError

module _ (c : Crypto) where
  -- The end of AddVote: `none` would be a nil pointer, on which VoteSet.AddVote panics.
  unfoldable pub add_to : HeightVoteSet → Vote → Option VoteSet → Outcome AddedToHeight
  add_to hvs vote none = panic
  add_to hvs vote (some vs) = do
    r ← VoteSet.add_vote c vs (some vote)
    done (record {
      state = store hvs vote.round vote.type r.state;
      added = r.added;
      error = r.error;
    })

  -- AddVote for a round without an entry, on the peer's rounds so far.
  unfoldable pub add_catchup_vote : HeightVoteSet → Vote → Bytes → List ℤ → Outcome AddedToHeight
  add_catchup_vote hvs vote peer rounds = do
    hvs' ← add_round hvs vote.round
    vs ← get_vote_set hvs' vote.round vote.type
    add_to
        (record hvs' {
          peer_catchup_rounds = update peer (rounds ++ (vote.round ∷ [])) hvs'.peer_catchup_rounds;
        })
        vote vs

  -- AddVote from the nil test on.
  unfoldable pub add_vote_in : HeightVoteSet → Vote → Bytes → Option VoteSet → Outcome AddedToHeight
  add_vote_in hvs vote peer none =
      let rounds = hvs.peer_catchup_rounds peer in
      if ltb (length rounds) 2
      then add_catchup_vote hvs vote peer rounds
      else done (record { state = hvs; added = false; error = some unwanted_round })
  add_vote_in hvs vote peer (some vs) = add_to hvs vote (some vs)

  -- AddVote; the peer is empty for the node itself.
  unfoldable pub add_vote : HeightVoteSet → Vote → Bytes → Outcome AddedToHeight
  add_vote hvs vote peer =
      if not (is_vote_type_valid vote.type)
      then done (record { state = hvs; added = false; error = none })
      else get_vote_set hvs vote.round vote.type >>= add_vote_in hvs vote peer

unfoldable pub prevotes_of : HeightVoteSet → ℤ → Outcome (Option VoteSet)
prevotes_of hvs round = get_vote_set hvs round prevote

unfoldable pub precommits_of : HeightVoteSet → ℤ → Outcome (Option VoteSet)
precommits_of hvs round = get_vote_set hvs round precommit

-- TwoThirdsMajority of a pointer that may be nil.
abbrev pub majority_of : Option VoteSet → Option BlockId
majority_of none = none
majority_of (some vs) = two_thirds_majority vs

-- The answer of POLInfo at the round n, where `rest` is that of the rounds below.
unfoldable pub pol_at :
    ℕ → Outcome (Option (ℕ × BlockId)) → Option BlockId → Outcome (Option (ℕ × BlockId))
pol_at n rest (some b) = done (some (n, b))
pol_at n rest none = rest

-- The loop of POLInfo over the rounds below `n`, from the last one down.
unfoldable pub pol_info_below : HeightVoteSet → ℕ → Outcome (Option (ℕ × BlockId))
pol_info_below hvs zero = done none
pol_info_below hvs (suc n) =
    let rest = pol_info_below hvs n in
    get_vote_set hvs (pos n) prevote >>= λ vs. pol_at n rest (majority_of vs)

-- POLInfo: `none` for the round -1.
unfoldable pub pol_info : HeightVoteSet → Outcome (Option (ℕ × BlockId))
pol_info hvs = pol_info_below hvs (pos_part (hvs.round +ℤ pos 1))

-- SetPeerMaj23, from the nil test on; the Boolean is true for an error.
unfoldable pub claim_in :
    HeightVoteSet → ℤ → SignedMsgType → Bytes → BlockId → Option VoteSet → HeightVoteSet × Bool
claim_in hvs round type peer block_id none = (hvs, false)
claim_in hvs round type peer block_id (some vs) =
    let (vs', failed) = VoteSet.set_peer_maj23 vs peer block_id in
    (store hvs round type vs', failed)

-- SetPeerMaj23
unfoldable pub set_peer_maj23 :
    HeightVoteSet → ℤ → SignedMsgType → Bytes → BlockId → Outcome (HeightVoteSet × Bool)
set_peer_maj23 hvs round type peer block_id =
    if not (is_vote_type_valid type)
    then done (hvs, true)
    else get_vote_set hvs round type >>= λ vs. done (claim_in hvs round type peer block_id vs)
