-- ===== src/Types/BlockVotes.antt =====
-- types/vote_set.go: blockVotes, the votes for one block. A bit array is a list of its bits.
use totally_not_a_fork_of_ce.Prelude.{
  ℕ, ◌+◌, Bool, true, false, List, Option, none, some, get_elem?, set, replicate,
}
use totally_not_a_fork_of_ce.Prelude.Int.{ℤ, pos, negsuc}
use totally_not_a_fork_of_ce.Prelude.Outcome.{Outcome, done, panic, ◌>>=◌, or_panic}
use totally_not_a_fork_of_ce.Types.Vote.{Vote}

pub record BlockVotes : Type 0 where
  pub peer_maj23 : Bool
  pub bit_array : List Bool
  pub votes : List (Option Vote)
  pub sum : ℕ

unfoldable pub new : Bool → ℕ → BlockVotes
new peer_maj23 num_validators = record {
  peer_maj23 = peer_maj23;
  bit_array = replicate num_validators false;
  votes = replicate num_validators none;
  sum = 0;
}

-- A slice index: a negative one panics.
abbrev pub at_index : ℤ → Outcome ℕ
at_index (pos i) = done i
at_index (negsuc i) = panic

-- Writes the vote at its index, unless one stands there.
unfoldable pub put : BlockVotes → ℕ → Vote → ℕ → Option Vote → BlockVotes
put bv i vote power (some existing) = bv
put bv i vote power none = record bv {
  bit_array = set bv.bit_array i true;
  votes = set bv.votes i (some vote);
  sum = bv.sum + power;
}

unfoldable pub add_verified_vote : BlockVotes → Vote → ℕ → Outcome BlockVotes
unfolding put
add_verified_vote bv vote power = do
  i ← at_index vote.validator_index
  existing ← or_panic (get_elem? bv.votes i)
  done (put bv i vote power existing)

-- `none` for a nil *blockVotes.
unfoldable pub get_by_index : Option BlockVotes → ℕ → Outcome (Option Vote)
get_by_index none i = done none
get_by_index (some bv) i = or_panic (get_elem? bv.votes i)
