-- ===== src/Types/Sample.antt =====
-- A small validator set and its votes, for the runs of the tests.
use totally_not_a_fork_of_ce.Prelude.{ℕ, refl, [], ◌∷◌, none, arith, replicate}
use totally_not_a_fork_of_ce.Prelude.Bytes.{bytes_equal, bytes_eq}
use totally_not_a_fork_of_ce.Prelude.Int.{pos}
use totally_not_a_fork_of_ce.Types.BlockId.{BlockId}
use totally_not_a_fork_of_ce.Types.ValidatorSet
use totally_not_a_fork_of_ce.Types.ValidatorSet.{ValidatorSet, Validator, total, total_voting_power}
use totally_not_a_fork_of_ce.Types.Vote.{Vote, Crypto, prevote}

-- A scheme in which a signature is the public key itself.
abbrev pub toy : Crypto
toy = record {
  address = λ k. k;
  verify_signature = λ k m s. bytes_equal s k;
  marshal_delimited = λ v. [];
}

abbrev pub validator : ℕ → ℕ → Validator
validator n power = record {
  address = n ∷ [];
  pub_key = n ∷ [];
  voting_power = power;
  proposer_priority = pos 0;
}

abbrev pub two : ValidatorSet
two = record { validators = validator 7 5 ∷ validator 8 1 ∷ []; proposer = none; cached_power = 6 }

pub two-IsValid : ValidatorSet.IsValid two
two-IsValid = record { within = omega arith; cached = λ _. refl }

-- A block ID with a hash of the byte `n`.
abbrev pub block : ℕ → BlockId
block n = record { hash = replicate 32 n; parts = record { total = 1; hash = replicate 32 n } }

abbrev pub vote : ℕ → ℕ → BlockId → Vote
vote i n b = record {
  type = prevote;
  height = pos 3;
  round = pos 0;
  block_id = b;
  timestamp = 9;
  validator_address = n ∷ [];
  validator_index = pos i;
  signature = n ∷ [];
}
