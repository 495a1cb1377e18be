-- ===== src/Types/VoteSet/Sample.antt =====
-- Small vote sets, for the runs of the tests.
use totally_not_a_fork_of_ce.Prelude.{ℕ, true, false, [], ◌∷◌, none, some}
use totally_not_a_fork_of_ce.Prelude.Bytes.{bytes_eq}
use totally_not_a_fork_of_ce.Prelude.Int.{pos}
use totally_not_a_fork_of_ce.Types.BlockId
use totally_not_a_fork_of_ce.Types.BlockId.{BlockId}
use totally_not_a_fork_of_ce.Types.Vote.{SignedMsgType, prevote}
use totally_not_a_fork_of_ce.Prelude.Maps.{insert}
use totally_not_a_fork_of_ce.Types.VoteSet.{VoteSet}
use totally_not_a_fork_of_ce.Types.Sample.{two, block, vote}

abbrev pub no_votes : SignedMsgType → VoteSet
no_votes type = record {
  chain_id = [];
  height = pos 3;
  round = pos 0;
  signed_msg_type = type;
  val_set = two;
  votes_bit_array = false ∷ false ∷ [];
  votes = none ∷ none ∷ [];
  sum = 0;
  maj23 = none;
  votes_by_block = λ _. none;
  peer_maj23s = λ _. none;
}

-- The set after a vote of the first validator for the block `n`.
abbrev pub voted_for : ℕ → VoteSet
voted_for n = record (no_votes prevote) {
  votes_bit_array = true ∷ false ∷ [];
  votes = some (vote 0 7 (block n)) ∷ none ∷ [];
  sum = 5;
  maj23 = some (block n);
  votes_by_block =
      insert (BlockId.key (block n))
        (record {
          peer_maj23 = false;
          bit_array = true ∷ false ∷ [];
          votes = some (vote 0 7 (block n)) ∷ none ∷ [];
          sum = 5;
        })
        (λ _. none);
}
