-- ===== src/Consensus/Sample.antt =====
-- The vote sets of a small height, for the runs of the tests.
use totally_not_a_fork_of_ce.Prelude.{ℕ, [], none, some}
use totally_not_a_fork_of_ce.Prelude.Bytes.{bytes_eq, int_eq}
use totally_not_a_fork_of_ce.Prelude.Int.{ℤ, pos}
use totally_not_a_fork_of_ce.Prelude.Maps.{Map, insert}
use totally_not_a_fork_of_ce.Types.Vote.{prevote, precommit}
use totally_not_a_fork_of_ce.Types.Sample.{two, block}
use totally_not_a_fork_of_ce.Types.VoteSet.Sample.{no_votes, voted_for}
use totally_not_a_fork_of_ce.Consensus.HeightVoteSet.{HeightVoteSet, RoundVoteSet}

abbrev pub first_sets : Map ℤ RoundVoteSet
first_sets =
    insert (pos 0) (record { prevotes = no_votes prevote; precommits = no_votes precommit })
      (λ _. none)

abbrev pub start : HeightVoteSet
start = record {
  chain_id = [];
  height = pos 3;
  val_set = two;
  round = pos 0;
  round_vote_sets = first_sets;
  peer_catchup_rounds = λ _. [];
}

-- The prevotes of round 0 have a majority.
abbrev pub polka : HeightVoteSet
polka = record start {
  round_vote_sets =
      insert (pos 0)
        (record {
          prevotes = record (no_votes prevote) { maj23 = some (block 1) };
          precommits = no_votes precommit;
        })
        first_sets;
}

-- The first validator has prevoted for the block `n` in round 0.
abbrev pub decided_at : ℕ → HeightVoteSet
decided_at n = record start {
  round_vote_sets =
      insert (pos 0) (record { prevotes = voted_for n; precommits = no_votes precommit })
        first_sets;
}
