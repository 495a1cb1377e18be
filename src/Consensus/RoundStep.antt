-- ===== src/Consensus/RoundStep.antt =====
-- internal/consensus/types/round_state.go: RoundStepType.
use totally_not_a_fork_of_ce.Prelude.{ℕ}

pub data RoundStep : Type 0 where
  new_height new_round propose prevote prevote_wait precommit precommit_wait commit : RoundStep

-- The steps are numeric and ordered.
abbrev pub number : RoundStep → ℕ
number new_height = 1
number new_round = 2
number propose = 3
number prevote = 4
number prevote_wait = 5
number precommit = 6
number precommit_wait = 7
number commit = 8
