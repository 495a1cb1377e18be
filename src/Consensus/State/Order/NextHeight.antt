-- ===== src/Consensus/State/Order/NextHeight.antt =====
-- updateToState goes on to the next height, and keeps the order.
use totally_not_a_fork_of_ce.Prelude.{
  ◌≡◌, refl, sym, true, Option, some, arith, inl, inr, ◌∙◌, Bool-cases,
}
use totally_not_a_fork_of_ce.Prelude.Int.{pos, ◌+ℤ◌, ◌≤ℤ◌, ◌<ℤ◌, ==ℤ_iff, leb_ℤ}
use totally_not_a_fork_of_ce.Prelude.Outcome.{Returns, Returns-bind}
use totally_not_a_fork_of_ce.Types.VoteSet.{VoteSet}
use totally_not_a_fork_of_ce.Consensus.HeightVoteSet
use totally_not_a_fork_of_ce.Consensus.HeightVoteSet.{HeightVoteSet, precommits_of, majority_of}
use totally_not_a_fork_of_ce.Consensus.HeightVoteSet.Valid.Rounds.{suc_parts}
use totally_not_a_fork_of_ce.Consensus.RoundStep.{RoundStep}
use totally_not_a_fork_of_ce.Consensus.State.{Env, ChainState, State, schedule_timeout}
use totally_not_a_fork_of_ce.Consensus.State.Commit.{
  is_consistent, next_last_commit, next_height, at_height, update_to_state,
}
use totally_not_a_fork_of_ce.Consensus.State.Order.{Settled-mono}
use totally_not_a_fork_of_ce.Consensus.State.Order.Keeps.{
  place_of, Good, Keeps, Keeps-trans, Keeps-schedule,
}

-- ApplyBlock of a valid block returns the state after it: ValidateBlock wants the block's height to
-- be the next one, and the new state's LastBlockHeight is the block's.
pub record IsLawful (e : Env) : Type 0 where
  pub applied :
      (chain chain' : ChainState) (block : e.Block)
      → e.validate_block chain block ≡ true
      → e.apply_block chain block ≡ some chain'
      → chain'.last_block_height ≡ next_height chain

after_next :
    (chain : ChainState)
    → pos 0 <ℤ chain.last_block_height
    → next_height chain ≡ chain.last_block_height +ℤ pos 1
unfolding next_height
after_next chain h = ground (arith, suc_parts chain.last_block_height)

not_done :
    (chain : ChainState)
    → pos 0 <ℤ next_height chain
    → ¬ (next_height chain ≤ℤ chain.last_block_height)
unfolding next_height
not_done chain h k =
    ground
      (arith, suc_parts chain.last_block_height, ==ℤ_iff (chain.last_block_height +ℤ pos 1) (pos 1))

module _ {e : Env} where
  at_height-Keeps :
      (cs : State e) (chain : ChainState) (last : Option VoteSet) (votes : HeightVoteSet)
      → Good cs
      → chain.last_block_height ≡ cs.height
      → Keeps cs (at_height cs chain (next_height chain) last votes)
  unfolding at_height
  at_height-Keeps cs chain last votes g eh =
      let en = after_next chain (rw eh g.positive) in
      let sp = suc_parts cs.height in
      let up : cs.height <ℤ next_height chain = rw (en, eh) (omega arith) in
      record {
        good = record {
          sorted = g.sorted;
          settled =
              Settled-mono (place_of cs)
                (place_of (at_height cs chain (next_height chain) last votes)) cs.sent (inl up)
                g.settled;
          positive = omega (arith, up, g.positive);
          next = refl;
        };
        forward = inl up;
      }

  pub timed-Keeps :
      (cs cs' : State e)
      → Keeps cs cs'
      → cs'.round ≡ pos 0
      → Keeps cs (schedule_timeout cs' cs'.height (pos 0) RoundStep.new_height)
  timed-Keeps cs cs' k er =
      Keeps-trans cs cs' (schedule_timeout cs' cs'.height (pos 0) RoundStep.new_height) k (
        Keeps-schedule cs' (pos 0) RoundStep.new_height k.good
          (inr (refl, inr (sym er, omega arith))))

  pub update_to_state-Keeps :
      (cs : State e) (chain : ChainState)
      → Good cs
      → chain.last_block_height ≡ cs.height
      → Returns (λ cs'. Keeps cs cs' × (cs'.round ≡ pos 0)) (update_to_state cs chain)
  unfolding update_to_state at_height
  update_to_state-Keeps cs chain g eh = elim (Bool-cases (is_consistent cs chain)) [
    | inr bad ↦ rw bad tt
    | inl ok ↦ elim (Bool-cases (leb_ℤ chain.last_block_height cs.chain.last_block_height)) [
      | inl old ↦ absurd (not_done cs.chain (rw g.next at g.positive) (low old))
      | inr new ↦
          rw (ok, new)
            (Returns-bind (λ cs'. Keeps cs cs' × (cs'.round ≡ pos 0)) (next_last_commit cs chain) _
              (λ last el.
                Returns-bind (λ cs'. Keeps cs cs' × (cs'.round ≡ pos 0))
                  (HeightVoteSet.new chain.chain_id (next_height chain) chain.validators) _
                  (λ votes ev. (at_height-Keeps cs chain last votes g eh, refl))))
    ]
  ]
    where
      leb_ℤ-le :
          leb_ℤ chain.last_block_height cs.chain.last_block_height ≡ true
          → chain.last_block_height ≤ℤ cs.chain.last_block_height
      leb_ℤ-le h = ground arith

      low :
          leb_ℤ chain.last_block_height cs.chain.last_block_height ≡ true
          → next_height cs.chain ≤ℤ cs.chain.last_block_height
      low h =
          let same : chain.last_block_height ≡ next_height cs.chain = eh ∙ g.next in
          rw same at (leb_ℤ-le h)
