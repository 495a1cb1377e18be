-- ===== src/Consensus/State/Order/Propose.antt =====
-- enterPropose keeps the order.
use totally_not_a_fork_of_ce.Prelude.{
  ◌≡◌, refl, Bool, true, false, Option, none, some, arith, ◌⊎◌, inl, inr, Bool-cases, Option-cases,
  ◌<◌, if◌then◌else◌,
}
use totally_not_a_fork_of_ce.Prelude.Int.{ℤ, ◌≤ℤ◌}
use totally_not_a_fork_of_ce.Prelude.Bytes.{Bytes, bytes_equal}
use totally_not_a_fork_of_ce.Prelude.Outcome.{
  Outcome, done, panic, ◌>>=◌, Returns, Returns-bind, or_panic,
}
use totally_not_a_fork_of_ce.Types.BlockId.{BlockId}
use totally_not_a_fork_of_ce.Types.ValidatorSet.{get_proposer}
use totally_not_a_fork_of_ce.Consensus.RoundStep.{RoundStep, number}
use totally_not_a_fork_of_ce.Consensus.State.{
  Env, State, proposes, has_address, schedule_timeout, update_round_step, send, is_stale,
  is_proposal_complete, id_of,
}
use totally_not_a_fork_of_ce.Consensus.State.Enter.{
  block_to_propose, decide_proposal, propose_if_proposer, propose_as, prevote_if_complete,
  after_propose, enter_propose,
}
use totally_not_a_fork_of_ce.Types.Vote.{proposal}
use totally_not_a_fork_of_ce.Consensus.State.Order.{
  UpTo, UpTo-refl, AllBefore, Settled-AllBefore, vote_place,
}
use totally_not_a_fork_of_ce.Consensus.State.Order.Keeps.{
  place_of, Good, Keeps, Keeps-refl, Keeps-after,
}
use totally_not_a_fork_of_ce.Consensus.State.Order.Enter.{
  fresh_facts, Before-step, waited, enter_prevote-Keeps,
}

module _ {e : Env} where
  -- The part of enterPropose before its deferred function sends at most a proposal for the round.
  abbrev Proposed : State e → ℤ → ℤ → State e → Type 0
  Proposed cs h r cs' = (cs' ≡ cs) ⊎ ((v : ℤ) × (b : BlockId) × (cs' ≡ send cs (proposes h r v b)))

  decide_proposal-Proposed :
      (cs : State e) (h r : ℤ) (address : Bytes) → Proposed cs h r (decide_proposal cs h r address)
  unfolding decide_proposal
  decide_proposal-Proposed cs h r address = elim (Option-cases (block_to_propose cs address)) [
    | inl idle ↦ rw (decide_proposal, idle) (inl refl)
    | inr ((block, parts), found) ↦
        rw (decide_proposal, found) (inr (cs.valid_round, id_of e block parts, refl))
  ]

  if_proposer :
      (cs : State e) (h r : ℤ) (address : Bytes) (own : Bool)
      → Returns (Proposed cs h r) (if own then done (decide_proposal cs h r address) else done cs)
  if_proposer cs h r address true = decide_proposal-Proposed cs h r address
  if_proposer cs h r address false = inl refl

  propose_if_proposer-Proposed :
      (cs : State e) (h r : ℤ) (address : Bytes)
      → Returns (Proposed cs h r) (propose_if_proposer cs h r address)
  unfolding propose_if_proposer
  propose_if_proposer-Proposed cs h r address =
      Returns-bind (Proposed cs h r) (get_proposer cs.validators) _ (λ found ef.
        Returns-bind (Proposed cs h r) (or_panic found) _
          (λ proposer ep. if_proposer cs h r address (bytes_equal proposer.address address)))

  propose_as-Proposed :
      (cs : State e) (h r : ℤ) (address : Option Bytes)
      → Returns (Proposed cs h r) (propose_as cs h r address)
  unfolding propose_as
  propose_as-Proposed cs h r none = inl refl
  propose_as-Proposed cs h r (some address) =
      elim (Bool-cases (has_address cs.validators.validators address)) [
        | inl member ↦ rw member (propose_if_proposer-Proposed cs h r address)
        | inr other ↦ rw other (inl refl)
      ]

  prevote_if_complete-Keeps :
      (cs : State e) (h : ℤ) (complete : Bool)
      → Good cs
      → h ≡ cs.height
      → Returns (Keeps cs) (prevote_if_complete cs h complete)
  unfolding prevote_if_complete
  prevote_if_complete-Keeps cs h true g eh =
      enter_prevote-Keeps cs h cs.round g (inr (eh, inr (refl, omega arith)))
  prevote_if_complete-Keeps cs h false g eh = Keeps-refl cs g

  -- The deferred function, once the state has moved.
  after_propose-Keeps :
      (base cs : State e) (h r : ℤ)
      → Keeps base (update_round_step cs r RoundStep.propose)
      → h ≡ cs.height
      → Returns (Keeps base) (after_propose cs h r)
  unfolding after_propose
  after_propose-Keeps base cs h r k eh =
      let cs' = update_round_step cs r RoundStep.propose in
      Keeps-after base cs' (is_proposal_complete cs' >>= prevote_if_complete cs' h) k (
        Returns-bind (Keeps cs') (is_proposal_complete cs') (prevote_if_complete cs' h)
          (λ complete ec. prevote_if_complete-Keeps cs' h complete k.good eh))

  -- The proposal is after all that was asked for, and not ahead of the step that is entered.
  abbrev IsDue : State e → ℤ → ℤ → Type 0
  IsDue cs h r =
      AllBefore (vote_place proposal h r) cs.sent
      × UpTo (vote_place proposal h r) (place_of (update_round_step cs r RoundStep.propose))

  proposed-Keeps :
      (base cs : State e) (h r v : ℤ) (b : BlockId)
      → IsDue cs h r
      → Keeps base (update_round_step cs r RoundStep.propose)
      → Keeps base (update_round_step (send cs (proposes h r v b)) r RoundStep.propose)
  proposed-Keeps base cs h r v b (above, here) k = record {
    good = record {
      sorted = (above, k.good.sorted);
      settled = (here, k.good.settled);
      positive = k.good.positive;
      next = k.good.next;
    };
    forward = k.forward;
  }

  pub enter_propose-Keeps :
      (cs : State e) (h r : ℤ) → Good cs → Returns (Keeps cs) (enter_propose cs h r)
  unfolding enter_propose
  enter_propose-Keeps cs h r g = elim (Bool-cases (is_stale cs h r RoundStep.propose)) [
    | inl stale ↦ rw stale (Keeps-refl cs g)
    | inr fresh ↦
        let (eh, low, lt) = fresh_facts cs h r RoundStep.propose fresh in
        let k = waited cs h r RoundStep.propose g eh low lt in
        rw fresh (after (schedule_timeout cs h r RoundStep.propose) eh (due eh low lt) k)
  ]
    where
      due :
          h ≡ cs.height
          → cs.round ≤ℤ r
          → (r ≡ cs.round → number cs.step < number RoundStep.propose)
          → IsDue (schedule_timeout cs h r RoundStep.propose) h r
      due eh low lt = rw eh (
        Settled-AllBefore (place_of cs) (vote_place proposal cs.height r) cs.sent g.settled
            (Before-step cs r RoundStep.propose low lt),
        UpTo-refl (vote_place proposal cs.height r),
      )

      proposed :
          (cs₀ cs' : State e)
          → h ≡ cs₀.height
          → IsDue cs₀ h r
          → Keeps cs (update_round_step cs₀ r RoundStep.propose)
          → Proposed cs₀ h r cs'
          → Returns (Keeps cs) (after_propose cs' h r)
      proposed cs₀ cs' eh d k (inl same) = rw same (after_propose-Keeps cs cs₀ h r k eh)
      proposed cs₀ cs' eh d k (inr (v, b, same)) = rw same (
          after_propose-Keeps cs (send cs₀ (proposes h r v b)) h r
            (proposed-Keeps cs cs₀ h r v b d k) eh)

      bound :
          (o : Outcome (State e)) (cs₀ : State e)
          → Returns (Proposed cs₀ h r) o
          → h ≡ cs₀.height
          → IsDue cs₀ h r
          → Keeps cs (update_round_step cs₀ r RoundStep.propose)
          → Returns (Keeps cs) (o >>= λ cs'. after_propose cs' h r)
      bound panic cs₀ p eh d k = tt
      bound (done cs') cs₀ p eh d k = proposed cs₀ cs' eh d k p

      after :
          (cs₀ : State e)
          → h ≡ cs₀.height
          → IsDue cs₀ h r
          → Keeps cs (update_round_step cs₀ r RoundStep.propose)
          → Returns (Keeps cs) (propose_as cs₀ h r e.address >>= λ cs'. after_propose cs' h r)
      after cs₀ eh d k =
          bound (propose_as cs₀ h r e.address) cs₀ (propose_as-Proposed cs₀ h r e.address) eh d k
