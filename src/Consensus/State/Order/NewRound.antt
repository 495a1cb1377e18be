-- ===== src/Consensus/State/Order/NewRound.antt =====
-- enterNewRound keeps the order, and reaches the round.
use totally_not_a_fork_of_ce.Prelude.{
  ◌<◌, ◌≡◌, refl, sym, true, false, arith, inl, inr, ◌∙◌, Bool-cases, not, ◌&&◌, ltb,
}
use totally_not_a_fork_of_ce.Prelude.Int.{ℤ, pos, ◌≤ℤ◌, ◌==ℤ◌, ==ℤ_iff}
use totally_not_a_fork_of_ce.Prelude.Outcome.{Outcome, done, panic, Returns, Returns-bind}
use totally_not_a_fork_of_ce.Consensus.HeightVoteSet.{HeightVoteSet, set_round}
use totally_not_a_fork_of_ce.Consensus.RoundStep.{RoundStep, number}
use totally_not_a_fork_of_ce.Consensus.State.{Env, State}
use totally_not_a_fork_of_ce.Consensus.State.Enter.{
  reset_round, propose_or_wait, is_stale_round, enter_new_round, successor,
}
use totally_not_a_fork_of_ce.Consensus.State.Order.{UpTo, UpTo-trans, round_place}
use totally_not_a_fork_of_ce.Consensus.State.Order.Keeps.{
  place_of, Good, Keeps, Keeps-refl, Keeps-trans, Keeps-move, Keeps-schedule,
}
use totally_not_a_fork_of_ce.Consensus.State.Order.Enter.{Reached, forward_to}
use totally_not_a_fork_of_ce.Consensus.State.Order.Propose.{enter_propose-Keeps}

module _ {e : Env} where
  -- The guard of enterNewRound.
  fresh_round_facts :
      (cs : State e) (h r : ℤ)
      → is_stale_round cs h r ≡ false
      → (h ≡ cs.height)
        × (cs.round ≤ℤ r)
        × (r ≡ cs.round → number cs.step < number RoundStep.new_round)
  unfolding is_stale_round
  fresh_round_facts cs h r k = ground (arith, ==ℤ_iff cs.height h, ==ℤ_iff cs.round r)

  stale_round-Reached :
      (cs : State e) (h r : ℤ) → is_stale_round cs h r ≡ true → h ≡ cs.height → Reached cs h r
  unfolding is_stale_round
  stale_round-Reached cs h r k eh =
      ground (arith, ==ℤ_iff cs.height h, ==ℤ_iff cs.round r, ==ℤ_iff r cs.round)

  pub Reached-forward :
      (cs cs' : State e) (h r : ℤ)
      → Reached cs h r
      → UpTo (place_of cs) (place_of cs')
      → Reached cs' h r
  Reached-forward cs cs' h r u f = UpTo-trans (round_place h r) (place_of cs) (place_of cs') u f

  propose_or_wait-Keeps :
      (cs : State e) (h r : ℤ)
      → Good cs
      → h ≡ cs.height
      → Reached cs h r
      → Returns (Keeps cs) (propose_or_wait cs h r)
  unfolding propose_or_wait
  propose_or_wait-Keeps cs h r g eh u =
      elim (Bool-cases (e.wait_for_txs && (r ==ℤ pos 0) && not (e.need_proof_block h))) [
        | inr goes_on ↦ rw goes_on (enter_propose-Keeps cs h r g)
        | inl waits ↦ elim (Bool-cases (ltb 0 e.create_empty_blocks_interval)) [
          | inl timed ↦
              rw (waits, timed, eh) (Keeps-schedule cs r RoundStep.new_round g (rw eh at u))
          | inr untimed ↦ rw (waits, untimed) (Keeps-refl cs g)
        ]
      ]

  -- The state with its fields set for the new round.
  reset_round-Keeps :
      (cs : State e) (r : ℤ) (votes : HeightVoteSet)
      → Good cs
      → cs.round ≤ℤ r
      → (r ≡ cs.round → number cs.step < number RoundStep.new_round)
      → Keeps cs (record (reset_round cs r) { votes = votes })
  unfolding reset_round
  reset_round-Keeps cs r votes g low lt =
      let u = forward_to cs r RoundStep.new_round low lt in
      elim (Bool-cases (r ==ℤ pos 0)) [
        | inl zero_round ↦ rw (reset_round, zero_round) (Keeps-move cs _ g refl refl refl u)
        | inr later ↦ rw (reset_round, later) (Keeps-move cs _ g refl refl refl u)
      ]

  reset_round_place :
      (cs : State e) (r : ℤ)
      → ((reset_round cs r).height ≡ cs.height)
        × ((reset_round cs r).round ≡ r)
        × ((reset_round cs r).step ≡ RoundStep.new_round)
  unfolding reset_round
  reset_round_place cs r = elim (Bool-cases (r ==ℤ pos 0)) [
    | inl zero_round ↦ (
      rw (reset_round, zero_round) refl,
      rw (reset_round, zero_round) refl,
      rw (reset_round, zero_round) refl,
    )
    | inr later ↦
        (rw (reset_round, later) refl, rw (reset_round, later) refl, rw (reset_round, later) refl)
  ]

  -- What enterNewRound does for a round of the current height.
  abbrev pub Enters : State e → ℤ → ℤ → State e → Type 0
  Enters cs h r cs' = Keeps cs cs' × (h ≡ cs.height → Reached cs' h r)

  entered :
      (cs mid : State e) (h r : ℤ) (o : Outcome (State e))
      → Keeps cs mid
      → Reached mid h r
      → Returns (Keeps mid) o
      → Returns (Enters cs h r) o
  entered cs mid h r panic k u p = tt
  entered cs mid h r (done cs') k u p =
      (Keeps-trans cs mid cs' k p, λ eh. Reached-forward mid cs' h r u p.forward)

  pub enter_new_round-Enters :
      (cs : State e) (h r : ℤ) → Good cs → Returns (Enters cs h r) (enter_new_round cs h r)
  unfolding enter_new_round
  enter_new_round-Enters cs h r g = elim (Bool-cases (is_stale_round cs h r)) [
    | inl stale ↦ rw stale (Keeps-refl cs g, λ eh. stale_round-Reached cs h r stale eh)
    | inr fresh ↦
        let (eh, low, lt) = fresh_round_facts cs h r fresh in
        let (ph, pr, ps) = reset_round_place cs r in
        rw fresh (
          Returns-bind (Enters cs h r) (successor r) _ (λ next en.
            Returns-bind (Enters cs h r) (set_round cs.votes next) _ (λ votes ev.
              let mid : State e = record (reset_round cs r) { votes = votes } in
              let k = reset_round-Keeps cs r votes g low lt in
              let u : Reached mid h r = inr (eh ∙ sym ph, inr (sym pr, omega arith)) in
              entered cs mid h r (propose_or_wait mid h r) k u
                (propose_or_wait-Keeps mid h r k.good (eh ∙ sym ph) u))))
  ]
