-- ===== src/Consensus/State/Order/Enter.antt =====
-- enterPrevote and enterPrevoteWait keep the order.
use totally_not_a_fork_of_ce.Prelude.{
  ◌<◌, ◌≡◌, refl, sym, Bool, true, false, arith, inl, inr, Bool-cases, if◌then◌else◌,
}
use totally_not_a_fork_of_ce.Prelude.Int.{ℤ, ◌≤ℤ◌, ◌==ℤ◌, ==ℤ_iff, eq_of_parts}
use totally_not_a_fork_of_ce.Prelude.Outcome.{done, panic, ◌>>=◌, Returns, Returns-bind}
use totally_not_a_fork_of_ce.Types.BlockId.{BlockId}
use totally_not_a_fork_of_ce.Types.Vote.{prevote}
use totally_not_a_fork_of_ce.Consensus.HeightVoteSet.{prevotes_of}
use totally_not_a_fork_of_ce.Consensus.RoundStep.{RoundStep, number}
use totally_not_a_fork_of_ce.Consensus.State.{
  Env, State, any_of, schedule_timeout, update_round_step, sign_add_vote, is_stale,
}
use totally_not_a_fork_of_ce.Consensus.State.Enter.{prevote_for, enter_prevote, enter_prevote_wait}
use totally_not_a_fork_of_ce.Consensus.State.Order.{Before, UpTo, round_place}
use totally_not_a_fork_of_ce.Consensus.State.Order.Keeps.{
  place_of, Good, Keeps, Keeps-refl, Keeps-trans, Keeps-move, Keeps-schedule, Keeps-vote,
}

module _ {e : Env} where
  -- The round of a height is reached.
  abbrev pub Reached : State e → ℤ → ℤ → Type 0
  Reached cs h r = UpTo (round_place h r) (place_of cs)

  pub fresh_facts :
      (cs : State e) (h r : ℤ) (s : RoundStep)
      → is_stale cs h r s ≡ false
      → (h ≡ cs.height) × (cs.round ≤ℤ r) × (r ≡ cs.round → number cs.step < number s)
  unfolding is_stale
  fresh_facts cs h r s k = ground (arith, ==ℤ_iff cs.height h, ==ℤ_iff cs.round r)

  pub same_round :
      (cs : State e) (h r : ℤ) → Reached cs h r → h ≡ cs.height → cs.round ≤ℤ r → r ≡ cs.round
  same_round cs h r u eh low = eq_of_parts r cs.round (ground arith)

  -- A later step of the round r, not before the current one.
  pub forward_to :
      (cs : State e) (r : ℤ) (s : RoundStep)
      → cs.round ≤ℤ r
      → (r ≡ cs.round → number cs.step < number s)
      → UpTo (place_of cs) (record { height = cs.height; round = r; step = number s })
  forward_to cs r s low lt = elim (Bool-cases (cs.round ==ℤ r)) [
    | inl hit ↦
        let same : cs.round ≡ r = (==ℤ_iff cs.round r).0 hit in
        let k = lt (sym same) in inr (refl, inr (same, omega (arith, k)))
    | inr miss ↦ inr (refl, inl (ground arith))
  ]

  -- A step of a later round, or a later step of the current one, is after the place.
  pub Before-step :
      (cs : State e) (r : ℤ) (s : RoundStep)
      → cs.round ≤ℤ r
      → (r ≡ cs.round → number cs.step < number s)
      → Before (place_of cs) (record { height = cs.height; round = r; step = number s })
  Before-step cs r s low lt = elim (Bool-cases (cs.round ==ℤ r)) [
    | inl hit ↦
        let same : cs.round ≡ r = (==ℤ_iff cs.round r).0 hit in
        inr (refl, inr (same, lt (sym same)))
    | inr miss ↦ inr (refl, inl (ground arith))
  ]

  prevoted :
      (cs : State e) (b : BlockId) (r : ℤ)
      → Good cs
      → r ≡ cs.round
      → number cs.step < number RoundStep.prevote
      → Keeps cs (update_round_step (sign_add_vote cs prevote b) r RoundStep.prevote)
  prevoted cs b r g er lt = rw er (Keeps-vote cs prevote b RoundStep.prevote g refl lt)

  pub enter_prevote-Keeps :
      (cs : State e) (h r : ℤ)
      → Good cs
      → Reached cs h r
      → Returns (Keeps cs) (enter_prevote cs h r)
  unfolding enter_prevote
  enter_prevote-Keeps cs h r g u = elim (Bool-cases (is_stale cs h r RoundStep.prevote)) [
    | inl stale ↦ rw stale (Keeps-refl cs g)
    | inr fresh ↦
        let (eh, low, lt) = fresh_facts cs h r RoundStep.prevote fresh in
        let er = same_round cs h r u eh low in
        rw fresh (prevoted cs (prevote_for cs) r g er (lt er))
  ]

  pub waited :
      (cs : State e) (h r : ℤ) (s : RoundStep)
      → Good cs
      → h ≡ cs.height
      → cs.round ≤ℤ r
      → (r ≡ cs.round → number cs.step < number s)
      → Keeps cs (update_round_step (schedule_timeout cs h r s) r s)
  waited cs h r s g eh low lt =
      let u = forward_to cs r s low lt in
      let m = Keeps-move cs (update_round_step cs r s) g refl refl refl u in
      let k =
        Keeps-schedule (update_round_step cs r s) r s m.good
          (inr (refl, inr (refl, omega arith))) in
      rw eh (Keeps-trans cs (update_round_step cs r s) _ m k)

  pub enter_prevote_wait-Keeps :
      (cs : State e) (h r : ℤ) → Good cs → Returns (Keeps cs) (enter_prevote_wait cs h r)
  unfolding enter_prevote_wait
  enter_prevote_wait-Keeps cs h r g = elim (Bool-cases (is_stale cs h r RoundStep.prevote_wait)) [
    | inl stale ↦ rw stale (Keeps-refl cs g)
    | inr fresh ↦
        let (eh, low, lt) = fresh_facts cs h r RoundStep.prevote_wait fresh in
        rw fresh (
          Returns-bind (Keeps cs) (prevotes_of cs.votes r >>= any_of) _
            (λ any ea. by_any any (waited cs h r RoundStep.prevote_wait g eh low lt)))
  ]
    where
      by_any :
          (any : Bool)
          → Keeps cs (
              update_round_step
                (schedule_timeout cs h r RoundStep.prevote_wait)
                r
                RoundStep.prevote_wait)
          → Returns (Keeps cs) (
              if any
              then done (
                  update_round_step
                    (schedule_timeout cs h r RoundStep.prevote_wait)
                    r
                    RoundStep.prevote_wait)
              else panic)
      by_any true k = k
      by_any false k = tt
