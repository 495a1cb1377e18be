-- ===== src/Consensus/State/Order/Precommit.antt =====
-- enterPrecommit and enterPrecommitWait keep the order.
use totally_not_a_fork_of_ce.Prelude.{
  ◌<◌, ◌≡◌, refl, sym, ap, Bool, true, false, Option, none, some, arith, inl, inr, ◌∙◌, Bool-cases,
  length, ◌==◌, if◌then◌else◌,
}
use totally_not_a_fork_of_ce.Prelude.Int.{ℤ, ==ℤ_iff, ltb_ℤ}
use totally_not_a_fork_of_ce.Prelude.Outcome.{Outcome, done, panic, ◌>>=◌, Returns, Returns-bind}
use totally_not_a_fork_of_ce.Types.BlockId.{BlockId}
use totally_not_a_fork_of_ce.Types.Vote.{precommit}
use totally_not_a_fork_of_ce.Types.VoteSet.{is_some}
use totally_not_a_fork_of_ce.Consensus.HeightVoteSet.{
  prevotes_of, precommits_of, majority_of, pol_info,
}
use totally_not_a_fork_of_ce.Consensus.RoundStep.{RoundStep, number}
use totally_not_a_fork_of_ce.Consensus.State.{
  Env, State, any_of, schedule_timeout, update_round_step, sign_add_vote, is_stale, has_header,
  hashes_to,
}
use totally_not_a_fork_of_ce.Consensus.State.Precommit.{
  unlock, await_block, is_valid_proposal, pol_info_round, lock_for, precommit_for, enter_precommit,
  is_stale_wait, enter_precommit_wait,
}
use totally_not_a_fork_of_ce.Consensus.State.Order.{Place, UpTo-eq}
use totally_not_a_fork_of_ce.Consensus.State.Order.Keeps.{
  place_of, Good, Keeps, Keeps-refl, Keeps-trans, Keeps-move, Keeps-schedule, Keeps-vote,
}
use totally_not_a_fork_of_ce.Consensus.State.Order.Enter.{Reached, fresh_facts, same_round}

module _ {e : Env} where
  fresh_wait : (cs : State e) (h r : ℤ) → is_stale_wait cs h r ≡ false → h ≡ cs.height
  unfolding is_stale_wait
  fresh_wait cs h r k = ground (arith, ==ℤ_iff cs.height h)

  -- The two states differ in nothing that the order is about.
  abbrev pub Quiet : State e → State e → Type 0
  Quiet cs cs' = (place_of cs' ≡ place_of cs) × (cs'.chain ≡ cs.chain) × (cs'.sent ≡ cs.sent)

  pub Quiet-Keeps : (cs cs' : State e) → Quiet cs cs' → Good cs → Keeps cs cs'
  Quiet-Keeps cs cs' (ep, ec, es) g =
      Keeps-move cs cs' g (ap (λ (p : Place). p.height) ep) ec es
        (UpTo-eq (place_of cs) (place_of cs') ep)

  pub await_block-Quiet : (cs : State e) (b : BlockId) → Quiet cs (await_block cs b)
  await_block-Quiet cs b = elim (Bool-cases (has_header e cs.proposal_parts b.parts)) [
    | inl known ↦ rw known (refl, refl, refl)
    | inr new ↦ rw new (refl, refl, refl)
  ]

  pub Quiet-trans : (a b d : State e) → Quiet a b → Quiet b d → Quiet a d
  Quiet-trans a b d (p, c, s) (p', c', s') = (p' ∙ p, c' ∙ c, s' ∙ s)

  -- The new locks of enterPrecommit.
  abbrev Locks : State e → State e × BlockId → Type 0
  Locks cs r = Quiet cs r.0

  lock_for-Quiet : (cs : State e) (r : ℤ) (b : BlockId) → Returns (Locks cs) (lock_for cs r b)
  unfolding lock_for
  lock_for-Quiet cs r b = elim (Bool-cases (length b.hash == 0)) [
    | inl empty ↦ elim (Bool-cases (is_some cs.locked_block)) [
      | inl locked ↦ rw (empty, locked) (refl, refl, refl)
      | inr free ↦ rw (empty, free) (refl, refl, refl)
    ]
    | inr some_hash ↦ elim (Bool-cases (hashes_to e cs.locked_block b.hash)) [
      | inl relock ↦ rw (some_hash, relock) (refl, refl, refl)
      | inr other ↦ elim (Bool-cases (hashes_to e cs.proposal_block b.hash)) [
        | inr unknown_block ↦
            rw (some_hash, other, unknown_block)
              (Quiet-trans cs (unlock cs) (await_block (unlock cs) b) (refl, refl, refl)
                (await_block-Quiet (unlock cs) b))
        | inl ours ↦ elim (Bool-cases (is_valid_proposal cs)) [
          | inl valid ↦ rw (some_hash, other, ours, valid) (refl, refl, refl)
          | inr invalid ↦ rw (some_hash, other, ours, invalid) tt
        ]
      ]
    ]
  ]

  precommit_for-Quiet :
      (cs : State e) (r : ℤ) (o : Option BlockId) → Returns (Locks cs) (precommit_for cs r o)
  unfolding precommit_for
  precommit_for-Quiet cs r none = (refl, refl, refl)
  precommit_for-Quiet cs r (some b) = Returns-bind (Locks cs) (pol_info cs.votes) _ (λ pol ep.
      elim (Bool-cases (ltb_ℤ (pol_info_round pol) r)) [
        | inl low ↦ rw low tt
        | inr high ↦ rw high (lock_for-Quiet cs r b)
      ])

  precommitted :
      (cs cs' : State e) (r : ℤ) (b : BlockId)
      → Good cs
      → Quiet cs cs'
      → r ≡ cs.round
      → number cs.step < number RoundStep.precommit
      → Keeps cs (update_round_step (sign_add_vote cs' precommit b) r RoundStep.precommit)
  precommitted cs cs' r b g q er lt =
      let k = Quiet-Keeps cs cs' q g in
      let es : number cs'.step ≡ number cs.step = ap (λ (p : Place). p.step) q.0 in
      let ers : r ≡ cs'.round = er ∙ sym (ap (λ (p : Place). p.round) q.0) in
      rw ers (
        Keeps-trans cs cs' _ k
          (Keeps-vote cs' precommit b RoundStep.precommit k.good refl (omega (arith, es, lt))))

  pub enter_precommit-Keeps :
      (cs : State e) (h r : ℤ)
      → Good cs
      → Reached cs h r
      → Returns (Keeps cs) (enter_precommit cs h r)
  unfolding enter_precommit
  enter_precommit-Keeps cs h r g u = elim (Bool-cases (is_stale cs h r RoundStep.precommit)) [
    | inl stale ↦ rw stale (Keeps-refl cs g)
    | inr fresh ↦
        let (eh, low, lt) = fresh_facts cs h r RoundStep.precommit fresh in
        let er = same_round cs h r u eh low in
        rw fresh (
          Returns-bind (Keeps cs) (prevotes_of cs.votes r) _ (λ vs ev.
            voted_for (precommit_for cs r (majority_of vs))
              (precommit_for-Quiet cs r (majority_of vs)) er (lt er)))
  ]
    where
      voted_for :
          (o : Outcome (State e × BlockId))
          → Returns (Locks cs) o
          → r ≡ cs.round
          → number cs.step < number RoundStep.precommit
          → Returns (Keeps cs) (
              o >>= λ x.
              done (update_round_step (sign_add_vote x.0 precommit x.1) r RoundStep.precommit))
      voted_for panic q er lt = tt
      voted_for (done (cs', b)) q er lt = precommitted cs cs' r b g q er lt

  pub enter_precommit_wait-Keeps :
      (cs : State e) (h r : ℤ)
      → Good cs
      → Reached cs h r
      → Returns (Keeps cs) (enter_precommit_wait cs h r)
  unfolding enter_precommit_wait
  enter_precommit_wait-Keeps cs h r g u = elim (Bool-cases (is_stale_wait cs h r)) [
    | inl stale ↦ rw stale (Keeps-refl cs g)
    | inr fresh ↦ rw fresh (
        Returns-bind (Keeps cs) (precommits_of cs.votes r >>= any_of) _
          (λ any ea. by_any any (waited (fresh_wait cs h r fresh))))
  ]
    where
      waited :
          h ≡ cs.height
          → Keeps cs (record (schedule_timeout cs h r RoundStep.precommit_wait) {
            triggered_timeout_precommit = true;
          })
      waited eh =
          let k = Keeps-schedule cs r RoundStep.precommit_wait g (rw eh at u) in
          let timed = schedule_timeout cs cs.height r RoundStep.precommit_wait in
          rw eh (
            Keeps-trans cs timed (record timed { triggered_timeout_precommit = true }) k
              (Quiet-Keeps timed (record timed { triggered_timeout_precommit = true })
                (refl, refl, refl) k.good))

      by_any :
          (any : Bool)
          → Keeps cs (record (schedule_timeout cs h r RoundStep.precommit_wait) {
            triggered_timeout_precommit = true;
          })
          → Returns (Keeps cs) (
              if any
              then done (record (schedule_timeout cs h r RoundStep.precommit_wait) {
                triggered_timeout_precommit = true;
              })
              else panic)
      by_any true k = k
      by_any false k = tt
