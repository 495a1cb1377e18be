-- ===== src/Consensus/State/Order/Commit.antt =====
-- enterCommit keeps the order, and finalizeCommit goes on to the next height.
use totally_not_a_fork_of_ce.Prelude.{
  ◌<◌, ◌≡◌, refl, sym, ap, true, Option, none, some, arith, inl, inr, ◌∙◌, Bool-cases, Option-cases,
  not, ◌||◌, length, ◌==◌, leb, if◌then◌else◌,
}
use totally_not_a_fork_of_ce.Prelude.Int.{ℤ, pos, ◌==ℤ◌}
use totally_not_a_fork_of_ce.Prelude.Outcome.{
  Outcome, done, panic, ◌>>=◌, Returns, Returns-bind, or_panic,
}
use totally_not_a_fork_of_ce.Types.BlockId.{BlockId}
use totally_not_a_fork_of_ce.Consensus.HeightVoteSet.{precommits_of, majority_of}
use totally_not_a_fork_of_ce.Consensus.RoundStep.{RoundStep, number}
use totally_not_a_fork_of_ce.Consensus.State.{
  Env, State, finalizes, schedule_timeout, send, has_header, hashes_to,
}
use totally_not_a_fork_of_ce.Consensus.State.Precommit.{await_block}
use totally_not_a_fork_of_ce.Consensus.State.Commit.{
  update_to_state, apply_commit, finalize, finalize_commit, try_finalize, try_finalize_commit,
  stage_commit, enter_commit,
}
use totally_not_a_fork_of_ce.Consensus.State.Order.{Place, UpTo-refl}
use totally_not_a_fork_of_ce.Consensus.State.Order.Keeps.{
  place_of, Good, Keeps, Keeps-refl, Keeps-trans, Keeps-after, Keeps-move,
}
use totally_not_a_fork_of_ce.Consensus.State.Order.Precommit.{
  Quiet, Quiet-trans, Quiet-Keeps, await_block-Quiet,
}
use totally_not_a_fork_of_ce.Consensus.State.Order.NextHeight.{
  IsLawful, update_to_state-Keeps, timed-Keeps,
}

module _ {e : Env} where
  module _ (law : IsLawful e) where
    apply_commit-Keeps :
        (cs : State e) (block : e.Block)
        → Good cs
        → e.validate_block cs.chain block ≡ true
        → Returns (Keeps cs) (apply_commit cs block)
    unfolding apply_commit
    apply_commit-Keeps cs block g ok = elim (Option-cases (e.apply_block cs.chain block)) [
      | inl failed ↦ rw (apply_commit, failed) (Keeps-refl cs g)
      | inr (chain, applied) ↦
          let eh = law.applied cs.chain chain block ok applied ∙ sym g.next in
          rw (apply_commit, applied)
            (timed (update_to_state cs chain) (update_to_state-Keeps cs chain g eh))
    ]
      where
        timed :
            (o : Outcome (State e))
            → Returns (λ cs'. Keeps cs cs' × (cs'.round ≡ pos 0)) o
            → Returns
                (Keeps cs)
                (o >>= λ cs'. done (schedule_timeout cs' cs'.height (pos 0) RoundStep.new_height))
        timed panic h = tt
        timed (done cs') (k, er) = timed-Keeps cs cs' k er

    finalized-Keeps :
        (cs : State e) (h r : ℤ) (b : BlockId) → Good cs → Keeps cs (send cs (finalizes h r b))
    finalized-Keeps cs h r b g = record {
      good = record {
        sorted = g.sorted;
        settled = g.settled;
        positive = g.positive;
        next = g.next;
      };
      forward = UpTo-refl (place_of cs);
    }

    finalize-Keeps :
        (cs : State e) (b : BlockId) (block : e.Block)
        → Good cs
        → Returns (Keeps cs) (finalize cs b block)
    unfolding finalize
    finalize-Keeps cs b block g = elim (Bool-cases (has_header e cs.proposal_parts b.parts)) [
      | inr other_parts ↦ rw other_parts tt
      | inl parts ↦ elim (Bool-cases (hashes_to e (some block) b.hash)) [
        | inr other_block ↦ rw (parts, other_block) tt
        | inl hash ↦ elim (Bool-cases (e.validate_block cs.chain block)) [
          | inr invalid ↦ rw (parts, hash, invalid) tt
          | inl valid ↦
              let cs' = send cs (finalizes cs.height cs.commit_round b) in
              let k = finalized-Keeps cs cs.height cs.commit_round b g in
              rw (parts, hash, valid)
                (Keeps-after cs cs' (apply_commit cs' block) k
                  (apply_commit-Keeps cs' block k.good valid))
        ]
      ]
    ]

    finalize_commit-Keeps :
        (cs : State e) (h : ℤ) → Good cs → Returns (Keeps cs) (finalize_commit cs h)
    unfolding finalize_commit
    finalize_commit-Keeps cs h g =
        elim (Bool-cases
          (not (cs.height ==ℤ h) || not (number cs.step == number RoundStep.commit))) [
            | inl stale ↦ rw stale (Keeps-refl cs g)
            | inr fresh ↦ rw fresh (
                Returns-bind (Keeps cs) (precommits_of cs.votes cs.commit_round) _ (λ vs ev.
                  Returns-bind (Keeps cs) (or_panic (majority_of vs)) _ (λ b eb.
                    Returns-bind (Keeps cs) (or_panic cs.proposal_block) _
                      (λ block ek. finalize-Keeps cs b block g))))
          ]

    try_finalize-Keeps :
        (cs : State e) (h : ℤ) (o : Option BlockId)
        → Good cs
        → Returns (Keeps cs) (try_finalize cs h o)
    unfolding try_finalize
    try_finalize-Keeps cs h none g = Keeps-refl cs g
    try_finalize-Keeps cs h (some b) g = elim (Bool-cases (length b.hash == 0)) [
      | inl empty ↦ rw empty (Keeps-refl cs g)
      | inr some_hash ↦ elim (Bool-cases (hashes_to e cs.proposal_block b.hash)) [
        | inl ours ↦ rw (some_hash, ours) (finalize_commit-Keeps cs h g)
        | inr other ↦ rw (some_hash, other) (Keeps-refl cs g)
      ]
    ]

    pub try_finalize_commit-Keeps :
        (cs : State e) (h : ℤ) → Good cs → Returns (Keeps cs) (try_finalize_commit cs h)
    unfolding try_finalize_commit
    try_finalize_commit-Keeps cs h g = elim (Bool-cases (cs.height ==ℤ h)) [
      | inr other ↦ rw other tt
      | inl same ↦ rw same (
          Returns-bind (Keeps cs) (precommits_of cs.votes cs.commit_round) _
            (λ vs ev. try_finalize-Keeps cs h (majority_of vs) g))
    ]

    stage_commit-Quiet : (cs : State e) (b : BlockId) → Quiet cs (stage_commit cs b)
    unfolding stage_commit
    stage_commit-Quiet cs b = elim (Bool-cases (hashes_to e cs.locked_block b.hash)) [
      | inl locked ↦
          rw (stage_commit, locked)
            (staged
              (record cs { proposal_block = cs.locked_block; proposal_parts = cs.locked_parts })
              (refl, refl, refl))
      | inr free ↦ rw (stage_commit, free) (staged cs (refl, refl, refl))
    ]
      where
        staged :
            (cs' : State e)
            → Quiet cs cs'
            → Quiet cs (if hashes_to e cs'.proposal_block b.hash then cs' else await_block cs' b)
        staged cs' q = elim (Bool-cases (hashes_to e cs'.proposal_block b.hash)) [
          | inl ours ↦ rw ours q
          | inr other ↦
              rw other (Quiet-trans cs cs' (await_block cs' b) q (await_block-Quiet cs' b))
        ]

    committing :
        (cs cs' : State e) (r : ℤ)
        → Good cs
        → Quiet cs cs'
        → number cs.step < number RoundStep.commit
        → Keeps cs (record cs' { step = RoundStep.commit; commit_round = r })
    committing cs cs' r g q lt =
        let k = Quiet-Keeps cs cs' q g in
        let es : number cs'.step ≡ number cs.step = ap (λ (p : Place). p.step) q.0 in
        Keeps-trans cs cs' (record cs' { step = RoundStep.commit; commit_round = r }) k
          (Keeps-move cs' (record cs' { step = RoundStep.commit; commit_round = r }) k.good refl
            refl refl (inr (refl, inr (refl, omega (arith, es, lt)))))

    pub enter_commit-Keeps :
        (cs : State e) (h r : ℤ) → Good cs → Returns (Keeps cs) (enter_commit cs h r)
    unfolding enter_commit
    enter_commit-Keeps cs h r g =
        elim (Bool-cases
          (not (cs.height ==ℤ h) || leb (number RoundStep.commit) (number cs.step))) [
            | inl stale ↦ rw stale (Keeps-refl cs g)
            | inr fresh ↦
                let lt : number cs.step < number RoundStep.commit = ground arith in
                rw fresh (
                  Returns-bind (Keeps cs) (precommits_of cs.votes r) _ (λ vs ev.
                    Returns-bind (Keeps cs) (or_panic (majority_of vs)) _ (λ b eb.
                      let cs' = record (stage_commit cs b) {
                        step = RoundStep.commit;
                        commit_round = r;
                      } in
                      let k = committing cs (stage_commit cs b) r g (stage_commit-Quiet cs b) lt in
                      Keeps-after cs cs' (try_finalize_commit cs' h) k
                        (try_finalize_commit-Keeps cs' h k.good))))
          ]
