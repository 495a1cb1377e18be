-- ===== src/Consensus/State/Order/Handle.antt =====
-- addVote and the handlers of timeouts keep the order.
use totally_not_a_fork_of_ce.Prelude.{
  ◌≡◌, refl, sym, Bool, true, false, Option, none, some, inl, inr, Bool-cases, not, ◌&&◌, ◌||◌,
  length, ◌==◌, ltb, if◌then◌else◌,
}
use totally_not_a_fork_of_ce.Prelude.Int.{ℤ, pos, ◌+ℤ◌, ◌==ℤ◌, ==ℤ_iff, ltb_ℤ, leb_ℤ}
use totally_not_a_fork_of_ce.Prelude.Bytes.{Bytes}
use totally_not_a_fork_of_ce.Prelude.Outcome.{Outcome, done, ◌>>=◌, Returns, Returns-bind, or_panic}
use totally_not_a_fork_of_ce.Types.BlockId.{BlockId}
use totally_not_a_fork_of_ce.Types.Vote.{
  Vote, Crypto, SignedMsgType, unknown, prevote, precommit, proposal, type_eq,
}
use totally_not_a_fork_of_ce.Types.VoteSet
use totally_not_a_fork_of_ce.Types.VoteSet.{VoteSet, is_some}
use totally_not_a_fork_of_ce.Consensus.HeightVoteSet
use totally_not_a_fork_of_ce.Consensus.HeightVoteSet.{
  HeightVoteSet, prevotes_of, precommits_of, majority_of,
}
use totally_not_a_fork_of_ce.Consensus.RoundStep.{
  RoundStep, number, new_height, new_round, propose, prevote_wait, precommit_wait, commit,
}
use totally_not_a_fork_of_ce.Consensus.State.{Env, State, any_of}
use totally_not_a_fork_of_ce.Consensus.State.Enter.{enter_new_round}
use totally_not_a_fork_of_ce.Consensus.State.Precommit.{enter_precommit, enter_precommit_wait}
use totally_not_a_fork_of_ce.Consensus.State.Commit.{enter_commit}
use totally_not_a_fork_of_ce.Consensus.State.Handle.{
  all_of, skip_timeout, after_commit, advance_by_precommits, after_precommit, after_vote,
  add_late_precommit, add_vote, fire, handle_timeout, handle_txs_available,
}
use totally_not_a_fork_of_ce.Consensus.State.Order.Keeps.{
  Good, Keeps, Keeps-refl, Keeps-after, keeps_bind, Keeps-schedule,
}
use totally_not_a_fork_of_ce.Consensus.State.Order.Enter.{Reached, enter_prevote-Keeps}
use totally_not_a_fork_of_ce.Consensus.State.Order.NewRound.{Reached-forward}
use totally_not_a_fork_of_ce.Consensus.State.Order.Propose.{enter_propose-Keeps}
use totally_not_a_fork_of_ce.Consensus.State.Order.Precommit.{
  Quiet, Quiet-Keeps, enter_precommit-Keeps, enter_precommit_wait-Keeps,
}
use totally_not_a_fork_of_ce.Consensus.State.Order.Commit.{enter_commit-Keeps}
use totally_not_a_fork_of_ce.Consensus.State.Order.NextHeight.{IsLawful}
use totally_not_a_fork_of_ce.Consensus.State.Order.Prevotes.{
  new_round-Keeps, after_new_round, after_prevote-Keeps, at_round,
}

module _ {e : Env} where
  new_round_if-Keeps :
      (cs : State e) (all : Bool)
      → Good cs
      → Returns (Keeps cs) (if all then enter_new_round cs cs.height (pos 0) else done cs)
  new_round_if-Keeps cs true g = new_round-Keeps cs cs.height (pos 0) g
  new_round_if-Keeps cs false g = Keeps-refl cs g

  skip_timeout-Keeps :
      (cs : State e) (vs : Option VoteSet) → Good cs → Returns (Keeps cs) (skip_timeout cs vs)
  unfolding skip_timeout
  skip_timeout-Keeps cs vs g = elim (Bool-cases e.skip_timeout_commit) [
    | inr off ↦ rw off (Keeps-refl cs g)
    | inl on ↦ rw on (Returns-bind (Keeps cs) (all_of vs) _ (λ all ea. new_round_if-Keeps cs all g))
  ]

  module _ (law : IsLawful e) where
    commit_or_wait-Keeps :
        (cs : State e) (h r : ℤ) (vs : Option VoteSet) (b : BlockId) (is_nil : Bool)
        → Good cs
        → Reached cs h r
        → Returns (Keeps cs) (
            if is_nil
            then enter_precommit_wait cs h r
            else (enter_commit cs h r >>= λ cs'. skip_timeout cs' vs))
    commit_or_wait-Keeps cs h r vs b true g u = enter_precommit_wait-Keeps cs h r g u
    commit_or_wait-Keeps cs h r vs b false g u =
        keeps_bind cs (enter_commit cs h r) (λ cs'. skip_timeout cs' vs)
          (enter_commit-Keeps law cs h r g) (λ cs' k. skip_timeout-Keeps cs' vs k.good)

    after_commit-Keeps :
        (cs : State e) (h r : ℤ) (vs : Option VoteSet) (b : BlockId)
        → Good cs
        → h ≡ cs.height
        → Returns (Keeps cs) (after_commit cs h r vs b)
    unfolding after_commit
    after_commit-Keeps cs h r vs b g eh = after_new_round cs h r _ g eh (λ cs₁ g₁ u₁.
        keeps_bind cs₁ (enter_precommit cs₁ h r) _ (enter_precommit-Keeps cs₁ h r g₁ u₁) (λ cs₂ k.
          commit_or_wait-Keeps cs₂ h r vs b (length b.hash == 0) k.good
            (Reached-forward cs₁ cs₂ h r u₁ k.forward)))

    advance_by_precommits-Keeps :
        (cs : State e) (h r : ℤ) (vs : Option VoteSet) (o : Option BlockId) (any : Bool)
        → Good cs
        → h ≡ cs.height
        → Returns (Keeps cs) (advance_by_precommits cs h r vs o any)
    unfolding advance_by_precommits
    advance_by_precommits-Keeps cs h r vs (some b) any g eh = after_commit-Keeps cs h r vs b g eh
    advance_by_precommits-Keeps cs h r vs none any g eh =
        elim (Bool-cases (leb_ℤ cs.round r && any)) [
          | inr idle ↦ rw idle (Keeps-refl cs g)
          | inl goes ↦ rw goes (
              after_new_round cs h r _ g eh (λ cs' g' u'. enter_precommit_wait-Keeps cs' h r g' u'))
        ]

    after_precommit-Keeps :
        (cs : State e) (h r : ℤ)
        → Good cs
        → h ≡ cs.height
        → Returns (Keeps cs) (after_precommit cs h r)
    unfolding after_precommit
    after_precommit-Keeps cs h r g eh =
        Returns-bind (Keeps cs) (precommits_of cs.votes r) _ (λ vs ev.
          Returns-bind (Keeps cs) (any_of vs) _
            (λ any ea. advance_by_precommits-Keeps cs h r vs (majority_of vs) any g eh))

    after_vote-Keeps :
        (cs : State e) (h r : ℤ) (t : SignedMsgType)
        → Good cs
        → h ≡ cs.height
        → Returns (Keeps cs) (after_vote cs h r t)
    unfolding after_vote
    after_vote-Keeps cs h r unknown g eh = tt
    after_vote-Keeps cs h r prevote g eh = after_prevote-Keeps cs h r g eh
    after_vote-Keeps cs h r precommit g eh = after_precommit-Keeps cs h r g eh
    after_vote-Keeps cs h r proposal g eh = tt

    -- The fields that a vote changes before the state advances.
    unchanged_then :
        (cs cs' : State e) (o : Outcome (State e)) (go : Bool)
        → Good cs
        → Quiet cs cs'
        → (Good cs' → Returns (Keeps cs') o)
        → Returns (Keeps cs) (if go then o else done cs')
    unchanged_then cs cs' o true g q f =
        let k = Quiet-Keeps cs cs' q g in Keeps-after cs cs' o k (f k.good)
    unchanged_then cs cs' o false g q f = Quiet-Keeps cs cs' q g

    add_late_precommit-Keeps :
        (c : Crypto) (cs : State e) (v : Vote)
        → Good cs
        → Returns (Keeps cs) (add_late_precommit c cs v)
    unfolding add_late_precommit
    add_late_precommit-Keeps c cs v g = elim (Bool-cases (number cs.step == number new_height)) [
      | inr late ↦ rw late (Keeps-refl cs g)
      | inl waits ↦ rw waits (
          Returns-bind (Keeps cs) (or_panic cs.last_commit) _ (λ last el.
            Returns-bind (Keeps cs) (VoteSet.add_vote c last (some v)) _ (λ r er.
              let cs' : State e = record cs { last_commit = some r.state } in
              unchanged_then cs cs' (skip_timeout cs' (some r.state)) r.added g (refl, refl, refl)
                (λ g'. skip_timeout-Keeps cs' (some r.state) g'))))
    ]

    pub add_vote-Keeps :
        (c : Crypto) (cs : State e) (v : Vote) (peer : Bytes)
        → Good cs
        → Returns (Keeps cs) (add_vote c cs v peer)
    unfolding add_vote
    add_vote-Keeps c cs v peer g =
        elim (Bool-cases ((v.height +ℤ pos 1 ==ℤ cs.height) && type_eq v.type precommit)) [
          | inl late ↦ rw late (add_late_precommit-Keeps c cs v g)
          | inr now ↦ elim (Bool-cases (v.height ==ℤ cs.height)) [
            | inr other ↦ rw (now, other) (Keeps-refl cs g)
            | inl same ↦
                rw (now, same)
                  (Returns-bind (Keeps cs) (HeightVoteSet.add_vote c cs.votes v peer) _ (λ r er.
                    let cs' : State e = record cs { votes = r.state } in
                    unchanged_then cs cs' (after_vote cs' cs.height v.round v.type) r.added g
                      (refl, refl, refl)
                      (λ g'. after_vote-Keeps cs' cs.height v.round v.type g' refl)))
          ]
        ]

    -- A timeout of a round that was reached.
    fire-Keeps :
        (cs : State e) (h r : ℤ) (s : RoundStep)
        → Good cs
        → Reached cs h r
        → Returns (Keeps cs) (fire cs h r s)
    unfolding fire
    fire-Keeps cs h r new_height g u = new_round-Keeps cs h (pos 0) g
    fire-Keeps cs h r new_round g u = enter_propose-Keeps cs h (pos 0) g
    fire-Keeps cs h r propose g u = enter_prevote-Keeps cs h r g u
    fire-Keeps cs h r RoundStep.prevote g u = tt
    fire-Keeps cs h r prevote_wait g u = enter_precommit-Keeps cs h r g u
    fire-Keeps cs h r RoundStep.precommit g u = tt
    fire-Keeps cs h r precommit_wait g u =
        keeps_bind cs (enter_precommit cs h r) _ (enter_precommit-Keeps cs h r g u)
          (λ cs' k. new_round-Keeps cs' h (r +ℤ pos 1) k.good)
    fire-Keeps cs h r commit g u = tt

    pub handle_timeout-Keeps :
        (cs : State e) (h r : ℤ) (s : RoundStep)
        → Good cs
        → Reached cs h r
        → Returns (Keeps cs) (handle_timeout cs h r s)
    unfolding handle_timeout
    handle_timeout-Keeps cs h r s g u =
        elim (Bool-cases (
          not (h ==ℤ cs.height)
          || ltb_ℤ r cs.round
          || ((r ==ℤ cs.round) && ltb (number s) (number cs.step)))) [
            | inl stale ↦ rw stale (Keeps-refl cs g)
            | inr fresh ↦ rw fresh (fire-Keeps cs h r s g u)
          ]

    pub handle_txs_available-Keeps :
        (cs : State e) → Good cs → Returns (Keeps cs) (handle_txs_available cs)
    unfolding handle_txs_available
    handle_txs_available-Keeps cs g = elim (Bool-cases (cs.round ==ℤ pos 0)) [
      | inr later ↦ rw later (Keeps-refl cs g)
      | inl first ↦ elim (Bool-cases (number cs.step == number new_height)) [
        | inl waits ↦ elim (Bool-cases (e.need_proof_block cs.height)) [
          | inl proof ↦ rw (first, waits, proof) (Keeps-refl cs g)
          | inr plain ↦
              let er : pos 0 ≡ cs.round = sym ((==ℤ_iff cs.round (pos 0)).0 first) in
              rw (first, waits, plain)
                (Keeps-schedule cs (pos 0) new_round g (at_round cs cs.height (pos 0) refl er))
        ]
        | inr on ↦ elim (Bool-cases (number cs.step == number new_round)) [
          | inl now ↦ rw (first, on, now) (enter_propose-Keeps cs cs.height (pos 0) g)
          | inr idle ↦ rw (first, on, idle) (Keeps-refl cs g)
        ]
      ]
    ]
