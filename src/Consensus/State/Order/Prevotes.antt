-- ===== src/Consensus/State/Order/Prevotes.antt =====
-- The part of addVote for prevotes keeps the order.
use totally_not_a_fork_of_ce.Prelude.{
  ◌≡◌, refl, sym, ap, Bool, true, false, Option, none, some, arith, inl, inr, ◌∙◌, Bool-cases, not,
  ◌&&◌, ◌||◌, length, ◌==◌, leb, if◌then◌else◌,
}
use totally_not_a_fork_of_ce.Prelude.Int.{ℤ, ◌==ℤ◌, ==ℤ_iff, ltb_ℤ, leb_ℤ}
use totally_not_a_fork_of_ce.Prelude.Outcome.{Outcome, done, panic, ◌>>=◌, Returns, Returns-bind}
use totally_not_a_fork_of_ce.Types.BlockId.{BlockId}
use totally_not_a_fork_of_ce.Types.VoteSet.{is_some}
use totally_not_a_fork_of_ce.Consensus.HeightVoteSet.{prevotes_of, majority_of}
use totally_not_a_fork_of_ce.Consensus.RoundStep.{RoundStep, number}
use totally_not_a_fork_of_ce.Consensus.State.{
  Env, State, hashes_to, has_header, any_of, is_proposal_complete,
}
use totally_not_a_fork_of_ce.Consensus.State.Enter.{enter_new_round, enter_prevote_wait}
use totally_not_a_fork_of_ce.Consensus.State.Handle.{
  unlock_by, valid_by, note_polka, advance_current, awaits_pol, advance_by_prevotes, after_prevote,
}
use totally_not_a_fork_of_ce.Consensus.State.Order.{Place}
use totally_not_a_fork_of_ce.Consensus.State.Order.Keeps.{Good, Keeps, Keeps-refl, Keeps-after}
use totally_not_a_fork_of_ce.Consensus.State.Order.Enter.{
  Reached, enter_prevote-Keeps, enter_prevote_wait-Keeps,
}
use totally_not_a_fork_of_ce.Consensus.State.Order.NewRound.{Enters, enter_new_round-Enters}
use totally_not_a_fork_of_ce.Consensus.State.Order.Precommit.{
  Quiet, Quiet-Keeps, Quiet-trans, enter_precommit-Keeps,
}

module _ {e : Env} where
  -- A round that the state is in is reached.
  pub current : (cs : State e) (h : ℤ) → h ≡ cs.height → Reached cs h cs.round
  current cs h eh = inr (eh, inr (refl, omega arith))

  pub at_round : (cs : State e) (h r : ℤ) → h ≡ cs.height → r ≡ cs.round → Reached cs h r
  at_round cs h r eh er = inr (eh, inr (er, omega arith))

  -- enterNewRound, less what it says of the round.
  pub new_round-Keeps :
      (cs : State e) (h r : ℤ) → Good cs → Returns (Keeps cs) (enter_new_round cs h r)
  new_round-Keeps cs h r g = first (enter_new_round cs h r) (enter_new_round-Enters cs h r g)
    where
      first : (o : Outcome (State e)) → Returns (Enters cs h r) o → Returns (Keeps cs) o
      first panic p = tt
      first (done cs') p = p.0

  -- A call after enterNewRound for the current height.
  pub after_new_round :
      (cs : State e) (h r : ℤ) (f : State e → Outcome (State e))
      → Good cs
      → h ≡ cs.height
      → ((cs' : State e) → Good cs' → Reached cs' h r → Returns (Keeps cs') (f cs'))
      → Returns (Keeps cs) (enter_new_round cs h r >>= f)
  after_new_round cs h r f g eh k = bound (enter_new_round cs h r) (enter_new_round-Enters cs h r g)
    where
      bound : (o : Outcome (State e)) → Returns (Enters cs h r) o → Returns (Keeps cs) (o >>= f)
      bound panic p = tt
      bound (done cs') (p, u) = Keeps-after cs cs' (f cs') p (k cs' p.good (u eh))

  unlock_by-Quiet : (cs : State e) (r : ℤ) (b : BlockId) → Quiet cs (unlock_by cs r b)
  unfolding unlock_by
  unlock_by-Quiet cs r b =
      elim (Bool-cases (
        is_some cs.locked_block
        && ltb_ℤ cs.locked_round r
        && leb_ℤ r cs.round
        && not (hashes_to e cs.locked_block b.hash))) [
          | inl unlocks ↦ rw (unlock_by, unlocks) (refl, refl, refl)
          | inr stays ↦ rw (unlock_by, stays) (refl, refl, refl)
        ]

  valid_by-Quiet : (cs : State e) (r : ℤ) (b : BlockId) → Quiet cs (valid_by cs r b)
  unfolding valid_by
  valid_by-Quiet cs r b =
      elim (Bool-cases (not (length b.hash == 0) && ltb_ℤ cs.valid_round r && (r ==ℤ cs.round))) [
        | inr stays ↦ rw (valid_by, stays) (refl, refl, refl)
        | inl moves ↦ elim (Bool-cases (has_header e cs.proposal_parts b.parts)) [
          | inl known ↦ elim (Bool-cases (hashes_to e cs.proposal_block b.hash)) [
            | inl ours ↦ rw (valid_by, moves, ours, known) (refl, refl, refl)
            | inr other ↦ rw (valid_by, moves, other, known) (refl, refl, refl)
          ]
          | inr new ↦ elim (Bool-cases (hashes_to e cs.proposal_block b.hash)) [
            | inl ours ↦ rw (valid_by, moves, ours, new) (refl, refl, refl)
            | inr other ↦ rw (valid_by, moves, other, new) (refl, refl, refl)
          ]
        ]
      ]

  note_polka-Quiet : (cs : State e) (r : ℤ) (o : Option BlockId) → Quiet cs (note_polka cs r o)
  unfolding note_polka
  note_polka-Quiet cs r none = (refl, refl, refl)
  note_polka-Quiet cs r (some b) =
      Quiet-trans cs (unlock_by cs r b) (valid_by (unlock_by cs r b) r b) (unlock_by-Quiet cs r b)
        (valid_by-Quiet (unlock_by cs r b) r b)

  wait_if-Keeps :
      (cs : State e) (h r : ℤ) (any : Bool)
      → Good cs
      → Returns (Keeps cs) (if any then enter_prevote_wait cs h r else done cs)
  wait_if-Keeps cs h r true g = enter_prevote_wait-Keeps cs h r g
  wait_if-Keeps cs h r false g = Keeps-refl cs g

  advance_current-Keeps :
      (cs : State e) (h r : ℤ) (polka : Option BlockId) (any complete : Bool)
      → Good cs
      → Reached cs h r
      → Returns (Keeps cs) (advance_current cs h r polka any complete)
  unfolding advance_current
  advance_current-Keeps cs h r none any complete g u = wait_if-Keeps cs h r any g
  advance_current-Keeps cs h r (some b) any complete g u =
      elim (Bool-cases (complete || (length b.hash == 0))) [
        | inl goes ↦ rw goes (enter_precommit-Keeps cs h r g u)
        | inr stays ↦ rw stays (wait_if-Keeps cs h r any g)
      ]

  advance_by_prevotes-Keeps :
      (cs : State e) (h r : ℤ) (polka : Option BlockId) (any complete : Bool)
      → Good cs
      → h ≡ cs.height
      → Returns (Keeps cs) (advance_by_prevotes cs h r polka any complete)
  unfolding advance_by_prevotes
  advance_by_prevotes-Keeps cs h r polka any complete g eh =
      elim (Bool-cases (ltb_ℤ cs.round r && any)) [
        | inl skips ↦ rw skips (new_round-Keeps cs h r g)
        | inr here ↦
            elim (Bool-cases
              ((cs.round ==ℤ r) && leb (number RoundStep.prevote) (number cs.step))) [
                | inl now ↦
                    let er : r ≡ cs.round = ground (arith, ==ℤ_iff cs.round r) in
                    rw (here, now)
                      (advance_current-Keeps cs h r polka any complete g (at_round cs h r eh er))
                | inr other ↦ elim (Bool-cases (awaits_pol cs r && complete)) [
                  | inl ready ↦
                      rw (here, other, ready)
                        (enter_prevote-Keeps cs h cs.round g (current cs h eh))
                  | inr idle ↦ rw (here, other, idle) (Keeps-refl cs g)
                ]
              ]
      ]

  pub after_prevote-Keeps :
      (cs : State e) (h r : ℤ) → Good cs → h ≡ cs.height → Returns (Keeps cs) (after_prevote cs h r)
  unfolding after_prevote
  after_prevote-Keeps cs h r g eh = Returns-bind (Keeps cs) (prevotes_of cs.votes r) _ (λ vs ev.
      Returns-bind (Keeps cs) (any_of vs) _ (λ any ea.
        let cs' = note_polka cs r (majority_of vs) in
        let q = note_polka-Quiet cs r (majority_of vs) in
        let k = Quiet-Keeps cs cs' q g in
        Returns-bind (Keeps cs) (is_proposal_complete cs') _ (λ complete ec.
          Keeps-after cs cs' (advance_by_prevotes cs' h r (majority_of vs) any complete) k (
            advance_by_prevotes-Keeps cs' h r (majority_of vs) any complete k.good
              (eh ∙ sym (ap (λ (p : Place). p.height) q.0))))))
