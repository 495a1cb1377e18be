-- ===== src/Consensus/State/Order/Proposals.antt =====
-- The handlers of proposals and of block parts keep the order.
use totally_not_a_fork_of_ce.Prelude.{
  ◌≡◌, refl, sym, ap, Bool, true, false, Option, none, some, inl, inr, ◌∙◌, Bool-cases,
  Option-cases, not, ◌&&◌, ◌||◌, ◌==◌, leb,
}
use totally_not_a_fork_of_ce.Prelude.Int.{ℤ, ◌==ℤ◌, ==ℤ_iff, ltb_ℤ}
use totally_not_a_fork_of_ce.Prelude.Outcome.{
  Outcome, done, panic, ◌>>=◌, Returns, Returns-bind, or_panic,
}
use totally_not_a_fork_of_ce.Types.BlockId
use totally_not_a_fork_of_ce.Types.BlockId.{BlockId}
use totally_not_a_fork_of_ce.Types.Proposal.{Proposal}
use totally_not_a_fork_of_ce.Types.ValidatorSet.{Validator, get_proposer}
use totally_not_a_fork_of_ce.Types.VoteSet.{is_some}
use totally_not_a_fork_of_ce.Consensus.HeightVoteSet.{prevotes_of, majority_of}
use totally_not_a_fork_of_ce.Consensus.RoundStep.{number, propose, commit}
use totally_not_a_fork_of_ce.Consensus.State.{Env, State, hashes_to, is_proposal_complete, is_stale}
use totally_not_a_fork_of_ce.Consensus.State.Enter.{enter_prevote}
use totally_not_a_fork_of_ce.Consensus.State.Precommit.{enter_precommit}
use totally_not_a_fork_of_ce.Consensus.State.Proposals.{
  accept_proposal, is_bad_pol, check_proposal, set_proposal, note_valid, precommit_if,
  advance_with_block, with_block, with_parts, add_part_to, add_proposal_block_part,
}
use totally_not_a_fork_of_ce.Consensus.State.Order.{Place}
use totally_not_a_fork_of_ce.Consensus.State.Order.Keeps.{
  Good, Keeps, Keeps-refl, Keeps-after, keeps_bind,
}
use totally_not_a_fork_of_ce.Consensus.State.Order.Enter.{enter_prevote-Keeps}
use totally_not_a_fork_of_ce.Consensus.State.Order.Precommit.{
  Quiet, Quiet-Keeps, Quiet-trans, enter_precommit-Keeps,
}
use totally_not_a_fork_of_ce.Consensus.State.Order.Prevotes.{current}
use totally_not_a_fork_of_ce.Consensus.State.Order.Commit.{try_finalize_commit-Keeps}
use totally_not_a_fork_of_ce.Consensus.State.Order.NextHeight.{IsLawful}

module _ {e : Env} where
  set_proposal-Quiet : (cs : State e) (p : Proposal) → Returns (Quiet cs) (set_proposal cs p)
  unfolding set_proposal check_proposal accept_proposal
  set_proposal-Quiet cs p =
      elim (Bool-cases (
        is_some cs.proposal
        || not ((p.height ==ℤ cs.height) && (p.round ==ℤ cs.round))
        || is_bad_pol p)) [
          | inl refused ↦ rw refused (refl, refl, refl)
          | inr fits ↦ rw fits (
              Returns-bind (Quiet cs) (get_proposer cs.validators >>= or_panic) _
                (λ proposer ep. checked proposer (e.verify_proposal cs.chain proposer p) refl))
        ]
    where
      checked :
          (proposer : Validator) (ok : Bool)
          → e.verify_proposal cs.chain proposer p ≡ ok
          → Quiet cs (check_proposal cs p proposer)
      checked proposer true h = rw h (refl, refl, refl)
      checked proposer false h = rw h (refl, refl, refl)

  pub set_proposal-Keeps :
      (cs : State e) (p : Proposal) → Good cs → Returns (Keeps cs) (set_proposal cs p)
  set_proposal-Keeps cs p g = kept (set_proposal cs p) (set_proposal-Quiet cs p)
    where
      kept : (o : Outcome (State e)) → Returns (Quiet cs) o → Returns (Keeps cs) o
      kept panic q = tt
      kept (done cs') q = Quiet-Keeps cs cs' q g

  note_valid-Quiet : (cs : State e) (o : Option BlockId) → Quiet cs (note_valid cs o)
  unfolding note_valid
  note_valid-Quiet cs none = (refl, refl, refl)
  note_valid-Quiet cs (some b) =
      elim (Bool-cases (
        not (BlockId.is_zero b)
        && ltb_ℤ cs.valid_round cs.round
        && hashes_to e cs.proposal_block b.hash)) [
          | inl valid ↦ rw (note_valid, valid) (refl, refl, refl)
          | inr stays ↦ rw (note_valid, stays) (refl, refl, refl)
        ]

  -- enterPrecommit for another height does nothing.
  precommit_if-Keeps :
      (cs : State e) (h : ℤ) (polka : Bool) → Good cs → Returns (Keeps cs) (precommit_if cs h polka)
  unfolding precommit_if enter_precommit is_stale
  precommit_if-Keeps cs h false g = Keeps-refl cs g
  precommit_if-Keeps cs h true g = elim (Bool-cases (cs.height ==ℤ h)) [
    | inl same ↦
        enter_precommit-Keeps cs h cs.round g (current cs h (sym ((==ℤ_iff cs.height h).0 same)))
    | inr other ↦ rw other (Keeps-refl cs g)
  ]

  module _ (law : IsLawful e) where
    advance_with_block-Keeps :
        (cs : State e) (h : ℤ) (complete polka : Bool)
        → Good cs
        → h ≡ cs.height
        → Returns (Keeps cs) (advance_with_block cs h complete polka)
    unfolding advance_with_block
    advance_with_block-Keeps cs h complete polka g eh =
        elim (Bool-cases (leb (number cs.step) (number propose) && complete)) [
          | inl ready ↦ rw ready (
              keeps_bind cs (enter_prevote cs h cs.round) _
                (enter_prevote-Keeps cs h cs.round g (current cs h eh))
                (λ cs' k. precommit_if-Keeps cs' h polka k.good))
          | inr on ↦ elim (Bool-cases (number cs.step == number commit)) [
            | inl commits ↦ rw (on, commits) (try_finalize_commit-Keeps law cs h g)
            | inr idle ↦ rw (on, idle) (Keeps-refl cs g)
          ]
        ]

    with_block-Keeps :
        (cs : State e) (h : ℤ) (o : Option e.Block)
        → Good cs
        → h ≡ cs.height
        → Returns (Keeps cs) (with_block cs h o)
    unfolding with_block
    with_block-Keeps cs h none g eh = Keeps-refl cs g
    with_block-Keeps cs h (some block) g eh =
        Returns-bind (Keeps cs) (prevotes_of cs.votes cs.round) _ (λ vs ev.
          let mid : State e = record cs { proposal_block = some block } in
          let cs' = note_valid mid (majority_of vs) in
          let q =
            Quiet-trans cs mid cs' (refl, refl, refl) (note_valid-Quiet mid (majority_of vs)) in
          let k = Quiet-Keeps cs cs' q g in
          Returns-bind (Keeps cs) (is_proposal_complete cs') _ (λ complete ec.
            Keeps-after cs cs' (advance_with_block cs' h complete (is_some (majority_of vs))) k (
              advance_with_block-Keeps cs' h complete (is_some (majority_of vs)) k.good
                (eh ∙ sym (ap (λ (p : Place). p.height) q.0)))))

    with_parts-Keeps :
        (cs : State e) (h : ℤ) (parts : e.Parts) (added : Bool)
        → Good cs
        → h ≡ cs.height
        → Returns (Keeps cs) (with_parts cs h parts added)
    unfolding with_parts
    with_parts-Keeps cs h parts added g eh =
        let cs' : State e = record cs { proposal_parts = some parts } in
        let k = Quiet-Keeps cs cs' (refl, refl, refl) g in
        elim (Bool-cases (not (e.exceeds_max_bytes parts) && added && e.is_complete parts)) [
          | inl full ↦ rw full (
              Keeps-after cs cs' (with_block cs' h (e.decode parts)) k
                (with_block-Keeps cs' h (e.decode parts) k.good eh))
          | inr partial ↦ rw partial k
        ]

    add_part_to-Keeps :
        (cs : State e) (h : ℤ) (part : e.Part) (o : Option e.Parts)
        → Good cs
        → h ≡ cs.height
        → Returns (Keeps cs) (add_part_to cs h part o)
    unfolding add_part_to
    add_part_to-Keeps cs h part none g eh = Keeps-refl cs g
    add_part_to-Keeps cs h part (some parts) g eh = elim (Option-cases (e.add_part parts part)) [
      | inl refused ↦ rw (add_part_to, refused) (Keeps-refl cs g)
      | inr ((parts', added), taken) ↦
          rw (add_part_to, taken) (with_parts-Keeps cs h parts' added g eh)
    ]

    pub add_proposal_block_part-Keeps :
        (cs : State e) (h : ℤ) (part : e.Part)
        → Good cs
        → Returns (Keeps cs) (add_proposal_block_part cs h part)
    unfolding add_proposal_block_part
    add_proposal_block_part-Keeps cs h part g = elim (Bool-cases (cs.height ==ℤ h)) [
      | inr other ↦ rw other (Keeps-refl cs g)
      | inl same ↦
          rw same
            (add_part_to-Keeps cs h part cs.proposal_parts g (sym ((==ℤ_iff cs.height h).0 same)))
    ]
