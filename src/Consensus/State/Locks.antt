-- ===== src/Consensus/State/Locks.antt =====
-- What a precommit is for, and what becomes of the lock.
use totally_not_a_fork_of_ce.Prelude.{
  ℕ, ◌≡◌, ◌≢◌, refl, true, false, Option, none, some, arith, ◌⊎◌, inl, inr, Bool-cases, length,
  ◌==◌, ==_iff, ltb, ltb→lt, sym, ap, ◌∙◌, Option-cases,
}
use totally_not_a_fork_of_ce.Prelude.Int.{ℤ, pos, pos_part, ◌+ℤ◌, ◌≤ℤ◌, ltb_ℤ}
use totally_not_a_fork_of_ce.Prelude.Outcome.{Outcome, done, panic, ◌>>=◌}
use totally_not_a_fork_of_ce.Types.BlockId.{BlockId, nil_block_id}
use totally_not_a_fork_of_ce.Consensus.State.Order.Keeps.{sign_add_vote_cases}
use totally_not_a_fork_of_ce.Consensus.State.Asking.{Asks, sign_add_vote-Asks}
use totally_not_a_fork_of_ce.Types.Vote.{SignedMsgType, prevote, precommit, is_vote_type_valid}
use totally_not_a_fork_of_ce.Types.VoteSet.{VoteSet, is_some}
use totally_not_a_fork_of_ce.Consensus.HeightVoteSet.{prevotes_of, majority_of, get_vote_set}
use totally_not_a_fork_of_ce.Consensus.HeightVoteSet.Valid.{Majority, get_vote_set_total}
use totally_not_a_fork_of_ce.Consensus.HeightVoteSet.Valid.Rounds.{suc_parts}
use totally_not_a_fork_of_ce.Consensus.HeightVoteSet.Pol.{
  IsLastPolka, pol_info_lem, vote_set_without,
}
use totally_not_a_fork_of_ce.Consensus.RoundStep.{RoundStep}
use totally_not_a_fork_of_ce.Consensus.State.{
  Env, State, update_round_step, sign_add_vote, is_stale, has_header, hashes_to, has_address,
}
use totally_not_a_fork_of_ce.Consensus.State.Precommit.{
  unlock, await_block, is_valid_proposal, pol_info_round, lock_for, precommit_for, enter_precommit,
}

none_of {ℓ} : {A : Type ℓ} (o : Option A) → is_some o ≡ false → o ≡ none
none_of none h = refl
none_of (some x) h = cc

prevote_valid : is_vote_type_valid prevote ≡ true
unfolding is_vote_type_valid
prevote_valid = refl

module _ {e : Env} where
  -- The prevotes of the round have a majority for the block.
  abbrev pub Polka : State e → ℤ → BlockId → Type 0
  Polka cs r b = Majority cs.votes r prevote b

  -- The state is locked on the block since the round.
  abbrev pub LockedOn : State e → ℤ → BlockId → Type 0
  LockedOn cs r b = (cs.locked_round ≡ r) × (hashes_to e cs.locked_block b.hash ≡ true)

  -- The proposal block is there and ValidateBlock accepts it.
  abbrev pub HasValidProposal : State e → Type 0
  HasValidProposal cs =
      (block : e.Block) × (cs.proposal_block ≡ some block)
      × (e.validate_block cs.chain block ≡ true)

  -- The block may be locked: it is locked already, or it is a valid proposal block.
  abbrev pub MayLock : State e → BlockId → Type 0
  MayLock cs b =
      (hashes_to e cs.locked_block b.hash ≡ true)
      ⊎ ((hashes_to e cs.proposal_block b.hash ≡ true) × HasValidProposal cs)

  -- The polka is for nil, or for a block that is neither locked nor proposed.
  abbrev pub IsForeign : State e → BlockId → Type 0
  IsForeign cs b =
      (length b.hash ≡ 0)
      ⊎ ((hashes_to e cs.locked_block b.hash ≡ false)
          × (hashes_to e cs.proposal_block b.hash ≡ false))

  -- With a polka of the round: lock on its block and precommit it, or unlock and precommit nil.
  abbrev pub Follows : State e → ℤ → BlockId → State e → BlockId → Type 0
  Follows cs r b cs' v =
      ((v ≡ b) × (length b.hash ≢ 0) × MayLock cs b × LockedOn cs' r b)
      ⊎ ((v ≡ nil_block_id) × IsForeign cs b × (cs'.locked_block ≡ none))

  -- A polka for the proposal block, which is not valid.
  abbrev pub IsInvalidPolka : State e → BlockId → Type 0
  IsInvalidPolka cs b =
      (hashes_to e cs.proposal_block b.hash ≡ true) × (is_valid_proposal cs ≡ false)

  -- What decides on the lock leaves the rest of the state alone.
  abbrev pub IsSame : State e → State e → Type 0
  IsSame cs cs' =
      (cs'.height ≡ cs.height)
      × (cs'.round ≡ cs.round)
      × (cs'.validators ≡ cs.validators)
      × (cs'.sent ≡ cs.sent)

  abbrev Settles : State e → ℤ → BlockId → Outcome (State e × BlockId) → Type 0
  Settles cs r b o =
      ((o ≡ panic) × IsInvalidPolka cs b)
      ⊎ ((cs' : State e) × (v : BlockId) × (o ≡ done (cs', v))
          × Follows cs r b cs' v
          × IsSame cs cs')

  valid_proposal : (cs : State e) → is_valid_proposal cs ≡ true → HasValidProposal cs
  valid_proposal cs h = elim (Option-cases cs.proposal_block) [
    | inl unset ↦ absurd (nothing cs.proposal_block unset h)
    | inr (block, known) ↦ (block, known, rw known at h)
  ]
    where
      nothing :
          (o : Option e.Block)
          → o ≡ none
          → (elim o [ none ↦ false | some block ↦ e.validate_block cs.chain block ]) ≡ true
          → ⊥
      nothing none k q = ground arith
      nothing (some block) k q = cc

  await_block-IsSame : (cs : State e) (b : BlockId) → IsSame cs (await_block (unlock cs) b)
  await_block-IsSame cs b = elim (Bool-cases (has_header e cs.proposal_parts b.parts)) [
    | inl known ↦ rw known (refl, refl, refl, refl)
    | inr new ↦ rw new (refl, refl, refl, refl)
  ]

  await_block_free : (cs : State e) (b : BlockId) → (await_block (unlock cs) b).locked_block ≡ none
  await_block_free cs b = elim (Bool-cases (has_header e cs.proposal_parts b.parts)) [
    | inl known ↦ rw known refl
    | inr new ↦ rw new refl
  ]

  lock_for_lem : (cs : State e) (r : ℤ) (b : BlockId) → Settles cs r b (lock_for cs r b)
  unfolding lock_for
  lock_for_lem cs r b =
      let unchanged : IsSame cs cs = (refl, refl, refl, refl) in
      elim (Bool-cases (length b.hash == 0)) [
        | inl empty ↦
            let zero_hash : length b.hash ≡ 0 = (==_iff (length b.hash) 0).0 empty in
            elim (Bool-cases (is_some cs.locked_block)) [
              | inl locked ↦
                  rw (empty, locked)
                    (inr
                      (unlock cs, nil_block_id, refl, inr (refl, inl zero_hash, refl), unchanged))
              | inr free ↦
                  rw (empty, free)
                    (inr (
                      cs,
                      nil_block_id,
                      refl,
                      inr (refl, inl zero_hash, none_of cs.locked_block free),
                      unchanged,
                    ))
            ]
        | inr some_hash ↦
            let ne : length b.hash ≢ 0 = λ h. cc (some_hash, (==_iff (length b.hash) 0).1 h) in
            elim (Bool-cases (hashes_to e cs.locked_block b.hash)) [
              | inl relock ↦
                  rw (some_hash, relock)
                    (inr (
                      record cs { locked_round = r },
                      b,
                      refl,
                      inl (refl, ne, inl refl, (refl, relock)),
                      unchanged,
                    ))
              | inr other ↦ elim (Bool-cases (hashes_to e cs.proposal_block b.hash)) [
                | inr unknown_block ↦
                    rw (some_hash, other, unknown_block)
                      (inr (
                        await_block (unlock cs) b,
                        nil_block_id,
                        refl,
                        inr (refl, inr (refl, refl), await_block_free cs b),
                        await_block-IsSame cs b,
                      ))
                | inl ours ↦ elim (Bool-cases (is_valid_proposal cs)) [
                  | inl valid ↦
                      rw (some_hash, other, ours, valid)
                        (inr (
                          _,
                          b,
                          refl,
                          inl (refl, ne, inr (refl, valid_proposal cs valid), (refl, ours)),
                          unchanged,
                        ))
                  | inr invalid ↦ rw (some_hash, other, ours, invalid) (inl (refl, (refl, refl)))
                ]
              ]
            ]
      ]

  -- POLInfo is not behind a polka of a round that is tracked.
  found_in_time :
      (cs : State e) (n : ℕ) (b : BlockId) (a : Option (ℕ × BlockId))
      → Polka cs (pos n) b
      → pos n ≤ℤ cs.votes.round
      → IsLastPolka cs.votes (pos_part (cs.votes.round +ℤ pos 1)) a
      → ltb_ℤ (pol_info_round a) (pos n) ≡ false
  found_in_time cs n b none p low h = absurd (h n b (omega (arith, suc_parts cs.votes.round)) p)
  found_in_time cs n b (some (m, b')) p low (lt, maj, above) = elim (Bool-cases (ltb m n)) [
    | inl before ↦
        absurd (above n b (ltb→lt m n before) (omega (arith, suc_parts cs.votes.round)) p)
    | inr reached ↦ ground arith
  ]

  -- What enterPrecommit asks to sign and does to the lock, in a call that is not stale.
  abbrev pub Decides : State e → ℤ → Outcome (State e × BlockId) → Type 0
  Decides cs r o =
      (((b : BlockId) → ¬ Polka cs r b) × (o ≡ done (cs, nil_block_id)))
      ⊎ ((b : BlockId) × Polka cs r b × Settles cs r b o)

  precommit_for_lem :
      (cs : State e) (n : ℕ) (o : Option VoteSet)
      → get_vote_set cs.votes (pos n) prevote ≡ done o
      → pos n ≤ℤ cs.votes.round
      → (m : Option BlockId) → majority_of o ≡ m
      → Decides cs (pos n) (precommit_for cs (pos n) m)
  unfolding precommit_for
  precommit_for_lem cs n o eo low none em = inl (no_polka, refl)
    where
      no_polka : (b : BlockId) → ¬ Polka cs (pos n) b
      no_polka b = vote_set_without cs.votes (pos n) o eo em b
  precommit_for_lem cs n none eo low (some b) em = cc
  precommit_for_lem cs n (some vs) eo low (some b) em =
      let p : Polka cs (pos n) b = (vs, eo, em) in
      let (a, ea, last) = pol_info_lem cs.votes in
      inr (b, p, rw (ea, found_in_time cs n b a p low last) (lock_for_lem cs (pos n) b))

  -- Nothing changes on the lock without a polka.
  abbrev pub IsDecision : State e → ℤ → State e → BlockId → Type 0
  IsDecision cs r cs' v =
      (((b : BlockId) → ¬ Polka cs r b)
        × (v ≡ nil_block_id)
        × (cs'.locked_round ≡ cs.locked_round)
        × (cs'.locked_block ≡ cs.locked_block)
        × (cs'.locked_parts ≡ cs.locked_parts))
      ⊎ ((b : BlockId) × Polka cs r b × Follows cs r b cs' v)

  -- The step is entered, and the vote is asked for.
  abbrev pub Precommits : State e → ℤ → Outcome (State e) → Type 0
  Precommits cs r o =
      ((o ≡ panic) × (b : BlockId) × Polka cs r b × IsInvalidPolka cs b)
      ⊎ ((cs' : State e) × (v : BlockId) × (o ≡ done cs')
          × (cs'.height ≡ cs.height)
          × (cs'.round ≡ r)
          × (cs'.step ≡ RoundStep.precommit)
          × Asks cs precommit v cs'
          × IsDecision cs r cs' v)

  -- The end of enterPrecommit.
  abbrev asks_precommit : State e → ℤ → BlockId → State e
  asks_precommit cs r v = update_round_step (sign_add_vote cs precommit v) r RoundStep.precommit

  sign_add_vote_keeps :
      (cs : State e) (t : SignedMsgType) (b : BlockId)
      → ((sign_add_vote cs t b).height ≡ cs.height)
        × ((sign_add_vote cs t b).locked_round ≡ cs.locked_round)
        × ((sign_add_vote cs t b).locked_block ≡ cs.locked_block)
        × ((sign_add_vote cs t b).locked_parts ≡ cs.locked_parts)
  sign_add_vote_keeps cs t b = elim (sign_add_vote_cases cs t b) [
    | inl idle ↦ rw idle (refl, refl, refl, refl)
    | inr asked ↦ rw asked (refl, refl, refl, refl)
  ]

  asks_precommit-Asks :
      (cs cs' : State e) (r : ℤ) (v : BlockId)
      → IsSame cs cs'
      → Asks cs precommit v (asks_precommit cs' r v)
  asks_precommit-Asks cs cs' r v (h, n, vals, sent) = elim (sign_add_vote-Asks cs' precommit v) [
    | inl ((address, known, member), asked) ↦ inl (
      (address, known, ap (λ x. has_address x.validators address) (sym vals) ∙ member),
      asked ∙ cc (h, n, sent),
    )
    | inr (idle, same) ↦ inr (
      (λ (address, known, member).
          idle (address, known, ap (λ x. has_address x.validators address) vals ∙ member)),
      same ∙ sent,
    )
  ]

  decided :
      (cs : State e) (r : ℤ) (o : Outcome (State e × BlockId))
      → Decides cs r o
      → Precommits cs r (o >>= λ x. done (asks_precommit x.0 r x.1))
  decided cs r o (inl (free, eo)) =
      let k = sign_add_vote_keeps cs precommit nil_block_id in
      rw eo (
        inr (
          _,
          nil_block_id,
          refl,
          k.0,
          refl,
          refl,
          asks_precommit-Asks cs cs r nil_block_id (refl, refl, refl, refl),
          inl (free, refl, k.1, k.2, k.3),
        ))
  decided cs r o (inr (b, p, inl (eo, bad))) = rw eo (inl (refl, b, p, bad))
  decided cs r o (inr (b, p, inr (cs', v, eo, f, same))) =
      let (h, kr, kb, kp) = sign_add_vote_keeps cs' precommit v in
      rw eo (
        inr (
          _,
          v,
          refl,
          h ∙ same.0,
          refl,
          refl,
          asks_precommit-Asks cs cs' r v same,
          inr (b, p, follows f kr kb),
        ))
    where
      follows :
          Follows cs r b cs' v
          → (sign_add_vote cs' precommit v).locked_round ≡ cs'.locked_round
          → (sign_add_vote cs' precommit v).locked_block ≡ cs'.locked_block
          → Follows cs r b (asks_precommit cs' r v) v
      follows (inl (ev, ne, may, (lr, lb))) kr kb = inl (ev, ne, may, (kr ∙ lr, rw kb lb))
      follows (inr (ev, foreign, free)) kr kb = inr (ev, foreign, kb ∙ free)

  enter_precommit_opened :
      (cs : State e) (h r : ℤ) (o : Option VoteSet)
      → is_stale cs h r RoundStep.precommit ≡ false
      → get_vote_set cs.votes r prevote ≡ done o
      → enter_precommit cs h r
        ≡ (precommit_for cs r (majority_of o) >>= λ x. done (asks_precommit x.0 r x.1))
  unfolding enter_precommit prevotes_of
  enter_precommit_opened cs h r o fresh eo = rw (enter_precommit, fresh, eo) refl

  -- EnterPrecommit for the current height and a later step of a tracked round panics only on a
  -- polka for a proposal block that is not valid. Otherwise it enters the step, and a node that is
  -- a validator asks for one precommit more, another for none. The precommit is for nil with the
  -- lock left alone if the round has no polka; with a polka for a block that is locked already, or
  -- that is the proposal block and valid, it is for that block, on which the state is then locked
  -- since this round; with a polka for nil or for any other block it is for nil, with no lock
  -- left.
  pub enter_precommit_lem :
      (cs : State e) (h : ℤ) (n : ℕ)
      → is_stale cs h (pos n) RoundStep.precommit ≡ false
      → pos n ≤ℤ cs.votes.round
      → Precommits cs (pos n) (enter_precommit cs h (pos n))
  enter_precommit_lem cs h n fresh low =
      let (o, eo) = get_vote_set_total cs.votes (pos n) prevote prevote_valid in
      rw (enter_precommit_opened cs h (pos n) o fresh eo) (
        decided cs (pos n) (precommit_for cs (pos n) (majority_of o))
          (precommit_for_lem cs n o eo low (majority_of o) refl))
