-- ===== src/Consensus/State/Signed.antt =====
-- internal/consensus/state.go (signVote, defaultDecideProposal) with privval/file.go: the votes and
-- proposals that the state machine asks for are signed by the private validator of the node.
use totally_not_a_fork_of_ce.Prelude.{
  if◌then◌else◌, ℕ, ◌≡◌, refl, List, [], ◌∷◌, Bool, true, false, Option, none, some, ◌&&◌, arith,
}
use totally_not_a_fork_of_ce.Prelude.Int.{ℤ}
use totally_not_a_fork_of_ce.Prelude.Bytes.{Bytes}
use totally_not_a_fork_of_ce.Prelude.Outcome.{Outcome, done, ◌>>=◌}
use totally_not_a_fork_of_ce.Types.BlockId
use totally_not_a_fork_of_ce.Types.BlockId.{BlockId}
use totally_not_a_fork_of_ce.Types.Vote.{
  Vote, SignedMsgType, unknown, prevote, precommit, proposal, is_vote_type_valid, Crypto,
  vote_sign_bytes, canonicalize_vote, canonicalize_block_id,
}
use totally_not_a_fork_of_ce.Privval.{
  FilePv, LastSignState, Codec, Refusal, sign_vote, sign_proposal, vote_kind, proposal_kind,
  vote_to_step, step_propose, step_prevote, step_precommit,
}
use totally_not_a_fork_of_ce.Types.Proposal.{Proposal, proposal_sign_bytes, canonicalize_proposal}
use totally_not_a_fork_of_ce.Privval.Signing
use totally_not_a_fork_of_ce.Privval.Progress.{sign_message_fresh}
use totally_not_a_fork_of_ce.Consensus.State.{
  Env, State, Output, timeout, vote, proposes, finalizes,
}
use totally_not_a_fork_of_ce.Consensus.State.Order.{Before, vote_place, AllBefore, Sorted}
use totally_not_a_fork_of_ce.Consensus.State.Order.Keeps.{Good}
use totally_not_a_fork_of_ce.Consensus.State.Order.NextHeight.{IsLawful}
use totally_not_a_fork_of_ce.Consensus.State.Order.History.{Turns, Turns-Keeps}

-- The request of signVote, for the validator's address and index and the time of the vote.
abbrev pub vote_message : Bytes → ℤ → ℕ → SignedMsgType → ℤ → ℤ → BlockId → Vote
vote_message address index time type height round b = record {
  type = type;
  height = height;
  round = round;
  block_id = b;
  timestamp = time;
  validator_address = address;
  validator_index = index;
  signature = [];
}

-- The request of defaultDecideProposal, which NewProposal makes.
abbrev pub proposal_message : ℕ → ℤ → ℤ → ℤ → BlockId → Proposal
proposal_message time height round pol_round b = record {
  type = proposal;
  height = height;
  round = round;
  pol_round = pol_round;
  block_id = b;
  timestamp = time;
  signature = [];
}

abbrev pub accepted : Option Refusal → Bool
accepted none = true
accepted (some e) = false

-- The step that the private validator keeps for a vote or a proposal.
abbrev pub kept_step : SignedMsgType → ℕ
kept_step precommit = step_precommit
kept_step prevote = step_prevote
kept_step unknown = 0
kept_step proposal = step_propose

abbrev is_request : SignedMsgType → Bool
is_request unknown = false
is_request prevote = true
is_request precommit = true
is_request proposal = true

vote-is_request : (t : SignedMsgType) → is_vote_type_valid t ≡ true → is_request t ≡ true
unfolding is_vote_type_valid
vote-is_request prevote h = refl
vote-is_request precommit h = refl
vote-is_request unknown h = cc
vote-is_request proposal h = cc

-- The last signed message is before the request.
abbrev pub LastBefore : LastSignState → SignedMsgType → ℤ → ℤ → Type 0
LastBefore last t h r =
    Signing.Before last (record last { height = h; round = r; step = kept_step t })

-- The votes and proposals asked for can be signed, and are later than the last signed message.
abbrev pub Signable : LastSignState → List Output → Type 0
Signable last [] = Unit
Signable last (vote t h r b ∷ os) =
    (is_vote_type_valid t ≡ true)
    × (BlockId.validate_basic b ≡ true)
    × LastBefore last t h r
    × Signable last os
Signable last (timeout h r s ∷ os) = Signable last os
Signable last (proposes h r v b ∷ os) =
    (BlockId.validate_basic b ≡ true) × LastBefore last proposal h r × Signable last os
Signable last (finalizes h r b ∷ os) = Signable last os

vote_to_step_valid :
    (t : SignedMsgType) → is_vote_type_valid t ≡ true → vote_to_step t ≡ done (kept_step t)
unfolding vote_to_step is_vote_type_valid
vote_to_step_valid prevote h = refl
vote_to_step_valid precommit h = refl
vote_to_step_valid unknown h = cc
vote_to_step_valid proposal h = cc

-- The two components order requests in the same way.
same_order :
    (last : LastSignState) (t u : SignedMsgType) (h r h' r' : ℤ)
    → is_request t ≡ true
    → is_request u ≡ true
    → last.height ≡ h
    → last.round ≡ r
    → last.step ≡ kept_step t
    → Before (vote_place t h r) (vote_place u h' r')
    → LastBefore last u h' r'
same_order last proposal proposal h r h' r' vt vu eh er es b = ground arith
same_order last proposal prevote h r h' r' vt vu eh er es b = ground arith
same_order last proposal precommit h r h' r' vt vu eh er es b = ground arith
same_order last proposal unknown h r h' r' vt vu eh er es b = cc
same_order last prevote proposal h r h' r' vt vu eh er es b = ground arith
same_order last prevote prevote h r h' r' vt vu eh er es b = ground arith
same_order last prevote precommit h r h' r' vt vu eh er es b = ground arith
same_order last prevote unknown h r h' r' vt vu eh er es b = cc
same_order last precommit proposal h r h' r' vt vu eh er es b = ground arith
same_order last precommit prevote h r h' r' vt vu eh er es b = ground arith
same_order last precommit precommit h r h' r' vt vu eh er es b = ground arith
same_order last precommit unknown h r h' r' vt vu eh er es b = cc
same_order last unknown u h r h' r' vt vu eh er es b = cc

module _ (k : Crypto) (codec : Codec) (chain_id : Bytes) (sign : Bytes → Option Bytes)
    (address : Bytes) (index : ℤ) (time : SignedMsgType → ℤ → ℤ → ℕ) where
  -- One request after another, the first one asked for first, with the file writable; the Boolean
  -- tells whether all of them were signed.
  unfoldable pub sign_all : FilePv → List Output → Outcome (FilePv × Bool)
  sign_all pv [] = done (pv, true)
  sign_all pv (vote t h r b ∷ os) = do
    before ← sign_all pv os
    s ←
        sign_vote k codec chain_id sign before.0 true (time t h r)
          (vote_message address index (time t h r) t h r b)
    done (s.pv, before.1 && accepted s.error)
  sign_all pv (timeout h r s ∷ os) = sign_all pv os
  sign_all pv (proposes h r v b ∷ os) = do
    before ← sign_all pv os
    s ←
        sign_proposal k codec chain_id sign before.0 true (time proposal h r)
          (proposal_message (time proposal h r) h r v b)
    done (s.pv, before.1 && accepted s.error)
  sign_all pv (finalizes h r b ∷ os) = sign_all pv os

  sign_bytes_total :
      (t : SignedMsgType) (h r : ℤ) (b : BlockId)
      → BlockId.validate_basic b ≡ true
      → (bz : Bytes) × (vote_sign_bytes k chain_id (vote_message address index (time t h r) t h r b)
          ≡ done bz)
  unfolding vote_sign_bytes canonicalize_vote canonicalize_block_id
  sign_bytes_total t h r b valid = (
    k.marshal_delimited (record {
      type = t;
      height = h;
      round = r;
      block_id = if BlockId.is_zero b then none else some b;
      timestamp = time t h r;
      chain_id = chain_id;
    }),
    rw (canonicalize_block_id, valid) refl,
  )

  proposal_bytes_total :
      (h r v : ℤ) (b : BlockId)
      → BlockId.validate_basic b ≡ true
      → (bz : Bytes) × (proposal_sign_bytes codec.marshal_proposal chain_id
            (proposal_message (time proposal h r) h r v b)
          ≡ done bz)
  unfolding proposal_sign_bytes canonicalize_proposal canonicalize_block_id
  proposal_bytes_total h r v b valid = (
    codec.marshal_proposal (record {
      type = proposal;
      height = h;
      round = r;
      pol_round = v;
      block_id = if BlockId.is_zero b then none else some b;
      timestamp = time proposal h r;
      chain_id = chain_id;
    }),
    rw (canonicalize_block_id, valid) refl,
  )

  module _ (signs : (bz : Bytes) → (sig : Bytes) × (sign bz ≡ some sig)) where
    -- All are signed, and what comes after them is later than the last signed message.
    abbrev AllSigned : FilePv → List Output → Type 0
    AllSigned pv os =
        (pv' : FilePv) × (sign_all pv os ≡ done (pv', true))
        × ((t : SignedMsgType) (h r : ℤ)
            → is_request t ≡ true
            → LastBefore pv.last t h r
            → AllBefore (vote_place t h r) os
            → LastBefore pv'.last t h r)

    sign_next :
        (pv pv₁ : FilePv) (t : SignedMsgType) (h r : ℤ) (b : BlockId) (os : List Output)
        → is_vote_type_valid t ≡ true
        → BlockId.validate_basic b ≡ true
        → LastBefore pv₁.last t h r
        → sign_all pv os ≡ done (pv₁, true)
        → AllSigned pv (vote t h r b ∷ os)
    unfolding sign_all sign_vote
    sign_next pv pv₁ t h r b os vt vb later eo =
        let m = vote_message address index (time t h r) t h r b in
        let (bz, ebz) = sign_bytes_total t h r b vb in
        let (sig, esig) = signs bz in
        let e =
          sign_message_fresh (vote_kind k codec chain_id) sign pv₁ (time t h r) m (kept_step t) bz
            sig (vote_to_step_valid t vt) ebz esig later in
        let last' : LastSignState = record {
          height = h;
          round = r;
          step = kept_step t;
          signature = some sig;
          sign_bytes = some bz;
        } in
        (
          record { last = last'; disk = last' },
          rw (eo, e) refl,
          λ u h' r' vu before (first, rest).
              same_order last' t u h r h' r' (vote-is_request t vt) vu refl refl refl first,
        )

    sign_next_proposal :
        (pv pv₁ : FilePv) (h r v : ℤ) (b : BlockId) (os : List Output)
        → BlockId.validate_basic b ≡ true
        → LastBefore pv₁.last proposal h r
        → sign_all pv os ≡ done (pv₁, true)
        → AllSigned pv (proposes h r v b ∷ os)
    unfolding sign_all sign_proposal
    sign_next_proposal pv pv₁ h r v b os vb later eo =
        let m = proposal_message (time proposal h r) h r v b in
        let (bz, ebz) = proposal_bytes_total h r v b vb in
        let (sig, esig) = signs bz in
        let e =
          sign_message_fresh (proposal_kind k codec chain_id) sign pv₁ (time proposal h r) m
            step_propose bz sig refl ebz esig later in
        let last' : LastSignState = record {
          height = h;
          round = r;
          step = step_propose;
          signature = some sig;
          sign_bytes = some bz;
        } in
        (
          record { last = last'; disk = last' },
          rw (eo, e) refl,
          λ u h' r' vu before (first, rest).
              same_order last' proposal u h r h' r' refl vu refl refl refl first,
        )

    all_signed :
        (pv : FilePv) (os : List Output) → Sorted os → Signable pv.last os → AllSigned pv os
    unfolding sign_all
    all_signed pv [] sorted able = (pv, refl, λ t h r vt before all. before)
    all_signed pv (vote t h r b ∷ os) (above, sorted) (vt, vb, later, able) =
        let (pv₁, eo, reach) = all_signed pv os sorted able in
        sign_next pv pv₁ t h r b os vt vb (reach t h r (vote-is_request t vt) later above) eo
    all_signed pv (timeout h r s ∷ os) sorted able = all_signed pv os sorted able
    all_signed pv (proposes h r v b ∷ os) (above, sorted) (vb, later, able) =
        let (pv₁, eo, reach) = all_signed pv os sorted able in
        sign_next_proposal pv pv₁ h r v b os vb (reach proposal h r refl later above) eo
    all_signed pv (finalizes h r b ∷ os) sorted able = all_signed pv os sorted able

    module _ {e : Env} (law : IsLawful e) (c : Crypto) where
      -- However messages and timeouts follow one another, from a state whose requests are in
      -- order, the private validator signs all votes and proposals that the state machine has
      -- asked for, one after another in the order of the requests and none refused, if they have
      -- valid block IDs, the votes are prevotes or precommits, all are later than its last signed
      -- message, its key signs all bytes and its file can be written. ApplyBlock is to return the
      -- state after the block.
      pub asked_are_signed :
          (cs cs' : State e) (pv : FilePv)
          → Good cs
          → Turns e c cs cs'
          → Signable pv.last cs'.sent
          → (pv' : FilePv) × (sign_all pv cs'.sent ≡ done (pv', true))
      asked_are_signed cs cs' pv g turns able =
          let kept = Turns-Keeps law c cs cs' g turns in
          let (pv', e, _) = all_signed pv cs'.sent kept.good.sorted able in (pv', e)
