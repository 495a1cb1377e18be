-- ===== src/Privval.antt =====
-- privval/file.go: the private validator that keeps the last height, round and step that it signed
-- in a file, so as not to sign twice.
pub mod Signing
pub mod Kinds
pub mod Progress
mod Toy
pub mod History
mod Tests
use totally_not_a_fork_of_ce.Prelude.{
  ℕ, Bool, true, false, Option, none, some, ltb, ◌==◌, if◌then◌else◌,
}
use totally_not_a_fork_of_ce.Prelude.Bytes.{Bytes, bytes_equal}
use totally_not_a_fork_of_ce.Prelude.Int.{ℤ, pos, ltb_ℤ, ◌==ℤ◌}
use totally_not_a_fork_of_ce.Prelude.Outcome.{Outcome, done, panic, ◌>>=◌, or_panic}
use totally_not_a_fork_of_ce.Types.Vote
use totally_not_a_fork_of_ce.Types.Vote.{
  Vote, CanonicalVote, Crypto, SignedMsgType, prevote, precommit,
}
use totally_not_a_fork_of_ce.Types.Proposal.{Proposal, CanonicalProposal, proposal_sign_bytes}

-- stepNone, stepPropose, stepPrevote and stepPrecommit
abbrev pub step_none : ℕ
step_none = 0

abbrev pub step_propose : ℕ
step_propose = 1

abbrev pub step_prevote : ℕ
step_prevote = 2

abbrev pub step_precommit : ℕ
step_precommit = 3

unfoldable pub vote_to_step : SignedMsgType → Outcome ℕ
vote_to_step prevote = done step_prevote
vote_to_step precommit = done step_precommit
vote_to_step _ = panic

-- FilePVLastSignState; `none` is a nil slice.
pub record LastSignState : Type 0 where
  pub height : ℤ
  pub round : ℤ
  pub step : ℕ
  pub signature : Option Bytes
  pub sign_bytes : Option Bytes

-- FilePV: LastSignState, and what its file holds. The key does not change.
pub record FilePv : Type 0 where
  pub last : LastSignState
  pub disk : LastSignState

pub data Refusal : Type 0 where
  height_regression round_regression step_regression no_sign_bytes : Refusal
  conflicting_data sign_failed : Refusal

-- CheckHRS: (true, nil), (false, nil) or an error.
pub data Checked : Type 0 where
  same fresh : Checked
  regression : Refusal → Checked

abbrev pub check_bytes : Option Bytes → Option Bytes → Outcome Checked
check_bytes none signature = done (regression no_sign_bytes)
check_bytes (some bz) none = panic
check_bytes (some bz) (some sig) = done same

unfoldable pub check_hrs : LastSignState → ℤ → ℤ → ℕ → Outcome Checked
check_hrs lss height round step =
    if ltb_ℤ height lss.height
    then done (regression height_regression)
    else if lss.height ==ℤ height
    then (if ltb_ℤ round lss.round
        then done (regression round_regression)
        else if lss.round ==ℤ round
        then (if ltb step lss.step
            then done (regression step_regression)
            else if lss.step == step
            then check_bytes lss.sign_bytes lss.signature
            else done fresh)
        else done fresh)
    else done fresh

-- What the code takes from the protobuf library: UnmarshalDelimited, MarshalDelimited of a
-- proposal, and proto.Equal.
pub record Codec : Type 0 where
  pub unmarshal_vote : Bytes → Option CanonicalVote
  pub equal_votes : CanonicalVote → CanonicalVote → Bool
  pub marshal_proposal : CanonicalProposal → Bytes
  pub unmarshal_proposal : Bytes → Option CanonicalProposal
  pub equal_proposals : CanonicalProposal → CanonicalProposal → Bool

-- The timestamp of the last vote, and whether the votes differ by their timestamps only; `now` is
-- the time that both are set to.
unfoldable pub check_votes : Codec → ℕ → Bytes → Bytes → Outcome (ℕ × Bool)
check_votes codec now last_bytes new_bytes = do
  last ← or_panic (codec.unmarshal_vote last_bytes)
  new ← or_panic (codec.unmarshal_vote new_bytes)
  done (
    last.timestamp,
    codec.equal_votes (record new { timestamp = now }) (record last { timestamp = now }),
  )

unfoldable pub check_proposals : Codec → ℕ → Bytes → Bytes → Outcome (ℕ × Bool)
check_proposals codec now last_bytes new_bytes = do
  last ← or_panic (codec.unmarshal_proposal last_bytes)
  new ← or_panic (codec.unmarshal_proposal new_bytes)
  done (
    last.timestamp,
    codec.equal_proposals (record new { timestamp = now }) (record last { timestamp = now }),
  )

-- What signVote and signProposal do differently.
pub record Kind (M : Type 0) : Type 0 where
  pub height : M → ℤ
  pub round : M → ℤ
  pub step : M → Outcome ℕ
  pub bytes : M → Outcome Bytes
  pub compare : ℕ → Bytes → Bytes → Outcome (ℕ × Bool)
  pub signature : M → Bytes
  pub set_time : M → ℕ → M
  pub set_signature : M → Bytes → M

-- The state and the message after a call, and its error.
pub record Signed (M : Type 0) : Type 0 where
  pub pv : FilePv
  pub message : M
  pub error : Option Refusal

-- saveSigned: the new state, in memory and in the file. A failed write panics.
unfoldable pub save_signed : Bool → ℤ → ℤ → ℕ → Bytes → Bytes → Outcome FilePv
save_signed writes height round step bz sig =
    let lss : LastSignState = record {
      height = height;
      round = round;
      step = step;
      signature = some sig;
      sign_bytes = some bz;
    } in
    if writes then done (record { last = lss; disk = lss }) else panic

module _ {M : Type 0} (kind : Kind M) (sign : Bytes → Option Bytes) where
  abbrev refuse : FilePv → M → Refusal → Outcome (Signed M)
  refuse pv m e = done (record { pv = pv; message = m; error = some e })

  -- `if sameHRS`, after the comparison of the sign bytes that differ.
  unfoldable pub retimed : FilePv → M → Bytes → ℕ × Bool → Outcome (Signed M)
  retimed pv m sig (time, true) =
      done
        (record { pv = pv; message = kind.set_signature (kind.set_time m time) sig; error = none })
  retimed pv m sig (time, false) = refuse pv m conflicting_data

  -- `if sameHRS`: CheckHRS has seen that there are sign bytes and a signature.
  unfoldable pub sign_again :
      FilePv → M → ℕ → Bytes → Option Bytes → Option Bytes → Outcome (Signed M)
  sign_again pv m now bz (some last_bz) (some sig) =
      let other = kind.compare now last_bz bz >>= retimed pv m sig in
      if bytes_equal bz last_bz
      then done (record { pv = pv; message = kind.set_signature m sig; error = none })
      else other
  sign_again pv m now bz _ _ = panic

  unfoldable pub sign_new : FilePv → Bool → M → ℕ → Bytes → Option Bytes → Outcome (Signed M)
  sign_new pv writes m step bz none = refuse pv m sign_failed
  sign_new pv writes m step bz (some sig) = do
    pv' ← save_signed writes (kind.height m) (kind.round m) step bz sig
    done (record { pv = pv'; message = kind.set_signature m sig; error = none })

  unfoldable pub sign_checked : FilePv → Bool → ℕ → M → ℕ → Checked → Outcome (Signed M)
  sign_checked pv writes now m step (regression e) = refuse pv m e
  sign_checked pv writes now m step same = do
    bz ← kind.bytes m
    sign_again pv m now bz pv.last.sign_bytes pv.last.signature
  sign_checked pv writes now m step fresh = do
    bz ← kind.bytes m
    sign_new pv writes m step bz (sign bz)

  -- signVote and signProposal, for their kinds. `sign` is PrivKey.Sign in this call, `writes` whether
  -- the file can be written, and `now` the time of the call.
  unfoldable pub sign_message : FilePv → Bool → ℕ → M → Outcome (Signed M)
  sign_message pv writes now m = do
    step ← kind.step m
    checked ← check_hrs pv.last (kind.height m) (kind.round m) step
    sign_checked pv writes now m step checked

module _ (k : Crypto) (codec : Codec) (chain_id : Bytes) where
  abbrev pub vote_kind : Kind Vote
  vote_kind = record {
    height = λ v. v.height;
    round = λ v. v.round;
    step = λ v. vote_to_step v.type;
    bytes = Vote.vote_sign_bytes k chain_id;
    compare = check_votes codec;
    signature = λ v. v.signature;
    set_time = λ v t. record v { timestamp = t };
    set_signature = λ v s. record v { signature = s };
  }

  abbrev pub proposal_kind : Kind Proposal
  proposal_kind = record {
    height = λ p. p.height;
    round = λ p. p.round;
    step = λ p. done step_propose;
    bytes = proposal_sign_bytes codec.marshal_proposal chain_id;
    compare = check_proposals codec;
    signature = λ p. p.signature;
    set_time = λ p t. record p { timestamp = t };
    set_signature = λ p s. record p { signature = s };
  }

  unfoldable pub sign_vote :
      (Bytes → Option Bytes) → FilePv → Bool → ℕ → Vote → Outcome (Signed Vote)
  sign_vote = sign_message vote_kind

  unfoldable pub sign_proposal :
      (Bytes → Option Bytes) → FilePv → Bool → ℕ → Proposal → Outcome (Signed Proposal)
  sign_proposal = sign_message proposal_kind
