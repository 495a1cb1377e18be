-- ===== src/Privval/Kinds.antt =====
-- privval/file.go: votes and proposals are lawful kinds of messages, for a faithful codec.
use totally_not_a_fork_of_ce.Prelude.{
  ℕ, ◌≡◌, ◌≢◌, inl, inr, refl, sym, ◌∙◌, ap, true, Option, some, arith,
}
use totally_not_a_fork_of_ce.Prelude.Bytes.{Bytes}
use totally_not_a_fork_of_ce.Prelude.Outcome.{done, Returns, Outcome-cases, done_inj}
use totally_not_a_fork_of_ce.Types.Vote
use totally_not_a_fork_of_ce.Types.BlockId.{BlockId}
use totally_not_a_fork_of_ce.Types.Vote.{
  SignedMsgType, prevote, precommit, proposal, unknown, Vote, CanonicalVote, Crypto,
  canonicalize_vote, canonicalize_block_id,
}
use totally_not_a_fork_of_ce.Types.Proposal.{
  Proposal, CanonicalProposal, proposal_sign_bytes, canonicalize_proposal,
}
use totally_not_a_fork_of_ce.Privval.{
  Codec, vote_kind, proposal_kind, check_votes, check_proposals, step_propose, vote_to_step,
}
use totally_not_a_fork_of_ce.Privval.Signing.{IsLawful, move}

-- What the protobuf library documents: a message is decoded from its encoding, and Equal is
-- equality.
pub record IsFaithful (k : Crypto) (codec : Codec) : Type 0 where
  pub vote : (v : CanonicalVote) → codec.unmarshal_vote (k.marshal_delimited v) ≡ some v
  pub same_votes : (a b : CanonicalVote) → codec.equal_votes a b ≡ true → a ≡ b
  pub proposal :
      (p : CanonicalProposal) → codec.unmarshal_proposal (codec.marshal_proposal p) ≡ some p
  pub same_proposals : (a b : CanonicalProposal) → codec.equal_proposals a b ≡ true → a ≡ b

-- The sign bytes are those of a proposal or of a vote, as the step says.
pub record IsOwn (k : Crypto) (codec : Codec) (step : ℕ) (bz : Bytes) : Type 0 where
  pub of_proposal : step ≡ step_propose → (p : CanonicalProposal) × (bz ≡ codec.marshal_proposal p)
  pub of_vote : step ≢ step_propose → (v : CanonicalVote) × (bz ≡ k.marshal_delimited v)

vote_to_step-votes :
    (type : SignedMsgType) → Returns (λ step. step ≢ step_propose) (vote_to_step type)
unfolding vote_to_step
vote_to_step-votes prevote = λ e. omega (arith, e)
vote_to_step-votes precommit = λ e. omega (arith, e)
vote_to_step-votes proposal = tt
vote_to_step-votes unknown = tt

module _ (k : Crypto) (codec : Codec) (faithful : IsFaithful k codec) (chain_id : Bytes) where
  abbrev canonical : Vote → Option BlockId → ℕ → CanonicalVote
  canonical v b t = record {
    type = v.type;
    height = v.height;
    round = v.round;
    block_id = b;
    timestamp = t;
    chain_id = chain_id;
  }

  -- The sign bytes of a vote are there if its block ID has a canonical form.
  vote_bytes :
      (v : Vote) (bz : Bytes)
      → Vote.vote_sign_bytes k chain_id v ≡ done bz
      → (b : Option BlockId) × (canonicalize_block_id v.block_id ≡ done b)
        × (bz ≡ k.marshal_delimited (canonical v b v.timestamp))
  unfolding Vote.vote_sign_bytes canonicalize_vote
  vote_bytes v bz = elim (Outcome-cases (canonicalize_block_id v.block_id)) [
    | inl failed ↦ rw failed (λ e. ground arith)
    | inr (b, eb) ↦ rw eb (λ e. (b, refl, sym (done_inj e)))
  ]

  vote_bytes_at :
      (v : Vote) (b : Option BlockId) (t : ℕ)
      → canonicalize_block_id v.block_id ≡ done b
      → Vote.vote_sign_bytes k chain_id (record v { timestamp = t })
        ≡ done (k.marshal_delimited (canonical v b t))
  unfolding Vote.vote_sign_bytes canonicalize_vote
  vote_bytes_at v b t eb = rw eb refl

  abbrev vote_at : ℕ → CanonicalVote → CanonicalVote
  vote_at t c = record c { timestamp = t }

  vote_retime :
      (c last : CanonicalVote) (now t : ℕ)
      → check_votes codec now (k.marshal_delimited last) (k.marshal_delimited c) ≡ done (t, true)
      → record c { timestamp = t } ≡ last
  unfolding check_votes
  vote_retime c last now t =
      rw (faithful.vote last, faithful.vote c)
        (λ e.
          let same = faithful.same_votes _ _ (ap (λ q. q.1) (done_inj e)) in
          ap (vote_at t) same ∙ ap (λ u. vote_at u last) (sym (ap (λ q. q.0) (done_inj e))))

  vote_same_bytes :
      (v : Vote) (sig : Bytes)
      → Vote.vote_sign_bytes k chain_id (record v { signature = sig })
        ≡ Vote.vote_sign_bytes k chain_id v
  unfolding Vote.vote_sign_bytes canonicalize_vote
  vote_same_bytes v sig = refl

  pub vote-IsLawful : IsLawful (vote_kind k codec chain_id) (IsOwn k codec)
  vote-IsLawful = record {
    own = λ v step bz es eb. record {
      of_proposal =
          λ e. absurd (move (Returns (λ n. n ≢ step_propose)) es (vote_to_step-votes v.type) e);
      of_vote = λ _. let (b, _, e) = vote_bytes v bz eb in (_, e);
    };
    signature_keeps = λ v sig. (refl, refl, refl);
    time_keeps = λ v t. (refl, refl, refl);
    same_bytes = vote_same_bytes;
    holds_signature = λ v sig. refl;
    retime = λ v step bz last now t es eb o ec.
        let (b, e, ez) = vote_bytes v bz eb in
        let (w, ew) =
          o.of_vote (move (Returns (λ n. n ≢ step_propose)) es (vote_to_step-votes v.type)) in
        vote_bytes_at v b t e
        ∙ ap done (
            ap k.marshal_delimited (
              vote_retime (canonical v b v.timestamp) w now t (
                ap (λ x. check_votes codec now (k.marshal_delimited w) x) (sym ez)
                ∙ ap (λ x. check_votes codec now x bz) (sym ew)
                ∙ ec))
            ∙ sym ew);
  }

  abbrev canonical_proposal : Proposal → Option BlockId → ℕ → CanonicalProposal
  canonical_proposal p b t = record {
    type = proposal;
    height = p.height;
    round = p.round;
    pol_round = p.pol_round;
    block_id = b;
    timestamp = t;
    chain_id = chain_id;
  }

  -- The sign bytes of a proposal are there if its block ID has a canonical form.
  proposal_bytes :
      (p : Proposal) (bz : Bytes)
      → proposal_sign_bytes codec.marshal_proposal chain_id p ≡ done bz
      → (b : Option BlockId) × (canonicalize_block_id p.block_id ≡ done b)
        × (bz ≡ codec.marshal_proposal (canonical_proposal p b p.timestamp))
  unfolding proposal_sign_bytes canonicalize_proposal
  proposal_bytes p bz = elim (Outcome-cases (canonicalize_block_id p.block_id)) [
    | inl failed ↦ rw failed (λ e. ground arith)
    | inr (b, eb) ↦ rw eb (λ e. (b, refl, sym (done_inj e)))
  ]

  proposal_bytes_at :
      (p : Proposal) (b : Option BlockId) (t : ℕ)
      → canonicalize_block_id p.block_id ≡ done b
      → proposal_sign_bytes codec.marshal_proposal chain_id (record p { timestamp = t })
        ≡ done (codec.marshal_proposal (canonical_proposal p b t))
  unfolding proposal_sign_bytes canonicalize_proposal
  proposal_bytes_at p b t eb = rw eb refl

  abbrev proposal_at : ℕ → CanonicalProposal → CanonicalProposal
  proposal_at t c = record c { timestamp = t }

  proposal_retime :
      (c last : CanonicalProposal) (now t : ℕ)
      → check_proposals codec now (codec.marshal_proposal last) (codec.marshal_proposal c)
        ≡ done (t, true)
      → record c { timestamp = t } ≡ last
  unfolding check_proposals
  proposal_retime c last now t =
      rw (faithful.proposal last, faithful.proposal c)
        (λ e.
          let same = faithful.same_proposals _ _ (ap (λ q. q.1) (done_inj e)) in
          ap (proposal_at t) same ∙ ap (λ u. proposal_at u last) (sym (ap (λ q. q.0) (done_inj e))))

  proposal_same_bytes :
      (p : Proposal) (sig : Bytes)
      → proposal_sign_bytes codec.marshal_proposal chain_id (record p { signature = sig })
        ≡ proposal_sign_bytes codec.marshal_proposal chain_id p
  unfolding proposal_sign_bytes canonicalize_proposal
  proposal_same_bytes p sig = refl

  pub proposal-IsLawful : IsLawful (proposal_kind k codec chain_id) (IsOwn k codec)
  proposal-IsLawful = record {
    own = λ p step bz es eb. record {
      of_proposal = λ _. let (b, _, e) = proposal_bytes p bz eb in (_, e);
      of_vote = λ other. absurd (other (sym (done_inj es)));
    };
    signature_keeps = λ p sig. (refl, refl, refl);
    time_keeps = λ p t. (refl, refl, refl);
    same_bytes = proposal_same_bytes;
    holds_signature = λ p sig. refl;
    retime = λ p step bz last now t es eb o ec.
        let (b, e, ez) = proposal_bytes p bz eb in
        let (w, ew) = o.of_proposal (sym (done_inj es)) in
        proposal_bytes_at p b t e
        ∙ ap done (
            ap codec.marshal_proposal (
              proposal_retime (canonical_proposal p b p.timestamp) w now t (
                ap (λ x. check_proposals codec now (codec.marshal_proposal w) x) (sym ez)
                ∙ ap (λ x. check_proposals codec now x bz) (sym ew)
                ∙ ec))
            ∙ sym ew);
  }
