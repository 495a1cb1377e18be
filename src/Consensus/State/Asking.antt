-- ===== src/Consensus/State/Asking.antt =====
-- signAddVote: what it asks for, and of whom.
use totally_not_a_fork_of_ce.Prelude.{
  ◌≡◌, refl, true, false, none, some, ◌⊎◌, inl, inr, Bool-cases, ◌∷◌, Option-cases,
}
use totally_not_a_fork_of_ce.Types.BlockId.{BlockId}
use totally_not_a_fork_of_ce.Prelude.Bytes.{Bytes}
use totally_not_a_fork_of_ce.Types.Vote.{SignedMsgType}
use totally_not_a_fork_of_ce.Consensus.State.{Env, State, sign_add_vote, vote, has_address}

module _ {e : Env} where
  -- The node is a validator whose key is known.
  abbrev pub IsValidator : State e → Type 0
  IsValidator cs =
      (address : Bytes) × (e.address ≡ some address)
      × (has_address cs.validators.validators address ≡ true)

  -- A validator asks for one vote more, and another node for none.
  abbrev pub Asks : State e → SignedMsgType → BlockId → State e → Type 0
  Asks cs t b cs' =
      (IsValidator cs × (cs'.sent ≡ vote t cs.height cs.round b ∷ cs.sent))
      ⊎ ((¬ IsValidator cs) × (cs'.sent ≡ cs.sent))

  sign_add_vote_asked :
      (cs : State e) (t : SignedMsgType) (b : BlockId) (address : Bytes)
      → e.address ≡ some address
      → has_address cs.validators.validators address ≡ true
      → (sign_add_vote cs t b).sent ≡ vote t cs.height cs.round b ∷ cs.sent
  unfolding sign_add_vote
  sign_add_vote_asked cs t b address known member = rw (sign_add_vote, known, member) refl

  sign_add_vote_unset :
      (cs : State e) (t : SignedMsgType) (b : BlockId)
      → e.address ≡ none
      → (sign_add_vote cs t b).sent ≡ cs.sent
  unfolding sign_add_vote
  sign_add_vote_unset cs t b unset = rw (sign_add_vote, unset) refl

  sign_add_vote_idle :
      (cs : State e) (t : SignedMsgType) (b : BlockId) (address : Bytes)
      → e.address ≡ some address
      → has_address cs.validators.validators address ≡ false
      → (sign_add_vote cs t b).sent ≡ cs.sent
  unfolding sign_add_vote
  sign_add_vote_idle cs t b address known other = rw (sign_add_vote, known, other) refl

  other_address :
      (cs : State e) (address address' : Bytes)
      → e.address ≡ some address
      → has_address cs.validators.validators address ≡ false
      → e.address ≡ some address'
      → ¬ (has_address cs.validators.validators address' ≡ true)
  other_address cs address address' known other known' member =
      let same : address ≡ address' = cc (known, known') in cc (same, other, member)

  pub sign_add_vote-Asks :
      (cs : State e) (t : SignedMsgType) (b : BlockId) → Asks cs t b (sign_add_vote cs t b)
  sign_add_vote-Asks cs t b = elim (Option-cases e.address) [
    | inl unset ↦
        inr ((λ (address, known, member). cc (unset, known)), sign_add_vote_unset cs t b unset)
    | inr (address, known) ↦ elim (Bool-cases (has_address cs.validators.validators address)) [
      | inl member ↦ inl ((address, known, member), sign_add_vote_asked cs t b address known member)
      | inr other ↦ inr (
        (λ (address', known', member). other_address cs address address' known other known' member),
        sign_add_vote_idle cs t b address known other,
      )
    ]
  ]
