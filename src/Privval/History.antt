-- ===== src/Privval/History.antt =====
-- privval/file.go: a validator signs no two different messages for one height, round and step, over
-- any sequence of calls, failed writes and restarts from the file.
use totally_not_a_fork_of_ce.Prelude.{
  ℕ, zero, suc, ◌≡◌, inl, inr, refl, sym, ◌∙◌, ap, List, [], ◌∷◌, Bool, Option, none, some,
  get_elem?, arith,
}
use totally_not_a_fork_of_ce.Prelude.Bytes.{Bytes}
use totally_not_a_fork_of_ce.Prelude.Int.{ℤ}
use totally_not_a_fork_of_ce.Prelude.Outcome.{Outcome, done, panic, Returns, done_inj}
use totally_not_a_fork_of_ce.Types.Vote
use totally_not_a_fork_of_ce.Types.Vote.{Vote, Crypto}
use totally_not_a_fork_of_ce.Types.Proposal.{Proposal, proposal_sign_bytes}
use totally_not_a_fork_of_ce.Privval.{
  Refusal, Codec, FilePv, Kind, LastSignState, Signed, vote_kind, proposal_kind, sign_vote,
  sign_proposal, vote_to_step, step_propose,
}
use totally_not_a_fork_of_ce.Privval.Signing.{
  IsSigned, IsValid, Matches, Advances, sign_message-IsSigned, move, Advances-trans, not-Before,
  or_bytes,
}
use totally_not_a_fork_of_ce.Privval.Kinds.{IsFaithful, IsOwn, vote-IsLawful, proposal-IsLawful}

-- What the owner of the key does: it asks for a signature, with what the key answers, whether the
-- file can be written and the time; or it starts again from the file.
pub data Event : Type 0 where
  sign_a_vote : (Bytes → Option Bytes) → Bool → ℕ → Vote → Event
  sign_a_proposal : (Bytes → Option Bytes) → Bool → ℕ → Proposal → Event
  restart : Event

-- A message with the signature that a call put on it.
pub data Message : Type 0 where
  voted : Vote → Message
  proposed : Proposal → Message

abbrev pub height_of : Message → ℤ
height_of (voted v) = v.height
height_of (proposed p) = p.height

abbrev pub round_of : Message → ℤ
round_of (voted v) = v.round
round_of (proposed p) = p.round

-- `panic` for a vote of no known type.
unfoldable pub step_of : Message → Outcome ℕ
step_of (voted v) = vote_to_step v.type
step_of (proposed p) = done step_propose

abbrev pub signature_of : Message → Bytes
signature_of (voted v) = v.signature
signature_of (proposed p) = p.signature

-- The same height, round and step.
abbrev pub SameStep : Message → Message → Type 0
SameStep a b = (height_of a ≡ height_of b) × (round_of a ≡ round_of b) × (step_of a ≡ step_of b)

abbrev after : {M : Type 0} → (M → Message) → FilePv → Outcome (Signed M) → FilePv × Option Message
after wrap pv (done r) = (r.pv, elim r.error [ none ↦ some (wrap r.message) | some e ↦ none ])
after wrap pv panic = (record pv { last = pv.disk }, none)

abbrev or_message : Message → Option Message → Message
or_message d none = d
or_message d (some m) = m

abbrev cons_some : Option Message → List Message → List Message
cons_some none ms = ms
cons_some (some m) ms = m ∷ ms

module _ (k : Crypto) (codec : Codec) (chain_id : Bytes) where
  -- The bytes that the signature of a message is of.
  unfoldable pub bytes_of : Message → Outcome Bytes
  bytes_of (voted v) = Vote.vote_sign_bytes k chain_id v
  bytes_of (proposed p) = proposal_sign_bytes codec.marshal_proposal chain_id p

  -- The next state and the message that leaves the validator with a signature. After a panic the
  -- process starts again from the file.
  unfoldable pub handle : FilePv → Event → FilePv × Option Message
  handle pv (sign_a_vote sign writes now v) =
      after voted pv (sign_vote k codec chain_id sign pv writes now v)
  handle pv (sign_a_proposal sign writes now p) =
      after proposed pv (sign_proposal k codec chain_id sign pv writes now p)
  handle pv restart = (record pv { last = pv.disk }, none)

  -- The messages that leave, in order.
  unfoldable pub released : FilePv → List Event → List Message
  released pv [] = []
  released pv (e ∷ es) = cons_some (handle pv e).1 (released (handle pv e).0 es)

  -- The message is the last one signed.
  record IsLast (m : Message) (lss : LastSignState) : Type 0 where
    height : lss.height ≡ height_of m
    round : lss.round ≡ round_of m
    step : step_of m ≡ done lss.step
    sign_bytes : Bytes
    stored : lss.sign_bytes ≡ some sign_bytes
    signed : bytes_of m ≡ done sign_bytes
    signature : lss.signature ≡ some (signature_of m)

  record IsHandled (pv pv' : FilePv) (m : Option Message) : Type 0 where
    valid : IsValid (IsOwn k codec) pv'
    advances : Advances pv.last pv'.last
    last : (x : Message) → m ≡ some x → IsLast x pv'.last

  restart_lem :
      (pv : FilePv) → IsValid (IsOwn k codec) pv → IsHandled pv (record pv { last = pv.disk }) none
  restart_lem pv v = record {
    valid = record {
      persisted = refl;
      own = λ bz.
          move (λ l. l.sign_bytes ≡ some bz → IsOwn k codec l.step bz) (sym v.persisted) (v.own bz);
    };
    advances = inl v.persisted;
    last = λ x h. ground arith;
  }

  kept_lem :
      (m : Message) (e : Option Refusal) (lss : LastSignState)
      → (e ≡ none → IsLast m lss)
      → (x : Message) → (elim e [ none ↦ some m | some e ↦ none ]) ≡ some x
      → IsLast x lss
  kept_lem m none lss h x e = move (λ y. IsLast (or_message m y) lss) e (h refl)
  kept_lem m (some e) lss h x e' = ground arith

  after_lem :
      {M : Type 0} (kind : Kind M) (wrap : M → Message)
      → ((m : M) (lss : LastSignState) → Matches kind m lss → IsLast (wrap m) lss)
      → (pv : FilePv) → IsValid (IsOwn k codec) pv
      → (m : M) (o : Outcome (Signed M)) → Returns (IsSigned kind (IsOwn k codec) pv m) o
      → IsHandled pv (after wrap pv o).0 (after wrap pv o).1
  after_lem kind wrap h pv v m panic s = restart_lem pv v
  after_lem kind wrap h pv v m (done r) s = record {
    valid = s.valid;
    advances = s.advances;
    last = kept_lem (wrap r.message) r.error r.pv.last (λ e. h r.message r.pv.last (s.matches e));
  }

  module _ (faithful : IsFaithful k codec) where
    handle_lem :
        (pv : FilePv)
        → IsValid (IsOwn k codec) pv
        → (e : Event) → IsHandled pv (handle pv e).0 (handle pv e).1
    unfolding handle sign_vote sign_proposal step_of bytes_of
    handle_lem pv v (sign_a_vote sign writes now m) =
        after_lem (vote_kind k codec chain_id) voted
          (λ m lss h. record {
            height = h.height;
            round = h.round;
            step = h.step;
            sign_bytes = h.sign_bytes;
            stored = h.stored;
            signed = h.signed;
            signature = h.signature;
          })
          pv v m _
          (sign_message-IsSigned (vote_kind k codec chain_id) sign (IsOwn k codec)
            (vote-IsLawful k codec faithful chain_id) pv v writes now m)
    handle_lem pv v (sign_a_proposal sign writes now m) =
        after_lem (proposal_kind k codec chain_id) proposed
          (λ m lss h. record {
            height = h.height;
            round = h.round;
            step = h.step;
            sign_bytes = h.sign_bytes;
            stored = h.stored;
            signed = h.signed;
            signature = h.signature;
          })
          pv v m _
          (sign_message-IsSigned (proposal_kind k codec chain_id) sign (IsOwn k codec)
            (proposal-IsLawful k codec faithful chain_id) pv v writes now m)
    handle_lem pv v restart = restart_lem pv v

  -- A message that was the last one signed at a state after `lss`.
  abbrev After : LastSignState → Message → Type 0
  After lss b = (lss' : LastSignState) × Advances lss lss' × IsLast b lss'

  -- Each message that leaves later was signed at a later state, or at the same.
  later_cons :
      (pv pv' : FilePv) (m : Option Message) (ms : List Message)
      → IsHandled pv pv' m
      → ((j : ℕ) (b : Message) → get_elem? ms j ≡ some b → After pv'.last b)
      → (j : ℕ) (b : Message) → get_elem? (cons_some m ms) j ≡ some b
      → After pv.last b
  later_cons pv pv' none ms t h j b e =
      let (lss, a, l) = h j b e in (lss, Advances-trans _ _ _ t.advances a, l)
  later_cons pv pv' (some m) ms t h zero b e =
      (pv'.last, t.advances, move (λ y. IsLast (or_message m y) pv'.last) e (t.last m refl))
  later_cons pv pv' (some m) ms t h (suc j) b e =
      let (lss, a, l) = h j b e in (lss, Advances-trans _ _ _ t.advances a, l)

  -- Signed for the same bytes, with the same signature.
  abbrev SameSigned : Message → Message → Type 0
  SameSigned a b = (bytes_of a ≡ bytes_of b) × (signature_of a ≡ signature_of b)

  same_signed :
      (a b : Message) (lss lss' : LastSignState)
      → IsLast a lss
      → Advances lss lss'
      → IsLast b lss'
      → SameStep a b
      → SameSigned a b
  same_signed a b lss lss' p (inr before) q s = absurd (
      not-Before lss lss' (p.height ∙ s.0 ∙ sym q.height) (p.round ∙ s.1 ∙ sym q.round)
        (done_inj (sym p.step ∙ s.2 ∙ q.step)) before)
  same_signed a b lss lss' p (inl e) q s = (
    p.signed
        ∙ ap done
            (ap (or_bytes p.sign_bytes) (sym p.stored ∙ ap (λ l. l.sign_bytes) (sym e) ∙ q.stored))
        ∙ sym q.signed,
    ap (or_bytes (signature_of a)) (sym p.signature ∙ ap (λ l. l.signature) (sym e) ∙ q.signature),
  )

  pairs_cons :
      (pv pv' : FilePv) (m : Option Message) (ms : List Message)
      → IsHandled pv pv' m
      → ((j : ℕ) (b : Message) → get_elem? ms j ≡ some b → After pv'.last b)
      → ((i j : ℕ) (a b : Message)
          → get_elem? ms i ≡ some a
          → get_elem? ms j ≡ some b
          → SameStep a b
          → SameSigned a b)
      → (i j : ℕ) (a b : Message) → get_elem? (cons_some m ms) i ≡ some a
      → get_elem? (cons_some m ms) j ≡ some b
      → SameStep a b
      → SameSigned a b
  pairs_cons pv pv' none ms t h r i j a b e e' s = r i j a b e e' s
  pairs_cons pv pv' (some m) ms t h r zero zero a b e e' s = (
    ap bytes_of (ap (or_message m) (sym e ∙ e')),
    ap signature_of (ap (or_message m) (sym e ∙ e')),
  )
  pairs_cons pv pv' (some m) ms t h r zero (suc j) a b e e' s =
      let (lss, adv, l) = h j b e' in
      same_signed a b pv'.last lss (move (λ y. IsLast (or_message m y) pv'.last) e (t.last m refl))
        adv l s
  pairs_cons pv pv' (some m) ms t h r (suc i) zero a b e e' (x, y, z) =
      let (lss, adv, l) = h i a e in
      let (p, q) =
        same_signed b a pv'.last lss
          (move (λ y. IsLast (or_message m y) pv'.last) e' (t.last m refl)) adv l
          (sym x, sym y, sym z) in
      (sym p, sym q)
  pairs_cons pv pv' (some m) ms t h r (suc i) (suc j) a b e e' s = r i j a b e e' s

  module _ (faithful : IsFaithful k codec) where
    later_lem :
        (pv : FilePv)
        → IsValid (IsOwn k codec) pv
        → (es : List Event) (j : ℕ) (b : Message) → get_elem? (released pv es) j ≡ some b
        → After pv.last b
    unfolding released
    later_lem pv v [] j b h = ground arith
    later_lem pv v (e ∷ es) j b h =
        let t = handle_lem faithful pv v e in
        later_cons pv (handle pv e).0 (handle pv e).1 (released (handle pv e).0 es) t
          (later_lem (handle pv e).0 t.valid es) j b h

    -- Two messages that leave a private validator with a valid state for the same height, round
    -- and step, at any two points of a history of requests, failed writes and restarts, are signed
    -- for the same bytes and have the same signature, if the encoding is decoded as documented.
    pub no_double_signing :
        (pv : FilePv)
        → IsValid (IsOwn k codec) pv
        → (es : List Event) (i j : ℕ) (a b : Message) → get_elem? (released pv es) i ≡ some a
        → get_elem? (released pv es) j ≡ some b
        → SameStep a b
        → (bytes_of a ≡ bytes_of b) × (signature_of a ≡ signature_of b)
    unfolding released
    no_double_signing pv v [] i j a b e e' s = ground arith
    no_double_signing pv v (ev ∷ es) i j a b e e' s =
        let t = handle_lem faithful pv v ev in
        pairs_cons pv (handle pv ev).0 (handle pv ev).1 (released (handle pv ev).0 es) t
          (later_lem (handle pv ev).0 t.valid es) (no_double_signing (handle pv ev).0 t.valid es) i
          j a b e e' s
