-- ===== src/Privval/Signing.antt =====
-- privval/file.go: what one call of signVote or signProposal does.
use totally_not_a_fork_of_ce.Prelude.{
  ℕ, ◌≡◌, ◌⊎◌, inl, inr, refl, sym, ◌∙◌, ap, ◌<◌, Bool, true, false, Option, none, some, ltb, ◌==◌,
  ==_iff, arith, Bool-cases,
}
use totally_not_a_fork_of_ce.Prelude.Bytes.{Bytes, bytes_equal, bytes_equal_iff}
use totally_not_a_fork_of_ce.Prelude.Int.{ℤ, ltb_ℤ, ◌==ℤ◌, ==ℤ_iff, ◌<ℤ◌}
use totally_not_a_fork_of_ce.Prelude.Outcome.{done, Returns, Returns-bind}
use totally_not_a_fork_of_ce.Privval.{
  LastSignState, FilePv, Refusal, Checked, same, fresh, regression, check_bytes, check_hrs, Kind,
  Signed, save_signed, retimed, sign_again, sign_new, sign_checked, sign_message, conflicting_data,
}

-- An earlier height, round and step, in lexicographic order.
abbrev pub Before : LastSignState → LastSignState → Type 0
Before a b =
    (a.height <ℤ b.height)
    ⊎ ((a.height ≡ b.height) × ((a.round <ℤ b.round) ⊎ ((a.round ≡ b.round) × (a.step < b.step))))

-- The same height, round and step.
abbrev pub At : LastSignState → ℤ → ℤ → ℕ → Type 0
At a height round step = (a.height ≡ height) × (a.round ≡ round) × (a.step ≡ step)

-- The state moved on, or is as it was.
abbrev pub Advances : LastSignState → LastSignState → Type 0
Advances a b = (b ≡ a) ⊎ Before a b

Before-trans : (a b c : LastSignState) → Before a b → Before b c → Before a c
Before-trans a b c f g = ground arith

pub not-Before :
    (a b : LastSignState) → a.height ≡ b.height → a.round ≡ b.round → a.step ≡ b.step → ¬ Before a b
not-Before a b h r s f = ground arith

pub Advances-trans : (a b c : LastSignState) → Advances a b → Advances b c → Advances a c
Advances-trans a b c (inl e) (inl e') = inl (e' ∙ e)
Advances-trans a b c (inl e) (inr g) = inr (rw (sym e) g)
Advances-trans a b c (inr f) (inl e) = inr (rw e f)
Advances-trans a b c (inr f) (inr g) = inr (Before-trans a b c f g)

abbrev at : LastSignState → ℤ → ℤ → ℕ → LastSignState
at lss height round step = record lss { height = height; round = round; step = step }

-- What CheckHRS tells.
abbrev Tells : LastSignState → ℤ → ℤ → ℕ → Checked → Type 0
Tells lss height round step (regression e) = Unit
Tells lss height round step same = At lss height round step
Tells lss height round step fresh = Before lss (at lss height round step)

less_ℤ : (a b : ℤ) → ltb_ℤ b a ≡ false → (a ==ℤ b) ≡ false → a <ℤ b
less_ℤ a b h e = ground arith

check_bytes-Tells :
    (lss : LastSignState) (height round : ℤ) (step : ℕ) (bz sig : Option Bytes)
    → At lss height round step
    → Returns (Tells lss height round step) (check_bytes bz sig)
check_bytes-Tells lss height round step none sig h = tt
check_bytes-Tells lss height round step (some bz) none h = tt
check_bytes-Tells lss height round step (some bz) (some sig) h = h

check_hrs-Tells :
    (lss : LastSignState) (height round : ℤ) (step : ℕ)
    → Returns (Tells lss height round step) (check_hrs lss height round step)
unfolding check_hrs
check_hrs-Tells lss height round step = elim (Bool-cases (ltb_ℤ height lss.height)) [
  | inl back ↦ rw back tt
  | inr ahead ↦ rw ahead (elim (Bool-cases (lss.height ==ℤ height)) [
    | inr other ↦ rw other (inl (less_ℤ lss.height height ahead other))
    | inl here ↦ rw here (elim (Bool-cases (ltb_ℤ round lss.round)) [
      | inl back ↦ rw back tt
      | inr ahead' ↦ rw ahead' (elim (Bool-cases (lss.round ==ℤ round)) [
        | inr other ↦
            rw other
              (inr ((==ℤ_iff lss.height height).0 here, inl (less_ℤ lss.round round ahead' other)))
        | inl here' ↦ rw here' (elim (Bool-cases (ltb step lss.step)) [
          | inl back ↦ rw back tt
          | inr ahead'' ↦ rw ahead'' (elim (Bool-cases (lss.step == step)) [
            | inl here'' ↦ rw here'' (
                check_bytes-Tells lss height round step lss.sign_bytes lss.signature (
                  (==ℤ_iff lss.height height).0 here,
                  (==ℤ_iff lss.round round).0 here',
                  (==_iff lss.step step).0 here'',
                ))
            | inr other ↦ rw other (
                inr (
                  (==ℤ_iff lss.height height).0 here,
                  inr ((==ℤ_iff lss.round round).0 here', ground arith),
                ))
          ])
        ])
      ])
    ])
  ])
]

pub move : {A : Type 0} (P : A → Type 0) {a b : A} → a ≡ b → P a → P b
move P e x = rw (sym e) x

-- The message is the one that the state says was signed last, with its signature.
pub record Matches {M : Type 0} (kind : Kind M) (m : M) (lss : LastSignState) : Type 0 where
  pub height : lss.height ≡ kind.height m
  pub round : lss.round ≡ kind.round m
  pub step : kind.step m ≡ done lss.step
  pub sign_bytes : Bytes
  pub stored : lss.sign_bytes ≡ some sign_bytes
  pub signed : kind.bytes m ≡ done sign_bytes
  pub signature : lss.signature ≡ some (kind.signature m)

abbrev pub SamePlace : {M : Type 0} → Kind M → M → M → Type 0
SamePlace kind a b =
    (kind.height a ≡ kind.height b) × (kind.round a ≡ kind.round b) × (kind.step a ≡ kind.step b)

SamePlace-trans :
    {M : Type 0} (kind : Kind M) (a b c : M)
    → SamePlace kind a b
    → SamePlace kind b c
    → SamePlace kind a c
SamePlace-trans kind a b c (h, r, s) (h', r', s') = (h ∙ h', r ∙ r', s ∙ s')

abbrev pub or_bytes : Bytes → Option Bytes → Bytes
or_bytes d none = d
or_bytes d (some bz) = bz

-- What a kind of messages satisfies; `Own step bz` holds of the sign bytes of messages of a step.
pub record IsLawful {M : Type 0} (kind : Kind M) (Own : ℕ → Bytes → Type 0) : Type 0 where
  pub own :
      (m : M) (step : ℕ) (bz : Bytes)
      → kind.step m ≡ done step
      → kind.bytes m ≡ done bz
      → Own step bz
  pub signature_keeps : (m : M) (sig : Bytes) → SamePlace kind (kind.set_signature m sig) m
  pub time_keeps : (m : M) (t : ℕ) → SamePlace kind (kind.set_time m t) m
  pub same_bytes : (m : M) (sig : Bytes) → kind.bytes (kind.set_signature m sig) ≡ kind.bytes m
  pub holds_signature : (m : M) (sig : Bytes) → kind.signature (kind.set_signature m sig) ≡ sig
  pub retime :
      (m : M) (step : ℕ) (bz last : Bytes) (now t : ℕ)
      → kind.step m ≡ done step
      → kind.bytes m ≡ done bz
      → Own step last
      → kind.compare now last bz ≡ done (t, true)
      → kind.bytes (kind.set_time m t) ≡ done last

-- The file holds the state, and sign bytes are those of a message of the step, with a signature.
pub record IsValid (Own : ℕ → Bytes → Type 0) (pv : FilePv) : Type 0 where
  pub persisted : pv.disk ≡ pv.last
  pub own : (bz : Bytes) → pv.last.sign_bytes ≡ some bz → Own pv.last.step bz

-- A call keeps the invariant and never goes back; without an error the message is the one the
-- state says was signed last; with an error nothing has changed.
pub record IsSigned {M : Type 0} (kind : Kind M) (Own : ℕ → Bytes → Type 0) (pv : FilePv) (m : M)
    (r : Signed M) : Type 0 where
  pub valid : IsValid Own r.pv
  pub advances : Advances pv.last r.pv.last
  pub matches : r.error ≡ none → Matches kind r.message r.pv.last
  pub refused : (e : Refusal) → r.error ≡ some e → (r.pv ≡ pv) × (r.message ≡ m)

module _ {M : Type 0} (kind : Kind M) (sign : Bytes → Option Bytes) (Own : ℕ → Bytes → Type 0)
    (law : IsLawful kind Own) (pv : FilePv) (v : IsValid Own pv) (m : M) (step : ℕ)
    (es : kind.step m ≡ done step) where
  refuse_lem :
      (e : Refusal) → IsSigned kind Own pv m (record { pv = pv; message = m; error = some e })
  refuse_lem e = record {
    valid = v;
    advances = inl refl;
    matches = λ h. ground arith;
    refused = λ e' h. (refl, refl);
  }

  -- The message is signed again, with the stored signature.
  again_done :
      {last sig : Bytes} (at : At pv.last (kind.height m) (kind.round m) step)
      → pv.last.sign_bytes ≡ some last
      → pv.last.signature ≡ some sig
      → (m' : M) → SamePlace kind m' m
      → kind.bytes m' ≡ done last
      → kind.signature m' ≡ sig
      → IsSigned kind Own pv m (record { pv = pv; message = m'; error = none })
  again_done at e e' m' (h, r, s) eb es' = record {
    valid = v;
    advances = inl refl;
    matches = λ _. record {
      height = at.0 ∙ sym h;
      round = at.1 ∙ sym r;
      step = s ∙ es ∙ ap done (sym at.2);
      sign_bytes = _;
      stored = e;
      signed = eb;
      signature = e' ∙ ap some (sym es');
    };
    refused = λ _ h. ground arith;
  }

  retimed_lem :
      (at : At pv.last (kind.height m) (kind.round m) step) (now : ℕ) (bz : Bytes)
      (eb : kind.bytes m ≡ done bz) (last sig : Bytes)
      → pv.last.sign_bytes ≡ some last
      → pv.last.signature ≡ some sig
      → (t : ℕ) (ok : Bool) → kind.compare now last bz ≡ done (t, ok)
      → Returns (IsSigned kind Own pv m) (retimed kind sign pv m sig (t, ok))
  unfolding retimed
  retimed_lem at now bz eb last sig e e' t false ec = refuse_lem conflicting_data
  retimed_lem at now bz eb last sig e e' t true ec =
      again_done at e e' (kind.set_signature (kind.set_time m t) sig)
        (SamePlace-trans kind _ _ _ (law.signature_keeps (kind.set_time m t) sig)
          (law.time_keeps m t))
        (law.same_bytes (kind.set_time m t) sig
          ∙ law.retime m step bz last now t es eb (move (λ n. Own n last) at.2 (v.own last e)) ec)
        (law.holds_signature (kind.set_time m t) sig)

  again_lem :
      (at : At pv.last (kind.height m) (kind.round m) step) (now : ℕ) (bz : Bytes)
      (eb : kind.bytes m ≡ done bz) (last sig : Option Bytes)
      → pv.last.sign_bytes ≡ last
      → pv.last.signature ≡ sig
      → Returns (IsSigned kind Own pv m) (sign_again kind sign pv m now bz last sig)
  unfolding sign_again
  again_lem at now bz eb none sig e e' = tt
  again_lem at now bz eb (some last) none e e' = tt
  again_lem at now bz eb (some last) (some sig) e e' = elim (Bool-cases (bytes_equal bz last)) [
    | inl equal ↦ rw equal (
        again_done at e e' (kind.set_signature m sig) (law.signature_keeps m sig)
          (law.same_bytes m sig ∙ eb ∙ ap done ((bytes_equal_iff bz last).0 equal))
          (law.holds_signature m sig))
    | inr other ↦ rw other (
        Returns-bind _ (kind.compare now last bz) _
          λ (t, ok) ec. retimed_lem at now bz eb last sig e e' t ok ec)
  ]

  new_lem :
      (writes : Bool) (bz : Bytes) (eb : kind.bytes m ≡ done bz) (sig : Option Bytes)
      → Before pv.last (at pv.last (kind.height m) (kind.round m) step)
      → Returns (IsSigned kind Own pv m) (sign_new kind sign pv writes m step bz sig)
  unfolding sign_new save_signed
  new_lem writes bz eb none b = refuse_lem _
  new_lem false bz eb (some sig) b = tt
  new_lem true bz eb (some sig) b = record {
    valid = record {
      persisted = refl;
      own = λ bz' h. move (λ o. Own step (or_bytes bz o)) h (law.own m step bz es eb);
    };
    advances = inr b;
    matches = λ _. record {
      height = sym (law.signature_keeps m sig).0;
      round = sym (law.signature_keeps m sig).1;
      step = (law.signature_keeps m sig).2 ∙ es;
      sign_bytes = bz;
      stored = refl;
      signed = law.same_bytes m sig ∙ eb;
      signature = ap some (sym (law.holds_signature m sig));
    };
    refused = λ _ h. ground arith;
  }

  sign_checked_lem :
      (writes : Bool) (now : ℕ) (c : Checked)
      → Tells pv.last (kind.height m) (kind.round m) step c
      → Returns (IsSigned kind Own pv m) (sign_checked kind sign pv writes now m step c)
  unfolding sign_checked
  sign_checked_lem writes now (regression e) h = refuse_lem e
  sign_checked_lem writes now same h =
      Returns-bind _ (kind.bytes m) _
        λ bz eb. again_lem h now bz eb pv.last.sign_bytes pv.last.signature refl refl
  sign_checked_lem writes now fresh h =
      Returns-bind _ (kind.bytes m) _ λ bz eb. new_lem writes bz eb (sign bz) h

-- A call of signVote or signProposal on a valid state that returns does what `IsSigned` says.
pub sign_message-IsSigned :
    {M : Type 0} (kind : Kind M) (sign : Bytes → Option Bytes) (Own : ℕ → Bytes → Type 0)
    → IsLawful kind Own
    → (pv : FilePv) → IsValid Own pv
    → (writes : Bool) (now : ℕ) (m : M)
    → Returns (IsSigned kind Own pv m) (sign_message kind sign pv writes now m)
unfolding sign_message
sign_message-IsSigned kind sign Own law pv v writes now m =
    Returns-bind _ (kind.step m) _ λ step es.
      Returns-bind _ (check_hrs pv.last (kind.height m) (kind.round m) step) _ λ c ec.
        sign_checked_lem kind sign Own law pv v m step es writes now c (
          move (Returns (Tells pv.last (kind.height m) (kind.round m) step)) ec
            (check_hrs-Tells pv.last (kind.height m) (kind.round m) step))
