-- ===== src/Types/Validation/Faithful.antt =====
-- crypto/crypto.go (BatchVerifier): what its interface says, and what a verdict accepts.
use totally_not_a_fork_of_ce.Prelude.{
  ℕ, ◌≡◌, refl, sym, ◌∙◌, Bool, true, false, List, [], ◌∷◌, ◌++◌, map, none, some, not, ◌&&◌,
  if◌then◌else◌, arith,
}
use mathlib.Core.List.{Memᴰ}
use totally_not_a_fork_of_ce.Prelude.Bytes.{Bytes}
use totally_not_a_fork_of_ce.Prelude.Outcome.{done, panic}
use totally_not_a_fork_of_ce.Types.ValidatorSet.{ValidatorSet, Validator}
use totally_not_a_fork_of_ce.Types.Vote.{Crypto}
use totally_not_a_fork_of_ce.Types.Validation.{Error, Verdict, Mode, Batch, Entry, enough, short_of}

abbrev pub accepted : Verdict → Bool
accepted (done none) = true
accepted (done (some e)) = false
accepted panic = false

pub accepted_iff : (v : Verdict) → accepted v ≡ true → v ≡ done none
accepted_iff (done none) h = refl
accepted_iff (done (some e)) h = ground arith
accepted_iff panic h = ground arith

abbrev pub entry_valid : Crypto → Entry → Bool
entry_valid k (key, message, signature) = k.verify_signature key message signature

abbrev pub all_entries_valid : Crypto → List Entry → Bool
all_entries_valid k [] = true
all_entries_valid k (e ∷ es) = entry_valid k e && all_entries_valid k es

-- The documented behaviour of a BatchVerifier: Verify returns whether every entry is valid, with the
-- validity of each in order. What it returns of entries that Add refuses is never asked for, and of
-- no entries nothing is said.
pub record IsFaithful (k : Crypto) (b : Batch) : Type 0 where
  pub verified :
      (key : Bytes) (e : Entry) (es : List Entry)
      → b.verify key (e ∷ es) ≡ (all_entries_valid k (e ∷ es), map (entry_valid k) (e ∷ es))

-- The verifier that is created for the key refuses no valid signature of a validator of the set. The
-- verifiers of the repository refuse all keys of another type than the one they are created for.
abbrev pub AddsAll : Crypto → Batch → Bytes → ValidatorSet → Type 0
AddsAll k b key vals =
    (val : Validator)
    → Memᴰ val vals.validators
    → (message sig : Bytes) → b.accepts key (val.pub_key, message, sig) ≡ false
    → k.verify_signature val.pub_key message sig ≡ false

-- What is accepted one way is accepted the other way, and conversely under a condition.
abbrev pub Agree : Type 0 → Bool → Bool → Type 0
Agree C x y = (x ≡ true → y ≡ true) × (C → y ≡ true → x ≡ true)

pub Agree-eq : (C : Type 0) (x y : Bool) → x ≡ y → Agree C x y
Agree-eq C x y e = ((λ h. sym e ∙ h), (λ c h. e ∙ h))

pub and-false : (a : Bool) → a && false ≡ false
and-false true = refl
and-false false = refl

pub and-true : (a : Bool) → a && true ≡ a
and-true true = refl
and-true false = refl

and_assoc : (a b c : Bool) → (a && b) && c ≡ a && (b && c)
and_assoc true b c = refl
and_assoc false b c = refl

pub all_entries_valid-snoc :
    (k : Crypto) (es : List Entry) (e : Entry)
    → all_entries_valid k (es ++ e ∷ []) ≡ all_entries_valid k es && entry_valid k e
all_entries_valid-snoc k [] (x, y, z) = ground arith
all_entries_valid-snoc k ((x, y, z) ∷ es) e =
    rw (all_entries_valid-snoc k es e)
      (sym (and_assoc (k.verify_signature x y z) (all_entries_valid k es) (entry_valid k e)))

pub batch_answer :
    (ok : Bool) (e : Error) → accepted (if ok then done none else done (some e)) ≡ ok && true
batch_answer true e = refl
batch_answer false e = refl

pub not_short :
    (short : Bool) (e : Error) → not short ≡ accepted (done (if short then some e else none))
not_short true e = refl
not_short false e = refl

pub enough-short_of : (m : Mode) (t : ℕ) → enough m t ≡ true → short_of m t ≡ false
unfolding enough short_of
enough-short_of m t h = ground arith

-- The two bodies after the sign bytes, on the outcomes of their tests.
pub same_body :
    (C : Type 0) (accepts valid enough earlier : Bool) (at_end go_on go_on' : Verdict)
    (e e' : Error)
    → (C → accepts ≡ false → valid ≡ false)
    → (enough ≡ true → accepted at_end ≡ earlier && valid)
    → Agree C (accepted go_on) ((earlier && valid) && accepted go_on')
    → Agree C (accepted (if not accepts then done (some e) else if enough then at_end else go_on)) (
        earlier
        && accepted (if not valid then done (some e') else if enough then done none else go_on'))
same_body C false true enough earlier at_end go_on go_on' e e' refuse stop more =
    ((λ h. ground (arith, h)), (λ c h. ground (arith, refuse c refl)))
same_body C false false enough earlier at_end go_on go_on' e e' refuse stop more =
    ((λ h. ground (arith, h)), (λ c h. ground (arith, h)))
same_body C true true true earlier at_end go_on go_on' e e' refuse stop more =
    Agree-eq C _ _ (stop refl)
same_body C true false true earlier at_end go_on go_on' e e' refuse stop more =
    Agree-eq C _ _ (stop refl)
same_body C true true false true at_end go_on go_on' e e' refuse stop more = more
same_body C true true false false at_end go_on go_on' e e' refuse stop more = more
same_body C true false false true at_end go_on go_on' e e' refuse stop more = more
same_body C true false false false at_end go_on go_on' e e' refuse stop more = more
