-- ===== src/Types/Validation/Finding.antt =====
-- types/validation.go: the validators that the loops of verification find for signatures.
use totally_not_a_fork_of_ce.Prelude.{
  ℕ, zero, suc, ◌≡◌, refl, ◌∙◌, ap, List, [], ◌∷◌, Option, none, some, Bool-cases, inl, inr,
  get_elem?, if◌then◌else◌,
}
use mathlib.Core.List.{Memᴰ}
use totally_not_a_fork_of_ce.Prelude.Bytes.{Bytes, bytes_equal}
use totally_not_a_fork_of_ce.Prelude.Outcome.{done, ◌>>=◌, or_panic, done_inj}
use totally_not_a_fork_of_ce.Types.ValidatorSet.{
  ValidatorSet, Validator, find_address, get_by_address,
}
use totally_not_a_fork_of_ce.Types.Commit.{CommitSig}
use totally_not_a_fork_of_ce.Types.Validation.{
  Mode, Seen, Lookup, skip, double, found, seen_at, look_seen, look_address, look_up,
}

get_elem?-Memᴰ : (xs : List Validator) (i : ℕ) (x : Validator) → get_elem? xs i ≡ some x → Memᴰ x xs
get_elem?-Memᴰ [] i x h = cc
get_elem?-Memᴰ (y ∷ ys) zero x h = Memᴰ.head (cc h)
get_elem?-Memᴰ (y ∷ ys) (suc i) x h = Memᴰ.tail (get_elem?-Memᴰ ys i x h)

find_address-Memᴰ :
    (address : Bytes) (i j : ℕ) (xs : List Validator) (x : Validator)
    → find_address address i xs ≡ some (j, x)
    → Memᴰ x xs
unfolding find_address
find_address-Memᴰ address i j [] x h = cc
find_address-Memᴰ address i j (y ∷ ys) x found_it =
    by_address (find_address-Memᴰ address (suc i) j ys x) found_it
  where
    by_address :
        (find_address address (suc i) ys ≡ some (j, x) → Memᴰ x ys)
        → (if bytes_equal y.address address then some (i, y) else find_address address (suc i) ys)
          ≡ some (j, x)
        → Memᴰ x (y ∷ ys)
    by_address later = elim (Bool-cases (bytes_equal y.address address)) [
      | inl hit ↦ rw hit (λ h. Memᴰ.head (cc h))
      | inr miss ↦ rw miss (λ h. Memᴰ.tail (later h))
    ]

-- A validator that is found for a signature is one of the set.
found_of : Lookup → Option Validator
found_of skip = none
found_of (double i) = none
found_of (found val seen) = some val

look_address-Memᴰ :
    (vals : ValidatorSet) (idx : ℕ) (sig : CommitSig) (seen : Seen) (val : Validator)
    (o : Option (ℕ × Validator))
    → get_by_address vals sig.validator_address ≡ o
    → found_of (look_address seen idx o) ≡ some val
    → Memᴰ val vals.validators
unfolding found_of look_address look_seen get_by_address
look_address-Memᴰ vals idx sig seen val none e h = cc
look_address-Memᴰ vals idx sig seen val (some (i, x)) e h =
    go (seen_at i seen) h (find_address-Memᴰ sig.validator_address 0 i vals.validators x e)
  where
    go :
        (o : Option ℕ)
        → found_of (look_seen seen idx i x o) ≡ some val
        → Memᴰ x vals.validators
        → Memᴰ val vals.validators
    go none h m = let same : x ≡ val = cc h in rw same at m
    go (some first) h m = cc

pub look_up-Memᴰ :
    (vals : ValidatorSet) (m : Mode) (idx : ℕ) (sig : CommitSig) (seen seen' : Seen)
    (val : Validator)
    → look_up vals m idx sig seen ≡ done (found val seen')
    → Memᴰ val vals.validators
unfolding look_up found_of
look_up-Memᴰ vals m idx sig seen seen' val = elim (Bool-cases m.by_index) [
  | inl by_index ↦ rw by_index (λ h. at_index (get_elem? vals.validators idx) refl h)
  | inr by_address ↦ rw by_address (λ h.
      look_address-Memᴰ vals idx sig seen val (get_by_address vals sig.validator_address) refl
        (ap found_of (done_inj h)))
]
  where
    at_index :
        (o : Option Validator)
        → get_elem? vals.validators idx ≡ o
        → (or_panic o >>= λ val. done (found val seen)) ≡ done (found val seen')
        → Memᴰ val vals.validators
    at_index none e h = cc
    at_index (some x) e h =
        let same : some x ≡ some val = ap found_of (done_inj h) in
        get_elem?-Memᴰ vals.validators idx val (e ∙ same)
