-- ===== src/Types/VoteSet/Power.antt =====
-- The voting power behind a slice of votes, with an entry for each validator.
use totally_not_a_fork_of_ce.Prelude.{
  ℕ, zero, suc, ◌+◌, ◌≤◌, ◌≡◌, refl, ap, List, [], ◌∷◌, Option, none, some, arith, true, false,
  length, get_elem?, set, replicate, map,
}
use totally_not_a_fork_of_ce.Types.ValidatorSet.{Validator, total}
use totally_not_a_fork_of_ce.Types.Vote.{Vote}
use totally_not_a_fork_of_ce.Types.VoteSet.{copy_over, is_some}

abbrev pub voted {ℓ} : {A : Type ℓ} → List Validator → List (Option A) → ℕ
voted [] votes = 0
voted (val ∷ vals) [] = 0
voted (val ∷ vals) (some v ∷ votes) = val.voting_power + voted vals votes
voted (val ∷ vals) (none ∷ votes) = voted vals votes

-- The power of those with an entry in both slices.
abbrev pub in_both {ℓ} : {A : Type ℓ} → List Validator → List (Option A) → List (Option A) → ℕ
in_both (val ∷ vals) (some v ∷ xs) (some w ∷ ys) = val.voting_power + in_both vals xs ys
in_both (val ∷ vals) (x ∷ xs) (y ∷ ys) = in_both vals xs ys
in_both _ _ _ = 0

-- Who has an entry in the first slice has one in the second.
abbrev pub Covers : List (Option Vote) → List (Option Vote) → Type 0
Covers (some v ∷ xs) (none ∷ ys) = ⊥
Covers (x ∷ xs) (y ∷ ys) = Covers xs ys
Covers (x ∷ xs) [] = ⊥
Covers [] (y ∷ ys) = ⊥
Covers [] [] = Unit

module _ {ℓ} {A : Type ℓ} where
  pub voted-le-total : (vals : List Validator) (xs : List (Option A)) → voted vals xs ≤ total vals
  voted-le-total [] xs = omega arith
  voted-le-total (val ∷ vals) [] = omega arith
  voted-le-total (val ∷ vals) (some v ∷ xs) = omega (arith, voted-le-total vals xs)
  voted-le-total (val ∷ vals) (none ∷ xs) = omega (arith, voted-le-total vals xs)

  -- A new entry adds its validator's power.
  pub voted-set_new :
      (vals : List Validator) (xs : List (Option A)) (i : ℕ) (val : Validator) (a : A)
      → get_elem? vals i ≡ some val
      → get_elem? xs i ≡ some none
      → voted vals (set xs i (some a)) ≡ voted vals xs + val.voting_power
  voted-set_new [] xs i val a h k = cc
  voted-set_new (v ∷ vals) [] i val a h k = cc
  voted-set_new (v ∷ vals) (some x ∷ xs) zero val a h k = cc
  voted-set_new (v ∷ vals) (none ∷ xs) zero val a h k = ground arith
  voted-set_new (v ∷ vals) (some x ∷ xs) (suc i) val a h k =
      omega (arith, voted-set_new vals xs i val a h k)
  voted-set_new (v ∷ vals) (none ∷ xs) (suc i) val a h k = voted-set_new vals xs i val a h k

  -- Another entry for the same validator adds nothing.
  pub voted-set_again :
      (vals : List Validator) (xs : List (Option A)) (i : ℕ) (b a : A)
      → get_elem? xs i ≡ some (some b)
      → voted vals (set xs i (some a)) ≡ voted vals xs
  voted-set_again [] xs i b a k = refl
  voted-set_again (v ∷ vals) [] i b a k = refl
  voted-set_again (v ∷ vals) (some x ∷ xs) zero b a k = refl
  voted-set_again (v ∷ vals) (none ∷ xs) zero b a k = cc
  voted-set_again (v ∷ vals) (some x ∷ xs) (suc i) b a k =
      omega (arith, voted-set_again vals xs i b a k)
  voted-set_again (v ∷ vals) (none ∷ xs) (suc i) b a k = voted-set_again vals xs i b a k

  -- Two slices together count no more than all validators and those in both.
  pub voted_overlap :
      (vals : List Validator) (xs ys : List (Option A))
      → voted vals xs + voted vals ys ≤ total vals + in_both vals xs ys
  voted_overlap [] xs ys = omega arith
  voted_overlap (v ∷ vals) [] ys = omega (arith, voted-le-total (v ∷ vals) ys)
  voted_overlap (v ∷ vals) (x ∷ xs) [] = omega (arith, voted-le-total (v ∷ vals) (x ∷ xs))
  voted_overlap (v ∷ vals) (some x ∷ xs) (some y ∷ ys) = omega (arith, voted_overlap vals xs ys)
  voted_overlap (v ∷ vals) (some x ∷ xs) (none ∷ ys) = omega (arith, voted_overlap vals xs ys)
  voted_overlap (v ∷ vals) (none ∷ xs) (some y ∷ ys) = omega (arith, voted_overlap vals xs ys)
  voted_overlap (v ∷ vals) (none ∷ xs) (none ∷ ys) = omega (arith, voted_overlap vals xs ys)

pub voted-replicate : (vals : List Validator) (n : ℕ) → voted {A = Vote} vals (replicate n none) ≡ 0
voted-replicate [] n = refl
voted-replicate (val ∷ vals) zero = refl
voted-replicate (val ∷ vals) (suc n) = voted-replicate vals n

pub length-copy_over : (xs ys : List (Option Vote)) → length (copy_over xs ys) ≡ length ys
unfolding copy_over
length-copy_over [] ys = refl
length-copy_over (some x ∷ xs) [] = refl
length-copy_over (none ∷ xs) [] = refl
length-copy_over (some x ∷ xs) (y ∷ ys) = ap suc (length-copy_over xs ys)
length-copy_over (none ∷ xs) (y ∷ ys) = ap suc (length-copy_over xs ys)

-- Copying votes of validators that already have one changes neither power nor bits.
pub voted-copy_over :
    (vals : List Validator) (xs ys : List (Option Vote))
    → Covers xs ys
    → voted vals (copy_over xs ys) ≡ voted vals ys
unfolding copy_over
voted-copy_over vals [] ys h = refl
voted-copy_over vals (some x ∷ xs) [] h = refl
voted-copy_over vals (none ∷ xs) [] h = refl
voted-copy_over [] (some x ∷ xs) (y ∷ ys) h = refl
voted-copy_over [] (none ∷ xs) (y ∷ ys) h = refl
voted-copy_over (v ∷ vals) (some x ∷ xs) (some y ∷ ys) h =
    omega (arith, voted-copy_over vals xs ys h)
voted-copy_over (v ∷ vals) (some x ∷ xs) (none ∷ ys) h = elim h [ ]
voted-copy_over (v ∷ vals) (none ∷ xs) (some y ∷ ys) h = omega (arith, voted-copy_over vals xs ys h)
voted-copy_over (v ∷ vals) (none ∷ xs) (none ∷ ys) h = voted-copy_over vals xs ys h

pub bits-copy_over :
    (xs ys : List (Option Vote)) → Covers xs ys → map is_some (copy_over xs ys) ≡ map is_some ys
unfolding copy_over
bits-copy_over [] ys h = refl
bits-copy_over (some x ∷ xs) [] h = refl
bits-copy_over (none ∷ xs) [] h = refl
bits-copy_over (some x ∷ xs) (some y ∷ ys) h = ap (◌∷◌ true) (bits-copy_over xs ys h)
bits-copy_over (some x ∷ xs) (none ∷ ys) h = elim h [ ]
bits-copy_over (none ∷ xs) (some y ∷ ys) h = ap (◌∷◌ true) (bits-copy_over xs ys h)
bits-copy_over (none ∷ xs) (none ∷ ys) h = ap (◌∷◌ false) (bits-copy_over xs ys h)

-- An entry of the copy is one of the source, or else one of the target.
pub get_elem?-copy_over :
    (xs ys : List (Option Vote)) (i : ℕ) (v : Vote)
    → get_elem? xs i ≡ some (some v)
    → Covers xs ys
    → get_elem? (copy_over xs ys) i ≡ some (some v)
unfolding copy_over
get_elem?-copy_over [] ys i v h k = cc
get_elem?-copy_over (x ∷ xs) [] i v h k = elim k [ ]
get_elem?-copy_over (some x ∷ xs) (y ∷ ys) zero v h k = h
get_elem?-copy_over (none ∷ xs) (y ∷ ys) zero v h k = cc
get_elem?-copy_over (some x ∷ xs) (some y ∷ ys) (suc i) v h k = get_elem?-copy_over xs ys i v h k
get_elem?-copy_over (some x ∷ xs) (none ∷ ys) (suc i) v h k = elim k [ ]
get_elem?-copy_over (none ∷ xs) (some y ∷ ys) (suc i) v h k = get_elem?-copy_over xs ys i v h k
get_elem?-copy_over (none ∷ xs) (none ∷ ys) (suc i) v h k = get_elem?-copy_over xs ys i v h k

pub map-set {ℓ κ} :
    {A : Type ℓ} {B : Type κ} (f : A → B) (xs : List A) (i : ℕ) (a : A)
    → map f (set xs i a) ≡ set (map f xs) i (f a)
map-set f [] i a = refl
map-set f (x ∷ xs) zero a = refl
map-set f (x ∷ xs) (suc i) a = ap (◌∷◌ (f x)) (map-set f xs i a)
