-- ===== src/Types/VoteSet/Slices.antt =====
-- Entries of the slices of votes under the writes that a vote set makes.
use totally_not_a_fork_of_ce.Prelude.{
  ℕ, zero, suc, ◌≡◌, refl, List, [], ◌∷◌, Option, none, some, arith, length, get_elem?, set,
  replicate, ◌⊎◌, inl, inr, ◌<◌,
}
use totally_not_a_fork_of_ce.Types.Vote.{Vote}
use totally_not_a_fork_of_ce.Types.VoteSet.{copy_over}
use totally_not_a_fork_of_ce.Types.VoteSet.Power.{Covers}

abbrev pub Votes : Type 0
Votes = List (Option Vote)

-- The vote that stands at an index.
abbrev pub At : Votes → ℕ → Vote → Type 0
At xs i v = get_elem? xs i ≡ some (some v)

pub At-set :
    (xs : Votes) (i j : ℕ) (w v : Vote)
    → At (set xs i (some w)) j v
    → ((j ≡ i) × (w ≡ v)) ⊎ At xs j v
At-set [] i j w v h = inr h
At-set (x ∷ xs) zero zero w v h = inl (refl, ground arith)
At-set (x ∷ xs) zero (suc j) w v h = inr h
At-set (x ∷ xs) (suc i) zero w v h = inr h
At-set (x ∷ xs) (suc i) (suc j) w v h = ground (arith, At-set xs i j w v h)

pub At-set_self :
    (xs : Votes) (i : ℕ) (o : Option Vote) (w : Vote)
    → get_elem? xs i ≡ some o
    → At (set xs i (some w)) i w
At-set_self [] i o w h = cc
At-set_self (x ∷ xs) zero o w h = refl
At-set_self (x ∷ xs) (suc i) o w h = At-set_self xs i o w h

pub At-copy_over :
    (xs ys : Votes) (i : ℕ) (v : Vote) → At (copy_over xs ys) i v → At xs i v ⊎ At ys i v
unfolding copy_over
At-copy_over [] ys i v h = inr h
At-copy_over (some x ∷ xs) [] i v h = cc
At-copy_over (none ∷ xs) [] i v h = cc
At-copy_over (some x ∷ xs) (y ∷ ys) zero v h = inl h
At-copy_over (none ∷ xs) (y ∷ ys) zero v h = inr h
At-copy_over (some x ∷ xs) (y ∷ ys) (suc i) v h = At-copy_over xs ys i v h
At-copy_over (none ∷ xs) (y ∷ ys) (suc i) v h = At-copy_over xs ys i v h

pub Covers-At :
    (xs ys : Votes) (i : ℕ) (v : Vote) → Covers xs ys → At xs i v → (w : Vote) × At ys i w
Covers-At [] ys i v c h = cc
Covers-At (x ∷ xs) [] i v c h = elim c [ ]
Covers-At (some x ∷ xs) (some y ∷ ys) zero v c h = (y, refl)
Covers-At (some x ∷ xs) (none ∷ ys) i v c h = elim c [ ]
Covers-At (none ∷ xs) (y ∷ ys) zero v c h = cc
Covers-At (some x ∷ xs) (some y ∷ ys) (suc i) v c h = Covers-At xs ys i v c h
Covers-At (none ∷ xs) (some y ∷ ys) (suc i) v c h = Covers-At xs ys i v c h
Covers-At (none ∷ xs) (none ∷ ys) (suc i) v c h = Covers-At xs ys i v c h

pub Covers-replicate : (ys : Votes) → Covers (replicate (length ys) none) ys
Covers-replicate [] = tt
Covers-replicate (some y ∷ ys) = Covers-replicate ys
Covers-replicate (none ∷ ys) = Covers-replicate ys

pub Covers-set_right :
    (xs ys : Votes) (i : ℕ) (v : Vote) → Covers xs ys → Covers xs (set ys i (some v))
Covers-set_right [] [] i v c = c
Covers-set_right [] (y ∷ ys) i v c = elim c [ ]
Covers-set_right (x ∷ xs) [] i v c = elim c [ ]
Covers-set_right (some x ∷ xs) (some y ∷ ys) zero v c = c
Covers-set_right (some x ∷ xs) (none ∷ ys) i v c = elim c [ ]
Covers-set_right (none ∷ xs) (some y ∷ ys) zero v c = c
Covers-set_right (none ∷ xs) (none ∷ ys) zero v c = c
Covers-set_right (some x ∷ xs) (some y ∷ ys) (suc i) v c = Covers-set_right xs ys i v c
Covers-set_right (none ∷ xs) (some y ∷ ys) (suc i) v c = Covers-set_right xs ys i v c
Covers-set_right (none ∷ xs) (none ∷ ys) (suc i) v c = Covers-set_right xs ys i v c

pub Covers-set_left :
    (xs ys : Votes) (i : ℕ) (v w : Vote) → Covers xs ys → At ys i w → Covers (set xs i (some v)) ys
Covers-set_left [] ys i v w c h = c
Covers-set_left (x ∷ xs) [] i v w c h = elim c [ ]
Covers-set_left (some x ∷ xs) (none ∷ ys) i v w c h = elim c [ ]
Covers-set_left (some x ∷ xs) (some y ∷ ys) zero v w c h = c
Covers-set_left (none ∷ xs) (some y ∷ ys) zero v w c h = c
Covers-set_left (none ∷ xs) (none ∷ ys) zero v w c h = cc
Covers-set_left (some x ∷ xs) (some y ∷ ys) (suc i) v w c h = Covers-set_left xs ys i v w c h
Covers-set_left (none ∷ xs) (some y ∷ ys) (suc i) v w c h = Covers-set_left xs ys i v w c h
Covers-set_left (none ∷ xs) (none ∷ ys) (suc i) v w c h = Covers-set_left xs ys i v w c h

pub Covers-copy_over : (zs xs ys : Votes) → Covers xs ys → Covers xs (copy_over zs ys)
unfolding copy_over
Covers-copy_over [] xs ys c = c
Covers-copy_over (some z ∷ zs) xs [] c = c
Covers-copy_over (none ∷ zs) xs [] c = c
Covers-copy_over (z ∷ zs) [] (y ∷ ys) c = elim c [ ]
Covers-copy_over (z ∷ zs) (some x ∷ xs) (none ∷ ys) c = elim c [ ]
Covers-copy_over (some z ∷ zs) (some x ∷ xs) (some y ∷ ys) c = Covers-copy_over zs xs ys c
Covers-copy_over (none ∷ zs) (some x ∷ xs) (some y ∷ ys) c = Covers-copy_over zs xs ys c
Covers-copy_over (some z ∷ zs) (none ∷ xs) (some y ∷ ys) c = Covers-copy_over zs xs ys c
Covers-copy_over (none ∷ zs) (none ∷ xs) (some y ∷ ys) c = Covers-copy_over zs xs ys c
Covers-copy_over (some z ∷ zs) (none ∷ xs) (none ∷ ys) c = Covers-copy_over zs xs ys c
Covers-copy_over (none ∷ zs) (none ∷ xs) (none ∷ ys) c = Covers-copy_over zs xs ys c

pub replicate-none : (n i : ℕ) (v : Vote) → ¬ At (replicate n none) i v
replicate-none zero i v h = cc
replicate-none (suc n) zero v h = cc
replicate-none (suc n) (suc i) v h = replicate-none n i v h

-- Slices of one length are in range at the same indices.
pub in_range {ℓ κ} :
    {A : Type ℓ} {B : Type κ} (xs : List A) (ys : List B) (i : ℕ) (a : A)
    → length xs ≡ length ys
    → get_elem? xs i ≡ some a
    → (b : B) × (get_elem? ys i ≡ some b)
in_range [] ys i a h k = cc
in_range (x ∷ xs) [] i a h k = cc
in_range (x ∷ xs) (y ∷ ys) zero a h k = (y, refl)
in_range (x ∷ xs) (y ∷ ys) (suc i) a h k = in_range xs ys i a (ground arith) k

-- A write keeps the entry of every other index.
pub At-set_keep :
    (xs : Votes) (i j : ℕ) (v w : Vote)
    → At xs j w
    → (At xs i w × At (set xs i (some v)) j v) ⊎ At (set xs i (some v)) j w
At-set_keep [] i j v w h = cc
At-set_keep (x ∷ xs) zero zero v w h = inl (h, refl)
At-set_keep (x ∷ xs) zero (suc j) v w h = inr h
At-set_keep (x ∷ xs) (suc i) zero v w h = inr h
At-set_keep (x ∷ xs) (suc i) (suc j) v w h = At-set_keep xs i j v w h

pub replicate_free :
    (n i : ℕ) → i < n → get_elem? (replicate {A = Option Vote} n none) i ≡ some none
replicate_free zero i h = absurd (omega arith)
replicate_free (suc n) zero h = refl
replicate_free (suc n) (suc i) h = replicate_free n i (omega arith)

pub get_elem?-lt {ℓ} :
    {A : Type ℓ} (xs : List A) (i : ℕ) (a : A) → get_elem? xs i ≡ some a → i < length xs
get_elem?-lt [] i a h = cc
get_elem?-lt (x ∷ xs) zero a h = omega arith
get_elem?-lt (x ∷ xs) (suc i) a h = omega (arith, get_elem?-lt xs i a h)
