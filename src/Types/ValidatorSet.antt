-- ===== src/Types/ValidatorSet.antt =====
-- types/validator.go and types/validator_set.go: the set of validators with its lookups, its total
-- voting power and its proposer. Powers are not negative: ValidateBasic and processChanges see to it.
use totally_not_a_fork_of_ce.Prelude.{
  ℕ, suc, ◌+◌, ◌-◌, ◌/◌, ◌≤◌, ◌≡◌, Bool, true, false, List, [], ◌∷◌, Option, none, some, not, arith,
  ltb, ◌==◌, if◌then◌else◌, length, get_elem?, ◌≢◌, refl, ◌<◌, ◌⊎◌, inl, inr, Bool-cases,
}
use totally_not_a_fork_of_ce.Prelude.Bytes.{Bytes, bytes_equal}
use totally_not_a_fork_of_ce.Prelude.Int.{ℤ, pos, negsuc, ltb_ℤ}
use totally_not_a_fork_of_ce.Prelude.Outcome.{Outcome, done, panic, ◌>>=◌}

pub record Validator : Type 0 where
  pub address : Bytes
  pub pub_key : Bytes
  pub voting_power : ℕ
  pub proposer_priority : ℤ

-- `cached_power` is the field totalVotingPower, which is 0 until it is computed.
pub record ValidatorSet : Type 0 where
  pub validators : List Validator
  pub proposer : Option Validator
  pub cached_power : ℕ

abbrev pub max_int64 : ℕ
max_int64 = 9_223_372_036_854_775_807

abbrev pub max_total_voting_power : ℕ
max_total_voting_power = max_int64 / 8

unfoldable pub size : ValidatorSet → ℕ
size vals = length vals.validators

-- safeAddClip, at powers.
unfoldable pub safe_add_clip : ℕ → ℕ → ℕ
safe_add_clip a b = if ltb (max_int64 - b) a then max_int64 else a + b

-- The loop of updateTotalVotingPower.
unfoldable pub sum_powers : ℕ → List Validator → Outcome ℕ
unfolding safe_add_clip
sum_powers sum [] = done sum
sum_powers sum (val ∷ rest) =
    let sum' = safe_add_clip sum val.voting_power in
    let more = sum_powers sum' rest in if ltb max_total_voting_power sum' then panic else more

unfoldable pub update_total_voting_power : ValidatorSet → Outcome ValidatorSet
unfolding sum_powers
update_total_voting_power vals = do
  sum ← sum_powers 0 vals.validators
  done (record vals { cached_power = sum })

-- The value that TotalVotingPower returns. It also fills the cache, which changes no later value.
unfoldable pub total_voting_power : ValidatorSet → Outcome ℕ
unfolding sum_powers
total_voting_power vals =
    if vals.cached_power == 0 then sum_powers 0 vals.validators else done vals.cached_power

unfoldable pub get_by_index : ValidatorSet → ℤ → Option Validator
get_by_index vals (pos i) = get_elem? vals.validators i
get_by_index vals (negsuc i) = none

-- GetByAddress, from index `i` on; `none` for (-1, nil).
unfoldable pub find_address : Bytes → ℕ → List Validator → Option (ℕ × Validator)
find_address address i [] = none
find_address address i (val ∷ rest) =
    if bytes_equal val.address address then some (i, val) else find_address address (suc i) rest

unfoldable pub get_by_address : ValidatorSet → Bytes → Option (ℕ × Validator)
unfolding find_address
get_by_address vals address = find_address address 0 vals.validators

-- bytes.Compare(a, b) < 0
unfoldable pub bytes_less : Bytes → Bytes → Bool
bytes_less [] [] = false
bytes_less [] (y ∷ ys) = true
bytes_less (x ∷ xs) [] = false
bytes_less (x ∷ xs) (y ∷ ys) =
    let rest = bytes_less xs ys in if ltb x y then true else if x == y then rest else false

-- Two validators of the same address and priority panic.
unfoldable pub compare_proposer_priority : Option Validator → Validator → Outcome Validator
unfolding bytes_less
compare_proposer_priority none other = done other
compare_proposer_priority (some v) other =
    if ltb_ℤ other.proposer_priority v.proposer_priority
    then done v
    else if ltb_ℤ v.proposer_priority other.proposer_priority
    then done other
    else if bytes_less v.address other.address
    then done v
    else if bytes_less other.address v.address
    then done other
    else panic

-- The loop of findProposer.
unfoldable pub find_proposer : Option Validator → List Validator → Outcome (Option Validator)
unfolding compare_proposer_priority
find_proposer proposer [] = done proposer
find_proposer none (val ∷ rest) = find_proposer (some val) rest
find_proposer (some p) (val ∷ rest) =
    let skip = find_proposer (some p) rest in
    let compared =
      compare_proposer_priority (some p) val >>= λ best. find_proposer (some best) rest in
    if not (bytes_equal val.address p.address) then compared else skip

unfoldable pub get_proposer : ValidatorSet → Outcome (Option Validator)
unfolding find_proposer
get_proposer vals = elim vals.validators [
  | [] ↦ done none
  | val ∷ rest ↦ elim vals.proposer [
    | some p ↦ done (some p)
    | none ↦ find_proposer none (val ∷ rest)
  ]
]

-- The sum of the powers, with no clipping.
abbrev pub total : List Validator → ℕ
total [] = 0
total (val ∷ rest) = val.voting_power + total rest

-- The cache is empty or right, and the sum is within its limit.
pub record IsValid (vals : ValidatorSet) : Type 0 where
  pub within : total vals.validators ≤ max_total_voting_power
  pub cached : vals.cached_power ≢ 0 → vals.cached_power ≡ total vals.validators

sum_powers_lem :
    (sum : ℕ) (vs : List Validator)
    → sum + total vs ≤ max_total_voting_power
    → sum_powers sum vs ≡ done (sum + total vs)
unfolding sum_powers
sum_powers_lem sum [] h = ground arith
sum_powers_lem sum (val ∷ rest) h = ground (arith, sum_powers_lem (sum + val.voting_power) rest)

pub total_voting_power_lem :
    (vals : ValidatorSet) → IsValid vals → total_voting_power vals ≡ done (total vals.validators)
unfolding total_voting_power
total_voting_power_lem vals v = ground (arith, sum_powers_lem 0 vals.validators, v.cached)

sum_powers_over :
    (sum : ℕ) (vs : List Validator)
    → sum ≤ max_total_voting_power
    → max_total_voting_power < sum + total vs
    → sum_powers sum vs ≡ panic
unfolding sum_powers
sum_powers_over sum [] low high = absurd (omega (arith, low, high))
sum_powers_over sum (val ∷ rest) low high =
    ground (arith, sum_powers_over (sum + val.voting_power) rest)

-- Whatever the cache holds, updateTotalVotingPower fills it with the sum of the powers, which
-- TotalVotingPower then returns, and leaves the rest of the set alone, if the sum is within
-- MaxTotalVotingPower, and panics if it is above.
pub update_total_voting_power_lem :
    (vals : ValidatorSet)
    → ((total vals.validators ≤ max_total_voting_power)
        × (vals' : ValidatorSet) × (update_total_voting_power vals ≡ done vals')
        × (vals'.validators ≡ vals.validators)
        × (vals'.proposer ≡ vals.proposer)
        × (vals'.cached_power ≡ total vals.validators)
        × (total_voting_power vals' ≡ done (total vals.validators)))
      ⊎ ((max_total_voting_power < total vals.validators)
          × (update_total_voting_power vals ≡ panic))
unfolding update_total_voting_power
update_total_voting_power_lem vals =
    elim (Bool-cases (ltb max_total_voting_power (total vals.validators))) [
      | inl over ↦
          let high : max_total_voting_power < total vals.validators = ground arith in
          inr
            (high, rw (sum_powers_over 0 vals.validators (omega arith) (omega (arith, high))) refl)
      | inr fits ↦
          let low : total vals.validators ≤ max_total_voting_power = ground arith in
          let filled = record vals { cached_power = 0 + total vals.validators } in
          inl (
            low,
            filled,
            rw (sum_powers_lem 0 vals.validators (omega (arith, low))) refl,
            refl,
            refl,
            omega arith,
            total_voting_power_lem filled (record { within = low; cached = λ _. omega arith }),
          )
    ]
