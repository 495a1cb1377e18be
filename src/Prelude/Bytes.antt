-- ===== src/Prelude/Bytes.antt =====
-- Go's []byte and string values as lists of numbers, with `bytes.Equal` and `==`.
use totally_not_a_fork_of_ce.Prelude.{
  ℕ, ◌≡◌, ◌↔◌, Bool, true, false, List, [], ◌∷◌, ◌&&◌, arith, ◌==◌,
}
use totally_not_a_fork_of_ce.Prelude.Int.{ℤ, ◌==ℤ◌, ==ℤ_iff}

abbrev pub Bytes : Type 0
Bytes = List ℕ

unfoldable pub bytes_equal : Bytes → Bytes → Bool
bytes_equal [] [] = true
bytes_equal (x ∷ xs) (y ∷ ys) = x == y && bytes_equal xs ys
bytes_equal _ _ = false

pub bytes_equal_iff : (a b : Bytes) → (bytes_equal a b ≡ true) ↔ (a ≡ b)
unfolding bytes_equal
bytes_equal_iff [] [] = ground arith
bytes_equal_iff (x ∷ xs) (y ∷ ys) = ground (arith, bytes_equal_iff xs ys)
bytes_equal_iff [] (y ∷ ys) = ground arith
bytes_equal_iff (x ∷ xs) [] = ground arith

-- A test of equality that decides it.
pub record Eq {ℓ} (A : Type ℓ) : Type ℓ where
  pub beq : A → A → Bool
  pub beq_iff : (a b : A) → (beq a b ≡ true) ↔ (a ≡ b)

instance abbrev pub bytes_eq : Eq Bytes
bytes_eq = record { beq = bytes_equal; beq_iff = bytes_equal_iff }

instance abbrev pub int_eq : Eq ℤ
int_eq = record { beq = ◌==ℤ◌; beq_iff = ==ℤ_iff }
