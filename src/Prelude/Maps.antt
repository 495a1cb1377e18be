-- ===== src/Prelude/Maps.antt =====
-- Go's maps, as functions into options.
use totally_not_a_fork_of_ce.Prelude.{Option, some, if◌then◌else◌}
use totally_not_a_fork_of_ce.Prelude.Bytes.{Eq}

abbrev pub Map {ℓ κ} : Type ℓ → Type κ → Type (ℓ ⊔ κ)
Map K V = K → Option V

module _ {ℓ κ} {K : Type ℓ} {V : Type κ} ⦃e : Eq K⦄ where
  -- m[k] = v
  abbrev pub insert : K → V → Map K V → Map K V
  insert k v m j = if e.beq k j then some v else m j
