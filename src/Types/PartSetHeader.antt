-- ===== src/Types/PartSetHeader.antt =====
-- types/part_set.go (PartSetHeader), with its protobuf encoding of
-- proto/tendermint/types/types.pb.go, which is part of the map key of a block ID.
use totally_not_a_fork_of_ce.Prelude.{
  ℕ, zero, suc, ◌+◌, ◌/◌, ◌%◌, ◌≡◌, ◌↔◌, Bool, true, [], ◌∷◌, ◌++◌, ◌&&◌, not, arith, ltb, ◌==◌,
  if◌then◌else◌, length,
}
use totally_not_a_fork_of_ce.Prelude.Bytes.{Bytes, bytes_equal, bytes_equal_iff}

-- tmhash.Size
abbrev pub hash_size : ℕ
hash_size = 32

pub record PartSetHeader : Type 0 where
  pub total : ℕ
  pub hash : Bytes

unfoldable pub is_zero : PartSetHeader → Bool
is_zero psh = psh.total == 0 && length psh.hash == 0

unfoldable pub equals : PartSetHeader → PartSetHeader → Bool
equals a b = a.total == b.total && bytes_equal a.hash b.hash

-- ValidateHash: false stands for its error.
unfoldable pub validate_hash : Bytes → Bool
validate_hash h = not (ltb 0 (length h) && not (length h == hash_size))

unfoldable pub validate_basic : PartSetHeader → Bool
unfolding validate_hash
validate_basic psh = validate_hash psh.hash

-- encodeVarintTypes: at most ten bytes for a uint64, so nine groups before the last one.
varint : ℕ → ℕ → Bytes
varint zero v = v ∷ []
varint (suc fuel) v =
    let rest = (v % 128 + 128) ∷ varint fuel (v / 128) in if ltb v 128 then v ∷ [] else rest

-- (*PartSetHeader).Marshal
unfoldable pub marshal : PartSetHeader → Bytes
unfolding varint
marshal psh =
    (if psh.total == 0 then [] else 0x8 ∷ varint 9 psh.total)
    ++ (if length psh.hash == 0 then [] else 0x12 ∷ varint 9 (length psh.hash) ++ psh.hash)

pub equals_iff : (a b : PartSetHeader) → (equals a b ≡ true) ↔ (a ≡ b)
unfolding equals
equals_iff a b = ground (arith, bytes_equal_iff a.hash b.hash)
