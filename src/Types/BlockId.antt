-- ===== src/Types/BlockId.antt =====
-- types/block.go (BlockID).
use totally_not_a_fork_of_ce.Prelude.{
  ◌≡◌, ◌↔◌, Bool, true, [], ◌++◌, ◌&&◌, arith, ltb, ◌==◌, length,
}
use totally_not_a_fork_of_ce.Prelude.Bytes.{Bytes, bytes_equal, bytes_equal_iff}
use totally_not_a_fork_of_ce.Types.PartSetHeader
use totally_not_a_fork_of_ce.Types.PartSetHeader.{PartSetHeader, hash_size, validate_hash}

pub record BlockId : Type 0 where
  pub hash : Bytes
  pub parts : PartSetHeader

-- BlockID{}, the ID of no block.
abbrev pub nil_block_id : BlockId
nil_block_id = record { hash = []; parts = record { total = 0; hash = [] } }

unfoldable pub equals : BlockId → BlockId → Bool
equals a b = bytes_equal a.hash b.hash && PartSetHeader.equals a.parts b.parts

-- The map key: the hash, then the encoded header.
unfoldable pub key : BlockId → Bytes
key b = b.hash ++ PartSetHeader.marshal b.parts

-- False stands for the error.
unfoldable pub validate_basic : BlockId → Bool
unfolding PartSetHeader.validate_basic
validate_basic b = validate_hash b.hash && PartSetHeader.validate_basic b.parts

unfoldable pub is_zero : BlockId → Bool
unfolding PartSetHeader.is_zero
is_zero b = length b.hash == 0 && PartSetHeader.is_zero b.parts

unfoldable pub is_complete : BlockId → Bool
is_complete b =
    length b.hash == hash_size && ltb 0 b.parts.total && length b.parts.hash == hash_size

pub equals_iff : (a b : BlockId) → (equals a b ≡ true) ↔ (a ≡ b)
unfolding equals
equals_iff a b =
    ground (arith, bytes_equal_iff a.hash b.hash, PartSetHeader.equals_iff a.parts b.parts)

pub is_zero→nil : (b : BlockId) → is_zero b ≡ true → b ≡ nil_block_id
unfolding is_zero
is_zero→nil b h = ground arith
