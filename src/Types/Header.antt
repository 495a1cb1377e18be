-- ===== src/Types/Header.antt =====
-- types/block.go (Header) and types/light.go (SignedHeader).
use totally_not_a_fork_of_ce.Prelude.{
  ℕ, [], Bool, false, Option, none, some, not, ◌&&◌, ltb, ◌==◌, if◌then◌else◌, length,
}
use totally_not_a_fork_of_ce.Prelude.Bytes.{Bytes, bytes_equal}
use totally_not_a_fork_of_ce.Prelude.Int.{ℤ, pos, leb_ℤ, ◌==ℤ◌}
use totally_not_a_fork_of_ce.Types.BlockId
use totally_not_a_fork_of_ce.Types.BlockId.{BlockId}
use totally_not_a_fork_of_ce.Types.PartSetHeader.{validate_hash}
use totally_not_a_fork_of_ce.Types.ValidatorSet.{ValidatorSet}
use totally_not_a_fork_of_ce.Types.Commit
use totally_not_a_fork_of_ce.Types.Commit.{Commit, address_size}

-- `block_protocol` is Version.Block; times are nanoseconds since the zero `time.Time`.
pub record Header : Type 0 where
  pub block_protocol : ℕ
  pub app_version : ℕ
  pub chain_id : Bytes
  pub height : ℤ
  pub time : ℕ
  pub last_block_id : BlockId
  pub last_commit_hash : Bytes
  pub data_hash : Bytes
  pub validators_hash : Bytes
  pub next_validators_hash : Bytes
  pub consensus_hash : Bytes
  pub app_hash : Bytes
  pub last_results_hash : Bytes
  pub evidence_hash : Bytes
  pub proposer_address : Bytes

-- The Merkle roots of the encoded fields of a header, and of the encoded validators.
pub record Hashing : Type 0 where
  pub header_root : Header → Bytes
  pub validators_root : ValidatorSet → Bytes

-- Header.Hash
unfoldable pub header_hash : Hashing → Header → Bytes
header_hash m h = if length h.validators_hash == 0 then [] else m.header_root h

-- version.BlockProtocol and MaxChainIDLen
abbrev pub block_protocol_version : ℕ
block_protocol_version = 11

abbrev pub max_chain_id_len : ℕ
max_chain_id_len = 50

-- Header.ValidateBasic: false stands for the error.
unfoldable pub header_validate_basic : Header → Bool
header_validate_basic h =
    h.block_protocol == block_protocol_version
    && not (ltb max_chain_id_len (length h.chain_id))
    && not (leb_ℤ h.height (pos 0))
    && BlockId.validate_basic h.last_block_id
    && validate_hash h.last_commit_hash
    && validate_hash h.data_hash
    && validate_hash h.evidence_hash
    && length h.proposer_address == address_size
    && validate_hash h.validators_hash
    && validate_hash h.next_validators_hash
    && validate_hash h.consensus_hash
    && validate_hash h.last_results_hash

-- A header that is there, with its commit.
pub record SignedHeader : Type 0 where
  pub header : Header
  pub commit : Option Commit

abbrev commit_fits : Hashing → Header → Bytes → Option Commit → Bool
commit_fits m h chain_id none = false
commit_fits m h chain_id (some c) =
    header_validate_basic h
    && Commit.validate_basic c
    && bytes_equal h.chain_id chain_id
    && c.height ==ℤ h.height
    && bytes_equal (header_hash m h) c.block_id.hash

-- SignedHeader.ValidateBasic: false stands for the error.
unfoldable pub signed_validate_basic : Hashing → SignedHeader → Bytes → Bool
signed_validate_basic m sh chain_id = commit_fits m sh.header chain_id sh.commit
