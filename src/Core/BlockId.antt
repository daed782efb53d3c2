-- ===== src/Core/BlockId.antt =====
-- `crates/core/src/block_id.rs`.
use bdk.Prelude.{ℕ, Bool, ◌&&◌, ◌==◌}

-- A block hash is a 256-bit value; the program compares hashes for equality only.
abbrev pub BlockHash : Type 0
BlockHash = ℕ

pub record BlockId : Type 0 where
  pub height : ℕ
  pub hash : BlockHash

-- The derived `PartialEq`.
abbrev pub block_id_eq : BlockId → BlockId → Bool
block_id_eq a b = a.height == b.height && a.hash == b.hash

-- `Default`: the hash of all zeros is the number 0.
abbrev pub default_block_id : BlockId
default_block_id = record { height = 0; hash = 0 }

-- `From<(u32, BlockHash)>`, also of references.
abbrev pub from_pair : ℕ × BlockHash → BlockId
from_pair (height, hash) = record { height = height; hash = hash }

-- `From<BlockId>`.
abbrev pub to_pair : BlockId → ℕ × BlockHash
to_pair block_id = (block_id.height, block_id.hash)
