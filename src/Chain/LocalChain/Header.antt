-- ===== src/Chain/LocalChain/Header.antt =====
-- `apply_header_connected_to` and `apply_header` of `crates/chain/src/local_chain.rs`, for a chain
-- of block hashes.
pub mod Total
use bdk.Prelude.{
  ℕ, ◌-◌, Bool, Option, none, some, List, [], ◌∷◌, leb, ◌||◌, Result, ok, err, map_err, map_option,
  if◌then◌else◌,
}
use bdk.Core.BlockId.{BlockHash, BlockId, block_id_eq}
use bdk.Core.Checkpoint.{CheckPoint, ToBlockHash}
use bdk.Core.Checkpoint.Build.{from_blocks}
use bdk.Core.Checkpoint.Range.{checked_sub}
use bdk.Chain.ChangeSet.{ChangeSet}
use bdk.Chain.LocalChain.{LocalChain}
use bdk.Chain.LocalChain.Merge.{CannotConnectError, apply_update}

-- `impl ToBlockHash for BlockHash`.
instance abbrev pub blockhash_to_blockhash : ToBlockHash BlockHash
blockhash_to_blockhash = record { to_blockhash = λ h. h; prev_blockhash = λ h. none }

-- What the program reads of `bitcoin::block::Header`.
pub record Header : Type 0 where
  pub block_hash : BlockHash
  pub prev_blockhash : BlockHash

-- `impl ToBlockHash for Header`.
instance abbrev pub header_to_blockhash : ToBlockHash Header
header_to_blockhash = record {
  to_blockhash = λ h. h.block_hash;
  prev_blockhash = λ h. some h.prev_blockhash;
}

pub data ApplyHeaderError : Type 0 where
  inconsistent_blocks : ApplyHeaderError
  cannot_connect_header : CannotConnectError → ApplyHeaderError

abbrev this_block : Header → ℕ → BlockId
this_block header h = record { height = h; hash = header.block_hash }

prev_block : Header → ℕ → Option BlockId
prev_block header h =
    map_option (λ prev_height. record { height = prev_height; hash = header.prev_blockhash })
      (checked_sub h 1)

is_some_block : Option BlockId → BlockId → Bool
is_some_block none b = Bool.false
is_some_block (some a) b = block_id_eq b a

-- The `match connected_to`.
connection : Header → ℕ → BlockId → Result (Option BlockId) ApplyHeaderError
unfolding prev_block is_some_block
connection header h conn =
    if block_id_eq conn (this_block header h) || is_some_block (prev_block header h) conn
    then ok none
    else if leb (h - 1) conn.height
    then err inconsistent_blocks
    else ok (some conn)

abbrev cons_block : Option BlockId → List (ℕ × BlockHash) → List (ℕ × BlockHash)
cons_block none l = l
cons_block (some b) l = (b.height, b.hash) ∷ l

update_blocks : Header → ℕ → Option BlockId → List (ℕ × BlockHash)
unfolding prev_block
update_blocks header h conn =
    cons_block conn (cons_block (prev_block header h) (cons_block (some (this_block header h)) []))

abbrev own_connection : Header → ℕ → BlockId
own_connection header h = elim (prev_block header h) [
  | some prev ↦ prev
  | none ↦ record { height = h; hash = header.block_hash }
]

module _ (eq_ptr : CheckPoint BlockHash → CheckPoint BlockHash → Bool) where
  -- `none` is the panic of `expect("block ids must be in order")`.
  pub apply_header_connected_to :
      LocalChain BlockHash
      → Header
      → ℕ
      → BlockId
      → Option (Result (LocalChain BlockHash × ChangeSet BlockHash) ApplyHeaderError)
  unfolding connection update_blocks
  apply_header_connected_to self header h connected_to = elim (connection header h connected_to) [
    | err e ↦ some (err e)
    | ok conn ↦ elim (from_blocks (update_blocks header h conn)) [
      | ok update ↦ some (map_err cannot_connect_header (apply_update eq_ptr self update))
      | err last ↦ none
    ]
  ]

  -- `none` is a panic: the one above, or `unreachable!`.
  pub apply_header :
      LocalChain BlockHash
      → Header
      → ℕ
      → Option (Result (LocalChain BlockHash × ChangeSet BlockHash) CannotConnectError)
  unfolding apply_header_connected_to
  apply_header self header h =
      elim (apply_header_connected_to self header h (own_connection header h)) [
        | some (ok r) ↦ some (ok r)
        | some (err inconsistent_blocks) ↦ none
        | some (err (cannot_connect_header e)) ↦ some (err e)
        | none ↦ none
      ]
