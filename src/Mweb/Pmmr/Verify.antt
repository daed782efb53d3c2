-- ===== src/Mweb/Pmmr/Verify.antt =====
-- `verify_leafset`, `verify_leafset_at` and the checks that `verify_utxo_batch` makes before it
-- compares roots, of `crates/mweb/src/pmmr.rs`.
pub mod Accepts
use bdk.Prelude.{
  ℕ, ◌+◌, ◌/◌, Bool, true, false, not, ◌&&◌, ◌||◌, Option, none, some, List, [], ◌∷◌, map, length,
  take, ltb, leb, ◌==◌, if◌then◌else◌,
}
use bdk.Core.BlockId.{BlockHash}
use bdk.Mweb.Leafset.{
  MwebLeafset, PeerError, Verdict, accepted, rejected, bad_proof, protocol, max_output_mmr_size,
  bitset_test,
}

-- `div_ceil(8)`.
abbrev pub bytes_for : ℕ → ℕ
bytes_for bits = (bits + 7) / 8

abbrev pub bytes_eq : List ℕ → List ℕ → Bool
bytes_eq [] [] = true
bytes_eq [] (y ∷ ys) = false
bytes_eq (x ∷ xs) [] = false
bytes_eq (x ∷ xs) (y ∷ ys) = x == y && bytes_eq xs ys

module _ (blake3_hash : List ℕ → List ℕ) where
  unfoldable pub verify_leafset : MwebLeafset → List ℕ → ℕ → Verdict
  verify_leafset leafset leafset_root output_mmr_size =
      if ltb max_output_mmr_size output_mmr_size
      then rejected protocol
      else if ltb (length leafset.leafset) (bytes_for output_mmr_size)
      then rejected protocol
      else if bytes_eq (blake3_hash (take (bytes_for output_mmr_size) leafset.leafset)) leafset_root
      then accepted
      else rejected bad_proof

  pub verify_leafset_at : MwebLeafset → BlockHash → List ℕ → ℕ → Verdict
  unfolding verify_leafset
  verify_leafset_at leafset block_hash leafset_root output_mmr_size =
      if leafset.block_hash == block_hash
      then verify_leafset leafset leafset_root output_mmr_size
      else rejected protocol

pub record MwebUtxoEntry (O : Type 0) : Type 0 where
  pub leaf_index : ℕ
  pub output : O

module _ {O : Type 0} where
  -- `windows(2).any(|w| w[0].leaf_index >= w[1].leaf_index)`.
  unfoldable pub is_unordered : List (MwebUtxoEntry O) → Bool
  is_unordered [] = false
  is_unordered (a ∷ []) = false
  is_unordered (a ∷ b ∷ rest) = leb b.leaf_index a.leaf_index || is_unordered (b ∷ rest)

  -- The loop over the entries.
  unfoldable pub check_entries : List (MwebUtxoEntry O) → ℕ → List ℕ → Verdict
  check_entries [] num_leaves bits = accepted
  check_entries (entry ∷ entries) num_leaves bits =
      let rest = check_entries entries num_leaves bits in
      if leb num_leaves entry.leaf_index
      then rejected protocol
      else if bitset_test bits entry.leaf_index
      then rest
      else rejected bad_proof

  -- `verify_utxo_batch` up to its fast path, where `num_leaves` is the header's `output_mmr_size`:
  -- an empty batch is accepted at once, and any other that is `accepted` goes on to the roots.
  unfoldable pub check_batch : List (MwebUtxoEntry O) → MwebLeafset → ℕ → Verdict
  unfolding is_unordered check_entries
  check_batch [] leafset num_leaves = accepted
  check_batch (first ∷ utxos) leafset num_leaves =
      if num_leaves == 0
      then rejected protocol
      else if ltb max_output_mmr_size num_leaves
      then rejected protocol
      else if is_unordered (first ∷ utxos)
      then rejected protocol
      else if ltb (length leafset.leafset) (bytes_for num_leaves)
      then rejected protocol
      else check_entries (first ∷ utxos) num_leaves (take (bytes_for num_leaves) leafset.leafset)
