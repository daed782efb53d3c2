-- ===== src/Chain/LocalChain/Merge/Tests.antt =====
-- Runs of `LocalChain` and its merge, and the theorems about them at inputs.
use bdk.Prelude.{
  map_option, some, Bool, true, false, ◌&&◌, ◌==◌, ◌≡◌, refl, none, [], ◌∷◌, ok, arith,
}
use bdk.Prelude.BtreeMap
use bdk.Core.Checkpoint.{CheckPoint, base, link, walk_to_floor, skip_index, ancestor_by_index}
use bdk.Core.Checkpoint.Floor.{find}
use bdk.Core.Checkpoint.Build.{extend, push}
use bdk.Core.Checkpoint.Build.Laws.{IsValid, data_at}
use bdk.Core.Checkpoint.Build.Insert.{hash_at}
use bdk.Core.Entry.{entry_iter, prev}
use bdk.Chain.ChangeSet.{ChangeSet}
use bdk.Chain.LocalChain.Collect.{overlay}
use bdk.Chain.LocalChain.{apply_changeset_to_checkpoint, apply_blocks, collect, amend, rebase}
use bdk.Chain.LocalChain.Merge.{
  merge_chains, merge_loop, after_loop, finish, meet, ambiguous, agree, disagree, invalidate,
  update_only, orig_only,
}
use bdk.Chain.LocalChain.Merge.Outcome.{Outcome, merge_chains-overlay, merge_chains-hash_at}
use bdk.Chain.LocalChain.Header.{Header, header_to_blockhash, blockhash_to_blockhash}
use bdk.Chains.{id, genesis, block_2, header, block_5, other_4, block_5-IsValid, other_4-IsValid}

-- A pointer comparison for the examples: the base nodes are shared.
same_base : CheckPoint Header → CheckPoint Header → Bool
same_base (base b d) (base c e) =
    (b.height == c.height && b.hash == c.hash)
    && (d.block_hash == e.block_hash && d.prev_blockhash == e.prev_blockhash)
same_base (base b d) (link c e p s i) = false
same_base (link b d p s i) c = false

same_base_sound : (a b : CheckPoint Header) → same_base a b ≡ true → a ≡ b
unfolding same_base
same_base_sound (base b d) (base c e) h = ground arith
same_base_sound (base b d) (link c e p s i) h = cc
same_base_sound (link b d p s i) c h = cc

abbrev reorg_changes : ChangeSet Header
reorg_changes = record {
  blocks = (3, some (header 203 102)) ∷ (4, some (header 204 203)) ∷ (5, none) ∷ [];
}

at_4 : data_at other_4 4 ≡ some (header 204 203)
unfolding find
at_4 = refl

reorg_merges : merge_chains same_base block_5 other_4 ≡ ok (other_4, reorg_changes)
unfolding merge_chains merge_loop after_loop finish meet ambiguous agree disagree invalidate
    update_only orig_only apply_changeset_to_checkpoint apply_blocks collect amend rebase extend
    push skip_index ancestor_by_index walk_to_floor entry_iter prev BtreeMap.insert BtreeMap.remove
    same_base
reorg_merges = refl

merge_chains-hash_at_example : IsValid other_4 × (hash_at other_4 4 ≡ some 204)
unfolding same_base
merge_chains-hash_at_example =
    merge_chains-hash_at same_base block_5 other_4 4 (header 204 203) same_base_sound
      block_5-IsValid other_4-IsValid reorg_merges at_4

merge_chains-overlay_example :
    Outcome block_5 other_4 (other_4, reorg_changes)
    × (map_option header_to_blockhash.to_blockhash
          (overlay (BtreeMap.get 4 reorg_changes.blocks) (data_at block_5 4))
        ≡ some 204)
unfolding same_base
merge_chains-overlay_example =
    merge_chains-overlay same_base block_5 other_4 4 (header 204 203) same_base_sound
      block_5-IsValid other_4-IsValid reorg_merges at_4

-- A chain that has no block at height 1, where its block at height 2 names the one of `block_2`.
abbrev sparse_2 : CheckPoint Header
sparse_2 = link (id 2 102) (header 102 101) genesis genesis 1

abbrev sparse_3 : CheckPoint Header
sparse_3 = link (id 3 103) (header 103 102) sparse_2 genesis 2

-- The update's tip is taken as it stands: the block at height 1 is gone, though the changeset does
-- not unset it.
sparse_merges :
    merge_chains same_base block_2 sparse_3
    ≡ ok (sparse_3, record { blocks = (3, some (header 103 102)) ∷ [] })
unfolding merge_chains merge_loop after_loop finish meet ambiguous agree disagree invalidate
    update_only orig_only apply_changeset_to_checkpoint apply_blocks collect amend rebase extend
    push skip_index ancestor_by_index walk_to_floor entry_iter prev BtreeMap.insert BtreeMap.remove
    same_base
sparse_merges = refl
