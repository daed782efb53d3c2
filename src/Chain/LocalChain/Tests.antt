-- ===== src/Chain/LocalChain/Tests.antt =====
-- The changes of a chain and the headers put on it, at inputs.
use bdk.Prelude.{err, Bool, false, ◌≡◌, ◌≢◌, refl, none, some, [], ◌∷◌, ok, arith}
use bdk.Prelude.BtreeMap
use bdk.Core.BlockId.{BlockHash}
use bdk.Core.Checkpoint.{CheckPoint, base, skip_index, ancestor_by_index}
use bdk.Core.Checkpoint.Build.{push, extend, from_blocks}
use bdk.Core.Checkpoint.Build.Laws.{IsValid, data_at}
use bdk.Chain.ChangeSet.{ChangeSet}
use bdk.Chain.LocalChain.{
  LocalChain, disconnect_from, disconnect_walk, disconnected, missing_genesis_error,
  apply_changeset_to_checkpoint, apply_blocks, collect, amend, rebase,
}
use bdk.Chain.LocalChain.Apply.{apply_changeset_to_checkpoint-data_at}
use bdk.Chain.LocalChain.Header.{
  Header, header_to_blockhash, blockhash_to_blockhash, apply_header_connected_to,
}
use bdk.Chain.LocalChain.Header.Total.{apply_header_connected_to-ne-none}
use bdk.Chains.{header, id, blocks, block_2, block_5, other_4, block_5-IsValid}
use bdk.Chain.LocalChain.Disconnect.Genesis.{IsDisconnected, disconnect_from-IsDisconnected}

abbrev reorg_changes : ChangeSet Header
reorg_changes = record {
  blocks = (3, some (header 203 102)) ∷ (4, some (header 204 203)) ∷ (5, none) ∷ [];
}

reorg_applies : apply_changeset_to_checkpoint block_5 reorg_changes ≡ ok other_4
unfolding apply_changeset_to_checkpoint apply_blocks collect amend rebase extend push skip_index
    ancestor_by_index BtreeMap.insert BtreeMap.remove
reorg_applies = refl

apply_changeset_to_checkpoint-data_at_example : IsValid other_4 × (data_at other_4 5 ≡ none)
unfolding BtreeMap.get
apply_changeset_to_checkpoint-data_at_example =
    apply_changeset_to_checkpoint-data_at block_5 reorg_changes 5 block_5-IsValid (omega arith)
      reorg_applies

from_blocks-blocks : from_blocks ((0, header 100 99) ∷ blocks) ≡ ok block_5
unfolding from_blocks extend push skip_index ancestor_by_index
from_blocks-blocks = refl

abbrev hashes : LocalChain BlockHash
hashes = record { tip = base (id 0 100) 100 }

abbrev never : CheckPoint BlockHash → CheckPoint BlockHash → Bool
never a b = false

apply_header_connected_to-ne-none_example :
    apply_header_connected_to never hashes (header 107 106) 7 (id 0 100) ≢ none
apply_header_connected_to-ne-none_example =
    apply_header_connected_to-ne-none never hashes (header 107 106) 7 (id 0 100)

abbrev headers : LocalChain Header
headers = record { tip = block_5 }

abbrev cut_off : ChangeSet Header
cut_off = record { blocks = (3, none) ∷ (5, none) ∷ [] }

disconnect-block_3 : disconnect_from headers (id 3 103) ≡ ok (record { tip = block_2 }, cut_off)
unfolding disconnect_from disconnect_walk disconnected BtreeMap.insert
disconnect-block_3 = refl

disconnect-genesis : disconnect_from headers (id 0 100) ≡ err missing_genesis_error
unfolding disconnect_from disconnect_walk disconnected
disconnect-genesis = refl

disconnect_from-IsDisconnected_example :
    IsDisconnected headers (id 3 103) 5 (disconnect_from headers (id 3 103))
disconnect_from-IsDisconnected_example =
    disconnect_from-IsDisconnected headers (id 3 103) 5 block_5-IsValid.0
