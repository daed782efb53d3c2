-- ===== src/Core/Checkpoint/Build/Tests.antt =====
-- Runs of the operations that build a chain, and their theorems at inputs.
use bdk.Prelude.{◌≡◌, refl, none, some, ok, err}
use bdk.Core.Checkpoint.{CheckPoint, link, skip_index, ancestor_by_index}
use bdk.Core.Checkpoint.Build.{
  push, extend, insert, insert_walk, insert_round, genesis_agrees, rebuild, either,
}
use bdk.Core.Checkpoint.Build.Laws.{IsValid, extend-IsValid}
use bdk.Core.Checkpoint.Build.Rebuild.{Inserted, insert-Inserted}
use bdk.Chain.LocalChain.Header.{Header, header_to_blockhash}
use bdk.Chains.{
  header, id, blocks, genesis, block_1, block_2, block_3, block_5, other_3, genesis-IsValid,
  block_5-IsValid, extend-blocks,
}

abbrev block_4 : CheckPoint Header
block_4 = link (id 4 104) (header 104 103) block_3 genesis 4

abbrev filled_5 : CheckPoint Header
filled_5 = link (id 5 105) (header 105 104) block_4 block_1 5

-- A block between two others is put in, and the block above it stays.
insert-gap : insert block_5 4 (header 104 103) ≡ some filled_5
unfolding insert insert_walk insert_round genesis_agrees rebuild either extend push skip_index
    ancestor_by_index
insert-gap = refl

-- Another block at a height takes the place of the block there and of all above it.
insert-displaced : insert block_5 3 (header 203 102) ≡ some other_3
unfolding insert insert_walk insert_round genesis_agrees rebuild either extend push skip_index
    ancestor_by_index
insert-displaced = refl

insert-panics : insert block_5 0 (header 200 199) ≡ none
unfolding insert insert_walk insert_round genesis_agrees rebuild
insert-panics = refl

push-orphan : push block_2 3 (header 103 55) ≡ err block_2
unfolding push
push-orphan = refl

push-block_3 : push block_2 3 (header 203 102) ≡ ok other_3
unfolding push skip_index ancestor_by_index
push-block_3 = refl

insert-Inserted_example : Inserted 3 (header 203 102) block_5 other_3
insert-Inserted_example =
    insert-Inserted block_5 3 (header 203 102) block_5-IsValid insert-displaced

extend-IsValid_example : IsValid block_5
extend-IsValid_example = extend-IsValid genesis blocks genesis-IsValid extend-blocks
