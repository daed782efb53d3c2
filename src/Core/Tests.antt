-- ===== src/Core/Tests.antt =====
-- The merge of maps, and the entries of a chain, at inputs.
use bdk.Prelude.{ℕ, [], ◌∷◌}
use bdk.Prelude.BtreeMap.{BtreeMap}
use bdk.Core.Entry.{entry_iter}
use bdk.Core.Entry.Laws.{AreEntries, entry_iter-AreEntries}
use bdk.Chain.LocalChain.Header.{header_to_blockhash}
use bdk.Chains.{block_5, block_5-IsValid}

abbrev low_keys : BtreeMap ℕ
low_keys = (1, 10) ∷ (3, 30) ∷ []

abbrev high_keys : BtreeMap ℕ
high_keys = (3, 31) ∷ (5, 50) ∷ []

entry_iter-AreEntries_example : AreEntries block_5 (entry_iter block_5)
entry_iter-AreEntries_example = entry_iter-AreEntries block_5 block_5-IsValid.0
