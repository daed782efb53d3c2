-- ===== src/Chain/LocalChain/Checked/Tests.antt =====
-- The check of an applied changeset at inputs.
use bdk.Prelude.{true, false, ◌≡◌, refl, none, some, [], ◌∷◌}
use bdk.Core.Checkpoint.{get, walk_to_floor}
use bdk.Chain.LocalChain.Checked.{check_changeset_is_applied, check_entries}
use bdk.Chain.LocalChain.Header.{header_to_blockhash}
use bdk.Chains.{header, block_5, other_4}

reorg_checks :
    check_changeset_is_applied
      (record { tip = other_4 })
      (record { blocks = (3, some (header 203 102)) ∷ (4, some (header 204 203)) ∷ (5, none) ∷ [] })
    ≡ true
unfolding check_changeset_is_applied check_entries get walk_to_floor
reorg_checks = refl

old_chain_fails :
    check_changeset_is_applied
      (record { tip = block_5 })
      (record { blocks = (3, some (header 203 102)) ∷ (5, none) ∷ [] })
    ≡ false
unfolding check_changeset_is_applied check_entries get walk_to_floor
old_chain_fails = refl
