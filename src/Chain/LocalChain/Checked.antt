-- ===== src/Chain/LocalChain/Checked.antt =====
-- `LocalChain::_check_changeset_is_applied` of `crates/chain/src/local_chain.rs`, which the debug
-- assertions call.
mod Tests
use bdk.Prelude.{
  ℕ, Bool, true, false, not, ◌||◌, Option, none, some, List, [], ◌∷◌, reverse, map_option, ◌==◌,
  if◌then◌else◌,
}
use bdk.Core.Checkpoint
use bdk.Core.Checkpoint.{CheckPoint, ToBlockHash, height, hash}
use bdk.Chain.ChangeSet.{ChangeSet}
use bdk.Chain.LocalChain.{LocalChain}

module _ {D : Type 0} ⦃t : ToBlockHash D⦄ where
  -- `Some(cp.hash()) != exp_data.map(to_blockhash)`.
  abbrev differs : CheckPoint D → Option D → Bool
  differs cp none = true
  differs cp (some d) = not (hash cp == t.to_blockhash d)

  abbrev is_some : Option D → Bool
  is_some none = false
  is_some (some d) = true

  -- The loop, over the entries from the highest down.
  unfoldable pub check_entries : CheckPoint D → List (ℕ × Option D) → Bool
  check_entries cur [] = true
  check_entries cur ((exp_height, exp_data) ∷ rest) = elim (Checkpoint.get cur exp_height) [
    | some cp ↦
        if not (height cp == exp_height) || differs cp exp_data
        then false
        else check_entries cp rest
    | none ↦ if is_some exp_data then false else check_entries cur rest
  ]

  pub check_changeset_is_applied : LocalChain D → ChangeSet D → Bool
  unfolding check_entries
  check_changeset_is_applied self changeset = check_entries self.tip (reverse changeset.blocks)
