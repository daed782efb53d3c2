-- ===== src/Chain/LocalChain/Disconnect/Genesis.antt =====
-- Both outcomes of `LocalChain::disconnect_from` of `crates/chain/src/local_chain.rs`: it refuses
-- to remove the genesis block.
use bdk.Prelude.{
  ℕ, ◌≡◌, ◌≢◌, ◌⊎◌, ◌<◌, refl, sym, ◌∙◌, subst, Option, none, some, ltb, leb, ◌==◌, Bool-cases, inl,
  inr, Result, ok, err, map_option, some-injective, if◌then◌else◌, arith,
}
use bdk.Prelude.BtreeMap
use bdk.Core.BlockId.{BlockId}
use bdk.Core.Checkpoint.{CheckPoint, base, link, ToBlockHash, prev, block_id}
use bdk.Core.Checkpoint.Ancestor.{IsLinked}
use bdk.Core.Checkpoint.Floor.{find, find_above}
use bdk.Core.Checkpoint.Build.Laws.{data_at}
use bdk.Chain.ChangeSet
use bdk.Chain.ChangeSet.{ChangeSet}
use bdk.Chain.LocalChain.{
  LocalChain, MissingGenesisError, disconnect_walk, disconnected, disconnect_from,
}
use bdk.Chain.LocalChain.Disconnect.{
  unset, disconnect_walk-found, found-eq-some, found-eq-target, disconnect_from-data_at,
}

module _ {D : Type 0} where
  -- Below a block that has no previous one the chain has none.
  find-eq-none :
      (c : CheckPoint D) (t k : ℕ) {x : CheckPoint D}
      → IsLinked c
      → find c t ≡ some x
      → prev x ≡ none
      → k < t
      → find c k ≡ none
  unfolding find
  find-eq-none (base b d) t k w e f l = ground (arith, e, l)
  find-eq-none (link b d p s i) t k w e f l = elim (Bool-cases (b.height == t)) [
    | inl here ↦ cc (subst (λ z. prev z ≡ none) (sym (some-injective (rw here at e))) f)
    | inr other ↦
        ground (arith, find-eq-none p t k w.3 (rw other at e) f l, find_above p t w.3, w.1, l)
  ]

module _ {D : Type 0} ⦃t : ToBlockHash D⦄ where
  disconnected-eq-err :
      (self : LocalChain D) (changes : ChangeSet D) (o : Option (CheckPoint D))
      {failure : MissingGenesisError}
      → disconnected self changes o ≡ err failure
      → (x : CheckPoint D) × (o ≡ some x) × (prev x ≡ none)
  unfolding disconnected
  disconnected-eq-err self changes none e = cc
  disconnected-eq-err self changes (some (base b d)) e = (base b d, refl, refl)
  disconnected-eq-err self changes (some (link b d p s i)) e = cc

  -- Success leaves a chain without the block as it was, or removes the blocks of the chain from the
  -- block's height up. Failure is for the lowest block of the chain.
  abbrev pub IsDisconnected :
      LocalChain D → BlockId → ℕ → Result (LocalChain D × ChangeSet D) MissingGenesisError → Type 0
  IsDisconnected self target k (ok r) =
      ((map_option block_id (find self.tip target.height) ≢ some target)
        × (r.0.tip ≡ self.tip)
        × (r.1 ≡ ChangeSet.empty))
      ⊎ ((map_option block_id (find self.tip target.height) ≡ some target)
          × (data_at r.0.tip k ≡ (if ltb k target.height then data_at self.tip k else none))
          × (BtreeMap.get k r.1.blocks ≡ unset (leb target.height k) (find self.tip k) none))
  IsDisconnected self target k (err failure) =
      (map_option block_id (find self.tip target.height) ≡ some target)
      × ((k < target.height) → find self.tip k ≡ none)

  -- To disconnect from a block of a linked chain removes every block from its height up and no
  -- other, with a changeset that unsets just those blocks; if the chain does not have the block, it
  -- stays as it was and the changeset is empty. The one failure is for a block of the chain that has
  -- no other below it.
  pub disconnect_from-IsDisconnected :
      (self : LocalChain D) (target : BlockId) (k : ℕ)
      → IsLinked self.tip
      → IsDisconnected self target k (disconnect_from self target)
  unfolding disconnect_from
  disconnect_from-IsDisconnected self target k w = go (disconnect_from self target) refl
    where
      go :
          (r : Result (LocalChain D × ChangeSet D) MissingGenesisError)
          → disconnect_from self target ≡ r
          → IsDisconnected self target k r
      go (ok r) e = disconnect_from-data_at self r.0 target r.1 k w e
      go (err failure) e =
          let walk = disconnect_walk self.tip target ChangeSet.empty none in
          let walked = disconnect_walk-found self.tip target ChangeSet.empty none w in
          let at_target = find self.tip target.height in
          let (x, some_found, lowest) = disconnected-eq-err self walk.0 walk.1 e in
          let some_at = sym walked ∙ some_found in
          (
            found-eq-target target at_target some_at,
            find-eq-none self.tip target.height k w (found-eq-some target at_target some_at) lowest,
          )
