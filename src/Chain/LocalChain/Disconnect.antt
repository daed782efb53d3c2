-- ===== src/Chain/LocalChain/Disconnect.antt =====
-- What `LocalChain::disconnect_from` of `crates/chain/src/local_chain.rs` removes.
pub mod Genesis
use bdk.Prelude.{
  ℕ, ◌≡◌, ◌≢◌, ◌⊎◌, refl, sym, ap, ◌∙◌, subst, Bool, true, false, Option, none, some, ltb, leb,
  ltb→lt, ◌==◌, ==_iff, Bool-cases, inl, inr, Result, ok, err, map_option, ok-injective,
  some-injective, if◌then◌else◌, arith,
}
use bdk.Prelude.BtreeMap
use bdk.Core.BlockId.{BlockId, block_id_eq}
use bdk.Core.Checkpoint.{CheckPoint, base, link, ToBlockHash, prev, block_id, data_ref}
use bdk.Core.Checkpoint.Ancestor.{IsLinked}
use bdk.Core.Checkpoint.Floor.{find, find_above}
use bdk.Core.Checkpoint.Build.Laws.{data_at}
use bdk.Chain.ChangeSet
use bdk.Chain.ChangeSet.{ChangeSet}
use bdk.Chain.LocalChain.{
  LocalChain, MissingGenesisError, missing_genesis_error, disconnect_walk, disconnected,
  disconnect_from,
}

block_id_eq-eq : (a b : BlockId) → block_id_eq a b ≡ true → a ≡ b
block_id_eq-eq a b e = ground (arith, e)

block_id_eq_self : (a : BlockId) → block_id_eq a a ≡ true
block_id_eq_self a = ground arith

module _ {D : Type 0} where
  map_option_if :
      (b : Bool) (o : Option (CheckPoint D))
      → map_option data_ref (if b then o else none) ≡ (if b then map_option data_ref o else none)
  map_option_if true o = refl
  map_option_if false o = refl

  -- Below a block of the chain stands the chain below its height.
  find-prev :
      (c : CheckPoint D) (t k : ℕ) {x y : CheckPoint D}
      → IsLinked c
      → find c t ≡ some x
      → prev x ≡ some y
      → find y k ≡ (if ltb k t then find c k else none)
  unfolding find
  find-prev (base b d) t k w e f = elim (Bool-cases (b.height == t)) [
    | inl here ↦ cc (rw here at e)
    | inr other ↦ cc (rw other at e)
  ]
  find-prev (link b d p s i) t k {y = y} w e f = elim (Bool-cases (b.height == t)) [
    | inl here ↦
        let same : link b d p s i ≡ _ = some-injective (rw here at e) in
        subst
          (λ z. find z k ≡ (
            if ltb k t
            then (let rest = find p k in if b.height == k then some (link b d p s i) else rest)
            else none))
          (some-injective (subst (λ z. prev z ≡ some y) (sym same) f))
          (ground (arith, find_above p k w.3, w.1))
    | inr other ↦ ground (arith, find-prev p t k w.3 (rw other at e) f, find_above p t w.3, w.1)
  ]

module _ {D : Type 0} ⦃t : ToBlockHash D⦄ where
  -- The block of a chain at the target's height, where that is the target.
  abbrev pub found : BlockId → Option (CheckPoint D) → Option (CheckPoint D) → Option (CheckPoint D)
  found target none r = r
  found target (some x) r = if block_id_eq (block_id x) target then some x else r

  -- The loop finds the block at the target's height, where that is the target.
  disconnect_walk-found :
      (c : CheckPoint D) (target : BlockId) (cs : ChangeSet D) (r : Option (CheckPoint D))
      → IsLinked c
      → (disconnect_walk c target cs r).1 ≡ found target (find c target.height) r
  unfolding disconnect_walk find
  disconnect_walk-found (base b d) target cs r w = ground arith
  disconnect_walk-found (link b d p s i) target cs r w =
      let c = link b d p s i in
      let cs' = ChangeSet.insert b.height none cs in
      elim (Bool-cases (ltb b.height target.height)) [
        | inl low ↦ rw low (
            ap (λ o. found target o r)
              (sym (find_above c target.height w (ltb→lt b.height target.height low))))
        | inr high ↦ elim (Bool-cases (b.height == target.height)) [
          | inl here ↦
              let at : b.height ≡ target.height = (==_iff b.height target.height).0 here in
              let r' : Option (CheckPoint D) = if block_id_eq b target then some c else r in
              let at_c : find c target.height ≡ some c = rw here refl in
              rw high (
                disconnect_walk-found p target cs' r' w.3
                ∙ ap (λ o. found target o r')
                    (find_above p target.height w.3 (omega (arith, w.1, at)))
                ∙ ap (λ o. found target o r) (sym at_c))
          | inr other ↦ rw (high, other) (disconnect_walk-found p target cs' r w.3)
        ]
      ]

  -- The change of a height: a block that is there and from the target's height on is unset.
  abbrev pub unset : Bool → Option (CheckPoint D) → Option (Option D) → Option (Option D)
  unset removed none o = o
  unset removed (some x) o = if removed then some none else o

  unset_none : (x : Option (CheckPoint D)) (o : Option (Option D)) → unset false x o ≡ o
  unset_none none o = refl
  unset_none (some x) o = refl

  -- The loop unsets every block from the target's height on, and nothing else.
  disconnect_walk-unset :
      (c : CheckPoint D) (target : BlockId) (cs : ChangeSet D) (r : Option (CheckPoint D)) (k : ℕ)
      → IsLinked c
      → BtreeMap.get k (disconnect_walk c target cs r).0.blocks
        ≡ unset (leb target.height k) (find c k) (BtreeMap.get k cs.blocks)
  unfolding disconnect_walk find
  disconnect_walk-unset (base b d) target cs r k w =
      ground (arith, BtreeMap.get-insert k b.height none cs.blocks)
  disconnect_walk-unset (link b d p s i) target cs r k w =
      let c = link b d p s i in
      let cs' = ChangeSet.insert b.height none cs in
      let r' : Option (CheckPoint D) = if block_id_eq b target then some c else r in
      elim (Bool-cases (ltb b.height target.height)) [
        | inl low ↦ elim (Bool-cases (leb target.height k)) [
          | inl over ↦
              let absent : find c k ≡ none = find_above c k w (ground (arith, low, over)) in
              rw (low, absent) refl
          | inr under ↦ rw (low, under) (sym (unset_none (find c k) (BtreeMap.get k cs.blocks)))
        ]
        | inr high ↦ rw high (
            disconnect_walk-unset p target cs' r' k w.3 ∙ elim (Bool-cases (b.height == k)) [
              | inl here ↦
                  let at : b.height ≡ k = (==_iff b.height k).0 here in
                  let absent : find p k ≡ none = find_above p k w.3 (omega (arith, w.1, at)) in
                  let removed : leb target.height k ≡ true = ground (arith, high, at) in
                  let same : (k == b.height) ≡ true = (==_iff k b.height).1 (sym at) in
                  rw (absent, removed, here, BtreeMap.get-insert k b.height none cs.blocks, same)
                    refl
              | inr other ↦
                  let differ : (k == b.height) ≡ false = ground (arith, other) in
                  rw (other, BtreeMap.get-insert k b.height none cs.blocks, differ) refl
            ])
      ]

  disconnected-eq-ok :
      (self chain : LocalChain D) (changes after : ChangeSet D) (o : Option (CheckPoint D))
      → disconnected self changes o ≡ ok (chain, after)
      → ((o ≡ none) × (chain.tip ≡ self.tip) × (after ≡ ChangeSet.empty))
        ⊎ ((x : CheckPoint D) × (o ≡ some x) × (prev x ≡ some chain.tip) × (after ≡ changes))
  unfolding disconnected
  disconnected-eq-ok self chain changes after none e = inl (
    refl,
    sym (ap (λ (r : LocalChain D × ChangeSet D). r.0.tip) (ok-injective e)),
    sym (ap (λ (r : LocalChain D × ChangeSet D). r.1) (ok-injective e)),
  )
  disconnected-eq-ok self chain changes after (some x) e = go (prev x) refl e
    where
      go :
          (p : Option (CheckPoint D))
          → prev x ≡ p
          → ◌≡◌ {A = Result (LocalChain D × ChangeSet D) MissingGenesisError}
              (elim p [
                | some new_tip ↦ ok (record { tip = new_tip }, changes)
                | none ↦ err missing_genesis_error
              ])
              (ok (chain, after))
          → ((some x ≡ none) × (chain.tip ≡ self.tip) × (after ≡ ChangeSet.empty))
            ⊎ ((z : CheckPoint D) × (some x ≡ some z)
                × (prev z ≡ some chain.tip)
                × (after ≡ changes))
      go none f e = cc
      go (some y) f e = inr (
        x,
        refl,
        f ∙ ap (λ (r : LocalChain D × ChangeSet D). some (r.0.tip)) (ok-injective e),
        sym (ap (λ (r : LocalChain D × ChangeSet D). r.1) (ok-injective e)),
      )

  found-eq-some :
      (target : BlockId) (o : Option (CheckPoint D)) {x : CheckPoint D}
      → found target o none ≡ some x
      → o ≡ some x
  found-eq-some target none e = cc
  found-eq-some target (some y) e = elim (Bool-cases (block_id_eq (block_id y) target)) [
    | inl same ↦ rw same at e
    | inr other ↦ cc (rw other at e)
  ]

  -- The block at the target's height is the target just when the loop finds it.
  found-eq-target :
      (target : BlockId) (o : Option (CheckPoint D)) {x : CheckPoint D}
      → found target o none ≡ some x
      → map_option block_id o ≡ some target
  found-eq-target target none e = cc
  found-eq-target target (some y) e = elim (Bool-cases (block_id_eq (block_id y) target)) [
    | inl same ↦ ap some (block_id_eq-eq (block_id y) target same)
    | inr other ↦ cc (rw other at e)
  ]

  found-eq-none :
      (target : BlockId) (o : Option (CheckPoint D))
      → found target o none ≡ none
      → map_option block_id o ≢ some target
  found-eq-none target none e h = cc
  found-eq-none target (some y) e h =
      let same : block_id_eq (block_id y) target ≡ true =
        ap (λ b. block_id_eq b target) (some-injective h) ∙ block_id_eq_self target in
      cc (rw same at e)

  -- To disconnect from a block, where it succeeds on a linked chain, leaves the chain as it was with
  -- an empty changeset, if the chain does not have that block. Or else the chain has it, and every
  -- block from its height up is removed and no other, and the changeset unsets just those blocks.
  disconnect_from-data_at :
      (self chain : LocalChain D) (target : BlockId) (changes : ChangeSet D) (k : ℕ)
      → IsLinked self.tip
      → disconnect_from self target ≡ ok (chain, changes)
      → ((map_option block_id (find self.tip target.height) ≢ some target)
          × (chain.tip ≡ self.tip)
          × (changes ≡ ChangeSet.empty))
        ⊎ ((map_option block_id (find self.tip target.height) ≡ some target)
            × (data_at chain.tip k ≡ (if ltb k target.height then data_at self.tip k else none))
            × (BtreeMap.get k changes.blocks ≡ unset (leb target.height k) (find self.tip k) none))
  unfolding disconnect_from BtreeMap.get
  disconnect_from-data_at self chain target changes k w e =
      let walk = disconnect_walk self.tip target ChangeSet.empty none in
      let walked = disconnect_walk-found self.tip target ChangeSet.empty none w in
      let at_target = find self.tip target.height in
      elim (disconnected-eq-ok self chain walk.0 changes walk.1 e) [
        | inl (none_found, same, nothing) ↦
            inl (found-eq-none target at_target (sym walked ∙ none_found), same, nothing)
        | inr (x, some_found, below, walk_changes) ↦
            let at : at_target ≡ some x =
              found-eq-some target at_target (sym walked ∙ some_found) in
            inr (
              found-eq-target target at_target (sym walked ∙ some_found),
              ap (map_option data_ref) (find-prev self.tip target.height k w at below)
                  ∙ map_option_if (ltb k target.height) (find self.tip k),
              ap (λ (cs : ChangeSet D). BtreeMap.get k cs.blocks) walk_changes
                  ∙ disconnect_walk-unset self.tip target ChangeSet.empty none k w,
            )
      ]
