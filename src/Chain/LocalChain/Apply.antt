-- ===== src/Chain/LocalChain/Apply.antt =====
-- What `apply_changeset_to_checkpoint` of `crates/chain/src/local_chain.rs` does to the blocks.
use bdk.Prelude.{
  ℕ, ◌≤◌, ◌<◌, ◌≡◌, refl, sym, ap, ◌∙◌, subst, Option, none, some, [], ◌∷◌, arith, Bool-cases, inl,
  inr, ltb, ltb→lt, ltb→le, lt→leb, le→leb, leb, leb→le, leb→lt, ◌==◌, Result, ok, err, map_ok,
  map_err, or_else, ok-injective, le→leb, if◌then◌else◌,
}
use bdk.Prelude.BtreeMap
use bdk.Prelude.BtreeMap.{BtreeMap, IsAbove, IsSorted}
use bdk.Core.BlockId.{BlockId}
use bdk.Core.Checkpoint.{CheckPoint, base, link, ToBlockHash, height}
use bdk.Core.Checkpoint.Floor.{find}
use bdk.Core.Checkpoint.Build.{new, extend, from_blocks}
use bdk.Core.Checkpoint.Build.Laws.{
  data_at, IsValid, new-IsValid, extend-IsValid, extend-ascends, data_at-extend,
}
use bdk.Chain.ChangeSet.{ChangeSet}
use bdk.Chain.LocalChain.{
  LocalChain, collect, amend, rebase, local_chain_from_blocks, apply_changeset_to_checkpoint,
  apply_blocks, missing_genesis, mismatch,
}
use bdk.Chain.LocalChain.Collect.{
  overlay, map_err-eq-ok, or_else-none, data_at_above, from_height, get-amend, get-collect,
  collect-IsSorted,
}

module _ {D : Type 0} ⦃t : ToBlockHash D⦄ where
  -- What is left below the first changed height: a valid chain, or nothing.
  abbrev IsLower : CheckPoint D → ℕ → Option (CheckPoint D) → Type 0
  IsLower c start none = (k : ℕ) → k < start → data_at c k ≡ none
  IsLower c start (some lower) =
      IsValid lower × (height lower < start) × ((k : ℕ) → k < start → data_at c k ≡ data_at lower k)

  data_at_up :
      (b : BlockId) (d : D) (p s : CheckPoint D) (i k start : ℕ)
      → start ≤ b.height
      → k < start
      → data_at (link b d p s i) k ≡ data_at p k
  unfolding find
  data_at_up b d p s i k start l m = ground arith

  IsLower-link :
      (b : BlockId) (d : D) (p s : CheckPoint D) (i start : ℕ) (o : Option (CheckPoint D))
      → start ≤ b.height
      → IsLower p start o
      → IsLower (link b d p s i) start o
  IsLower-link b d p s i start none l h = λ k m. data_at_up b d p s i k start l m ∙ h k m
  IsLower-link b d p s i start (some lower) l h =
      (h.0, h.1, λ k m. data_at_up b d p s i k start l m ∙ h.2 k m)

  base_low : (b : BlockId) (d : D) (k : ℕ) → k < b.height → data_at (base b d) k ≡ none
  unfolding find
  base_low b d k l = ground arith

  collect-IsLower :
      (c : CheckPoint D) (start : ℕ) (ext : BtreeMap D)
      → IsValid c
      → IsLower c start (collect c start ext).1
  unfolding collect
  collect-IsLower (base b d) start ext v = elim (Bool-cases (leb start b.height)) [
    | inl up ↦ rw up (λ k m. base_low b d k (omega (arith, leb→le start b.height up)))
    | inr low ↦ rw low (v, leb→lt start b.height low, λ k m. refl)
  ]
  collect-IsLower (link b d p s i) start ext v = elim (Bool-cases (leb start b.height)) [
    | inl up ↦ rw up (
        IsLower-link b d p s i start _ (leb→le start b.height up)
          (collect-IsLower p start (BtreeMap.insert b.height d ext) (v.0.3, v.1.2)))
    | inr low ↦ rw low (v, leb→lt start b.height low, λ k m. refl)
  ]

  data_at-new : (h : ℕ) (d : D) (k : ℕ) → data_at (new h d) k ≡ (if k == h then some d else none)
  unfolding new find
  data_at-new h d k = ground arith

  -- A chain that `from_blocks` builds is valid, and each height reads as the blocks do.
  pub from_blocks-data_at :
      (blocks : BtreeMap D) {c : CheckPoint D} (k : ℕ)
      → from_blocks blocks ≡ ok c
      → IsValid c × (data_at c k ≡ BtreeMap.get k blocks)
  unfolding from_blocks
  from_blocks-data_at [] k e = cc
  from_blocks-data_at ((h, d) ∷ rest) k e =
      let grown = map_err-eq-ok some (extend (new h d) rest) e in
      let up : IsAbove h rest = (extend-ascends (new h d) rest grown).0 in
      (
        extend-IsValid (new h d) rest (new-IsValid h d) grown,
        data_at-extend (new h d) rest k grown
            ∙ ap (or_else (BtreeMap.get k rest)) (data_at-new h d k)
            ∙ BtreeMap.first_wins h d rest k none up
            ∙ or_else-none (BtreeMap.get k ((h, d) ∷ rest)),
      )

  rebase-eq-ok :
      (ext : BtreeMap D) {c' : CheckPoint D} → rebase none ext ≡ ok c' → from_blocks ext ≡ ok c'
  unfolding rebase local_chain_from_blocks
  rebase-eq-ok ext {c' = c'} e = go (BtreeMap.get 0 ext) (from_blocks ext) e
    where
      go :
          (o : Option D) (r : Result (CheckPoint D) (Option (CheckPoint D)))
          → map_ok
              (λ (chain : LocalChain D). chain.tip)
              (elim o [
                | none ↦ err missing_genesis
                | some genesis ↦ map_err mismatch (map_ok (λ tip. record { tip = tip }) r)
              ])
            ≡ ok c'
          → r ≡ ok c'
      go none r e = cc
      go (some g) (ok x) e = ap ok (ok-injective e)
      go (some g) (err x) e = cc

  below_start : CheckPoint D → ℕ → ℕ → Option D
  below_start c start k = if ltb k start then data_at c k else none

  -- The extension on top of what is left below it.
  rebased :
      (c : CheckPoint D) (start : ℕ) (lower : Option (CheckPoint D)) (ext : BtreeMap D) (k : ℕ)
      → {c' : CheckPoint D} → IsLower c start lower
      → rebase lower ext ≡ ok c'
      → IsValid c' × (data_at c' k ≡ or_else (BtreeMap.get k ext) (below_start c start k))
  unfolding rebase below_start
  rebased c start none ext k l e =
      let (valid, reads) = from_blocks-data_at ext k (rebase-eq-ok ext e) in
      (
        valid,
        reads
            ∙ sym (or_else-none (BtreeMap.get k ext))
            ∙ ap (or_else (BtreeMap.get k ext)) (nothing l),
      )
    where
      nothing : IsLower c start none → none ≡ (if ltb k start then data_at c k else none)
      nothing l = elim (Bool-cases (ltb k start)) [
        | inl low ↦ rw low (sym (l k (ltb→lt k start low)))
        | inr high ↦ rw high
      ]
  rebased c start (some lower) ext k l e =
      let grown = map_err-eq-ok _ (extend lower ext) e in
      (
        extend-IsValid lower ext l.0 grown,
        data_at-extend lower ext k grown ∙ ap (or_else (BtreeMap.get k ext)) (lower_reads l),
      )
    where
      lower_reads :
          IsLower c start (some lower)
          → data_at lower k ≡ (if ltb k start then data_at c k else none)
      lower_reads l = elim (Bool-cases (ltb k start)) [
        | inl low ↦ rw low (sym (l.2 k (ltb→lt k start low)))
        | inr high ↦ rw high (data_at_above lower k l.0.0 (omega (arith, ltb→le k start high, l.1)))
      ]

  -- The changed blocks over those below the first changed height are the changes over the chain.
  regroup :
      (c : CheckPoint D) (start k : ℕ) (v : Option D) (rest : BtreeMap (Option D))
      → IsSorted ((start, v) ∷ rest)
      → or_else
          (overlay (BtreeMap.get k ((start, v) ∷ rest)) (or_else (from_height c start k) none))
          (below_start c start k)
        ≡ overlay (BtreeMap.get k ((start, v) ∷ rest)) (data_at c k)
  unfolding below_start
  regroup c start k v rest z = elim (Bool-cases (ltb k start)) [
    | inl low ↦
        let below : k < start = ltb→lt k start low in
        let unchanged : BtreeMap.get k ((start, v) ∷ rest) ≡ none =
          BtreeMap.get_self-IsAbove k ((start, v) ∷ rest)
            (below, BtreeMap.IsAbove-trans k start rest below z.0) in
        rw (low, unchanged, lt→leb start k below) refl
    | inr high ↦
        rw (high, le→leb start k (ltb→le k start high))
          (or_else-none (overlay (BtreeMap.get k ((start, v) ∷ rest)) (or_else (data_at c k) none))
            ∙ ap (overlay (BtreeMap.get k ((start, v) ∷ rest))) (or_else-none (data_at c k)))
  ]

  -- A sorted changeset that applies to a valid chain gives a valid chain in which each height
  -- reads as the changeset says, and as before where it says nothing.
  pub apply_changeset_to_checkpoint-data_at :
      (c : CheckPoint D) (cs : ChangeSet D) (k : ℕ) {c' : CheckPoint D}
      → IsValid c
      → IsSorted cs.blocks
      → apply_changeset_to_checkpoint c cs ≡ ok c'
      → IsValid c' × (data_at c' k ≡ overlay (BtreeMap.get k cs.blocks) (data_at c k))
  unfolding apply_changeset_to_checkpoint BtreeMap.get
  apply_changeset_to_checkpoint-data_at c cs k v z e = go cs.blocks z e
    where
      go :
          (blocks : BtreeMap (Option D)) {c' : CheckPoint D}
          → IsSorted blocks
          → apply_blocks c blocks ≡ ok c'
          → IsValid c' × (data_at c' k ≡ overlay (BtreeMap.get k blocks) (data_at c k))
      go [] z e = subst (λ x. IsValid x × (data_at x k ≡ data_at c k)) (ok-injective e) (v, refl)
      go ((start, first) ∷ rest) z e =
          let blocks : BtreeMap (Option D) = (start, first) ∷ rest in
          let ext = (collect c start []).0 in
          let sorted : IsSorted ext = collect-IsSorted c start [] tt in
          let (valid, reads) =
            rebased c start (collect c start []).1 (amend blocks ext) k
              (collect-IsLower c start [] v) e in
          (
            valid,
            reads
                ∙ ap (λ o. or_else o (below_start c start k))
                    (get-amend k blocks ext z sorted
                      ∙ ap (overlay (BtreeMap.get k blocks)) (get-collect c start [] k v.0))
                ∙ regroup c start k first rest z,
          )
