-- ===== src/Core/Checkpoint/Build/Laws.antt =====
-- What `push` and `extend` of `crates/core/src/checkpoint.rs` keep and give.
use bdk.Prelude.{
  ℕ, ◌+◌, ◌<◌, ◌≡◌, refl, sym, ap, ◌∙◌, Option, some, List, [], ◌∷◌, arith, false, Bool-cases, inl,
  inr, leb, leb→lt, ok-injective, subst, ◌==◌, Result, ok, err, or_else, map_option, if◌then◌else◌,
}
use bdk.Prelude.BtreeMap
use bdk.Prelude.BtreeMap.{IsAbove, IsSorted}
use bdk.Core.Checkpoint.{
  CheckPoint, base, link, ToBlockHash, data_ref, height, index, skip_index, ancestor_by_index,
}
use bdk.Core.Checkpoint.Ancestor.{ancestor, IsLinked, ancestor_by_index-eq-ancestor}
use bdk.Core.Checkpoint.Floor.{find}
use bdk.Core.Checkpoint.Build.{conflicts, block_id_of, new, push, extend}

-- The data at a height.
abbrev pub data_at : {D : Type 0} → CheckPoint D → ℕ → Option D
data_at c h = map_option data_ref (find c h)

module _ {D : Type 0} ⦃t : ToBlockHash D⦄ where
  -- Each node has the hash of its data, and names no other block than its `prev` as its parent
  -- where that stands right below it.
  abbrev pub IsHashed : CheckPoint D → Type 0
  IsHashed (base b d) = b.hash ≡ t.to_blockhash d
  IsHashed (link b d p s i) =
      (b.hash ≡ t.to_blockhash d) × (conflicts p b.height d ≡ false) × IsHashed p

  abbrev pub IsValid : CheckPoint D → Type 0
  IsValid c = IsLinked c × IsHashed c

  pub new-IsValid : (h : ℕ) (d : D) → IsValid (new h d)
  unfolding new
  new-IsValid h d = (tt, refl)

  -- What a push that succeeds has tested, and the node that it makes.
  pub push-eq-ok :
      (c : CheckPoint D) (h : ℕ) (d : D) {c' : CheckPoint D}
      → push c h d ≡ ok c'
      → (height c < h)
        × (conflicts c h d ≡ false)
        × (c'
            ≡ link
                (block_id_of h d)
                d
                c
                (ancestor_by_index c (skip_index (index c + 1)))
                (index c + 1))
  unfolding push
  push-eq-ok c h d e = elim (Bool-cases (leb h (height c))) [
    | inl low ↦ cc (rw low at e)
    | inr high ↦ elim (Bool-cases (conflicts c h d)) [
      | inl clash ↦ cc (rw (high, clash) at e)
      | inr fits ↦ (leb→lt h (height c) high, fits, ok-injective (sym (rw (high, fits) at e)))
    ]
  ]

  -- A push that succeeds on a valid chain gives a valid chain.
  pub push-IsValid :
      (c : CheckPoint D) (h : ℕ) (d : D) {c' : CheckPoint D}
      → IsValid c
      → push c h d ≡ ok c'
      → IsValid c'
  push-IsValid c h d v e =
      let (above, fits, made) = push-eq-ok c h d e in
      rw made (
        (
          omega arith,
          above,
          ancestor_by_index-eq-ancestor c _ v.0 ∙ ap (λ k. ancestor c (skip_index k)) (omega arith),
          v.0,
        ),
        (refl, fits, v.1),
      )

  -- A pushed block stands above the tip, and nothing else changes.
  pub push-data_at :
      (c : CheckPoint D) (h : ℕ) (d : D) {c' : CheckPoint D} (k : ℕ)
      → push c h d ≡ ok c'
      → data_at c' k ≡ (if k == h then some d else data_at c k)
  unfolding find
  push-data_at c h d k e = rw (push-eq-ok c h d e).2 (ground arith)

  pub height-push :
      (c : CheckPoint D) (h : ℕ) (d : D) {c' : CheckPoint D} → push c h d ≡ ok c' → height c' ≡ h
  height-push c h d e = rw (push-eq-ok c h d e).2

  pub extend-cons :
      (c : CheckPoint D) (h : ℕ) (d : D) (rest : List (ℕ × D)) {c' : CheckPoint D}
      → extend c ((h, d) ∷ rest) ≡ ok c'
      → (c₁ : CheckPoint D) × (push c h d ≡ ok c₁) × (extend c₁ rest ≡ ok c')
  unfolding extend
  extend-cons c h d rest {c' = c'} e = split (push c h d) refl
    where
      split :
          (r : Result (CheckPoint D) (CheckPoint D))
          → push c h d ≡ r
          → (c₁ : CheckPoint D) × (push c h d ≡ ok c₁) × (extend c₁ rest ≡ ok c')
      split (ok c₁) p = (c₁, p, rw (p, extend) at e)
      split (err c₁) p = cc (rw (p, extend) at e)

  -- An extension that succeeds on a valid chain gives a valid chain.
  pub extend-IsValid :
      (c : CheckPoint D) (blocks : List (ℕ × D)) {c' : CheckPoint D}
      → IsValid c
      → extend c blocks ≡ ok c'
      → IsValid c'
  unfolding extend
  extend-IsValid c [] v e = subst IsValid (ok-injective e) v
  extend-IsValid c ((h, d) ∷ rest) v e =
      let (c₁, p, q) = extend-cons c h d rest e in extend-IsValid c₁ rest (push-IsValid c h d v p) q

  -- The blocks of an extension that succeeds ascend from the tip.
  pub extend-ascends :
      (c : CheckPoint D) (blocks : List (ℕ × D)) {c' : CheckPoint D}
      → extend c blocks ≡ ok c'
      → IsAbove (height c) blocks × IsSorted blocks
  unfolding extend
  extend-ascends c [] e = (tt, tt)
  extend-ascends c ((h, d) ∷ rest) e =
      let (c₁, p, q) = extend-cons c h d rest e in
      let (up, sorted) = extend-ascends c₁ rest q in
      let up' : IsAbove h rest = subst (λ k. IsAbove k rest) (height-push c h d p) up in
      let above = (push-eq-ok c h d p).0 in
      ((above, BtreeMap.IsAbove-trans (height c) h rest above up'), (up', sorted))

  -- After an extension that succeeds each height reads as the extension, where that has it, or as
  -- before.
  pub data_at-extend :
      (c : CheckPoint D) (blocks : List (ℕ × D)) {c' : CheckPoint D} (k : ℕ)
      → extend c blocks ≡ ok c'
      → data_at c' k ≡ or_else (BtreeMap.get k blocks) (data_at c k)
  unfolding extend BtreeMap.get
  data_at-extend c [] k e = ap (λ x. data_at x k) (sym (ok-injective e))
  data_at-extend c ((h, d) ∷ rest) k e =
      let (c₁, p, q) = extend-cons c h d rest e in
      let up = (extend-ascends c ((h, d) ∷ rest) e).1.0 in
      data_at-extend c₁ rest k q
      ∙ ap (or_else (BtreeMap.get k rest)) (push-data_at c h d k p)
      ∙ BtreeMap.first_wins h d rest k (data_at c k) up
