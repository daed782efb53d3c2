-- ===== src/Core/Entry/Laws.antt =====
-- The entries of a chain, of `crates/core/src/checkpoint_entry.rs`.
use bdk.Prelude.{
  ℕ, ◌-◌, ◌≤◌, ◌<◌, ◌≡◌, refl, sym, ap, ◌∙◌, subst, ◌⊎◌, le→ltb, ltb→le, false, none, some, List,
  [], ◌∷◌, arith, All, head?, ltb, ◌==◌, inl, inr, Option-cases, Bool-cases,
}
use bdk.Core.BlockId.{BlockId}
use bdk.Core.Checkpoint
use bdk.Core.Checkpoint.{CheckPoint, base, link, ToBlockHash, iter}
use bdk.Core.Checkpoint.Ancestor.{IsLinked}
use bdk.Core.Entry.{CheckPointEntry, placeholder, occupied, height, prev, follow, entry_iter}

below_gap : (n m : ℕ) → n < m → (n == (m - 1)) ≡ false → n < m - 1
below_gap n m l e = ground arith

module _ {D : Type 0} ⦃t : ToBlockHash D⦄ where
  -- Each item is what `prev` gives at the item before, and the last has no `prev`.
  abbrev pub IsPrevRun : List (CheckPointEntry D) → Type 0
  IsPrevRun [] = Unit
  IsPrevRun (e ∷ es) = (prev e ≡ head? es) × IsPrevRun es

  -- The heights fall.
  abbrev pub IsDescending : List (CheckPointEntry D) → Type 0
  IsDescending [] = Unit
  IsDescending (e ∷ es) = All (λ x. height x < height e) es × IsDescending es

  -- The checkpoints among the entries.
  abbrev pub checkpoints : List (CheckPointEntry D) → List (CheckPoint D)
  checkpoints [] = []
  checkpoints (placeholder b c ∷ es) = checkpoints es
  checkpoints (occupied c ∷ es) = c ∷ checkpoints es

  -- What follows the entry of a checkpoint over another one.
  abbrev NextOf : CheckPoint D → CheckPoint D → Type 0
  NextOf c p =
      (prev (occupied c) ≡ some (occupied p))
      ⊎ ((x : BlockId) × (prev (occupied c) ≡ some (placeholder x c))
          × (x.height < Checkpoint.height c)
          × (Checkpoint.height p < x.height))

  next_of :
      (b : BlockId) (d : D) (p s : CheckPoint D) (i : ℕ)
      → Checkpoint.height p < b.height
      → NextOf (link b d p s i) p
  unfolding prev
  next_of b d p s i l =
      let above : ltb b.height 1 ≡ false = le→ltb b.height 1 (omega arith) in
      elim (Option-cases (t.prev_blockhash d)) [
        | inl plain ↦ inl (rw (above, plain, prev))
        | inr (h, named) ↦ elim (Bool-cases (Checkpoint.height p == b.height - 1)) [
          | inl adjacent ↦ inl (rw (above, named, adjacent, prev))
          | inr apart ↦ inr (
            record { height = b.height - 1; hash = h },
            rw (above, named, apart, prev),
            omega arith,
            below_gap (Checkpoint.height p) b.height l apart,
          )
        ]
      ]

  abbrev NextOfBase : CheckPoint D → Type 0
  NextOfBase c =
      (prev (occupied c) ≡ none)
      ⊎ ((x : BlockId) × (prev (occupied c) ≡ some (placeholder x c))
          × (x.height < Checkpoint.height c))

  next_of_base : (b : BlockId) (d : D) → NextOfBase (base b d)
  unfolding prev
  next_of_base b d = elim (Bool-cases (ltb b.height 1)) [
    | inl low ↦ inl (rw (low, prev))
    | inr high ↦ elim (Option-cases (t.prev_blockhash d)) [
      | inl plain ↦ inl (rw (high, plain, prev))
      | inr (h, named) ↦ inr (
        record { height = b.height - 1; hash = h },
        rw (high, named, prev),
        omega (arith, ltb→le b.height 1 high),
      )
    ]
  ]

  -- The entries from a chain's tip down.
  abbrev pub AreEntries : CheckPoint D → List (CheckPointEntry D) → Type 0
  AreEntries c es =
      (head? es ≡ some (occupied c))
      × IsPrevRun es
      × All (λ x. height x ≤ Checkpoint.height c) es
      × IsDescending es
      × (checkpoints es ≡ iter c)

  All-lt :
      (n m : ℕ) (es : List (CheckPointEntry D))
      → n < m
      → All (λ x. height x ≤ n) es
      → All (λ x. height x < m) es
  All-lt n m [] l a = tt
  All-lt n m (e ∷ es) l a = (omega arith, All-lt n m es l a.1)

  All-le :
      (n m : ℕ) (es : List (CheckPointEntry D))
      → n < m
      → All (λ x. height x ≤ n) es
      → All (λ x. height x ≤ m) es
  All-le n m [] l a = tt
  All-le n m (e ∷ es) l a = (omega arith, All-le n m es l a.1)

  prev_placeholder : (x : BlockId) (b : BlockId) (d : D) → prev (placeholder x (base b d)) ≡ none
  unfolding prev
  prev_placeholder x b d = refl

  prev_placeholder_link :
      (x b : BlockId) (d : D) (p s : CheckPoint D) (i : ℕ)
      → prev (placeholder x (link b d p s i)) ≡ some (occupied p)
  unfolding prev
  prev_placeholder_link x b d p s i = refl

  -- The entries of a linked chain start at the tip, each is followed by its `prev`, their heights
  -- fall, and the checkpoints among them are those of the chain, in order.
  pub entry_iter-AreEntries : (c : CheckPoint D) → IsLinked c → AreEntries c (entry_iter c)
  unfolding entry_iter iter
  entry_iter-AreEntries (base b d) w = elim (next_of_base b d) [
    | inl end ↦
        subst (AreEntries (base b d)) (ap (λ o. occupied (base b d) ∷ follow o []) (sym end))
          (refl, (end, tt), (omega arith, tt), (tt, tt), refl)
    | inr (x, gap, low) ↦
        subst (AreEntries (base b d)) (ap (λ o. occupied (base b d) ∷ follow o []) (sym gap)) (
          refl,
          (gap, (prev_placeholder x b d, tt)),
          (omega arith, (omega arith, tt)),
          ((low, tt), (tt, tt)),
          refl,
        )
  ]
  entry_iter-AreEntries (link b d p s i) w =
      let (starts, run, top, falls, same) = entry_iter-AreEntries p w.3 in
      let es = entry_iter p in
      elim (next_of b d p s i w.1) [
        | inl next ↦
            subst (AreEntries (link b d p s i))
              (ap (λ o. occupied (link b d p s i) ∷ follow o es) (sym next))
              (
                refl,
                (next ∙ sym starts, run),
                (omega arith, All-le (Checkpoint.height p) b.height es w.1 top),
                (All-lt (Checkpoint.height p) b.height es w.1 top, falls),
                ap (λ l. link b d p s i ∷ l) same,
              )
        | inr (x, gap, low, high) ↦
            subst (AreEntries (link b d p s i))
              (ap (λ o. occupied (link b d p s i) ∷ follow o es) (sym gap))
              (
                refl,
                (gap, (prev_placeholder_link x b d p s i ∙ sym starts, run)),
                (omega arith, (omega arith, All-le (Checkpoint.height p) b.height es w.1 top)),
                (
                  (low, All-lt (Checkpoint.height p) b.height es w.1 top),
                  (All-lt (Checkpoint.height p) x.height es high top, falls),
                ),
                ap (λ l. link b d p s i ∷ l) same,
              )
      ]

  -- The entries of a chain, by its last block.
  pub entry_iter_link :
      (b : BlockId) (d : D) (p s : CheckPoint D) (i : ℕ)
      → Checkpoint.height p < b.height
      → let c = link b d p s i in
        (entry_iter c ≡ occupied c ∷ entry_iter p)
        ⊎ ((x : BlockId) × (x.height < b.height)
            × (entry_iter c ≡ occupied c ∷ placeholder x c ∷ entry_iter p))
  unfolding entry_iter
  entry_iter_link b d p s i l = elim (next_of b d p s i l) [
    | inl next ↦ inl (ap (λ o. occupied (link b d p s i) ∷ follow o (entry_iter p)) next)
    | inr (x, gap, low, high) ↦
        inr (x, low, ap (λ o. occupied (link b d p s i) ∷ follow o (entry_iter p)) gap)
  ]

  pub entry_iter_base :
      (b : BlockId) (d : D)
      → let c = base b d in
        (entry_iter c ≡ occupied c ∷ [])
        ⊎ ((x : BlockId) × (x.height < b.height)
            × (entry_iter c ≡ occupied c ∷ placeholder x c ∷ []))
  unfolding entry_iter
  entry_iter_base b d = elim (next_of_base b d) [
    | inl end ↦ inl (ap (λ o. occupied (base b d) ∷ follow o []) end)
    | inr (x, gap, low) ↦ inr (x, low, ap (λ o. occupied (base b d) ∷ follow o []) gap)
  ]
