-- ===== src/Core/Checkpoint/Build/Insert.antt =====
-- What `CheckPoint::insert` of `crates/core/src/checkpoint.rs` keeps and gives.
use bdk.Prelude.{
  ℕ, suc, ◌<◌, ◌≤◌, ◌≡◌, refl, ap, ◌∙◌, Option, none, some, List, [], ◌∷◌, arith, false, Bool-cases,
  inl, inr, ltb, ltb→lt, ltb→le, map_option,
}
use bdk.Core.BlockId.{BlockId}
use bdk.Core.Checkpoint.{CheckPoint, base, link, ToBlockHash, height, hash}
use bdk.Core.Checkpoint.Ancestor.{IsLinked}
use bdk.Core.Checkpoint.Floor.{find, find_above}
use bdk.Core.Checkpoint.Build.{
  Walk, Round, above, same, displaced, below, different_genesis, unchanged, stop, conflicts,
  insert_walk, insert_round, genesis_agrees,
}
use bdk.Core.Checkpoint.Build.Laws.{data_at, IsValid}

module _ {D : Type 0} ⦃t : ToBlockHash D⦄ where
  -- The block at a height, by its hash.
  abbrev pub hash_at : CheckPoint D → ℕ → Option ℕ
  hash_at c k = map_option t.to_blockhash (data_at c k)

  -- What the walk ends at: a valid base below the inserted height with the blocks of the chain
  -- further down, or a chain that has the block.
  abbrev pub Ends : ℕ → D → CheckPoint D → Walk D → Type 0
  Ends h d c different_genesis = (h ≤ 1)
  Ends h d c unchanged = hash_at c h ≡ some (t.to_blockhash d)
  Ends h d c (stop none tail) = (k : ℕ) → suc k < h → data_at c k ≡ none
  Ends h d c (stop (some b) tail) =
      IsValid b
      × (height b < h)
      × (conflicts b h d ≡ false)
      × ((k : ℕ) → suc k < h → data_at c k ≡ data_at b k)

  abbrev Means : ℕ → D → CheckPoint D → Round → Type 0
  Means h d c above = h < height c
  Means h d c same = (height c ≡ h) × (hash c ≡ t.to_blockhash d)
  Means h d c displaced = (height c ≤ h) × (h ≤ suc (height c))
  Means h d c below = (height c < h) × (conflicts c h d ≡ false)

  insert_round-Means : (h : ℕ) (d : D) (c : CheckPoint D) → Means h d c (insert_round h d c)
  unfolding insert_round
  insert_round-Means h d c = ground arith

  genesis_agrees-le : (h : ℕ) (d : D) (c : CheckPoint D) → genesis_agrees h d c ≡ false → h ≤ 1
  unfolding genesis_agrees
  genesis_agrees-le h d c e = ground arith

  data_at_link :
      (b : BlockId) (x : D) (p s : CheckPoint D) (i k : ℕ)
      → k < b.height
      → data_at (link b x p s i) k ≡ data_at p k
  unfolding find
  data_at_link b x p s i k l = ground arith

  data_at_base : (b : BlockId) (x : D) (k : ℕ) → k < b.height → data_at (base b x) k ≡ none
  unfolding find
  data_at_base b x k l = ground arith

  hash_at-le : (c : CheckPoint D) (h a : ℕ) → IsLinked c → hash_at c h ≡ some a → h ≤ height c
  hash_at-le c h a w e = elim (Bool-cases (ltb (height c) h)) [
    | inl up ↦ cc (rw (find_above c h w (ltb→lt (height c) h up)) at e)
    | inr low ↦ ltb→le (height c) h low
  ]

  Ends-link :
      (h : ℕ) (d : D) (b : BlockId) (x : D) (p s : CheckPoint D) (i : ℕ) (w : Walk D)
      → IsLinked p
      → height p < b.height
      → h ≤ suc b.height
      → Ends h d p w
      → Ends h d (link b x p s i) w
  Ends-link h d b x p s i different_genesis l a n e = e
  Ends-link h d b x p s i unchanged l a n e =
      ap (map_option t.to_blockhash)
        (data_at_link b x p s i h (omega (arith, hash_at-le p h (t.to_blockhash d) l e)))
      ∙ e
  Ends-link h d b x p s i (stop none tail) l a n e =
      λ k m. data_at_link b x p s i k (omega arith) ∙ e k m
  Ends-link h d b x p s i (stop (some c) tail) l a n e =
      (e.0, e.1, e.2, λ k m. data_at_link b x p s i k (omega arith) ∙ e.3 k m)

  hash_at_tip :
      (h : ℕ) (d : D) (c : CheckPoint D)
      → IsValid c
      → height c ≡ h
      → hash c ≡ t.to_blockhash d
      → hash_at c h ≡ some (t.to_blockhash d)
  unfolding find
  hash_at_tip h d (base b x) v e f = ground arith
  hash_at_tip h d (link b x p s i) v e f = ground arith

  pub insert_walk-Ends :
      (h : ℕ) (d : D) (c : CheckPoint D) (tail : List (ℕ × D))
      → IsValid c
      → Ends h d c (insert_walk h d c tail)
  unfolding insert_walk
  insert_walk-Ends h d (base b x) tail v = elim (Bool-cases (genesis_agrees h d (base b x))) [
    | inl agrees ↦ rw agrees (go (insert_round h d (base b x)) (insert_round-Means h d (base b x)))
    | inr differs ↦ rw differs (genesis_agrees-le h d (base b x) differs)
  ]
    where
      go :
          (r : Round)
          → Means h d (base b x) r
          → Ends h d (base b x) (elim r [
            | above ↦ stop none ((b.height, x) ∷ tail)
            | same ↦ unchanged
            | displaced ↦ stop none []
            | below ↦ stop (some (base b x)) tail
          ])
      go above m = λ k l. data_at_base b x k (omega arith)
      go same m = hash_at_tip h d (base b x) v m.0 m.1
      go displaced m = λ k l. data_at_base b x k (omega arith)
      go below m = (v, m.0, m.1, λ k l. refl)
  insert_walk-Ends h d (link b x p s i) tail v =
      elim (Bool-cases (genesis_agrees h d (link b x p s i))) [
        | inl agrees ↦ rw agrees (
            go (insert_walk-Ends h d p ((b.height, x) ∷ tail) (v.0.3, v.1.2))
              (insert_walk-Ends h d p [] (v.0.3, v.1.2)) (insert_round h d (link b x p s i))
              (insert_round-Means h d (link b x p s i)))
        | inr differs ↦ rw differs (genesis_agrees-le h d (link b x p s i) differs)
      ]
    where
      go :
          Ends h d p (insert_walk h d p ((b.height, x) ∷ tail))
          → Ends h d p (insert_walk h d p [])
          → (r : Round) → Means h d (link b x p s i) r
          → Ends h d (link b x p s i) (elim r [
            | above ↦ insert_walk h d p ((b.height, x) ∷ tail)
            | same ↦ unchanged
            | displaced ↦ insert_walk h d p []
            | below ↦ stop (some (link b x p s i)) tail
          ])
      go e f above m = Ends-link h d b x p s i _ v.0.3 v.0.1 (omega arith) e
      go e f same m = hash_at_tip h d (link b x p s i) v m.0 m.1
      go e f displaced m = Ends-link h d b x p s i _ v.0.3 v.0.1 (omega arith) f
      go e f below m = (v, m.0, m.1, λ k l. refl)
