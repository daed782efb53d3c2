-- ===== src/Chain/LocalChain/Collect.antt =====
-- The two loops of `apply_changeset_to_checkpoint` of `crates/chain/src/local_chain.rs`.
use bdk.Prelude.{
  ℕ, ◌≤◌, ◌<◌, ◌≡◌, refl, ap, ◌∙◌, Option, none, some, [], ◌∷◌, arith, true, false, Bool-cases, inl,
  inr, leb, leb→le, leb→lt, ◌==◌, Result, ok, err, map_err, or_else, ok-injective, ==_iff, ==_sym,
  le→leb, if◌then◌else◌,
}
use bdk.Prelude.BtreeMap
use bdk.Prelude.BtreeMap.{BtreeMap, IsAbove, IsSorted}
use bdk.Core.BlockId.{BlockId}
use bdk.Core.Checkpoint.{CheckPoint, base, link, height}
use bdk.Core.Checkpoint.Ancestor.{IsLinked}
use bdk.Core.Checkpoint.Floor.{find, find_above}
use bdk.Core.Checkpoint.Build.Laws.{data_at}
use bdk.Chain.LocalChain.{collect, amend}

-- A height as a changeset makes it: set, unset, or as it was.
abbrev pub overlay : {D : Type 0} → Option (Option D) → Option D → Option D
overlay none before = before
overlay (some after) before = after

module _ {D : Type 0} where
  pub map_err-eq-ok :
      {E F : Type 0} (f : E → F) (r : Result D E) {a : D} → map_err f r ≡ ok a → r ≡ ok a
  map_err-eq-ok f (ok b) e = ap ok (ok-injective e)
  map_err-eq-ok f (err x) e = cc

  pub or_else-none : (o : Option D) → or_else o none ≡ o
  or_else-none none = refl
  or_else-none (some d) = refl

  pub data_at_above : (c : CheckPoint D) (k : ℕ) → IsLinked c → height c < k → data_at c k ≡ none
  data_at_above c k w l = rw (find_above c k w l)

  pub amend-IsSorted :
      (cs : BtreeMap (Option D)) (ext : BtreeMap D) → IsSorted ext → IsSorted (amend cs ext)
  unfolding amend
  amend-IsSorted [] ext s = s
  amend-IsSorted ((h, some d) ∷ rest) ext s =
      amend-IsSorted rest (BtreeMap.insert h d ext) (BtreeMap.insert-IsSorted h d ext s)
  amend-IsSorted ((h, none) ∷ rest) ext s =
      amend-IsSorted rest (BtreeMap.remove h ext) (BtreeMap.remove-IsSorted h ext s)

  overlay_first :
      (h k : ℕ) (v : Option D) (rest : BtreeMap (Option D)) (o : Option D)
      → IsAbove h rest
      → overlay (BtreeMap.get k rest) (if k == h then v else o)
        ≡ overlay (BtreeMap.get k ((h, v) ∷ rest)) o
  unfolding BtreeMap.get
  overlay_first h k v rest o up = ground (arith, BtreeMap.get_self-IsAbove h rest up)

  -- The changes, in order, make a height what the changeset says of it.
  pub get-amend :
      (k : ℕ) (cs : BtreeMap (Option D)) (ext : BtreeMap D)
      → IsSorted cs
      → IsSorted ext
      → BtreeMap.get k (amend cs ext) ≡ overlay (BtreeMap.get k cs) (BtreeMap.get k ext)
  unfolding amend BtreeMap.get
  get-amend k [] ext s z = refl
  get-amend k ((h, some d) ∷ rest) ext s z =
      get-amend k rest (BtreeMap.insert h d ext) s.1 (BtreeMap.insert-IsSorted h d ext z)
      ∙ ap (overlay (BtreeMap.get k rest)) (BtreeMap.get-insert k h d ext)
      ∙ overlay_first h k (some d) rest (BtreeMap.get k ext) s.0
  get-amend k ((h, none) ∷ rest) ext s z =
      get-amend k rest (BtreeMap.remove h ext) s.1 (BtreeMap.remove-IsSorted h ext z)
      ∙ ap (overlay (BtreeMap.get k rest)) (BtreeMap.get-remove k h ext z)
      ∙ overlay_first h k none rest (BtreeMap.get k ext) s.0

  -- The blocks from a height up.
  abbrev pub from_height : CheckPoint D → ℕ → ℕ → Option D
  from_height c start k = if leb start k then data_at c k else none

  from_height_low :
      (c : CheckPoint D) (start k : ℕ)
      → IsLinked c
      → height c < start
      → from_height c start k ≡ none
  from_height_low c start k w l = elim (Bool-cases (leb start k)) [
    | inl up ↦ rw up (data_at_above c k w (omega (arith, leb→le start k up)))
    | inr low ↦ rw low
  ]

  from_height_base :
      (b : BlockId) (d : D) (start k : ℕ) (o : Option D)
      → start ≤ b.height
      → (if k == b.height then some d else o) ≡ or_else (from_height (base b d) start k) o
  unfolding find
  from_height_base b d start k o l = ground arith

  from_height_link :
      (b : BlockId) (d : D) (p s : CheckPoint D) (i : ℕ) (start k : ℕ) (o : Option D)
      → IsLinked (link b d p s i)
      → start ≤ b.height
      → or_else (from_height p start k) (if k == b.height then some d else o)
        ≡ or_else (from_height (link b d p s i) start k) o
  unfolding find
  from_height_link b d p s i start k o w l = elim (Bool-cases (k == b.height)) [
    | inl same ↦ rw (
      same,
      ==_sym k b.height true same,
      le→leb start k (omega (arith, (==_iff k b.height).0 same, l)),
      data_at_above p k w.3 (omega (arith, (==_iff k b.height).0 same, w.1)),
    )
    | inr other ↦ rw (other, ==_sym k b.height false other)
  ]

  -- The extension is the chain's blocks from the first changed height up.
  pub get-collect :
      (c : CheckPoint D) (start : ℕ) (ext : BtreeMap D) (k : ℕ)
      → IsLinked c
      → BtreeMap.get k (collect c start ext).0
        ≡ or_else (from_height c start k) (BtreeMap.get k ext)
  unfolding collect
  get-collect (base b d) start ext k w = elim (Bool-cases (leb start b.height)) [
    | inl up ↦ rw up (
        BtreeMap.get-insert k b.height d ext
        ∙ from_height_base b d start k (BtreeMap.get k ext) (leb→le start b.height up))
    | inr low ↦ rw (low, from_height_low (base b d) start k w (leb→lt start b.height low))
  ]
  get-collect (link b d p s i) start ext k w = elim (Bool-cases (leb start b.height)) [
    | inl up ↦ rw up (
        get-collect p start (BtreeMap.insert b.height d ext) k w.3
        ∙ ap (or_else (from_height p start k)) (BtreeMap.get-insert k b.height d ext)
        ∙ from_height_link b d p s i start k (BtreeMap.get k ext) w (leb→le start b.height up))
    | inr low ↦ rw (low, from_height_low (link b d p s i) start k w (leb→lt start b.height low))
  ]

  pub collect-IsSorted :
      (c : CheckPoint D) (start : ℕ) (ext : BtreeMap D)
      → IsSorted ext
      → IsSorted (collect c start ext).0
  unfolding collect
  collect-IsSorted (base b d) start ext s =
      ground (arith, BtreeMap.insert-IsSorted b.height d ext s)
  collect-IsSorted (link b d p s i) start ext z = ground (
    arith,
    collect-IsSorted p start (BtreeMap.insert b.height d ext),
    BtreeMap.insert-IsSorted b.height d ext z,
  )
