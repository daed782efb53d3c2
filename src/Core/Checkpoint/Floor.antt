-- ===== src/Core/Checkpoint/Floor.antt =====
-- The search by `prev` alone, with which `walk_to_floor` and `CheckPoint::get` of
-- `crates/core/src/checkpoint.rs` are compared.
use bdk.Prelude.{
  ℕ, ◌≤◌, ◌<◌, ◌≡◌, refl, ap, ◌∙◌, subst, true, false, Bool-cases, inl, inr, arith, ltb, Option,
  none, some, lt→ltb, ◌==◌, if◌then◌else◌,
}
use bdk.Core.Checkpoint.{CheckPoint, base, link, height, skip_index, take_skip, walk_to_floor, get}
use bdk.Core.Checkpoint.Ancestor.{ancestor, IsLinked, height-ancestor, skip-IsLinked}

below_ne : (t h : ℕ) → ltb t h ≡ true → (h == t) ≡ false
below_ne t h e = ground arith

below_lt : (t h k : ℕ) → ltb t h ≡ false → (h == t) ≡ false → k < h → k < t
below_lt t h k e f l = ground arith

module _ {D : Type 0} where
  -- The first node at or below the height `t`, by `prev` alone.
  unfoldable pub floor : CheckPoint D → ℕ → Option (CheckPoint D)
  floor (base b d) t = if ltb t b.height then none else some (base b d)
  floor (link b d p s i) t =
      let by_prev = floor p t in if ltb t b.height then by_prev else some (link b d p s i)

  -- The node at the height `t`, by a search of every node.
  unfoldable pub find : CheckPoint D → ℕ → Option (CheckPoint D)
  find (base b d) t = if b.height == t then some (base b d) else none
  find (link b d p s i) t =
      let by_prev = find p t in if b.height == t then some (link b d p s i) else by_prev

  floor-ancestor :
      (c : CheckPoint D) (k t : ℕ)
      → IsLinked c
      → t ≤ height (ancestor c k)
      → floor (ancestor c k) t ≡ floor c t
  unfolding floor ancestor
  floor-ancestor (base b d) k t w h = refl
  floor-ancestor (link b d p s i) k t w h = elim (Bool-cases (ltb k i)) [
    | inl below ↦
        let h' : t ≤ height (ancestor p k) = rw below at h in
        rw (below, lt→ltb t b.height (omega (arith, h', height-ancestor p k w.3, w.1)))
          (floor-ancestor p k t w.3 h')
    | inr here ↦ rw here refl
  ]

  take_skip-le : (t : ℕ) (p s : CheckPoint D) → take_skip t p s ≡ true → t ≤ height s
  take_skip-le t p s h = ground arith

  -- On a linked chain, by skip pointers or not, the walk to the first node at or below a height
  -- ends at the same node.
  pub walk_to_floor-eq-floor :
      (c : CheckPoint D) (t : ℕ) → IsLinked c → walk_to_floor c t ≡ floor c t
  unfolding walk_to_floor floor
  walk_to_floor-eq-floor (base b d) t w = refl
  walk_to_floor-eq-floor (link b d p s i) t w = elim (Bool-cases (ltb t b.height)) [
    | inl below ↦ elim (Bool-cases (take_skip t p s)) [
      | inl ride ↦
          rw (below, ride)
            (walk_to_floor-eq-floor s t (skip-IsLinked b d p s i w)
              ∙ ap (λ c. floor c t) w.2
              ∙ floor-ancestor p (skip_index i) t w.3
                  (subst (λ c. t ≤ height c) w.2 (take_skip-le t p s ride)))
      | inr back ↦ rw (below, back) (walk_to_floor-eq-floor p t w.3)
    ]
    | inr here ↦ rw here refl
  ]

  -- No node stands above the tip.
  pub find_above : (c : CheckPoint D) (t : ℕ) → IsLinked c → height c < t → find c t ≡ none
  unfolding find
  find_above (base b d) t w h = ground arith
  find_above (link b d p s i) t w h = ground (arith, find_above p t w.3)

  -- What the floor is at, and what lies between.
  find-floor :
      (c : CheckPoint D) (t : ℕ)
      → IsLinked c
      → find c t
        ≡ elim (floor c t) [ some f ↦ if height f == t then some f else none | none ↦ none ]
  unfolding find floor
  find-floor (base b d) t w = ground arith
  find-floor (link b d p s i) t w = elim (Bool-cases (ltb t b.height)) [
    | inl below ↦ rw (below, below_ne t b.height below) (find-floor p t w.3)
    | inr here ↦ elim (Bool-cases (b.height == t)) [
      | inl same ↦ rw (here, same)
      | inr above ↦
          rw (here, above) (find_above p t w.3 (below_lt t b.height (height p) here above w.1))
    ]
  ]

  -- On a linked chain, `get` gives what a search of every node for the height gives.
  pub get-eq-find : (c : CheckPoint D) (t : ℕ) → IsLinked c → get c t ≡ find c t
  unfolding get
  get-eq-find c t w =
      ground (arith, walk_to_floor-eq-floor c t w, find-floor c t w, find_above c t w)
