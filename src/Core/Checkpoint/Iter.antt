-- ===== src/Core/Checkpoint/Iter.antt =====
-- `CheckPointIter` of `crates/core/src/checkpoint.rs`, whose `nth`, `last` and `count` go by the
-- index of a node and by skip pointers.
use bdk.Prelude.{
  ◌&&◌, Bool, true, false, ℕ, zero, suc, ◌+◌, ◌-◌, ◌≤◌, ◌<◌, ◌≡◌, refl, sym, ap, ◌∙◌, Bool, true,
  false, head?, drop, lt→ltb, le→ltb, Option, none, some, List, [], ◌∷◌, arith, ltb, leb, ltb→lt,
  ltb→le, lt→leb, length, get_elem?, get_last?, map_option, if◌then◌else◌, Bool-cases, inl, inr,
}
use bdk.Core.BlockId.{block_id_eq}
use bdk.Core.Checkpoint.{
  block_id, CheckPoint, base, link, u32_mod, index, prev, ancestor_by_index, iter,
}
use bdk.Core.Checkpoint.Ancestor.{ancestor, IsLinked, ancestor_by_index-eq-ancestor}
use bdk.Core.Checkpoint.Range.{checked_sub}

pub record CheckPointIter (D : Type 0) : Type 0 where
  pub next : Option (CheckPoint D)

module _ {ℓ} {A : Type ℓ} where
  get_elem?-eq-head? : (l : List A) (n : ℕ) → get_elem? l n ≡ head? (drop n l)
  get_elem?-eq-head? [] zero = refl
  get_elem?-eq-head? [] (suc n) = refl
  get_elem?-eq-head? (x ∷ l) zero = refl
  get_elem?-eq-head? (x ∷ l) (suc n) = get_elem?-eq-head? l n

  drop-suc : (l : List A) (n : ℕ) → drop (suc n) l ≡ drop 1 (drop n l)
  drop-suc [] zero = refl
  drop-suc [] (suc n) = refl
  drop-suc (x ∷ l) zero = refl
  drop-suc (x ∷ l) (suc n) = drop-suc l n

  get_elem?_past : (l : List A) (n : ℕ) → length l ≤ n → get_elem? l n ≡ none
  get_elem?_past [] n h = refl
  get_elem?_past (x ∷ l) zero h = absurd (omega arith)
  get_elem?_past (x ∷ l) (suc n) h = get_elem?_past l n (omega arith)

  drop_past : (l : List A) (n : ℕ) → length l ≤ n → drop n l ≡ []
  drop_past [] zero h = refl
  drop_past [] (suc n) h = refl
  drop_past (x ∷ l) zero h = absurd (omega arith)
  drop_past (x ∷ l) (suc n) h = drop_past l n (omega arith)

  if_same : (b : Bool) (x : A) → (if b then x else x) ≡ x
  if_same true x = refl
  if_same false x = refl

module _ {D : Type 0} where
  -- The items that a method leaves to come.
  abbrev pub items : CheckPointIter D → List (CheckPoint D)
  items it = elim it.next [ some c ↦ iter c | none ↦ [] ]

  -- `Iterator::next`: the new iterator and the item.
  pub step : CheckPointIter D → CheckPointIter D × Option (CheckPoint D)
  step it = elim it.next [
    | some current ↦ (record { next = prev current }, some current)
    | none ↦ (it, none)
  ]

  abbrev at_index : CheckPoint D → Option ℕ → CheckPointIter D × Option (CheckPoint D)
  at_index current (some target) =
      let inner = ancestor_by_index current target in (record { next = prev inner }, some inner)
  at_index current none = (record { next = none }, none)

  -- `n.try_into().ok()?` fails for a count that is no `u32`.
  pub nth : CheckPointIter D → ℕ → CheckPointIter D × Option (CheckPoint D)
  nth it n = elim it.next [
    | some current ↦
        at_index current (if leb u32_mod n then none else checked_sub (index current) n)
    | none ↦ (it, none)
  ]

  pub last : CheckPointIter D → Option (CheckPoint D)
  last it = map_option (λ c. ancestor_by_index c 0) it.next

  -- `usize` has at least 32 bits: the saturating addition of 1 to a `u32` index is an addition.
  pub count : CheckPointIter D → ℕ
  count it = elim it.next [ some c ↦ index c + 1 | none ↦ 0 ]

  pub length-iter : (c : CheckPoint D) → IsLinked c → length (iter c) ≡ index c + 1
  unfolding iter
  length-iter (base b d) w = refl
  length-iter (link b d p s i) w = omega (arith, length-iter p w.3, w.0)

  -- To drop `n` items is to go `n` indices back.
  drop-iter :
      (c : CheckPoint D) (n : ℕ)
      → IsLinked c
      → n ≤ index c
      → drop n (iter c) ≡ iter (ancestor c (index c - n))
  unfolding iter ancestor
  drop-iter (base b d) zero w l = refl
  drop-iter (base b d) (suc n) w l = absurd (omega arith)
  drop-iter (link b d p s i) zero w l = rw (le→ltb (i - 0) i (omega arith)) refl
  drop-iter (link b d p s i) (suc n) w l =
      rw (lt→ltb (i - suc n) i (omega arith)) (
        drop-iter p n w.3 (omega (arith, w.0)) ∙ ap (λ k. iter (ancestor p k)) (omega (arith, w.0)))

  head?-iter : (c : CheckPoint D) → head? (iter c) ≡ some c
  unfolding iter
  head?-iter (base b d) = refl
  head?-iter (link b d p s i) = refl

  tail-iter : (c : CheckPoint D) → drop 1 (iter c) ≡ items (record { next = prev c })
  unfolding iter
  tail-iter (base b d) = refl
  tail-iter (link b d p s i) = refl

  abbrev pub into_iter : CheckPoint D → CheckPointIter D
  into_iter c = record { next = some c }

  -- What `nth` does on a list: the item and the items behind it.
  abbrev pub Skips : List (CheckPoint D) → ℕ → CheckPointIter D × Option (CheckPoint D) → Type 0
  Skips l n r = (r.1 ≡ get_elem? l n) × (items r.0 ≡ drop (suc n) l)

  at_index-Skips :
      (c : CheckPoint D) (n : ℕ)
      → IsLinked c
      → n ≤ index c
      → Skips (iter c) n (at_index c (some (index c - n)))
  at_index-Skips c n w l =
      let a = ancestor c (index c - n) in
      let same = ancestor_by_index-eq-ancestor c (index c - n) w in
      let drops = drop-iter c n w l in
      (
        ap some same ∙ sym (get_elem?-eq-head? (iter c) n ∙ ap head? drops ∙ head?-iter a),
        ap (λ x. items (record { next = prev x })) same
            ∙ sym (drop-suc (iter c) n ∙ ap (drop 1) drops ∙ tail-iter a),
      )

  -- On a linked chain whose index is a `u32`, `nth` gives the item of the chain's list at that
  -- place, `none` past its end, and leaves the items behind that place.
  pub nth-Skips :
      (c : CheckPoint D) (n : ℕ)
      → IsLinked c
      → index c < u32_mod
      → Skips (iter c) n (nth (into_iter c) n)
  unfolding nth
  nth-Skips c n w u = elim (Bool-cases (ltb (index c) n)) [
    | inl past ↦ rw (past, if_same {A = Option ℕ} (leb u32_mod n) none) (past_end past)
    | inr inside ↦
        rw (inside, lt→leb u32_mod n (omega (arith, ltb→le (index c) n inside)))
          (at_index-Skips c n w (ltb→le (index c) n inside))
  ]
    where
      past_end : ltb (index c) n ≡ true → Skips (iter c) n (record { next = none }, none)
      past_end past =
          let short : length (iter c) ≤ n =
            omega (arith, length-iter c w, ltb→lt (index c) n past) in
          (sym (get_elem?_past (iter c) n short), sym (drop_past (iter c) (suc n) (omega arith)))

  -- On a linked chain, `count` is the length of the chain's list.
  pub count-into_iter : (c : CheckPoint D) → IsLinked c → count (into_iter c) ≡ length (iter c)
  unfolding count
  count-into_iter c w = sym (length-iter c w)

  get_last?-cons-iter : (x c : CheckPoint D) → get_last? (x ∷ iter c) ≡ get_last? (iter c)
  unfolding iter
  get_last?-cons-iter x (base b d) = refl
  get_last?-cons-iter x (link b d p s i) = refl

  ancestor_zero : (c : CheckPoint D) → IsLinked c → some (ancestor c 0) ≡ get_last? (iter c)
  unfolding iter ancestor
  ancestor_zero (base b d) w = refl
  ancestor_zero (link b d p s i) w =
      rw (lt→ltb 0 i (omega (arith, w.0)))
        (ancestor_zero p w.3 ∙ sym (get_last?-cons-iter (link b d p s i) p))

  -- On a linked chain, `last` is the last item of the chain's list.
  pub last-into_iter : (c : CheckPoint D) → IsLinked c → last (into_iter c) ≡ get_last? (iter c)
  unfolding last
  last-into_iter c w = ap some (ancestor_by_index-eq-ancestor c 0 w) ∙ ancestor_zero c w

  -- `PartialEq` of checkpoints: their iterators give the same block ids.
  abbrev same_ids : List (CheckPoint D) → List (CheckPoint D) → Bool
  same_ids [] [] = true
  same_ids [] (y ∷ ys) = false
  same_ids (x ∷ xs) [] = false
  same_ids (x ∷ xs) (y ∷ ys) = block_id_eq (block_id x) (block_id y) && same_ids xs ys

  unfoldable pub checkpoint_eq : CheckPoint D → CheckPoint D → Bool
  checkpoint_eq self other = same_ids (iter self) (iter other)
