-- ===== src/Chain/Canonical/ViewTask/Found.antt =====
-- What the walk over descendants finds, and that its fuel is enough.
use bdk.Prelude.{
  ℕ, zero, suc, ◌+◌, ◌≤◌, ◌≡◌, refl, ap, ◌∙◌, true, some, some-injective, subst, List, [], ◌∷◌,
  ◌++◌, arith, Bool-cases, Option-cases, inl, inr,
}
use bdk.Prelude.BtreeMap
use bdk.Prelude.IdSet
use bdk.Prelude.IdSet.{IdSet, contains-append, fresh, fresh-le, fresh-lt}
use bdk.Chain.TxGraph.{Anchor, TxGraph}
use bdk.Chain.Canonical.Descend.{spend_paths, all_spenders}
use bdk.Chain.Canonical.Descend.Enough.{
  Includes, rest_Includes, head_Includes, append_Includes, spend_paths-Includes, zero_add, suc_add,
}
use bdk.Chain.Canonical.Mark.{has_key}
use bdk.Chain.Canonical.ViewTask.{CanonicalViewTask, find_descendant, walk_fuel}

module _ {A : Type 0} (graph : TxGraph A) where
  -- A descendant of `root` all of whose ancestors on the way are canonical.
  pub data Descends (self : CanonicalViewTask A) (root : ℕ) : ℕ → Type 0 where
    spender : (d : ℕ) → IdSet.contains (spend_paths graph root) d ≡ true → Descends self root d
    onward :
        (t d : ℕ)
        → Descends self root t
        → has_key t self.canonical_txs ≡ true
        → IdSet.contains (spend_paths graph t) d ≡ true
        → Descends self root d

  -- The descendant is canonical and has the anchor.
  abbrev pub IsFound : CanonicalViewTask A → ℕ → A × ℕ → Type 0
  IsFound self root x =
      Descends self root x.1
      × (has_key x.1 self.canonical_txs ≡ true)
      × (BtreeMap.get x.1 self.direct_anchors ≡ some x.0)

  abbrev AllDescend : CanonicalViewTask A → ℕ → List ℕ → Type 0
  AllDescend self root queue = (t : ℕ) → IdSet.contains queue t ≡ true → Descends self root t

  rest_AllDescend :
      (self : CanonicalViewTask A) (root t : ℕ) (queue : List ℕ)
      → AllDescend self root (t ∷ queue)
      → AllDescend self root queue
  unfolding IdSet.contains
  rest_AllDescend self root t queue h j e = h j (ground (arith, e))

  head_AllDescend :
      (self : CanonicalViewTask A) (root t : ℕ) (queue : List ℕ)
      → AllDescend self root (t ∷ queue)
      → Descends self root t
  unfolding IdSet.contains
  head_AllDescend self root t queue h = h t (ground arith)

  append_AllDescend :
      (self : CanonicalViewTask A) (root : ℕ) (q r : List ℕ)
      → AllDescend self root q
      → AllDescend self root r
      → AllDescend self root (q ++ r)
  append_AllDescend self root q r i k j e = elim (Bool-cases (IdSet.contains q j)) [
    | inl here ↦ i j here
    | inr there ↦ k j (ground (arith, contains-append q r j, e, there))
  ]

module _ {A : Type 0} (anchor : Anchor A) (graph : TxGraph A) where
  find_more :
      (self : CanonicalViewTask A) (fuel : ℕ) (visited : IdSet) (queue : List ℕ)
      → Includes (all_spenders graph) queue
      → fresh (all_spenders graph) visited ≤ fuel
      → find_descendant anchor graph self (suc fuel) visited queue
        ≡ find_descendant anchor graph self fuel visited queue
  unfolding find_descendant
  find_more self zero visited [] i l = refl
  find_more self (suc fuel) visited [] i l = refl
  find_more self zero visited (t ∷ queue) i l = elim (Bool-cases (IdSet.contains visited t)) [
    | inl e ↦
        rw (find_descendant, e)
          (find_more self zero visited queue (rest_Includes (all_spenders graph) t queue i) l)
    | inr e ↦ ground (
      arith,
      l,
      fresh-lt (all_spenders graph) t visited (head_Includes (all_spenders graph) t queue i) e,
    )
  ]
  find_more self (suc fuel) visited (t ∷ queue) i l =
      let rest = rest_Includes (all_spenders graph) t queue i in
      elim (Bool-cases (IdSet.contains visited t)) [
        | inl e ↦ rw (find_descendant, e) (find_more self (suc fuel) visited queue rest l)
        | inr e ↦
            let less : fresh (all_spenders graph) (IdSet.insert t visited) ≤ fuel = omega (
              arith,
              l,
              fresh-lt (all_spenders graph) t visited (head_Includes (all_spenders graph) t queue i)
                  e,
            ) in
            elim (Bool-cases (has_key t self.canonical_txs)) [
              | inr k ↦
                  rw (find_descendant, e, k)
                    (find_more self fuel (IdSet.insert t visited) queue rest less)
              | inl k ↦ elim (Option-cases (BtreeMap.get t self.direct_anchors)) [
                | inr (a, d) ↦ rw (find_descendant, e, k, d) refl
                | inl d ↦
                    rw (find_descendant, e, k, d)
                      (find_more self fuel (IdSet.insert t visited) (queue ++ spend_paths graph t)
                        (append_Includes (all_spenders graph) queue (spend_paths graph t) rest
                          (spend_paths-Includes graph t))
                        less)
              ]
            ]
      ]

  find_any :
      (self : CanonicalViewTask A) (k fuel : ℕ) (visited : IdSet) (queue : List ℕ)
      → Includes (all_spenders graph) queue
      → fresh (all_spenders graph) visited ≤ fuel
      → find_descendant anchor graph self (k + fuel) visited queue
        ≡ find_descendant anchor graph self fuel visited queue
  find_any self zero fuel visited queue i l =
      ap (λ f. find_descendant anchor graph self f visited queue) (zero_add fuel)
  find_any self (suc k) fuel visited queue i l =
      ap (λ f. find_descendant anchor graph self f visited queue) (suc_add k fuel)
      ∙ find_more self (k + fuel) visited queue i (omega (arith, l))
      ∙ find_any self k fuel visited queue i l

  -- More fuel than that of the walk over the descendants of a transaction changes nothing.
  pub find_descendant-walk_fuel :
      (self : CanonicalViewTask A) (k txid : ℕ)
      → find_descendant anchor graph self (k + walk_fuel anchor graph) [] (spend_paths graph txid)
        ≡ find_descendant anchor graph self (walk_fuel anchor graph) [] (spend_paths graph txid)
  find_descendant-walk_fuel self k txid =
      find_any self k (walk_fuel anchor graph) [] (spend_paths graph txid)
        (spend_paths-Includes graph txid) (fresh-le (all_spenders graph) [])

  pub find_descendant-IsFound :
      (self : CanonicalViewTask A) (root fuel : ℕ) (visited : IdSet) (queue : List ℕ)
      → AllDescend graph self root queue
      → (x : A × ℕ) → find_descendant anchor graph self fuel visited queue ≡ some x
      → IsFound graph self root x
  unfolding find_descendant
  find_descendant-IsFound self root zero visited [] l = λ x h. ground (arith, h)
  find_descendant-IsFound self root (suc fuel) visited [] l = λ x h. ground (arith, h)
  find_descendant-IsFound self root zero visited (t ∷ queue) l =
      elim (Bool-cases (IdSet.contains visited t)) [
        | inl e ↦
            rw (find_descendant, e)
              (find_descendant-IsFound self root zero visited queue
                (rest_AllDescend graph self root t queue l))
        | inr e ↦ rw (find_descendant, e) (λ x h. ground (arith, h))
      ]
  find_descendant-IsFound self root (suc fuel) visited (t ∷ queue) l =
      let rest = rest_AllDescend graph self root t queue l in
      let reached = head_AllDescend graph self root t queue l in
      elim (Bool-cases (IdSet.contains visited t)) [
        | inl e ↦
            rw (find_descendant, e)
              (find_descendant-IsFound self root (suc fuel) visited queue rest)
        | inr e ↦ elim (Bool-cases (has_key t self.canonical_txs)) [
          | inr k ↦
              rw (find_descendant, e, k)
                (find_descendant-IsFound self root fuel (IdSet.insert t visited) queue rest)
          | inl k ↦ elim (Option-cases (BtreeMap.get t self.direct_anchors)) [
            | inl d ↦
                rw (find_descendant, e, k, d)
                  (find_descendant-IsFound self root fuel (IdSet.insert t visited)
                    (queue ++ spend_paths graph t)
                    (append_AllDescend graph self root queue (spend_paths graph t) rest
                      (λ j s. onward t j reached k s)))
            | inr (a, d) ↦
                rw (find_descendant, e, k, d)
                  (λ x h. subst (IsFound graph self root) (some-injective h) (reached, k, d))
          ]
        ]
      ]
