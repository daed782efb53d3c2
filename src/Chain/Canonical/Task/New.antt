-- ===== src/Chain/Canonical/Task/New.antt =====
-- A new canonicalization task satisfies the invariant.
use bdk.Prelude.{
  ℕ, ◌≡◌, sym, subst, ap, ◌∙◌, Option, none, some, map_option-some, and_then-some, List, [], ◌∷◌,
  reverse, All, map_option, Option-cases, inl, inr,
}
use bdk.Prelude.BtreeMap
use bdk.Core.BlockId.{BlockId}
use bdk.Chain.Tx.{Transaction}
use bdk.Chain.TxGraph.{
  Anchor, TxGraph, get_tx, txids_by_descending_anchor_height, txids_by_descending_last_seen,
}
use bdk.Chain.TxGraph.Insert.Index.{tx_at, AreIds, get_tx-eq-tx_at}
use bdk.Chain.Canonical.Mark.Marked.{IsMarked}
use bdk.Prelude.IdSet
use bdk.Chain.Canonical.Task.{new, filter_map, assumed_entry, anchored_entry, seen_entry}
use bdk.Chain.Canonical.Task.Kept.{IsTask, IsQueued, HasLast}

All-filter_map :
    {X Y : Type 0} (P : Y → Type 0) (f : X → Option Y) (xs : List X)
    → ((x : X) (y : Y) → f x ≡ some y → P y)
    → All P (filter_map f xs)
All-filter_map P f [] h = tt
All-filter_map P f (x ∷ xs) h = elim (Option-cases (f x)) [
  | inl e ↦
      subst (λ o. All P (elim o [ none ↦ filter_map f xs | some y ↦ y ∷ filter_map f xs ])) (sym e)
        (All-filter_map P f xs h)
  | inr (y, e) ↦
      subst (λ o. All P (elim o [ none ↦ filter_map f xs | some y ↦ y ∷ filter_map f xs ])) (sym e)
        (h x y e, All-filter_map P f xs h)
]

module _ {A : Type 0} (anchor : Anchor A) (graph : TxGraph A) where
  -- A transaction of the graph that has anchors has a last one.
  abbrev pub HasAnchors : Type 0
  HasAnchors =
      (i : ℕ) (anchors : List A)
      → BtreeMap.get i graph.anchors ≡ some anchors
      → HasLast anchor graph anchors

  queued :
      (i : ℕ) (tx : Transaction)
      → AreIds graph
      → get_tx graph i ≡ some tx
      → IsQueued anchor graph i tx
  queued i tx ids e =
      let found : tx_at graph i ≡ some tx = sym (get_tx-eq-tx_at graph i) ∙ e in
      (ap (tx_at graph) (ids i tx found) ∙ found, e)

  pub no_marks-IsMarked : IsMarked graph [] []
  unfolding BtreeMap.get IdSet.contains
  no_marks-IsMarked = record {
    sorted = tt;
    known = λ i e h. cc;
    covered = λ i j e h k. cc;
    apart = λ i j e f h k. cc;
    closed = λ t j x y. x;
  }

  assumed_entry-IsQueued :
      (i : ℕ) (e : ℕ × Transaction)
      → AreIds graph
      → assumed_entry anchor graph i ≡ some e
      → IsQueued anchor graph e.0 e.1
  assumed_entry-IsQueued i e ids h =
      let (tx, (n, eq)) = map_option-some (λ tx. (i, tx)) (get_tx graph i) e h in
      subst (λ (e : ℕ × Transaction). IsQueued anchor graph e.0 e.1) eq (queued i tx ids n)

  seen_entry-IsQueued :
      (x : ℕ × ℕ) (e : ℕ × (Transaction × ℕ))
      → AreIds graph
      → seen_entry anchor graph x ≡ some e
      → IsQueued anchor graph e.0 e.1.0
  seen_entry-IsQueued (t, i) e ids h =
      let (tx, (n, eq)) = map_option-some (λ tx. (i, (tx, t))) (get_tx graph i) e h in
      subst (λ (e : ℕ × (Transaction × ℕ)). IsQueued anchor graph e.0 e.1.0) eq (queued i tx ids n)

  anchored_entry-IsQueued :
      (x : ℕ × ℕ) (e : ℕ × (Transaction × List A))
      → AreIds graph
      → HasAnchors
      → anchored_entry anchor graph x ≡ some e
      → IsQueued anchor graph e.0 e.1.0 × HasLast anchor graph e.1.1
  anchored_entry-IsQueued (t, i) e ids full h =
      let (tx, (n, rest)) =
        and_then-some (get_tx graph i)
          (λ tx. map_option (λ anchors. (i, (tx, anchors))) (BtreeMap.get i graph.anchors)) e h in
      let (anchors, (m, eq)) =
        map_option-some (λ anchors. (i, (tx, anchors))) (BtreeMap.get i graph.anchors) e rest in
      subst
        (λ (e : ℕ × (Transaction × List A)).
          IsQueued anchor graph e.0 e.1.0 × HasLast anchor graph e.1.1)
        eq (queued i tx ids n, full i anchors m)

  pub new-IsTask :
      (chain_tip : BlockId) (assume_canonical : List ℕ)
      → AreIds graph
      → HasAnchors
      → IsTask anchor graph (new anchor graph chain_tip assume_canonical)
  unfolding new
  new-IsTask chain_tip assume_canonical ids full = record {
    marked = no_marks-IsMarked;
    assumed =
        All-filter_map (λ (e : ℕ × Transaction). IsQueued anchor graph e.0 e.1)
          (assumed_entry anchor graph) (reverse assume_canonical)
          (λ i e h. assumed_entry-IsQueued i e ids h);
    anchored =
        All-filter_map
          (λ (e : ℕ × (Transaction × List A)).
            IsQueued anchor graph e.0 e.1.0 × HasLast anchor graph e.1.1)
          (anchored_entry anchor graph) (txids_by_descending_anchor_height graph)
          (λ x e h. anchored_entry-IsQueued x e ids full h);
    seen =
        All-filter_map (λ (e : ℕ × (Transaction × ℕ)). IsQueued anchor graph e.0 e.1.0)
          (seen_entry anchor graph) (txids_by_descending_last_seen graph)
          (λ x e h. seen_entry-IsQueued x e ids h);
    leftover = tt;
  }
