-- ===== src/Chain/Canonical/ViewTask/Position.antt =====
-- The position of an assumed transaction: what the walk over descendants leaves out.
use bdk.Prelude.{ℕ, ◌≡◌, true, ◌||◌, none, some, List}
use bdk.Prelude.BtreeMap
use bdk.Prelude.IdSet
use bdk.Prelude.IdSet.{IdSet}
use bdk.Chain.ChainPosition.{ChainPosition, confirmed, unconfirmed}
use bdk.Chain.TxGraph.{Anchor, TxGraph, TxNode}
use bdk.Chain.Canonical.Descend.{spend_paths}
use bdk.Chain.Canonical.Mark.{has_key}
use bdk.Chain.Canonical.ViewTask.{CanonicalViewTask}
use bdk.Chain.Canonical.ViewTask.Found.{Descends, IsFound}

module _ {A : Type 0} (anchor : Anchor A) (graph : TxGraph A) where
  -- The spenders of the transaction's outputs have been visited or are in the queue.
  abbrev AreMet : IdSet → List ℕ → ℕ → Type 0
  AreMet visited queue t =
      (j : ℕ)
      → IdSet.contains (spend_paths graph t) j ≡ true
      → (IdSet.contains visited j || IdSet.contains queue j) ≡ true

  -- A canonical transaction that has been visited has no direct anchor, and its spenders are met.
  abbrev ArePassed : CanonicalViewTask A → IdSet → List ℕ → Type 0
  ArePassed self visited queue =
      (t : ℕ)
      → IdSet.contains visited t ≡ true
      → has_key t self.canonical_txs ≡ true
      → (BtreeMap.get t self.direct_anchors ≡ none) × AreMet visited queue t

  -- No canonical descendant has a direct anchor.
  abbrev pub IsMissing : CanonicalViewTask A → ℕ → Type 0
  IsMissing self root =
      (d : ℕ)
      → Descends graph self root d
      → has_key d self.canonical_txs ≡ true
      → BtreeMap.get d self.direct_anchors ≡ none

  -- What each position says: a direct anchor is the transaction's own; one of a descendant is that
  -- of a canonical descendant; and without one no canonical descendant has an anchor.
  abbrev pub IsJustified : CanonicalViewTask A → ℕ → TxNode A → ChainPosition A → Type 0
  IsJustified self txid node (confirmed a none) = BtreeMap.get txid self.direct_anchors ≡ some a
  IsJustified self txid node (confirmed a (some d)) =
      (BtreeMap.get txid self.direct_anchors ≡ none) × IsFound graph self txid (a, d)
  IsJustified self txid node (unconfirmed first_seen last_seen) =
      (BtreeMap.get txid self.direct_anchors ≡ none)
      × IsMissing self txid
      × (first_seen ≡ node.first_seen)
      × (last_seen ≡ node.last_seen)
