-- ===== src/Chain/LocalChain/Canonicalize.antt =====
-- `LocalChain::canonicalize` of `crates/chain/src/local_chain.rs`: a query is run against the chain.
-- Fuel bounds the questions.
use bdk.Prelude.{
  ℕ, zero, suc, ◌≤◌, ◌≡◌, refl, true, false, none, some, List, [], ◌∷◌, length, arith, inl, inr,
}
use bdk.Core.BlockId.{BlockId}
use bdk.Core.ChainQuery.{ChainRequest, ChainResponse, ChainQuery}
use bdk.Chain.LocalChain.{LocalChain, is_block_in_chain}
use bdk.Chain.TxGraph.{Anchor, TxGraph}
use bdk.Chain.TxGraph.Insert.Index.{AreIds, IsIndexed}
use bdk.Chain.Canonical.View.{CanonicalTxs}
use bdk.Chain.Canonical.Task.{CanonicalTask, canonical_query, new, finish}
use bdk.Chain.Canonical.Task.Kept.{IsTask, next_query-HasRound, resolve_query-HasAnswer}
use bdk.Chain.Canonical.Task.New.{HasAnchors, new-IsTask}
use bdk.Chain.Canonical.Task.View.{SpendsOnce, finish-SpendsOnce}

pub data Outcome (O : Type 0) : Type 0 where
  done : O → Outcome O
  panicked : Outcome O
  out_of_fuel : Outcome O

module _ {D : Type 0} (self : LocalChain D) where
  -- The first block of the request that is in the chain.
  pub best_block_id : BlockId → ChainRequest → ChainResponse
  best_block_id chain_tip [] = none
  best_block_id chain_tip (block_id ∷ request) =
      let rest = best_block_id chain_tip request in
      elim (is_block_in_chain self block_id chain_tip) [
        | none ↦ rest
        | some is_in ↦ elim is_in [ true ↦ some block_id | false ↦ rest ]
      ]

  module _ {Q Output : Type 0} (query : ChainQuery Q Output) where
    unfoldable pub query_loop : BlockId → ℕ → Q → Outcome Output
    query_loop chain_tip zero task = elim (query.next_query task) [
      | none ↦ panicked
      | some next ↦ elim next.1 [ none ↦ done (query.finish next.0) | some request ↦ out_of_fuel ]
    ]
    query_loop chain_tip (suc fuel) task = elim (query.next_query task) [
      | none ↦ panicked
      | some next ↦ elim next.1 [
        | none ↦ done (query.finish next.0)
        | some request ↦ elim (query.resolve_query next.0 (best_block_id chain_tip request)) [
          | none ↦ panicked
          | some answered ↦ query_loop chain_tip fuel answered
        ]
      ]
    ]

    unfoldable pub canonicalize : ℕ → Q → Outcome Output
    canonicalize fuel task = query_loop (query.tip task) fuel task

  module _ {A : Type 0} (anchor : Anchor A) (graph : TxGraph A) where
    abbrev pub Finishes : Outcome (CanonicalTxs A) → Type 0
    Finishes o = (t : CanonicalTask A) × ((o ≡ done (finish t)) × IsTask anchor graph t)

    query_loop-Finishes :
        (chain_tip : BlockId) (fuel : ℕ) (t : CanonicalTask A)
        → AreIds graph
        → length t.unprocessed_anchored_txs ≤ fuel
        → IsTask anchor graph t
        → Finishes (query_loop (canonical_query anchor graph) chain_tip fuel t)
    unfolding query_loop
    query_loop-Finishes chain_tip zero t ids l h =
        let ((u, asked), (e, (k, rest))) = next_query-HasRound anchor graph t ids h in
        elim rest [
          | inl n ↦ (u, (rw (query_loop, e, n) refl, k))
          | inr (request, (n, (at, (left, fewer)))) ↦ ground (arith, left, fewer, l)
        ]
    query_loop-Finishes chain_tip (suc fuel) t ids l h =
        let ((u, asked), (e, (k, rest))) = next_query-HasRound anchor graph t ids h in
        elim rest [
          | inl n ↦ (u, (rw (query_loop, e, n) refl, k))
          | inr (request, (n, (at, (left, fewer)))) ↦
              let (v, (f, (m, less))) =
                resolve_query-HasAnswer anchor graph u (best_block_id chain_tip request) ids at left
                  k in
              let (w, (eq, z)) =
                query_loop-Finishes chain_tip fuel v ids (omega (arith, less, fewer, l)) m in
              (w, (rw (query_loop, e, n, f) eq, z))
        ]

    -- Run against any chain, the canonicalization of a graph that stores its transactions under
    -- their ids, has no empty set of anchors and has an exact index of spends ends with a result,
    -- after at most one question for each anchored transaction; no two transactions of the result
    -- spend the same output.
    pub canonicalize-SpendsOnce :
        (chain_tip : BlockId) (assume_canonical : List ℕ)
        → AreIds graph
        → HasAnchors anchor graph
        → IsIndexed graph
        → (view : CanonicalTxs A) × ((canonicalize
                (canonical_query anchor graph)
                (length (new anchor graph chain_tip assume_canonical).unprocessed_anchored_txs)
                (new anchor graph chain_tip assume_canonical)
              ≡ done view)
            × SpendsOnce view.txs)
    unfolding canonicalize
    canonicalize-SpendsOnce chain_tip assume_canonical ids full ix =
        let (t, (e, m)) =
          query_loop-Finishes (new anchor graph chain_tip assume_canonical).chain_tip
            (length (new anchor graph chain_tip assume_canonical).unprocessed_anchored_txs)
            (new anchor graph chain_tip assume_canonical) ids (omega arith)
            (new-IsTask anchor graph chain_tip assume_canonical ids full) in
        (finish t, (e, finish-SpendsOnce graph t ix m.marked))
