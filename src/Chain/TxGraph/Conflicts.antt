-- ===== src/Chain/TxGraph/Conflicts.antt =====
-- Which transactions `direct_conflicts` of `crates/chain/src/tx_graph.rs` finds.
use bdk.Prelude.{
  ℕ, suc, ◌≡◌, refl, ap, ◌∙◌, Bool, true, false, some, not, ◌&&◌, ◌||◌, List, [], ◌∷◌, ◌++◌, map,
  filter, ◌==◌, arith,
}
use bdk.Prelude.IdSet
use bdk.Prelude.IdSet.{contains-append}
use bdk.Chain.Tx.{OutPoint, outpoint_eq, TxIn, Transaction}
use bdk.Chain.TxGraph.{
  TxGraph, concat_map, enumerate_from, direct_conflicts, input_conflicts, outspends,
}
use bdk.Chain.TxGraph.Insert.Index.{tx_at, spends_at, has_input, IsIndexed}

map-append : (f : ℕ × ℕ → ℕ) (xs ys : List (ℕ × ℕ)) → map f (xs ++ ys) ≡ map f xs ++ map f ys
map-append f [] ys = refl
map-append f (x ∷ xs) ys = ap (λ r. f x ∷ r) (map-append f xs ys)

contains-filter :
    (k j : ℕ) (s : List ℕ)
    → IdSet.contains (filter (λ spender. not (spender == k)) s) j
      ≡ (not (j == k) && IdSet.contains s j)
unfolding IdSet.contains
contains-filter k j [] = ground arith
contains-filter k j (i ∷ s) = ground (arith, contains-filter k j s)

map-paired : (n : ℕ) (s : List ℕ) → map (λ (e : ℕ × ℕ). e.1) (map (λ x. (n, x)) s) ≡ s
map-paired n [] = refl
map-paired n (x ∷ s) = ap (λ r. x ∷ r) (map-paired n s)

has_input-eq :
    (op q : OutPoint) (inputs : List TxIn)
    → outpoint_eq op q ≡ true
    → has_input op inputs ≡ has_input q inputs
has_input-eq op q [] e = refl
has_input-eq op q (txin ∷ inputs) e = ground (arith, has_input-eq op q inputs e)

module _ {A : Type 0} (g : TxGraph A) where
  -- Whether the transaction spends one of the inputs' outpoints, by the index.
  abbrev spends_one : List TxIn → ℕ → Bool
  spends_one [] j = false
  spends_one (txin ∷ inputs) j =
      IdSet.contains (outspends g txin.previous_output) j || spends_one inputs j

  contains-input_conflicts :
      (k j n : ℕ) (inputs : List TxIn)
      → IdSet.contains
          (map (λ e. e.1) (concat_map (input_conflicts g k) (enumerate_from n inputs)))
          j
        ≡ (not (j == k) && spends_one inputs j)
  unfolding IdSet.contains
  contains-input_conflicts k j n [] = ground arith
  contains-input_conflicts k j n (txin ∷ inputs) =
      ap (λ s. IdSet.contains s j)
        (map-append (λ e. e.1) (input_conflicts g k (n, txin))
          (concat_map (input_conflicts g k) (enumerate_from (suc n) inputs)))
      ∙ contains-append (map (λ e. e.1) (input_conflicts g k (n, txin)))
          (map (λ e. e.1) (concat_map (input_conflicts g k) (enumerate_from (suc n) inputs))) j
      ∙ ap
          (λ s.
            IdSet.contains s j
            || IdSet.contains
                (map (λ e. e.1) (concat_map (input_conflicts g k) (enumerate_from (suc n) inputs)))
                j)
          (map-paired n (filter (λ spender. not (spender == k)) (outspends g txin.previous_output)))
      ∙ ground (
        arith,
        contains-filter k j (outspends g txin.previous_output),
        contains-input_conflicts k j (suc n) inputs,
      )

  -- Whether the transaction stored under an id spends one of the inputs' outpoints.
  abbrev pub shares_input : List TxIn → ℕ → Bool
  shares_input [] j = false
  shares_input (txin ∷ inputs) j =
      spends_at (tx_at g j) txin.previous_output || shares_input inputs j

  spends_one-eq-shares_input :
      IsIndexed g → (inputs : List TxIn) (j : ℕ) → spends_one inputs j ≡ shares_input inputs j
  spends_one-eq-shares_input ix [] j = refl
  spends_one-eq-shares_input ix (txin ∷ inputs) j =
      ground (arith, ix txin.previous_output j, spends_one-eq-shares_input ix inputs j)

  pub conflicts_self :
      (tx : Transaction) → IdSet.contains (map (λ e. e.1) (direct_conflicts g tx)) tx.txid ≡ false
  unfolding direct_conflicts
  conflicts_self tx = contains-input_conflicts tx.txid tx.txid 0 tx.input ∙ ground arith

  -- With an exact index, the direct conflicts of a transaction are the other full transactions
  -- that spend one of its inputs' outpoints.
  pub contains-direct_conflicts :
      (tx : Transaction) (j : ℕ)
      → IsIndexed g
      → IdSet.contains (map (λ e. e.1) (direct_conflicts g tx)) j
        ≡ (not (j == tx.txid) && shares_input tx.input j)
  unfolding direct_conflicts
  contains-direct_conflicts tx j ix =
      contains-input_conflicts tx.txid j 0 tx.input
      ∙ ap (λ b. not (j == tx.txid) && b) (spends_one-eq-shares_input ix tx.input j)

  pub shares_input-has_input :
      (op : OutPoint) (t : Transaction) (inputs : List TxIn) (j : ℕ)
      → tx_at g j ≡ some t
      → has_input op inputs ≡ true
      → has_input op t.input ≡ true
      → shares_input inputs j ≡ true
  shares_input-has_input op t [] j e h k = ground arith
  shares_input-has_input op t (txin ∷ inputs) j e h k = ground (
    arith,
    e,
    h,
    k,
    has_input-eq op txin.previous_output t.input,
    shares_input-has_input op t inputs j e,
  )
