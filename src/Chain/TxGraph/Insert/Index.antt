-- ===== src/Chain/TxGraph/Insert/Index.antt =====
-- The index of spends is exact: it has the inputs of the full transactions and no others.
use bdk.Prelude.{
  ℕ, ◌≡◌, refl, sym, ap, ◌∙◌, Bool, true, false, not, ◌&&◌, ◌||◌, Option, none, some, List, [], ◌∷◌,
  ◌==◌, if◌then◌else◌, arith, Option-cases, Bool-cases, inl, inr, some-injective, and_then, ==_iff,
}
use bdk.Prelude.BtreeMap
use bdk.Prelude.BtreeMap.{BtreeMap}
use bdk.Prelude.IdSet
use bdk.Prelude.IdSet.{IdSet}
use bdk.Chain.Tx.{OutPoint, outpoint_eq, TxIn, Transaction}
use bdk.Chain.TxGraph.{TxGraph, whole, whole_tx, or_empty, outspends, get_tx, get_tx_node}
use bdk.Chain.TxGraph.Insert.{inputs_eq}
use bdk.Chain.TxGraph.Insert.{
  merge_inputs, merge_tx_witnesses, spenders_at, add_spends, update_whole, insert_tx,
}
use bdk.Chain.TxGraph.ChangeSet.{insert_at}

abbrev pub has_input : OutPoint → List TxIn → Bool
has_input op [] = false
has_input op (txin ∷ inputs) =
    (not txin.is_null && outpoint_eq op txin.previous_output) || has_input op inputs

abbrev pub tx_at : {A : Type 0} → TxGraph A → ℕ → Option Transaction
tx_at g i = and_then (BtreeMap.get i g.txs) whole_tx

abbrev pub spends_at : Option Transaction → OutPoint → Bool
spends_at none op = false
spends_at (some tx) op = has_input op tx.input

pub get_tx-eq-tx_at : {A : Type 0} (g : TxGraph A) (i : ℕ) → get_tx g i ≡ tx_at g i
unfolding get_tx get_tx_node
get_tx-eq-tx_at g i = ground arith

-- `outspends` has exactly the full transactions with the outpoint among their inputs.
abbrev pub IsIndexed : {A : Type 0} → TxGraph A → Type 0
IsIndexed g = (op : OutPoint) (i : ℕ) → IdSet.contains (outspends g op) i ≡ spends_at (tx_at g i) op

-- Every full transaction is stored under its id.
abbrev pub AreIds : {A : Type 0} → TxGraph A → Type 0
AreIds g = (i : ℕ) (tx : Transaction) → tx_at g i ≡ some tx → tx.txid ≡ i

abbrev row_with : OutPoint → IdSet → BtreeMap (BtreeMap IdSet) → BtreeMap IdSet
row_with q s m = BtreeMap.insert q.vout s (or_empty (BtreeMap.get q.txid m))

spenders_in : OutPoint → Option (BtreeMap IdSet) → IdSet
spenders_in op row = or_empty (and_then row (BtreeMap.get op.vout))

entry-or_empty :
    (b : Bool) (v : ℕ) (s : IdSet) (o : Option (BtreeMap IdSet))
    → or_empty (if b then some s else BtreeMap.get v (or_empty o))
      ≡ (if b then s else or_empty (and_then o (BtreeMap.get v)))
unfolding BtreeMap.get
entry-or_empty true v s o = refl
entry-or_empty false v s none = refl
entry-or_empty false v s (some row) = refl

spenders_in-get :
    (op q : OutPoint) (s : IdSet) (m : BtreeMap (BtreeMap IdSet))
    → spenders_in op (if op.txid == q.txid then some (row_with q s m) else BtreeMap.get op.txid m)
      ≡ (if outpoint_eq op q then s else spenders_at m op)
unfolding spenders_in
spenders_in-get op q s m = elim (Bool-cases (op.txid == q.txid)) [
  | inl e ↦
      rw
        (
          e,
          BtreeMap.get-insert op.vout q.vout s (or_empty (BtreeMap.get q.txid m)),
          (==_iff op.txid q.txid).0 e,
        )
        (entry-or_empty (op.vout == q.vout) op.vout s (BtreeMap.get q.txid m))
  | inr e ↦ rw e refl
]

pub spenders_at-insert_at :
    (op q : OutPoint) (s : IdSet) (m : BtreeMap (BtreeMap IdSet))
    → spenders_at (insert_at q s m) op ≡ (if outpoint_eq op q then s else spenders_at m op)
unfolding insert_at spenders_in
spenders_at-insert_at op q s m =
    ap (spenders_in op) (BtreeMap.get-insert op.txid q.txid (row_with q s m) m)
    ∙ spenders_in-get op q s m

pub contains-add_spends :
    (op : OutPoint) (i k : ℕ) (ins : List TxIn) (m : BtreeMap (BtreeMap IdSet))
    → IdSet.contains (spenders_at (add_spends k ins m) op) i
      ≡ (((i == k) && has_input op ins) || IdSet.contains (spenders_at m op) i)
unfolding add_spends
contains-add_spends op i k [] m = ground arith
contains-add_spends op i k (txin ∷ ins) m = ground (
  arith,
  contains-add_spends op i k ins m,
  contains-add_spends op i k ins
      (insert_at txin.previous_output (IdSet.insert k (spenders_at m txin.previous_output)) m),
  spenders_at-insert_at op txin.previous_output
      (IdSet.insert k (spenders_at m txin.previous_output)) m,
  IdSet.contains-insert i k (spenders_at m txin.previous_output),
)

-- Two lists of inputs with the same outpoints.
abbrev pub same_outpoints : List TxIn → List TxIn → Bool
same_outpoints [] [] = true
same_outpoints [] (b ∷ bs) = false
same_outpoints (a ∷ rest) [] = false
same_outpoints (a ∷ rest) (b ∷ bs) =
    (if a.is_null then b.is_null else not b.is_null)
    && (outpoint_eq a.previous_output b.previous_output && same_outpoints rest bs)

has_input-merge_inputs :
    (op : OutPoint) (xs ys : List TxIn)
    → same_outpoints xs ys ≡ true
    → has_input op (merge_inputs xs ys) ≡ has_input op xs
unfolding merge_inputs
has_input-merge_inputs op [] ys h = refl
has_input-merge_inputs op (x ∷ xs) [] h = ground arith
has_input-merge_inputs op (x ∷ xs) (y ∷ ys) h = ground (arith, has_input-merge_inputs op xs ys)

has_input-same :
    (op : OutPoint) (xs ys : List TxIn)
    → same_outpoints xs ys ≡ true
    → has_input op ys ≡ has_input op xs
has_input-same op [] [] h = refl
has_input-same op [] (y ∷ ys) h = ground arith
has_input-same op (x ∷ xs) [] h = ground arith
has_input-same op (x ∷ xs) (y ∷ ys) h = ground (arith, has_input-same op xs ys)

spends_at-merge_tx_witnesses :
    (op : OutPoint) (a b c : Transaction)
    → same_outpoints a.input b.input ≡ true
    → merge_tx_witnesses a b ≡ some c
    → has_input op c.input ≡ has_input op a.input
unfolding merge_tx_witnesses
spends_at-merge_tx_witnesses op a b c h e =
    ground (arith, has_input-merge_inputs op a.input b.input h, has_input-same op a.input b.input h)

merged_txid :
    (a b c : Transaction) → a.txid ≡ b.txid → merge_tx_witnesses a b ≡ some c → c.txid ≡ b.txid
unfolding merge_tx_witnesses
merged_txid a b c h e = ground arith

module _ {A : Type 0} where
  -- A transaction's id is its hash: the full transaction stored under the id has its outpoints.
  abbrev pub IsSameTx : TxGraph A → Transaction → Type 0
  IsSameTx g tx =
      (existing : Transaction)
      → tx_at g tx.txid ≡ some existing
      → same_outpoints existing.input tx.input ≡ true

  tx_at-update :
      (g : TxGraph A) (k i : ℕ) (tx : Transaction)
      → tx_at (record g { txs = BtreeMap.insert k (whole tx) g.txs }) i
        ≡ (if i == k then some tx else tx_at g i)
  tx_at-update g k i tx = elim (Bool-cases (i == k)) [
    | inl e ↦ rw (BtreeMap.get-insert i k (whole tx) g.txs, e) refl
    | inr e ↦ rw (BtreeMap.get-insert i k (whole tx) g.txs, e) refl
  ]

  replace-IsIndexed :
      (g : TxGraph A) (k : ℕ) (old new : Transaction)
      → IsIndexed g
      → tx_at g k ≡ some old
      → ((op : OutPoint) → has_input op new.input ≡ has_input op old.input)
      → IsIndexed (record g { txs = BtreeMap.insert k (whole new) g.txs })
  unfolding outspends
  replace-IsIndexed g k old new ix e same op i = elim (Bool-cases (i == k)) [
    | inl at_k ↦
        rw (tx_at-update g k i new, at_k, same op) (rw (ix op i, (==_iff i k).0 at_k, e) refl)
    | inr other ↦ rw (tx_at-update g k i new, other) (ix op i)
  ]

  add-IsIndexed :
      (g : TxGraph A) (tx : Transaction)
      → IsIndexed g
      → tx_at g tx.txid ≡ none
      → IsIndexed (record g {
        txs = BtreeMap.insert tx.txid (whole tx) g.txs;
        spends = add_spends tx.txid tx.input g.spends;
      })
  unfolding outspends
  add-IsIndexed g tx ix e op i = ground (
    arith,
    tx_at-update g tx.txid i tx,
    contains-add_spends op i tx.txid tx.input g.spends,
    ix op i,
    e,
  )

  update_whole-IsIndexed :
      (g : TxGraph A) (old tx : Transaction)
      → IsIndexed g
      → tx_at g tx.txid ≡ some old
      → same_outpoints old.input tx.input ≡ true
      → IsIndexed (update_whole g old tx).0
  unfolding update_whole
  update_whole-IsIndexed g old tx ix e same op i =
      elim (Bool-cases (inputs_eq old.input tx.input)) [
        | inl b ↦ rw b (ix op i)
        | inr b ↦ elim (Option-cases (merge_tx_witnesses old tx)) [
          | inl m ↦ rw (b, m) (ix op i)
          | inr (new, m) ↦
              rw (b, m)
                (replace-IsIndexed g tx.txid old new ix e
                  (λ q. spends_at-merge_tx_witnesses q old tx new same m) op i)
        ]
      ]

  abbrev pub IsStored : TxGraph A → Transaction → Transaction → Type 0
  IsStored g tx new =
      (new.txid ≡ tx.txid)
      × ((i : ℕ) → tx_at (insert_tx g tx).0 i ≡ (if i == tx.txid then some new else tx_at g i))

  self_at :
      (g : TxGraph A) (k : ℕ) (old : Transaction) (i : ℕ)
      → tx_at g k ≡ some old
      → tx_at g i ≡ (if i == k then some old else tx_at g i)
  self_at g k old i e = elim (Bool-cases (i == k)) [
    | inl at_k ↦ rw at_k (rw ((==_iff i k).0 at_k) e)
    | inr other ↦ rw other refl
  ]

  -- The one entry that changes is a transaction of the id.
  pub insert_tx-IsStored :
      (g : TxGraph A) (tx : Transaction) → AreIds g → (new : Transaction) × IsStored g tx new
  unfolding insert_tx update_whole
  insert_tx-IsStored g tx ids = elim (Option-cases (tx_at g tx.txid)) [
    | inl e ↦ (tx, (refl, λ i. rw (insert_tx, e) (tx_at-update g tx.txid i tx)))
    | inr (old, e) ↦ elim (Bool-cases (inputs_eq old.input tx.input)) [
      | inl b ↦ (
        old,
        (ids tx.txid old e, λ i. rw (insert_tx, e, update_whole, b) (self_at g tx.txid old i e)),
      )
      | inr b ↦ elim (Option-cases (merge_tx_witnesses old tx)) [
        | inl m ↦ (
          old,
          (
            ids tx.txid old e,
            λ i. rw (insert_tx, e, update_whole, b, m) (self_at g tx.txid old i e),
          ),
        )
        | inr (new, m) ↦ (
          new,
          (
            merged_txid old tx new (ids tx.txid old e) m,
            λ i. rw (insert_tx, e, update_whole, b, m) (tx_at-update g tx.txid i new),
          ),
        )
      ]
    ]
  ]

  pub insert_tx-AreIds : (g : TxGraph A) (tx : Transaction) → AreIds g → AreIds (insert_tx g tx).0
  insert_tx-AreIds g tx ids i u e =
      let (new, (same, found)) = insert_tx-IsStored g tx ids in
      elim (Bool-cases (i == tx.txid)) [
        | inl b ↦
            ap (λ (t : Transaction). t.txid) (some-injective (sym e ∙ (rw b at (found i))))
            ∙ same
            ∙ sym ((==_iff i tx.txid).0 b)
        | inr b ↦ ids i u (sym (rw b at (found i)) ∙ e)
      ]

  -- Inserting a transaction keeps the index of spends exact, when a transaction stored under its
  -- id has its outpoints.
  pub insert_tx-IsIndexed :
      (g : TxGraph A) (tx : Transaction)
      → IsIndexed g
      → IsSameTx g tx
      → IsIndexed (insert_tx g tx).0
  unfolding insert_tx
  insert_tx-IsIndexed g tx ix same op i = elim (Option-cases (tx_at g tx.txid)) [
    | inl e ↦ rw (insert_tx, e) (add-IsIndexed g tx ix e op i)
    | inr (old, e) ↦ rw (insert_tx, e) (update_whole-IsIndexed g old tx ix e (same old e) op i)
  ]
