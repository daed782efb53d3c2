-- ===== src/Chain/SpkTxOut/Relevant.antt =====
-- `is_relevant` of `crates/chain/src/indexer/spk_txout.rs`, and what `scan` finds.
use bdk.Prelude.{
  ℕ, suc, ◌≡◌, refl, false, not, ◌&&◌, ◌||◌, Option, List, [], ◌∷◌, arith, Bool-cases, Option-cases,
  inl, inr,
}
use bdk.Prelude.IdSet
use bdk.Prelude.IdSet.{IdSet}
use bdk.Core.Merge.{list_is_empty}
use bdk.Chain.Tx.{OutPoint, TxOut, Transaction}
use bdk.Chain.SpkTxOut.{
  SpkTxOutIndex, is_some, index_of_spk, is_mweb_bridge_output, scan_txout, add_index, scan_from,
  scan, any_input, any_output, is_relevant,
}

list_is_empty-insert : (k : ℕ) (s : IdSet) → list_is_empty (IdSet.insert k s) ≡ false
unfolding IdSet.insert
list_is_empty-insert k [] = refl
list_is_empty-insert k (j ∷ s) = ground arith

module _ (witness_version : ℕ → Option ℕ) where
  spk_indices-scan_txout :
      (self : SpkTxOutIndex) (op : OutPoint) (out : TxOut)
      → (scan_txout witness_version self op out).0.spk_indices ≡ self.spk_indices
  unfolding scan_txout
  spk_indices-scan_txout self op out =
      elim (Bool-cases (is_mweb_bridge_output witness_version out.script_pubkey)) [
        | inl b ↦ rw (scan_txout, b) refl
        | inr b ↦ elim (Option-cases (index_of_spk self out.script_pubkey)) [
          | inl e ↦ rw (scan_txout, b, e) refl
          | inr (k, e) ↦ rw (scan_txout, b, e) refl
        ]
      ]

  any_output-spk_indices :
      (a b : SpkTxOutIndex) (outs : List TxOut)
      → a.spk_indices ≡ b.spk_indices
      → any_output witness_version a outs ≡ any_output witness_version b outs
  any_output-spk_indices a b [] e = refl
  any_output-spk_indices a b (out ∷ outs) e = rw (e, any_output-spk_indices a b outs e) refl

  -- A scan gives an index when an output matches, besides those that were there.
  list_is_empty-scan_txout :
      (self : SpkTxOutIndex) (op : OutPoint) (out : TxOut) (scanned : IdSet)
      → list_is_empty (add_index witness_version (scan_txout witness_version self op out).1 scanned)
        ≡ (list_is_empty scanned
            && not (
                not (is_mweb_bridge_output witness_version out.script_pubkey)
                && is_some (index_of_spk self out.script_pubkey)))
  unfolding scan_txout
  list_is_empty-scan_txout self op out scanned =
      elim (Bool-cases (is_mweb_bridge_output witness_version out.script_pubkey)) [
        | inl b ↦ rw (scan_txout, b) ground arith
        | inr b ↦ elim (Option-cases (index_of_spk self out.script_pubkey)) [
          | inl e ↦ rw (scan_txout, b, e) ground arith
          | inr (k, e) ↦ rw (scan_txout, b, e, list_is_empty-insert k scanned) ground arith
        ]
      ]

  list_is_empty-scan_from :
      (txid i : ℕ) (outs : List TxOut) (self : SpkTxOutIndex) (scanned : IdSet)
      → list_is_empty (scan_from witness_version txid i outs self scanned).1
        ≡ (list_is_empty scanned && not (any_output witness_version self outs))
  unfolding scan_from
  list_is_empty-scan_from txid i [] self scanned = ground arith
  list_is_empty-scan_from txid i (out ∷ outs) self scanned =
      let op : OutPoint = record { txid = txid; vout = i } in
      let put = scan_txout witness_version self op out in
      let more = add_index witness_version put.1 scanned in
      let same = any_output-spk_indices put.0 self outs (spk_indices-scan_txout self op out) in
      ground (
        arith,
        list_is_empty-scan_from txid (suc i) outs put.0 more,
        list_is_empty-scan_txout self op out scanned,
        same,
      )

  -- A transaction is relevant just when it spends an output that is indexed or `scan` finds an index
  -- for one of its outputs.
  pub is_relevant-scan :
      (self : SpkTxOutIndex) (tx : Transaction)
      → is_relevant witness_version self tx
        ≡ (any_input self tx.input || not (list_is_empty (scan witness_version self tx).1))
  unfolding is_relevant scan
  is_relevant-scan self tx = ground (arith, list_is_empty-scan_from tx.txid 0 tx.output self [])
