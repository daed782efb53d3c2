-- ===== src/Chain/SpkTxOut/Kept.antt =====
-- What every operation of `SpkTxOutIndex` of `crates/chain/src/indexer/spk_txout.rs` keeps.
use bdk.Prelude.{
  ℕ, suc, ◌≡◌, refl, sym, ap, ◌∙◌, true, false, not, ◌&&◌, Option, none, some, List, [], ◌∷◌, ◌==◌,
  ==_iff, if◌then◌else◌, and_then, arith, Bool-cases, Option-cases, inl, inr, ◌⊎◌, subst,
  some-injective,
}
use bdk.Prelude.BtreeMap
use bdk.Prelude.BtreeMap.{BtreeMap}
use bdk.Prelude.BtreeSet
use bdk.Prelude.BtreeSet.{cmp_pair, contains_pair-insert}
use bdk.Prelude.IdSet
use bdk.Core.Merge.{list_is_empty}
use bdk.Chain.Tx.{OutPoint, TxOut, outpoint_eq}
use bdk.Chain.TxGraph.{or_empty}
use bdk.Chain.TxGraph.ChangeSet.{insert_at}
use bdk.Chain.SpkTxOut.{
  SpkTxOutIndex, get_at, is_some, txout, spk_at_index, index_of_spk, outputs_at, has_outputs,
  is_mweb_bridge_output, index_output, scan_txout, add_index, scan_from,
}

get-or_empty :
    {V : Type 0} (k : ℕ) (o : Option (BtreeMap V))
    → BtreeMap.get k (or_empty o) ≡ and_then o (BtreeMap.get k)
unfolding BtreeMap.get
get-or_empty k none = refl
get-or_empty k (some m) = refl

get_at-insert_at :
    {V : Type 0} (q op : OutPoint) (v : V) (m : BtreeMap (BtreeMap V))
    → get_at q (insert_at op v m) ≡ (if outpoint_eq q op then some v else get_at q m)
unfolding insert_at
get_at-insert_at q op v m = elim (Bool-cases (q.txid == op.txid)) [
  | inl e ↦
      let held = or_empty (BtreeMap.get op.txid m) in
      let old : BtreeMap.get q.vout held ≡ get_at q m =
        get-or_empty q.vout (BtreeMap.get op.txid m)
        ∙ ap (λ t. and_then (BtreeMap.get t m) (BtreeMap.get q.vout))
            (sym ((==_iff q.txid op.txid).0 e)) in
      rw
        (
          BtreeMap.get-insert q.txid op.txid (BtreeMap.insert op.vout v held) m,
          e,
          BtreeMap.get-insert q.vout op.vout v held,
          old,
        )
        refl
  | inr e ↦
      rw
        (
          BtreeMap.get-insert q.txid op.txid
              (BtreeMap.insert op.vout v (or_empty (BtreeMap.get op.txid m))) m,
          e,
        )
        refl
]

list_is_empty-insert :
    (x : ℕ × ℕ) (s : List (ℕ × ℕ)) → list_is_empty (BtreeSet.insert cmp_pair x s) ≡ false
unfolding BtreeSet.insert
list_is_empty-insert x [] = refl
list_is_empty-insert (a, b) ((c, d) ∷ s) = ground arith

module _ (witness_version : ℕ → Option ℕ) where
  -- The scripts of the indexed outputs have their indices, the outputs of an index are listed, and an
  -- index that is unused has a script and no output.
  pub record IsIndexed (self : SpkTxOutIndex) : Type 0 where
    pub known : (spk i : ℕ) → index_of_spk self spk ≡ some i → spk_at_index self i ≡ some spk
    pub owned :
        (op : OutPoint) (i : ℕ) (out : TxOut)
        → txout self op ≡ some (i, out)
        → (index_of_spk self out.script_pubkey ≡ some i)
          × (is_mweb_bridge_output witness_version out.script_pubkey ≡ false)
    pub listed :
        (op : OutPoint) (i : ℕ) (out : TxOut)
        → txout self op ≡ some (i, out)
        → BtreeSet.contains cmp_pair (outputs_at self i) (op.txid, op.vout) ≡ true
    pub unused :
        (i : ℕ)
        → IdSet.contains self.unused i ≡ true
        → (is_some (spk_at_index self i) ≡ true) × (has_outputs self i ≡ false)
    pub placed : (i : ℕ) → has_outputs self i ≡ true → is_some (spk_at_index self i) ≡ true

  outputs_at-index_output :
      (self : SpkTxOutIndex) (op : OutPoint) (out : TxOut) (k i : ℕ)
      → outputs_at (index_output witness_version self op out (some k)).0 i ≡ (
          if i == k
          then BtreeSet.insert cmp_pair (op.txid, op.vout) (outputs_at self k)
          else outputs_at self i)
  outputs_at-index_output self op out k i =
      let put = BtreeSet.insert cmp_pair (op.txid, op.vout) (outputs_at self k) in
      elim (Bool-cases (i == k)) [
        | inl e ↦ rw (BtreeMap.get-insert i k put self.spk_txouts, e) refl
        | inr e ↦ rw (BtreeMap.get-insert i k put self.spk_txouts, e) refl
      ]

  -- The entry that is put, or one that was there.
  found_output :
      (self : SpkTxOutIndex) (op q : OutPoint) (out o : TxOut) (k i : ℕ)
      → get_at q (insert_at op (k, out) self.txouts) ≡ some (i, o)
      → ((outpoint_eq q op ≡ true) × (◌≡◌ {A = ℕ × TxOut} (k, out) (i, o)))
        ⊎ ((outpoint_eq q op ≡ false) × (txout self q ≡ some (i, o)))
  found_output self op q out o k i f = elim (Bool-cases (outpoint_eq q op)) [
    | inl same ↦
        inl
          (same, some-injective (rw same at (sym (get_at-insert_at q op (k, out) self.txouts) ∙ f)))
    | inr other ↦ inr (other, rw other at (sym (get_at-insert_at q op (k, out) self.txouts) ∙ f))
  ]

  index_output-IsIndexed :
      (self : SpkTxOutIndex) (op : OutPoint) (out : TxOut) (k : ℕ)
      → is_mweb_bridge_output witness_version out.script_pubkey ≡ false
      → index_of_spk self out.script_pubkey ≡ some k
      → IsIndexed self
      → IsIndexed (index_output witness_version self op out (some k)).0
  index_output-IsIndexed self op out k b e h =
      let at = outputs_at-index_output self op out k in
      record {
        known = h.known;
        owned = λ q i o f. elim (found_output self op q out o k i f) [
          | inl (same, p) ↦
              subst
                (λ (r : ℕ × TxOut).
                  (index_of_spk self r.1.script_pubkey ≡ some r.0)
                  × (is_mweb_bridge_output witness_version r.1.script_pubkey ≡ false))
                p (e, b)
          | inr (other, old) ↦ h.owned q i o old
        ];
        listed = λ q i o f. elim (found_output self op q out o k i f) [
          | inl (same, p) ↦
              rw
                (
                  at i,
                  (==_iff i k).1 (sym (ap (λ (r : ℕ × TxOut). r.0) p)),
                  contains_pair-insert (op.txid, op.vout) (q.txid, q.vout) (outputs_at self k),
                  same,
                )
                refl
          | inr (other, old) ↦ elim (Bool-cases (i == k)) [
            | inl d ↦
                rw
                  (
                    at i,
                    d,
                    contains_pair-insert (op.txid, op.vout) (q.txid, q.vout) (outputs_at self k),
                    other,
                  )
                  (subst
                    (λ n. BtreeSet.contains cmp_pair (outputs_at self n) (q.txid, q.vout) ≡ true)
                    ((==_iff i k).0 d) (h.listed q i o old))
            | inr d ↦ rw (at i, d) (h.listed q i o old)
          ]
        ];
        unused = λ i f.
            let both : (not (i == k) && IdSet.contains self.unused i) ≡ true =
              sym (IdSet.contains-remove i k self.unused) ∙ f in
            elim (Bool-cases (i == k)) [
              | inl d ↦ absurd (ground (arith, both, d))
              | inr d ↦ let old = h.unused i (rw d at both) in (old.0, rw (at i, d) old.1)
            ];
        placed = λ i f. elim (Bool-cases (i == k)) [
          | inl d ↦ rw ((==_iff i k).0 d, h.known out.script_pubkey k e) refl
          | inr d ↦ h.placed i (rw (at i, d) at f)
        ];
      }

  pub scan_txout-IsIndexed :
      (self : SpkTxOutIndex) (op : OutPoint) (out : TxOut)
      → IsIndexed self
      → IsIndexed (scan_txout witness_version self op out).0
  unfolding scan_txout
  scan_txout-IsIndexed self op out h =
      elim (Bool-cases (is_mweb_bridge_output witness_version out.script_pubkey)) [
        | inl b ↦ rw (scan_txout, b) h
        | inr b ↦ elim (Option-cases (index_of_spk self out.script_pubkey)) [
          | inl e ↦ rw (scan_txout, b, e) h
          | inr (k, e) ↦ rw (scan_txout, b, e) (index_output-IsIndexed self op out k b e h)
        ]
      ]

  pub scan_from-IsIndexed :
      (txid i : ℕ) (outs : List TxOut) (self : SpkTxOutIndex) (scanned : List ℕ)
      → IsIndexed self
      → IsIndexed (scan_from witness_version txid i outs self scanned).0
  unfolding scan_from
  scan_from-IsIndexed txid i [] self scanned h = h
  scan_from-IsIndexed txid i (out ∷ outs) self scanned h =
      let op : OutPoint = record { txid = txid; vout = i } in
      let put = scan_txout witness_version self op out in
      scan_from-IsIndexed txid (suc i) outs put.0 (add_index witness_version put.1 scanned)
        (scan_txout-IsIndexed self op out h)
