-- ===== src/Chain/SpkTxOut/Tests.antt =====
-- `SpkTxOutIndex` of `crates/chain/src/indexer/spk_txout.rs` on concrete transactions.
use bdk.Prelude.{
  ℕ, ◌==◌, if◌then◌else◌, ◌≡◌, refl, true, false, not, ◌||◌, Option, none, some, List, [], ◌∷◌,
}
use bdk.Prelude.BtreeMap
use bdk.Prelude.BtreeSet
use bdk.Prelude.IdSet
use bdk.Core.Merge.{list_is_empty}
use bdk.Chain.Tx.{TxOut, Transaction}
use bdk.Chain.TxGraph.ChangeSet.{insert_at}
use bdk.Chain.SpkTxOut.{
  default, insert_spk, mark_used, unmark_used, unused_spks, is_mweb_bridge_output, scan_txout,
  scan_from, scan, is_relevant, any_input, sent_from, received_from, sent_and_received,
}
use bdk.Chain.SpkTxOut.Kept.{IsIndexed}
use bdk.Chain.SpkTxOut.Steps.{
  Step, add_spk, see_tx, use_index, free_index, take_step, take_steps, AreFresh,
  take_steps-IsIndexed, default-IsIndexed, unused_spks-eq-some,
}
use bdk.Chain.SpkTxOut.Relevant.{is_relevant-scan}

-- Two scripts are witness programs of the versions 8 and 9.
abbrev version : ℕ → Option ℕ
version script = if script == 108 then some 8 else if script == 109 then some 9 else none

abbrev out : ℕ → ℕ → TxOut
out value script = record { value = value; script_pubkey = script }

abbrev tx : Transaction
tx = record {
  txid = 7;
  is_coinbase = false;
  input = [];
  output = out 10 21 ∷ out 20 109 ∷ out 30 22 ∷ [];
}

abbrev steps : List Step
steps =
    add_spk 0 21
    ∷ add_spk 1 109
    ∷ add_spk 2 22
    ∷ add_spk 3 23
    ∷ use_index 3
    ∷ see_tx tx
    ∷ free_index 3
    ∷ []

steps-AreFresh : AreFresh version default steps
unfolding AreFresh take_step insert_spk BtreeMap.insert BtreeMap.get IdSet.insert
steps-AreFresh = (refl, (refl, (refl, (refl, (tt, (tt, (tt, tt)))))))

take_steps-IsIndexed_example : IsIndexed version (take_steps version default steps)
take_steps-IsIndexed_example =
    take_steps-IsIndexed version default steps steps-AreFresh (default-IsIndexed version)

unused_spks-eq-some_example :
    (l : List (ℕ × ℕ)) × (unused_spks (take_steps version default steps) (λ i. true) ≡ some l)
unused_spks-eq-some_example = unused_spks-eq-some version (λ i. true) steps steps-AreFresh

is_relevant-scan_example : is_relevant version (take_steps version default steps) tx ≡ (
    any_input (take_steps version default steps) tx.input
    || not (list_is_empty (scan version (take_steps version default steps) tx).1))
is_relevant-scan_example = is_relevant-scan version (take_steps version default steps) tx

-- A bridge output is not indexed, so its index stays unused.
unused-bridge : (take_steps version default steps).unused ≡ 1 ∷ 3 ∷ []
unfolding take_steps take_step insert_spk mark_used unmark_used scan scan_from scan_txout
    is_mweb_bridge_output insert_at BtreeMap.insert BtreeMap.get BtreeSet.insert IdSet.insert
    IdSet.remove IdSet.contains
unused-bridge = refl

-- What is received counts an output whether or not it is a bridge output.
received-bridge : sent_and_received (take_steps version default steps) tx (λ i. true) ≡ (0, 60)
unfolding take_steps take_step insert_spk mark_used unmark_used scan scan_from scan_txout
    is_mweb_bridge_output insert_at BtreeMap.insert BtreeMap.get BtreeSet.insert IdSet.insert
    IdSet.remove IdSet.contains sent_and_received sent_from received_from
received-bridge = refl
