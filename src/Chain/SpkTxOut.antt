-- ===== src/Chain/SpkTxOut.antt =====
-- `SpkTxOutIndex` of `crates/chain/src/indexer/spk_txout.rs` and `is_mweb_bridge_output` of
-- `crates/chain/src/litecoin_scripts.rs`. An index and a script are numbers; the outpoints of the
-- set `spk_txouts` stand by their index, so that the range of an index is one entry.
pub mod Kept
pub mod Marks
pub mod Relevant
pub mod Steps
mod Tests
use bdk.Prelude.{
  ℕ, zero, suc, ◌+◌, Bool, true, false, not, ◌&&◌, ◌||◌, Option, none, some, List, [], ◌∷◌, ◌==◌,
  if◌then◌else◌, and_then,
}
use bdk.Prelude.BtreeMap
use bdk.Prelude.BtreeMap.{BtreeMap}
use bdk.Prelude.BtreeSet
use bdk.Prelude.BtreeSet.{cmp_pair}
use bdk.Prelude.IdSet
use bdk.Prelude.IdSet.{IdSet}
use bdk.Core.Merge.{list_is_empty}
use bdk.Chain.Tx.{OutPoint, TxIn, TxOut, Transaction}
use bdk.Chain.TxGraph.{or_empty}
use bdk.Chain.TxGraph.ChangeSet.{OutPointMap, insert_at}

pub record SpkTxOutIndex : Type 0 where
  pub spks : BtreeMap ℕ
  pub spk_indices : BtreeMap ℕ
  pub unused : IdSet
  pub txouts : OutPointMap (ℕ × TxOut)
  pub spk_txouts : BtreeMap (List (ℕ × ℕ))

abbrev pub default : SpkTxOutIndex
default = record { spks = []; spk_indices = []; unused = []; txouts = []; spk_txouts = [] }

abbrev pub get_at {ℓ} : {V : Type ℓ} → OutPoint → BtreeMap (BtreeMap V) → Option V
get_at op m = and_then (BtreeMap.get op.txid m) (BtreeMap.get op.vout)

abbrev pub is_some {ℓ} : {A : Type ℓ} → Option A → Bool
is_some none = false
is_some (some a) = true

abbrev pub txout : SpkTxOutIndex → OutPoint → Option (ℕ × TxOut)
txout self outpoint = get_at outpoint self.txouts

abbrev pub spk_at_index : SpkTxOutIndex → ℕ → Option ℕ
spk_at_index self index = BtreeMap.get index self.spks

abbrev pub index_of_spk : SpkTxOutIndex → ℕ → Option ℕ
index_of_spk self script = BtreeMap.get script self.spk_indices

abbrev pub insert_new : SpkTxOutIndex → ℕ → ℕ → SpkTxOutIndex
insert_new self index spk = record self {
  spk_indices = BtreeMap.insert spk index self.spk_indices;
  spks = BtreeMap.insert index spk self.spks;
  unused = IdSet.insert index self.unused;
}

unfoldable pub insert_spk : SpkTxOutIndex → ℕ → ℕ → SpkTxOutIndex × Bool
insert_spk self index spk =
    if is_some (BtreeMap.get spk self.spk_indices)
    then (self, false)
    else (insert_new self index spk, true)

unfoldable pub is_used : SpkTxOutIndex → ℕ → Bool
is_used self index = not (IdSet.contains self.unused index)

unfoldable pub mark_used : SpkTxOutIndex → ℕ → SpkTxOutIndex × Bool
mark_used self index =
    (record self { unused = IdSet.remove index self.unused }, IdSet.contains self.unused index)

-- `outputs_in_range(index..=index)`.
abbrev pub outputs_at : SpkTxOutIndex → ℕ → List (ℕ × ℕ)
outputs_at self index = or_empty (BtreeMap.get index self.spk_txouts)

abbrev pub has_outputs : SpkTxOutIndex → ℕ → Bool
has_outputs self index = not (list_is_empty (outputs_at self index))

unfoldable pub unmark_used : SpkTxOutIndex → ℕ → SpkTxOutIndex × Bool
unmark_used self index =
    if not (is_some (BtreeMap.get index self.spks))
    then (self, false)
    else if has_outputs self index
    then (self, false)
    else (
      record self { unused = IdSet.insert index self.unused },
      not (IdSet.contains self.unused index),
    )

-- `unused_spks` for a range as a test, where `expect` panics on an index that has no script.
unfoldable pub spks_of : (ℕ → Bool) → SpkTxOutIndex → IdSet → Option (List (ℕ × ℕ))
spks_of range self [] = some []
spks_of range self (index ∷ unused) =
    let rest = spks_of range self unused in
    if range index
    then and_then (spk_at_index self index) (λ spk. and_then rest (λ l. some ((index, spk) ∷ l)))
    else rest

unfoldable pub unused_spks : SpkTxOutIndex → (ℕ → Bool) → Option (List (ℕ × ℕ))
unused_spks self range = spks_of range self self.unused

abbrev is_bridge_version : Option ℕ → Bool
is_bridge_version none = false
is_bridge_version (some version) = version == 8 || version == 9

abbrev pub any_input : SpkTxOutIndex → List TxIn → Bool
any_input self [] = false
any_input self (input ∷ inputs) =
    let rest = any_input self inputs in is_some (txout self input.previous_output) || rest

module _ (witness_version : ℕ → Option ℕ) where
  unfoldable pub is_mweb_bridge_output : ℕ → Bool
  is_mweb_bridge_output script = is_bridge_version (witness_version script)

  -- The output is put under the index of its script, if there is one.
  abbrev pub index_output : SpkTxOutIndex → OutPoint → TxOut → Option ℕ → SpkTxOutIndex × Option ℕ
  index_output self op out none = (self, none)
  index_output self op out (some spk_i) = (
    record self {
      txouts = insert_at op (spk_i, out) self.txouts;
      spk_txouts =
          BtreeMap.insert spk_i
            (BtreeSet.insert cmp_pair (op.txid, op.vout) (outputs_at self spk_i)) self.spk_txouts;
      unused = IdSet.remove spk_i self.unused;
    },
    some spk_i,
  )

  unfoldable pub scan_txout : SpkTxOutIndex → OutPoint → TxOut → SpkTxOutIndex × Option ℕ
  scan_txout self op out =
      if is_mweb_bridge_output out.script_pubkey
      then (self, none)
      else index_output self op out (index_of_spk self out.script_pubkey)

  abbrev pub add_index : Option ℕ → IdSet → IdSet
  add_index none scanned_indices = scanned_indices
  add_index (some spk_i) scanned_indices = IdSet.insert spk_i scanned_indices

  unfoldable pub scan_from : ℕ → ℕ → List TxOut → SpkTxOutIndex → IdSet → SpkTxOutIndex × IdSet
  scan_from txid i [] self scanned_indices = (self, scanned_indices)
  scan_from txid i (out ∷ outs) self scanned_indices =
      let scanned = scan_txout self (record { txid = txid; vout = i }) out in
      scan_from txid (suc i) outs scanned.0 (add_index scanned.1 scanned_indices)

  unfoldable pub scan : SpkTxOutIndex → Transaction → SpkTxOutIndex × IdSet
  scan self tx = scan_from tx.txid 0 tx.output self []

  abbrev pub any_output : SpkTxOutIndex → List TxOut → Bool
  any_output self [] = false
  any_output self (output ∷ outputs) =
      let rest = any_output self outputs in
      (not (is_mweb_bridge_output output.script_pubkey)
        && is_some (index_of_spk self output.script_pubkey))
      || rest

  unfoldable pub is_relevant : SpkTxOutIndex → Transaction → Bool
  is_relevant self tx = any_input self tx.input || any_output self tx.output

-- `sent` of `sent_and_received`, for a range as a test; amounts that do not overflow.
unfoldable pub sent_from : SpkTxOutIndex → (ℕ → Bool) → List TxIn → ℕ
sent_from self range [] = 0
sent_from self range (txin ∷ inputs) =
    let rest = sent_from self range inputs in
    elim (txout self txin.previous_output) [
      | none ↦ rest
      | some found ↦ if range found.0 then found.1.value + rest else rest
    ]

unfoldable pub received_from : SpkTxOutIndex → (ℕ → Bool) → List TxOut → ℕ
received_from self range [] = 0
received_from self range (out ∷ outputs) =
    let rest = received_from self range outputs in
    elim (index_of_spk self out.script_pubkey) [
      | none ↦ rest
      | some index ↦ if range index then out.value + rest else rest
    ]

unfoldable pub sent_and_received : SpkTxOutIndex → Transaction → (ℕ → Bool) → ℕ × ℕ
sent_and_received self tx range =
    (sent_from self range tx.input, received_from self range tx.output)
