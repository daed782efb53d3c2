-- ===== src/Chain/SpkTxOut/Steps.antt =====
-- Sequences of operations on `SpkTxOutIndex` of `crates/chain/src/indexer/spk_txout.rs`.
use bdk.Prelude.{
  ℕ, ◌≡◌, refl, ap, Bool, true, Option, none, some, List, [], ◌∷◌, ==_iff, arith, Bool-cases,
  Option-cases, inl, inr,
}
use bdk.Prelude.BtreeMap
use bdk.Prelude.IdSet
use bdk.Prelude.IdSet.{IdSet}
use bdk.Chain.Tx.{OutPoint, TxOut, Transaction}
use bdk.Chain.SpkTxOut.{
  SpkTxOutIndex, default, is_some, spk_at_index, insert_spk, mark_used, unmark_used, spks_of,
  unused_spks, scan_txout, scan,
}
use bdk.Chain.SpkTxOut.Kept.{IsIndexed, scan_txout-IsIndexed, scan_from-IsIndexed}
use bdk.Chain.SpkTxOut.Marks.{
  none-some, false-true, insert_spk-IsIndexed, mark_used-IsIndexed, unmark_used-IsIndexed,
}

pub data Step : Type 0 where
  add_spk : (index spk : ℕ) → Step
  see_output : OutPoint → TxOut → Step
  see_tx : Transaction → Step
  use_index : ℕ → Step
  free_index : ℕ → Step

module _ (witness_version : ℕ → Option ℕ) where
  unfoldable pub take_step : SpkTxOutIndex → Step → SpkTxOutIndex
  take_step self (add_spk index spk) = (insert_spk self index spk).0
  take_step self (see_output op out) = (scan_txout witness_version self op out).0
  take_step self (see_tx tx) = (scan witness_version self tx).0
  take_step self (use_index index) = (mark_used self index).0
  take_step self (free_index index) = (unmark_used self index).0

  unfoldable pub take_steps : SpkTxOutIndex → List Step → SpkTxOutIndex
  take_steps self [] = self
  take_steps self (step ∷ steps) = take_steps (take_step self step) steps

  -- A script is inserted at an index that has none.
  abbrev pub IsFresh : SpkTxOutIndex → Step → Type 0
  IsFresh self (add_spk index spk) = spk_at_index self index ≡ none
  IsFresh self (see_output op out) = Unit
  IsFresh self (see_tx tx) = Unit
  IsFresh self (use_index index) = Unit
  IsFresh self (free_index index) = Unit

  unfoldable pub AreFresh : SpkTxOutIndex → List Step → Type 0
  AreFresh self [] = Unit
  AreFresh self (step ∷ steps) = IsFresh self step × AreFresh (take_step self step) steps

  take_step-IsIndexed :
      (self : SpkTxOutIndex) (step : Step)
      → IsFresh self step
      → IsIndexed witness_version self
      → IsIndexed witness_version (take_step self step)
  unfolding take_step scan
  take_step-IsIndexed self (add_spk index spk) f h =
      insert_spk-IsIndexed witness_version self index spk f h
  take_step-IsIndexed self (see_output op out) f h =
      scan_txout-IsIndexed witness_version self op out h
  take_step-IsIndexed self (see_tx tx) f h =
      scan_from-IsIndexed witness_version tx.txid 0 tx.output self [] h
  take_step-IsIndexed self (use_index index) f h = mark_used-IsIndexed witness_version self index h
  take_step-IsIndexed self (free_index index) f h =
      unmark_used-IsIndexed witness_version self index h

  -- Any sequence of operations that inserts scripts at new indices keeps the index consistent: every
  -- indexed output stands under the index of its script, is listed there and is no bridge output, the
  -- script of an index is found under it, and an index that is unused has a script and no output.
  pub take_steps-IsIndexed :
      (self : SpkTxOutIndex) (steps : List Step)
      → AreFresh self steps
      → IsIndexed witness_version self
      → IsIndexed witness_version (take_steps self steps)
  unfolding take_steps AreFresh
  take_steps-IsIndexed self [] f h = h
  take_steps-IsIndexed self (step ∷ steps) f h =
      take_steps-IsIndexed (take_step self step) steps f.1 (take_step-IsIndexed self step f.0 h)

  spks_of-eq-some :
      (range : ℕ → Bool) (self : SpkTxOutIndex) (unused : IdSet)
      → ((i : ℕ) → IdSet.contains unused i ≡ true → is_some (spk_at_index self i) ≡ true)
      → (l : List (ℕ × ℕ)) × (spks_of range self unused ≡ some l)
  unfolding spks_of IdSet.contains
  spks_of-eq-some range self [] h = ([], refl)
  spks_of-eq-some range self (index ∷ unused) h =
      let (l, e) = spks_of-eq-some range self unused (λ i c. h i (ground (arith, c))) in
      elim (Bool-cases (range index)) [
        | inr r ↦ (l, rw r e)
        | inl r ↦ elim (Option-cases (spk_at_index self index)) [
          | inl n ↦
              absurd (ground (arith, ap is_some n, h index (rw ((==_iff index index).1 refl) refl)))
          | inr (spk, k) ↦ ((index, spk) ∷ l, rw (r, k, e) refl)
        ]
      ]

  pub default-IsIndexed : IsIndexed witness_version default
  unfolding BtreeMap.get IdSet.contains
  default-IsIndexed = record {
    known = λ spk i f. absurd (none-some f);
    owned = λ op i out f. absurd (none-some f);
    listed = λ op i out f. absurd (none-some f);
    unused = λ i f. absurd (false-true f);
    placed = λ i f. absurd (false-true f);
  }

  -- The scripts of the unused indices are found, for any range, after any sequence of operations on
  -- an empty index that inserts scripts at new indices: the lookup that is expected to succeed does.
  pub unused_spks-eq-some :
      (range : ℕ → Bool) (steps : List Step)
      → AreFresh default steps
      → (l : List (ℕ × ℕ)) × (unused_spks (take_steps default steps) range ≡ some l)
  unfolding unused_spks
  unused_spks-eq-some range steps f =
      let last = take_steps default steps in
      let h = take_steps-IsIndexed default steps f default-IsIndexed in
      spks_of-eq-some range last last.unused (λ i c. (h.unused i c).0)
