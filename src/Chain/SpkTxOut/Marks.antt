-- ===== src/Chain/SpkTxOut/Marks.antt =====
-- The scripts that are inserted into `SpkTxOutIndex` of `crates/chain/src/indexer/spk_txout.rs`, and
-- the indices that are marked.
use bdk.Prelude.{
  ℕ, ◌≡◌, refl, sym, ap, ◌∙◌, true, false, Option, none, some, ◌==◌, ==_iff, arith, Bool-cases,
  Option-cases, inl, inr,
}
use bdk.Prelude.BtreeMap
use bdk.Prelude.BtreeMap.{BtreeMap}
use bdk.Prelude.IdSet
use bdk.Chain.SpkTxOut.{
  SpkTxOutIndex, is_some, spk_at_index, index_of_spk, insert_new, insert_spk, mark_used,
  has_outputs, unmark_used,
}
use bdk.Chain.SpkTxOut.Kept.{IsIndexed}

is_some-insert :
    (i k v : ℕ) (m : BtreeMap ℕ)
    → is_some (BtreeMap.get i m) ≡ true
    → is_some (BtreeMap.get i (BtreeMap.insert k v m)) ≡ true
is_some-insert i k v m h = elim (Bool-cases (i == k)) [
  | inl d ↦ rw (BtreeMap.get-insert i k v m, d) refl
  | inr d ↦ rw (BtreeMap.get-insert i k v m, d) h
]

pub none-some : {A : Type 0} {a : A} → ◌≡◌ {A = Option A} none (some a) → ⊥
none-some e = cc

pub false-true : false ≡ true → ⊥
false-true e = cc

module _ (witness_version : ℕ → Option ℕ) where
  insert_new-IsIndexed :
      (self : SpkTxOutIndex) (index spk : ℕ)
      → spk_at_index self index ≡ none
      → index_of_spk self spk ≡ none
      → IsIndexed witness_version self
      → IsIndexed witness_version (insert_new self index spk)
  insert_new-IsIndexed self index spk fresh absent h = record {
    known = λ s i f. elim (BtreeMap.get-insert_cases s spk index i self.spk_indices f) [
      | inl (same, here) ↦
          rw
            (
              same,
              sym here,
              BtreeMap.get-insert index index spk self.spks,
              (==_iff index index).1 refl,
            )
            refl
      | inr old ↦ elim (Bool-cases (i == index)) [
        | inl d ↦
            let gone : spk_at_index self i ≡ none = rw ((==_iff i index).0 d) fresh in
            absurd (none-some (sym gone ∙ h.known s i old))
        | inr d ↦ rw (BtreeMap.get-insert i index spk self.spks, d) (h.known s i old)
      ]
    ];
    owned = λ op i out f.
        let old = h.owned op i out f in
        (
          elim (Bool-cases (out.script_pubkey == spk)) [
            | inl d ↦
                let gone : index_of_spk self out.script_pubkey ≡ none =
                  rw ((==_iff out.script_pubkey spk).0 d) absent in
                absurd (none-some (sym gone ∙ old.0))
            | inr d ↦ rw (BtreeMap.get-insert out.script_pubkey spk index self.spk_indices, d) old.0
          ],
          old.1,
        );
    listed = h.listed;
    unused = λ i f. elim (Bool-cases (i == index)) [
      | inl d ↦ (
        rw (BtreeMap.get-insert i index spk self.spks, d) refl,
        elim (Bool-cases (has_outputs self i)) [
          | inl some_outputs ↦
              let gone : spk_at_index self i ≡ none = rw ((==_iff i index).0 d) fresh in
              absurd (false-true (sym (ap is_some gone) ∙ h.placed i some_outputs))
          | inr no_outputs ↦ no_outputs
        ],
      )
      | inr d ↦
          let old = h.unused i (rw d at (sym (IdSet.contains-insert i index self.unused) ∙ f)) in
          (is_some-insert i index spk self.spks old.0, old.1)
    ];
    placed = λ i f. is_some-insert i index spk self.spks (h.placed i f);
  }

  pub insert_spk-IsIndexed :
      (self : SpkTxOutIndex) (index spk : ℕ)
      → spk_at_index self index ≡ none
      → IsIndexed witness_version self
      → IsIndexed witness_version (insert_spk self index spk).0
  unfolding insert_spk
  insert_spk-IsIndexed self index spk fresh h = elim (Option-cases (index_of_spk self spk)) [
    | inl e ↦ rw (insert_spk, e) (insert_new-IsIndexed self index spk fresh e h)
    | inr (k, e) ↦ rw (insert_spk, e) h
  ]

  pub mark_used-IsIndexed :
      (self : SpkTxOutIndex) (index : ℕ)
      → IsIndexed witness_version self
      → IsIndexed witness_version (mark_used self index).0
  unfolding mark_used
  mark_used-IsIndexed self index h = record {
    known = h.known;
    owned = h.owned;
    listed = h.listed;
    unused = λ i f.
        let both = sym (IdSet.contains-remove i index self.unused) ∙ f in
        h.unused i (ground (arith, both));
    placed = h.placed;
  }

  pub unmark_used-IsIndexed :
      (self : SpkTxOutIndex) (index : ℕ)
      → IsIndexed witness_version self
      → IsIndexed witness_version (unmark_used self index).0
  unfolding unmark_used
  unmark_used-IsIndexed self index h = elim (Bool-cases (is_some (spk_at_index self index))) [
    | inr e ↦ rw (unmark_used, e) h
    | inl e ↦ elim (Bool-cases (has_outputs self index)) [
      | inl o ↦ rw (unmark_used, e, o) h
      | inr o ↦
          rw (unmark_used, e, o)
            record {
              known = h.known;
              owned = h.owned;
              listed = h.listed;
              unused = λ i f. elim (Bool-cases (i == index)) [
                | inl d ↦ (rw ((==_iff i index).0 d) e, rw ((==_iff i index).0 d) o)
                | inr d ↦ h.unused i (rw d at (sym (IdSet.contains-insert i index self.unused) ∙ f))
              ];
              placed = h.placed;
            }
    ]
  ]
