-- ===== src/Mweb/Pmmr/Verify/Accepts.antt =====
-- What an accepted leafset and an accepted batch satisfy.
use bdk.Prelude.{
  zero, suc, ◌/◌, ◌%◌, Bool, Option, none, some, get_elem?, sym, ap, ◌∙◌, ◌↔◌, leb, Bool-cases, inl,
  inr, ℕ, ◌≤◌, ◌<◌, ◌≡◌, refl, true, false, List, [], ◌∷◌, All, length, take, arith,
}
use bdk.Mweb.Leafset.{
  MwebLeafset, accepted, max_output_mmr_size, bitset_test, bit_is_set, unspent_leaf_indices,
}
use bdk.Mweb.Leafset.Bits.{contains, contains-unspent_leaf_indices}
use bdk.Mweb.Pmmr.Verify.{
  bytes_for, bytes_eq, verify_leafset, MwebUtxoEntry, is_unordered, check_entries, check_batch,
}

bytes_eq-≡ : (xs ys : List ℕ) → bytes_eq xs ys ≡ true → xs ≡ ys
bytes_eq-≡ [] [] e = refl
bytes_eq-≡ [] (y ∷ ys) e = cc
bytes_eq-≡ (x ∷ xs) [] e = cc
bytes_eq-≡ (x ∷ xs) (y ∷ ys) e = ground (arith, bytes_eq-≡ xs ys)

module _ (blake3_hash : List ℕ → List ℕ) where
  -- An accepted leafset covers every leaf of an MMR whose size is in bounds, and its bytes for
  -- those leaves hash to the root.
  pub verify_leafset-eq-accepted :
      (ls : MwebLeafset) (root : List ℕ) (n : ℕ)
      → verify_leafset blake3_hash ls root n ≡ accepted
      → (n ≤ max_output_mmr_size)
        × (bytes_for n ≤ length ls.leafset)
        × (blake3_hash (take (bytes_for n) ls.leafset) ≡ root)
  unfolding verify_leafset
  verify_leafset-eq-accepted ls root n e =
      ground (arith, bytes_eq-≡ (blake3_hash (take (bytes_for n) ls.leafset)) root)

take_elem : (m j : ℕ) (l : List ℕ) → j < m → get_elem? (take m l) j ≡ get_elem? l j
take_elem zero j l h = absurd (omega (arith, h))
take_elem (suc m) j [] h = refl
take_elem (suc m) zero (x ∷ l) h = refl
take_elem (suc m) (suc j) (x ∷ l) h = take_elem m j l (omega (arith, h))

abbrev bit_of : ℕ → Option ℕ → Bool
bit_of i none = false
bit_of i (some b) = bit_is_set b (i % 8)

-- The bytes that cover the leaves have their bits.
bitset_test-take :
    (n i : ℕ) (l : List ℕ) → i < n → bitset_test (take (bytes_for n) l) i ≡ bitset_test l i
unfolding bitset_test
bitset_test-take n i l h = ap (bit_of i) (take_elem (bytes_for n) (i / 8) l (omega (arith, h)))

module _ {O : Type 0} where
  -- Each leaf index is below all that follow.
  abbrev pub IsIncreasing : List (MwebUtxoEntry O) → Type 0
  IsIncreasing [] = Unit
  IsIncreasing (a ∷ rest) = All (λ b. a.leaf_index < b.leaf_index) rest × IsIncreasing rest

  -- The leaf is one of the MMR and unspent.
  abbrev pub IsUnspentLeaf : MwebLeafset → ℕ → MwebUtxoEntry O → Type 0
  IsUnspentLeaf ls n u =
      (u.leaf_index < n) × (contains (unspent_leaf_indices ls) u.leaf_index ≡ true)

  -- A batch that can be compared with the roots: its leaves are different unspent leaves of the MMR,
  -- in order, whose size is in bounds and covered by the leafset. An empty batch has nothing to
  -- compare.
  abbrev pub IsComparable : List (MwebUtxoEntry O) → MwebLeafset → ℕ → Type 0
  IsComparable [] ls n = Unit
  IsComparable (first ∷ utxos) ls n =
      ((0 < n) × (n ≤ max_output_mmr_size) × (bytes_for n ≤ length ls.leafset))
      × (IsIncreasing (first ∷ utxos) × All (IsUnspentLeaf ls n) (first ∷ utxos))

  below-All :
      (k : ℕ) (a : MwebUtxoEntry O) (rest : List (MwebUtxoEntry O))
      → k < a.leaf_index
      → All (λ b. a.leaf_index < b.leaf_index) rest
      → All (λ b. k < b.leaf_index) rest
  below-All k a [] l h = tt
  below-All k a (b ∷ rest) l h = (omega (arith, l, h.0), below-All k a rest l h.1)

  is_unordered-IsIncreasing :
      (utxos : List (MwebUtxoEntry O)) → is_unordered utxos ≡ false → IsIncreasing utxos
  unfolding is_unordered
  is_unordered-IsIncreasing [] e = tt
  is_unordered-IsIncreasing (a ∷ []) e = (tt, tt)
  is_unordered-IsIncreasing (a ∷ b ∷ rest) e =
      let less : a.leaf_index < b.leaf_index = ground (arith, e) in
      let more = is_unordered-IsIncreasing (b ∷ rest) (ground (arith, e)) in
      ((less, below-All a.leaf_index b rest less more.0), more)

  IsIncreasing-is_unordered :
      (utxos : List (MwebUtxoEntry O)) → IsIncreasing utxos → is_unordered utxos ≡ false
  unfolding is_unordered
  IsIncreasing-is_unordered [] h = refl
  IsIncreasing-is_unordered (a ∷ []) h = refl
  IsIncreasing-is_unordered (a ∷ b ∷ rest) h =
      ground (arith, IsIncreasing-is_unordered (b ∷ rest) h.1, h.0.0)

  check_entries-eq-accepted :
      (utxos : List (MwebUtxoEntry O)) (ls : MwebLeafset) (n : ℕ)
      → (check_entries utxos n (take (bytes_for n) ls.leafset) ≡ accepted)
        ↔ All (IsUnspentLeaf ls n) utxos
  unfolding check_entries
  check_entries-eq-accepted [] ls n = ((λ e. tt), (λ h. refl))
  check_entries-eq-accepted (u ∷ utxos) ls n =
      let rest = check_entries-eq-accepted utxos ls n in
      let bits = take (bytes_for n) ls.leafset in
      let i = u.leaf_index in
      let same : leb n i ≡ false → bitset_test bits i ≡ contains (unspent_leaf_indices ls) i = λ e.
        bitset_test-take n i ls.leafset (ground (arith, e))
        ∙ sym (contains-unspent_leaf_indices ls i) in
      elim (Bool-cases (leb n i)) [
        | inl out ↦
            ((λ e. absurd (ground (arith, out, e))), (λ h. absurd (ground (arith, out, h.0.0))))
        | inr within ↦ elim (Bool-cases (bitset_test bits i)) [
          | inl set ↦ (
            (λ e. (
              (ground (arith, within), sym (same within) ∙ set),
              rest.0 (ground (arith, within, set, e)),
            )),
            (λ h. ground (arith, within, set, rest.1 h.1)),
          )
          | inr unset ↦ (
            (λ e. absurd (ground (arith, within, unset, e))),
            (λ h. absurd (ground (arith, sym unset ∙ same within ∙ h.0.1))),
          )
        ]
      ]

  -- A batch goes on to the comparison with the roots, or is empty, exactly when it is comparable:
  -- for one that has an entry, the MMR has a leaf, its size is in bounds and covered by the leafset,
  -- each leaf index is below all that follow, and each leaf is one of the MMR that
  -- `unspent_leaf_indices` lists.
  pub check_batch-eq-accepted :
      (utxos : List (MwebUtxoEntry O)) (ls : MwebLeafset) (n : ℕ)
      → (check_batch utxos ls n ≡ accepted) ↔ IsComparable utxos ls n
  unfolding check_batch
  check_batch-eq-accepted [] ls n = ((λ e. tt), (λ h. refl))
  check_batch-eq-accepted (first ∷ utxos) ls n =
      let entries = check_entries-eq-accepted (first ∷ utxos) ls n in
      let order = is_unordered-IsIncreasing (first ∷ utxos) in
      (
        (λ e. (
          (ground (arith, e), ground (arith, e), ground (arith, e)),
          (order (ground (arith, e)), entries.0 (ground (arith, e))),
        )),
        (λ h.
            ground (arith, h.0, IsIncreasing-is_unordered (first ∷ utxos) h.1.0, entries.1 h.1.1)),
      )
