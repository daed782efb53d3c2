-- ===== src/Mweb/Pmmr/Tests.antt =====
-- Positions, and the checks of leafsets and batches, at inputs.
use bdk.Prelude.{ℕ, ◌≡◌, ◌↔◌, refl, some, List, [], ◌∷◌}
use bdk.Mweb.Leafset.{
  MwebLeafset, accepted, rejected, bad_proof, protocol, bitset_test, unspent_leaf_indices,
}
use bdk.Mweb.Leafset.Bits.{contains, contains-unspent_leaf_indices}
use bdk.Mweb.Pmmr.{Index, leaf_position, checked_leaf_position, ones, left_child, right_child}
use bdk.Mweb.Pmmr.Verify.{verify_leafset, MwebUtxoEntry, check_batch, check_entries, is_unordered}
use bdk.Mweb.Pmmr.Verify.Accepts.{IsComparable, check_batch-eq-accepted}

leaf_5 : leaf_position 5 ≡ 8
unfolding leaf_position checked_leaf_position ones
leaf_5 = refl

abbrev node_6 : Index
node_6 = record { position = 6; height = 2 }

abbrev node_2 : Index
node_2 = record { position = 2; height = 1 }

abbrev node_5 : Index
node_5 = record { position = 5; height = 1 }

left_of_6 : left_child node_6 ≡ some node_2
unfolding left_child
left_of_6 = refl

right_of_6 : right_child node_6 ≡ some node_5
unfolding right_child
right_of_6 = refl

-- Three bits are set: 0, 2 and 9.
abbrev three_bits : MwebLeafset
three_bits = record { block_hash = 7; leafset = 160 ∷ 64 ∷ [] }

contains-unspent_leaf_indices_example :
    contains (unspent_leaf_indices three_bits) 9 ≡ bitset_test three_bits.leafset 9
contains-unspent_leaf_indices_example = contains-unspent_leaf_indices three_bits 9

-- A stand-in for the hash: the bytes themselves.
abbrev same_bytes : List ℕ → List ℕ
same_bytes bytes = bytes

leafset_accepted : verify_leafset same_bytes three_bits (160 ∷ 64 ∷ []) 10 ≡ accepted
unfolding verify_leafset
leafset_accepted = refl

leafset_mismatch : verify_leafset same_bytes three_bits (160 ∷ []) 10 ≡ rejected bad_proof
unfolding verify_leafset
leafset_mismatch = refl

abbrev entry : ℕ → MwebUtxoEntry ℕ
entry leaf_index = record { leaf_index = leaf_index; output = 0 }

batch_accepted : check_batch (entry 0 ∷ entry 9 ∷ []) three_bits 10 ≡ accepted
unfolding check_batch is_unordered check_entries bitset_test
batch_accepted = refl

batch_twice : check_batch (entry 9 ∷ entry 9 ∷ []) three_bits 10 ≡ rejected protocol
unfolding check_batch is_unordered
batch_twice = refl

batch_spent : check_batch (entry 0 ∷ entry 1 ∷ []) three_bits 10 ≡ rejected bad_proof
unfolding check_batch is_unordered check_entries bitset_test
batch_spent = refl

batch_empty : check_batch {O = ℕ} [] three_bits 0 ≡ accepted
unfolding check_batch
batch_empty = refl

check_batch-eq-accepted_example :
    (check_batch (entry 0 ∷ entry 9 ∷ []) three_bits 10 ≡ accepted)
    ↔ IsComparable (entry 0 ∷ entry 9 ∷ []) three_bits 10
check_batch-eq-accepted_example = check_batch-eq-accepted (entry 0 ∷ entry 9 ∷ []) three_bits 10
