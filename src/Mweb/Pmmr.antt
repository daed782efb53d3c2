-- ===== src/Mweb/Pmmr.antt =====
-- The positions and hashes of the output PMMR, of `crates/mweb/src/pmmr.rs`. A `u64` is a number
-- below `2 ^ 64`; `<<` and an unchecked `+` or `-` wrap, as release builds do.
pub mod Position
pub mod Rounds
pub mod Children
pub mod Verify
mod Tests
use bdk.Prelude.{
  ℕ, u64_mod, zero, suc, ◌+◌, ◌*◌, ◌-◌, ◌/◌, ◌%◌, ◌^◌, Bool, true, false, Option, none, some, List,
  [], ◌∷◌, ◌++◌, reverse, bit_and, bit_or, ltb, leb, ◌==◌, and_then, or_else, if◌then◌else◌,
}
use bdk.Core.Checkpoint.Range.{checked_sub}

-- `u64::count_ones`, of the lowest `bits` bits.
pub ones : ℕ → ℕ → ℕ
ones zero n = 0
ones (suc bits) n = n % 2 + ones bits (n / 2)

abbrev pub count_ones : ℕ → ℕ
count_ones n = ones 64 n

-- `u64::checked_mul(2)`.
abbrev checked_double : ℕ → Option ℕ
checked_double n = if ltb (n * 2) u64_mod then some (n * 2) else none

pub checked_leaf_position : ℕ → Option ℕ
checked_leaf_position leaf_index = elim (checked_double leaf_index) [
  | some p ↦ some (p - count_ones leaf_index)
  | none ↦ none
]

pub leaf_position : ℕ → ℕ
unfolding checked_leaf_position
leaf_position leaf_index = elim (checked_leaf_position leaf_index) [
  | some p ↦ p
  | none ↦ u64_mod - 1
]

abbrev pub num_nodes_for_leaves : ℕ → ℕ
num_nodes_for_leaves num_leaves = leaf_position num_leaves

abbrev smear : ℕ → ℕ → ℕ
smear x k = bit_or x (x / 2 ^ k)

pub fill_ones_to_right : ℕ → ℕ
fill_ones_to_right input = smear (smear (smear (smear (smear (smear input 1) 2) 4) 8) 16) 32

-- The loop of `index_height`, with the rounds that are left. A `u64` is 0 after 64 halvings.
unfoldable pub descend : ℕ → ℕ → ℕ → ℕ
descend zero height peak_size = height
descend (suc rounds) height peak_size =
    let next =
      descend rounds (if leb peak_size height then height - peak_size else height)
        (peak_size / 2) in
    if peak_size == 0 then height else next

pub index_height : ℕ → ℕ
unfolding descend fill_ones_to_right
index_height position = descend 64 position (fill_ones_to_right position)

pub record Index : Type 0 where
  pub position : ℕ
  pub height : ℕ

-- `Index::at`.
pub index_at : ℕ → Index
unfolding index_height
index_at position = record { position = position; height = index_height position }

abbrev pub is_leaf : Index → Bool
is_leaf self = self.height == 0

-- `1u64 << n`: a release build takes the amount of the shift modulo 64.
abbrev shl_one : ℕ → ℕ
shl_one n = 2 ^ (n % 64) % u64_mod

abbrev add_wrapping : ℕ → ℕ → ℕ
add_wrapping a b = (a + b) % u64_mod

abbrev sub_wrapping : ℕ → ℕ → ℕ
sub_wrapping a b = (a + u64_mod - b) % u64_mod

pub sibling : Index → Index
unfolding index_height
sibling self =
    if index_height (add_wrapping self.position 1) == add_wrapping self.height 1
    then record {
      position = sub_wrapping (add_wrapping self.position 1) (shl_one (add_wrapping self.height 1));
      height = self.height;
    }
    else record {
      position = sub_wrapping (add_wrapping self.position (shl_one (add_wrapping self.height 1))) 1;
      height = self.height;
    }

-- `1u64.checked_shl(n)`, for an `n` that is a `u32` in the `u64` that the height is.
abbrev checked_shl_one : ℕ → Option ℕ
checked_shl_one n = if ltb n 64 then some (2 ^ n) else none

pub left_child : Index → Option Index
left_child self = and_then (checked_shl_one self.height) (λ offset.
    and_then (checked_sub self.position offset)
      (λ p. and_then (checked_sub self.height 1) (λ h. some (record { position = p; height = h }))))

pub right_child : Index → Option Index
right_child self =
    and_then (checked_sub self.position 1)
      (λ p. and_then (checked_sub self.height 1) (λ h. some (record { position = p; height = h })))

-- The loop of `peak_indices`, with the rounds that are left.
peaks_from : ℕ → ℕ → ℕ → ℕ → List Index
unfolding index_at
peaks_from zero peak_size num_left sum_prev = []
peaks_from (suc rounds) peak_size num_left sum_prev =
    let with_peak =
      index_at (sum_prev + peak_size - 1)
      ∷ peaks_from rounds (peak_size / 2) (num_left - peak_size) (sum_prev + peak_size) in
    let without = peaks_from rounds (peak_size / 2) num_left sum_prev in
    if peak_size == 0 then [] else if leb peak_size num_left then with_peak else without

pub peak_indices : ℕ → List Index
unfolding peaks_from
peak_indices num_nodes =
    if num_nodes == 0 then [] else peaks_from 64 (fill_ones_to_right num_nodes) num_nodes 0

-- `u64::to_le_bytes`, of the lowest `bytes` bytes.
le_bytes : ℕ → ℕ → List ℕ
le_bytes zero n = []
le_bytes (suc bytes) n = n % 256 ∷ le_bytes bytes (n / 256)

-- `blake3_hash` of the bytes, a library's.
module _ (blake3_hash : List ℕ → List ℕ) where
  pub parent_hash : ℕ → List ℕ → List ℕ → List ℕ
  unfolding le_bytes
  parent_hash position left right = blake3_hash (le_bytes 8 position ++ left ++ right)

  pub leaf_hash : ℕ → List ℕ → List ℕ
  unfolding le_bytes leaf_position
  leaf_hash leaf_index output_id =
      blake3_hash (le_bytes 8 (leaf_position leaf_index) ++ 32 ∷ output_id)

  -- The loop of `bag_peaks`: `none` is `have` at `false`.
  bag_from : ℕ → Option (List ℕ) → List (List ℕ) → Option (List ℕ)
  unfolding parent_hash
  bag_from num_nodes acc [] = acc
  bag_from num_nodes none (peak ∷ peaks) = bag_from num_nodes (some peak) peaks
  bag_from num_nodes (some hash) (peak ∷ peaks) =
      bag_from num_nodes (some (parent_hash num_nodes peak hash)) peaks

  pub bag_peaks : List (List ℕ) → ℕ → List ℕ
  unfolding bag_from
  bag_peaks peak_hashes_left_to_right num_nodes =
      elim (bag_from num_nodes none (reverse peak_hashes_left_to_right)) [
        | some hash ↦ hash
        | none ↦
            0 ∷ 0 ∷ 0 ∷ 0 ∷ 0 ∷ 0 ∷ 0 ∷ 0 ∷ 0 ∷ 0 ∷ 0 ∷ 0 ∷ 0 ∷ 0 ∷ 0 ∷ 0 ∷ 0 ∷ 0 ∷ 0 ∷ 0 ∷ 0 ∷ 0
            ∷ 0 ∷ 0 ∷ 0 ∷ 0 ∷ 0 ∷ 0 ∷ 0 ∷ 0 ∷ 0 ∷ 0 ∷ []
      ]
