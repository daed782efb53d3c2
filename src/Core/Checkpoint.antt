-- ===== src/Core/Checkpoint.antt =====
-- `CheckPoint` of `crates/core/src/checkpoint.rs`: a linked list of blocks whose nodes also hold
-- a skip pointer to an earlier node. An `Arc` to a node is read as the node: nodes never change.
-- Heights and indices are `u32` in the program and numbers here.
mod Skip
pub mod Ancestor
pub mod Build
pub mod Floor
pub mod Range
pub mod Iter
pub mod Time
mod Tests
use bdk.Prelude.{
  ℕ, ◌+◌, ◌-◌, ◌%◌, ◌^◌, bit_and, min, Bool, true, false, not, ◌&&◌, ◌||◌, Option, none, some, List,
  [], ◌∷◌, ltb, leb, ◌==◌, if◌then◌else◌,
}
use bdk.Core.BlockId.{BlockHash, BlockId}

abbrev pub u32_mod : ℕ
u32_mod = 2 ^ 32

-- `u32::saturating_add`.
abbrev pub saturating_add : ℕ → ℕ → ℕ
saturating_add a b = min (a + b) (u32_mod - 1)

abbrev invert_lowest_one : ℕ → ℕ
invert_lowest_one n = bit_and n ((n + u32_mod - 1) % u32_mod)

unfoldable pub skip_index : ℕ → ℕ
skip_index i =
    if ltb i 2
    then 0
    else if bit_and i 1 == 0
    then invert_lowest_one i
    else invert_lowest_one (invert_lowest_one (i - 1)) + 1

-- The `use_skip` of `ancestor_by_index`, at a node that has a skip pointer.
abbrev use_skip : ℕ → ℕ → Bool
use_skip i target =
    let skip_i = skip_index i in
    let skip_i_prev = skip_index (i - 1) in
    let prev_skip_strictly_better =
      ltb (saturating_add skip_i_prev 2) skip_i && leb target skip_i_prev in
    skip_i == target || (ltb target skip_i && not prev_skip_strictly_better)

-- `trait ToBlockHash`.
pub record ToBlockHash (D : Type 0) : Type 0 where
  pub to_blockhash : D → BlockHash
  pub prev_blockhash : D → Option BlockHash

-- `CPInner`. A node comes from `CheckPoint::new`, which sets neither pointer and the index 0, or
-- from `CheckPoint::push`, which sets `prev` and `skip`.
pub data CheckPoint (D : Type 0) : Type 0 where
  base : BlockId → D → CheckPoint D
  link : BlockId → D → CheckPoint D → CheckPoint D → ℕ → CheckPoint D

module _ {D : Type 0} where
  abbrev pub data_ref : CheckPoint D → D
  data_ref (base b d) = d
  data_ref (link b d p s i) = d

  abbrev pub block_id : CheckPoint D → BlockId
  block_id (base b d) = b
  block_id (link b d p s i) = b

  abbrev pub height : CheckPoint D → ℕ
  height c = (block_id c).height

  abbrev pub hash : CheckPoint D → BlockHash
  hash c = (block_id c).hash

  abbrev pub prev : CheckPoint D → Option (CheckPoint D)
  prev (base b d) = none
  prev (link b d p s i) = some p

  abbrev pub skip : CheckPoint D → Option (CheckPoint D)
  skip (base b d) = none
  skip (link b d p s i) = some s

  abbrev pub index : CheckPoint D → ℕ
  index (base b d) = 0
  index (link b d p s i) = i

  -- The loop goes on at `skip` or at `prev`, both parts of the node. The base has the index 0, so
  -- the loop stops there.
  unfoldable pub ancestor_by_index : CheckPoint D → ℕ → CheckPoint D
  ancestor_by_index (base b d) target = base b d
  ancestor_by_index (link b d p s i) target =
      let by_skip = ancestor_by_index s target in
      let by_prev = ancestor_by_index p target in
      if ltb target i then (if use_skip i target then by_skip else by_prev) else link b d p s i

  -- The `take_skip` of `walk_to_floor`, at a node with the pointers `p` and `s`.
  abbrev take_skip : ℕ → CheckPoint D → CheckPoint D → Bool
  take_skip target_height p s =
      if ltb (height s) target_height
      then false
      else if height s == target_height
      then true
      else elim (skip p) [
        | some prev_skip_cp ↦
            not (ltb 2 (height s - height prev_skip_cp) && leb target_height (height prev_skip_cp))
        | none ↦ true
      ]

  unfoldable pub walk_to_floor : CheckPoint D → ℕ → Option (CheckPoint D)
  walk_to_floor (base b d) target_height =
      if ltb target_height b.height then none else some (base b d)
  walk_to_floor (link b d p s i) target_height =
      let by_skip = walk_to_floor s target_height in
      let by_prev = walk_to_floor p target_height in
      if ltb target_height b.height
      then (if take_skip target_height p s then by_skip else by_prev)
      else some (link b d p s i)

  -- `CheckPoint::get`.
  unfoldable pub get : CheckPoint D → ℕ → Option (CheckPoint D)
  get self h = if ltb (height self) h then none else elim (walk_to_floor self h) [
    | some floor ↦ if height floor == h then some floor else none
    | none ↦ none
  ]

  -- The items of `CheckPointIter`, from the tip down.
  unfoldable pub iter : CheckPoint D → List (CheckPoint D)
  iter (base b d) = base b d ∷ []
  iter (link b d p s i) = link b d p s i ∷ iter p
