-- ===== src/Core/Checkpoint/Build.antt =====
-- The operations that build a chain, of `crates/core/src/checkpoint.rs`: `new`, `push`, `extend`,
-- `from_blocks`, `insert`.
pub mod Laws
pub mod Insert
pub mod Rebuild
mod Tests
use bdk.Prelude.{
  ℕ, ◌+◌, Bool, true, false, not, ◌&&◌, Option, none, some, List, [], ◌∷◌, ltb, leb, ◌==◌, Result,
  ok, err, map_err, if◌then◌else◌,
}
use bdk.Core.BlockId.{BlockId}
use bdk.Core.Checkpoint.{
  CheckPoint, base, link, ToBlockHash, height, hash, index, skip_index, ancestor_by_index,
}

-- What one round of the loop of `insert` finds.
data Round : Type 0 where
  above same displaced below : Round

-- How the loop of `insert` ends: by the failed assertion, by `return self`, or by `break` with the
-- base and the blocks to put back. The program pushes those at the end of a vector that it then
-- reads backwards: here the vector is written in the order in which it is read.
pub data Walk (D : Type 0) : Type 0 where
  different_genesis unchanged : Walk D
  stop : Option (CheckPoint D) → List (ℕ × D) → Walk D

module _ {D : Type 0} ⦃t : ToBlockHash D⦄ where
  abbrev pub block_id_of : ℕ → D → BlockId
  block_id_of h d = record { height = h; hash = t.to_blockhash d }

  unfoldable pub new : ℕ → D → CheckPoint D
  new h d = base (block_id_of h d) d

  -- `h` is right above `c`, and `d` names another block than `c` as its parent.
  abbrev pub conflicts : CheckPoint D → ℕ → D → Bool
  conflicts c h d = elim (t.prev_blockhash d) [
    | some prev_blockhash ↦ height c + 1 == h && not (hash c == prev_blockhash)
    | none ↦ false
  ]

  unfoldable pub push : CheckPoint D → ℕ → D → Result (CheckPoint D) (CheckPoint D)
  push self h d =
      let new_index = index self + 1 in
      let skip = ancestor_by_index self (skip_index new_index) in
      if leb h (height self)
      then err self
      else if conflicts self h d
      then err self
      else ok (link (block_id_of h d) d self skip new_index)

  unfoldable pub extend : CheckPoint D → List (ℕ × D) → Result (CheckPoint D) (CheckPoint D)
  extend cp [] = ok cp
  extend cp ((h, d) ∷ rest) = elim (push cp h d) [ ok cp' ↦ extend cp' rest | err e ↦ err e ]

  unfoldable pub from_blocks : List (ℕ × D) → Result (CheckPoint D) (Option (CheckPoint D))
  unfolding new extend
  from_blocks [] = err none
  from_blocks ((h, d) ∷ rest) = map_err some (extend (new h d) rest)

  -- `implied_genesis` agrees with `cp`, or `cp` is no genesis.
  genesis_agrees : ℕ → D → CheckPoint D → Bool
  genesis_agrees h d cp =
      if height cp == 0
      then if h == 0
        then t.to_blockhash d == hash cp
        else if h == 1
        then elim (t.prev_blockhash d) [ some prev ↦ prev == hash cp | none ↦ true ]
        else true
      else true

  insert_round : ℕ → D → CheckPoint D → Round
  insert_round h d cp =
      if ltb h (height cp)
      then above
      else if height cp == h
      then (if hash cp == t.to_blockhash d then same else displaced)
      else if conflicts cp h d
      then displaced
      else below

  pub insert_walk : ℕ → D → CheckPoint D → List (ℕ × D) → Walk D
  unfolding insert_round genesis_agrees
  insert_walk h d (base b x) tail =
      if genesis_agrees h d (base b x)
      then elim (insert_round h d (base b x)) [
        | above ↦ stop none ((b.height, x) ∷ tail)
        | same ↦ unchanged
        | displaced ↦ stop none []
        | below ↦ stop (some (base b x)) tail
      ]
      else different_genesis
  insert_walk h d (link b x p s i) tail =
      let walk : Walk D = elim (insert_round h d (link b x p s i)) [
        | above ↦ insert_walk h d p ((b.height, x) ∷ tail)
        | same ↦ unchanged
        | displaced ↦ insert_walk h d p []
        | below ↦ stop (some (link b x p s i)) tail
      ] in
      if genesis_agrees h d (link b x p s i) then walk else different_genesis

  -- `let (Ok(cp) | Err(cp)) = …`.
  either : Result (CheckPoint D) (CheckPoint D) → CheckPoint D
  either (ok cp) = cp
  either (err cp) = cp

  rebuild : CheckPoint D → ℕ → D → Walk D → Option (CheckPoint D)
  unfolding extend from_blocks either
  rebuild self h d different_genesis = none
  rebuild self h d unchanged = some self
  rebuild self h d (stop (some base_cp) tail) = some (either (extend base_cp ((h, d) ∷ tail)))
  rebuild self h d (stop none tail) = elim (from_blocks ((h, d) ∷ tail)) [
    | ok cp ↦ some cp
    | err e ↦ e
  ]

  -- `none` is the panic of the assertion on the genesis block.
  pub insert : CheckPoint D → ℕ → D → Option (CheckPoint D)
  unfolding insert_walk rebuild
  insert self h d = rebuild self h d (insert_walk h d self [])
