-- ===== src/Chain/LocalChain/Merge.antt =====
-- `merge_chains` and `LocalChain::apply_update` of `crates/chain/src/local_chain.rs`.
pub mod Loop
pub mod Entries
pub mod Fine
pub mod Includes
pub mod Outcome
mod Tests
use bdk.Prelude.{
  ℕ, Bool, true, false, not, ◌&&◌, ◌||◌, Option, none, some, List, [], ◌∷◌, ltb, ◌==◌, Result, ok,
  err, map_err, map_ok, if◌then◌else◌,
}
use bdk.Core.BlockId.{BlockId}
use bdk.Core.Checkpoint.{CheckPoint, ToBlockHash}
use bdk.Core.Entry
use bdk.Core.Entry.{CheckPointEntry, is_placeholder, source_checkpoint, entry_data, entry_iter}
use bdk.Chain.ChangeSet
use bdk.Chain.ChangeSet.{ChangeSet}
use bdk.Chain.LocalChain.{
  LocalChain, ApplyBlockError, missing_genesis, prev_blockhash_mismatch,
  apply_changeset_to_checkpoint,
}

pub record CannotConnectError : Type 0 where
  pub try_include_height : ℕ

-- The variables of the loop but `curr_orig` and `curr_update`, which are the heads of the entries
-- to come.
pub record Progress (D : Type 0) : Type 0 where
  pub changeset : ChangeSet D
  pub prev_orig : Option (CheckPointEntry D)
  pub prev_update : Option (CheckPointEntry D)
  pub point_of_agreement_found : Bool
  pub prev_orig_was_invalidated : Bool
  pub potentially_invalidated_heights : List ℕ
  pub is_update_height_superset_of_original : Bool

-- How the loop ends: by an error, at a pointer that both chains share, or by `break`.
pub data LoopEnd (D : Type 0) : Type 0 where
  cannot_connect : ℕ → LoopEnd D
  same_pointer exhausted : Progress D → LoopEnd D

module _ {D : Type 0} where
  abbrev pub start : Progress D
  start = record {
    changeset = ChangeSet.empty;
    prev_orig = none;
    prev_update = none;
    point_of_agreement_found = false;
    prev_orig_was_invalidated = false;
    potentially_invalidated_heights = [];
    is_update_height_superset_of_original = true;
  }

  -- `if let Some(data) = u.data() { changeset.blocks.insert(u.height(), Some(data)) }`.
  abbrev pub set_data : CheckPointEntry D → ChangeSet D → ChangeSet D
  set_data u changeset = elim (entry_data u) [
    | some d ↦ ChangeSet.insert (Entry.height u) (some d) changeset
    | none ↦ changeset
  ]

  -- The branch of an update block that the original chain does not have.
  pub update_only : CheckPointEntry D → Progress D → Progress D
  update_only u st = record st { changeset = set_data u st.changeset; prev_update = some u }

  -- The branch of an original block that the update does not have. The program pushes the height at
  -- the end of the vector, whose order is lost in the map of the changeset.
  pub orig_only : CheckPointEntry D → Progress D → Progress D
  orig_only o st = record st {
    potentially_invalidated_heights =
        if is_placeholder o
        then st.potentially_invalidated_heights
        else Entry.height o ∷ st.potentially_invalidated_heights;
    prev_orig_was_invalidated = false;
    prev_orig = some o;
    is_update_height_superset_of_original = false;
  }

  -- The height of the block above the point of agreement, where it has to be invalid and is not.
  pub ambiguous : Progress D → Option ℕ
  ambiguous st =
      if not st.prev_orig_was_invalidated && not st.point_of_agreement_found
      then elim st.prev_orig [
        | some o ↦ elim st.prev_update [ some u ↦ some (Entry.height o) | none ↦ none ]
        | none ↦ none
      ]
      else none

  pub agree : CheckPointEntry D → CheckPointEntry D → Progress D → Progress D
  agree o u st = record st {
    changeset = if is_placeholder o then set_data u st.changeset else st.changeset;
    point_of_agreement_found = true;
    prev_orig_was_invalidated = false;
    prev_orig = some o;
    prev_update = some u;
  }

  pub invalidate : List ℕ → ChangeSet D → ChangeSet D
  invalidate [] changeset = changeset
  invalidate (h ∷ hs) changeset = invalidate hs (ChangeSet.insert h none changeset)

  pub disagree : CheckPointEntry D → CheckPointEntry D → Progress D → Progress D
  unfolding invalidate
  disagree o u st = record st {
    changeset =
        invalidate st.potentially_invalidated_heights
          (ChangeSet.insert (Entry.height u) (entry_data u) st.changeset);
    potentially_invalidated_heights = [];
    prev_orig_was_invalidated = true;
    prev_orig = some o;
    prev_update = some u;
  }

-- `CheckPoint::eq_ptr` compares the addresses of two nodes.
module _ {D : Type 0} (eq_ptr : CheckPoint D → CheckPoint D → Bool) where
  -- Two entries at one height: the loop ends, or goes on.
  pub meet : CheckPointEntry D → CheckPointEntry D → Progress D → Result (Progress D) (LoopEnd D)
  meet o u st =
      if Entry.hash o == Entry.hash u
      then elim (ambiguous st) [
        | some h ↦ err (cannot_connect h)
        | none ↦
            if eq_ptr (source_checkpoint o) (source_checkpoint u)
            then err (same_pointer st)
            else ok (agree o u st)
      ]
      else if Entry.height o == 0 && not (is_placeholder o)
      then err (cannot_connect 0)
      else ok (disagree o u st)

  pub merge_loop : List (CheckPointEntry D) → List (CheckPointEntry D) → Progress D → LoopEnd D
  merge_loop [] [] st = exhausted st
  merge_loop [] (u ∷ us) st = merge_loop [] us (update_only u st)
  merge_loop (o ∷ os) [] st = exhausted (orig_only o st)
  merge_loop (o ∷ os) (u ∷ us) st =
      let update_next = merge_loop (o ∷ os) us (update_only u st) in
      let orig_next = merge_loop os (u ∷ us) (orig_only o st) in
      let both_next : LoopEnd D = elim (meet o u st) [
        | ok st' ↦ merge_loop os us st'
        | err end ↦ end
      ] in
      if ltb (Entry.height o) (Entry.height u)
      then update_next
      else if ltb (Entry.height u) (Entry.height o)
      then orig_next
      else both_next

connect_error : ApplyBlockError → CannotConnectError
connect_error missing_genesis = record { try_include_height = 0 }
connect_error (prev_blockhash_mismatch expected) = record { try_include_height = expected.height }

module _ {D : Type 0} ⦃t : ToBlockHash D⦄ where
  pub finish : CheckPoint D → ChangeSet D → Result (CheckPoint D × ChangeSet D) CannotConnectError
  unfolding connect_error
  finish original_tip changeset = map_err connect_error (
      map_ok (λ new_tip. (new_tip, changeset))
        (apply_changeset_to_checkpoint original_tip changeset))

  pub after_loop :
      CheckPoint D
      → CheckPoint D
      → LoopEnd D
      → Result (CheckPoint D × ChangeSet D) CannotConnectError
  unfolding finish
  after_loop original_tip update_tip (cannot_connect h) = err (record { try_include_height = h })
  after_loop original_tip update_tip (same_pointer st) =
      if st.is_update_height_superset_of_original
      then ok (update_tip, st.changeset)
      else finish original_tip st.changeset
  after_loop original_tip update_tip (exhausted st) =
      let done = finish original_tip st.changeset in
      if not st.prev_orig_was_invalidated && not st.point_of_agreement_found
      then elim st.prev_orig [
        | some o ↦ err (record { try_include_height = Entry.height o })
        | none ↦ done
      ]
      else done

  pub merge_chains :
      (CheckPoint D → CheckPoint D → Bool)
      → CheckPoint D
      → CheckPoint D
      → Result (CheckPoint D × ChangeSet D) CannotConnectError
  merge_chains eq_ptr original_tip update_tip =
      after_loop original_tip update_tip
        (merge_loop eq_ptr (entry_iter original_tip) (entry_iter update_tip) start)

  pub apply_update :
      (CheckPoint D → CheckPoint D → Bool)
      → LocalChain D
      → CheckPoint D
      → Result (LocalChain D × ChangeSet D) CannotConnectError
  apply_update eq_ptr self update =
      map_ok (λ r. (record { tip = r.0 }, r.1)) (merge_chains eq_ptr self.tip update)
