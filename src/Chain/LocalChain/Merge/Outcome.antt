-- ===== src/Chain/LocalChain/Merge/Outcome.antt =====
-- What `merge_chains` and `apply_update` of `crates/chain/src/local_chain.rs` promise.
use bdk.Prelude.{
  ℕ, ◌≡◌, refl, sym, ap, ◌∙◌, ◌⊎◌, subst, Bool, true, false, not, ◌&&◌, Option, none, some, List,
  [], ◌∷◌, Bool-cases, inl, inr, Result, ok, err, map_ok, map_err, ok-injective, map_option,
  if◌then◌else◌,
}
use bdk.Prelude.BtreeMap
use bdk.Prelude.BtreeMap.{BtreeMap, IsSorted}
use bdk.Core.Checkpoint.{CheckPoint, ToBlockHash}
use bdk.Core.Checkpoint.Build.Laws.{data_at, IsValid}
use bdk.Core.Checkpoint.Build.Insert.{hash_at}
use bdk.Core.Entry
use bdk.Core.Entry.{CheckPointEntry, entry_iter}
use bdk.Core.Entry.Laws.{entry_iter-AreEntries}
use bdk.Chain.ChangeSet.{ChangeSet}
use bdk.Chain.LocalChain.{apply_changeset_to_checkpoint}
use bdk.Chain.LocalChain.Collect.{overlay}
use bdk.Chain.LocalChain.Apply.{apply_changeset_to_checkpoint-data_at}
use bdk.Chain.LocalChain.Merge.{
  Progress, LoopEnd, cannot_connect, same_pointer, exhausted, start, merge_loop, connect_error,
  finish, after_loop, merge_chains,
}
use bdk.Chain.LocalChain.Merge.Loop.{EndHolds, Heights, merge_loop-EndHolds}
use bdk.Chain.LocalChain.Merge.Entries.{entry_iter-EntryOf, entry_iter-HasData}
use bdk.Chain.LocalChain.Merge.Fine.{Fine}
use bdk.Chain.LocalChain.Merge.Includes.{merge_loop-Fine}

module _ {D : Type 0} ⦃t : ToBlockHash D⦄ where
  all-Heights : (es : List (CheckPointEntry D)) → Heights (λ h. Unit) es
  all-Heights [] = tt
  all-Heights (e ∷ es) = (tt, all-Heights es)

  -- The changeset stays a sorted map.
  merge_loop-IsSorted :
      (eq_ptr : CheckPoint D → CheckPoint D → Bool) (os us : List (CheckPointEntry D))
      → EndHolds IsSorted (merge_loop eq_ptr os us start)
  merge_loop-IsSorted eq_ptr os us =
      merge_loop-EndHolds eq_ptr IsSorted (λ h. Unit)
        (λ m h v r s. BtreeMap.insert-IsSorted h v m s) os us start (all-Heights os)
        (all-Heights us) (tt, tt)

  finish-eq-ok :
      (c : CheckPoint D) (cs : ChangeSet D) {r : CheckPoint D × ChangeSet D}
      → finish c cs ≡ ok r
      → (apply_changeset_to_checkpoint c cs ≡ ok r.0) × (cs ≡ r.1)
  unfolding finish
  finish-eq-ok c cs {r = r} e = go (apply_changeset_to_checkpoint c cs) e
    where
      go :
          (a : Result (CheckPoint D) _)
          → map_err connect_error (map_ok (λ new_tip. (new_tip, cs)) a) ≡ ok r
          → (a ≡ ok r.0) × (cs ≡ r.1)
      go (ok x) e = (
        ap ok (ap (λ (p : CheckPoint D × ChangeSet D). p.0) (ok-injective e)),
        ap (λ (p : CheckPoint D × ChangeSet D). p.1) (ok-injective e),
      )
      go (err x) e = cc

  -- A merge that succeeds after the loop has finished by the changeset.
  exhausted-eq-ok :
      (c u : CheckPoint D) (st : Progress D) {r : CheckPoint D × ChangeSet D}
      → after_loop c u (exhausted st) ≡ ok r
      → finish c st.changeset ≡ ok r
  unfolding after_loop
  exhausted-eq-ok c u st {r = r} e =
      go (not st.prev_orig_was_invalidated && not st.point_of_agreement_found) st.prev_orig e
    where
      go :
          (b : Bool) (o : Option (CheckPointEntry D))
          → (if b
              then elim o [
                | some x ↦ err (record { try_include_height = Entry.height x })
                | none ↦ finish c st.changeset
              ]
              else finish c st.changeset)
            ≡ ok r
          → finish c st.changeset ≡ ok r
      go true (some o) e = cc
      go true none e = e
      go false o e = e

  by_finish :
      (c : CheckPoint D) (cs : ChangeSet D) {r : CheckPoint D × ChangeSet D}
      → finish c cs ≡ ok r
      → apply_changeset_to_checkpoint c r.1 ≡ ok r.0
  by_finish c cs {r = r} e =
      let (applied, same) = finish-eq-ok c cs e in
      subst (λ x. apply_changeset_to_checkpoint c x ≡ ok r.0) same applied

  -- The new tip is the update's, or what the changeset makes of the original chain.
  abbrev pub Outcome : CheckPoint D → CheckPoint D → CheckPoint D × ChangeSet D → Type 0
  Outcome orig upd r = (r.0 ≡ upd) ⊎ (apply_changeset_to_checkpoint orig r.1 ≡ ok r.0)

  after_loop-Outcome :
      (orig upd : CheckPoint D) (end : LoopEnd D) {r : CheckPoint D × ChangeSet D}
      → after_loop orig upd end ≡ ok r
      → Outcome orig upd r
  unfolding after_loop
  after_loop-Outcome orig upd (cannot_connect h) e = cc
  after_loop-Outcome orig upd (same_pointer st) e =
      elim (Bool-cases st.is_update_height_superset_of_original) [
        | inl superset ↦
            inl
              (sym (ap (λ (p : CheckPoint D × ChangeSet D). p.0) (ok-injective (rw superset at e))))
        | inr partial ↦ inr (by_finish orig st.changeset (rw partial at e))
      ]
  after_loop-Outcome orig upd (exhausted st) e =
      inr (by_finish orig st.changeset (exhausted-eq-ok orig upd st e))

  -- A merge that succeeds gives the tip of the update, or the chain that its changeset makes of
  -- the original chain.
  pub merge_chains-Outcome :
      (eq_ptr : CheckPoint D → CheckPoint D → Bool) (orig upd : CheckPoint D)
      {r : CheckPoint D × ChangeSet D}
      → merge_chains eq_ptr orig upd ≡ ok r
      → Outcome orig upd r
  unfolding merge_chains
  merge_chains-Outcome eq_ptr orig upd e =
      after_loop-Outcome orig upd (merge_loop eq_ptr (entry_iter orig) (entry_iter upd) start) e

  overlay-fine :
      (orig : CheckPoint D) (k : ℕ) (d : D) (o : Option (Option D))
      → (o ≡ some (some d)) ⊎ ((o ≡ none) × (hash_at orig k ≡ some (t.to_blockhash d)))
      → map_option t.to_blockhash (overlay o (data_at orig k)) ≡ some (t.to_blockhash d)
  overlay-fine orig k d o (inl set) =
      ap (λ x. map_option t.to_blockhash (overlay x (data_at orig k))) set
  overlay-fine orig k d o (inr (free, same)) =
      ap (λ x. map_option t.to_blockhash (overlay x (data_at orig k))) free ∙ same

  overlay-hash :
      (orig c : CheckPoint D) (k : ℕ) (d : D) (o : Option (Option D))
      → (o ≡ some (some d)) ⊎ ((o ≡ none) × (hash_at orig k ≡ some (t.to_blockhash d)))
      → data_at c k ≡ overlay o (data_at orig k)
      → hash_at c k ≡ some (t.to_blockhash d)
  overlay-hash orig c k d o f e = ap (map_option t.to_blockhash) e ∙ overlay-fine orig k d o f

  -- A merge that succeeds gives the changeset of its loop.
  after_loop-EndHolds :
      (P : BtreeMap (Option D) → Type 0) (orig upd : CheckPoint D) (end : LoopEnd D)
      {r : CheckPoint D × ChangeSet D}
      → EndHolds P end
      → after_loop orig upd end ≡ ok r
      → P r.1.blocks
  unfolding after_loop
  after_loop-EndHolds P orig upd (cannot_connect h) p e = cc
  after_loop-EndHolds P orig upd (same_pointer st) p e =
      elim (Bool-cases st.is_update_height_superset_of_original) [
        | inl superset ↦
            subst (λ (cs : ChangeSet D). P cs.blocks)
              (ap (λ (q : CheckPoint D × ChangeSet D). q.1) (ok-injective (rw superset at e))) p
        | inr partial ↦
            subst (λ (cs : ChangeSet D). P cs.blocks)
              (finish-eq-ok orig st.changeset (rw partial at e)).1 p
      ]
  after_loop-EndHolds P orig upd (exhausted st) p e =
      subst (λ (cs : ChangeSet D). P cs.blocks)
        (finish-eq-ok orig st.changeset (exhausted-eq-ok orig upd st e)).1 p

  merge_chains-Fine :
      (eq_ptr : CheckPoint D → CheckPoint D → Bool) (orig upd : CheckPoint D) (k : ℕ) (d : D)
      → ((a b : CheckPoint D) → eq_ptr a b ≡ true → a ≡ b)
      → IsValid orig
      → IsValid upd
      → data_at upd k ≡ some d
      → EndHolds (Fine orig upd k d) (merge_loop eq_ptr (entry_iter orig) (entry_iter upd) start)
  unfolding BtreeMap.get
  merge_chains-Fine eq_ptr orig upd k d sound v w at =
      merge_loop-Fine orig upd eq_ptr sound (entry_iter orig) (entry_iter upd) k d start
        (entry_iter-EntryOf orig v) (entry_iter-EntryOf upd w) (entry_iter-AreEntries orig v.0).3
        (entry_iter-AreEntries upd w.0).3 (refl, tt) (entry_iter-HasData upd k d w at) at

  abbrev Takes : CheckPoint D → ℕ → D → Type 0
  Takes c k d = IsValid c × (hash_at c k ≡ some (t.to_blockhash d))

  finish-Takes :
      (orig upd : CheckPoint D) (cs : ChangeSet D) (k : ℕ) (d : D) {r : CheckPoint D × ChangeSet D}
      → IsValid orig
      → IsSorted cs.blocks
      → Fine orig upd k d cs.blocks
      → finish orig cs ≡ ok r
      → Takes r.0 k d
  finish-Takes orig upd cs k d {r = r} v s f e =
      let (applied, same) = finish-eq-ok orig cs e in
      let (valid, reads) = apply_changeset_to_checkpoint-data_at orig cs k v s applied in
      (valid, overlay-hash orig r.0 k d (BtreeMap.get k cs.blocks) f reads)

  after_loop-Takes :
      (orig upd : CheckPoint D) (end : LoopEnd D) (k : ℕ) (d : D) {r : CheckPoint D × ChangeSet D}
      → IsValid orig
      → IsValid upd
      → EndHolds IsSorted end
      → EndHolds (Fine orig upd k d) end
      → data_at upd k ≡ some d
      → after_loop orig upd end ≡ ok r
      → Takes r.0 k d
  unfolding after_loop
  after_loop-Takes orig upd (cannot_connect h) k d v w s f h' e = cc
  after_loop-Takes orig upd (same_pointer st) k d v w s f at e =
      elim (Bool-cases st.is_update_height_superset_of_original) [
        | inl superset ↦
            subst (λ c. Takes c k d)
              (ap (λ (p : CheckPoint D × ChangeSet D). p.0) (ok-injective (rw superset at e)))
              (w, ap (map_option t.to_blockhash) at)
        | inr partial ↦ finish-Takes orig upd st.changeset k d v s f (rw partial at e)
      ]
  after_loop-Takes orig upd (exhausted st) k d v w s f at e =
      finish-Takes orig upd st.changeset k d v s f (exhausted-eq-ok orig upd st e)

  -- A merge that succeeds on valid chains, where equal pointers are equal nodes, gives a valid
  -- chain that has, at the height of each block of the update, that block's hash.
  pub merge_chains-hash_at :
      (eq_ptr : CheckPoint D → CheckPoint D → Bool) (orig upd : CheckPoint D) (k : ℕ) (d : D)
      {r : CheckPoint D × ChangeSet D}
      → ((a b : CheckPoint D) → eq_ptr a b ≡ true → a ≡ b)
      → IsValid orig
      → IsValid upd
      → merge_chains eq_ptr orig upd ≡ ok r
      → data_at upd k ≡ some d
      → IsValid r.0 × (hash_at r.0 k ≡ some (t.to_blockhash d))
  unfolding merge_chains
  merge_chains-hash_at eq_ptr orig upd k d sound v w e at =
      after_loop-Takes orig upd (merge_loop eq_ptr (entry_iter orig) (entry_iter upd) start) k d v w
        (merge_loop-IsSorted eq_ptr (entry_iter orig) (entry_iter upd))
        (merge_chains-Fine eq_ptr orig upd k d sound v w at) at e

  -- A merge that succeeds on valid chains, where equal pointers are equal nodes, gives the tip of the
  -- update or the chain that its changeset makes of the original one. In both cases the changeset,
  -- laid over the original chain, has at the height of each block of the update that block's hash.
  pub merge_chains-overlay :
      (eq_ptr : CheckPoint D → CheckPoint D → Bool) (orig upd : CheckPoint D) (k : ℕ) (d : D)
      {r : CheckPoint D × ChangeSet D}
      → ((a b : CheckPoint D) → eq_ptr a b ≡ true → a ≡ b)
      → IsValid orig
      → IsValid upd
      → merge_chains eq_ptr orig upd ≡ ok r
      → data_at upd k ≡ some d
      → Outcome orig upd r
        × (map_option t.to_blockhash (overlay (BtreeMap.get k r.1.blocks) (data_at orig k))
            ≡ some (t.to_blockhash d))
  unfolding merge_chains
  merge_chains-overlay eq_ptr orig upd k d {r = r} sound v w e at =
      let end = merge_loop eq_ptr (entry_iter orig) (entry_iter upd) start in
      let fine =
        after_loop-EndHolds (Fine orig upd k d) orig upd end
          (merge_chains-Fine eq_ptr orig upd k d sound v w at) e in
      (
        merge_chains-Outcome eq_ptr orig upd e,
        overlay-fine orig k d (BtreeMap.get k r.1.blocks) fine,
      )
