-- ===== src/Chain/LocalChain/Merge/Loop.antt =====
-- What each round of the loop of `merge_chains` of `crates/chain/src/local_chain.rs` writes into
-- the changeset.
use bdk.Prelude.{
  ℕ, ◌≡◌, ◌≢◌, sym, ◌∙◌, false≢true, ==_iff, Bool, true, not, ◌&&◌, Option, none, List, [], ◌∷◌,
  All, ltb, ◌==◌, Result, ok, err, inl, inr, Bool-cases, Option-cases,
}
use bdk.Prelude.BtreeMap
use bdk.Prelude.BtreeMap.{BtreeMap, IsSorted}
use bdk.Core.Checkpoint.{CheckPoint}
use bdk.Core.Entry
use bdk.Core.Entry.{CheckPointEntry, placeholder, occupied, is_placeholder, source_checkpoint}
use bdk.Chain.ChangeSet.{ChangeSet}
use bdk.Chain.LocalChain.Merge.{
  Progress, LoopEnd, cannot_connect, same_pointer, exhausted, set_data, update_only, orig_only,
  ambiguous, agree, invalidate, disagree, meet, merge_loop,
}

module _ {D : Type 0} where
  -- `P` holds of the changeset, where the loop gives one.
  abbrev pub EndHolds : (BtreeMap (Option D) → Type 0) → LoopEnd D → Type 0
  EndHolds P (cannot_connect h) = Unit
  EndHolds P (same_pointer st) = P st.changeset.blocks
  EndHolds P (exhausted st) = P st.changeset.blocks

  -- A condition on the changeset that a write keeps at each height with `R`.
  abbrev pub IsKept : (BtreeMap (Option D) → Type 0) → (ℕ → Type 0) → Type 0
  IsKept P R =
      (m : BtreeMap (Option D)) (h : ℕ) (v : Option D) → R h → P m → P (BtreeMap.insert h v m)

  abbrev pub Heights : (ℕ → Type 0) → List (CheckPointEntry D) → Type 0
  Heights R es = All (λ e. R (Entry.height e)) es

  -- Where the loop stands: `P` of the changeset and `R` of the heights to invalidate.
  abbrev pub Holds : (BtreeMap (Option D) → Type 0) → (ℕ → Type 0) → Progress D → Type 0
  Holds P R st = P st.changeset.blocks × All R st.potentially_invalidated_heights

module _ {D : Type 0} (P : BtreeMap (Option D) → Type 0) (R : ℕ → Type 0) (keeps : IsKept P R) where
  set_data-holds :
      (u : CheckPointEntry D) (cs : ChangeSet D)
      → R (Entry.height u)
      → P cs.blocks
      → P (set_data u cs).blocks
  set_data-holds (placeholder b c) cs r p = p
  set_data-holds (occupied c) cs r p = keeps cs.blocks _ _ r p

  pub invalidate-holds :
      (hs : List ℕ) (cs : ChangeSet D) → All R hs → P cs.blocks → P (invalidate hs cs).blocks
  unfolding invalidate
  invalidate-holds [] cs a p = p
  invalidate-holds (h ∷ hs) cs a p = invalidate-holds hs _ a.1 (keeps cs.blocks h none a.0 p)

  pub update_only-Holds :
      (u : CheckPointEntry D) (st : Progress D)
      → R (Entry.height u)
      → Holds P R st
      → Holds P R (update_only u st)
  unfolding update_only
  update_only-Holds u st r h = (set_data-holds u st.changeset r h.0, h.1)

  pub orig_only-Holds :
      (o : CheckPointEntry D) (st : Progress D)
      → R (Entry.height o)
      → Holds P R st
      → Holds P R (orig_only o st)
  unfolding orig_only
  orig_only-Holds (placeholder b c) st r h = h
  orig_only-Holds (occupied c) st r h = (h.0, (r, h.1))

  pub agree-Holds :
      (o u : CheckPointEntry D) (st : Progress D)
      → R (Entry.height u)
      → Holds P R st
      → Holds P R (agree o u st)
  unfolding agree
  agree-Holds (placeholder b c) u st r h = (set_data-holds u st.changeset r h.0, h.1)
  agree-Holds (occupied c) u st r h = h

  pub disagree-Holds :
      (o u : CheckPointEntry D) (st : Progress D)
      → R (Entry.height u)
      → Holds P R st
      → Holds P R (disagree o u st)
  unfolding disagree
  disagree-Holds o u st r h = (
    invalidate-holds st.potentially_invalidated_heights _ h.1 (keeps st.changeset.blocks _ _ r h.0),
    tt,
  )

-- The four ways in which two entries at one height are treated.
module _ {D : Type 0} (eq_ptr : CheckPoint D → CheckPoint D → Bool) where
  pub data Met (o u : CheckPointEntry D) (st : Progress D)
      : Result (Progress D) (LoopEnd D) → Type 0 where
    fails : (h : ℕ) → Met o u st (err (cannot_connect h))
    shares :
        Entry.hash o ≡ Entry.hash u
        → eq_ptr (source_checkpoint o) (source_checkpoint u) ≡ true
        → Met o u st (err (same_pointer st))
    agrees : Entry.hash o ≡ Entry.hash u → Met o u st (ok (agree o u st))
    disagrees : Entry.hash o ≢ Entry.hash u → Met o u st (ok (disagree o u st))

  pub meet-Met : (o u : CheckPointEntry D) (st : Progress D) → Met o u st (meet eq_ptr o u st)
  unfolding meet
  meet-Met o u st = elim (Bool-cases (Entry.hash o == Entry.hash u)) [
    | inl same ↦ elim (Option-cases (ambiguous st)) [
      | inl clear ↦ elim (Bool-cases (eq_ptr (source_checkpoint o) (source_checkpoint u))) [
        | inl ptr ↦ rw (same, clear, ptr) (shares ((==_iff _ _).0 same) ptr)
        | inr apart ↦ rw (same, clear, apart) (agrees ((==_iff _ _).0 same))
      ]
      | inr (h, at) ↦ rw (same, at) (fails h)
    ]
    | inr differ ↦ elim (Bool-cases (Entry.height o == 0 && not (is_placeholder o))) [
      | inl genesis ↦ rw (differ, genesis) (fails 0)
      | inr other ↦
          rw (differ, other) (disagrees (λ e. absurd (false≢true (sym differ ∙ (==_iff _ _).1 e))))
    ]
  ]

  Met-EndHolds :
      (P : BtreeMap (Option D) → Type 0) (R : ℕ → Type 0)
      → IsKept P R
      → (o u : CheckPointEntry D) (st : Progress D) → R (Entry.height u)
      → Holds P R st
      → (os us : List (CheckPointEntry D))
      → ((st' : Progress D) → Holds P R st' → EndHolds P (merge_loop eq_ptr os us st'))
      → {r : Result (Progress D) (LoopEnd D)} → Met o u st r
      → EndHolds P (elim r [ ok st' ↦ merge_loop eq_ptr os us st' | err end ↦ end ])
  Met-EndHolds P R keeps o u st ru h os us ih (fails n) = tt
  Met-EndHolds P R keeps o u st ru h os us ih (shares e p) = h.0
  Met-EndHolds P R keeps o u st ru h os us ih (agrees e) = ih _ (agree-Holds P R keeps o u st ru h)
  Met-EndHolds P R keeps o u st ru h os us ih (disagrees n) =
      ih _ (disagree-Holds P R keeps o u st ru h)

  -- What the loop keeps of the changeset, to its end.
  pub merge_loop-EndHolds :
      (P : BtreeMap (Option D) → Type 0) (R : ℕ → Type 0)
      → IsKept P R
      → (os us : List (CheckPointEntry D)) (st : Progress D) → Heights R os
      → Heights R us
      → Holds P R st
      → EndHolds P (merge_loop eq_ptr os us st)
  unfolding merge_loop
  merge_loop-EndHolds P R keeps [] [] st ro ru h = h.0
  merge_loop-EndHolds P R keeps [] (u ∷ us) st ro ru h =
      merge_loop-EndHolds P R keeps [] us (update_only u st) ro ru.1
        (update_only-Holds P R keeps u st ru.0 h)
  merge_loop-EndHolds P R keeps (o ∷ os) [] st ro ru h = (orig_only-Holds P R keeps o st ro.0 h).0
  merge_loop-EndHolds P R keeps (o ∷ os) (u ∷ us) st ro ru h =
      elim (Bool-cases (ltb (Entry.height o) (Entry.height u))) [
        | inl over ↦ rw over (
            merge_loop-EndHolds P R keeps (o ∷ os) us (update_only u st) ro ru.1
              (update_only-Holds P R keeps u st ru.0 h))
        | inr not_over ↦ elim (Bool-cases (ltb (Entry.height u) (Entry.height o))) [
          | inl under ↦
              rw (not_over, under)
                (merge_loop-EndHolds P R keeps os (u ∷ us) (orig_only o st) ro.1 ru
                  (orig_only-Holds P R keeps o st ro.0 h))
          | inr level ↦
              rw (not_over, level)
                (Met-EndHolds P R keeps o u st ru.0 h os us
                  (λ st' h'. merge_loop-EndHolds P R keeps os us st' ro.1 ru.1 h')
                  (meet-Met o u st))
        ]
      ]
