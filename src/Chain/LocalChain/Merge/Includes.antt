-- ===== src/Chain/LocalChain/Merge/Includes.antt =====
-- The loop of `merge_chains` of `crates/chain/src/local_chain.rs` takes every block of the update.
use bdk.Prelude.{
  ℕ, ◌≤◌, ◌<◌, ◌≡◌, ◌≢◌, sym, ap, ◌∙◌, subst, Bool, true, some, List, [], ◌∷◌, All, arith, ltb,
  ltb→le, ltb→lt, inl, inr, Bool-cases, Result, ok, err, map_option,
}
use bdk.Core.Checkpoint.{CheckPoint, ToBlockHash}
use bdk.Core.Checkpoint.Build.Laws.{data_at}
use bdk.Core.Checkpoint.Build.Insert.{hash_at}
use bdk.Core.Entry
use bdk.Core.Entry.{
  CheckPointEntry, placeholder, occupied, entry_data, source_checkpoint, is_placeholder, entry_iter,
}
use bdk.Core.Entry.Laws.{IsDescending}
use bdk.Chain.LocalChain.Merge.{
  Progress, LoopEnd, update_only, orig_only, agree, disagree, merge_loop,
}
use bdk.Chain.LocalChain.Merge.Loop.{
  EndHolds, Met, fails, shares, agrees, disagrees, meet-Met, merge_loop-EndHolds, update_only-Holds,
  orig_only-Holds, agree-Holds, disagree-Holds,
}
use bdk.Chain.LocalChain.Merge.Entries.{EntryOf, HasData}
use bdk.Chain.LocalChain.Merge.Fine.{
  Fine, IsFree, Awaits, All-lt, Fine-IsKept, Fine-set, HasData-le, HasData-lt, IsFree-IsKept,
  agree-Fine, below_ne, disagree-Fine,
}

module _ {D : Type 0} ⦃t : ToBlockHash D⦄ (orig upd : CheckPoint D)
    (eq_ptr : CheckPoint D → CheckPoint D → Bool)
    (eq_ptr_sound : (a b : CheckPoint D) → eq_ptr a b ≡ true → a ≡ b) where
  -- Once the block is fine, the rest of the loop leaves it.
  stays :
      (k : ℕ) (d : D) (os us : List (CheckPointEntry D)) (st : Progress D)
      → All (λ e. Entry.height e < k) os
      → All (λ e. Entry.height e < k) us
      → Fine orig upd k d st.changeset.blocks
      → All (λ h. h ≢ k) st.potentially_invalidated_heights
      → EndHolds (Fine orig upd k d) (merge_loop eq_ptr os us st)
  stays k d os us st ao au f apart =
      merge_loop-EndHolds eq_ptr (Fine orig upd k d) (λ h. h ≢ k) (Fine-IsKept orig upd k d) os us
        st (below_ne orig upd k os ao) (below_ne orig upd k us au) (f, apart)

  shared_hash :
      (o u : CheckPointEntry D) (k : ℕ) (d : D)
      → EntryOf orig o
      → EntryOf upd u
      → source_checkpoint o ≡ source_checkpoint u
      → k ≤ Entry.height o
      → k ≤ Entry.height u
      → data_at upd k ≡ some d
      → hash_at orig k ≡ some (t.to_blockhash d)
  shared_hash o u k d fo fu same lo lu e =
      ap (map_option t.to_blockhash) (fo.0 k lo ∙ ap (λ c. data_at c k) same ∙ sym (fu.0 k lu) ∙ e)

  above_ne :
      (u : CheckPointEntry D) (us : List (CheckPointEntry D)) (k : ℕ) (d : D)
      → All (λ e. Entry.height e < Entry.height u) us
      → HasData us k d
      → Entry.height u ≢ k
  above_ne u us k d a h = omega (arith, HasData-lt orig upd (Entry.height u) k d us a h)

  update_head :
      (os : List (CheckPointEntry D)) (u : CheckPointEntry D) (us : List (CheckPointEntry D))
      (k : ℕ) (d : D) (st : Progress D)
      → All (λ e. Entry.height e < Entry.height u) os
      → All (λ e. Entry.height e < Entry.height u) us
      → entry_data u ≡ some d
      → Entry.height u ≡ k
      → Awaits orig upd k st
      → EndHolds (Fine orig upd k d) (merge_loop eq_ptr os us (update_only u st))
  unfolding update_only
  update_head os u us k d st ao au eu at h =
      subst
        (λ n.
          Awaits orig upd n st
          → EndHolds (Fine orig upd n d) (merge_loop eq_ptr os us (update_only u st)))
        at
        (λ h'.
          stays (Entry.height u) d os us (update_only u st) ao au
            (Fine-set orig upd u d st.changeset eu) h'.1)
        h

  update_tail :
      (u : CheckPointEntry D) (us : List (CheckPointEntry D)) (k : ℕ) (d : D) (st : Progress D)
      → All (λ e. Entry.height e < Entry.height u) us
      → HasData us k d
      → Awaits orig upd k st
      → Awaits orig upd k (update_only u st)
  update_tail u us k d st au has h =
      update_only-Holds (IsFree orig upd k) (λ n. n ≢ k) (IsFree-IsKept orig upd k) u st
        (above_ne u us k d au has) h

  high_ne : {k m n : ℕ} → m < n → k ≤ m → n ≢ k
  high_ne l m = omega arith

  level_eq : {m n : ℕ} → n ≤ m → m ≤ n → m ≡ n
  level_eq l m = omega arith

  -- What the end holds, where the two entries meet and the block stands at `u` or below it.
  met :
      (o u : CheckPointEntry D) (os us : List (CheckPointEntry D)) (k : ℕ) (d : D) (st : Progress D)
      → EntryOf orig o
      → EntryOf upd u
      → Entry.height o ≡ Entry.height u
      → IsDescending (o ∷ os)
      → IsDescending (u ∷ us)
      → Awaits orig upd k st
      → HasData (u ∷ us) k d
      → data_at upd k ≡ some d
      → ((st' : Progress D)
          → Awaits orig upd k st'
          → HasData us k d
          → EndHolds (Fine orig upd k d) (merge_loop eq_ptr os us st'))
      → {r : Result (Progress D) (LoopEnd D)} → Met eq_ptr o u st r
      → EndHolds
          (Fine orig upd k d)
          (elim r [ ok st' ↦ merge_loop eq_ptr os us st' | err end ↦ end ])
  unfolding agree disagree
  met o u os us k d st fo fu level fall_o fall_u h has e ih (fails n) = tt
  met o u os us k d st fo fu level fall_o fall_u h has e ih (shares same ptr) =
      let low : k ≤ Entry.height u = HasData-le orig upd (Entry.height u) k d us u fall_u.0 has in
      inr (
        h.0,
        shared_hash o u k d fo fu (eq_ptr_sound (source_checkpoint o) (source_checkpoint u) ptr)
            (omega arith) low e,
      )
  met o u os us k d st fo fu level fall_o fall_u h (inl (eu, at)) e ih (agrees same) =
      subst
        (λ n.
          Awaits orig upd n st
          → EndHolds (Fine orig upd n d) (merge_loop eq_ptr os us (agree o u st)))
        at
        (λ h'.
          stays (Entry.height u) d os us (agree o u st)
            (All-lt orig upd (Entry.height o) (Entry.height u) os (omega arith) fall_o.0) fall_u.0
            (agree-Fine orig upd o u st d fo fu level same eu h'.0) h'.1)
        h
  met o u os us k d st fo fu level fall_o fall_u h (inr has) e ih (agrees same) =
      let apart : Entry.height u ≢ k = above_ne u us k d fall_u.0 has in
      ih (agree o u st)
        (agree-Holds (IsFree orig upd k) (λ n. n ≢ k) (IsFree-IsKept orig upd k) o u st apart h) has
  met o u os us k d st fo fu level fall_o fall_u h (inl (eu, at)) e ih (disagrees n) =
      subst
        (λ n.
          Awaits orig upd n st
          → EndHolds (Fine orig upd n d) (merge_loop eq_ptr os us (disagree o u st)))
        at
        (λ h'.
          stays (Entry.height u) d os us (disagree o u st)
            (All-lt orig upd (Entry.height o) (Entry.height u) os (omega arith) fall_o.0) fall_u.0
            (disagree-Fine orig upd o u st d eu h'.1) tt)
        h
  met o u os us k d st fo fu level fall_o fall_u h (inr has) e ih (disagrees n) =
      let apart : Entry.height u ≢ k = above_ne u us k d fall_u.0 has in
      ih (disagree o u st)
        (disagree-Holds (IsFree orig upd k) (λ n. n ≢ k) (IsFree-IsKept orig upd k) o u st apart h)
        has

  -- Each block of the update, once the loop ends, is set by the changeset or stands in the original
  -- chain, where the changeset leaves it.
  pub merge_loop-Fine :
      (os us : List (CheckPointEntry D)) (k : ℕ) (d : D) (st : Progress D)
      → All (EntryOf orig) os
      → All (EntryOf upd) us
      → IsDescending os
      → IsDescending us
      → Awaits orig upd k st
      → HasData us k d
      → data_at upd k ≡ some d
      → EndHolds (Fine orig upd k d) (merge_loop eq_ptr os us st)
  unfolding merge_loop
  merge_loop-Fine [] [] k d st fo fu ao au h has e = absurd has
  merge_loop-Fine (o ∷ os) [] k d st fo fu ao au h has e = absurd has
  merge_loop-Fine [] (u ∷ us) k d st fo fu ao au h (inl (eu, at)) e =
      update_head [] u us k d st tt au.0 eu at h
  merge_loop-Fine [] (u ∷ us) k d st fo fu ao au h (inr has) e =
      merge_loop-Fine [] us k d (update_only u st) fo fu.1 ao au.1
        (update_tail u us k d st au.0 has h) has e
  merge_loop-Fine (o ∷ os) (u ∷ us) k d st fo fu ao au h has e =
      elim (Bool-cases (ltb (Entry.height o) (Entry.height u))) [
        | inl over ↦ rw over (
            over_case
              (λ has'.
                merge_loop-Fine (o ∷ os) us k d (update_only u st) fo fu.1 ao au.1
                  (update_tail u us k d st au.0 has' h) has' e)
              (ltb→lt _ _ over) has)
        | inr not_over ↦ elim (Bool-cases (ltb (Entry.height u) (Entry.height o))) [
          | inl under ↦
              rw (not_over, under)
                (merge_loop-Fine os (u ∷ us) k d (orig_only o st) fo.1 fu ao.1 au
                  (orig_only-Holds (IsFree orig upd k) (λ n. n ≢ k) (IsFree-IsKept orig upd k) o st
                    (high_ne (ltb→lt _ _ under)
                      (HasData-le orig upd (Entry.height u) k d us u au.0 has))
                    h)
                  has e)
          | inr level ↦
              rw (not_over, level)
                (met o u os us k d st fo.0 fu.0 (level_eq (ltb→le _ _ not_over) (ltb→le _ _ level))
                  ao au h has e
                  (λ st' h' has'. merge_loop-Fine os us k d st' fo.1 fu.1 ao.1 au.1 h' has' e)
                  (meet-Met eq_ptr o u st))
        ]
      ]
    where
      over_case :
          (HasData us k d
            → EndHolds (Fine orig upd k d) (merge_loop eq_ptr (o ∷ os) us (update_only u st)))
          → Entry.height o < Entry.height u
          → HasData (u ∷ us) k d
          → EndHolds (Fine orig upd k d) (merge_loop eq_ptr (o ∷ os) us (update_only u st))
      over_case ih l (inl (eu, at)) =
          update_head (o ∷ os) u us k d st
            (l, All-lt orig upd (Entry.height o) (Entry.height u) os (omega arith) ao.0) au.0 eu at
            h
      over_case ih l (inr has) = ih has
