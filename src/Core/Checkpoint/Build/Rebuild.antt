-- ===== src/Core/Checkpoint/Build/Rebuild.antt =====
-- `CheckPoint::insert` of `crates/core/src/checkpoint.rs` as a whole.
use bdk.Prelude.{
  ℕ, suc, ◌+◌, ◌<◌, ◌≤◌, ◌≡◌, refl, sym, ap, ◌∙◌, subst, Option, none, some, List, [], ◌∷◌, arith,
  false, lt→leb, ◌==◌, Result, ok, err, map_err, some-injective, map_option, if◌then◌else◌,
}
use bdk.Core.Checkpoint.{
  CheckPoint, link, ToBlockHash, height, index, skip_index, ancestor_by_index,
}
use bdk.Core.Checkpoint.Floor.{find}
use bdk.Core.Checkpoint.Build.{
  Walk, different_genesis, unchanged, stop, conflicts, block_id_of, new, push, extend, insert,
  insert_walk, rebuild, either,
}
use bdk.Core.Checkpoint.Build.Laws.{
  data_at, IsValid, new-IsValid, push-eq-ok, push-IsValid, push-data_at, height-push,
}
use bdk.Core.Checkpoint.Build.Insert.{hash_at, Ends, insert_walk-Ends}

module _ {D : Type 0} ⦃t : ToBlockHash D⦄ where
  -- Blocks that are put on top of `c`, as many as fit, keep it valid and change nothing in it.
  abbrev Grows : CheckPoint D → CheckPoint D → Type 0
  Grows c r = IsValid r × ((k : ℕ) → k ≤ height c → data_at r k ≡ data_at c k)

  Grows-push :
      (c c₁ r : CheckPoint D) (h : ℕ) (d : D)
      → push c h d ≡ ok c₁
      → height c < h
      → Grows c₁ r
      → Grows c r
  Grows-push c c₁ r h d p a (v, same) = (
    v,
    λ k l.
        same k (subst (λ n. k ≤ n) (sym (height-push c h d p)) (omega arith))
        ∙ push-data_at c h d k p
        ∙ other k h (data_at c k) d (omega arith),
  )
    where
      other : (k h : ℕ) (o : Option D) (d : D) → k < h → (if k == h then some d else o) ≡ o
      other k h o d l = ground arith

  push-eq-err : (c : CheckPoint D) (h : ℕ) (d : D) {e : CheckPoint D} → push c h d ≡ err e → e ≡ c
  unfolding push
  push-eq-err c h d p = ground arith

  pub extend_pushed :
      (c c₁ : CheckPoint D) (h : ℕ) (d : D) (rest : List (ℕ × D))
      → push c h d ≡ ok c₁
      → extend c ((h, d) ∷ rest) ≡ extend c₁ rest
  unfolding extend
  extend_pushed c c₁ h d rest p = rw (p, extend)

  either-Grows :
      (c : CheckPoint D) (blocks : List (ℕ × D)) → IsValid c → Grows c (either (extend c blocks))
  unfolding extend either
  either-Grows c [] v = (v, λ k l. refl)
  either-Grows c ((h, d) ∷ rest) v = go (λ c₁ v₁. either-Grows c₁ rest v₁) (push c h d) refl
    where
      go :
          ((c₁ : CheckPoint D) → IsValid c₁ → Grows c₁ (either (extend c₁ rest)))
          → (r : Result (CheckPoint D) (CheckPoint D)) → push c h d ≡ r
          → Grows c (either (elim r [ ok cp' ↦ extend cp' rest | err e ↦ err e ]))
      go ih (ok c₁) p =
          Grows-push c c₁ _ h d p (push-eq-ok c h d p).0 (ih c₁ (push-IsValid c h d v p))
      go ih (err e) p = subst (Grows c) (sym (push-eq-err c h d p)) (v, λ k l. refl)

  -- A push that the tests allow.
  pub push-ok :
      (c : CheckPoint D) (h : ℕ) (d : D)
      → height c < h
      → conflicts c h d ≡ false
      → (c₁ : CheckPoint D) × (push c h d ≡ ok c₁)
  unfolding push
  push-ok c h d a n = (
    link (block_id_of h d) d c (ancestor_by_index c (skip_index (index c + 1))) (index c + 1),
    rw (lt→leb h (height c) a, n) refl,
  )

  abbrev pub Inserted : ℕ → D → CheckPoint D → CheckPoint D → Type 0
  Inserted h d c r =
      IsValid r
      × (hash_at r h ≡ some (t.to_blockhash d))
      × ((k : ℕ) → suc k < h → data_at r k ≡ data_at c k)

  -- The chain over a block `d` at `h`, whatever follows.
  tip-Inserted :
      (c c₁ r : CheckPoint D) (h : ℕ) (d : D)
      → height c₁ ≡ h
      → data_at c₁ h ≡ some d
      → ((k : ℕ) → suc k < h → data_at c₁ k ≡ data_at c k)
      → Grows c₁ r
      → Inserted h d c r
  tip-Inserted c c₁ r h d e f g (v, same) = (
    v,
    ap (map_option t.to_blockhash) (same h (omega arith) ∙ f),
    λ k l. same k (omega arith) ∙ g k l,
  )

  data_at-new : (h : ℕ) (d : D) (k : ℕ) → data_at (new h d) k ≡ (if h == k then some d else none)
  unfolding new find
  data_at-new h d k = ground arith

  rebuild_from :
      (c : CheckPoint D) (h : ℕ) (d : D) (tail : List (ℕ × D))
      → rebuild c h d (stop none tail) ≡ some (either (extend (new h d) tail))
  unfolding rebuild
  rebuild_from c h d tail = go (extend (new h d) tail)
    where
      go :
          (r : Result (CheckPoint D) (CheckPoint D))
          → (elim (map_err some r) [ ok cp ↦ some cp | err e ↦ e ]) ≡ some (either r)
      go (ok c₁) = refl
      go (err c₁) = refl

  rebuild-Inserted :
      (c : CheckPoint D) (h : ℕ) (d : D) (w : Walk D) {r : CheckPoint D}
      → IsValid c
      → Ends h d c w
      → rebuild c h d w ≡ some r
      → Inserted h d c r
  unfolding rebuild
  rebuild-Inserted c h d different_genesis v n e = cc
  rebuild-Inserted c h d unchanged v n e =
      subst (Inserted h d c) (some-injective e) (v, n, λ k l. refl)
  rebuild-Inserted c h d (stop (some b) tail) v n e =
      let (c₁, p) = push-ok b h d n.1 n.2 in
      let grown : Grows c₁ (either (extend c₁ tail)) =
        either-Grows c₁ tail (push-IsValid b h d n.0 p) in
      subst (Inserted h d c) (some-injective (rw (extend_pushed b c₁ h d tail p) at e)) (
        tip-Inserted c c₁ _ h d (height-push b h d p) (push-data_at b h d h p ∙ ground arith)
          (λ k l. push-data_at b h d k p ∙ ground arith ∙ sym (n.3 k l)) grown)
  rebuild-Inserted c h d (stop none tail) v n e =
      subst (Inserted h d c) (some-injective (sym (rebuild_from c h d tail) ∙ e)) (
        tip-Inserted c (new h d) _ h d refl (data_at-new h d h ∙ ground arith)
          (λ k l. data_at-new h d k ∙ ground arith ∙ sym (n k l))
          (either-Grows (new h d) tail (new-IsValid h d)))

  -- On a valid chain, an insertion that does not panic gives a valid chain that has the inserted
  -- block's hash at its height, and the chain's data at each height below the one under it.
  pub insert-Inserted :
      (c : CheckPoint D) (h : ℕ) (d : D) {r : CheckPoint D}
      → IsValid c
      → insert c h d ≡ some r
      → Inserted h d c r
  unfolding insert
  insert-Inserted c h d v e =
      rebuild-Inserted c h d (insert_walk h d c []) v (insert_walk-Ends h d c [] v) e

  rebuild-eq-none :
      (c : CheckPoint D) (h : ℕ) (d : D) (w : Walk D)
      → Ends h d c w
      → rebuild c h d w ≡ none
      → h ≤ 1
  unfolding rebuild
  rebuild-eq-none c h d different_genesis n e = n
  rebuild-eq-none c h d unchanged n e = cc
  rebuild-eq-none c h d (stop (some b) tail) n e = cc
  rebuild-eq-none c h d (stop none tail) n e = cc (rebuild_from c h d tail)

  -- An insertion into a valid chain that panics is at height 0 or 1.
  pub insert-eq-none : (c : CheckPoint D) (h : ℕ) (d : D) → IsValid c → insert c h d ≡ none → h ≤ 1
  unfolding insert
  insert-eq-none c h d v e =
      rebuild-eq-none c h d (insert_walk h d c []) (insert_walk-Ends h d c [] v) e
