-- ===== src/Chain/LocalChain/Merge/Entries.antt =====
-- What the entries of a chain say of its blocks, for `merge_chains` of
-- `crates/chain/src/local_chain.rs`.
use bdk.Prelude.{
  ℕ, ◌≤◌, ◌<◌, ◌≡◌, ◌⊎◌, refl, ◌∙◌, some, List, [], ◌∷◌, All, arith, ◌==◌, inl, inr, Bool-cases,
  ==_iff,
}
use bdk.Core.BlockId.{BlockId}
use bdk.Core.Checkpoint.{CheckPoint, base, link, ToBlockHash, data_ref}
use bdk.Core.Checkpoint
use bdk.Core.Checkpoint.Floor.{find}
use bdk.Core.Checkpoint.Build.Laws.{data_at, IsValid}
use bdk.Core.Entry.{
  CheckPointEntry, placeholder, occupied, entry_data, source_checkpoint, height, entry_iter,
}
use bdk.Core.Entry.Laws.{entry_iter-AreEntries, entry_iter_link, entry_iter_base}

module _ {D : Type 0} ⦃t : ToBlockHash D⦄ where
  abbrev pub DataOf : CheckPoint D → CheckPointEntry D → Type 0
  DataOf c (placeholder b x) = Unit
  DataOf c (occupied x) =
      (data_at c (Checkpoint.height x) ≡ some (data_ref x))
      × (Checkpoint.hash x ≡ t.to_blockhash (data_ref x))

  -- The entry's source has the chain's blocks from the entry's height down, and an entry that is a
  -- checkpoint has the chain's data and its hash.
  abbrev pub EntryOf : CheckPoint D → CheckPointEntry D → Type 0
  EntryOf c e =
      ((k : ℕ) → k ≤ height e → data_at c k ≡ data_at (source_checkpoint e) k) × DataOf c e

  -- An entry with the data `d` at the height `k`.
  abbrev pub HasData : List (CheckPointEntry D) → ℕ → D → Type 0
  HasData [] k d = ⊥
  HasData (e ∷ es) k d = ((entry_data e ≡ some d) × (height e ≡ k)) ⊎ HasData es k d

  tip_data : (c : CheckPoint D) → data_at c (Checkpoint.height c) ≡ some (data_ref c)
  unfolding find
  tip_data (base b d) = ground arith
  tip_data (link b d p s i) = ground arith

  tip_hash : (c : CheckPoint D) → IsValid c → Checkpoint.hash c ≡ t.to_blockhash (data_ref c)
  tip_hash (base b d) v = v.1
  tip_hash (link b d p s i) v = v.1.0

  tip-EntryOf : (c : CheckPoint D) → IsValid c → EntryOf c (occupied c)
  tip-EntryOf c v = (λ k l. refl, (tip_data c, tip_hash c v))

  gap-EntryOf : (c : CheckPoint D) (x : BlockId) → EntryOf c (placeholder x c)
  gap-EntryOf c x = (λ k l. refl, tt)

  data_at_under :
      (b : BlockId) (d : D) (p s : CheckPoint D) (i k : ℕ)
      → k < b.height
      → data_at (link b d p s i) k ≡ data_at p k
  unfolding find
  data_at_under b d p s i k l = ground arith

  EntryOf-link :
      (b : BlockId) (d : D) (p s : CheckPoint D) (i : ℕ)
      → Checkpoint.height p < b.height
      → (es : List (CheckPointEntry D)) → All (λ e. height e ≤ Checkpoint.height p) es
      → All (EntryOf p) es
      → All (EntryOf (link b d p s i)) es
  EntryOf-link b d p s i l [] a f = tt
  EntryOf-link b d p s i l (placeholder x c ∷ es) a f = (
    (λ k m. data_at_under b d p s i k (omega (arith, a.0)) ∙ f.0.0 k m, tt),
    EntryOf-link b d p s i l es a.1 f.1,
  )
  EntryOf-link b d p s i l (occupied c ∷ es) a f = (
    (
      λ k m. data_at_under b d p s i k (omega (arith, a.0)) ∙ f.0.0 k m,
      (data_at_under b d p s i (Checkpoint.height c) (omega (arith, a.0)) ∙ f.0.1.0, f.0.1.1),
    ),
    EntryOf-link b d p s i l es a.1 f.1,
  )

  pub entry_iter-EntryOf : (c : CheckPoint D) → IsValid c → All (EntryOf c) (entry_iter c)
  entry_iter-EntryOf (base b d) v = elim (entry_iter_base b d) [
    | inl alone ↦ rw alone (tip-EntryOf (base b d) v, tt)
    | inr (x, low, gap) ↦ rw gap (tip-EntryOf (base b d) v, (gap-EntryOf (base b d) x, tt))
  ]
  entry_iter-EntryOf (link b d p s i) v =
      let c = link b d p s i in
      let rest : All (EntryOf c) (entry_iter p) =
        EntryOf-link b d p s i v.0.1 (entry_iter p) (entry_iter-AreEntries p v.0.3).2
          (entry_iter-EntryOf p (v.0.3, v.1.2)) in
      elim (entry_iter_link b d p s i v.0.1) [
        | inl next ↦ rw next (tip-EntryOf c v, rest)
        | inr (x, low, gap) ↦ rw gap (tip-EntryOf c v, (gap-EntryOf c x, rest))
      ]

  -- Each block of a chain is among its entries.
  pub entry_iter-HasData :
      (c : CheckPoint D) (k : ℕ) (d : D)
      → IsValid c
      → data_at c k ≡ some d
      → HasData (entry_iter c) k d
  unfolding find
  entry_iter-HasData (base b x) k d v e = elim (Bool-cases (b.height == k)) [
    | inl here ↦
        let tip : (some x ≡ some d) × (b.height ≡ k) = (rw here at e, (==_iff b.height k).0 here) in
        elim (entry_iter_base b x) [
          | inl alone ↦ rw alone (inl tip)
          | inr (_, _, gap) ↦ rw gap (inl tip)
        ]
    | inr other ↦ cc (rw other at e)
  ]
  entry_iter-HasData (link b x p s i) k d v e = elim (Bool-cases (b.height == k)) [
    | inl here ↦
        let tip : (some x ≡ some d) × (b.height ≡ k) = (rw here at e, (==_iff b.height k).0 here) in
        elim (entry_iter_link b x p s i v.0.1) [
          | inl next ↦ rw next (inl tip)
          | inr (_, _, gap) ↦ rw gap (inl tip)
        ]
    | inr other ↦
        let below : HasData (entry_iter p) k d =
          entry_iter-HasData p k d (v.0.3, v.1.2) (rw other at e) in
        elim (entry_iter_link b x p s i v.0.1) [
          | inl next ↦ rw next (inr below)
          | inr (_, _, gap) ↦ rw gap (inr (inr below))
        ]
  ]
