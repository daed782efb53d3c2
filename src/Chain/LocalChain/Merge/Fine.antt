-- ===== src/Chain/LocalChain/Merge/Fine.antt =====
-- What the changeset of `merge_chains` of `crates/chain/src/local_chain.rs` has to say of a block of
-- the update, and the writes that make it so.
use bdk.Prelude.{
  ℕ, ◌≤◌, ◌<◌, ◌≡◌, ◌≢◌, ◌⊎◌, sym, ap, ◌∙◌, Option, none, some, List, [], ◌∷◌, All, arith, ◌==◌,
  inl, inr, if◌then◌else◌, map_option, some-injective,
}
use bdk.Prelude.BtreeMap
use bdk.Prelude.BtreeMap.{BtreeMap, IsSorted}
use bdk.Core.Checkpoint.{CheckPoint, ToBlockHash}
use bdk.Core.Checkpoint.Build.Insert.{hash_at}
use bdk.Core.Entry
use bdk.Core.Entry.{
  CheckPointEntry, placeholder, occupied, entry_data, source_checkpoint, is_placeholder, entry_iter,
}
use bdk.Chain.ChangeSet.{ChangeSet}
use bdk.Chain.LocalChain.Merge.{Progress, set_data, agree, disagree}
use bdk.Chain.LocalChain.Merge.Loop.{IsKept, Heights, Holds, invalidate-holds}
use bdk.Chain.LocalChain.Merge.Entries.{EntryOf, HasData}

module _ {D : Type 0} ⦃t : ToBlockHash D⦄ (orig upd : CheckPoint D) where
  -- The changeset makes `k` the block of `d`, or leaves it in the original chain.
  abbrev pub Fine : ℕ → D → BtreeMap (Option D) → Type 0
  Fine k d m =
      (BtreeMap.get k m ≡ some (some d))
      ⊎ ((BtreeMap.get k m ≡ none) × (hash_at orig k ≡ some (t.to_blockhash d)))

  pub get-insert_ne :
      (k h : ℕ) (v : Option D) (m : BtreeMap (Option D))
      → h ≢ k
      → BtreeMap.get k (BtreeMap.insert h v m) ≡ BtreeMap.get k m
  get-insert_ne k h v m n = rw (BtreeMap.get-insert k h v m) (other (BtreeMap.get k m))
    where
      other : (o : Option (Option D)) → (if k == h then some v else o) ≡ o
      other o = ground (arith, n)

  pub Fine-IsKept : (k : ℕ) (d : D) → IsKept (Fine k d) (λ h. h ≢ k)
  Fine-IsKept k d m h v n (inl set) = inl (get-insert_ne k h v m n ∙ set)
  Fine-IsKept k d m h v n (inr (free, same)) = inr (get-insert_ne k h v m n ∙ free, same)

  abbrev pub IsFree : ℕ → BtreeMap (Option D) → Type 0
  IsFree k m = BtreeMap.get k m ≡ none

  pub IsFree-IsKept : (k : ℕ) → IsKept (IsFree k) (λ h. h ≢ k)
  IsFree-IsKept k m h v n e = get-insert_ne k h v m n ∙ e

  pub below_ne :
      (k : ℕ) (es : List (CheckPointEntry D))
      → All (λ e. Entry.height e < k) es
      → Heights (λ h. h ≢ k) es
  below_ne k [] a = tt
  below_ne k (e ∷ es) a = (omega arith, below_ne k es a.1)

  pub HasData-lt :
      (n k : ℕ) (d : D) (es : List (CheckPointEntry D))
      → All (λ e. Entry.height e < n) es
      → HasData es k d
      → k < n
  HasData-lt n k d [] a h = absurd h
  HasData-lt n k d (e ∷ es) a (inl (x, y)) = omega arith
  HasData-lt n k d (e ∷ es) a (inr h) = HasData-lt n k d es a.1 h

  pub All-lt :
      (n m : ℕ) (es : List (CheckPointEntry D))
      → n ≤ m
      → All (λ e. Entry.height e < n) es
      → All (λ e. Entry.height e < m) es
  All-lt n m [] l a = tt
  All-lt n m (e ∷ es) l a = (omega arith, All-lt n m es l a.1)

  -- An update block that is written is there at once.
  pub Fine-set :
      (u : CheckPointEntry D) (d : D) (cs : ChangeSet D)
      → entry_data u ≡ some d
      → Fine (Entry.height u) d (set_data u cs).blocks
  Fine-set u d cs e =
      rw (e, set_data)
        (inl
          (BtreeMap.get-insert (Entry.height u) (Entry.height u) (some d) cs.blocks ∙ ground arith))

  pub hash_of_data :
      (c : CheckPoint D) (u : CheckPointEntry D) (d : D)
      → EntryOf c u
      → entry_data u ≡ some d
      → Entry.hash u ≡ t.to_blockhash d
  hash_of_data c (placeholder b x) d f e = cc
  hash_of_data c (occupied x) d f e = f.1.1 ∙ ap t.to_blockhash (some-injective e)

  pub agree-Fine :
      (o u : CheckPointEntry D) (st : Progress D) (d : D)
      → EntryOf orig o
      → EntryOf upd u
      → Entry.height o ≡ Entry.height u
      → Entry.hash o ≡ Entry.hash u
      → entry_data u ≡ some d
      → IsFree (Entry.height u) st.changeset.blocks
      → Fine (Entry.height u) d (agree o u st).changeset.blocks
  unfolding agree
  agree-Fine (placeholder b c) u st d fo fu level same e free = Fine-set u d st.changeset e
  agree-Fine (occupied c) u st d fo fu level same e free = inr (
    free,
    ap (hash_at orig) (sym level)
        ∙ ap (map_option t.to_blockhash) fo.1.0
        ∙ ap some (sym fo.1.1 ∙ same ∙ hash_of_data upd u d fu e),
  )

  pub disagree-Fine :
      (o u : CheckPointEntry D) (st : Progress D) (d : D)
      → entry_data u ≡ some d
      → All (λ h. h ≢ Entry.height u) st.potentially_invalidated_heights
      → Fine (Entry.height u) d (disagree o u st).changeset.blocks
  unfolding disagree
  disagree-Fine o u st d e apart =
      let k = Entry.height u in
      invalidate-holds (Fine k d) (λ h. h ≢ k) (Fine-IsKept k d) st.potentially_invalidated_heights
        (record { blocks = BtreeMap.insert k (entry_data u) st.changeset.blocks }) apart
        (inl (BtreeMap.get-insert k k (entry_data u) st.changeset.blocks ∙ ground (arith, e)))

  -- The loop's progress towards the height `k`, whose block is still to come.
  abbrev pub Awaits : ℕ → Progress D → Type 0
  Awaits k st = Holds (IsFree k) (λ h. h ≢ k) st

  pub HasData-le :
      (n k : ℕ) (d : D) (us : List (CheckPointEntry D)) (u : CheckPointEntry D)
      → All (λ e. Entry.height e < n) us
      → ((entry_data u ≡ some d) × (n ≡ k)) ⊎ HasData us k d
      → k ≤ n
  HasData-le n k d us u a (inl (x, y)) = omega arith
  HasData-le n k d us u a (inr h) = omega (arith, HasData-lt n k d us a h)
