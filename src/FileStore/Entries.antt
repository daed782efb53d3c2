-- ===== src/FileStore/Entries.antt =====
-- The fold of `dump` in `crates/file_store/src/store.rs` over a file that holds encoded entries.
use mathlib.Core.List.{append_assoc}
use bdk.Prelude.{
  ℕ, suc, ◌+◌, ◌-◌, ◌<◌, ◌≤◌, ◌≡◌, refl, ap, ◌∙◌, true, false, ◌&&◌, Option, none, some, List, [],
  ◌∷◌, ◌++◌, length, drop, ◌==◌, ==_iff, arith, length-append, ok, err, Result,
}
use bdk.Core.Merge.{Merge}
use bdk.FileStore.{
  File, seek, unread, Bincode, decoded, failed, BincodeError, unexpected_eof, StoreErrorWithDump,
  Store, dump, EntryIter, next, add_changeset, fold_entries, is_eof, new, read_entry, turn,
  io_error, bincode,
}
use bdk.FileStore.Bytes.{drop-append, drop_add}

-- What the store relies on of bincode: an encoding is read back whole whatever follows it, no
-- encoding is read at the end of the file, and an entry that is read has a byte at least and lies
-- within the bytes.
pub record BincodeLaws {C : Type 0} (options : Bincode C) : Type 0 where
  pub round_trip :
      (c : C) (rest : List ℕ)
      → options.deserialize (options.serialize c ++ rest) ≡ decoded c (length (options.serialize c))
  pub at_end : options.deserialize [] ≡ failed (io_error unexpected_eof) 0
  pub consumes :
      (buf : List ℕ) (c : C) (n : ℕ)
      → options.deserialize buf ≡ decoded c n
      → (0 < n) × (n ≤ length buf)

-- The reader after the first read.
abbrev pub reading : File → EntryIter
reading f = record { db_file = f; finished = false; start_pos = none }

module _ {C : Type 0} (options : Bincode C) (changes : Merge C) where
  abbrev pub encoded : List C → List ℕ
  encoded [] = []
  encoded (c ∷ entries) = options.serialize c ++ encoded entries

  -- The first entry with the others merged into it, one after the other.
  abbrev pub aggregate : Option C → List C → Option C
  aggregate aggregated [] = aggregated
  aggregate none (c ∷ entries) = aggregate (some c) entries
  aggregate (some aggregated) (c ∷ entries) = aggregate (some (changes.merge aggregated c)) entries

  pub aggregate-add_changeset :
      (aggregated : Option C) (c : C) (entries : List C)
      → aggregate (add_changeset options changes aggregated c) entries
        ≡ aggregate aggregated (c ∷ entries)
  aggregate-add_changeset none c entries = refl
  aggregate-add_changeset (some aggregated) c entries = refl

  next-decoded :
      (f : File) (c : C) (n : ℕ)
      → options.deserialize (unread f) ≡ decoded c n
      → next options changes (reading f) ≡ (reading (seek (f.pos + n) f), some (ok c))
  unfolding next
  next-decoded f c n e = ap (read_entry options changes f) e

  next-eof :
      (f : File)
      → options.deserialize (unread f) ≡ failed (io_error unexpected_eof) 0
      → next options changes (reading f) ≡ (record (reading f) { finished = true }, none)
  unfolding next
  next-eof f e =
      let still : f.pos + 0 ≡ f.pos = omega arith in
      ap (read_entry options changes f) e ∙ (rw (still, (==_iff f.pos f.pos).1 refl) refl)

  -- Bytes that are no entry, and not the end of the file.
  abbrev pub IsGarbage : List ℕ → BincodeError → Type 0
  IsGarbage buf error =
      (n : ℕ) × ((options.deserialize buf ≡ failed error n) × ((is_eof error && n == 0) ≡ false))

  next-garbage :
      (f : File) (error : BincodeError)
      → IsGarbage (unread f) error
      → next options changes (reading f)
        ≡ (record (reading f) { finished = true }, some (err (bincode error)))
  unfolding next
  next-garbage f error (n, (e, g)) =
      let same : (f.pos + n == f.pos) ≡ (n == 0) = ground arith in
      ap (read_entry options changes f) e ∙ (rw (same, g) refl)

  -- The entries are folded, and the reader stands behind them.
  pub fold-encoded :
      (entries : List C) (fuel : ℕ) (aggregated : Option C) (f : File) (rest : List ℕ)
      → BincodeLaws options
      → unread f ≡ encoded entries ++ rest
      → (fold_entries options changes (length entries + fuel) aggregated (reading f)
          ≡ fold_entries options changes fuel
              (aggregate aggregated entries)
              (reading (seek (f.pos + length (encoded entries)) f)))
        × (unread (seek (f.pos + length (encoded entries)) f) ≡ rest)
  unfolding fold_entries
  fold-encoded [] fuel aggregated f rest laws e =
      let still : f.pos + 0 ≡ f.pos = omega arith in
      let same : 0 + fuel ≡ fuel = omega arith in rw (still, same) (refl, e)
  fold-encoded (c ∷ entries) fuel aggregated f rest laws e =
      let s = options.serialize c in
      let coded = encoded entries in
      let moved = seek (f.pos + length s) f in
      let here : unread f ≡ s ++ (coded ++ rest) = e ∙ append_assoc s coded rest in
      let left : unread moved ≡ coded ++ rest =
        drop_add f.pos (length s) f.bytes
        ∙ ap (drop (length s)) here
        ∙ drop-append s (coded ++ rest) in
      let step =
        next-decoded f c (length s)
          (ap options.deserialize here ∙ laws.round_trip c (coded ++ rest)) in
      let more =
        fold-encoded entries fuel (add_changeset options changes aggregated c) moved rest laws
          left in
      let reach : f.pos + length (s ++ coded) ≡ (f.pos + length s) + length coded =
        omega (arith, length-append s coded) in
      let grown : suc (length entries) + fuel ≡ suc (length entries + fuel) = omega arith in
      rw (reach, grown)
        (
          ap
                (turn options changes (fold_entries options changes (length entries + fuel))
                  aggregated)
                step
              ∙ more.0
              ∙ ap
                  (λ a.
                    fold_entries options changes fuel a
                      (reading (seek (f.pos + length s + length coded) f)))
                  (aggregate-add_changeset aggregated c entries),
          more.1,
        )

  length-encoded :
      (entries : List C) → BincodeLaws options → length entries ≤ length (encoded entries)
  length-encoded [] laws = omega arith
  length-encoded (c ∷ entries) laws =
      let s = options.serialize c in
      omega (
        arith,
        length-encoded entries laws,
        length-append s (encoded entries),
        (laws.consumes (s ++ []) c (length s) (laws.round_trip c [])).0,
      )

  -- A file of a store that holds the entries and then other bytes.
  abbrev pub HoldsThen : List ℕ → List C → List ℕ → Store → Type 0
  HoldsThen magic entries rest self =
      (self.magic_len ≡ length magic) × (self.db_file.bytes ≡ magic ++ (encoded entries ++ rest))

  -- The store whose file stands behind the entries.
  abbrev pub behind : List C → Store → Store
  behind entries self = record self {
    db_file = seek (self.magic_len + length (encoded entries)) self.db_file;
  }

  fold_all :
      (magic : List ℕ) (entries : List C) (rest : List ℕ) (self : Store)
      → BincodeLaws options
      → HoldsThen magic entries rest self
      → (k : ℕ) × ((fold_entries options changes
              (suc (length self.db_file.bytes))
              none
              (new self.magic_len self.db_file)
            ≡ fold_entries options changes
                (suc k)
                (aggregate none entries)
                (reading (behind entries self).db_file))
          × (unread (behind entries self).db_file ≡ rest))
  unfolding fold_entries next
  fold_all magic entries rest self laws h =
      let f = seek self.magic_len self.db_file in
      let coded = encoded entries in
      let k = length f.bytes - length entries in
      let size : length f.bytes ≡ length magic + (length coded + length rest) =
        ap length h.1
        ∙ length-append magic (coded ++ rest)
        ∙ ap (λ n. length magic + n) (length-append coded rest) in
      let enough : suc (length f.bytes) ≡ length entries + suc k =
        omega (arith, size, length-encoded entries laws) in
      let left : unread f ≡ coded ++ rest = rw (h.0, h.1) (drop-append magic (coded ++ rest)) in
      let folded = fold-encoded entries (suc k) none f rest laws left in
      (k, (ap (λ n. fold_entries options changes n none (reading f)) enough ∙ folded.0, folded.1))

  -- `dump` of a file that holds entries and nothing else gives their aggregate, and leaves the file
  -- at its end.
  pub dump-aggregate :
      (magic : List ℕ) (entries : List C) (self : Store)
      → BincodeLaws options
      → HoldsThen magic entries [] self
      → dump options changes self ≡ (behind entries self, ok (aggregate none entries))
  unfolding dump fold_entries
  dump-aggregate magic entries self laws h =
      let (k, (folded, left)) = fold_all magic entries [] self laws h in
      let stopped =
        next-eof (behind entries self).db_file (ap options.deserialize left ∙ laws.at_end) in
      ap
        (λ (r : File × Result (Option C) (StoreErrorWithDump C)).
          (record self { db_file = r.0 }, r.1))
        (folded
          ∙ ap (turn options changes (fold_entries options changes k) (aggregate none entries))
              stopped)

  -- `dump` of a file that holds entries and then bytes that are no entry gives the error of those
  -- bytes together with the aggregate of the entries before them, and leaves the file where they
  -- start.
  pub dump-error :
      (magic : List ℕ) (entries : List C) (rest : List ℕ) (self : Store) (error : BincodeError)
      → BincodeLaws options
      → HoldsThen magic entries rest self
      → IsGarbage rest error
      → dump options changes self ≡ (
        behind entries self,
        err (record { changeset = aggregate none entries; error = bincode error }),
      )
  unfolding dump fold_entries
  dump-error magic entries rest self error laws h g =
      let (k, (folded, left)) = fold_all magic entries rest self laws h in
      let stopped = next-garbage (behind entries self).db_file error (rw left g) in
      ap
        (λ (r : File × Result (Option C) (StoreErrorWithDump C)).
          (record self { db_file = r.0 }, r.1))
        (folded
          ∙ ap (turn options changes (fold_entries options changes k) (aggregate none entries))
              stopped)
