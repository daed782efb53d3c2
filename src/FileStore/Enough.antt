-- ===== src/FileStore/Enough.antt =====
-- The fuel of `dump` in `crates/file_store/src/store.rs`.
use bdk.Prelude.{
  ℕ, zero, suc, ◌+◌, ◌<◌, ◌≡◌, refl, ap, ◌&&◌, Option, none, length, ◌==◌, arith, Bool-cases, inl,
  inr, Result,
}
use bdk.Core.Merge.{Merge}
use bdk.FileStore.{
  File, seek, unread, Bincode, Decoded, decoded, failed, Store, StoreErrorWithDump, EntryIter, next,
  add_changeset, turn, read_entry, fold_entries, is_eof, new,
}
use bdk.FileStore.Bytes.{drop_add, length-drop}
use bdk.FileStore.Entries.{BincodeLaws, reading}

module _ {C : Type 0} (options : Bincode C) (changes : Merge C) where
  -- Two rests of the fold that agree on the shorter files agree after a turn.
  turn_rest :
      (left right : Option C → EntryIter → File × Result (Option C) (StoreErrorWithDump C))
      (aggregated : Option C) (f : File) (d : Decoded C)
      → BincodeLaws options
      → ((a : Option C) (g : File)
          → length (unread g) < length (unread f)
          → left a (reading g) ≡ right a (reading g))
      → options.deserialize (unread f) ≡ d
      → turn options changes left aggregated (read_entry options changes f d)
        ≡ turn options changes right aggregated (read_entry options changes f d)
  turn_rest left right aggregated f (decoded c n) laws agree e =
      let read = laws.consumes (unread f) c n e in
      let moved = seek (f.pos + n) f in
      let less : length (unread moved) < length (unread f) =
        omega
          (arith, ap length (drop_add f.pos n f.bytes), length-drop n (unread f), read.0, read.1) in
      agree (add_changeset options changes aggregated c) moved less
  turn_rest left right aggregated f (failed error n) laws agree e =
      elim (Bool-cases (is_eof error && (f.pos + n == f.pos))) [
        | inl clean ↦ rw clean refl
        | inr broken ↦ rw broken refl
      ]

  fold_enough :
      (fuel more : ℕ) (aggregated : Option C) (f : File)
      → BincodeLaws options
      → length (unread f) < fuel
      → length (unread f) < more
      → fold_entries options changes fuel aggregated (reading f)
        ≡ fold_entries options changes more aggregated (reading f)
  unfolding fold_entries next
  fold_enough zero more aggregated f laws l m = absurd (omega (arith, l))
  fold_enough (suc fuel) zero aggregated f laws l m = absurd (omega (arith, m))
  fold_enough (suc fuel) (suc more) aggregated f laws l m =
      turn_rest (fold_entries options changes fuel) (fold_entries options changes more) aggregated f
        (options.deserialize (unread f)) laws
        (λ a g s. fold_enough fuel more a g laws (omega (arith, l, s)) (omega (arith, m, s))) refl

  -- The fold of `dump` ends within one turn for each byte of the file and one more, whatever bytes
  -- they are: more turns change nothing. An entry that is read has a byte at least.
  pub dump_enough :
      (self : Store) (extra : ℕ)
      → BincodeLaws options
      → fold_entries options changes
          (suc (length self.db_file.bytes) + extra)
          none
          (new self.magic_len self.db_file)
        ≡ fold_entries options changes
            (suc (length self.db_file.bytes))
            none
            (new self.magic_len self.db_file)
  unfolding fold_entries next
  dump_enough self extra laws =
      let f = seek self.magic_len self.db_file in
      let n = length f.bytes in
      let grown : suc n + extra ≡ suc (n + extra) = omega arith in
      rw grown (
        fold_enough (suc (n + extra)) (suc n) none f laws
          (omega (arith, length-drop self.magic_len f.bytes))
          (omega (arith, length-drop self.magic_len f.bytes)))
