-- ===== src/FileStore.antt =====
-- `Store` of `crates/file_store/src/store.rs` and `EntryIter` of
-- `crates/file_store/src/entry_iter.rs`. A file is its bytes and the offset of its handle; reads and
-- writes of the operating system do not fail but at the end of the file. The encoding of bincode is
-- an argument.
pub mod Bytes
pub mod Entries
pub mod Reload
pub mod Enough
mod Tests
use bdk.Prelude.{
  ℕ, zero, suc, ◌+◌, ◌-◌, Bool, true, false, not, ◌&&◌, Option, none, some, List, [], ◌∷◌, ◌++◌,
  length, take, drop, ltb, ◌==◌, if◌then◌else◌,
}
use bdk.Prelude.{Result, ok, err, map_ok, map_err}
use bdk.Core.Merge.{Merge}

-- The kinds of `io::Error` that the store meets.
pub data IoError : Type 0 where
  not_found : IoError
  already_exists : IoError
  unexpected_eof : IoError

-- `bincode::ErrorKind`: an error of the reader, or bytes that are no encoding.
pub data BincodeError : Type 0 where
  io_error : IoError → BincodeError
  malformed : BincodeError

pub data StoreError : Type 0 where
  io : IoError → StoreError
  invalid_magic_bytes : (got expected : List ℕ) → StoreError
  bincode : BincodeError → StoreError

-- What is read of a reader: the value or the error, and the number of bytes that were read.
pub data Decoded (C : Type 0) : Type 0 where
  decoded : C → ℕ → Decoded C
  failed : BincodeError → ℕ → Decoded C

-- `bincode_options()`, for the changesets `C`.
pub record Bincode (C : Type 0) : Type 0 where
  pub serialize : C → List ℕ
  pub deserialize : List ℕ → Decoded C

pub record File : Type 0 where
  pub bytes : List ℕ
  pub pos : ℕ

-- The bytes from the offset on.
abbrev pub unread : File → List ℕ
unread f = drop f.pos f.bytes

abbrev pub seek : ℕ → File → File
seek pos f = record f { pos = pos }

abbrev pub zeros : ℕ → List ℕ
zeros zero = []
zeros (suc n) = 0 ∷ zeros n

-- A write at the offset: it goes over the bytes that are there, and a gap is filled with zeros.
unfoldable pub write_all : List ℕ → File → File
write_all buf f = record {
  bytes =
      (take f.pos f.bytes ++ zeros (f.pos - length f.bytes))
      ++ (buf ++ drop (f.pos + length buf) f.bytes);
  pos = f.pos + length buf;
}

abbrev pub bytes_eq : List ℕ → List ℕ → Bool
bytes_eq [] [] = true
bytes_eq [] (b ∷ bs) = false
bytes_eq (a ∷ as') [] = false
bytes_eq (a ∷ as') (b ∷ bs) = a == b && bytes_eq as' bs

pub record EntryIter : Type 0 where
  pub db_file : File
  pub finished : Bool
  pub start_pos : Option ℕ

abbrev pub new : ℕ → File → EntryIter
new start_pos db_file = record { db_file = db_file; finished = false; start_pos = some start_pos }

pub record Store : Type 0 where
  pub magic_len : ℕ
  pub db_file : File

pub record StoreErrorWithDump (C : Type 0) : Type 0 where
  pub changeset : Option C
  pub error : StoreError

-- An error without a dump.
abbrev pub without_dump : {C : Type 0} → StoreError → StoreErrorWithDump C
without_dump error = record { changeset = none; error = error }

-- The first read is at the start.
abbrev pub started : EntryIter → File
started self = elim self.start_pos [ some start ↦ seek start self.db_file | none ↦ self.db_file ]

abbrev pub is_eof : BincodeError → Bool
is_eof (io_error not_found) = false
is_eof (io_error already_exists) = false
is_eof (io_error unexpected_eof) = true
is_eof malformed = false

-- `create_new` of a path, with the bytes of the file that is there.
unfoldable pub create : List ℕ → Option (List ℕ) → Result Store StoreError
create magic (some bytes) = err (io already_exists)
create magic none = ok (record {
  magic_len = length magic;
  db_file = write_all magic (record { bytes = []; pos = 0 });
})

module _ {C : Type 0} (options : Bincode C) (changes : Merge C) where
  -- A read at the offset of the file.
  abbrev pub read_entry : File → Decoded C → EntryIter × Option (Result C StoreError)
  read_entry f (decoded changeset n) = (
    record { db_file = seek (f.pos + n) f; finished = false; start_pos = none },
    some (ok changeset),
  )
  read_entry f (failed error n) =
      if is_eof error && (f.pos + n == f.pos)
      then (record { db_file = seek (f.pos + n) f; finished = true; start_pos = none }, none)
      else (record { db_file = f; finished = true; start_pos = none }, some (err (bincode error)))

  unfoldable pub next : EntryIter → EntryIter × Option (Result C StoreError)
  next self =
      if self.finished
      then (self, none)
      else read_entry (started self) (options.deserialize (unread (started self)))

  abbrev pub add_changeset : Option C → C → Option C
  add_changeset none next_changeset = some next_changeset
  add_changeset (some aggregated) next_changeset = some (changes.merge aggregated next_changeset)

  -- A turn of the fold of `dump`, and the file that is left where it stops.
  abbrev pub turn :
      (Option C → EntryIter → File × Result (Option C) (StoreErrorWithDump C))
      → Option C
      → EntryIter × Option (Result C StoreError)
      → File × Result (Option C) (StoreErrorWithDump C)
  turn rest aggregated (self, none) = (self.db_file, ok aggregated)
  turn rest aggregated (self, some (ok changeset)) = rest (add_changeset aggregated changeset) self
  turn rest aggregated (self, some (err error)) =
      (self.db_file, err (record { changeset = aggregated; error = error }))

  unfoldable pub fold_entries :
      ℕ → Option C → EntryIter → File × Result (Option C) (StoreErrorWithDump C)
  fold_entries zero aggregated self = (self.db_file, ok aggregated)
  fold_entries (suc fuel) aggregated self = turn (fold_entries fuel) aggregated (next self)

  -- An entry has a byte at least, so the fuel is the number of bytes and one more.
  unfoldable pub dump : Store → Store × Result (Option C) (StoreErrorWithDump C)
  dump self =
      let folded =
        fold_entries (suc (length self.db_file.bytes)) none (new self.magic_len self.db_file) in
      (record self { db_file = folded.0 }, folded.1)

  unfoldable pub load : List ℕ → Option (List ℕ) → Result (Store × Option C) (StoreErrorWithDump C)
  load magic none = err (without_dump (io not_found))
  load magic (some bytes) =
      let n = length magic in
      let dumped = dump (record { magic_len = n; db_file = record { bytes = bytes; pos = n } }) in
      if ltb (length bytes) n
      then err (without_dump (io unexpected_eof))
      else if not (bytes_eq (take n bytes) magic)
      then err (without_dump (invalid_magic_bytes (take n bytes) magic))
      else map_ok (λ aggregated. (dumped.0, aggregated)) dumped.1

  unfoldable pub load_or_create :
      List ℕ → Option (List ℕ) → Result (Store × Option C) (StoreErrorWithDump C)
  load_or_create magic (some bytes) = load magic (some bytes)
  load_or_create magic none =
      map_err without_dump (map_ok (λ store. (store, none)) (create magic none))

  unfoldable pub append : Store → C → Store
  append self changeset =
      if changes.is_empty changeset
      then self
      else record self { db_file = write_all (options.serialize changeset) self.db_file }
