-- ===== src/FileStore/Tests.antt =====
-- The store of `crates/file_store/src/store.rs` with changesets of two bytes.
use bdk.Prelude.{
  ℕ, suc, ◌+◌, ◌<◌, ◌≤◌, ◌≡◌, refl, ap, ◌&&◌, none, some, List, [], ◌∷◌, length, ◌==◌, arith, ok,
  err,
}
use bdk.Core.Merge.{Merge}
use bdk.FileStore.{
  Bincode, Decoded, decoded, failed, io_error, unexpected_eof, Store, fold_entries, new, create,
  load, append, dump, write_all, next, bincode, io, invalid_magic_bytes,
}
use bdk.FileStore.Entries.{BincodeLaws, HoldsThen, aggregate, dump-error, behind}
use bdk.FileStore.Reload.{append_all, kept, load-append_all, append-dump}
use bdk.FileStore.Enough.{dump_enough}

abbrev read_two : List ℕ → Decoded (ℕ × ℕ)
read_two [] = failed (io_error unexpected_eof) 0
read_two (a ∷ []) = failed (io_error unexpected_eof) 1
read_two (a ∷ b ∷ rest) = decoded (a, b) 2

abbrev two_bytes : Bincode (ℕ × ℕ)
two_bytes = record { serialize = λ c. c.0 ∷ c.1 ∷ []; deserialize = read_two }

abbrev sums : Merge (ℕ × ℕ)
sums = record {
  empty = (0, 0);
  merge = λ a b. (a.0 + b.0, a.1 + b.1);
  is_empty = λ c. c.0 == 0 && c.1 == 0;
}

abbrev consumed : Decoded (ℕ × ℕ) → ℕ
consumed (decoded c n) = n
consumed (failed error n) = 0

read_two-consumed :
    (buf : List ℕ) (c : ℕ × ℕ) (n : ℕ) → read_two buf ≡ decoded c n → (0 < n) × (n ≤ length buf)
read_two-consumed [] c n e = absurd cc
read_two-consumed (a ∷ []) c n e = absurd cc
read_two-consumed (a ∷ b ∷ rest) c n e =
    let two : 2 ≡ n = ap consumed e in (omega (arith, two), omega (arith, two))

two_bytes-BincodeLaws : BincodeLaws two_bytes
two_bytes-BincodeLaws = record {
  round_trip = λ c rest. refl;
  at_end = refl;
  consumes = read_two-consumed;
}

abbrev magic : List ℕ
magic = 98 ∷ 100 ∷ 107 ∷ []

abbrev created : Store
created = record { magic_len = 3; db_file = record { bytes = magic; pos = 3 } }

abbrev changesets : List (ℕ × ℕ)
changesets = (1, 2) ∷ (0, 0) ∷ (3, 4) ∷ []

create-created : create magic none ≡ ok created
unfolding create write_all
create-created = refl

load-append_all_example :
    load two_bytes sums magic (some (append_all two_bytes sums created changesets).db_file.bytes)
    ≡ ok (
      append_all two_bytes sums created changesets,
      aggregate two_bytes sums none (kept two_bytes sums changesets),
    )
load-append_all_example =
    load-append_all two_bytes sums magic created changesets two_bytes-BincodeLaws create-created

-- The last changeset is cut off.
abbrev broken : Store
broken = record {
  magic_len = 3;
  db_file = record { bytes = 98 ∷ 100 ∷ 107 ∷ 1 ∷ 2 ∷ 3 ∷ []; pos = 3 };
}

dump-error_example : dump two_bytes sums broken ≡ (
  behind two_bytes sums ((1, 2) ∷ []) broken,
  err (record { changeset = some (1, 2); error = bincode (io_error unexpected_eof) }),
)
dump-error_example =
    dump-error two_bytes sums magic ((1, 2) ∷ []) (3 ∷ []) broken (io_error unexpected_eof)
      two_bytes-BincodeLaws (refl, refl) (1, (refl, refl))

append-dump_example :
    HoldsThen two_bytes sums magic
      ((1, 2) ∷ (5, 6) ∷ [])
      []
      (append two_bytes sums (dump two_bytes sums broken).0 (5, 6))
append-dump_example =
    append-dump two_bytes sums magic ((1, 2) ∷ []) (3 ∷ []) broken (io_error unexpected_eof) (5, 6)
      two_bytes-BincodeLaws (refl, refl) (1, (refl, refl)) refl

dump_enough_example :
    fold_entries two_bytes sums (suc 6 + 10) none (new 3 broken.db_file)
    ≡ fold_entries two_bytes sums (suc 6) none (new 3 broken.db_file)
dump_enough_example = dump_enough two_bytes sums broken 10 two_bytes-BincodeLaws

loaded_created : load two_bytes sums magic (some magic) ≡ ok (created, none)
unfolding load dump fold_entries next
loaded_created = refl

-- The first bytes are others.
load_other :
    load two_bytes sums magic (some (1 ∷ 2 ∷ 3 ∷ []))
    ≡ err (record { changeset = none; error = invalid_magic_bytes (1 ∷ 2 ∷ 3 ∷ []) magic })
unfolding load
load_other = refl

-- The file is shorter than the magic bytes.
load_short :
    load two_bytes sums magic (some (98 ∷ []))
    ≡ err (record { changeset = none; error = io unexpected_eof })
unfolding load
load_short = refl
