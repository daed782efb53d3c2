-- ===== src/FileStore/Reload.antt =====
-- `create`, `append` and `load` of `crates/file_store/src/store.rs` together.
use mathlib.Core.List.{append_assoc, append-nil}
use bdk.Prelude.{
  ℕ, ◌≡◌, refl, sym, ap, ◌∙◌, true, false, not, Option, none, some, List, [], ◌∷◌, ◌++◌, length,
  take, drop, filter, arith, length-append, Bool-cases, inl, inr, ok, subst, ltb, ok-injective,
}
use bdk.Core.Merge.{Merge}
use bdk.FileStore.{
  File, Store, Bincode, BincodeError, BincodeError, create, load, append, dump, bytes_eq,
}
use bdk.FileStore.Bytes.{
  write_all_over, write_all_end, bytes_eq-eq, bytes_eq_self, take-append, take-drop,
}
use bdk.FileStore.Entries.{
  BincodeLaws, encoded, aggregate, HoldsThen, IsGarbage, behind, dump-aggregate, dump-error,
}

module _ {C : Type 0} (options : Bincode C) (changes : Merge C) where
  -- The file of the store has the entries and its offset is at the end.
  pub record Holds (magic : List ℕ) (entries : List C) (self : Store) : Type 0 where
    pub magic_len : self.magic_len ≡ length magic
    pub bytes : self.db_file.bytes ≡ magic ++ encoded options changes entries
    pub pos : self.db_file.pos ≡ length (magic ++ encoded options changes entries)

  unfoldable pub append_all : Store → List C → Store
  append_all self [] = self
  append_all self (changeset ∷ rest) = append_all (append options changes self changeset) rest

  -- The changesets that are written.
  abbrev pub kept : List C → List C
  kept = filter (λ c. not (changes.is_empty c))

  encoded-append :
      (entries : List C) (c : C)
      → encoded options changes (entries ++ (c ∷ []))
        ≡ encoded options changes entries ++ options.serialize c
  encoded-append [] c = append-nil (options.serialize c)
  encoded-append (d ∷ entries) c =
      ap (λ l. options.serialize d ++ l) (encoded-append entries c)
      ∙ sym (
          append_assoc (options.serialize d) (encoded options changes entries)
            (options.serialize c))

  create-Holds : (magic : List ℕ) (self : Store) → create magic none ≡ ok self → Holds magic [] self
  unfolding create
  create-Holds magic self e =
      let written = write_all_end magic [] (record { bytes = []; pos = 0 }) refl refl in
      subst (Holds magic []) (ok-injective e) (record {
        magic_len = refl;
        bytes = ap (λ (f : File). f.bytes) written ∙ sym (append-nil magic);
        pos = ap (λ (f : File). f.pos) written ∙ ap length (sym (append-nil magic));
      })

  append-Holds :
      (magic : List ℕ) (entries : List C) (self : Store) (c : C)
      → changes.is_empty c ≡ false
      → Holds magic entries self
      → Holds magic (entries ++ (c ∷ [])) (append options changes self c)
  unfolding append
  append-Holds magic entries self c e h =
      let s = options.serialize c in
      let front = magic ++ encoded options changes entries in
      let written = write_all_end s front self.db_file h.bytes h.pos in
      let longer : front ++ s ≡ magic ++ encoded options changes (entries ++ (c ∷ [])) =
        append_assoc magic (encoded options changes entries) s
        ∙ ap (λ l. magic ++ l) (sym (encoded-append entries c)) in
      rw e record {
        magic_len = h.magic_len;
        bytes = ap (λ (f : File). f.bytes) written ∙ longer;
        pos = ap (λ (f : File). f.pos) written ∙ ap length longer;
      }

  append_empty :
      (self : Store) (c : C) → changes.is_empty c ≡ true → append options changes self c ≡ self
  unfolding append
  append_empty self c e = rw e refl

  -- An append of an empty changeset writes nothing, and any other is written behind the entries.
  append_all-Holds :
      (magic : List ℕ) (entries cs : List C) (self : Store)
      → Holds magic entries self
      → Holds magic (entries ++ kept cs) (append_all self cs)
  unfolding append_all
  append_all-Holds magic entries [] self h =
      subst (λ l. Holds magic l self) (sym (append-nil entries)) h
  append_all-Holds magic entries (c ∷ cs) self h = elim (Bool-cases (changes.is_empty c)) [
    | inl e ↦ rw (e, append_empty self c e) (append_all-Holds magic entries cs self h)
    | inr e ↦ rw e (
        subst (λ l. Holds magic l (append_all (append options changes self c) cs))
          (append_assoc entries (c ∷ []) (kept cs))
          (append_all-Holds magic (entries ++ (c ∷ [])) cs (append options changes self c)
            (append-Holds magic entries self c e h)))
  ]

  load-Holds :
      (magic : List ℕ) (entries : List C) (self : Store)
      → BincodeLaws options
      → Holds magic entries self
      → load options changes magic (some self.db_file.bytes)
        ≡ ok (self, aggregate options changes none entries)
  unfolding load
  load-Holds magic entries self laws h =
      let coded = encoded options changes entries in
      let opened : Store = record {
        magic_len = length magic;
        db_file = record { bytes = self.db_file.bytes; pos = length magic };
      } in
      let dumped =
        dump-aggregate options changes magic entries opened laws
          (refl, h.bytes ∙ ap (λ l. magic ++ l) (sym (append-nil coded))) in
      let same : behind options changes entries opened ≡ self =
        rw (h.magic_len, h.pos, length-append magic coded) refl in
      let long : ltb (length self.db_file.bytes) (length magic) ≡ false =
        rw (h.bytes, length-append magic coded) ground arith in
      let matches : bytes_eq (take (length magic) self.db_file.bytes) magic ≡ true =
        rw (h.bytes, take-append magic coded) (bytes_eq_self magic) in
      rw (long, matches, dumped, same) refl

  -- A store that is created and appended to is loaded again with the aggregate of the changesets
  -- that are not empty, in the order in which they were appended, and its offset is where it was, at
  -- the end of the file. The encoding reads back what it writes.
  pub load-append_all :
      (magic : List ℕ) (self : Store) (cs : List C)
      → BincodeLaws options
      → create magic none ≡ ok self
      → load options changes magic (some (append_all self cs).db_file.bytes)
        ≡ ok (append_all self cs, aggregate options changes none (kept cs))
  load-append_all magic self cs laws e =
      load-Holds magic (kept cs) (append_all self cs) laws
        (append_all-Holds magic [] cs self (create-Holds magic self e))

  -- A file is only loaded when it starts with the magic bytes.
  pub load-magic :
      (magic bytes : List ℕ) (self : Store) (aggregated : Option C)
      → load options changes magic (some bytes) ≡ ok (self, aggregated)
      → (rest : List ℕ) × (bytes ≡ magic ++ rest)
  unfolding load
  load-magic magic bytes self aggregated e =
      let n = length magic in
      elim (Bool-cases (ltb (length bytes) n)) [
        | inl short ↦ absurd (ground (arith, short, e))
        | inr long ↦ elim (Bool-cases (bytes_eq (take n bytes) magic)) [
          | inl same ↦ (
            drop n bytes,
            sym (take-drop n bytes)
                ∙ ap (λ l. l ++ drop n bytes) (bytes_eq-eq (take n bytes) magic same),
          )
          | inr other ↦ absurd (ground (arith, long, other, e))
        ]
      ]

  -- After a dump that fails, a changeset that is not empty is written where the bytes that are no
  -- entry start: the file has the entries before them, the new one, and what the new one leaves of
  -- those bytes. The encoding reads back what it writes.
  pub append-dump :
      (magic : List ℕ) (entries : List C) (rest : List ℕ) (self : Store) (error : BincodeError)
      (c : C)
      → BincodeLaws options
      → HoldsThen options changes magic entries rest self
      → IsGarbage options changes rest error
      → changes.is_empty c ≡ false
      → HoldsThen options changes magic
          (entries ++ (c ∷ []))
          (drop (length (options.serialize c)) rest)
          (append options changes (dump options changes self).0 c)
  unfolding append
  append-dump magic entries rest self error c laws h g e =
      let dumped = dump-error options changes magic entries rest self error laws h g in
      let s = options.serialize c in
      let front = magic ++ encoded options changes entries in
      let there = behind options changes entries self in
      let written =
        write_all_over s front rest there.db_file
          (h.1 ∙ sym (append_assoc magic (encoded options changes entries) rest))
          (rw (h.0, length-append magic (encoded options changes entries)) refl) in
      let left = drop (length s) rest in
      let chain : front ++ (s ++ left)
          ≡ magic ++ (encoded options changes (entries ++ (c ∷ [])) ++ left) =
        append_assoc magic (encoded options changes entries) (s ++ left)
        ∙ ap (λ l. magic ++ l)
            (sym (append_assoc (encoded options changes entries) s left)
              ∙ ap (λ l. l ++ left) (sym (encoded-append entries c))) in
      rw (dumped, e) (h.0, ap (λ (f : File). f.bytes) written ∙ chain)
