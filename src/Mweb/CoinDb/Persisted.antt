-- ===== src/Mweb/CoinDb/Persisted.antt =====
-- The database of `crates/mweb/src/coin_db.rs`, saved in a store of
-- `crates/file_store/src/store.rs`: each session appends what it staged, and the database is loaded
-- from the aggregate of the file.
use bdk.Prelude.{
  ℕ, ◌≡◌, refl, sym, subst, ◌∙◌, true, Option, none, some, List, [], ◌∷◌, ok, Bool-cases, inl, inr,
  ◌&&◌,
}
use bdk.Prelude.BtreeMap.{BtreeMap}
use bdk.Core.Merge.{list_is_empty}
use bdk.Mweb.CoinDb.{
  MwebCoin, ChangeSet, MwebCoinDatabase, no_changes, new, get, get_spent, merge, put_coins,
  put_spent, apply_changeset, from_changeset, take_staged, changeset_merge,
}
use bdk.Mweb.CoinDb.Merged.{AreSorted, apply_changeset-apply_changeset}
use bdk.Mweb.CoinDb.Session.{Step, take_steps, take_steps-IsRebuilt}
use bdk.Mweb.CoinDb.Reload.{IsSaved-IsRebuilt}
use bdk.Mweb.CoinDb.Stored.{AreFresh, IsStored, session-IsStored, new-IsStored}
use bdk.FileStore.{Store, Bincode, create, load, append, add_changeset}
use bdk.FileStore.Entries.{BincodeLaws, aggregate, aggregate-add_changeset}
use bdk.FileStore.Reload.{append_all, kept, load-append_all}

-- What each session staged.
unfoldable staged_in : MwebCoinDatabase → List (List Step) → List ChangeSet
staged_in db [] = []
staged_in db (steps ∷ sessions) =
    let taken = take_staged (take_steps db steps) in taken.1 ∷ staged_in taken.0 sessions

abbrev pub or_empty : Option ChangeSet → ChangeSet
or_empty none = no_changes
or_empty (some changeset) = changeset

empty_maps-no_changes :
    (coins spent : BtreeMap MwebCoin)
    → (list_is_empty coins && list_is_empty spent) ≡ true
    → ◌≡◌ {A = ChangeSet} (record { coins = coins; spent = spent }) no_changes
empty_maps-no_changes [] [] e = refl
empty_maps-no_changes [] (c ∷ spent) e = absurd cc
empty_maps-no_changes (c ∷ coins) spent e = absurd cc

empty-no_changes : (cs : ChangeSet) → changeset_merge.is_empty cs ≡ true → cs ≡ no_changes
empty-no_changes cs e = empty_maps-no_changes cs.coins cs.spent e

-- A change set that is the first one reads as merged into the empty one.
IsStored-first :
    (db : MwebCoinDatabase) (cs : ChangeSet)
    → AreSorted cs
    → IsStored db (merge no_changes cs)
    → IsStored db cs
unfolding from_changeset apply_changeset merge put_coins put_spent
IsStored-first db cs t s = record {
  well_formed = s.well_formed;
  saved = s.saved;
  sorted = t;
  reads = λ id.
      s.reads id ∙ sym (apply_changeset-apply_changeset id new no_changes cs (tt, tt) (tt, tt) t).0;
  reads_spent = λ id.
      s.reads_spent id
      ∙ sym (apply_changeset-apply_changeset id new no_changes cs (tt, tt) (tt, tt) t).1;
}

module _ (options : Bincode ChangeSet) where
  unfoldable pub run_saved : MwebCoinDatabase → Store → List (List Step) → MwebCoinDatabase × Store
  run_saved db self [] = (db, self)
  run_saved db self (steps ∷ sessions) =
      let taken = take_staged (take_steps db steps) in
      run_saved taken.0 (append options changeset_merge self taken.1) sessions

  run_saved-append_all :
      (db : MwebCoinDatabase) (self : Store) (sessions : List (List Step))
      → (run_saved db self sessions).1
        ≡ append_all options changeset_merge self (staged_in db sessions)
  unfolding run_saved staged_in append_all
  run_saved-append_all db self [] = refl
  run_saved-append_all db self (steps ∷ sessions) =
      let taken = take_staged (take_steps db steps) in
      run_saved-append_all taken.0 (append options changeset_merge self taken.1) sessions

  IsStored-add_changeset :
      (db : MwebCoinDatabase) (aggregated : Option ChangeSet) (cs : ChangeSet)
      → AreSorted cs
      → IsStored db (merge (or_empty aggregated) cs)
      → IsStored db (or_empty (add_changeset options changeset_merge aggregated cs))
  IsStored-add_changeset db none cs t s = IsStored-first db cs t s
  IsStored-add_changeset db (some changeset) cs t s = s

  run_saved-IsStored :
      (db : MwebCoinDatabase) (aggregated : Option ChangeSet) (self : Store)
      (sessions : List (List Step))
      → AreFresh db sessions
      → IsStored db (or_empty aggregated)
      → IsStored (run_saved db self sessions).0 (
          or_empty (
            aggregate options changeset_merge aggregated
              (kept options changeset_merge (staged_in db sessions))))
  unfolding run_saved staged_in AreFresh take_staged merge put_coins put_spent
  run_saved-IsStored db aggregated self [] f s = s
  run_saved-IsStored db aggregated self (steps ∷ sessions) f s =
      let taken = take_staged (take_steps db steps) in
      let after = append options changeset_merge self taken.1 in
      let merged = session-IsStored db (or_empty aggregated) steps f.0 s in
      let r =
        take_steps-IsRebuilt db db steps f.0 s.well_formed
          (IsSaved-IsRebuilt db s.well_formed s.saved) in
      elim (Bool-cases (changeset_merge.is_empty taken.1)) [
        | inl e ↦ rw e (
            run_saved-IsStored taken.0 aggregated after sessions f.1 (
              subst (λ cs. IsStored taken.0 (merge (or_empty aggregated) cs))
                (empty-no_changes taken.1 e) merged))
        | inr e ↦ rw e (
            subst (λ a. IsStored (run_saved taken.0 after sessions).0 (or_empty a))
              (aggregate-add_changeset options changeset_merge aggregated taken.1
                (kept options changeset_merge (staged_in taken.0 sessions)))
              (run_saved-IsStored taken.0 (add_changeset options changeset_merge aggregated taken.1)
                after sessions f.1
                (IsStored-add_changeset taken.0 aggregated taken.1 r.staged merged)))
      ]

  -- A database is created empty with a new store, and after each of any number of sessions what it
  -- staged is appended to the store. Then the file is loaded whole, and the database that is built
  -- from its aggregate reads as the one in memory: every output has the same unspent coin and the
  -- same spent coin. The encoding reads back what it writes, and the coins that a session inserts
  -- were not spent when it started.
  pub load-run_saved :
      (magic : List ℕ) (self : Store) (sessions : List (List Step)) (id : ℕ)
      → BincodeLaws options
      → create magic none ≡ ok self
      → AreFresh new sessions
      → (aggregated : Option ChangeSet) × ((load options changeset_merge magic
              (some (run_saved new self sessions).1.db_file.bytes)
            ≡ ok ((run_saved new self sessions).1, aggregated))
          × ((get (from_changeset (or_empty aggregated)) id
                ≡ get (run_saved new self sessions).0 id)
              × (get_spent (from_changeset (or_empty aggregated)) id
                  ≡ get_spent (run_saved new self sessions).0 id)))
  load-run_saved magic self sessions id laws e f =
      let staged = staged_in new sessions in
      let last = run_saved-append_all new self sessions in
      let s = run_saved-IsStored new none self sessions f new-IsStored in
      (
        aggregate options changeset_merge none (kept options changeset_merge staged),
        (
          rw last (load-append_all options changeset_merge magic self staged laws e),
          (sym (s.reads id), sym (s.reads_spent id)),
        ),
      )
