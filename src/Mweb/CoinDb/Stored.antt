-- ===== src/Mweb/CoinDb/Stored.antt =====
-- Sessions on the database of `crates/mweb/src/coin_db.rs`: what each staged is merged into the
-- stored change set, as `crates/mweb/src/changeset.rs` merges them, and the database is loaded from
-- it.
use bdk.Prelude.{ℕ, ◌≡◌, refl, sym, ◌∙◌, List, [], ◌∷◌, All}
use bdk.Prelude.BtreeMap
use bdk.Mweb.CoinDb.{
  ChangeSet, MwebCoinDatabase, no_changes, new, get, get_spent, merge, put_coins, put_spent,
  apply_changeset, from_changeset, take_staged,
}
use bdk.Mweb.CoinDb.Merged.{
  AreSorted, maps, get-merge, get_spent-merge, merge-AreSorted, apply_changeset-apply_changeset,
}
use bdk.Mweb.CoinDb.Replay.{IsWellFormed}
use bdk.Mweb.CoinDb.Session.{Step, take_steps, IsFresh, take_steps-IsRebuilt}
use bdk.Mweb.CoinDb.Reload.{IsSaved, IsSaved-IsRebuilt, take_steps-IsWellFormed}

-- Each session ends with its staged changes taken and merged into the stored ones.
unfoldable pub run_sessions :
    MwebCoinDatabase → ChangeSet → List (List Step) → MwebCoinDatabase × ChangeSet
run_sessions db stored [] = (db, stored)
run_sessions db stored (steps ∷ sessions) =
    let taken = take_staged (take_steps db steps) in
    run_sessions taken.0 (merge stored taken.1) sessions

-- The coins that a session inserts were not spent when it started.
unfoldable pub AreFresh : MwebCoinDatabase → List (List Step) → Type 0
AreFresh db [] = Unit
AreFresh db (steps ∷ sessions) =
    All (IsFresh db) steps × AreFresh (take_staged (take_steps db steps)).0 sessions

-- A database with nothing staged reads as the one that is loaded from the stored change set.
pub record IsStored (db : MwebCoinDatabase) (stored : ChangeSet) : Type 0 where
  pub well_formed : IsWellFormed db
  pub saved : IsSaved db
  pub sorted : AreSorted stored
  pub reads : (id : ℕ) → get db id ≡ get (from_changeset stored) id
  pub reads_spent : (id : ℕ) → get_spent db id ≡ get_spent (from_changeset stored) id

pub session-IsStored :
    (db : MwebCoinDatabase) (stored : ChangeSet) (steps : List Step)
    → All (IsFresh db) steps
    → IsStored db stored
    → IsStored
        (take_staged (take_steps db steps)).0
        (merge stored (take_staged (take_steps db steps)).1)
unfolding take_staged get_spent from_changeset apply_changeset
session-IsStored db stored steps f s =
    let after = take_steps db steps in
    let r =
      take_steps-IsRebuilt db db steps f s.well_formed
        (IsSaved-IsRebuilt db s.well_formed s.saved) in
    let loaded = from_changeset stored in
    let sorted : AreSorted (maps loaded) = merge-AreSorted no_changes stored (tt, tt) in
    let w = take_steps-IsWellFormed db steps s.well_formed s.saved f in
    record {
      well_formed = record { sorted = w.sorted; keyed = w.keyed; apart = w.apart };
      saved = refl;
      sorted = merge-AreSorted stored after.staged s.sorted;
      reads = λ id.
          r.reads id
          ∙ (rw (s.reads id, s.reads_spent id)
              (sym (get-merge id (maps loaded) after.staged sorted r.staged)))
          ∙ (apply_changeset-apply_changeset id new stored after.staged (tt, tt) s.sorted
              r.staged).0;
      reads_spent = λ id.
          r.reads_spent id
          ∙ (rw (s.reads_spent id) (sym (get_spent-merge id (maps loaded) after.staged r.staged)))
          ∙ (apply_changeset-apply_changeset id new stored after.staged (tt, tt) s.sorted
              r.staged).1;
    }

run_sessions-IsStored :
    (db : MwebCoinDatabase) (stored : ChangeSet) (sessions : List (List Step))
    → AreFresh db sessions
    → IsStored db stored
    → IsStored (run_sessions db stored sessions).0 (run_sessions db stored sessions).1
unfolding run_sessions AreFresh
run_sessions-IsStored db stored [] f s = s
run_sessions-IsStored db stored (steps ∷ sessions) f s =
    run_sessions-IsStored (take_staged (take_steps db steps)).0
      (merge stored (take_staged (take_steps db steps)).1) sessions f.1
      (session-IsStored db stored steps f.0 s)

pub new-IsStored : IsStored new no_changes
unfolding BtreeMap.get from_changeset apply_changeset merge put_coins put_spent get_spent
new-IsStored = record {
  well_formed = record { sorted = (tt, tt); keyed = (tt, tt); apart = λ id. tt };
  saved = refl;
  sorted = (tt, tt);
  reads = λ id. refl;
  reads_spent = λ id. refl;
}

-- After any number of sessions from the empty database, the database that is loaded from the merged
-- change sets reads as the one in memory: every output has the same unspent coin and the same spent
-- coin. The coins that a session inserts were not spent when it started.
pub from_changeset-run_sessions :
    (sessions : List (List Step)) (id : ℕ)
    → AreFresh new sessions
    → (get (from_changeset (run_sessions new no_changes sessions).1) id
        ≡ get (run_sessions new no_changes sessions).0 id)
      × (get_spent (from_changeset (run_sessions new no_changes sessions).1) id
          ≡ get_spent (run_sessions new no_changes sessions).0 id)
from_changeset-run_sessions sessions id f =
    let s = run_sessions-IsStored new no_changes sessions f new-IsStored in
    (sym (s.reads id), sym (s.reads_spent id))
