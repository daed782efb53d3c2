-- ===== src/Mweb/CoinDb/Tests.antt =====
-- The coin database of `crates/mweb/src/coin_db.rs` on concrete coins.
use bdk.Prelude.{ℕ, u64_mod, ◌-◌, ◌≡◌, refl, false, Option, none, some, List, [], ◌∷◌, All}
use bdk.Prelude.BtreeMap
use bdk.Mweb.CoinDb.{
  MwebCoin, ChangeSet, MwebCoinDatabase, no_changes, new, insert, get, get_spent, merge,
  apply_changeset, from_changeset, take_staged, balance, mark_spent, sum_from,
}
use bdk.Prelude.{ok}
use bdk.FileStore.{Store, create, load, write_all}
use bdk.Mweb.CoinDb.{changeset_merge}
use bdk.Mweb.CoinDb.Codec.{changesets, changesets-BincodeLaws}
use bdk.Mweb.CoinDb.Persisted.{or_empty, run_saved, load-run_saved}
use bdk.Mweb.CoinDb.Merged.{maps, apply_changeset-apply_changeset}
use bdk.Mweb.CoinDb.Replay.{IsWellFormed}
use bdk.Mweb.CoinDb.Session.{
  Step, insert_coin, spend, spend_leaf, place_at, place_leaf, disconnect_at, take_step, take_steps,
  IsFresh,
}
use bdk.Mweb.CoinDb.Reload.{take_steps-IsWellFormed, apply_changeset-insert_spent}
use bdk.Mweb.CoinDb.Stored.{run_sessions, AreFresh, from_changeset-run_sessions}

abbrev coin : ℕ → ℕ → Option ℕ → MwebCoin
coin id amount height = record {
  output_id = id;
  commitment = id;
  amount = amount;
  address_index = 0;
  blind = 7;
  shared_secret = 9;
  spend_key = none;
  block_height = height;
  is_pegin = false;
  leaf_index = some id;
}

-- Two coins are received and one is spent.
abbrev received : List Step
received =
    insert_coin (coin 1 100 (some 10))
    ∷ insert_coin (coin 2 50 none)
    ∷ spend 1
    ∷ insert_coin (coin 3 7 (some 20))
    ∷ []

-- The other is mined, and the last block is disconnected.
abbrev reorganized : List Step
reorganized =
    place_at 2 20
    ∷ place_leaf 2 5
    ∷ disconnect_at 20
    ∷ spend_leaf 3
    ∷ insert_coin (coin 4 1 none)
    ∷ []

abbrev saved : MwebCoinDatabase
saved = record {
  coins = (2, coin 2 50 none) ∷ (3, coin 3 7 (some 20)) ∷ [];
  spent = (1, coin 1 100 (some 10)) ∷ [];
  staged = no_changes;
}

received-IsFresh : All (IsFresh new) received
unfolding BtreeMap.get
received-IsFresh = (refl, (refl, (tt, (refl, tt))))

new-IsWellFormed : IsWellFormed new
unfolding BtreeMap.get
new-IsWellFormed = record { sorted = (tt, tt); keyed = (tt, tt); apart = λ id. tt }

take_steps-IsWellFormed_example : IsWellFormed (take_steps new received)
take_steps-IsWellFormed_example =
    take_steps-IsWellFormed new received new-IsWellFormed refl received-IsFresh

saved-IsWellFormed : IsWellFormed saved
unfolding take_steps take_step take_staged insert mark_spent BtreeMap.insert BtreeMap.remove
    BtreeMap.get
saved-IsWellFormed =
    let w = take_steps-IsWellFormed new received new-IsWellFormed refl received-IsFresh in
    record { sorted = w.sorted; keyed = w.keyed; apart = w.apart }

reorganized-IsFresh : All (IsFresh saved) reorganized
unfolding BtreeMap.get
reorganized-IsFresh = (tt, (tt, (tt, (tt, (refl, tt)))))

received-new : (take_staged (take_steps new received)).0 ≡ saved
unfolding take_steps take_step take_staged insert mark_spent BtreeMap.insert BtreeMap.remove
    BtreeMap.get
received-new = refl

-- The spend of the first coin is staged, and the height of the second is cleared again.
staged-received : (take_staged (take_steps new received)).1 ≡ maps saved
unfolding take_steps take_step take_staged insert mark_spent BtreeMap.insert BtreeMap.remove
    BtreeMap.get
staged-received = refl

sessions-AreFresh : AreFresh new (received ∷ reorganized ∷ [])
unfolding AreFresh take_steps take_step take_staged insert mark_spent BtreeMap.insert
    BtreeMap.remove BtreeMap.get
sessions-AreFresh = (received-IsFresh, (reorganized-IsFresh, tt))

from_changeset-run_sessions_example :
    let last = run_sessions new no_changes (received ∷ reorganized ∷ []) in
    (get (from_changeset last.1) 2 ≡ get last.0 2)
    × (get_spent (from_changeset last.1) 2 ≡ get_spent last.0 2)
from_changeset-run_sessions_example =
    from_changeset-run_sessions (received ∷ reorganized ∷ []) 2 sessions-AreFresh

apply_changeset-insert_spent_example :
    ((get (insert saved (coin 1 100 none)) 1 ≡ some (coin 1 100 none))
      × (get_spent (insert saved (coin 1 100 none)) 1 ≡ none))
    × ((get (apply_changeset saved (insert saved (coin 1 100 none)).staged) 1 ≡ none)
        × (get_spent (apply_changeset saved (insert saved (coin 1 100 none)).staged) 1
            ≡ some (coin 1 100 (some 10))))
unfolding get_spent BtreeMap.get
apply_changeset-insert_spent_example =
    apply_changeset-insert_spent saved (coin 1 100 none) (coin 1 100 (some 10)) saved-IsWellFormed
      refl refl

abbrev later : ChangeSet
later = record { coins = (2, coin 2 50 (some 30)) ∷ []; spent = (3, coin 3 7 none) ∷ [] }

apply_changeset-apply_changeset_example :
    (get (apply_changeset (apply_changeset saved (maps saved)) later) 2
      ≡ get (apply_changeset saved (merge (maps saved) later)) 2)
    × (get_spent (apply_changeset (apply_changeset saved (maps saved)) later) 2
        ≡ get_spent (apply_changeset saved (merge (maps saved) later)) 2)
apply_changeset-apply_changeset_example =
    apply_changeset-apply_changeset 2 saved (maps saved) later saved-IsWellFormed.sorted
      saved-IsWellFormed.sorted ((tt, tt), (tt, tt))

-- The sum of amounts that do not fit is the largest amount.
balance-saturates : balance (insert saved (coin 9 (u64_mod - 1) none)) ≡ u64_mod - 1
unfolding balance sum_from insert BtreeMap.insert
balance-saturates = refl

abbrev magic : List ℕ
magic = 109 ∷ 119 ∷ []

abbrev store : Store
store = record { magic_len = 2; db_file = record { bytes = magic; pos = 2 } }

create-store : create magic none ≡ ok store
unfolding create write_all
create-store = refl

load-run_saved_example :
    let last = run_saved changesets new store (received ∷ reorganized ∷ []) in
    (aggregated : Option ChangeSet) × ((load changesets changeset_merge magic
          (some last.1.db_file.bytes)
        ≡ ok (last.1, aggregated))
      × ((get (from_changeset (or_empty aggregated)) 2 ≡ get last.0 2)
          × (get_spent (from_changeset (or_empty aggregated)) 2 ≡ get_spent last.0 2)))
load-run_saved_example =
    load-run_saved changesets magic store (received ∷ reorganized ∷ []) 2 changesets-BincodeLaws
      create-store sessions-AreFresh
