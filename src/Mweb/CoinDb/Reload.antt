-- ===== src/Mweb/CoinDb/Reload.antt =====
-- The database of `crates/mweb/src/coin_db.rs`, loaded again from the change sets that were taken
-- from it and merged as `crates/mweb/src/changeset.rs` merges them.
use bdk.Prelude.{ℕ, ◌≡◌, refl, sym, ◌∙◌, Option, none, some, List, or_else, ==_iff, All}
use bdk.Prelude.BtreeMap
use bdk.Prelude.BtreeMap.{BtreeMap, IsSorted, IsAbove}
use bdk.Mweb.CoinDb.{
  MwebCoin, ChangeSet, MwebCoinDatabase, no_changes, insert, get, get_spent, apply_changeset,
  take_staged,
}
use bdk.Mweb.CoinDb.Merged.{AreSorted, maps, read_coin, get-merge, get_spent-merge}
use bdk.Mweb.CoinDb.Disconnect.{IsApart}
use bdk.Mweb.CoinDb.Replay.{IsWellFormed, IsRebuilt}
use bdk.Mweb.CoinDb.Session.{Step, take_steps, IsFresh, take_steps-IsRebuilt}

read_coin-IsApart :
    (bc bs sc ss : Option MwebCoin)
    → IsApart bc bs
    → IsApart (read_coin bc bs sc ss) (or_else ss bs)
unfolding read_coin
read_coin-IsApart bc bs sc (some s) a = tt
read_coin-IsApart none (some b) sc none a = tt
read_coin-IsApart (some c) (some b) sc none a = absurd a
read_coin-IsApart none none none none a = tt
read_coin-IsApart (some c) none none none a = tt
read_coin-IsApart none none (some s) none a = tt
read_coin-IsApart (some c) none (some s) none a = tt

IsRebuilt-IsWellFormed :
    (base db : MwebCoinDatabase) → IsWellFormed base → IsRebuilt base db → IsWellFormed db
IsRebuilt-IsWellFormed base db w r = record {
  sorted = r.sorted;
  keyed = r.keyed;
  apart = λ id.
      rw (r.reads id, r.reads_spent id)
        (read_coin-IsApart (BtreeMap.get id base.coins) (BtreeMap.get id base.spent)
          (BtreeMap.get id db.staged.coins) (BtreeMap.get id db.staged.spent) (w.apart id));
}

read_coin_unchanged : (bc bs : Option MwebCoin) → bc ≡ read_coin bc bs none none
unfolding read_coin
read_coin_unchanged bc none = refl
read_coin_unchanged bc (some b) = refl

-- Nothing is staged.
abbrev pub IsSaved : MwebCoinDatabase → Type 0
IsSaved db = db.staged ≡ no_changes

pub IsSaved-IsRebuilt : (db : MwebCoinDatabase) → IsWellFormed db → IsSaved db → IsRebuilt db db
unfolding BtreeMap.get
IsSaved-IsRebuilt db w n = record {
  sorted = w.sorted;
  staged = rw n (tt, tt);
  keyed = w.keyed;
  reads = λ id. rw n (read_coin_unchanged (BtreeMap.get id db.coins) (BtreeMap.get id db.spent));
  reads_spent = λ id. rw n refl;
}

-- Any sequence of operations keeps a database well-formed: its maps stay in order, every coin stays
-- at its id, and no output is both unspent and spent. The database has nothing staged at the start,
-- and the coins that the operations insert were not spent in it.
pub take_steps-IsWellFormed :
    (db : MwebCoinDatabase) (steps : List Step)
    → IsWellFormed db
    → IsSaved db
    → All (IsFresh db) steps
    → IsWellFormed (take_steps db steps)
take_steps-IsWellFormed db steps w n f =
    IsRebuilt-IsWellFormed db (take_steps db steps) w
      (take_steps-IsRebuilt db db steps f w (IsSaved-IsRebuilt db w n))

-- What a sequence of operations staged, applied to the database it started from, reads as the
-- database in memory: every output has the same unspent coin and the same spent coin. The database
-- is well-formed with nothing staged, and the coins that the operations insert were not spent in it.
pub apply_changeset-take_staged :
    (db : MwebCoinDatabase) (steps : List Step) (id : ℕ)
    → IsWellFormed db
    → IsSaved db
    → All (IsFresh db) steps
    → (get (apply_changeset db (take_staged (take_steps db steps)).1) id
        ≡ get (take_staged (take_steps db steps)).0 id)
      × (get_spent (apply_changeset db (take_staged (take_steps db steps)).1) id
          ≡ get_spent (take_staged (take_steps db steps)).0 id)
unfolding apply_changeset get_spent take_staged
apply_changeset-take_staged db steps id w n f =
    let after = take_steps db steps in
    let r = take_steps-IsRebuilt db db steps f w (IsSaved-IsRebuilt db w n) in
    (
      get-merge id (maps db) after.staged w.sorted r.staged ∙ sym (r.reads id),
      get_spent-merge id (maps db) after.staged r.staged ∙ sym (r.reads_spent id),
    )

-- Beside a saved spend, nothing staged is read.
read_coin_spent :
    (bc bs sc ss : Option MwebCoin) (spent : MwebCoin)
    → IsApart bc bs
    → bs ≡ some spent
    → ss ≡ none
    → (read_coin bc bs sc ss ≡ none) × (or_else ss bs ≡ some spent)
unfolding read_coin
read_coin_spent bc none sc ss spent a e z = absurd cc
read_coin_spent (some c) (some b) sc ss spent a e z = absurd a
read_coin_spent none (some b) sc none spent a e z = (refl, e)
read_coin_spent none (some b) sc (some s) spent a e z = absurd cc

-- A coin that is inserted again after its spend was saved is unspent in memory and spent when the
-- change set is applied to the saved database: the staged change set holds the coin, and the spend
-- it should undo is in the base alone. The database is well-formed with nothing staged.
pub apply_changeset-insert_spent :
    (db : MwebCoinDatabase) (coin spent : MwebCoin)
    → IsWellFormed db
    → IsSaved db
    → get_spent db coin.output_id ≡ some spent
    → ((get (insert db coin) coin.output_id ≡ some coin)
        × (get_spent (insert db coin) coin.output_id ≡ none))
      × ((get (apply_changeset db (insert db coin).staged) coin.output_id ≡ none)
          × (get_spent (apply_changeset db (insert db coin).staged) coin.output_id ≡ some spent))
unfolding insert get_spent apply_changeset BtreeMap.get BtreeMap.insert BtreeMap.remove
apply_changeset-insert_spent db coin spent w n h =
    let id = coin.output_id in
    let same = (==_iff id id).1 refl in
    let staged : ChangeSet = record {
      coins = BtreeMap.insert id coin db.staged.coins;
      spent = BtreeMap.remove id db.staged.spent;
    } in
    let sorted : AreSorted staged = rw n ((tt, tt), tt) in
    let reads =
      read_coin_spent (BtreeMap.get id db.coins) (BtreeMap.get id db.spent)
        (BtreeMap.get id staged.coins) (BtreeMap.get id staged.spent) spent (w.apart id) h
        (rw n refl) in
    (
      (
        BtreeMap.get-insert id id coin db.coins ∙ (rw same refl),
        BtreeMap.get-remove id id db.spent w.sorted.1 ∙ (rw same refl),
      ),
      (
        get-merge id (maps db) staged w.sorted sorted ∙ reads.0,
        get_spent-merge id (maps db) staged sorted ∙ reads.1,
      ),
    )
