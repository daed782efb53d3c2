-- ===== src/Mweb/CoinDb/Replay.antt =====
-- The staged change set of `crates/mweb/src/coin_db.rs`, applied to the database it was staged
-- from.
use bdk.Prelude.{
  ℕ, ◌≡◌, refl, sym, ap, ◌∙◌, Bool, true, false, Option, none, some, or_else, ◌==◌, ==_iff,
  if◌then◌else◌,
}
use bdk.Prelude.BtreeMap
use bdk.Prelude.BtreeMap.{BtreeMap, IsSorted, IsAbove}
use bdk.Mweb.CoinDb.{MwebCoin, MwebCoinDatabase, insert, get, move_spent, put, disconnect_from}
use bdk.Mweb.CoinDb.Merged.{AreSorted, maps, read_coin}
use bdk.Mweb.CoinDb.Disconnect.{
  IsKeyed, IsApart, get-disconnect, get_staged-disconnect, read_coin-disconnect,
  read_spent-disconnect, disconnect-IsSorted, disconnect-IsKeyed,
}

-- A database whose maps are in order, with every coin at its id, and no output both unspent and
-- spent.
pub record IsWellFormed (db : MwebCoinDatabase) : Type 0 where
  pub sorted : AreSorted (maps db)
  pub keyed : IsKeyed db.coins × IsKeyed db.spent
  pub apart : (id : ℕ) → IsApart (BtreeMap.get id db.coins) (BtreeMap.get id db.spent)

abbrev pub IsOwn : ℕ × MwebCoin → Type 0
IsOwn e = e.1.output_id ≡ e.0

-- A database reads, at every output, as the base with what is staged applied.
pub record IsRebuilt (base db : MwebCoinDatabase) : Type 0 where
  pub sorted : AreSorted (maps db)
  pub staged : AreSorted db.staged
  pub keyed : IsKeyed db.coins × IsKeyed db.spent
  pub reads :
      (id : ℕ)
      → BtreeMap.get id db.coins
        ≡ read_coin
            (BtreeMap.get id base.coins)
            (BtreeMap.get id base.spent)
            (BtreeMap.get id db.staged.coins)
            (BtreeMap.get id db.staged.spent)
  pub reads_spent :
      (id : ℕ)
      → BtreeMap.get id db.spent
        ≡ or_else (BtreeMap.get id db.staged.spent) (BtreeMap.get id base.spent)

pub disconnect_from-IsRebuilt :
    (base db : MwebCoinDatabase) (height : ℕ)
    → IsWellFormed base
    → IsRebuilt base db
    → IsRebuilt base (disconnect_from db height)
unfolding disconnect_from
disconnect_from-IsRebuilt base db height w r =
    let coins = disconnect-IsSorted height db.coins db.staged.coins r.sorted.0 r.staged.0 in
    let spent = disconnect-IsSorted height db.spent db.staged.spent r.sorted.1 r.staged.1 in
    record {
      sorted = (coins.0, spent.0);
      staged = (coins.1, spent.1);
      keyed = (
        disconnect-IsKeyed height db.coins db.staged.coins r.keyed.0,
        disconnect-IsKeyed height db.spent db.staged.spent r.keyed.1,
      );
      reads = λ id.
          rw
            (
              get-disconnect id height db.coins db.staged.coins,
              get_staged-disconnect id height db.coins db.staged.coins r.sorted.0 r.keyed.0,
              get_staged-disconnect id height db.spent db.staged.spent r.sorted.1 r.keyed.1,
              r.reads id,
              r.reads_spent id,
            )
            (read_coin-disconnect height (BtreeMap.get id base.coins) (BtreeMap.get id base.spent)
              (BtreeMap.get id db.staged.coins) (BtreeMap.get id db.staged.spent) (w.apart id));
      reads_spent = λ id.
          rw
            (
              get-disconnect id height db.spent db.staged.spent,
              get_staged-disconnect id height db.spent db.staged.spent r.sorted.1 r.keyed.1,
              r.reads_spent id,
            )
            (read_spent-disconnect height (BtreeMap.get id base.spent)
              (BtreeMap.get id db.staged.spent));
    }

-- A coin that is read is not spent.
read_coin_unspent :
    (bc bs sc ss : Option MwebCoin) (coin : MwebCoin)
    → IsApart bc bs
    → read_coin bc bs sc ss ≡ some coin
    → (bs ≡ none) × (ss ≡ none)
unfolding read_coin
read_coin_unspent bc bs sc (some s) coin a e = absurd cc
read_coin_unspent none (some b) sc none coin a e = absurd cc
read_coin_unspent (some c) (some b) sc none coin a e = absurd a
read_coin_unspent bc none sc none coin a e = (refl, refl)

read_coin_moved :
    (same : Bool) (bc bs sc ss : Option MwebCoin) (coin : MwebCoin)
    → (if same then none else read_coin bc bs sc ss)
      ≡ read_coin bc bs (if same then none else sc) (if same then some coin else ss)
unfolding read_coin
read_coin_moved true bc bs sc ss coin = refl
read_coin_moved false bc bs sc ss coin = refl

or_else_if :
    (same : Bool) (coin : MwebCoin) (bs ss : Option MwebCoin)
    → (if same then some coin else or_else ss bs) ≡ or_else (if same then some coin else ss) bs
or_else_if true coin bs ss = refl
or_else_if false coin bs ss = refl

-- A coin that is put where nothing is spent is read.
read_coin_put :
    (same : Bool) (bc bs sc ss : Option MwebCoin) (coin : MwebCoin)
    → (same ≡ true → (bs ≡ none) × (ss ≡ none))
    → (if same then some coin else read_coin bc bs sc ss)
      ≡ read_coin bc bs (if same then some coin else sc) ss
unfolding read_coin
read_coin_put true bc bs sc ss coin u = rw ((u refl).0, (u refl).1) refl
read_coin_put false bc bs sc ss coin u = refl

-- A coin that is put over the spent one that is staged is read.
read_coin_inserted :
    (same : Bool) (bc bs sc ss : Option MwebCoin) (coin : MwebCoin)
    → (same ≡ true → bs ≡ none)
    → (if same then some coin else read_coin bc bs sc ss)
      ≡ read_coin bc bs (if same then some coin else sc) (if same then none else ss)
unfolding read_coin
read_coin_inserted true bc bs sc ss coin u = rw (u refl) refl
read_coin_inserted false bc bs sc ss coin u = refl

or_else_removed :
    (same : Bool) (bs ss : Option MwebCoin)
    → (same ≡ true → bs ≡ none)
    → (if same then none else or_else ss bs) ≡ or_else (if same then none else ss) bs
or_else_removed true bs ss u = sym (u refl)
or_else_removed false bs ss u = refl

pub move_spent-IsRebuilt :
    (base db : MwebCoinDatabase) (output_id : ℕ) (coin : MwebCoin)
    → coin.output_id ≡ output_id
    → IsRebuilt base db
    → IsRebuilt base (move_spent db output_id coin)
move_spent-IsRebuilt base db output_id coin own r = record {
  sorted = (
    BtreeMap.remove-IsSorted output_id db.coins r.sorted.0,
    BtreeMap.insert-IsSorted output_id coin db.spent r.sorted.1,
  );
  staged = (
    BtreeMap.remove-IsSorted output_id db.staged.coins r.staged.0,
    BtreeMap.insert-IsSorted output_id coin db.staged.spent r.staged.1,
  );
  keyed = (
    BtreeMap.remove-All IsOwn output_id db.coins r.keyed.0,
    BtreeMap.insert-All IsOwn output_id coin db.spent own r.keyed.1,
  );
  reads = λ id.
      rw
        (
          BtreeMap.get-remove id output_id db.coins r.sorted.0,
          BtreeMap.get-remove id output_id db.staged.coins r.staged.0,
          BtreeMap.get-insert id output_id coin db.staged.spent,
          r.reads id,
        )
        (read_coin_moved (id == output_id) (BtreeMap.get id base.coins) (BtreeMap.get id base.spent)
          (BtreeMap.get id db.staged.coins) (BtreeMap.get id db.staged.spent) coin);
  reads_spent = λ id.
      rw
        (
          BtreeMap.get-insert id output_id coin db.staged.spent,
          BtreeMap.get-insert id output_id coin db.spent,
          r.reads_spent id,
        )
        (or_else_if (id == output_id) coin (BtreeMap.get id base.spent)
          (BtreeMap.get id db.staged.spent));
}

pub put-IsRebuilt :
    (base db : MwebCoinDatabase) (output_id : ℕ) (old coin : MwebCoin)
    → coin.output_id ≡ output_id
    → get db output_id ≡ some old
    → IsWellFormed base
    → IsRebuilt base db
    → IsRebuilt base (put db output_id coin)
put-IsRebuilt base db output_id old coin own g w r = record {
  sorted = (BtreeMap.insert-IsSorted output_id coin db.coins r.sorted.0, r.sorted.1);
  staged = (BtreeMap.insert-IsSorted output_id coin db.staged.coins r.staged.0, r.staged.1);
  keyed = (BtreeMap.insert-All IsOwn output_id coin db.coins own r.keyed.0, r.keyed.1);
  reads = λ id.
      rw
        (
          BtreeMap.get-insert id output_id coin db.coins,
          BtreeMap.get-insert id output_id coin db.staged.coins,
          r.reads id,
        )
        (read_coin_put (id == output_id) (BtreeMap.get id base.coins) (BtreeMap.get id base.spent)
          (BtreeMap.get id db.staged.coins) (BtreeMap.get id db.staged.spent) coin
          (λ e.
            read_coin_unspent (BtreeMap.get id base.coins) (BtreeMap.get id base.spent)
              (BtreeMap.get id db.staged.coins) (BtreeMap.get id db.staged.spent) old (w.apart id)
              (sym (r.reads id)
                ∙ ap (λ i. BtreeMap.get i db.coins) ((==_iff id output_id).0 e)
                ∙ g)));
  reads_spent = r.reads_spent;
}

pub insert-IsRebuilt :
    (base db : MwebCoinDatabase) (coin : MwebCoin)
    → BtreeMap.get coin.output_id base.spent ≡ none
    → IsRebuilt base db
    → IsRebuilt base (insert db coin)
unfolding insert
insert-IsRebuilt base db coin fresh r =
    let gone : (id : ℕ) → (id == coin.output_id) ≡ true → BtreeMap.get id base.spent ≡ none =
      λ id e. ap (λ i. BtreeMap.get i base.spent) ((==_iff id coin.output_id).0 e) ∙ fresh in
    record {
      sorted = (
        BtreeMap.insert-IsSorted coin.output_id coin db.coins r.sorted.0,
        BtreeMap.remove-IsSorted coin.output_id db.spent r.sorted.1,
      );
      staged = (
        BtreeMap.insert-IsSorted coin.output_id coin db.staged.coins r.staged.0,
        BtreeMap.remove-IsSorted coin.output_id db.staged.spent r.staged.1,
      );
      keyed = (
        BtreeMap.insert-All IsOwn coin.output_id coin db.coins refl r.keyed.0,
        BtreeMap.remove-All IsOwn coin.output_id db.spent r.keyed.1,
      );
      reads = λ id.
          rw
            (
              BtreeMap.get-insert id coin.output_id coin db.coins,
              BtreeMap.get-insert id coin.output_id coin db.staged.coins,
              BtreeMap.get-remove id coin.output_id db.staged.spent r.staged.1,
              r.reads id,
            )
            (read_coin_inserted (id == coin.output_id) (BtreeMap.get id base.coins)
              (BtreeMap.get id base.spent) (BtreeMap.get id db.staged.coins)
              (BtreeMap.get id db.staged.spent) coin (gone id));
      reads_spent = λ id.
          rw
            (
              BtreeMap.get-remove id coin.output_id db.spent r.sorted.1,
              BtreeMap.get-remove id coin.output_id db.staged.spent r.staged.1,
              r.reads_spent id,
            )
            (or_else_removed (id == coin.output_id) (BtreeMap.get id base.spent)
              (BtreeMap.get id db.staged.spent) (gone id));
    }
