-- ===== src/Mweb/CoinDb/Merged.antt =====
-- `ChangeSet::merge` of `crates/mweb/src/changeset.rs` and `apply_changeset` of
-- `crates/mweb/src/coin_db.rs`, read at an output.
use bdk.Prelude.{
  ℕ, ◌≡◌, refl, ap, ◌∙◌, Option, none, some, [], ◌∷◌, or_else, if◌then◌else◌, arith, Bool-cases,
  inl, inr,
}
use bdk.Prelude.BtreeMap
use bdk.Prelude.BtreeMap.{BtreeMap, IsSorted}
use bdk.Mweb.CoinDb.{
  MwebCoin, ChangeSet, is_some, put_coins, put_spent, merge, MwebCoinDatabase, get, get_spent,
  apply_changeset,
}

-- The coin that is read after a merge, from the four entries of the output.
unfoldable pub read_coin : (bc bs sc ss : Option MwebCoin) → Option MwebCoin
read_coin bc bs sc ss = if is_some ss then none else if is_some bs then bc else or_else sc bc

pub get-put_coins :
    (id : ℕ) (m spent coins : BtreeMap MwebCoin)
    → IsSorted m
    → BtreeMap.get id (put_coins m spent coins) ≡ (
        if is_some (BtreeMap.get id spent)
        then BtreeMap.get id coins
        else or_else (BtreeMap.get id m) (BtreeMap.get id coins))
unfolding put_coins BtreeMap.get
get-put_coins id [] spent coins s = elim (Bool-cases (is_some (BtreeMap.get id spent))) [
  | inl e ↦ rw e refl
  | inr e ↦ rw e refl
]
get-put_coins id ((k, c) ∷ m) spent coins s = elim (Bool-cases (is_some (BtreeMap.get k spent))) [
  | inl e ↦ rw e ground (arith, get-put_coins id m spent coins s.1, e)
  | inr e ↦
      rw
        (
          e,
          get-put_coins id m spent (BtreeMap.insert k c coins) s.1,
          BtreeMap.get-insert id k c coins,
        )
        ground (arith, e, BtreeMap.first_wins k c m id (BtreeMap.get id coins) s.0)
]

pub put_coins-IsSorted :
    (m spent coins : BtreeMap MwebCoin) → IsSorted coins → IsSorted (put_coins m spent coins)
unfolding put_coins
put_coins-IsSorted [] spent coins s = s
put_coins-IsSorted ((k, c) ∷ m) spent coins s = elim (Bool-cases (is_some (BtreeMap.get k spent))) [
  | inl e ↦ rw e (put_coins-IsSorted m spent coins s)
  | inr e ↦ rw e (
      put_coins-IsSorted m spent (BtreeMap.insert k c coins) (BtreeMap.insert-IsSorted k c coins s))
]

pub get-put_spent :
    (id : ℕ) (m : BtreeMap MwebCoin) (self : ChangeSet)
    → IsSorted m
    → IsSorted self.coins
    → BtreeMap.get id (put_spent m self).coins
      ≡ (if is_some (BtreeMap.get id m) then none else BtreeMap.get id self.coins)
unfolding put_spent BtreeMap.get
get-put_spent id [] self s t = refl
get-put_spent id ((k, c) ∷ m) self s t =
    let next : ChangeSet = record {
      coins = BtreeMap.remove k self.coins;
      spent = BtreeMap.insert k c self.spent;
    } in
    ground (
      arith,
      get-put_spent id m next s.1 (BtreeMap.remove-IsSorted k self.coins t),
      BtreeMap.get-remove id k self.coins t,
    )

pub get_spent-put_spent :
    (id : ℕ) (m : BtreeMap MwebCoin) (self : ChangeSet)
    → IsSorted m
    → BtreeMap.get id (put_spent m self).spent
      ≡ or_else (BtreeMap.get id m) (BtreeMap.get id self.spent)
unfolding put_spent BtreeMap.get
get_spent-put_spent id [] self s = refl
get_spent-put_spent id ((k, c) ∷ m) self s =
    let next : ChangeSet = record {
      coins = BtreeMap.remove k self.coins;
      spent = BtreeMap.insert k c self.spent;
    } in
    get_spent-put_spent id m next s.1
    ∙ ap (or_else (BtreeMap.get id m)) (BtreeMap.get-insert id k c self.spent)
    ∙ BtreeMap.first_wins k c m id (BtreeMap.get id self.spent) s.0

-- The maps of the change set are in order.
abbrev pub AreSorted : ChangeSet → Type 0
AreSorted cs = IsSorted cs.coins × IsSorted cs.spent

pub put_spent-AreSorted :
    (m : BtreeMap MwebCoin) (self : ChangeSet) → AreSorted self → AreSorted (put_spent m self)
unfolding put_spent
put_spent-AreSorted [] self s = s
put_spent-AreSorted ((k, c) ∷ m) self s =
    put_spent-AreSorted m
      (record { coins = BtreeMap.remove k self.coins; spent = BtreeMap.insert k c self.spent })
      (BtreeMap.remove-IsSorted k self.coins s.0, BtreeMap.insert-IsSorted k c self.spent s.1)

pub merge-AreSorted : (a b : ChangeSet) → AreSorted a → AreSorted (merge a b)
unfolding merge
merge-AreSorted a b s =
    put_spent-AreSorted b.spent (record a { coins = put_coins b.coins a.spent a.coins })
      (put_coins-IsSorted b.coins a.spent a.coins s.0, s.1)

pub get-merge :
    (id : ℕ) (a b : ChangeSet)
    → AreSorted a
    → AreSorted b
    → BtreeMap.get id (merge a b).coins
      ≡ read_coin
          (BtreeMap.get id a.coins)
          (BtreeMap.get id a.spent)
          (BtreeMap.get id b.coins)
          (BtreeMap.get id b.spent)
unfolding merge read_coin
get-merge id a b s t =
    rw
      (
        get-put_spent id b.spent (record a { coins = put_coins b.coins a.spent a.coins }) t.1
            (put_coins-IsSorted b.coins a.spent a.coins s.0),
        get-put_coins id b.coins a.spent a.coins t.0,
      )
      refl

pub get_spent-merge :
    (id : ℕ) (a b : ChangeSet)
    → AreSorted b
    → BtreeMap.get id (merge a b).spent
      ≡ or_else (BtreeMap.get id b.spent) (BtreeMap.get id a.spent)
unfolding merge
get_spent-merge id a b t =
    get_spent-put_spent id b.spent (record a { coins = put_coins b.coins a.spent a.coins }) t.1

-- Of three merges in a row, the last two can be merged first.
pub read_coin-read_coin :
    (xc xs yc ys zc zs : Option MwebCoin)
    → read_coin (read_coin xc xs yc ys) (or_else ys xs) zc zs
      ≡ read_coin xc xs (read_coin yc ys zc zs) (or_else zs ys)
unfolding read_coin
read_coin-read_coin xc xs yc ys zc (some z) = refl
read_coin-read_coin xc xs yc (some y) zc none = refl
read_coin-read_coin xc (some x) yc none zc none = refl
read_coin-read_coin xc none yc none none none = refl
read_coin-read_coin xc none yc none (some z) none = refl

or_else_assoc {ℓ} :
    {A : Type ℓ} (x y z : Option A) → or_else z (or_else y x) ≡ or_else (or_else z y) x
or_else_assoc x y none = refl
or_else_assoc x y (some z) = refl

abbrev pub maps : MwebCoinDatabase → ChangeSet
maps db = record { coins = db.coins; spent = db.spent }

-- Applying two change sets one after the other is applying their merge: for a database and change
-- sets whose maps are in order, every output has the same unspent coin and the same spent coin.
pub apply_changeset-apply_changeset :
    (id : ℕ) (db : MwebCoinDatabase) (a b : ChangeSet)
    → AreSorted (maps db)
    → AreSorted a
    → AreSorted b
    → (get (apply_changeset (apply_changeset db a) b) id ≡ get (apply_changeset db (merge a b)) id)
      × (get_spent (apply_changeset (apply_changeset db a) b) id
          ≡ get_spent (apply_changeset db (merge a b)) id)
unfolding apply_changeset get_spent
apply_changeset-apply_changeset id db a b s t u =
    let first = merge (maps db) a in
    let sorted : AreSorted first = merge-AreSorted (maps db) a s in
    let joined : AreSorted (merge a b) = merge-AreSorted a b t in
    (
      rw
          (
            get-merge id first b sorted u,
            get-merge id (maps db) a s t,
            get_spent-merge id (maps db) a t,
            get-merge id (maps db) (merge a b) s joined,
            get-merge id a b t u,
            get_spent-merge id a b u,
          )
          (read_coin-read_coin (BtreeMap.get id db.coins) (BtreeMap.get id db.spent)
            (BtreeMap.get id a.coins) (BtreeMap.get id a.spent) (BtreeMap.get id b.coins)
            (BtreeMap.get id b.spent)),
      rw
          (
            get_spent-merge id first b u,
            get_spent-merge id (maps db) a t,
            get_spent-merge id (maps db) (merge a b) joined,
            get_spent-merge id a b u,
          )
          (or_else_assoc (BtreeMap.get id db.spent) (BtreeMap.get id a.spent)
            (BtreeMap.get id b.spent)),
    )
