-- ===== src/Mweb/CoinDb.antt =====
-- `MwebCoin` and `MwebCoinDatabase` of `crates/mweb/src/coin_db.rs`, and the `ChangeSet` of
-- `crates/mweb/src/changeset.rs`, with the feature `persist`. A byte array is a number; an amount
-- is a `u64`.
pub mod Merged
pub mod Disconnect
pub mod Replay
pub mod Session
pub mod Reload
pub mod Stored
pub mod Sums
pub mod Persisted
pub mod Codec
mod Tests
use bdk.Prelude.{
  ℕ, suc, ◌+◌, ◌-◌, min, Bool, true, false, not, ◌&&◌, ◌||◌, Option, none, some, List, [], ◌∷◌, map,
  map_option, and_then, filter, length, leb, ◌==◌, u64_mod, if◌then◌else◌,
}
use bdk.Prelude.BtreeMap
use bdk.Prelude.BtreeMap.{BtreeMap}
use bdk.Core.Merge.{Merge, list_is_empty}
use bdk.Core.Checkpoint.{u32_mod, saturating_add}

abbrev pub mweb_pegin_maturity : ℕ
mweb_pegin_maturity = 6

-- `u64::saturating_add`.
abbrev pub saturating_add_u64 : ℕ → ℕ → ℕ
saturating_add_u64 a b = min (a + b) (u64_mod - 1)

pub record MwebBalance : Type 0 where
  pub confirmed : ℕ
  pub untrusted_pending : ℕ

unfoldable pub total : MwebBalance → ℕ
total self = saturating_add_u64 self.confirmed self.untrusted_pending

pub record MwebCoin : Type 0 where
  pub output_id : ℕ
  pub commitment : ℕ
  pub amount : ℕ
  pub address_index : ℕ
  pub blind : ℕ
  pub shared_secret : ℕ
  pub spend_key : Option ℕ
  pub block_height : Option ℕ
  pub is_pegin : Bool
  pub leaf_index : Option ℕ

-- The derived equality of an optional number.
abbrev option_eq : Option ℕ → Option ℕ → Bool
option_eq none none = true
option_eq none (some b) = false
option_eq (some a) none = false
option_eq (some a) (some b) = a == b

abbrev bool_eq : Bool → Bool → Bool
bool_eq true b = b
bool_eq false b = not b

-- `PartialEq`; the comparisons in constant time are equality.
unfoldable pub coin_eq : MwebCoin → MwebCoin → Bool
coin_eq self other =
    self.output_id == other.output_id
    && (self.commitment == other.commitment
        && (self.amount == other.amount
            && (self.address_index == other.address_index
                && (option_eq self.block_height other.block_height
                    && (bool_eq self.is_pegin other.is_pegin
                        && (option_eq self.leaf_index other.leaf_index
                            && (self.blind == other.blind
                                && (self.shared_secret == other.shared_secret
                                    && option_eq self.spend_key other.spend_key))))))))

pub wipe : MwebCoin → MwebCoin
wipe self = record self { blind = 0; shared_secret = 0; spend_key = none }

unfoldable pub is_confirmed : MwebCoin → ℕ → Bool
is_confirmed self tip_height = elim self.block_height [ some h ↦ leb h tip_height | none ↦ false ]

unfoldable pub is_spendable : MwebCoin → ℕ → ℕ → Bool
is_spendable self tip_height maturity = elim self.block_height [
  | none ↦ false
  | some h ↦
      if leb h tip_height
      then (if self.is_pegin then leb maturity (saturating_add tip_height 1 - h) else true)
      else false
]

abbrev pub with_block_height : MwebCoin → ℕ → MwebCoin
with_block_height self height = record self { block_height = some height }

abbrev pub with_pegin : MwebCoin → Bool → MwebCoin
with_pegin self is_pegin = record self { is_pegin = is_pegin }

abbrev pub with_leaf_index : MwebCoin → ℕ → MwebCoin
with_leaf_index self leaf_index = record self { leaf_index = some leaf_index }

pub record ChangeSet : Type 0 where
  pub coins : BtreeMap MwebCoin
  pub spent : BtreeMap MwebCoin

abbrev pub no_changes : ChangeSet
no_changes = record { coins = []; spent = [] }

abbrev pub is_some {ℓ} : {A : Type ℓ} → Option A → Bool
is_some none = false
is_some (some a) = true

-- The loops of `ChangeSet::merge` and of `apply_changeset`: the coins that are not spent are put
-- into the unspent ones, and then the spent ones are moved.
unfoldable pub put_coins :
    BtreeMap MwebCoin → BtreeMap MwebCoin → BtreeMap MwebCoin → BtreeMap MwebCoin
put_coins [] spent coins = coins
put_coins ((id, coin) ∷ rest) spent coins =
    put_coins rest spent
      (if is_some (BtreeMap.get id spent) then coins else BtreeMap.insert id coin coins)

unfoldable pub put_spent : BtreeMap MwebCoin → ChangeSet → ChangeSet
put_spent [] self = self
put_spent ((id, coin) ∷ rest) self =
    put_spent rest
      (record { coins = BtreeMap.remove id self.coins; spent = BtreeMap.insert id coin self.spent })

unfoldable pub merge : ChangeSet → ChangeSet → ChangeSet
merge self other =
    put_spent other.spent (record self { coins = put_coins other.coins self.spent self.coins })

abbrev pub changeset_merge : Merge ChangeSet
changeset_merge = record {
  empty = no_changes;
  merge = merge;
  is_empty = λ self. list_is_empty self.coins && list_is_empty self.spent;
}

pub record MwebCoinDatabase : Type 0 where
  pub coins : BtreeMap MwebCoin
  pub spent : BtreeMap MwebCoin
  pub staged : ChangeSet

abbrev pub new : MwebCoinDatabase
new = record { coins = []; spent = []; staged = no_changes }

unfoldable pub insert : MwebCoinDatabase → MwebCoin → MwebCoinDatabase
insert self coin = record {
  coins = BtreeMap.insert coin.output_id coin self.coins;
  spent = BtreeMap.remove coin.output_id self.spent;
  staged = record {
    coins = BtreeMap.insert coin.output_id coin self.staged.coins;
    spent = BtreeMap.remove coin.output_id self.staged.spent;
  };
}

abbrev pub get : MwebCoinDatabase → ℕ → Option MwebCoin
get self output_id = BtreeMap.get output_id self.coins

abbrev move_spent : MwebCoinDatabase → ℕ → MwebCoin → MwebCoinDatabase
move_spent self output_id coin = record {
  coins = BtreeMap.remove output_id self.coins;
  spent = BtreeMap.insert output_id coin self.spent;
  staged = record {
    coins = BtreeMap.remove output_id self.staged.coins;
    spent = BtreeMap.insert output_id coin self.staged.spent;
  };
}

unfoldable pub mark_spent : MwebCoinDatabase → ℕ → MwebCoinDatabase × Bool
mark_spent self output_id = elim (BtreeMap.get output_id self.coins) [
  | some coin ↦ (move_spent self output_id coin, true)
  | none ↦ (self, false)
]

unfoldable pub sum_from : ℕ → BtreeMap MwebCoin → ℕ
sum_from acc [] = acc
sum_from acc ((id, c) ∷ coins) = sum_from (saturating_add_u64 acc c.amount) coins

unfoldable pub balance : MwebCoinDatabase → ℕ
balance self = sum_from 0 self.coins

abbrev add_coin : ℕ → MwebBalance → MwebCoin → MwebBalance
add_coin tip_height bal coin =
    if is_confirmed coin tip_height
    then record bal { confirmed = saturating_add_u64 bal.confirmed coin.amount }
    else record bal { untrusted_pending = saturating_add_u64 bal.untrusted_pending coin.amount }

unfoldable pub balance_from : ℕ → MwebBalance → BtreeMap MwebCoin → MwebBalance
balance_from tip_height bal [] = bal
balance_from tip_height bal ((id, coin) ∷ coins) =
    balance_from tip_height (add_coin tip_height bal coin) coins

unfoldable pub balance_at : MwebCoinDatabase → ℕ → MwebBalance
balance_at self tip_height =
    balance_from tip_height (record { confirmed = 0; untrusted_pending = 0 }) self.coins

pub unspent : MwebCoinDatabase → List MwebCoin
unspent self = map (λ (e : ℕ × MwebCoin). e.1) self.coins

pub unspent_count : MwebCoinDatabase → ℕ
unspent_count self = length self.coins

pub unspent_confirmed : MwebCoinDatabase → ℕ → List MwebCoin
unspent_confirmed self tip_height = filter (λ c. is_confirmed c tip_height) (unspent self)

pub unspent_spendable : MwebCoinDatabase → ℕ → ℕ → List MwebCoin
unspent_spendable self tip_height maturity =
    filter (λ c. is_spendable c tip_height maturity) (unspent self)

-- `block_height.is_some_and(|h| h >= height)`.
unfoldable pub is_at_or_above : ℕ → MwebCoin → Bool
is_at_or_above height coin = elim coin.block_height [ none ↦ false | some h ↦ leb height h ]

unfoldable pub without_height : ℕ → MwebCoin → MwebCoin
without_height height coin =
    if is_at_or_above height coin then record coin { block_height = none } else coin

abbrev pub stage_cleared : ℕ → MwebCoin → BtreeMap MwebCoin → BtreeMap MwebCoin
stage_cleared height coin staged =
    if is_at_or_above height coin
    then BtreeMap.insert coin.output_id (without_height height coin) staged
    else staged

-- A loop of `disconnect_from`, on the coins and the staged ones.
unfoldable pub disconnect :
    ℕ → BtreeMap MwebCoin → BtreeMap MwebCoin → BtreeMap MwebCoin × BtreeMap MwebCoin
disconnect height [] staged = ([], staged)
disconnect height ((id, coin) ∷ coins) staged =
    let rest = disconnect height coins (stage_cleared height coin staged) in
    ((id, without_height height coin) ∷ rest.0, rest.1)

unfoldable pub disconnect_from : MwebCoinDatabase → ℕ → MwebCoinDatabase
disconnect_from self height =
    let coins = disconnect height self.coins self.staged.coins in
    let spent = disconnect height self.spent self.staged.spent in
    record {
      coins = coins.0;
      spent = spent.0;
      staged = record { coins = coins.1; spent = spent.1 };
    }

-- An unspent coin is replaced, and staged.
abbrev pub put : MwebCoinDatabase → ℕ → MwebCoin → MwebCoinDatabase
put self output_id coin = record self {
  coins = BtreeMap.insert output_id coin self.coins;
  staged = record {
    coins = BtreeMap.insert output_id coin self.staged.coins;
    spent = self.staged.spent;
  };
}

unfoldable pub update_coin : (MwebCoin → MwebCoin) → MwebCoinDatabase → ℕ → MwebCoinDatabase × Bool
update_coin change self output_id = elim (BtreeMap.get output_id self.coins) [
  | none ↦ (self, false)
  | some coin ↦ (put self output_id (change coin), true)
]

unfoldable pub set_block_height : MwebCoinDatabase → ℕ → ℕ → MwebCoinDatabase × Bool
set_block_height self output_id height =
    update_coin (λ coin. with_block_height coin height) self output_id

unfoldable pub set_leaf_index : MwebCoinDatabase → ℕ → ℕ → MwebCoinDatabase × Bool
set_leaf_index self output_id leaf_index =
    update_coin (λ coin. with_leaf_index coin leaf_index) self output_id

abbrev find_leaf : ℕ → BtreeMap MwebCoin → Option MwebCoin
find_leaf leaf_index [] = none
find_leaf leaf_index ((id, coin) ∷ coins) =
    let rest = find_leaf leaf_index coins in
    if option_eq coin.leaf_index (some leaf_index) then some coin else rest

unfoldable pub find_by_leaf_index : MwebCoinDatabase → ℕ → Option MwebCoin
find_by_leaf_index self leaf_index = find_leaf leaf_index self.coins

unfoldable pub mark_spent_by_leaf_index : MwebCoinDatabase → ℕ → MwebCoinDatabase × Option ℕ
mark_spent_by_leaf_index self leaf_index = elim (find_by_leaf_index self leaf_index) [
  | none ↦ (self, none)
  | some coin ↦
      let marked = mark_spent self coin.output_id in
      (marked.0, if marked.1 then some coin.output_id else none)
]

unfoldable pub is_spent : MwebCoinDatabase → ℕ → Bool
is_spent self output_id = is_some (BtreeMap.get output_id self.spent)

unfoldable pub get_spent : MwebCoinDatabase → ℕ → Option MwebCoin
get_spent self output_id = BtreeMap.get output_id self.spent

-- The maps of a database and of a change set are moved by the same loops.
unfoldable pub apply_changeset : MwebCoinDatabase → ChangeSet → MwebCoinDatabase
apply_changeset self cs =
    let moved = merge (record { coins = self.coins; spent = self.spent }) cs in
    record self { coins = moved.coins; spent = moved.spent }

unfoldable pub from_changeset : ChangeSet → MwebCoinDatabase
from_changeset cs = apply_changeset new cs

unfoldable pub take_staged : MwebCoinDatabase → MwebCoinDatabase × ChangeSet
take_staged self = (record self { staged = no_changes }, self.staged)
