-- ===== src/Mweb/CoinDb/Codec.antt =====
-- An encoding of the change sets of `crates/mweb/src/changeset.rs`, for the tests of the store: the
-- number of entries of each map and their fields.
use mathlib.Core.List.{append_assoc}
use bdk.Prelude.{
  ℕ, zero, suc, ◌-◌, ◌<◌, ◌≤◌, ◌≡◌, refl, ap, ◌∙◌, Bool, true, false, Option, none, some, List, [],
  ◌∷◌, ◌++◌, length, arith, length-append,
}
use bdk.Prelude.BtreeMap.{BtreeMap}
use bdk.Mweb.CoinDb.{MwebCoin, ChangeSet}
use bdk.FileStore.{Bincode, Decoded, decoded, failed, io_error, unexpected_eof}
use bdk.FileStore.Entries.{BincodeLaws}

-- A value that is read, and the rest of the bytes.
abbrev Read : Type 0 → Type 0
Read A = Option (A × List ℕ)

infixl 5 ◌>>=◌
abbrev ◌>>=◌ : {A B : Type 0} → Read A → (A × List ℕ → Read B) → Read B
none >>= f = none
some a >>= f = f a

abbrev from_option : Option ℕ → ℕ
from_option none = 0
from_option (some n) = suc n

abbrev to_option : ℕ → Option ℕ
to_option zero = none
to_option (suc n) = some n

abbrev from_bool : Bool → ℕ
from_bool true = 1
from_bool false = 0

abbrev to_bool : ℕ → Bool
to_bool zero = false
to_bool (suc n) = true

abbrev take_number : List ℕ → Read ℕ
take_number [] = none
take_number (b ∷ rest) = some (b, rest)

abbrev write_coin : MwebCoin → List ℕ
write_coin c =
    c.output_id
    ∷ c.commitment
    ∷ c.amount
    ∷ c.address_index
    ∷ c.blind
    ∷ c.shared_secret
    ∷ from_option c.spend_key
    ∷ from_option c.block_height
    ∷ from_bool c.is_pegin
    ∷ from_option c.leaf_index
    ∷ []

unfoldable read_coin : List ℕ → Read MwebCoin
read_coin buf = do
  output_id ← take_number buf
  commitment ← take_number output_id.1
  amount ← take_number commitment.1
  address_index ← take_number amount.1
  blind ← take_number address_index.1
  shared_secret ← take_number blind.1
  spend_key ← take_number shared_secret.1
  block_height ← take_number spend_key.1
  is_pegin ← take_number block_height.1
  leaf_index ← take_number is_pegin.1
  some (
    record {
      output_id = output_id.0;
      commitment = commitment.0;
      amount = amount.0;
      address_index = address_index.0;
      blind = blind.0;
      shared_secret = shared_secret.0;
      spend_key = to_option spend_key.0;
      block_height = to_option block_height.0;
      is_pegin = to_bool is_pegin.0;
      leaf_index = to_option leaf_index.0;
    },
    leaf_index.1,
  )

to_option-from_option : (o : Option ℕ) → to_option (from_option o) ≡ o
to_option-from_option none = refl
to_option-from_option (some n) = refl

to_bool-from_bool : (b : Bool) → to_bool (from_bool b) ≡ b
to_bool-from_bool true = refl
to_bool-from_bool false = refl

read_coin-write_coin :
    (c : MwebCoin) (rest : List ℕ) → read_coin (write_coin c ++ rest) ≡ some (c, rest)
unfolding read_coin
read_coin-write_coin c rest =
    rw
      (
        to_option-from_option c.spend_key,
        to_option-from_option c.block_height,
        to_bool-from_bool c.is_pegin,
        to_option-from_option c.leaf_index,
      )
      refl

abbrev write_entries : BtreeMap MwebCoin → List ℕ
write_entries [] = []
write_entries ((id, c) ∷ m) = id ∷ (write_coin c ++ write_entries m)

unfoldable read_entries : ℕ → List ℕ → Read (BtreeMap MwebCoin)
read_entries zero buf = some ([], buf)
read_entries (suc n) buf = do
  id ← take_number buf
  c ← read_coin id.1
  m ← read_entries n c.1
  some ((id.0, c.0) ∷ m.0, m.1)

read_entries-write_entries :
    (m : BtreeMap MwebCoin) (rest : List ℕ)
    → read_entries (length m) (write_entries m ++ rest) ≡ some (m, rest)
unfolding read_entries
read_entries-write_entries [] rest = refl
read_entries-write_entries ((id, c) ∷ m) rest =
    rw
      (
        append_assoc (write_coin c) (write_entries m) rest,
        read_coin-write_coin c (write_entries m ++ rest),
        read_entries-write_entries m rest,
      )
      refl

abbrev read_maps : List ℕ → Read ChangeSet
read_maps buf = do
  n ← take_number buf
  coins ← read_entries n.0 n.1
  k ← take_number coins.1
  spent ← read_entries k.0 k.1
  some (record { coins = coins.0; spent = spent.0 }, spent.1)

abbrev write_maps : ChangeSet → List ℕ
write_maps cs =
    length cs.coins ∷ (write_entries cs.coins ++ (length cs.spent ∷ write_entries cs.spent))

read_maps-write_maps :
    (cs : ChangeSet) (rest : List ℕ) → read_maps (write_maps cs ++ rest) ≡ some (cs, rest)
read_maps-write_maps cs rest =
    rw
      (
        append_assoc (write_entries cs.coins) (length cs.spent ∷ write_entries cs.spent) rest,
        read_entries-write_entries cs.coins (length cs.spent ∷ (write_entries cs.spent ++ rest)),
        read_entries-write_entries cs.spent rest,
      )
      refl

-- An entry is read from the first byte to what is left.
abbrev to_decoded : List ℕ → Read ChangeSet → Decoded ChangeSet
to_decoded rest none = failed (io_error unexpected_eof) 1
to_decoded rest (some read) = decoded read.0 (suc (length rest - length read.1))

abbrev read_changeset : List ℕ → Decoded ChangeSet
read_changeset [] = failed (io_error unexpected_eof) 0
read_changeset (b ∷ rest) = to_decoded rest (read_maps (b ∷ rest))

pub changesets : Bincode ChangeSet
changesets = record { serialize = write_maps; deserialize = read_changeset }

abbrev consumed : Decoded ChangeSet → ℕ
consumed (decoded c n) = n
consumed (failed error n) = 0

to_decoded-consumed :
    (rest : List ℕ) (read : Read ChangeSet) (c : ChangeSet) (n : ℕ)
    → to_decoded rest read ≡ decoded c n
    → (0 < n) × (n ≤ suc (length rest))
to_decoded-consumed rest none c n e = absurd cc
to_decoded-consumed rest (some read) c n e =
    let some_bytes : suc (length rest - length read.1) ≡ n = ap consumed e in
    (omega (arith, some_bytes), omega (arith, some_bytes))

read_changeset-consumed :
    (buf : List ℕ) (c : ChangeSet) (n : ℕ)
    → read_changeset buf ≡ decoded c n
    → (0 < n) × (n ≤ length buf)
read_changeset-consumed [] c n e = absurd cc
read_changeset-consumed (b ∷ rest) c n e = to_decoded-consumed rest (read_maps (b ∷ rest)) c n e

pub changesets-BincodeLaws : BincodeLaws changesets
unfolding changesets
changesets-BincodeLaws = record {
  round_trip = λ cs rest.
      let coded = write_entries cs.coins ++ (length cs.spent ∷ write_entries cs.spent) in
      let size : length (coded ++ rest) - length rest ≡ length coded =
        omega (arith, length-append coded rest) in
      ap (to_decoded (coded ++ rest)) (read_maps-write_maps cs rest) ∙ (rw size refl);
  at_end = refl;
  consumes = read_changeset-consumed;
}
