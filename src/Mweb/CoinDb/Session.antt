-- ===== src/Mweb/CoinDb/Session.antt =====
-- Sequences of operations on the database of `crates/mweb/src/coin_db.rs`, and the database that
-- is loaded again from what they staged.
use bdk.Prelude.{ℕ, ◌≡◌, refl, ◌∙◌, none, List, [], ◌∷◌, Option-cases, inl, inr, All}
use bdk.Prelude.BtreeMap
use bdk.Prelude.BtreeMap.{BtreeMap, IsSorted, IsAbove}
use bdk.Mweb.CoinDb.{
  MwebCoin, MwebCoinDatabase, insert, mark_spent, update_coin, set_block_height, set_leaf_index,
  mark_spent_by_leaf_index, find_by_leaf_index, disconnect_from, with_block_height, with_leaf_index,
}
use bdk.Mweb.CoinDb.Replay.{
  IsWellFormed, IsRebuilt, IsOwn, insert-IsRebuilt, put-IsRebuilt, move_spent-IsRebuilt,
  disconnect_from-IsRebuilt,
}

-- The operations that change a database.
pub data Step : Type 0 where
  insert_coin : MwebCoin → Step
  spend : ℕ → Step
  spend_leaf : ℕ → Step
  place_at : ℕ → ℕ → Step
  place_leaf : ℕ → ℕ → Step
  disconnect_at : ℕ → Step

unfoldable pub take_step : MwebCoinDatabase → Step → MwebCoinDatabase
take_step db (insert_coin coin) = insert db coin
take_step db (spend output_id) = (mark_spent db output_id).0
take_step db (spend_leaf leaf_index) = (mark_spent_by_leaf_index db leaf_index).0
take_step db (place_at output_id height) = (set_block_height db output_id height).0
take_step db (place_leaf output_id leaf_index) = (set_leaf_index db output_id leaf_index).0
take_step db (disconnect_at height) = disconnect_from db height

unfoldable pub take_steps : MwebCoinDatabase → List Step → MwebCoinDatabase
take_steps db [] = db
take_steps db (step ∷ steps) = take_steps (take_step db step) steps

-- A coin that the step inserts is not spent in the database.
abbrev pub IsFresh : MwebCoinDatabase → Step → Type 0
IsFresh db (insert_coin coin) = BtreeMap.get coin.output_id db.spent ≡ none
IsFresh db (spend output_id) = Unit
IsFresh db (spend_leaf leaf_index) = Unit
IsFresh db (place_at output_id height) = Unit
IsFresh db (place_leaf output_id leaf_index) = Unit
IsFresh db (disconnect_at height) = Unit

mark_spent-IsRebuilt :
    (base db : MwebCoinDatabase) (output_id : ℕ)
    → IsRebuilt base db
    → IsRebuilt base (mark_spent db output_id).0
unfolding mark_spent
mark_spent-IsRebuilt base db output_id r = elim (Option-cases (BtreeMap.get output_id db.coins)) [
  | inl e ↦ rw (mark_spent, e) r
  | inr (coin, e) ↦
      rw (mark_spent, e)
        (move_spent-IsRebuilt base db output_id coin
          (BtreeMap.get-All IsOwn output_id coin db.coins r.keyed.0 e) r)
]

update_coin-IsRebuilt :
    (base db : MwebCoinDatabase) (change : MwebCoin → MwebCoin) (output_id : ℕ)
    → ((coin : MwebCoin) → (change coin).output_id ≡ coin.output_id)
    → IsWellFormed base
    → IsRebuilt base db
    → IsRebuilt base (update_coin change db output_id).0
unfolding update_coin
update_coin-IsRebuilt base db change output_id k w r =
    elim (Option-cases (BtreeMap.get output_id db.coins)) [
      | inl e ↦ rw (update_coin, e) r
      | inr (coin, e) ↦
          rw (update_coin, e)
            (put-IsRebuilt base db output_id coin (change coin)
              (k coin ∙ BtreeMap.get-All IsOwn output_id coin db.coins r.keyed.0 e) e w r)
    ]

take_step-IsRebuilt :
    (base db : MwebCoinDatabase) (step : Step)
    → IsFresh base step
    → IsWellFormed base
    → IsRebuilt base db
    → IsRebuilt base (take_step db step)
unfolding take_step mark_spent_by_leaf_index set_block_height set_leaf_index
take_step-IsRebuilt base db (insert_coin coin) f w r = insert-IsRebuilt base db coin f r
take_step-IsRebuilt base db (spend output_id) f w r = mark_spent-IsRebuilt base db output_id r
take_step-IsRebuilt base db (spend_leaf leaf_index) f w r =
    elim (Option-cases (find_by_leaf_index db leaf_index)) [
      | inl e ↦ rw (take_step, mark_spent_by_leaf_index, e) r
      | inr (coin, e) ↦
          rw (take_step, mark_spent_by_leaf_index, e)
            (mark_spent-IsRebuilt base db coin.output_id r)
    ]
take_step-IsRebuilt base db (place_at output_id height) f w r =
    update_coin-IsRebuilt base db (λ coin. with_block_height coin height) output_id (λ coin. refl) w
      r
take_step-IsRebuilt base db (place_leaf output_id leaf_index) f w r =
    update_coin-IsRebuilt base db (λ coin. with_leaf_index coin leaf_index) output_id (λ coin. refl)
      w r
take_step-IsRebuilt base db (disconnect_at height) f w r =
    disconnect_from-IsRebuilt base db height w r

pub take_steps-IsRebuilt :
    (base db : MwebCoinDatabase) (steps : List Step)
    → All (IsFresh base) steps
    → IsWellFormed base
    → IsRebuilt base db
    → IsRebuilt base (take_steps db steps)
unfolding take_steps
take_steps-IsRebuilt base db [] f w r = r
take_steps-IsRebuilt base db (step ∷ steps) f w r =
    take_steps-IsRebuilt base (take_step db step) steps f.1 w
      (take_step-IsRebuilt base db step f.0 w r)
