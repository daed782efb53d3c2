-- ===== src/Chain/ChainPosition.antt =====
-- `ChainPosition` of `crates/chain/src/chain_data.rs`, the place of a transaction in the chain, and
-- its order. A transaction id is a number; the order of the anchors is an argument.
pub mod Order
mod Tests
use Prim.Native.Nat.{compare, Ordering}
use bdk.Prelude.{ℕ, Bool, true, false, Option, none, some}

pub data ChainPosition (A : Type 0) : Type 0 where
  confirmed : (anchor : A) → (transitively : Option ℕ) → ChainPosition A
  unconfirmed : (first_seen last_seen : Option ℕ) → ChainPosition A

-- The inner function of `Ord::cmp`.
abbrev pub cmp_none_last : Option ℕ → Option ℕ → Ordering
cmp_none_last none none = Ordering.eq
cmp_none_last none (some t2) = Ordering.gt
cmp_none_last (some t1) none = Ordering.lt
cmp_none_last (some t1) (some t2) = compare t1 t2

-- `match first { Ordering::Equal => second, other => other }`.
abbrev pub or_then : Ordering → Ordering → Ordering
or_then Ordering.lt second = Ordering.lt
or_then Ordering.eq second = second
or_then Ordering.gt second = Ordering.gt

module _ {A : Type 0} where
  pub is_confirmed : ChainPosition A → Bool
  is_confirmed (confirmed anchor transitively) = true
  is_confirmed (unconfirmed first_seen last_seen) = false

  pub is_unconfirmed : ChainPosition A → Bool
  is_unconfirmed (confirmed anchor transitively) = false
  is_unconfirmed (unconfirmed first_seen last_seen) = true

  -- The trait `Anchor` gives the height of an anchor.
  unfoldable pub confirmation_height_upper_bound : (A → ℕ) → ChainPosition A → Option ℕ
  confirmation_height_upper_bound bound (confirmed anchor transitively) = some (bound anchor)
  confirmation_height_upper_bound bound (unconfirmed first_seen last_seen) = none

  -- `Ord::cmp`.
  pub cmp : (A → A → Ordering) → ChainPosition A → ChainPosition A → Ordering
  cmp anchor_cmp (confirmed a1 t1) (confirmed a2 t2) =
      or_then (anchor_cmp a1 a2) (cmp_none_last t1 t2)
  cmp anchor_cmp (unconfirmed f1 l1) (unconfirmed f2 l2) =
      or_then (cmp_none_last f1 f2) (cmp_none_last l1 l2)
  cmp anchor_cmp (confirmed a1 t1) (unconfirmed f2 l2) = Ordering.lt
  cmp anchor_cmp (unconfirmed f1 l1) (confirmed a2 t2) = Ordering.gt

  -- `ChainPosition::cloned`, of a position that refers to its anchor.
  pub cloned : {B : Type 0} → (A → B) → ChainPosition A → ChainPosition B
  cloned clone (confirmed anchor transitively) = confirmed (clone anchor) transitively
  cloned clone (unconfirmed first_seen last_seen) = unconfirmed first_seen last_seen
