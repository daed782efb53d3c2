-- ===== src/Chain/ChainPosition/Tests.antt =====
-- The order of chain positions at inputs.
use Prim.Native.Nat.{compare, Ordering}
use bdk.Prelude.{◌≡◌, refl, none, some}
use bdk.Chain.ChainPosition.{confirmed, unconfirmed, cmp}
use bdk.Chain.ChainPosition.Order.{IsOrder, compare-IsOrder, cmp-IsOrder}

-- A transitive confirmation comes before a direct one at the same anchor.
transitive_first : cmp compare (confirmed 9 (some 0)) (confirmed 9 none) ≡ Ordering.lt
unfolding cmp
transitive_first = refl

never_seen_last :
    cmp compare (unconfirmed none none) (unconfirmed (some 10) (some 20)) ≡ Ordering.gt
unfolding cmp
never_seen_last = refl

cmp-IsOrder_example : IsOrder (cmp compare)
cmp-IsOrder_example = cmp-IsOrder compare compare-IsOrder
