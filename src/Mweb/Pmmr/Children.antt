-- ===== src/Mweb/Pmmr/Children.antt =====
-- The children of a node of the PMMR lie below it.
use bdk.Prelude.{ℕ, zero, suc, ◌+◌, ◌^◌, ◌≤◌, ◌<◌, ◌≡◌, some, arith}
use bdk.Mweb.Pmmr.{Index, left_child, right_child}

pow-pos : (k : ℕ) → 0 < 2 ^ k
pow-pos zero = omega arith
pow-pos (suc k) = omega (arith, pow-pos k)

-- The two children of a node stand at the height right below it, the left one below the right one
-- and both below the node, or the node is a leaf.
pub left_child-right_child :
    (n l r : Index)
    → left_child n ≡ some l
    → right_child n ≡ some r
    → (l.position ≤ r.position)
      × (r.position + 1 ≡ n.position)
      × (l.height + 1 ≡ n.height)
      × (r.height ≡ l.height)
unfolding left_child right_child
left_child-right_child n l r e f = ground (arith, pow-pos n.height)
