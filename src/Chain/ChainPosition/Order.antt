-- ===== src/Chain/ChainPosition/Order.antt =====
-- The order of chain positions is total.
use Prim.Native.Nat.{compare, Ordering}
use bdk.Prelude.{ℕ, ◌≡◌, refl, sym, ap, subst, Option, none, some, arith}
use bdk.Chain.ChainPosition.{ChainPosition, confirmed, unconfirmed, cmp_none_last, or_then, cmp}

-- `Ordering::reverse`.
abbrev pub reverse : Ordering → Ordering
reverse Ordering.lt = Ordering.gt
reverse Ordering.eq = Ordering.eq
reverse Ordering.gt = Ordering.lt

-- What the documentation of `Ord` asks of an order.
pub record IsOrder {A : Type 0} (order : A → A → Ordering) : Type 0 where
  pub swap : (a b : A) → order b a ≡ reverse (order a b)
  pub same : (a b : A) → order a b ≡ Ordering.eq → a ≡ b
  pub trans :
      (a b c : A) → order a b ≡ Ordering.lt → order b c ≡ Ordering.lt → order a c ≡ Ordering.lt

pub compare-IsOrder : IsOrder compare
compare-IsOrder = record {
  swap = λ a b. ground arith;
  same = λ a b h. ground arith;
  trans = λ a b c h k. ground arith;
}

cmp_none_last-swap : (a b : Option ℕ) → cmp_none_last b a ≡ reverse (cmp_none_last a b)
cmp_none_last-swap none none = refl
cmp_none_last-swap none (some b) = refl
cmp_none_last-swap (some a) none = refl
cmp_none_last-swap (some a) (some b) = compare-IsOrder.swap a b

cmp_none_last_same : (a b : Option ℕ) → cmp_none_last a b ≡ Ordering.eq → a ≡ b
cmp_none_last_same none none h = refl
cmp_none_last_same none (some b) h = cc
cmp_none_last_same (some a) none h = cc
cmp_none_last_same (some a) (some b) h = ap some (compare-IsOrder.same a b h)

cmp_none_last_trans :
    (a b c : Option ℕ)
    → cmp_none_last a b ≡ Ordering.lt
    → cmp_none_last b c ≡ Ordering.lt
    → cmp_none_last a c ≡ Ordering.lt
cmp_none_last_trans none none c h k = cc
cmp_none_last_trans none (some b) c h k = cc
cmp_none_last_trans (some a) none none h k = cc
cmp_none_last_trans (some a) none (some c) h k = cc
cmp_none_last_trans (some a) (some b) none h k = refl
cmp_none_last_trans (some a) (some b) (some c) h k = compare-IsOrder.trans a b c h k

cmp_none_last-IsOrder : IsOrder cmp_none_last
cmp_none_last-IsOrder = record {
  swap = cmp_none_last-swap;
  same = cmp_none_last_same;
  trans = cmp_none_last_trans;
}

reverse-or_then : (r s : Ordering) → reverse (or_then r s) ≡ or_then (reverse r) (reverse s)
reverse-or_then Ordering.lt s = refl
reverse-or_then Ordering.eq s = refl
reverse-or_then Ordering.gt s = refl

-- Two orders, the second where the first is equal.
module _ {X Y : Type 0} (o : X → X → Ordering) (p : Y → Y → Ordering) (O : IsOrder o)
    (P : IsOrder p) where
  or_then_swap : (a b : X) (x y : Y) → or_then (o b a) (p y x) ≡ reverse (or_then (o a b) (p x y))
  or_then_swap a b x y = rw (O.swap a b, P.swap x y) (sym (reverse-or_then (o a b) (p x y)))

  or_then_same : (a b : X) (x y : Y) → or_then (o a b) (p x y) ≡ Ordering.eq → (a ≡ b) × (x ≡ y)
  or_then_same a b x y h = go (o a b) refl h
    where
      go : (r : Ordering) → o a b ≡ r → or_then r (p x y) ≡ Ordering.eq → (a ≡ b) × (x ≡ y)
      go Ordering.lt e h = cc
      go Ordering.eq e h = (O.same a b e, P.same x y h)
      go Ordering.gt e h = cc

  or_then_trans :
      (a b c : X) (x y z : Y)
      → or_then (o a b) (p x y) ≡ Ordering.lt
      → or_then (o b c) (p y z) ≡ Ordering.lt
      → or_then (o a c) (p x z) ≡ Ordering.lt
  or_then_trans a b c x y z h k = go (o a b) (o b c) refl refl h k
    where
      go :
          (r s : Ordering)
          → o a b ≡ r
          → o b c ≡ s
          → or_then r (p x y) ≡ Ordering.lt
          → or_then s (p y z) ≡ Ordering.lt
          → or_then (o a c) (p x z) ≡ Ordering.lt
      go Ordering.lt Ordering.lt e f h k = rw (O.trans a b c e f) refl
      go Ordering.lt Ordering.eq e f h k =
          subst (λ w. or_then (o a w) (p x z) ≡ Ordering.lt) (O.same b c f) (rw e refl)
      go Ordering.eq Ordering.lt e f h k =
          subst (λ w. or_then (o w c) (p x z) ≡ Ordering.lt) (sym (O.same a b e)) (rw f refl)
      go Ordering.eq Ordering.eq e f h k =
          subst (λ w. or_then (o w c) (p x z) ≡ Ordering.lt) (sym (O.same a b e))
            (rw f (P.trans x y z h k))
      go Ordering.gt s e f h k = cc
      go Ordering.lt Ordering.gt e f h k = cc
      go Ordering.eq Ordering.gt e f h k = cc

module _ {A : Type 0} (anchor_cmp : A → A → Ordering) (O : IsOrder anchor_cmp) where
  cmp-swap : (a b : ChainPosition A) → cmp anchor_cmp b a ≡ reverse (cmp anchor_cmp a b)
  unfolding cmp
  cmp-swap (confirmed a s) (confirmed b t) =
      or_then_swap anchor_cmp cmp_none_last O cmp_none_last-IsOrder a b s t
  cmp-swap (confirmed a s) (unconfirmed f l) = refl
  cmp-swap (unconfirmed f l) (confirmed a s) = refl
  cmp-swap (unconfirmed f l) (unconfirmed g m) =
      or_then_swap cmp_none_last cmp_none_last cmp_none_last-IsOrder cmp_none_last-IsOrder f g l m

  cmp_same : (a b : ChainPosition A) → cmp anchor_cmp a b ≡ Ordering.eq → a ≡ b
  unfolding cmp
  cmp_same (confirmed a s) (confirmed b t) h =
      let (e, f) = or_then_same anchor_cmp cmp_none_last O cmp_none_last-IsOrder a b s t h in
      rw (e, f) refl
  cmp_same (confirmed a s) (unconfirmed f l) h = cc
  cmp_same (unconfirmed f l) (confirmed a s) h = cc
  cmp_same (unconfirmed f l) (unconfirmed g m) h =
      let (e, d) =
        or_then_same cmp_none_last cmp_none_last cmp_none_last-IsOrder cmp_none_last-IsOrder f g l m
          h in
      rw (e, d) refl

  cmp_trans :
      (a b c : ChainPosition A)
      → cmp anchor_cmp a b ≡ Ordering.lt
      → cmp anchor_cmp b c ≡ Ordering.lt
      → cmp anchor_cmp a c ≡ Ordering.lt
  unfolding cmp
  cmp_trans (confirmed a s) (confirmed b t) (confirmed c u) h k =
      or_then_trans anchor_cmp cmp_none_last O cmp_none_last-IsOrder a b c s t u h k
  cmp_trans (confirmed a s) b (unconfirmed f l) h k = refl
  cmp_trans (confirmed a s) (unconfirmed f l) (confirmed c u) h k = cc
  cmp_trans (unconfirmed f l) (confirmed b t) c h k = cc
  cmp_trans (unconfirmed f l) (unconfirmed g m) (confirmed c u) h k = cc
  cmp_trans (unconfirmed f l) (unconfirmed g m) (unconfirmed h n) i k =
      or_then_trans cmp_none_last cmp_none_last cmp_none_last-IsOrder cmp_none_last-IsOrder f g h l
        m n i k

  -- Where the anchors are ordered, the comparison of chain positions is an order: to swap its
  -- arguments reverses it, what it calls equal is equal, and less is transitive.
  pub cmp-IsOrder : IsOrder (cmp anchor_cmp)
  cmp-IsOrder = record { swap = cmp-swap; same = cmp_same; trans = cmp_trans }
