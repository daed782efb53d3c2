-- ===== src/Core/Checkpoint/Range/Laws.antt =====
-- `CheckPoint::range` of `crates/core/src/checkpoint.rs` against a filter of the whole chain.
use bdk.Prelude.{
  ℕ, zero, suc, ◌-◌, ◌≤◌, ◌≡◌, refl, sym, ap, ◌∙◌, fun_ext, Bool, true, false, ◌&&◌, Option, none,
  some, List, [], ◌∷◌, arith, ltb, leb, ltb→lt, ltb→le, le→leb, le→ltb, lt→leb, head?, filter,
  take_while, Bool-cases, inl, inr,
}
use bdk.Core.Checkpoint.{CheckPoint, base, link, height, walk_to_floor, iter}
use bdk.Core.Checkpoint.Ancestor.{IsLinked}
use bdk.Core.Checkpoint.Floor.{floor, walk_to_floor-eq-floor}
use bdk.Core.Checkpoint.Range.{
  Bound, included, excluded, unbounded, is_at_or_above, is_at_or_below, range, range_start,
  range_from, floor_at,
}

-- A test that holds at a height holds above it.
IsUpward : (ℕ → Bool) → Type 0
IsUpward P = (h k : ℕ) → h ≤ k → P k ≡ false → P h ≡ false

is_at_or_above-IsUpward : (b : Bound) → IsUpward (is_at_or_above b)
unfolding IsUpward
is_at_or_above-IsUpward (included b) h k l e = ground arith
is_at_or_above-IsUpward (excluded b) h k l e = ground arith
is_at_or_above-IsUpward unbounded h k l e = cc

and_true : (b : Bool) → (b && true) ≡ b
and_true true = refl
and_true false = refl

and_false : (b : Bool) → (b && false) ≡ false
and_false true = refl
and_false false = refl

up_to_pred : (h b : ℕ) → leb h (suc b - 1) ≡ ltb h (suc b)
up_to_pred h b = ground arith

module _ {D : Type 0} where
  filter_none :
      (P : ℕ → Bool) (c : CheckPoint D)
      → IsUpward P
      → IsLinked c
      → P (height c) ≡ false
      → filter (λ cp. P (height cp)) (iter c) ≡ []
  unfolding iter IsUpward
  filter_none P (base b d) up w e = rw e
  filter_none P (link b d p s i) up w e =
      rw e (filter_none P p up w.3 (up (height p) b.height (omega arith) e))

  -- On heights that fall, to take while a test holds is to filter by it.
  take_while-eq-filter :
      (P : ℕ → Bool) (c : CheckPoint D)
      → IsUpward P
      → IsLinked c
      → take_while (λ cp. P (height cp)) (iter c) ≡ filter (λ cp. P (height cp)) (iter c)
  unfolding iter IsUpward
  take_while-eq-filter P (base b d) up w = refl
  take_while-eq-filter P (link b d p s i) up w = elim (Bool-cases (P b.height)) [
    | inl stays ↦ rw stays (ap (λ l. link b d p s i ∷ l) (take_while-eq-filter P p up w.3))
    | inr stops ↦
        rw stops (sym (filter_none P p up w.3 (up (height p) b.height (omega arith) stops)))
  ]

  -- Where the tip is at or below the upper end, that end filters nothing.
  filter_below :
      (P : ℕ → Bool) (c : CheckPoint D) (n : ℕ)
      → IsLinked c
      → height c ≤ n
      → filter (λ cp. P (height cp) && leb (height cp) n) (iter c)
        ≡ filter (λ cp. P (height cp)) (iter c)
  unfolding iter
  filter_below P (base b d) n w l = rw (le→leb b.height n l, and_true (P b.height))
  filter_below P (link b d p s i) n w l =
      rw (le→leb b.height n l, and_true (P b.height), filter_below P p n w.3 (omega arith))

  from_floor : (ℕ → Bool) → Option (CheckPoint D) → List (CheckPoint D)
  from_floor P none = []
  from_floor P (some f) = filter (λ cp. P (height cp)) (iter f)

  filter-floor :
      (P : ℕ → Bool) (c : CheckPoint D) (n : ℕ)
      → IsLinked c
      → from_floor P (floor c n) ≡ filter (λ cp. P (height cp) && leb (height cp) n) (iter c)
  unfolding iter floor from_floor
  filter-floor P (base b d) n w = elim (Bool-cases (ltb n b.height)) [
    | inl over ↦ rw (over, lt→leb b.height n (ltb→lt n b.height over), and_false (P b.height))
    | inr under ↦ rw under (sym (filter_below P (base b d) n w (ltb→le n b.height under)))
  ]
  filter-floor P (link b d p s i) n w = elim (Bool-cases (ltb n b.height)) [
    | inl over ↦
        rw (over, lt→leb b.height n (ltb→lt n b.height over), and_false (P b.height))
          (filter-floor P p n w.3)
    | inr under ↦ rw under (sym (filter_below P (link b d p s i) n w (ltb→le n b.height under)))
  ]

  range_from-floor :
      (c : CheckPoint D) (n : ℕ) (lower : Bound)
      → IsLinked c
      → range_from (floor c n) lower ≡ from_floor (is_at_or_above lower) (floor c n)
  unfolding floor range_from from_floor
  range_from-floor (base b d) n lower w = elim (Bool-cases (ltb n b.height)) [
    | inl over ↦ rw over
    | inr under ↦
        rw under
          (take_while-eq-filter (is_at_or_above lower) (base b d) (is_at_or_above-IsUpward lower) w)
  ]
  range_from-floor (link b d p s i) n lower w = elim (Bool-cases (ltb n b.height)) [
    | inl over ↦ rw over (range_from-floor p n lower w.3)
    | inr under ↦ rw under (
        take_while-eq-filter (is_at_or_above lower) (link b d p s i) (is_at_or_above-IsUpward lower)
          w)
  ]

  range_to :
      (c : CheckPoint D) (n : ℕ) (lower : Bound)
      → IsLinked c
      → range_from (walk_to_floor c n) lower
        ≡ filter (λ cp. is_at_or_above lower (height cp) && leb (height cp) n) (iter c)
  range_to c n lower w =
      ap (λ o. range_from o lower) (walk_to_floor-eq-floor c n w)
      ∙ range_from-floor c n lower w
      ∙ filter-floor (is_at_or_above lower) c n w

  filter_never :
      (P : ℕ → Bool) (l : List (CheckPoint D))
      → filter (λ cp. P (height cp) && ltb (height cp) 0) l ≡ []
  filter_never P [] = refl
  filter_never P (c ∷ l) =
      rw (le→ltb (height c) 0 (omega arith), and_false (P (height c))) (filter_never P l)

  -- On a linked chain, a range holds exactly the nodes whose heights lie within both bounds, from
  -- the top down.
  pub range-eq-filter :
      (c : CheckPoint D) (lower upper : Bound)
      → IsLinked c
      → range c lower upper
        ≡ filter
            (λ cp. is_at_or_above lower (height cp) && is_at_or_below upper (height cp))
            (iter c)
  unfolding range range_start range_from
  range-eq-filter c lower (included b) w = range_to c b lower w
  range-eq-filter c lower (excluded zero) w = sym (filter_never (is_at_or_above lower) (iter c))
  range-eq-filter c lower (excluded (suc b)) w = rw (le→ltb (suc b) 1 (omega arith)) (
      range_to c (suc b - 1) lower w
      ∙ ap
          (λ (f : ℕ → Bool).
            filter (λ cp. is_at_or_above lower (height cp) && f (height cp)) (iter c))
          (fun_ext (λ h. up_to_pred h b)))
  range-eq-filter c lower unbounded w =
      take_while-eq-filter (is_at_or_above lower) c (is_at_or_above-IsUpward lower) w
      ∙ ap (λ (f : ℕ → Bool). filter (λ cp. f (height cp)) (iter c))
          (fun_ext (λ h. sym (and_true (is_at_or_above lower h))))

  head_iter : (c : CheckPoint D) → head? (take_while (λ cp. true) (iter c)) ≡ some c
  unfolding iter
  head_iter (base b d) = refl
  head_iter (link b d p s i) = refl

  -- On a linked chain, `floor_at` gives the first node at or below the height that the walk by
  -- `prev` alone meets.
  pub floor_at-eq-floor : (c : CheckPoint D) (h : ℕ) → IsLinked c → floor_at c h ≡ floor c h
  unfolding floor_at range_start range_from
  floor_at-eq-floor c h w = rw (walk_to_floor-eq-floor c h w) (go (floor c h))
    where
      go : (o : Option (CheckPoint D)) → head? (range_from o unbounded) ≡ o
      go none = refl
      go (some f) = head_iter f
