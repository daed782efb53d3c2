-- ===== src/Mweb/CoinDb/Disconnect.antt =====
-- `disconnect_from` of `crates/mweb/src/coin_db.rs`, read at an output.
use bdk.Prelude.{
  ℕ, ◌≡◌, refl, ap, ◌∙◌, false, Option, none, some, [], ◌∷◌, map_option, or_else, ◌==◌, ==_iff,
  if◌then◌else◌, Bool-cases, inl, inr, All,
}
use bdk.Prelude.BtreeMap
use bdk.Prelude.BtreeMap.{BtreeMap, IsSorted, IsAbove}
use bdk.Mweb.CoinDb.{MwebCoin, disconnect, is_at_or_above, without_height, stage_cleared}
use bdk.Mweb.CoinDb.Merged.{read_coin}

-- Every coin of the map stands at its own id.
abbrev pub IsKeyed : BtreeMap MwebCoin → Type 0
IsKeyed m = All (λ (e : ℕ × MwebCoin). e.1.output_id ≡ e.0) m

-- What is staged for an output after a disconnection, from its coin and what was staged.
abbrev pub staged_after : ℕ → Option MwebCoin → Option MwebCoin → Option MwebCoin
staged_after height none staged = staged
staged_after height (some coin) staged =
    if is_at_or_above height coin then some (without_height height coin) else staged

pub get-disconnect :
    (id height : ℕ) (m staged : BtreeMap MwebCoin)
    → BtreeMap.get id (disconnect height m staged).0
      ≡ map_option (without_height height) (BtreeMap.get id m)
unfolding disconnect BtreeMap.get
get-disconnect id height [] staged = refl
get-disconnect id height ((k, c) ∷ m) staged =
    let next = stage_cleared height c staged in
    elim (Bool-cases (id == k)) [
      | inl e ↦ rw e refl
      | inr e ↦ rw e (get-disconnect id height m next)
    ]

pub get_staged-disconnect :
    (id height : ℕ) (m staged : BtreeMap MwebCoin)
    → IsSorted m
    → IsKeyed m
    → BtreeMap.get id (disconnect height m staged).1
      ≡ staged_after height (BtreeMap.get id m) (BtreeMap.get id staged)
unfolding disconnect BtreeMap.get
get_staged-disconnect id height [] staged s y = refl
get_staged-disconnect id height ((k, c) ∷ m) staged s y =
    let after = without_height height c in
    let put = BtreeMap.insert c.output_id after staged in
    let own : (id == c.output_id) ≡ (id == k) = ap (λ o. id == o) y.0 in
    elim (Bool-cases (id == k)) [
      | inl f ↦
          let absent : BtreeMap.get id m ≡ none =
            rw ((==_iff id k).0 f) (BtreeMap.get_self-IsAbove k m s.0) in
          elim (Bool-cases (is_at_or_above height c)) [
            | inl e ↦
                rw
                  (
                    e,
                    get_staged-disconnect id height m put s.1 y.1,
                    BtreeMap.get-insert id c.output_id after staged,
                    own,
                    absent,
                    f,
                    e,
                  )
                  refl
            | inr e ↦ rw (e, get_staged-disconnect id height m staged s.1 y.1, absent, f, e) refl
          ]
      | inr f ↦ elim (Bool-cases (is_at_or_above height c)) [
        | inl e ↦
            rw
              (
                e,
                get_staged-disconnect id height m put s.1 y.1,
                BtreeMap.get-insert id c.output_id after staged,
                own,
                f,
              )
              refl
        | inr e ↦ rw (e, get_staged-disconnect id height m staged s.1 y.1, f) refl
      ]
    ]

without_height_below :
    (height : ℕ) (coin : MwebCoin)
    → is_at_or_above height coin ≡ false
    → without_height height coin ≡ coin
unfolding without_height
without_height_below height coin e = rw e refl

-- A spent coin of the base has no unspent entry beside it.
abbrev pub IsApart : Option MwebCoin → Option MwebCoin → Type 0
IsApart none spent = Unit
IsApart (some coin) none = Unit
IsApart (some coin) (some spent) = ⊥

-- The height is cleared of a coin whether it is unspent or spent, and what is staged reads as it.
pub read_coin-disconnect :
    (height : ℕ) (bc bs sc ss : Option MwebCoin)
    → IsApart bc bs
    → map_option (without_height height) (read_coin bc bs sc ss)
      ≡ read_coin bc bs
          (staged_after height (read_coin bc bs sc ss) sc)
          (staged_after height (or_else ss bs) ss)
unfolding read_coin
read_coin-disconnect height bc bs sc (some s) a = elim (Bool-cases (is_at_or_above height s)) [
  | inl e ↦ rw e refl
  | inr e ↦ rw e refl
]
read_coin-disconnect height none (some b) sc none a = elim (Bool-cases (is_at_or_above height b)) [
  | inl e ↦ rw e refl
  | inr e ↦ rw e refl
]
read_coin-disconnect height (some c) (some b) sc none a = absurd a
read_coin-disconnect height bc none (some s) none a = elim (Bool-cases (is_at_or_above height s)) [
  | inl e ↦ rw e refl
  | inr e ↦ rw e (ap some (without_height_below height s e))
]
read_coin-disconnect height none none none none a = refl
read_coin-disconnect height (some c) none none none a =
    elim (Bool-cases (is_at_or_above height c)) [
      | inl e ↦ rw e refl
      | inr e ↦ rw e (ap some (without_height_below height c e))
    ]

pub read_spent-disconnect :
    (height : ℕ) (bs ss : Option MwebCoin)
    → map_option (without_height height) (or_else ss bs)
      ≡ or_else (staged_after height (or_else ss bs) ss) bs
read_spent-disconnect height none none = refl
read_spent-disconnect height (some b) none = elim (Bool-cases (is_at_or_above height b)) [
  | inl e ↦ rw e refl
  | inr e ↦ rw e (ap some (without_height_below height b e))
]
read_spent-disconnect height bs (some s) = elim (Bool-cases (is_at_or_above height s)) [
  | inl e ↦ rw e refl
  | inr e ↦ rw e (ap some (without_height_below height s e))
]

output_id-without_height :
    (height : ℕ) (coin : MwebCoin) → (without_height height coin).output_id ≡ coin.output_id
unfolding without_height
output_id-without_height height coin = elim (Bool-cases (is_at_or_above height coin)) [
  | inl e ↦ rw e refl
  | inr e ↦ rw e refl
]

-- A disconnection keeps the keys of the map, so its order and that every coin stands at its id.
disconnect-IsAbove :
    (height b : ℕ) (m staged : BtreeMap MwebCoin)
    → IsAbove b m
    → IsAbove b (disconnect height m staged).0
unfolding disconnect
disconnect-IsAbove height b [] staged a = a
disconnect-IsAbove height b ((k, c) ∷ m) staged a =
    (a.0, disconnect-IsAbove height b m (stage_cleared height c staged) a.1)

stage_cleared-IsSorted :
    (height : ℕ) (c : MwebCoin) (staged : BtreeMap MwebCoin)
    → IsSorted staged
    → IsSorted (stage_cleared height c staged)
stage_cleared-IsSorted height c staged t = elim (Bool-cases (is_at_or_above height c)) [
  | inl e ↦ rw e (BtreeMap.insert-IsSorted c.output_id (without_height height c) staged t)
  | inr e ↦ rw e t
]

pub disconnect-IsSorted :
    (height : ℕ) (m staged : BtreeMap MwebCoin)
    → IsSorted m
    → IsSorted staged
    → IsSorted (disconnect height m staged).0 × IsSorted (disconnect height m staged).1
unfolding disconnect
disconnect-IsSorted height [] staged s t = (s, t)
disconnect-IsSorted height ((k, c) ∷ m) staged s t =
    let next = stage_cleared height c staged in
    let rest = disconnect-IsSorted height m next s.1 (stage_cleared-IsSorted height c staged t) in
    ((disconnect-IsAbove height k m next s.0, rest.0), rest.1)

pub disconnect-IsKeyed :
    (height : ℕ) (m staged : BtreeMap MwebCoin) → IsKeyed m → IsKeyed (disconnect height m staged).0
unfolding disconnect
disconnect-IsKeyed height [] staged y = y
disconnect-IsKeyed height ((k, c) ∷ m) staged y = (
  output_id-without_height height c ∙ y.0,
  disconnect-IsKeyed height m (stage_cleared height c staged) y.1,
)
