-- ===== src/Mweb/Leafset/Bits.antt =====
-- The list of set bits against the test of one bit.
use bdk.Prelude.{
  get_elem?, some, none, ℕ, zero, suc, ◌+◌, ◌*◌, ◌-◌, ◌/◌, ◌%◌, ◌<◌, ◌≡◌, refl, ap, ◌∙◌, inl, inr,
  Bool, true, false, ◌&&◌, ◌||◌, List, [], ◌∷◌, ◌++◌, ◌==◌, ltb, leb, arith, Bool-cases,
  if◌then◌else◌,
}
use bdk.Mweb.Leafset.{
  MwebLeafset, bit_is_set, bitset_test, byte_indices, indices_from, unspent_leaf_indices,
}

-- Whether an index stands in a list.
pub contains : List ℕ → ℕ → Bool
contains [] i = false
contains (j ∷ js) i = (j == i) || contains js i

contains-append :
    (xs ys : List ℕ) (i : ℕ) → contains (xs ++ ys) i ≡ (contains xs i || contains ys i)
unfolding contains
contains-append [] ys i = refl
contains-append (x ∷ xs) ys i = elim (Bool-cases (x == i)) [
  | inl here ↦ rw here refl
  | inr there ↦ rw there (contains-append xs ys i)
]

contains-put :
    (b : Bool) (x : ℕ) (l : List ℕ) (i : ℕ)
    → contains (if b then x ∷ l else l) i ≡ ((b && (x == i)) || contains l i)
unfolding contains
contains-put true x l i = refl
contains-put false x l i = refl

-- The bits of one byte below, at and above the bit `bit`.
bits_step :
    (s : ℕ → Bool) (n bit left i : ℕ)
    → ((s bit && ((n + bit) == i))
        || ((leb (n + (bit + 1)) i && ltb i (n + (bit + 1) + left)) && s (i - n)))
      ≡ ((leb (n + bit) i && ltb i (n + bit + suc left)) && s (i - n))
bits_step s n bit left i = elim (Bool-cases ((n + bit) == i)) [
  | inl here ↦ let same : i - n ≡ bit = ground arith in rw (here, same) (ground arith)
  | inr there ↦ ground arith
]

contains-byte_indices :
    (byte_i byte bit left i : ℕ)
    → contains (byte_indices byte_i byte bit left) i ≡ (
        (leb (byte_i * 8 + bit) i && ltb i (byte_i * 8 + bit + left))
        && bit_is_set byte (i - byte_i * 8))
unfolding byte_indices contains
contains-byte_indices byte_i byte bit zero i = ground arith
contains-byte_indices byte_i byte bit (suc left) i =
    contains-put (bit_is_set byte bit) (byte_i * 8 + bit) (byte_indices byte_i byte (bit + 1) left)
      i
    ∙ ap (λ c. (bit_is_set byte bit && ((byte_i * 8 + bit) == i)) || c)
        (contains-byte_indices byte_i byte (bit + 1) left i)
    ∙ bits_step (bit_is_set byte) (byte_i * 8) bit left i

bitset_test_low :
    (byte : ℕ) (bytes : List ℕ) (k : ℕ) → k < 8 → bitset_test (byte ∷ bytes) k ≡ bit_is_set byte k
unfolding bitset_test
bitset_test_low byte bytes k l =
    let first : k / 8 ≡ 0 = omega arith in
    let same : k % 8 ≡ k = omega arith in rw (first, same, bitset_test) refl

abbrev bit_in : List ℕ → ℕ → ℕ → Bool
bit_in bytes byte_i bit = elim (get_elem? bytes byte_i) [ some b ↦ bit_is_set b bit | none ↦ false ]

bitset_test_high :
    (byte : ℕ) (bytes : List ℕ) (k j : ℕ)
    → k ≡ j + 8
    → bitset_test (byte ∷ bytes) k ≡ bitset_test bytes j
unfolding bitset_test
bitset_test_high byte bytes k j e =
    let further : k / 8 ≡ suc (j / 8) = omega arith in
    let same : k % 8 ≡ j % 8 = omega arith in
    ap (λ q. bit_in (byte ∷ bytes) q (k % 8)) further ∙ ap (bit_in bytes (j / 8)) same

-- The first byte holds the bits below 8, the bytes behind it the bits from 8 on.
bitset_test-cons :
    (byte : ℕ) (bytes : List ℕ) (n i : ℕ)
    → (((leb (n + 0) i && ltb i (n + 0 + 8)) && bit_is_set byte (i - n))
        || (leb (n + 8) i && bitset_test bytes (i - (n + 8))))
      ≡ (leb n i && bitset_test (byte ∷ bytes) (i - n))
bitset_test-cons byte bytes n i = elim (Bool-cases (ltb i (n + 8))) [
  | inl low ↦ elim (Bool-cases (leb n i)) [
    | inl within ↦ ground (arith, bitset_test_low byte bytes (i - n) (ground arith))
    | inr below ↦ ground arith
  ]
  | inr high ↦
      let behind : bitset_test (byte ∷ bytes) (i - n) ≡ bitset_test bytes (i - (n + 8)) =
        bitset_test_high byte bytes (i - n) (i - (n + 8)) (ground arith) in
      rw behind (ground arith)
]

contains-indices_from :
    (byte_i : ℕ) (bytes : List ℕ) (i : ℕ)
    → contains (indices_from byte_i bytes) i
      ≡ (leb (byte_i * 8) i && bitset_test bytes (i - byte_i * 8))
unfolding indices_from bitset_test contains
contains-indices_from byte_i [] i = ground arith
contains-indices_from byte_i (byte ∷ bytes) i =
    contains-append (byte_indices byte_i byte 0 8) (indices_from (byte_i + 1) bytes) i
    ∙ ap (λ c. c || contains (indices_from (byte_i + 1) bytes) i)
        (contains-byte_indices byte_i byte 0 8 i)
    ∙ ap
        (λ c.
          ((leb (byte_i * 8 + 0) i && ltb i (byte_i * 8 + 0 + 8))
            && bit_is_set byte (i - byte_i * 8))
          || c)
        (contains-indices_from (byte_i + 1) bytes i
          ∙ ap (λ m. leb m i && bitset_test bytes (i - m)) (omega arith))
    ∙ bitset_test-cons byte bytes (byte_i * 8) i

-- The listed indices of a leafset are those of the bits that `bitset_test` finds set.
pub contains-unspent_leaf_indices :
    (ls : MwebLeafset) (i : ℕ) → contains (unspent_leaf_indices ls) i ≡ bitset_test ls.leafset i
unfolding unspent_leaf_indices
contains-unspent_leaf_indices ls i = contains-indices_from 0 ls.leafset i ∙ ground arith
