-- ===== src/FileStore/Bytes.antt =====
-- The bytes of a file of `crates/file_store/src/store.rs`, read and written at an offset.
use mathlib.Core.List.{append-nil}
use bdk.Prelude.{
  ℕ, zero, suc, ◌+◌, ◌-◌, ◌≡◌, refl, sym, ap, ◌∙◌, true, List, [], ◌∷◌, ◌++◌, length, take, drop,
  ◌==◌, ==_iff, arith, length-append, Bool-cases, inl, inr,
}
use bdk.FileStore.{File, zeros, write_all, bytes_eq}

module _ {A : Type 0} where
  pub drop-append : (xs ys : List A) → drop (length xs) (xs ++ ys) ≡ ys
  drop-append [] ys = refl
  drop-append (x ∷ xs) ys = drop-append xs ys

  pub take-append : (xs ys : List A) → take (length xs) (xs ++ ys) ≡ xs
  take-append [] ys = refl
  take-append (x ∷ xs) ys = ap (λ l. x ∷ l) (take-append xs ys)

  pub drop-nil : (n : ℕ) → ◌≡◌ {A = List A} (drop n []) []
  drop-nil zero = refl
  drop-nil (suc n) = refl

  pub drop_add : (m n : ℕ) (xs : List A) → drop (m + n) xs ≡ drop n (drop m xs)
  drop_add zero n xs = let reach : zero + n ≡ n = omega arith in ap (λ k. drop k xs) reach
  drop_add (suc m) n [] = drop-nil (suc m + n) ∙ sym (drop-nil n)
  drop_add (suc m) n (x ∷ xs) =
      let reach : suc m + n ≡ suc (m + n) = omega arith in
      ap (λ k. drop k (x ∷ xs)) reach ∙ drop_add m n xs

  pub length-drop : (n : ℕ) (xs : List A) → length (drop n xs) ≡ length xs - n
  length-drop zero xs = omega arith
  length-drop (suc n) [] = omega arith
  length-drop (suc n) (x ∷ xs) = omega (arith, length-drop n xs)

  pub take-drop : (n : ℕ) (xs : List A) → take n xs ++ drop n xs ≡ xs
  take-drop zero xs = refl
  take-drop (suc n) [] = refl
  take-drop (suc n) (x ∷ xs) = ap (λ l. x ∷ l) (take-drop n xs)

-- A write inside the file goes over what is there.
pub write_all_over :
    (buf front rest : List ℕ) (f : File)
    → f.bytes ≡ front ++ rest
    → f.pos ≡ length front
    → write_all buf f
      ≡ record { bytes = front ++ (buf ++ drop (length buf) rest); pos = length front + length buf }
unfolding write_all
write_all_over buf front rest f b p =
    let none_missing : length front - length (front ++ rest) ≡ zero =
      omega (arith, length-append front rest) in
    let before : take (length front) (front ++ rest)
          ++ zeros (length front - length (front ++ rest))
        ≡ front =
      ap (λ k. take (length front) (front ++ rest) ++ zeros k) none_missing
      ∙ append-nil (take (length front) (front ++ rest))
      ∙ take-append front rest in
    let after : drop (length front + length buf) (front ++ rest) ≡ drop (length buf) rest =
      drop_add (length front) (length buf) (front ++ rest)
      ∙ ap (drop (length buf)) (drop-append front rest) in
    rw (p, b, before, after) refl

-- A write at the end appends.
pub write_all_end :
    (buf front : List ℕ) (f : File)
    → f.bytes ≡ front
    → f.pos ≡ length front
    → write_all buf f ≡ record { bytes = front ++ buf; pos = length (front ++ buf) }
write_all_end buf front f b p =
    let written = write_all_over buf front [] f (b ∙ sym (append-nil front)) p in
    let whole : buf ++ drop (length buf) [] ≡ buf =
      ap (λ l. buf ++ l) (drop-nil (length buf)) ∙ append-nil buf in
    written ∙ (rw (whole, length-append front buf) refl)

pub bytes_eq-eq : (xs ys : List ℕ) → bytes_eq xs ys ≡ true → xs ≡ ys
bytes_eq-eq [] [] e = refl
bytes_eq-eq [] (y ∷ ys) e = absurd cc
bytes_eq-eq (x ∷ xs) [] e = absurd cc
bytes_eq-eq (x ∷ xs) (y ∷ ys) e = elim (Bool-cases (x == y)) [
  | inl s ↦ ap (λ l. x ∷ l) (bytes_eq-eq xs ys (rw s at e)) ∙ ap (λ b. b ∷ ys) ((==_iff x y).0 s)
  | inr d ↦ absurd (ground (arith, d, e))
]

pub bytes_eq_self : (xs : List ℕ) → bytes_eq xs xs ≡ true
bytes_eq_self [] = refl
bytes_eq_self (x ∷ xs) = rw ((==_iff x x).1 refl) (bytes_eq_self xs)
