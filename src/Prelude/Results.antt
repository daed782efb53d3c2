-- ===== src/Prelude/Results.antt =====
-- `Result` and the combinators of `Option` and `Result` that the program uses.
use mathlib.Core.Path.{◌≡◌, refl}
use mathlib.Core.Option.{Option, none, some}

pub data Result {ℓ κ} (A : Type ℓ) (E : Type κ) : Type (ℓ ⊔ κ) where
  ok : A → Result A E
  err : E → Result A E

abbrev pub map_err {ℓ κ μ} :
    {A : Type ℓ} {E : Type κ} {F : Type μ} → (E → F) → Result A E → Result A F
map_err f (ok a) = ok a
map_err f (err e) = err (f e)

abbrev pub map_ok {ℓ κ μ} :
    {A : Type ℓ} {B : Type κ} {E : Type μ} → (A → B) → Result A E → Result B E
map_ok f (ok a) = ok (f a)
map_ok f (err e) = err e

abbrev pub or_else {ℓ} : {A : Type ℓ} → Option A → Option A → Option A
or_else none b = b
or_else (some a) b = some a

abbrev pub map_option {ℓ κ} : {A : Type ℓ} {B : Type κ} → (A → B) → Option A → Option B
map_option f none = none
map_option f (some a) = some (f a)

abbrev pub and_then {ℓ κ} : {A : Type ℓ} {B : Type κ} → Option A → (A → Option B) → Option B
and_then none f = none
and_then (some a) f = f a

pub ok-injective {ℓ κ} :
    {A : Type ℓ} {E : Type κ} {a b : A} → ◌≡◌ {A = Result A E} (ok a) (ok b) → a ≡ b
ok-injective h = cc

pub some-injective {ℓ} : {A : Type ℓ} {a b : A} → some a ≡ some b → a ≡ b
some-injective h = cc

pub map_option-some {ℓ κ} :
    {A : Type ℓ} {B : Type κ} (f : A → B) (o : Option A) (b : B)
    → map_option f o ≡ some b
    → (a : A) × ((o ≡ some a) × (f a ≡ b))
map_option-some f none b h = cc
map_option-some f (some a) b h = (a, (refl, some-injective h))

pub and_then-some {ℓ κ} :
    {A : Type ℓ} {B : Type κ} (o : Option A) (f : A → Option B) (b : B)
    → and_then o f ≡ some b
    → (a : A) × ((o ≡ some a) × (f a ≡ some b))
and_then-some none f b h = cc
and_then-some (some a) f b h = (a, (refl, h))
