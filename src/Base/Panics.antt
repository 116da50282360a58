-- ===== src/Base/Panics.antt =====
-- Chains of calls that may fail: `none` is the failure, of a panic or of a search.
use mathlib.Core.Option
use mathlib.Core.Path.{◌≡◌, refl}
use mathlib.Core.Option.{Option, none, some}

infixl 5 ◌>>=◌
abbrev pub ◌>>=◌ {ℓ κ} : {A : Type ℓ} {B : Type κ} → Option A → (A → Option B) → Option B
none >>= f = none
some a >>= f = f a

pub >>=-eq-some {ℓ κ} :
    {A : Type ℓ} {B : Type κ} (m : Option A) (f : A → Option B) {b : B}
    → (m >>= f) ≡ some b
    → (a : A) × (m ≡ some a) × (f a ≡ some b)
>>=-eq-some none f h = cc
>>=-eq-some (some a) f h = (a, refl, h)

-- `P` of the result, if there is one.
abbrev pub IfSome {ℓ κ} : {A : Type ℓ} → (A → Type κ) → Option A → Type κ
IfSome P none = Unit
IfSome P (some a) = P a

pub >>=-IfSome {ℓ κ μ ν} :
    {A : Type ℓ} {B : Type κ} (P : A → Type μ) (R : B → Type ν) (m : Option A) (f : A → Option B)
    → IfSome P m
    → ((a : A) → P a → IfSome R (f a))
    → IfSome R (m >>= f)
>>=-IfSome P R none f h k = tt
>>=-IfSome P R (some a) f h k = k a h

pub map-IfSome {ℓ κ μ ν} :
    {A : Type ℓ} {B : Type κ} (P : A → Type μ) (R : B → Type ν) (m : Option A) (f : A → B)
    → IfSome P m
    → ((a : A) → P a → R (f a))
    → IfSome R (Option.map f m)
map-IfSome P R none f h k = tt
map-IfSome P R (some a) f h k = k a h

-- The first result, as the early returns give it.
abbrev pub or_else {ℓ} : {A : Type ℓ} → Option A → Option A → Option A
or_else none r = r
or_else (some x) r = some x

pub or_else-IfSome {ℓ κ} :
    {A : Type ℓ} (P : A → Type κ) (r s : Option A)
    → IfSome P r
    → IfSome P s
    → IfSome P (or_else r s)
or_else-IfSome P none s h k = k
or_else-IfSome P (some a) s h k = h

pub >>=-IfSome_all {ℓ κ ν} :
    {A : Type ℓ} {B : Type κ} (R : B → Type ν) (m : Option A) (f : A → Option B)
    → ((a : A) → IfSome R (f a))
    → IfSome R (m >>= f)
>>=-IfSome_all R none f k = tt
>>=-IfSome_all R (some a) f k = k a
