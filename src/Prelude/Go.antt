-- ===== src/Prelude/Go.antt =====
-- Go's outcomes as values: a call returns, or it panics.
use mathlib.Core.Path.{◌≡◌, refl}
use mathlib.Core.Option.{Option, none, some}

-- `out_of_bounds` is a panic that the code raises by `panic(…)` on a bad index, `bad_index` the one
-- that the runtime raises for a slice access, `nil_access` the one for a method on a nil interface.
pub data Panic : Type 0 where
  out_of_bounds bad_index nil_access write_protection bad_conversion too_many_indexed_args : Panic

pub data Exec {ℓ} (A : Type ℓ) : Type ℓ where
  ok : A → Exec A
  panics : Panic → Exec A

infixl 5 ◌>>=◌
abbrev pub ◌>>=◌ {ℓ κ} : {A : Type ℓ} {B : Type κ} → Exec A → (A → Exec B) → Exec B
ok a >>= f = f a
panics p >>= f = panics p

-- An access that the runtime checks.
abbrev pub checked {ℓ} : {A : Type ℓ} → Option A → Exec A
checked none = panics bad_index
checked (some a) = ok a

-- A run of two parts that returns is one of which both parts return.
pub >>=-eq-ok {ℓ κ} :
    {A : Type ℓ} {B : Type κ} (first : Exec A) (second : A → Exec B) {y : B}
    → first >>= second ≡ ok y
    → (x : A) × (first ≡ ok x) × (second x ≡ ok y)
>>=-eq-ok (panics p) second e = cc
>>=-eq-ok (ok x) second e = (x, refl, e)
