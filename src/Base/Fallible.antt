-- ===== src/Base/Fallible.antt =====
-- `std::result::Result`, over the error type of a crate: what `?` does is `>>=`, and `ok_or` is `or_fail`.
use mathlib.Core.Option.{Option, none, some}
use mathlib.Core.Path.{◌≡◌, refl}
use mathlib.Core.Logic.{◌⊎◌, inl, inr}

pub data Fallible (Error A : Type 0) : Type 0 where
  ok : A → Fallible Error A
  err : Error → Fallible Error A

infixl 5 ◌>>=◌
abbrev pub ◌>>=◌ :
    {Error A B : Type 0} → Fallible Error A → (A → Fallible Error B) → Fallible Error B
ok value >>= next = next value
err reason >>= next = err reason

abbrev pub or_fail : {Error A : Type 0} → Option A → Error → Fallible Error A
or_fail none reason = err reason
or_fail (some value) reason = ok value

-- To split on a computed result and keep the equation.
pub Fallible-cases :
    {Error A : Type 0} (r : Fallible Error A) → ((a : A) × (r ≡ ok a)) ⊎ ((e : Error) × (r ≡ err e))
Fallible-cases (ok a) = inl (a, refl)
Fallible-cases (err e) = inr (e, refl)
