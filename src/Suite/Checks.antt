-- ===== src/Suite/Checks.antt =====
-- What the tests are written with.
use sovereign_edge_tee_agent.Base.{
  ◌<◌, ◌≡◌, refl, arith, length, Bool, true, false, Option, none, some, List, [], ◌∷◌,
}
use sovereign_edge_tee_agent.Base.Fallible.{Fallible, ok, err}

-- `unwrap`
abbrev pub unwrap : {E A : Type 0} → Fallible E A → Option A
unwrap (ok a) = some a
unwrap (err e) = none

abbrev pub is_ok : {E A : Type 0} → Fallible E A → Bool
is_ok (ok a) = true
is_ok (err e) = false

abbrev pub is_empty : {A : Type 0} → List A → Bool
is_empty [] = true
is_empty (x ∷ xs) = false

pub is_empty-length : {A : Type 0} (xs : List A) → 0 < length xs → is_empty xs ≡ false
is_empty-length [] h = absurd (omega arith)
is_empty-length (x ∷ xs) h = refl
