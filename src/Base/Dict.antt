-- ===== src/Base/Dict.antt =====
-- `HashMap<String, V>` as an association list: an insert overwrites in place or appends.
use sovereign_edge_tee_agent.Base.Tests.{if◌then◌else◌}
use sovereign_edge_tee_agent.Base.Lists.{length}
use sovereign_edge_tee_agent.Base.Text.{Bytes, bytes_eq, bytes_eq_iff, bytes_eq_refl}
use Prim.Native.Nat.{◌+◌}
use mathlib.Core.Path.{◌≡◌, refl}
use mathlib.Core.List.{List, [], ◌∷◌}
use mathlib.Core.Option.{Option, none, some}
use native.Mathlib.Omega.{arith}

abbrev pub Dict {ℓ} : Type ℓ → Type ℓ
Dict V = List (Bytes × V)

module _ {ℓ} {V : Type ℓ} where
  -- `get`
  unfoldable pub lookup : Bytes → Dict V → Option V
  lookup key [] = none
  lookup key ((at, held) ∷ others) =
      let deeper = lookup key others in if bytes_eq at key then some held else deeper

  unfoldable pub insert : Bytes → V → Dict V → Dict V
  insert key value [] = (key, value) ∷ []
  insert key value ((at, held) ∷ others) =
      let deeper = insert key value others in
      if bytes_eq at key then (key, value) ∷ others else (at, held) ∷ deeper

  pub lookup-insert :
      (key j : Bytes) (value : V) (entries : Dict V)
      → lookup j (insert key value entries)
        ≡ (if bytes_eq key j then some value else lookup j entries)
  unfolding lookup insert
  lookup-insert key j value [] = refl
  lookup-insert key j value ((at, held) ∷ others) =
      let known = lookup-insert key j value others in
      ground (arith, known, bytes_eq_iff at key, bytes_eq_iff key j, bytes_eq_iff at j)

  pub lookup-insert_self :
      (key : Bytes) (value : V) (entries : Dict V)
      → lookup key (insert key value entries) ≡ some value
  lookup-insert_self key value entries = simp (lookup-insert, bytes_eq_refl)

  -- An insert adds an entry only under a new key.
  pub length-insert :
      (key : Bytes) (value : V) (entries : Dict V)
      → length (insert key value entries)
        ≡ elim (lookup key entries) [ none ↦ length entries + 1 | some _ ↦ length entries ]
  unfolding lookup insert
  length-insert key value [] = omega arith
  length-insert key value ((at, held) ∷ others) = ground (arith, length-insert key value others)
