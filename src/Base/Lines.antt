-- ===== src/Base/Lines.antt =====
-- What the source uses of `str` on whole files: `lines`, `split`, `starts_with` and `contains` of a
-- character. 10 is the line feed, 13 the carriage return.
use sovereign_edge_tee_agent.Base.Tests.{◌==◌, if◌then◌else◌}
use sovereign_edge_tee_agent.Base.Text.{Bytes}
use sovereign_edge_tee_agent.Base.Utf8.{strip_prefix}
use Prim.Native.Nat.{ℕ}
use mathlib.Core.Path.{◌≡◌, refl}
use mathlib.Core.Bool.{Bool, true, false, ◌||◌}
use mathlib.Core.List.{List, [], ◌∷◌}
use mathlib.Core.Option.{Option, none, some}

-- The byte goes in front of the first piece.
push_front : ℕ → List Bytes → List Bytes
push_front c [] = (c ∷ []) ∷ []
push_front c (piece ∷ pieces) = (c ∷ piece) ∷ pieces

-- `split` at one byte: one piece more than there are separators.
unfoldable pub split : ℕ → Bytes → List Bytes
unfolding push_front
split sep [] = [] ∷ []
split sep (c ∷ s) =
    let pieces = split sep s in if c == sep then [] ∷ pieces else push_front c pieces

drop_return : Bytes → Bytes
drop_return [] = []
drop_return (c ∷ []) = if c == 13 then [] else c ∷ []
drop_return (c ∷ d ∷ s) = c ∷ drop_return (d ∷ s)

-- A piece that a line feed ends loses its carriage return; what follows the last line feed is a line
-- as it is, or no line if it is empty.
as_lines : List Bytes → List Bytes
unfolding drop_return
as_lines [] = []
as_lines ([] ∷ []) = []
as_lines ((c ∷ s) ∷ []) = (c ∷ s) ∷ []
as_lines (piece ∷ next ∷ pieces) = drop_return piece ∷ as_lines (next ∷ pieces)

-- `lines`
unfoldable pub lines : Bytes → List Bytes
unfolding as_lines split
lines s = as_lines (split 10 s)

abbrev is_some : Option Bytes → Bool
is_some none = false
is_some (some s) = true

unfoldable pub starts_with : Bytes → Bytes → Bool
starts_with prefix s = is_some (strip_prefix prefix s)

-- `contains` of an ASCII character
unfoldable pub contains : ℕ → Bytes → Bool
contains c [] = false
contains c (d ∷ s) = d == c || contains c s

samples :
    (lines (65 ∷ 13 ∷ 10 ∷ 10 ∷ 66 ∷ 13 ∷ []) ≡ (65 ∷ []) ∷ [] ∷ (66 ∷ 13 ∷ []) ∷ [])
    × (lines [] ≡ [])
    × (lines (65 ∷ 10 ∷ []) ≡ (65 ∷ []) ∷ [])
    × (split 44 (49 ∷ 44 ∷ 44 ∷ []) ≡ (49 ∷ []) ∷ [] ∷ [] ∷ [])
unfolding lines split
samples = (refl, refl, refl, refl)
