-- ===== src/Base/Utf8.antt =====
-- What the source uses of Rust's string library, on bytes: decimal printing, `str::trim` and
-- `String::from_utf8_lossy`.
use sovereign_edge_tee_agent.Base.Tests.{ltb, leb, ◌==◌, if◌then◌else◌}
use sovereign_edge_tee_agent.Base.Lists.{length}
use sovereign_edge_tee_agent.Base.Text.{Bytes}
use Prim.Native.Nat.{ℕ, zero, suc, ◌+◌, ◌/◌, ◌%◌, ◌<◌}
use mathlib.Core.Path.{◌≡◌, refl}
use mathlib.Core.Bool.{Bool, ◌&&◌}
use mathlib.Core.List.{List, [], ◌∷◌, ◌++◌, map, reverse}
use mathlib.Core.Option.{Option, none, some}
use native.Mathlib.Omega.{arith}

-- The digits of `n` in front of `acc`; the first argument bounds their number.
unfoldable pub decimal_onto : ℕ → ℕ → Bytes → Bytes
decimal_onto zero n acc = acc
decimal_onto (suc fuel) n acc =
    let rest = decimal_onto fuel (n / 10) ((n % 10 + 48) ∷ acc) in
    if ltb n 10 then (n + 48) ∷ acc else rest

-- `{}` of a `u64` or a `usize`, which have at most 20 digits.
unfoldable pub decimal : ℕ → Bytes
unfolding decimal_onto
decimal n = decimal_onto 20 n []

-- `strip_prefix`
unfoldable pub strip_prefix : Bytes → Bytes → Option Bytes
strip_prefix [] s = some s
strip_prefix (p ∷ ps) [] = none
strip_prefix (p ∷ ps) (c ∷ s) = if p == c then strip_prefix ps s else none

-- The UTF-8 forms of the characters with the property White_Space.
abbrev spaces : List Bytes
spaces =
    map (λ c. c ∷ []) (9 ∷ 10 ∷ 11 ∷ 12 ∷ 13 ∷ 32 ∷ [])
    ++ (map (λ c. 0xc2 ∷ c ∷ []) (0x85 ∷ 0xa0 ∷ [])
        ++ ((0xe1 ∷ 0x9a ∷ 0x80 ∷ [])
            ∷ (map (λ c. 0xe2 ∷ 0x80 ∷ c ∷ [])
                  (0x80 ∷ 0x81 ∷ 0x82 ∷ 0x83 ∷ 0x84 ∷ 0x85 ∷ 0x86 ∷ 0x87 ∷ 0x88 ∷ 0x89 ∷ 0x8a ∷ 0xa8
                    ∷ 0xa9 ∷ 0xaf ∷ [])
                ++ ((0xe2 ∷ 0x81 ∷ 0x9f ∷ []) ∷ (0xe3 ∷ 0x80 ∷ 0x80 ∷ []) ∷ []))))

strip_any : List Bytes → Bytes → Option Bytes
unfolding strip_prefix
strip_any [] s = none
strip_any (p ∷ ps) s =
    let rest = strip_any ps s in elim (strip_prefix p s) [ some t ↦ some t | none ↦ rest ]

strip_all : ℕ → List Bytes → Bytes → Bytes
unfolding strip_any
strip_all zero ps s = s
strip_all (suc fuel) ps s = elim (strip_any ps s) [ none ↦ s | some t ↦ strip_all fuel ps t ]

-- `str::trim`: a string of n bytes starts and ends with at most n white-space characters.
unfoldable pub trim : Bytes → Bytes
unfolding strip_all
trim s =
    let t = strip_all (length s) spaces s in
    reverse (strip_all (length t) (map reverse spaces) (reverse t))

abbrev within : ℕ → ℕ → ℕ → Bool
within lo hi c = leb lo c && leb c hi

abbrev is_continuation : ℕ → Bool
is_continuation c = within 0x80 0xbf c

-- The second byte that may follow a lead byte of three or four.
abbrev is_second : ℕ → ℕ → Bool
is_second b c =
    if b == 0xe0
    then within 0xa0 0xbf c
    else if b == 0xed
    then within 0x80 0x9f c
    else if b == 0xf0
    then within 0x90 0xbf c
    else if b == 0xf4
    then within 0x80 0x8f c
    else is_continuation c

-- U+FFFD
abbrev replacement : Bytes
replacement = 0xef ∷ 0xbf ∷ 0xbd ∷ []

-- The next character and the bytes behind it; a maximal broken piece becomes one U+FFFD.
next_two : ℕ → Bytes → Bytes × Bytes
next_two b [] = (replacement, [])
next_two b (c ∷ r) = if is_continuation c then (b ∷ c ∷ [], r) else (replacement, c ∷ r)

next_three : ℕ → Bytes → Bytes × Bytes
next_three b [] = (replacement, [])
next_three b (c ∷ []) = if is_second b c then (replacement, []) else (replacement, c ∷ [])
next_three b (c ∷ d ∷ r) =
    if is_second b c
    then if is_continuation d then (b ∷ c ∷ d ∷ [], r) else (replacement, d ∷ r)
    else (replacement, c ∷ d ∷ r)

next_four : ℕ → Bytes → Bytes × Bytes
next_four b [] = (replacement, [])
next_four b (c ∷ []) = if is_second b c then (replacement, []) else (replacement, c ∷ [])
next_four b (c ∷ d ∷ []) =
    if is_second b c
    then if is_continuation d then (replacement, []) else (replacement, d ∷ [])
    else (replacement, c ∷ d ∷ [])
next_four b (c ∷ d ∷ e ∷ r) =
    if is_second b c
    then if is_continuation d
      then if is_continuation e then (b ∷ c ∷ d ∷ e ∷ [], r) else (replacement, e ∷ r)
      else (replacement, d ∷ e ∷ r)
    else (replacement, c ∷ d ∷ e ∷ r)

next_char : ℕ → Bytes → Bytes × Bytes
unfolding next_two next_three next_four
next_char b r =
    if ltb b 0x80
    then (b ∷ [], r)
    else if within 0xc2 0xdf b
    then next_two b r
    else if within 0xe0 0xef b
    then next_three b r
    else if within 0xf0 0xf4 b
    then next_four b r
    else (replacement, r)

lossy : ℕ → Bytes → Bytes
unfolding next_char
lossy zero s = []
lossy (suc fuel) [] = []
lossy (suc fuel) (b ∷ r) = let (c, rest) = next_char b r in c ++ lossy fuel rest

-- `String::from_utf8_lossy`: each character takes a byte at least.
unfoldable pub from_utf8_lossy : Bytes → Bytes
unfolding lossy
from_utf8_lossy s = lossy (length s) s

abbrev pub IsAscii : Bytes → Type 0
IsAscii [] = Unit {0}
IsAscii (c ∷ s) = (c < 128) × IsAscii s

-- ASCII is passed on as it is.
pub from_utf8_lossy-IsAscii : (s : Bytes) → IsAscii s → from_utf8_lossy s ≡ s
unfolding from_utf8_lossy
from_utf8_lossy-IsAscii [] h = refl
from_utf8_lossy-IsAscii (c ∷ s) h = ground (arith, from_utf8_lossy-IsAscii s h.1)

samples :
    (decimal 1209 ≡ 49 ∷ 50 ∷ 48 ∷ 57 ∷ [])
    × (trim (32 ∷ 0xc2 ∷ 0xa0 ∷ 65 ∷ 32 ∷ 66 ∷ 10 ∷ []) ≡ 65 ∷ 32 ∷ 66 ∷ [])
    × (from_utf8_lossy (65 ∷ 0xe2 ∷ 0x82 ∷ 0xac ∷ 0xe2 ∷ 0x82 ∷ 66 ∷ 0xff ∷ [])
        ≡ 65 ∷ 0xe2 ∷ 0x82 ∷ 0xac ∷ 0xef ∷ 0xbf ∷ 0xbd ∷ 66 ∷ 0xef ∷ 0xbf ∷ 0xbd ∷ [])
unfolding decimal trim from_utf8_lossy
samples = (refl, refl, refl)
