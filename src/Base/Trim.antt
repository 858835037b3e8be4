-- ===== src/Base/Trim.antt =====
-- `strings.TrimSpace` and `strings.Split` of the standard library, on the bytes of a Go string.
pub mod Laws
use mathlib.Core.List.{reverse}
use Prim.Native.Nat.{ℕ, zero, suc, ◌+◌}
use mathlib.Core.Bool.{Bool, true, false, ◌&&◌, ◌||◌}
use mathlib.Core.List.{List, [], ◌∷◌, ◌++◌}
use plakar_edge.Base.Tests.{leb, ◌==◌, if◌then◌else◌}
use plakar_edge.Base.Text.{Bytes}

abbrev within : ℕ → ℕ → ℕ → Bool
within lo hi c = leb lo c && leb c hi

-- `unicode.IsSpace`, by the length of the encoding: the tab to the carriage return and the space,
-- U+0085 and U+00A0, and U+1680, U+2000 to U+200A, U+2028, U+2029, U+202F, U+205F, U+3000.
abbrev pub is_space_1 : ℕ → Bool
is_space_1 c = within 9 13 c || c == b' '

abbrev pub is_space_2 : ℕ → ℕ → Bool
is_space_2 c d = c == 0xC2 && (d == 0x85 || d == 0xA0)

abbrev pub is_space_3 : ℕ → ℕ → ℕ → Bool
is_space_3 c d e =
    (c == 0xE1 && d == 0x9A && e == 0x80)
    || (c == 0xE2 && d == 0x80 && (within 0x80 0x8A e || e == 0xA8 || e == 0xA9 || e == 0xAF))
    || (c == 0xE2 && d == 0x81 && e == 0x9F)
    || (c == 0xE3 && d == 0x80 && e == 0x80)

-- The length of the space that a text begins with, or 0.
unfoldable pub leading_space : Bytes → ℕ
leading_space [] = 0
leading_space (c ∷ []) = if is_space_1 c then 1 else 0
leading_space (c ∷ d ∷ []) = if is_space_1 c then 1 else if is_space_2 c d then 2 else 0
leading_space (c ∷ d ∷ e ∷ s) =
    if is_space_1 c then 1 else if is_space_2 c d then 2 else if is_space_3 c d e then 3 else 0

-- The same for the text that ends, read backwards.
unfoldable pub trailing_space : Bytes → ℕ
trailing_space [] = 0
trailing_space (c ∷ []) = if is_space_1 c then 1 else 0
trailing_space (d ∷ c ∷ []) = if is_space_1 d then 1 else if is_space_2 c d then 2 else 0
trailing_space (e ∷ d ∷ c ∷ s) =
    if is_space_1 e then 1 else if is_space_2 d e then 2 else if is_space_3 c d e then 3 else 0

-- Cut spaces off the front; the first number counts the bytes of a space that are still to go.
unfoldable pub strip : (Bytes → ℕ) → ℕ → Bytes → Bytes
strip space k [] = []
strip space (suc k) (c ∷ s) = strip space k s
strip space zero (c ∷ s) = elim (space (c ∷ s)) [ zero ↦ c ∷ s | suc k ↦ strip space k s ]

unfoldable pub trim_space : Bytes → Bytes
unfolding strip leading_space trailing_space
trim_space s = reverse (strip trailing_space 0 (reverse (strip leading_space 0 s)))

-- `strings.Split(s, sep)` for a separator of one byte.
unfoldable pub split_onto : ℕ → Bytes → Bytes → List Bytes
split_onto sep word [] = reverse word ∷ []
split_onto sep word (c ∷ s) = elim (c == sep) [
  | true ↦ reverse word ∷ split_onto sep [] s
  | false ↦ split_onto sep (c ∷ word) s
]

unfoldable pub split : ℕ → Bytes → List Bytes
unfolding split_onto
split sep s = split_onto sep [] s
