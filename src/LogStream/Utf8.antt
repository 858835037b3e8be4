-- ===== src/LogStream/Utf8.antt =====
-- `utf8.RuneStart` and `utf8.FullRune` of the standard library, and well-formed UTF-8.
use mathlib.Core.List.{append-nil, append_assoc}
use plakar_edge.Base.{
  ℕ, ◌≤◌, ◌<◌, ◌≡◌, Bool, true, false, ◌&&◌, ◌||◌, [], ◌∷◌, ◌++◌, arith, Bytes, length, leb,
  if◌then◌else◌, ◌==◌,
}

abbrev within : ℕ → ℕ → ℕ → Bool
within lo hi c = leb lo c && leb c hi

-- A continuation byte, `c & 0xC0 == 0x80`.
abbrev pub is_continuation : ℕ → Bool
is_continuation = within 0x80 0xBF

-- `utf8.RuneStart` at the first byte; no byte stands at the end.
unfoldable pub rune_start : Bytes → Bool
rune_start [] = false
rune_start (c ∷ cs) = if is_continuation c then false else true

-- The range of the second byte after a leading byte.
abbrev pub accepts : ℕ → ℕ → Bool
accepts lead c =
    if lead == 0xE0
    then within 0xA0 0xBF c
    else if lead == 0xED
    then within 0x80 0x9F c
    else if lead == 0xF0
    then within 0x90 0xBF c
    else if lead == 0xF4
    then within 0x80 0x8F c
    else is_continuation c

-- The length that a leading byte announces; 1 for ASCII and for a byte that begins no rune.
abbrev pub rune_length : ℕ → ℕ
rune_length c =
    if within 0xC2 0xDF c
    then 2
    else if within 0xE0 0xEF c
    then 3
    else if within 0xF0 0xF4 c
    then 4
    else 1

-- Whether some byte after the leading one shows that the sequence is broken.
abbrev broken : ℕ → Bytes → Bool
broken lead [] = false
broken lead (c ∷ []) = if accepts lead c then false else true
broken lead (c ∷ d ∷ cs) =
    (if accepts lead c then false else true) || (if is_continuation d then false else true)

-- `utf8.FullRune`
unfoldable pub full_rune : Bytes → Bool
full_rune [] = false
full_rune (c ∷ cs) = leb (rune_length c) (length (c ∷ cs)) || broken c cs

-- One well-formed sequence (RFC 3629, the table of section 4).
pub data IsRune : Bytes → Type 0 where
  one : (c : ℕ) → c < 0x80 → IsRune (c ∷ [])
  two : (c d : ℕ) → rune_length c ≡ 2 → is_continuation d ≡ true → IsRune (c ∷ d ∷ [])
  three :
      (c d e : ℕ)
      → rune_length c ≡ 3
      → accepts c d ≡ true
      → is_continuation e ≡ true
      → IsRune (c ∷ d ∷ e ∷ [])
  four :
      (c d e f : ℕ)
      → rune_length c ≡ 4
      → accepts c d ≡ true
      → is_continuation e ≡ true
      → is_continuation f ≡ true
      → IsRune (c ∷ d ∷ e ∷ f ∷ [])

-- A text of whole sequences.
pub data Utf8 : Bytes → Type 0 where
  nil : Utf8 []
  cons : (r rest : Bytes) → IsRune r → Utf8 rest → {s : Bytes} → s ≡ r ++ rest → Utf8 s

pub Utf8-append : {s : Bytes} (t : Bytes) → Utf8 s → Utf8 t → Utf8 (s ++ t)
Utf8-append t nil u = u
Utf8-append t (cons r rest h v e) u =
    cons r (rest ++ t) h (Utf8-append t v u) (rw (e, append_assoc))

pub Utf8-rune : {r : Bytes} → IsRune r → Utf8 r
Utf8-rune {r} h = cons r [] h nil (rw append-nil)

pub accepts-is_continuation : (lead c : ℕ) → accepts lead c ≡ true → is_continuation c ≡ true
accepts-is_continuation lead c h = ground arith

-- No sequence begins with a continuation byte.
pub rune_length-rune_start :
    (c : ℕ) (rest : Bytes) → 2 ≤ rune_length c → rune_start (c ∷ rest) ≡ true
unfolding rune_start
rune_length-rune_start c rest h = ground arith
