-- ===== src/LogStream/Chunks/Whole.antt =====
-- The chunks of `next`, when the log is well-formed UTF-8.
use plakar_edge.Base.{
  ℕ, zero, suc, ◌+◌, ◌-◌, ◌<◌, ◌≡◌, refl, sym, ap, ◌∙◌, [], ◌∷◌, some, arith, Bytes, length, take,
  drop, take-before, get_elem?, get_elem?-drop, get_elem?-append_left, get_elem?_lt, All, take_all,
  drop_all, take-length, drop-length, Option, none, Bool,
}
use plakar_edge.LogStream.{log_chunk_max, LogStreamer, newline, next, truncation_notice}
use plakar_edge.LogStream.Boundary.{Around, Utf8-Around, rune_boundary-Utf8}
use plakar_edge.LogStream.Chunks.{
  Cut, line, inside, whole, Takes, empty, waiting, notice, chunk, next-Takes,
}
use plakar_edge.LogStream.Utf8.{
  IsRune, one, two, three, four, Utf8, nil, cons, Utf8-append, Utf8-rune,
}

-- A newline is never part of a longer sequence.
IsRune-newline : {r : Bytes} (j : ℕ) → IsRune r → get_elem? r j ≡ some newline → length r ≡ 1
IsRune-newline j (one c h) e = refl
IsRune-newline zero (two c d h i) e = ground arith
IsRune-newline (suc zero) (two c d h i) e = ground arith
IsRune-newline (suc (suc j)) (two c d h i) e = cc
IsRune-newline zero (three c d f h i k) e = ground arith
IsRune-newline (suc zero) (three c d f h i k) e = ground arith
IsRune-newline (suc (suc zero)) (three c d f h i k) e = ground arith
IsRune-newline (suc (suc (suc j))) (three c d f h i k) e = cc
IsRune-newline zero (four c d f g h i k l) e = ground arith
IsRune-newline (suc zero) (four c d f g h i k l) e = ground arith
IsRune-newline (suc (suc zero)) (four c d f g h i k l) e = ground arith
IsRune-newline (suc (suc (suc zero))) (four c d f g h i k l) e = ground arith
IsRune-newline (suc (suc (suc (suc j)))) (four c d f g h i k l) e = cc

Around-newline :
    {b : Bytes} {n : ℕ} (i : ℕ) (a : Around b n)
    → n ≡ i + 1
    → get_elem? b i ≡ some newline
    → a.offset ≡ length a.rune
Around-newline {b} i a p e =
    let j = a.offset - 1 in
    let s : a.start + j ≡ i = omega (arith, a.position, a.offset_pos) in
    let here : get_elem? a.rune j ≡ some newline =
      sym (get_elem?-append_left a.rune a.rest j (omega (arith, a.offset_pos, a.offset_le)))
      ∙ ap (λ t. get_elem? t j) (sym a.at_start)
      ∙ sym (get_elem?-drop b a.start j)
      ∙ ap (get_elem? b) s
      ∙ e in
    omega (arith, IsRune-newline j a.is_rune here, a.offset_pos, a.offset_le)

-- A cut after a newline.
cut-newline :
    {b : Bytes} (i k : ℕ)
    → k ≡ i + 1
    → Utf8 b
    → get_elem? b i ≡ some newline
    → Utf8 (take k b) × Utf8 (drop k b)
cut-newline {b} i k p u e =
    let a = Utf8-Around k u (omega arith) (omega (arith, get_elem?_lt b i e)) in
    let l = Around-newline i a p e in
    let cut = take-before a.start a.offset b a.rune a.rest a.at_start l a.start_le in
    rw a.position (rw cut.0 (Utf8-append _ a.before (Utf8-rune a.is_rune)), rw cut.1 a.after)

Cut-Utf8 :
    {final : Bool} {b : Bytes} {k : ℕ} → Utf8 b → Cut final b k → Utf8 (take k b) × Utf8 (drop k b)
Cut-Utf8 u (line i p e n m) = cut-newline i _ p u e
Cut-Utf8 {b = b} u (inside h n m e) = rw e (rune_boundary-Utf8 b log_chunk_max u (omega arith) h)
Cut-Utf8 {b = b} u (whole f e) =
    rw (e, take_all (length b) b (omega arith), drop_all (length b) b (omega arith)) (u, nil)

-- The parts of the log on the two sides of a chunk.
abbrev pub IsWhole : Option Bytes × LogStreamer → Type 0
IsWhole (none, s) = Utf8 s.buf
IsWhole (some c, s) = Utf8 c × Utf8 s.buf

Utf8-ascii : (s : Bytes) → All (λ c. c < 0x80) s → Utf8 s
Utf8-ascii [] h = nil
Utf8-ascii (c ∷ s) h = cons (c ∷ []) s (one c h.0) (Utf8-ascii s h.1) refl

Takes-IsWhole :
    {final : Bool} {s : LogStreamer} {r : Option Bytes × LogStreamer}
    → Takes final s r
    → Utf8 s.buf
    → IsWhole r
Takes-IsWhole (empty e t) u = u
Takes-IsWhole (waiting f n l w) u = u
Takes-IsWhole (notice f e t) u = (Utf8-ascii truncation_notice (omega arith), u)
Takes-IsWhole (chunk c rest e p q h) u =
    rw (e, take-length c rest, drop-length c rest) at (Cut-Utf8 u h)

-- Of a log that is well-formed UTF-8, `next` takes a chunk that is well-formed, and leaves a rest
-- that is.
pub next-IsWhole : (final : Bool) (s : LogStreamer) → Utf8 s.buf → IsWhole (next final s)
next-IsWhole final s u = Takes-IsWhole (next-Takes final s) u
