-- ===== src/LogStream/Chunks.antt =====
-- What one call of `next` takes off the buffer.
pub mod Whole
use plakar_edge.Base.{
  ℕ, zero, suc, ◌+◌, ◌⊎◌, ◌≤◌, ◌<◌, ◌≡◌, ◌≢◌, refl, sym, ap, ◌∙◌, inl, inr, min, Bool, true, false,
  not, ◌&&◌, ◌||◌, [], ◌∷◌, ◌++◌, Option, none, some, arith, Bytes, length, length-take, take, drop,
  take_all, get_elem?, get_elem?-take, take-append-drop, contains_byte, ltb, ◌==◌, if◌then◌else◌,
  Option-cases, Bool-cases,
}
use plakar_edge.LogStream.{
  take_chunk, log_chunk_max, LogStreamer, last_index_byte, newline, rune_boundary, cut,
  truncation_notice, next,
}
use plakar_edge.LogStream.Boundary.{rune_boundary_bounds}

last_index_byte-none : (c : ℕ) (b : Bytes) → last_index_byte c b ≡ none → contains_byte c b ≡ false
unfolding last_index_byte contains_byte
last_index_byte-none c [] h = refl
last_index_byte-none c (x ∷ b) h = ground (arith, last_index_byte-none c b)

last_index_byte-some :
    (c : ℕ) (b : Bytes) (i : ℕ)
    → last_index_byte c b ≡ some i
    → (i < length b) × (get_elem? b i ≡ some c) × (contains_byte c (drop (suc i) b) ≡ false)
unfolding last_index_byte
last_index_byte-some c [] i h = cc
last_index_byte-some c (x ∷ b) zero h =
    let e : x ≡ c = ground arith in
    let l : last_index_byte c b ≡ none = ground arith in
    (omega arith, ap some e, last_index_byte-none c b l)
last_index_byte-some c (x ∷ b) (suc i) h =
    let ih = last_index_byte-some c b i (ground arith) in (omega arith, ih.1, ih.2)

abbrev pub limit : Bytes → ℕ
limit b = min (length b) log_chunk_max

-- The three ways in which a buffer that is not empty is cut, at `k`.
pub data Cut (final : Bool) (b : Bytes) (k : ℕ) : Type 0 where
  -- After the last line that ends within the limit.
  line :
      (i : ℕ)
      → k ≡ i + 1
      → get_elem? b i ≡ some newline
      → contains_byte newline (drop (suc i) (take (limit b) b)) ≡ false
      → (final ≡ false) ⊎ (log_chunk_max < length b)
      → Cut final b k
  -- Inside a line that is longer than a chunk.
  inside :
      log_chunk_max ≤ length b
      → contains_byte newline (take log_chunk_max b) ≡ false
      → (final ≡ false) ⊎ (log_chunk_max < length b)
      → k ≡ rune_boundary b log_chunk_max
      → Cut final b k
  -- All of it, at the end.
  whole : final ≡ true → k ≡ length b → Cut final b k

abbrev Cuts : Bool → Bytes → Option ℕ → Type 0
Cuts final b none = (final ≡ false) × (length b < log_chunk_max) × (contains_byte newline b ≡ false)
Cuts final b (some k) = Cut final b k × (0 < k) × (k ≤ log_chunk_max) × (k ≤ length b)

module _ (final : Bool) (b : Bytes) (h : 0 < length b) where
  line-Cuts :
      (i : ℕ)
      → last_index_byte newline (take (limit b) b) ≡ some i
      → (final ≡ false) ⊎ (log_chunk_max < length b)
      → Cuts final b (some (i + 1))
  line-Cuts i e more =
      let found = last_index_byte-some newline (take (limit b) b) i e in
      let below : i < limit b = omega (arith, found.0, length-take (limit b) b) in
      let ends = sym (get_elem?-take b (limit b) i below) ∙ found.1 in
      (line i refl ends found.2 more, omega arith, omega arith, omega arith)

  inside-Cuts :
      last_index_byte newline (take (limit b) b) ≡ none
      → ltb (limit b) log_chunk_max ≡ false
      → (final ≡ false) ⊎ (log_chunk_max < length b)
      → Cuts final b (some (rune_boundary b (limit b)))
  inside-Cuts e l more =
      let full : limit b ≡ log_chunk_max = ground arith in
      let bounds = rune_boundary_bounds b log_chunk_max (ground arith) in
      rw full (
        inside (ground arith) (rw full at (last_index_byte-none newline (take (limit b) b) e)) more
            refl,
        omega arith,
        omega arith,
        omega arith,
      )

  waits-Cuts :
      last_index_byte newline (take (limit b) b) ≡ none
      → ltb (limit b) log_chunk_max ≡ true
      → (not final || ltb (limit b) (length b)) ≡ true
      → Cuts final b none
  waits-Cuts e l t =
      let all : take (limit b) b ≡ b = take_all (limit b) b (ground arith) in
      (ground arith, ground arith, rw all at (last_index_byte-none newline (take (limit b) b) e))

  search-Cuts :
      (not final || ltb (limit b) (length b)) ≡ true → Cuts final b (cut final b (limit b))
  unfolding cut
  search-Cuts t = elim (Option-cases (last_index_byte newline (take (limit b) b))) [
    | inr (i, e) ↦ rw (t, e) (line-Cuts i e (ground arith))
    | inl e ↦ elim (Bool-cases (ltb (limit b) log_chunk_max)) [
      | inl l ↦ rw (t, e, l) (waits-Cuts e l t)
      | inr l ↦ rw (t, e, l) (inside-Cuts e l (ground arith))
    ]
  ]

  cut-Cuts : Cuts final b (cut final b (limit b))
  unfolding cut
  cut-Cuts = elim (Bool-cases (not final || ltb (limit b) (length b))) [
    | inl t ↦ search-Cuts t
    | inr t ↦ rw t (whole (ground arith) (ground arith), ground arith, ground arith, ground arith)
  ]

-- What `next` may answer for a streamer `s`, and the streamer that it leaves.
pub data Takes (final : Bool) (s : LogStreamer) : Option Bytes × LogStreamer → Type 0 where
  -- Nothing is left, or what is left waits for the end of its line.
  empty : s.buf ≡ [] → (final && s.truncated) ≡ false → Takes final s (none, s)
  waiting :
      final ≡ false
      → s.buf ≢ []
      → length s.buf < log_chunk_max
      → contains_byte newline s.buf ≡ false
      → Takes final s (none, s)
  -- The notice, once, when all has been taken.
  notice :
      final ≡ true
      → s.buf ≡ []
      → s.truncated ≡ true
      → Takes final s (some truncation_notice, record s { truncated = false })
  -- A chunk off the front.
  chunk :
      (c rest : Bytes)
      → s.buf ≡ c ++ rest
      → 0 < length c
      → length c ≤ log_chunk_max
      → Cut final s.buf (length c)
      → Takes final s (some c, record s { buf = rest })

chunk-Takes :
    (final : Bool) (s : LogStreamer) (k : ℕ)
    → Cuts final s.buf (some k)
    → Takes final s (some (take k s.buf), record s { buf = drop k s.buf })
chunk-Takes final s k (c, p, q, l) =
    let e : length (take k s.buf) ≡ k = omega (arith, length-take k s.buf) in
    chunk (take k s.buf) (drop k s.buf) (sym (take-append-drop k s.buf)) (omega arith) (omega arith)
      (rw e c)

next-Takes_nonempty :
    (final : Bool) (s : LogStreamer) (o : Option ℕ)
    → s.buf ≢ []
    → Cuts final s.buf o
    → Takes final s (take_chunk s o)
next-Takes_nonempty final s none ne (f, l, n) = waiting f ne l n
next-Takes_nonempty final s (some k) ne c = chunk-Takes final s k c

next-Takes_empty :
    (final : Bool) (s : LogStreamer) (t : Bool)
    → (final && s.truncated) ≡ t
    → s.buf ≡ []
    → Takes final s
        (if t then (some truncation_notice, record s { truncated = false }) else (none, s))
next-Takes_empty final s true e h = notice (ground arith) h (ground arith)
next-Takes_empty final s false e h = empty h e

-- `next` on every branch. Of an empty buffer it takes nothing, or, in the last flush, the notice if it is
-- due. Of one that is not empty it takes what ends with the last newline within the limit, if there is
-- one, and what is past the limit, or the flush is not the last; else, of a line that fills the limit,
-- what ends at a rune boundary; else all of it in the last flush, and nothing before. A chunk is neither
-- empty nor above the limit, and it is the front of the buffer, whose rest stays.
pub next-Takes : (final : Bool) (s : LogStreamer) → Takes final s (next final s)
unfolding next
next-Takes final s = elim (Bool-cases (length s.buf == 0)) [
  | inl e ↦ rw e (next-Takes_empty final s (final && s.truncated) refl (ground arith))
  | inr e ↦
      rw e (next-Takes_nonempty final s _ (ground arith) (cut-Cuts final s.buf (ground arith)))
]
