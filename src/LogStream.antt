-- ===== src/LogStream.antt =====
-- logstream.go: `logStreamer`, the job's output log, buffered and shipped in chunks.
-- The mutex makes `write` and `next` single steps. The copy to the edge's own stderr, whose result
-- the code drops, is left out.
pub mod Utf8
pub mod Boundary
pub mod Chunks
pub mod Flush
pub mod Schedule
use plakar_edge.Base.{
  ℕ, zero, suc, ◌+◌, ◌-◌, min, Bool, true, false, not, ◌&&◌, ◌||◌, List, [], ◌∷◌, ◌++◌, Option,
  none, some, Bytes, text, length, take, drop, ltb, leb, ◌==◌, if◌then◌else◌,
}
use Utf8.{rune_start, full_rune}

-- `logChunkMax` and `logBufferMax`.
abbrev pub log_chunk_max : ℕ
log_chunk_max = 65536

abbrev pub log_buffer_max : ℕ
log_buffer_max = 4194304

-- The fields of `logStreamer` that the mutex guards.
pub record LogStreamer : Type 0 where
  pub buf : Bytes
  pub truncated : Bool

unfoldable pub new_log_streamer : LogStreamer
new_log_streamer = record { buf = []; truncated = false }

-- `Write`
unfoldable pub write : LogStreamer → Bytes → LogStreamer
write s p =
    if ltb log_buffer_max (length s.buf + length p)
    then record s { truncated = true }
    else record s { buf = s.buf ++ p }

-- `bytes.LastIndexByte`
unfoldable pub last_index_byte : ℕ → Bytes → Option ℕ
last_index_byte c [] = none
last_index_byte c (x ∷ xs) = elim (last_index_byte c xs) [
  | some i ↦ some (suc i)
  | none ↦ if x == c then some 0 else none
]

-- The loop of `runeBoundary`: `tries` rounds are left, and the first argument after it is `i + 1`.
unfoldable pub boundary_loop : ℕ → ℕ → Bytes → ℕ → ℕ
boundary_loop zero i b n = n
boundary_loop (suc tries) zero b n = n
boundary_loop (suc tries) (suc i) b n = elim (rune_start (drop i b)) [
  | true ↦ if not (full_rune (take (n - i) (drop i b))) then i else n
  | false ↦ boundary_loop tries i b n
]

-- `runeBoundary`: at most `utf8.UTFMax` positions are looked at.
unfoldable pub rune_boundary : Bytes → ℕ → ℕ
unfolding boundary_loop
rune_boundary b n = boundary_loop 4 n b n

abbrev pub newline : ℕ
newline = b'\n'

-- The length of the chunk that `next` takes off a buffer which is not empty, if it takes one.
unfoldable pub cut : Bool → Bytes → ℕ → Option ℕ
cut final b n =
    if not final || ltb n (length b)
    then elim (last_index_byte newline (take n b)) [
      | some i ↦ some (i + 1)
      | none ↦ if ltb n log_chunk_max then none else some (rune_boundary b n)
    ]
    else some n

abbrev pub truncation_notice : Bytes
truncation_notice = text "[log truncated: the control plane was unreachable]\n"

abbrev pub take_chunk : LogStreamer → Option ℕ → Option Bytes × LogStreamer
take_chunk s none = (none, s)
take_chunk s (some n) = (some (take n s.buf), record s { buf = drop n s.buf })

-- `next`
unfoldable pub next : Bool → LogStreamer → Option Bytes × LogStreamer
next final s =
    if length s.buf == 0
    then (if final && s.truncated
        then (some truncation_notice, record s { truncated = false })
        else (none, s))
    else take_chunk s (cut final s.buf (min (length s.buf) log_chunk_max))

-- What `flush` does with a chunk whose reply failed.
unfoldable pub mark_lost : LogStreamer → LogStreamer
mark_lost s = record s { truncated = true }
