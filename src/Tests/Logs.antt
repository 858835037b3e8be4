-- ===== src/Tests/Logs.antt =====
-- The output log: a line with a rune of two bytes, a lost chunk, and the last flush.
use plakar_edge.Base.{
  ◌≤◌, ◌≡◌, ◌≢◌, refl, Bool, true, false, [], ◌∷◌, ◌++◌, none, some, Bytes, text, arith, length,
  take, drop, ◌+◌,
}
use plakar_edge.LogStream.Boundary.{rune_boundary-Utf8, rune_boundary_bounds}
use plakar_edge.LogStream.Chunks.Whole.{IsWhole, next-IsWhole}
use plakar_edge.LogStream.Chunks.{Takes, next-Takes}
use plakar_edge.LogStream.Flush.{flush, flush-ends, flush-drains, accept, drained}
use plakar_edge.LogStream.Schedule.{writes, takes, answers, run, start, Accounts, run-Account}
use plakar_edge.LogStream.Utf8.{one, two, Utf8, nil, cons}
use plakar_edge.LogStream.{LogStreamer, log_buffer_max, next, rune_boundary, truncation_notice}

-- "é" and a newline.
abbrev accented : Bytes
accented = 0xC3 ∷ 0xA9 ∷ 0x0A ∷ []

accented-Utf8 : Utf8 accented
accented-Utf8 =
    cons (0xC3 ∷ 0xA9 ∷ []) (0x0A ∷ []) (two 0xC3 0xA9 refl refl)
      (cons (0x0A ∷ []) [] (one 0x0A (omega arith)) nil refl) refl

abbrev accented_log : LogStreamer
accented_log = record { buf = accented; truncated = true }

rune_boundary-Utf8_example :
    Utf8 (take (rune_boundary accented 1) accented)
    × Utf8 (drop (rune_boundary accented 1) accented)
rune_boundary-Utf8_example = rune_boundary-Utf8 accented 1 accented-Utf8 (omega arith) (omega arith)

rune_boundary_bounds_example : (rune_boundary accented 1 ≤ 1) × (1 ≤ rune_boundary accented 1 + 3)
rune_boundary_bounds_example = rune_boundary_bounds accented 1 (omega arith)

next-Takes_example : Takes false accented_log (next false accented_log)
next-Takes_example = next-Takes false accented_log

next-IsWhole_example : IsWhole (next false accented_log)
next-IsWhole_example = next-IsWhole false accented_log accented-Utf8

flush-drains_example :
    flush accept 5 true accented_log [] ≡ some (drained, accented ++ truncation_notice)
flush-drains_example = flush-drains 5 accented_log [] (omega arith)

-- Every reply fails.
abbrev refuse : Bytes → Bytes → Bool × Bytes
refuse got c = (false, got)

flush-ends_example : flush refuse 5 true accented_log [] ≢ none
flush-ends_example = flush-ends refuse 5 accented_log [] (omega arith)

-- The second line is lost; the last flush tells of it.
run-Account_example :
    let r = run start (
      writes (text "one\n")
      ∷ takes false
      ∷ writes (text "two\n")
      ∷ answers true
      ∷ takes false
      ∷ answers false
      ∷ takes true
      ∷ answers true
      ∷ []) in
    (length r.streamer.buf ≤ log_buffer_max) × Accounts r
run-Account_example = run-Account (
    writes (text "one\n")
    ∷ takes false
    ∷ writes (text "two\n")
    ∷ answers true
    ∷ takes false
    ∷ answers false
    ∷ takes true
    ∷ answers true
    ∷ [])
