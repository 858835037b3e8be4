-- ===== src/Hooks/Tail.antt =====
-- About `tailBuffer` and `outputTail` of hooks.go.
use mathlib.Core.List.{append_assoc, append-nil}
use plakar_edge.Base.{
  ℕ, ◌+◌, ◌-◌, ◌*◌, ◌≤◌, ◌<◌, ◌≡◌, ◌≢◌, refl, sym, ap, ◌∙◌, ◌⊎◌, List, [], ◌∷◌, ◌++◌, arith, inl,
  inr, Bytes, text, ltb→lt, length, length-append, length-drop, take, drop, drop-append_add,
  take-append-drop, ltb, Bool-cases,
}
use plakar_edge.Base.Trim.{trim_space}
use plakar_edge.Hooks.{TailBuffer, write, bytes, output_max, render_tail, output_tail}

-- The last `n` bytes, or all of a shorter text.
abbrev pub last : ℕ → Bytes → Bytes
last n s = drop (length s - n) s

unfoldable pub writes : TailBuffer → List Bytes → TailBuffer
writes t [] = t
writes t (p ∷ ps) = writes (write t p) ps

abbrev pub concat : List Bytes → Bytes
concat [] = []
concat (p ∷ ps) = p ++ concat ps

-- `t` holds the end of all that was written, and at least the last `max` bytes of it.
record Holds (t : TailBuffer) (total : Bytes) : Type 0 where
  gone : Bytes
  splits : total ≡ gone ++ t.buf
  enough : (gone ≡ []) ⊎ (t.max ≤ length t.buf)
  bounded : length t.buf ≤ 2 * t.max

write-Holds : (t : TailBuffer) (total p : Bytes) → Holds t total → Holds (write t p) (total ++ p)
unfolding write
write-Holds t total p h = elim (Bool-cases (ltb (2 * t.max) (length (t.buf ++ p)))) [
  | inl e ↦
      let buf = t.buf ++ p in
      let k = length buf - t.max in
      rw e (record {
        gone = h.gone ++ take k buf;
        splits =
            rw h.splits (append_assoc h.gone t.buf p)
            ∙ ap (λ r. h.gone ++ r) (sym (take-append-drop k buf))
            ∙ sym (append_assoc h.gone (take k buf) (drop k buf));
        enough = inr (omega (arith, length-drop k buf, ltb→lt _ _ e));
        bounded = omega (arith, length-drop k buf, ltb→lt _ _ e);
      })
  | inr e ↦ rw e (record {
    gone = h.gone;
    splits = rw h.splits (append_assoc h.gone t.buf p);
    enough = elim h.enough [ inl g ↦ inl g | inr l ↦ inr (omega (arith, length-append t.buf p)) ];
    bounded = ground arith;
  })
]

writes-Holds :
    (t : TailBuffer) (total : Bytes) (ps : List Bytes)
    → Holds t total
    → Holds (writes t ps) (total ++ concat ps)
unfolding writes
writes-Holds t total [] h = rw (append-nil total) h
writes-Holds t total (p ∷ ps) h =
    rw (append_assoc total p (concat ps)) at
      (writes-Holds (write t p) (total ++ p) ps (write-Holds t total p h))

max-write : (t : TailBuffer) (p : Bytes) → (write t p).max ≡ t.max
unfolding write
max-write t p = ground arith

max-writes : (t : TailBuffer) (ps : List Bytes) → (writes t ps).max ≡ t.max
unfolding writes
max-writes t [] = refl
max-writes t (p ∷ ps) = max-writes (write t p) ps ∙ max-write t p

drop_none : (n : ℕ) (s : Bytes) → n ≡ 0 → drop n s ≡ s
drop_none n s e = rw e

bytes-last : (t : TailBuffer) → bytes t ≡ last t.max t.buf
unfolding bytes
bytes-last t = elim (Bool-cases (ltb t.max (length t.buf))) [
  | inl e ↦ rw e
  | inr e ↦ rw e (sym (drop_none (length t.buf - t.max) t.buf (ground arith)))
]

last-append :
    (n : ℕ) (gone s : Bytes) → (gone ≡ []) ⊎ (n ≤ length s) → last n (gone ++ s) ≡ last n s
last-append n gone s (inl e) = rw e
last-append n gone s (inr l) =
    let e : length (gone ++ s) - n ≡ length gone + (length s - n) =
      omega (arith, length-append gone s) in
    rw e (drop-append_add gone s (length s - n))

-- After any writes the buffer answers exactly the last `max` bytes of everything written, however
-- the writes were cut, and never holds more than twice as many.
pub bytes-writes :
    (max : ℕ) (ps : List Bytes)
    → let t = writes (record { max = max; buf = [] }) ps in
      (bytes t ≡ last max (concat ps)) × (length t.buf ≤ 2 * max)
bytes-writes max ps =
    let t : TailBuffer = record { max = max; buf = [] } in
    let start : Holds t [] = record {
      gone = [];
      splits = refl;
      enough = inl refl;
      bounded = omega arith;
    } in
    let h = writes-Holds t [] ps start in
    let m = max-writes t ps in
    (
      bytes-last (writes t ps)
          ∙ ap (λ n. last n (writes t ps).buf) m
          ∙ sym (rw h.splits (last-append max h.gone (writes t ps).buf (rw m at h.enough))),
      rw m at h.bounded,
    )

-- What a trimmed output renders as.
pub data Renders (s : Bytes) : Bytes → Type 0 where
  blank : s ≡ [] → Renders s []
  whole : s ≢ [] → length s ≤ output_max → Renders s (text ": " ++ s)
  ending : output_max < length s → Renders s (text ": ..." ++ last output_max s)

render_tail-Renders :
    (s : Bytes) → Renders s (render_tail s) × (length (render_tail s) ≤ output_max + 5)
unfolding render_tail
render_tail-Renders [] = (blank refl, omega arith)
render_tail-Renders (c ∷ s) = elim (Bool-cases (ltb output_max (length (c ∷ s)))) [
  | inl e ↦
      let k = length (c ∷ s) - output_max in
      rw e (ending (ltb→lt _ _ e), omega (arith, length-drop k (c ∷ s), ltb→lt _ _ e))
  | inr e ↦ rw e (whole (λ h. cc) (ground arith), ground arith)
]

-- What a failed script adds to the error message: nothing if its output is blank; else a colon, a
-- space and the trimmed output, or, past 512 bytes, dots and the last 512 of them. So it is never
-- longer than 517 bytes.
pub output_tail-Renders :
    (out : Bytes)
    → Renders (trim_space out) (output_tail out) × (length (output_tail out) ≤ output_max + 5)
unfolding output_tail
output_tail-Renders out = render_tail-Renders (trim_space out)
