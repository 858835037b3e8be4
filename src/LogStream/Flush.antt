-- ===== src/LogStream/Flush.antt =====
-- The loop of `flush`, and `Close`. `post` is `Client.Reply` with a log reply: it answers whether the
-- reply got through, and leaves the world `W` that it changed.
use mathlib.Core.List.{append-nil, append_assoc}
use plakar_edge.Base.{
  ℕ, zero, suc, ◌+◌, ◌<◌, ◌≡◌, ◌≢◌, refl, sym, ap, ◌∙◌, Bool, true, false, [], ◌++◌, Option, none,
  some, arith, Bytes, length, length-append, if◌then◌else◌,
}
use plakar_edge.LogStream.{LogStreamer, next, truncation_notice, mark_lost}
use plakar_edge.LogStream.Chunks.{Takes, empty, waiting, notice, chunk, next-Takes}

-- The bytes that are left, and one for a notice that is due.
abbrev pub due : LogStreamer → ℕ
due s = length s.buf + (if s.truncated then 1 else 0)

abbrev Shrinks : LogStreamer → Option Bytes × LogStreamer → Type 0
Shrinks s (none, t) = Unit
Shrinks s (some c, t) = due t < due s

Takes-Shrinks :
    {final : Bool} {s : LogStreamer} {o : Option Bytes × LogStreamer}
    → Takes final s o
    → Shrinks s o
Takes-Shrinks (empty e t) = tt
Takes-Shrinks (waiting f n l w) = tt
Takes-Shrinks (notice f e t) = ground arith
Takes-Shrinks {s = s} (chunk c rest e p l h) = omega (arith, ap length e, length-append c rest)

-- What is still to come from a streamer at the end: the buffer, and then the notice if it is due.
abbrev pub remains : LogStreamer → Bytes
remains s = s.buf ++ (if s.truncated then truncation_notice else [])

abbrev pub drained : LogStreamer
drained = record { buf = []; truncated = false }

abbrev Yields : LogStreamer → Option Bytes × LogStreamer → Type 0
Yields s (none, t) = (remains s ≡ []) × (t ≡ drained)
Yields s (some c, t) = c ++ remains t ≡ remains s

Takes-Yields :
    {final : Bool} {s : LogStreamer} {o : Option Bytes × LogStreamer}
    → final ≡ true
    → Takes final s o
    → Yields s o
Takes-Yields f (empty e t) = ground arith
Takes-Yields f (waiting g n l w) = cc
Takes-Yields f (notice g e t) = rw (e, t) (append-nil _)
Takes-Yields {s = s} f (chunk c rest e p l h) = rw e (sym (append_assoc c rest _))

module _ {ℓ} {W : Type ℓ} (post : W → Bytes → Bool × W) where
  -- After the reply: go on, or mark the lost chunk and give up.
  abbrev replied :
      (LogStreamer → W → Option (LogStreamer × W))
      → LogStreamer
      → Bool × W
      → Option (LogStreamer × W)
  replied again s (true, w) = again s w
  replied again s (false, w) = some (mark_lost s, w)

  abbrev flush_round :
      (LogStreamer → W → Option (LogStreamer × W))
      → Option Bytes × LogStreamer
      → W
      → Option (LogStreamer × W)
  flush_round again (none, s) w = some (s, w)
  flush_round again (some c, s) w = replied again s (post w c)

  -- `flush`, when nothing writes between its rounds; `none` means that the fuel ran out.
  unfoldable pub flush : ℕ → Bool → LogStreamer → W → Option (LogStreamer × W)
  flush zero final s w = none
  flush (suc fuel) final s w = flush_round (flush fuel final) (next final s) w

  replied-ne-none :
      (again : LogStreamer → W → Option (LogStreamer × W)) (s : LogStreamer) (r : Bool × W)
      → ((w : W) → again s w ≢ none)
      → replied again s r ≢ none
  replied-ne-none again s (true, w) h = h w
  replied-ne-none again s (false, w) h = λ e. cc

  flush_round-ne-none :
      (again : LogStreamer → W → Option (LogStreamer × W)) (s : LogStreamer)
      (o : Option Bytes × LogStreamer) (w : W)
      → ((t : LogStreamer) (u : W) → due t < due s → again t u ≢ none)
      → Shrinks s o
      → flush_round again o w ≢ none
  flush_round-ne-none again s (none, t) w h k = λ e. cc
  flush_round-ne-none again s (some c, t) w h k = replied-ne-none again t (post w c) (λ u. h t u k)

  flush-ne-none :
      (fuel : ℕ) (final : Bool) (s : LogStreamer) (w : W)
      → due s < fuel
      → flush fuel final s w ≢ none
  unfolding flush
  flush-ne-none zero final s w h = elim h [ ]
  flush-ne-none (suc fuel) final s w h =
      flush_round-ne-none (flush fuel final) s (next final s) w
        (λ t u k. flush-ne-none fuel final t u (omega arith)) (Takes-Shrinks (next-Takes final s))

  -- The last flush, beside which nothing writes, ends, whatever replies fail: fuel above the bytes that
  -- are left and the notice is enough.
  pub flush-ends : (fuel : ℕ) (s : LogStreamer) (w : W) → due s < fuel → flush fuel true s w ≢ none
  flush-ends fuel s w h = flush-ne-none fuel true s w h

  -- What holds of the world and is kept by every reply holds after a flush.
  abbrev pub OnWorld {κ} : (W → Type κ) → Option (LogStreamer × W) → Type κ
  OnWorld P none = Unit
  OnWorld P (some (s, w)) = P w

  replied-invariant {κ} :
      (P : W → Type κ) (again : LogStreamer → W → Option (LogStreamer × W)) (s : LogStreamer)
      (r : Bool × W)
      → ((t : LogStreamer) (w : W) → P w → OnWorld P (again t w))
      → P r.1
      → OnWorld P (replied again s r)
  replied-invariant P again s (true, w) h p = h s w p
  replied-invariant P again s (false, w) h p = p

  flush_round-invariant {κ} :
      (P : W → Type κ) (again : LogStreamer → W → Option (LogStreamer × W))
      (o : Option Bytes × LogStreamer) (w : W)
      → ((v : W) (c : Bytes) → P v → P (post v c).1)
      → ((t : LogStreamer) (v : W) → P v → OnWorld P (again t v))
      → P w
      → OnWorld P (flush_round again o w)
  flush_round-invariant P again (none, s) w keeps h p = p
  flush_round-invariant P again (some c, s) w keeps h p =
      replied-invariant P again s (post w c) h (keeps w c p)

  pub flush-invariant {κ} :
      (P : W → Type κ)
      → ((v : W) (c : Bytes) → P v → P (post v c).1)
      → (fuel : ℕ) (final : Bool) (s : LogStreamer) (w : W) → P w
      → OnWorld P (flush fuel final s w)
  unfolding flush
  flush-invariant P keeps zero final s w p = tt
  flush-invariant P keeps (suc fuel) final s w p =
      flush_round-invariant P (flush fuel final) (next final s) w keeps
        (λ t v q. flush-invariant P keeps fuel final t v q) p

-- A control plane that receives every reply; the world is what it has received.
abbrev pub accept : Bytes → Bytes → Bool × Bytes
accept got c = (true, got ++ c)

flush_round-drains :
    (again : LogStreamer → Bytes → Option (LogStreamer × Bytes)) (s : LogStreamer)
    (o : Option Bytes × LogStreamer) (got : Bytes)
    → ((t : LogStreamer) (g : Bytes) → due t < due s → again t g ≡ some (drained, g ++ remains t))
    → Shrinks s o
    → Yields s o
    → flush_round accept again o got ≡ some (drained, got ++ remains s)
flush_round-drains again s (none, t) got h k (e, d) = rw (e, d, append-nil got)
flush_round-drains again s (some c, t) got h k y =
    h t (got ++ c) k
    ∙ ap (λ r. some (drained, r)) (append_assoc got c (remains t) ∙ ap (λ r. got ++ r) y)

-- `Close`: when every reply gets through, the last flush sends all that was buffered, in order, and
-- then the notice if it is due, and leaves nothing behind.
pub flush-drains :
    (fuel : ℕ) (s : LogStreamer) (got : Bytes)
    → due s < fuel
    → flush accept fuel true s got ≡ some (drained, got ++ remains s)
unfolding flush
flush-drains zero s got h = elim h [ ]
flush-drains (suc fuel) s got h =
    flush_round-drains (flush accept fuel true) s (next true s) got
      (λ t g k. flush-drains fuel t g (omega arith)) (Takes-Shrinks (next-Takes true s))
      (Takes-Yields refl (next-Takes true s))
