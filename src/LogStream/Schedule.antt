-- ===== src/LogStream/Schedule.antt =====
-- The streamer under every interleaving of `Write` calls with the rounds of `flush`. A round is two
-- steps: `next`, and, once the reply is answered, the mark of a chunk that is lost. Writes come between
-- them as they like. One goroutine flushes at a time: the last flush waits for the periodic one.
use mathlib.Core.List.{append_assoc}
use plakar_edge.Base.{
  ◌+◌, ◌≤◌, ◌≡◌, refl, sym, ap, ◌∙◌, ◌⊎◌, inl, inr, Bool, true, false, not, ◌&&◌, List, [], ◌∷◌,
  ◌++◌, ◌<◌, Option, none, some, arith, Bytes, length, length-append, ltb, if◌then◌else◌,
  Bool-cases, equal, equal_refl, is_empty,
}
use plakar_edge.LogStream.{
  log_buffer_max, LogStreamer, new_log_streamer, write, next, truncation_notice, mark_lost,
}
use plakar_edge.LogStream.Chunks.{Takes, empty, waiting, notice, chunk, next-Takes}

-- `writes p` is a `Write`; `takes final` is the `next` of a round of `flush(final)`, when no chunk is
-- under way; `answers delivered` ends the round of the chunk that is.
pub data Act : Type 0 where
  writes : Bytes → Act
  takes : (final : Bool) → Act
  answers : (delivered : Bool) → Act

-- What the control plane has been told of a loss: there was none, or it has not been told of the last
-- one, or it received the notice after the last one.
pub data Told : Type 0 where
  no_loss : Told
  untold : Told
  told : Told

-- The chunk under way, and whether it is the notice, taken from an empty buffer after every loss so far.
pub data Flight : Type 0 where
  idle : Flight
  sending : Bytes → (covers : Bool) → Flight

-- The streamer, and what the schedule did: all that was given to `Write`, all that the control plane
-- received.
pub record Session : Type 0 where
  pub streamer : LogStreamer
  pub flight : Flight
  pub written : Bytes
  pub received : Bytes
  pub losses : Told

abbrev pub fits : LogStreamer → Bytes → Bool
fits s p = not (ltb log_buffer_max (length s.buf + length p))

abbrev pub is_notice : LogStreamer → Bytes → Bool
is_notice s c = is_empty s.buf && equal c truncation_notice

-- A notice that is under way knows nothing of a write that is refused now.
abbrev pub uncover : Flight → Flight
uncover idle = idle
uncover (sending c covers) = sending c false

abbrev pub refuse : Session → Session
refuse r = record r { flight = uncover r.flight; losses = untold }

abbrev pub taken : Session → Option Bytes × LogStreamer → Session
taken r (none, s) = record r { streamer = s }
taken r (some c, s) = record r { streamer = s; flight = sending c (is_notice r.streamer c) }

abbrev pub take_next : Session → Flight → Bool → Session
take_next r idle final = taken r (next final r.streamer)
take_next r (sending c covers) final = r

abbrev pub answered : Session → Flight → Bool → Session
answered r idle delivered = r
answered r (sending c covers) true = record r {
  flight = idle;
  received = r.received ++ c;
  losses = if covers then told else r.losses;
}
answered r (sending c covers) false = record r {
  flight = idle;
  streamer = mark_lost r.streamer;
  losses = untold;
}

unfoldable pub step : Session → Act → Session
step r (writes p) =
    let q : Session = record r { streamer = write r.streamer p; written = r.written ++ p } in
    if fits r.streamer p then q else refuse q
step r (takes final) = take_next r r.flight final
step r (answers delivered) = answered r r.flight delivered

unfoldable pub run : Session → List Act → Session
run r [] = r
run r (a ∷ as') = run (step r a) as'

unfoldable pub start : Session
unfolding new_log_streamer
start = record {
  streamer = new_log_streamer;
  flight = idle;
  written = [];
  received = [];
  losses = no_loss;
}

abbrev pub under_way : Flight → Bytes
under_way idle = []
under_way (sending c covers) = c

abbrev pub covering : Flight → Bool
covering idle = false
covering (sending c covers) = covers

-- What the control plane has, or can still get, of what was written and of a loss.
pub data Account (truncated : Bool) (flight : Flight) (buf written received : Bytes)
    : Told → Type 0 where
  -- Nothing was lost, and nothing is reordered, repeated or missing; no notice is due or under way.
  lossless :
      received ++ (under_way flight ++ buf) ≡ written
      → truncated ≡ false
      → covering flight ≡ false
      → Account truncated flight buf written received no_loss
  -- The last loss is not told yet: the notice is due, or it is under way.
  owed :
      (truncated ≡ true) ⊎ (covering flight ≡ true)
      → Account truncated flight buf written received untold
  -- The notice was received after the last loss.
  announced : Account truncated flight buf written received told

abbrev pub Accounts : Session → Type 0
Accounts r = Account r.streamer.truncated r.flight r.streamer.buf r.written r.received r.losses

record Inv (r : Session) : Type 0 where
  bounded : length r.streamer.buf ≤ log_buffer_max
  accounts : Accounts r

start-Inv : Inv start
unfolding start new_log_streamer
start-Inv = record { bounded = omega arith; accounts = lossless refl refl refl }

module _ (r : Session) (p : Bytes) (v : Inv r) where
  kept-Inv :
      {l : Told}
      → r.losses ≡ l
      → Account r.streamer.truncated r.flight r.streamer.buf r.written r.received l
      → length r.streamer.buf + length p ≤ log_buffer_max
      → Inv (record r {
        streamer = record r.streamer { buf = r.streamer.buf ++ p };
        written = r.written ++ p;
      })
  kept-Inv e (lossless w t c) room = record {
    bounded = omega (arith, room, length-append r.streamer.buf p);
    accounts = rw e (
        lossless
          (ap (λ x. r.received ++ x) (sym (append_assoc (under_way r.flight) r.streamer.buf p))
            ∙ sym (append_assoc r.received (under_way r.flight ++ r.streamer.buf) p)
            ∙ ap (λ x. x ++ p) w)
          t c);
  }
  kept-Inv e (owed d) room = record {
    bounded = omega (arith, room, length-append r.streamer.buf p);
    accounts = rw e (owed d);
  }
  kept-Inv e announced room = record {
    bounded = omega (arith, room, length-append r.streamer.buf p);
    accounts = rw e announced;
  }

  writes-Inv : Inv (step r (writes p))
  unfolding step write
  writes-Inv = elim (Bool-cases (ltb log_buffer_max (length r.streamer.buf + length p))) [
    | inl full ↦ rw full (record { bounded = v.bounded; accounts = owed (inl refl) })
    | inr room ↦ rw room (kept-Inv refl v.accounts (ground (arith, room)))
  ]

is_notice-append :
    (s : LogStreamer) (c rest d : Bytes) → s.buf ≡ c ++ rest → 0 < length c → is_notice s d ≡ false
is_notice-append s [] rest d e h = elim h [ ]
is_notice-append s (x ∷ c) rest d e h = rw e

equal_self : (s : LogStreamer) → s.buf ≡ [] → is_notice s truncation_notice ≡ true
equal_self s e = rw (e, equal_refl truncation_notice)

module _ (r : Session) (v : Inv r) (q : r.flight ≡ idle) where
  chunk-Account :
      {l : Told} (c rest : Bytes)
      → r.losses ≡ l
      → Account r.streamer.truncated r.flight r.streamer.buf r.written r.received l
      → r.streamer.buf ≡ c ++ rest
      → 0 < length c
      → Account r.streamer.truncated
          (sending c (is_notice r.streamer c))
          rest
          r.written
          r.received
          l
  chunk-Account c rest f (lossless w t g) e h =
      lossless
        (ap (λ x. r.received ++ x) (sym e)
          ∙ ap (λ x. r.received ++ (under_way x ++ r.streamer.buf)) (sym q)
          ∙ w)
        t (is_notice-append r.streamer c rest c e h)
  chunk-Account c rest f (owed (inl t)) e h = owed (inl t)
  chunk-Account c rest f (owed (inr g)) e h = let x = ap covering q in absurd (cc)
  chunk-Account c rest f announced e h = announced

  notice-Account :
      {l : Told}
      → Account r.streamer.truncated r.flight r.streamer.buf r.written r.received l
      → r.streamer.buf ≡ []
      → r.streamer.truncated ≡ true
      → Account false
          (sending truncation_notice (is_notice r.streamer truncation_notice))
          r.streamer.buf
          r.written
          r.received
          l
  notice-Account (lossless w f g) e t = absurd (cc)
  notice-Account (owed d) e t = owed (inr (equal_self r.streamer e))
  notice-Account announced e t = announced

  chunk-Inv :
      (c rest : Bytes)
      → r.streamer.buf ≡ c ++ rest
      → 0 < length c
      → Inv (taken r (some c, record r.streamer { buf = rest }))
  chunk-Inv c rest e h = record {
    bounded = let b = v.bounded in omega (arith, b, ap length e, length-append c rest);
    accounts = chunk-Account c rest refl v.accounts e h;
  }

  notice-Inv :
      r.streamer.buf ≡ []
      → r.streamer.truncated ≡ true
      → Inv (taken r (some truncation_notice, record r.streamer { truncated = false }))
  notice-Inv e t = record { bounded = v.bounded; accounts = notice-Account v.accounts e t }

  taken-Inv :
      (final : Bool) {o : Option Bytes × LogStreamer} → Takes final r.streamer o → Inv (taken r o)
  taken-Inv final (empty e t) = v
  taken-Inv final (waiting f n l w) = v
  taken-Inv final (notice f e t) = notice-Inv e t
  taken-Inv final (chunk c rest e p l x) = chunk-Inv c rest e p

takes-Inv :
    (r : Session) (final : Bool) (f : Flight) → Inv r → r.flight ≡ f → Inv (take_next r f final)
takes-Inv r final idle v q = taken-Inv r v q final (next-Takes final r.streamer)
takes-Inv r final (sending c covers) v q = v

delivered-Account :
    (c : Bytes) (covers : Bool) {truncated : Bool} {buf written received : Bytes} {l : Told}
    → Account truncated (sending c covers) buf written received l
    → Account truncated idle buf written (received ++ c) (if covers then told else l)
delivered-Account c true (lossless w t g) = absurd (cc)
delivered-Account c true (owed d) = announced
delivered-Account c true announced = announced
delivered-Account c false {buf = buf} {received = received} (lossless w t g) =
    lossless (append_assoc received c buf ∙ w) t refl
delivered-Account c false (owed (inl t)) = owed (inl t)
delivered-Account c false (owed (inr g)) = absurd (cc)
delivered-Account c false announced = announced

answers-Inv :
    (r : Session) (delivered : Bool) (f : Flight)
    → Inv r
    → r.flight ≡ f
    → Inv (answered r f delivered)
answers-Inv r delivered idle v q = v
answers-Inv r true (sending c covers) v q = record {
  bounded = v.bounded;
  accounts =
      let a : Account r.streamer.truncated (sending c covers) r.streamer.buf r.written r.received
          r.losses =
        rw q at v.accounts in
      delivered-Account c covers a;
}
answers-Inv r false (sending c covers) v q =
    unfold mark_lost in record { bounded = v.bounded; accounts = owed (inl refl) }

step-Inv : (r : Session) (a : Act) → Inv r → Inv (step r a)
step-Inv r (writes p) v = writes-Inv r p v
step-Inv r (takes final) v = unfold step in takes-Inv r final r.flight v refl
step-Inv r (answers delivered) v = unfold step in answers-Inv r delivered r.flight v refl

run-Inv : (acts : List Act) (r : Session) → Inv r → Inv (run r acts)
unfolding run
run-Inv [] r v = v
run-Inv (a ∷ acts) r v = run-Inv acts (step r a) (step-Inv r a v)

-- Whatever is written, whenever, whichever replies fail, and however the writes come between the rounds
-- of the flushes: the buffer stays within its bound; as long as nothing was lost, what was received, the
-- chunk under way and what is buffered are all that was written, in order, and no notice is due; and
-- after a loss, the notice is due or under way, or it was received after the last loss. A notice that is
-- due stays due when no flush follows, or when a reply of the last one fails.
pub run-Account :
    (acts : List Act)
    → let r = run start acts in (length r.streamer.buf ≤ log_buffer_max) × Accounts r
run-Account acts = let v = run-Inv acts start start-Inv in (v.bounded, v.accounts)
