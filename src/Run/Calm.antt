-- ===== src/Run/Calm.antt =====
-- A work beside which no goroutine is left that could reply: its log is closed, and its keepalive stopped.
use plakar_edge.Base.{
  ℕ, zero, suc, ◌≡◌, refl, ap, ◌∙◌, Bool, true, List, [], ◌∷◌, Option, none, some, Bytes, if_rule,
  if_cases,
}
use plakar_edge.Client.{Client}
use plakar_edge.LogStream.{LogStreamer}
use plakar_edge.Protocol.{Uuid, Reply}
use plakar_edge.Run.Host.{Host, posted, History, Turn, beat, take_chunk, send_chunk}
use plakar_edge.Run.Job.{
  Job, post_reply, beaten, flushed, flush_logs, taken, sent, finished, send_log, turn, turns, yield,
  post, close_logs,
}
use plakar_edge.Run.Plaklet.{is_terminal}

-- Nothing beside the work's own goroutine can reply.
pub record IsCalm (j : Job) : Type 0 where
  pub closed : j.closed ≡ true
  pub no_beats : j.beats ≡ 0

-- The newest event is a terminal reply, and nothing can reply after it.
pub record IsFinished (j : Job) : Type 0 where
  pub calm : IsCalm j
  pub last : Reply
  pub delivered : Bool
  pub before : History
  pub newest : j.history ≡ posted last delivered ∷ before
  pub terminal : is_terminal last.kind ≡ true

module _ (host : Host) (clt : Client) (work_id : Uuid) where
  beaten-calm : (n : ℕ) (j : Job) → n ≡ 0 → beaten host clt work_id n j ≡ j
  beaten-calm zero j e = refl
  beaten-calm (suc n) j e = absurd (cc)

  turn-calm : (t : Turn) (j : Job) → IsCalm j → turn host clt work_id t j ≡ j
  unfolding turn
  turn-calm beat j c = beaten-calm j.beats j c.no_beats
  turn-calm take_chunk j c = let x = c.closed in rw x
  turn-calm send_chunk j c = let x = c.closed in rw x

  turns-calm : (ts : List Turn) (j : Job) → IsCalm j → turns host clt work_id ts j ≡ j
  unfolding turns
  turns-calm [] j c = refl
  turns-calm (t ∷ ts) j c = ap (turns host clt work_id ts) (turn-calm t j c) ∙ turns-calm ts j c

  yield-calm : (j : Job) → IsCalm j → yield host clt work_id j ≡ j
  unfolding yield
  yield-calm j c = turns-calm (host.meanwhile j.history) j c

  flushed-beats :
      (j : Job) (o : Option (LogStreamer × History))
      → (flushed host clt work_id j o).beats ≡ j.beats
  flushed-beats j none = refl
  flushed-beats j (some (s, h)) = refl

  flushed-closed :
      (j : Job) (o : Option (LogStreamer × History))
      → (flushed host clt work_id j o).closed ≡ j.closed
  flushed-closed j none = refl
  flushed-closed j (some (s, h)) = refl

  taken-beats : (j : Job) (c : Option Bytes) → (taken host clt work_id c j).beats ≡ j.beats
  taken-beats j none = refl
  taken-beats j (some c) = refl

  sent-beats : (j : Job) (c : Option Bytes) → (sent host clt work_id c j).beats ≡ j.beats
  sent-beats j none = refl
  sent-beats j (some c) = unfold send_log in refl

  finished-beats : (j : Job) (c : Option Bytes) → (finished host clt work_id c j).beats ≡ j.beats
  finished-beats j none = refl
  finished-beats j (some c) =
      unfold send_log flush_logs in
      let r = send_log host clt work_id c j in
      if_rule {A = Job} (λ k. k.beats ≡ j.beats) r.0 (flushed-beats r.1 _) refl

  turn-beats : (t : Turn) (j : Job) → j.beats ≡ 0 → (turn host clt work_id t j).beats ≡ 0
  turn-beats beat j c = unfold turn in ap (λ k. k.beats) (beaten-calm j.beats j c) ∙ c
  turn-beats take_chunk j c =
      unfold turn in if_rule {A = Job} (λ k. k.beats ≡ 0) j.closed c (taken-beats j j.in_flight ∙ c)
  turn-beats send_chunk j c =
      unfold turn in if_rule {A = Job} (λ k. k.beats ≡ 0) j.closed c (sent-beats j j.in_flight ∙ c)

  turns-beats : (ts : List Turn) (j : Job) → j.beats ≡ 0 → (turns host clt work_id ts j).beats ≡ 0
  unfolding turns
  turns-beats [] j c = c
  turns-beats (t ∷ ts) j c = turns-beats ts (turn host clt work_id t j) (turn-beats t j c)

  pub close_logs-IsCalm : (j : Job) → j.beats ≡ 0 → IsCalm (close_logs host clt work_id j).1
  unfolding close_logs yield flush_logs
  close_logs-IsCalm j c =
      let k = yield host clt work_id j in
      let quiet : k.beats ≡ 0 = turns-beats (host.meanwhile j.history) j c in
      let f = finished host clt work_id k.in_flight k in
      let closing : Job = record f { closed = true } in
      if_cases IsCalm k.closed (λ t. record { closed = t; no_beats = quiet })
        (λ f. record {
          closed = flushed-closed closing _;
          no_beats = flushed-beats closing _ ∙ finished-beats k k.in_flight ∙ quiet;
        })

  pub post-IsCalm : (r : Reply) (j : Job) → IsCalm j → IsCalm (post host clt work_id r j).1
  unfolding post
  post-IsCalm r j c = record {
    closed = ap (λ k. k.closed) (yield-calm j c) ∙ c.closed;
    no_beats = ap (λ k. k.beats) (yield-calm j c) ∙ c.no_beats;
  }

  pub post-IsFinished :
      (r : Reply) (j : Job)
      → IsCalm j
      → is_terminal r.kind ≡ true
      → IsFinished (post host clt work_id r j).1
  unfolding post post_reply
  post-IsFinished r j c t = record {
    calm = post-IsCalm r j c;
    last = r;
    delivered = _;
    before = (yield host clt work_id j).history;
    newest = refl;
    terminal = t;
  }

  -- The deferred call finds the log closed.
  pub close_logs-IsFinished :
      (j : Job) → IsFinished j → IsFinished (close_logs host clt work_id j).1
  unfolding close_logs
  close_logs-IsFinished j f =
      let e = yield-calm j f.calm in
      let g : IsFinished (yield host clt work_id j) = rw e f in
      if_cases IsFinished (yield host clt work_id j).closed (λ t. g)
        (λ n. let x = g.calm.closed in absurd (cc))
