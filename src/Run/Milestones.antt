-- ===== src/Run/Milestones.antt =====
-- The events of a work that decide how it is seen; and the log, the keepalive and every other reply.
use plakar_edge.Base.{
  ℕ, zero, suc, ◌≡◌, refl, ap, ◌∙◌, Bool, true, false, List, [], ◌∷◌, Option, none, some, Bytes,
  equal, if◌then◌else◌, if_rule,
}
use plakar_edge.Client.{Result, ok, err, Client}
use plakar_edge.LogStream.Flush.{due, OnWorld, flush-invariant}
use plakar_edge.LogStream.{LogStreamer}
use plakar_edge.Protocol.{Uuid, Reply, reply_info, reply_log, reply_success, ExecReply}
use plakar_edge.Run.Host.{
  Host, Event, posted, fetched, packages_done, hook_done, script_started, plaklet_attempted,
  plaklet_ended, History, Turn, beat, take_chunk, send_chunk,
}
use plakar_edge.Run.Job.{
  Job, M, message_reply, post_reply, post_log, flushed, flush_logs, taken, send_log, sent, finished,
  send_note, turn, turns, yield, happens, post, write_log, close_logs, start_keep_alive, stopped,
  stop_keep_alive, keep_alive,
}
use plakar_edge.Run.Plaklet.{is_terminal}

pub data Milestone : Type 0 where
  -- Whether `ensurePackages` returned no error.
  packaged : Bool → Milestone
  -- The program of a hook script that was started.
  scripted : Bytes → Milestone
  -- A hook that the task names, and whether it passed.
  hooked : Bytes → Bool → Milestone
  -- Plaklet's end, and whether it reported success.
  spawned : Bool → Milestone
  -- A terminal reply, and whether it is a success.
  ended : Bool → Milestone

abbrev pub plaklet_ok : Result ExecReply → Bool
plaklet_ok (ok r) = equal r.kind reply_success
plaklet_ok (err e) = false

unfoldable pub milestones : History → List Milestone
milestones [] = []
milestones (posted r delivered ∷ h) =
    if is_terminal r.kind then ended (equal r.kind reply_success) ∷ milestones h else milestones h
milestones (fetched p dst e ∷ h) = milestones h
milestones (hook_done hook passed ∷ h) = hooked hook passed ∷ milestones h
milestones (packages_done passed ∷ h) = packaged passed ∷ milestones h
milestones (script_started c ∷ h) = scripted c.program ∷ milestones h
milestones (plaklet_attempted c p ∷ h) = milestones h
milestones (plaklet_ended r ∷ h) = spawned (plaklet_ok r) ∷ milestones h

abbrev pub so_far : Job → List Milestone
so_far j = milestones j.history

module _ (host : Host) (clt : Client) (work_id : Uuid) where
  post_reply-milestones :
      (h : History) (r : Reply)
      → is_terminal r.kind ≡ false
      → milestones (post_reply host clt work_id h r).1 ≡ milestones h
  unfolding post_reply milestones
  post_reply-milestones h r e = rw e

  post_reply-ended :
      (h : History) (r : Reply)
      → is_terminal r.kind ≡ true
      → milestones (post_reply host clt work_id h r).1
        ≡ ended (equal r.kind reply_success) ∷ milestones h
  unfolding post_reply milestones
  post_reply-ended h r e = rw e

  flushed-so_far :
      (ms : List Milestone) (j : Job) (o : Option (LogStreamer × History))
      → so_far j ≡ ms
      → OnWorld (post_log host clt work_id) (λ h. milestones h ≡ ms) o
      → so_far (flushed host clt work_id j o) ≡ ms
  flushed-so_far ms j none e w = e
  flushed-so_far ms j (some (s, h)) e w = w

  flush_logs-so_far :
      (final : Bool) (j : Job) → so_far (flush_logs host clt work_id final j) ≡ so_far j
  unfolding flush_logs
  flush_logs-so_far final j = flushed-so_far (so_far j) j _ refl (
      flush-invariant (post_log host clt work_id) (λ h. milestones h ≡ so_far j)
        (λ h c e. post_reply-milestones h (message_reply reply_log c) (unfold equal in refl) ∙ e)
        (suc (due j.logs)) final j.logs j.history refl)

  taken-so_far : (j : Job) (c : Option Bytes) → so_far (taken host clt work_id c j) ≡ so_far j
  taken-so_far j none = refl
  taken-so_far j (some c) = refl

  send_log-so_far : (c : Bytes) (j : Job) → so_far (send_log host clt work_id c j).1 ≡ so_far j
  unfolding send_log
  send_log-so_far c j =
      post_reply-milestones j.history (message_reply reply_log c) (unfold equal in refl)

  sent-so_far : (j : Job) (c : Option Bytes) → so_far (sent host clt work_id c j) ≡ so_far j
  sent-so_far j none = refl
  sent-so_far j (some c) = send_log-so_far c j

  finished-so_far : (j : Job) (c : Option Bytes) → so_far (finished host clt work_id c j) ≡ so_far j
  finished-so_far j none = refl
  finished-so_far j (some c) =
      let r = send_log host clt work_id c j in
      if_rule (λ k. so_far k ≡ so_far j) r.0 (flush_logs-so_far false r.1 ∙ send_log-so_far c j)
        (send_log-so_far c j)

  send_note-so_far : (j : Job) → so_far (send_note host clt work_id j) ≡ so_far j
  unfolding send_note
  send_note-so_far j =
      post_reply-milestones j.history (message_reply reply_info j.note) (unfold equal in refl)

  beat-so_far : (j : Job) (n : ℕ) → j.beats ≡ n → so_far (turn host clt work_id beat j) ≡ so_far j
  unfolding turn
  beat-so_far j zero e = rw (turn, e)
  beat-so_far j (suc n) e = rw (turn, e) (send_note-so_far j)

  turn-so_far : (t : Turn) (j : Job) → so_far (turn host clt work_id t j) ≡ so_far j
  turn-so_far beat j = beat-so_far j j.beats refl
  turn-so_far take_chunk j =
      unfold turn in if_rule (λ k. so_far k ≡ so_far j) j.closed refl (taken-so_far j j.in_flight)
  turn-so_far send_chunk j =
      unfold turn in if_rule (λ k. so_far k ≡ so_far j) j.closed refl (sent-so_far j j.in_flight)

  turns-so_far : (ts : List Turn) (j : Job) → so_far (turns host clt work_id ts j) ≡ so_far j
  unfolding turns
  turns-so_far [] j = refl
  turns-so_far (t ∷ ts) j = turns-so_far ts (turn host clt work_id t j) ∙ turn-so_far t j

  pub yield-so_far : (j : Job) → so_far (yield host clt work_id j) ≡ so_far j
  unfolding yield
  yield-so_far j = turns-so_far (host.meanwhile j.history) j

  pub write_log-so_far :
      (p : Bytes) (j : Job) → so_far (write_log host clt work_id p j).1 ≡ so_far j
  unfolding write_log
  write_log-so_far p j = yield-so_far j

  pub close_logs-so_far : (j : Job) → so_far (close_logs host clt work_id j).1 ≡ so_far j
  unfolding close_logs
  close_logs-so_far j =
      let k = yield host clt work_id j in
      if_rule (λ k. so_far k ≡ so_far j) k.closed (yield-so_far j)
        (flush_logs-so_far true (record (finished host clt work_id k.in_flight k) { closed = true })
          ∙ finished-so_far k k.in_flight
          ∙ yield-so_far j)

  -- A reply that does not end the work.
  pub post-so_far :
      (r : Reply) (j : Job)
      → is_terminal r.kind ≡ false
      → so_far (post host clt work_id r j).1 ≡ so_far j
  unfolding post
  post-so_far r j e = post_reply-milestones _ r e ∙ yield-so_far j

  -- One that does.
  pub post-ended :
      (r : Reply) (j : Job)
      → is_terminal r.kind ≡ true
      → so_far (post host clt work_id r j).1 ≡ ended (equal r.kind reply_success) ∷ so_far j
  unfolding post
  post-ended r j e =
      post_reply-ended _ r e ∙ ap (◌∷◌ (ended (equal r.kind reply_success))) (yield-so_far j)

  stopped-so_far : (n : ℕ) (k : Job) → so_far (stopped host clt work_id n k) ≡ so_far k
  stopped-so_far zero k = refl
  stopped-so_far (suc zero) k = refl
  stopped-so_far (suc (suc n)) k = send_note-so_far k

  stop_keep_alive-so_far : (j : Job) → so_far (stop_keep_alive host clt work_id j).1 ≡ so_far j
  unfolding stop_keep_alive
  stop_keep_alive-so_far j = stopped-so_far _ (yield host clt work_id j) ∙ yield-so_far j

  -- What a step does to the milestones, by its result, it also does under a keepalive.
  pub keep_alive-so_far :
      {A : Type 0} (P : A → List Milestone → List Milestone → Type 0) (msg : Bytes) (action : M A)
      → ((j : Job) → P (action j).0 (so_far j) (so_far (action j).1))
      → (j : Job)
      → let r = keep_alive host clt work_id msg action j in P r.0 (so_far j) (so_far r.1)
  unfolding keep_alive start_keep_alive
  keep_alive-so_far P msg action h j =
      let started : Job = record j { note = msg; beats = 2 } in
      rw (stop_keep_alive-so_far (action started).1) (h started)

  -- An event of the work itself.
  pub happens-so_far :
      (e : Event) (j : Job)
      → so_far (happens host clt work_id e j).1
        ≡ milestones (e ∷ (yield host clt work_id j).history)
  unfolding happens
  happens-so_far e j = refl
