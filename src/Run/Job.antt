-- ===== src/Run/Job.antt =====
-- The state of a work, and the goroutines beside the work's own: the log streamer's, and the keepalive
-- of the step that runs. They get their turns before each action of the work.
use plakar_edge.Base.{
  ℕ, zero, suc, Bool, true, false, List, [], ◌∷◌, Option, none, some, Bytes, if◌then◌else◌,
}
use plakar_edge.Client.Fetch.{Files}
use plakar_edge.Client.{Result, ok, err, Client, reply}
use plakar_edge.LogStream.Flush.{flush, due}
use plakar_edge.LogStream.{LogStreamer, write, next, mark_lost}
use plakar_edge.Protocol.{Uuid, Reply, reply_info, reply_log}
use plakar_edge.Run.Host.{Event, posted, History, Turn, beat, take_chunk, send_chunk, Host}

pub record Job : Type 0 where
  pub history : History
  pub logs : LogStreamer
  -- The chunk that the periodic flush has taken, and whose reply is not answered.
  pub in_flight : Option Bytes
  -- `logStreamer.Close` has run.
  pub closed : Bool
  -- The keepalive's message, and how often it may still send it.
  pub note : Bytes
  pub beats : ℕ
  -- The integrations directory.
  pub files : Files

-- A step of the work's own goroutine.
abbrev pub M : Type 0 → Type 0
M A = Job → A × Job

infixl 5 ◌>>=◌ ◌>>◌
abbrev pub ◌>>=◌ : {A B : Type 0} → M A → (A → M B) → M B
◌>>=◌ m f j = let (a, k) = m j in f a k

abbrev pub ◌>>◌ : {B : Type 0} → M (Unit {0}) → M B → M B
◌>>◌ m n j = n (m j).1

abbrev pub return : {A : Type 0} → A → M A
return a j = (a, j)

abbrev pub succeeded : Result (Unit {0}) → Bool
succeeded (ok u) = true
succeeded (err e) = false

abbrev pub message_reply : Bytes → Bytes → Reply
message_reply kind msg = record { kind = kind; message = msg; report = []; state = [] }

module _ (host : Host) (clt : Client) (work_id : Uuid) where
  -- `clt.Reply`, on the history.
  unfoldable pub post_reply : History → Reply → Bool × History
  post_reply h r =
      let delivered = succeeded (reply (host.exchange h) clt host.uuid_string work_id r) in
      (delivered, posted r delivered ∷ h)

  abbrev pub post_log : History → Bytes → Bool × History
  post_log h chunk = post_reply h (message_reply reply_log chunk)

  abbrev pub flushed : Job → Option (LogStreamer × History) → Job
  flushed j none = j
  flushed j (some (s, h)) = record j { logs = s; history = h }

  -- `flush`, with enough fuel, when nothing writes between its rounds.
  unfoldable pub flush_logs : Bool → Job → Job
  unfolding flush
  flush_logs final j = flushed j (flush post_log (suc (due j.logs)) final j.logs j.history)

  -- A round of the periodic flush: `next`, if no chunk is under way; and the reply to one that is.
  abbrev pub taken : Option Bytes → Job → Job
  taken none j = let r = next false j.logs in record j { logs = r.1; in_flight = r.0 }
  taken (some c) j = j

  unfoldable pub send_log : Bytes → Job → Bool × Job
  unfolding post_reply mark_lost
  send_log c j =
      let r = post_log j.history c in
      (
        r.0,
        record j {
          history = r.1;
          in_flight = none;
          logs = if r.0 then j.logs else mark_lost j.logs;
        },
      )

  abbrev pub sent : Option Bytes → Job → Job
  sent none j = j
  sent (some c) j = (send_log c j).1

  -- What is left of a periodic flush that is in its reply when the log is closed.
  abbrev pub finished : Option Bytes → Job → Job
  finished none j = j
  finished (some c) j = let r = send_log c j in if r.0 then flush_logs false r.1 else r.1

  -- One call of the keepalive's callback.
  unfoldable pub send_note : Job → Job
  unfolding post_reply
  send_note j = record j { history = (post_reply j.history (message_reply reply_info j.note)).1 }

  -- The keepalive, when its callback is still due so many times.
  abbrev pub beaten : ℕ → Job → Job
  beaten zero j = j
  beaten (suc n) j = record (send_note j) { beats = n }

  unfoldable pub turn : Turn → Job → Job
  unfolding send_note next send_log
  turn beat j = beaten j.beats j
  turn take_chunk j = if j.closed then j else taken j.in_flight j
  turn send_chunk j = if j.closed then j else sent j.in_flight j

  unfoldable pub turns : List Turn → Job → Job
  turns [] j = j
  turns (t ∷ ts) j = turns ts (turn t j)

  -- The other goroutines, up to the next action.
  unfoldable pub yield : Job → Job
  unfolding turns
  yield j = turns (host.meanwhile j.history) j

  -- An event of the work itself.
  unfoldable pub happens : Event → M (Unit {0})
  unfolding yield
  happens e j = let k = yield j in (tt, record k { history = e ∷ k.history })

  unfoldable pub post : Reply → M (Unit {0})
  unfolding yield post_reply
  post r j = let k = yield j in (tt, record k { history = (post_reply k.history r).1 })

  -- A write of a hook or of plaklet to the output log.
  unfoldable pub write_log : Bytes → M (Unit {0})
  unfolding yield write
  write_log p j = let k = yield j in (tt, record k { logs = write k.logs p })

  -- `logs.Close`: once. It waits for the streamer's goroutine before the last flush.
  unfoldable pub close_logs : M (Unit {0})
  unfolding yield flush_logs send_log
  close_logs j =
      let k = yield j in
      let closing = finished k.in_flight k in
      (tt, if k.closed then k else flush_logs true (record closing { closed = true }))

  -- `keepAlive(cb)`: a goroutine that calls `cb` once at once, and once more after 15 seconds.
  unfoldable pub start_keep_alive : Bytes → M (Unit {0})
  start_keep_alive msg j = (tt, record j { note = msg; beats = 2 })

  -- `Stop` waits for the goroutine, which calls `cb` at least once.
  abbrev pub stopped : ℕ → Job → Job
  stopped zero j = j
  stopped (suc zero) j = j
  stopped (suc (suc n)) j = send_note j

  unfoldable pub stop_keep_alive : M (Unit {0})
  unfolding yield send_note
  stop_keep_alive j = let k = yield j in (tt, record (stopped k.beats k) { beats = 0 })

  unfoldable pub keep_alive : {A : Type 0} → Bytes → M A → M A
  unfolding start_keep_alive stop_keep_alive
  keep_alive msg action = do start_keep_alive msg; a ← action; stop_keep_alive; return a
