-- ===== src/Run/Work.antt =====
-- `runWork`.
use plakar_edge.Base.{false, [], Option, none, some, Bytes, text, equal, if◌then◌else◌}
use plakar_edge.Client.Fetch.{Files}
use plakar_edge.Client.{Error, wrapped, message, Result, ok, err, Client}
use plakar_edge.Config.{Config}
use plakar_edge.LogStream.{new_log_streamer}
use plakar_edge.Protocol.{WorkItem, Reply, reply_error, reply_failure, reply_success, ExecReply}
use plakar_edge.Run.Hook.{run_hook}
use plakar_edge.Run.Host.{Host}
use plakar_edge.Run.Job.{Job, M, ◌>>=◌, ◌>>◌, message_reply, post, close_logs, keep_alive}
use plakar_edge.Run.Packages.{ensure_packages}
use plakar_edge.Run.Plaklet.{forward_reply, spawn_plaklet}

-- The job at the start of `runWork`, with the files of the integrations directory.
unfoldable pub new_job : Files → Job
unfolding new_log_streamer
new_job files = record {
  history = [];
  logs = new_log_streamer;
  in_flight = none;
  closed = false;
  note = [];
  beats = 0;
  files = files;
}

module _ (host : Host) (clt : Client) (cfg : Config) (item : WorkItem) where
  abbrev keep : {A : Type 0} → Bytes → M A → M A
  keep msg action = keep_alive host clt item.work_id msg action

  -- The closure `fail`.
  unfoldable pub fail : Error → M (Unit {0})
  fail e = do
    close_logs host clt item.work_id
    post host clt item.work_id (message_reply reply_failure (message e))

  -- A post-hook's failure, beside the work's own.
  unfoldable pub report_post : Error → M (Unit {0})
  unfolding forward_reply
  report_post e =
      forward_reply host clt cfg item
        (record { kind = reply_error; message = message e; report = []; state = [] })

  abbrev pub wrap_post : Result (Unit {0}) → Option Error
  wrap_post (ok u) = none
  wrap_post (err e) = some (wrapped (text "post-job hook: ") e)

  abbrev pub frozen : Error → ExecReply → Reply
  frozen e terminal = record {
    kind = reply_failure;
    message = message e;
    report = terminal.report;
    state = terminal.state;
  }

  -- The end of `runWork`, by plaklet's result and the post-hook's error.
  unfoldable pub conclude : Result ExecReply → Option Error → M (Unit {0})
  unfolding fail report_post forward_reply
  conclude (err e) (some p) = do report_post p; fail e
  conclude (err e) none = fail e
  conclude (ok terminal) (some p) =
      if equal terminal.kind reply_success
      then post host clt item.work_id (frozen p terminal)
      else (do report_post p; forward_reply host clt cfg item terminal)
  conclude (ok terminal) none = forward_reply host clt cfg item terminal

  -- From plaklet on, which runs only when the packages are there and the pre-hook passed.
  unfoldable pub execute : M (Unit {0})
  unfolding conclude
  execute = do
    result ← spawn_plaklet host clt cfg item
    hooked ← keep (text "running post-hook...") (run_hook host clt cfg item (text "post_job"))
    close_logs host clt item.work_id
    conclude result (wrap_post hooked)

  abbrev pub after_pre_hook : Result (Unit {0}) → M (Unit {0})
  after_pre_hook (ok u) = execute
  after_pre_hook (err e) = fail (wrapped (text "pre-job hook: ") e)

  abbrev pub after_packages : Result (Unit {0}) → M (Unit {0})
  after_packages (err e) = fail e
  after_packages (ok u) = do
    hooked ← keep (text "running pre-hook...") (run_hook host clt cfg item (text "pre_job"))
    after_pre_hook hooked

  -- `runWork`, with its deferred `logs.Close()`.
  unfoldable pub run_work : M (Unit {0})
  unfolding execute
  run_work = do
    fetched ← keep (text "fetching packages...") (ensure_packages host clt cfg item)
    after_packages fetched
    close_logs host clt item.work_id
