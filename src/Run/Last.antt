-- ===== src/Run/Last.antt =====
-- How `runWork` of run.go ends: what it does last, and what could still reply after it.
use plakar_edge.Base.{
  ◌≡◌, refl, List, [], ◌∷◌, Option, none, some, inl, inr, Bytes, text, equal, Bool-cases, if_rule,
}
use plakar_edge.Client.Fetch.{Files}
use plakar_edge.Client.{Error, Result, ok, err, message, wrapped, Client}
use plakar_edge.Config.{Config}
use plakar_edge.Protocol.{WorkItem, ExecReply, reply_success, reply_failure}
use plakar_edge.Run.Hook.{run_hook}
use plakar_edge.Run.Host.{
  Host, plaklet_attempted, Output, replies, errors, PlakletRun, no_stdin, no_stdout, not_started,
  not_fed, ran, Command,
}
use plakar_edge.Run.Job.{
  Job, M, message_reply, close_logs, stop_keep_alive, keep_alive, happens, write_log,
}
use plakar_edge.Run.Packages.{ensure_packages}
use plakar_edge.Run.Plaklet.{
  is_terminal, reply_of, forward_reply, started, pump, run_plaklet, spawn_plaklet, plaklet_command,
  payload,
}
use plakar_edge.Run.Spawn.{Holds, Ends, result_of-Ends}
use plakar_edge.Run.Work.{
  new_job, fail, report_post, wrap_post, frozen, conclude, execute, after_pre_hook, after_packages,
  run_work,
}
use plakar_edge.Run.Calm.{
  IsCalm, IsFinished, close_logs-IsCalm, post-IsCalm, post-IsFinished, close_logs-IsFinished,
}

module _ (host : Host) (clt : Client) (cfg : Config) (item : WorkItem) where
  pump-Holds :
      (out : List Output) (held : Option ExecReply) (j : Job)
      → Holds held
      → Holds (pump host clt cfg item out held j).0
  unfolding pump
  pump-Holds [] held j h = h
  pump-Holds (errors p ∷ out) held j h =
      pump-Holds out held (write_log host clt item.work_id p j).1 h
  pump-Holds (replies r ∷ out) none j h = elim (Bool-cases (is_terminal r.kind)) [
    | inl e ↦ rw e (pump-Holds out (some r) j e)
    | inr e ↦ rw e (pump-Holds out none (forward_reply host clt cfg item r j).1 h)
  ]
  pump-Holds (replies r ∷ out) (some t) j h = elim (Bool-cases (is_terminal r.kind)) [
    | inl e ↦ rw e (pump-Holds out (some t) (forward_reply host clt cfg item r j).1 h)
    | inr e ↦ rw e (pump-Holds out (some t) (forward_reply host clt cfg item r j).1 h)
  ]

  run_plaklet-Ends : (run : PlakletRun) (j : Job) → Ends (run_plaklet host clt cfg item run j).0
  unfolding run_plaklet
  run_plaklet-Ends (no_stdin e) j = tt
  run_plaklet-Ends (no_stdout e) j = tt
  run_plaklet-Ends (not_started e) j = tt
  run_plaklet-Ends (not_fed stderr e) j = tt
  run_plaklet-Ends (ran out wait) j =
      result_of-Ends host clt cfg item wait (pump host clt cfg item out none j).0
        (pump-Holds out none j tt)

  started-Ends : (c : Result Command) (j : Job) → Ends (started host clt cfg item c j).0
  started-Ends (err e) j = tt
  started-Ends (ok command) j =
      run_plaklet-Ends (host.run_plaklet j.history command (payload host clt cfg item))
        (happens host clt item.work_id (plaklet_attempted command (payload host clt cfg item)) j).1

  spawn_plaklet-Ends : (j : Job) → Ends (spawn_plaklet host clt cfg item j).0
  unfolding spawn_plaklet
  spawn_plaklet-Ends j =
      started-Ends (plaklet_command host clt cfg item (host.executable j.history)) j

  fail-IsFinished : (e : Error) (j : Job) → j.beats ≡ 0 → IsFinished (fail host clt cfg item e j).1
  unfolding fail equal
  fail-IsFinished e j c =
      post-IsFinished host clt item.work_id (message_reply reply_failure (message e))
        (close_logs host clt item.work_id j).1 (close_logs-IsCalm host clt item.work_id j c) refl

  report_post-IsCalm :
      (e : Error) (j : Job) → IsCalm j → IsCalm (report_post host clt cfg item e j).1
  unfolding report_post
  report_post-IsCalm e j c = post-IsCalm host clt item.work_id _ j c

  conclude-IsFinished :
      (r : Result ExecReply) (p : Option Error) (j : Job)
      → IsCalm j
      → Ends r
      → IsFinished (conclude host clt cfg item r p j).1
  unfolding conclude forward_reply
  conclude-IsFinished (err e) none j c h = fail-IsFinished e j c.no_beats
  conclude-IsFinished (err e) (some p) j c h =
      fail-IsFinished e (report_post host clt cfg item p j).1 (report_post-IsCalm p j c).no_beats
  conclude-IsFinished (ok t) none j c h = post-IsFinished host clt item.work_id (reply_of t) j c h
  conclude-IsFinished (ok t) (some p) j c h =
      if_rule {A = M (Unit {0})} (λ m. IsFinished (m j).1) (equal t.kind reply_success)
        (post-IsFinished host clt item.work_id (frozen host clt cfg item p t) j c
          (unfold equal in refl))
        (post-IsFinished host clt item.work_id (reply_of t) (report_post host clt cfg item p j).1
          (report_post-IsCalm p j c) h)

  -- A keepalive that was stopped sends nothing more.
  keep_alive-beats :
      {A : Type 0} (msg : Bytes) (action : M A) (j : Job)
      → (keep_alive host clt item.work_id msg action j).1.beats ≡ 0
  unfolding keep_alive stop_keep_alive
  keep_alive-beats msg action j = refl

  execute-IsFinished : (j : Job) → IsFinished (execute host clt cfg item j).1
  unfolding execute
  execute-IsFinished j =
      let s = spawn_plaklet host clt cfg item j in
      let hook = run_hook host clt cfg item (text "post_job") in
      let h = keep_alive host clt item.work_id (text "running post-hook...") hook s.1 in
      conclude-IsFinished s.0 (wrap_post host clt cfg item h.0)
        (close_logs host clt item.work_id h.1).1
        (close_logs-IsCalm host clt item.work_id h.1
          (keep_alive-beats (text "running post-hook...") hook s.1))
        (spawn_plaklet-Ends j)

  after_pre_hook-IsFinished :
      (r : Result (Unit {0})) (j : Job)
      → j.beats ≡ 0
      → IsFinished (after_pre_hook host clt cfg item r j).1
  after_pre_hook-IsFinished (ok u) j c = execute-IsFinished j
  after_pre_hook-IsFinished (err e) j c = fail-IsFinished (wrapped (text "pre-job hook: ") e) j c

  after_packages-IsFinished :
      (r : Result (Unit {0})) (j : Job)
      → j.beats ≡ 0
      → IsFinished (after_packages host clt cfg item r j).1
  after_packages-IsFinished (err e) j c = fail-IsFinished e j c
  after_packages-IsFinished (ok u) j c =
      let hook = run_hook host clt cfg item (text "pre_job") in
      let h = keep_alive host clt item.work_id (text "running pre-hook...") hook j in
      after_pre_hook-IsFinished h.0 h.1 (keep_alive-beats (text "running pre-hook...") hook j)

  -- Whatever the environment does, and whatever plaklet writes, the last thing that a work does is to
  -- send a terminal reply: when it returns, that reply is its newest event, its log is closed, and no
  -- keepalive is left that could reply after it.
  pub run_work-IsFinished :
      (files : Files) → IsFinished (run_work host clt cfg item (new_job files)).1
  unfolding run_work
  run_work-IsFinished files =
      let packages = ensure_packages host clt cfg item in
      let f =
        keep_alive host clt item.work_id (text "fetching packages...") packages (new_job files) in
      close_logs-IsFinished host clt item.work_id (after_packages host clt cfg item f.0 f.1).1 (
        after_packages-IsFinished f.0 f.1
          (keep_alive-beats (text "fetching packages...") packages (new_job files)))
