-- ===== src/Run/Plaklet.antt =====
-- `spawnPlaklet`: plaklet's process, and the pump of its replies.
use plakar_edge.Base.{
  Bool, true, false, ◌||◌, ◌&&◌, List, [], ◌∷◌, ◌++◌, Option, none, some, Bytes, text, equal,
  is_empty, if◌then◌else◌,
}
use plakar_edge.Client.{Error, plain, wrapped, message, Result, ok, err, Client}
use plakar_edge.Config.{Config, plaklet_pkg_dir, plaklet_cache_dir}
use plakar_edge.Protocol.{
  WorkItem, Reply, ReplyType, reply_success, reply_failure, ExecPayload, ExecReply, index,
}
use plakar_edge.Run.Host.{
  Host, Command, Output, replies, errors, PlakletRun, no_stdin, no_stdout, not_started, not_fed,
  ran, plaklet_attempted, plaklet_ended,
}
use plakar_edge.Run.Job.{M, ◌>>=◌, ◌>>◌, return, happens, post, write_log}

-- The reply that ends a work.
abbrev pub is_terminal : ReplyType → Bool
is_terminal kind = equal kind reply_success || equal kind reply_failure

abbrev pub reply_of : ExecReply → Reply
reply_of r = record { kind = r.kind; message = r.message; report = r.report; state = r.state }

abbrev option_flag : Bytes → Bytes → List Bytes
option_flag flag v = if is_empty v then [] else flag ∷ v ∷ []

module _ (host : Host) (clt : Client) (cfg : Config) (item : WorkItem) where
  -- `forwardReply`
  unfoldable pub forward_reply : ExecReply → M (Unit {0})
  unfolding post
  forward_reply r = post host clt item.work_id (reply_of r)

  unfoldable pub plaklet_args : List Bytes
  unfolding plaklet_pkg_dir plaklet_cache_dir index
  plaklet_args =
      text "-pkg"
      ∷ plaklet_pkg_dir cfg
      ∷ text "-cache"
      ∷ plaklet_cache_dir cfg
      ∷ text "-quiet"
      ∷ (option_flag (text "-cpu") (index item.task_config (text "exec.cpu"))
          ++ option_flag (text "-concurrency") (index item.task_config (text "exec.concurrency")))

  abbrev command_of : Bytes → List Bytes → Command
  command_of program args = record {
    program = program;
    args = args;
    dir = [];
    env =
        if is_empty cfg.ssh_auth_sock
        then []
        else (text "SSH_AUTH_SOCK=" ++ cfg.ssh_auth_sock) ∷ [];
  }

  abbrev own_command : Result Bytes → Result Command
  own_command (ok self) = ok (command_of self (text "plaklet" ∷ plaklet_args))
  own_command (err e) = err (wrapped (text "cannot locate own executable to run plaklet: ") e)

  -- The edge's own executable, unless another one was given.
  unfoldable pub plaklet_command : Result Bytes → Result Command
  unfolding plaklet_args
  plaklet_command self =
      if is_empty cfg.plaklet_bin
      then own_command self
      else ok (command_of cfg.plaklet_bin plaklet_args)

  unfoldable pub payload : ExecPayload
  payload = record {
    op = item.op;
    task_config = item.task_config;
    source = item.source;
    target = item.target;
  }

  abbrev is_none : Option ExecReply → Bool
  is_none none = true
  is_none (some r) = false

  -- The pump: the first terminal reply is held, everything else is forwarded.
  unfoldable pub pump : List Output → Option ExecReply → M (Option ExecReply)
  unfolding forward_reply
  pump [] terminal = return terminal
  pump (errors p ∷ out) terminal = do write_log host clt item.work_id p; pump out terminal
  pump (replies r ∷ out) terminal =
      let hold = pump out (some r) in
      let forward = pump out terminal in
      if is_terminal r.kind && is_none terminal then hold else (do forward_reply r; forward)

  abbrev pub result_of : Option Error → Option ExecReply → Result ExecReply
  result_of wait (some r) = ok r
  result_of none none = err (plain (text "plaklet exited without a result"))
  result_of (some e) none = err (plain (text "plaklet exited abnormally: " ++ message e))

  unfoldable pub write_all : List Bytes → M (Unit {0})
  write_all [] = return tt
  write_all (p ∷ ps) = do write_log host clt item.work_id p; write_all ps

  unfoldable pub run_plaklet : PlakletRun → M (Result ExecReply)
  unfolding pump write_all
  run_plaklet (no_stdin e) = return (err e)
  run_plaklet (no_stdout e) = return (err e)
  run_plaklet (not_started e) = return (err (wrapped (text "failed to start plaklet: ") e))
  run_plaklet (not_fed stderr e) = do
    write_all stderr
    return (err (wrapped (text "failed to send payload to plaklet: ") e))
  run_plaklet (ran out wait) = do terminal ← pump out none; return (result_of wait terminal)

  abbrev pub started : Result Command → M (Result ExecReply)
  started (err e) j = (err e, j)
  started (ok command) j =
      (do
        happens host clt item.work_id (plaklet_attempted command payload)
        run_plaklet (host.run_plaklet j.history command payload))
        j

  -- The end of plaklet is recorded.
  abbrev recorded : Result ExecReply → M (Result ExecReply)
  recorded r = do happens host clt item.work_id (plaklet_ended r); return r

  -- `spawnPlaklet`
  unfoldable pub spawn_plaklet : M (Result ExecReply)
  unfolding plaklet_command payload run_plaklet
  spawn_plaklet j = (do r ← started (plaklet_command (host.executable j.history)); recorded r) j
