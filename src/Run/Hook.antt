-- ===== src/Run/Hook.antt =====
-- `runHook`: a hook script of the task, if it names one.
use plakar_edge.Base.{List, [], ◌∷◌, ◌++◌, Option, none, some, Bytes, text, is_empty, if◌then◌else◌}
use plakar_edge.Client.{Error, plain, wrapped, message, Result, ok, err, Client}
use plakar_edge.Config.{Config}
use plakar_edge.Hooks.{hook_script, resolve_hook_script, TailBuffer, write, bytes, output_tail}
use plakar_edge.Protocol.{WorkItem}
use plakar_edge.Run.Host.{Host, Command, hook_done, script_started}
use plakar_edge.Run.Job.{M, ◌>>=◌, ◌>>◌, return, happens, write_log, succeeded}

module _ (host : Host) (clt : Client) (cfg : Config) (item : WorkItem) where
  -- `io.MultiWriter(logs, tail)`, for each piece of output.
  unfoldable pub copy_output : List Bytes → TailBuffer → M TailBuffer
  copy_output [] t = return t
  copy_output (p ∷ ps) t = do write_log host clt item.work_id p; copy_output ps (write t p)

  unfoldable pub script_command : Bytes → Bytes → Command
  script_command hook path = record {
    program = path;
    args = [];
    dir = cfg.scripts_dir;
    env =
        (text "PLAKAR_WORK_ID=" ++ host.uuid_string item.work_id)
        ∷ (text "PLAKAR_OP=" ++ item.op)
        ∷ (text "PLAKAR_HOOK=" ++ hook)
        ∷ [];
  }

  abbrev pub ran_script : Bytes → Option Error → TailBuffer → Result (Unit {0})
  ran_script name none tail = ok tt
  ran_script name (some e) tail = err (
      wrapped (text "script " ++ (host.quote name ++ text ": "))
        (plain (message e ++ output_tail (bytes tail))))

  -- The script `name`, at `path`, runs.
  unfoldable pub run_script : Bytes → Bytes → Bytes → M (Result (Unit {0}))
  unfolding script_command copy_output
  run_script hook name path j =
      let command = script_command hook path in
      let run = host.run_script j.history command in
      (do
        write_log host clt item.work_id
            (text "running " ++ (hook ++ (text " hook " ++ (host.quote name ++ text "\n"))))
        happens host clt item.work_id (script_started command)
        tail ← copy_output run.output (record { max = 4096; buf = [] })
        return (ran_script name run.failure tail))
        j

  abbrev pub resolved : Bytes → Bytes → Result Bytes → M (Result (Unit {0}))
  resolved hook name (ok path) = run_script hook name path
  resolved hook name (err e) = return (err e)

  -- The hook named `name`: resolve it, run it, and record how it went.
  unfoldable pub run_named : Bytes → Bytes → M (Result (Unit {0}))
  unfolding run_script
  run_named hook name j =
      (do
        r ←
            resolved hook name
              (resolve_hook_script host.quote (host.stat_script j.history) cfg.scripts_dir name)
        happens host clt item.work_id (hook_done hook (succeeded r))
        return r)
        j

  -- `runHook`
  unfoldable pub run_hook : Bytes → M (Result (Unit {0}))
  unfolding run_named
  run_hook hook =
      if is_empty (hook_script item hook)
      then return (ok tt)
      else run_named hook (hook_script item hook)
