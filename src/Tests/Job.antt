-- ===== src/Tests/Job.antt =====
-- A whole work: plaklet succeeds, and the post-hook fails.
use plakar_edge.Base.{true, false, [], ◌∷◌, none, some, Bytes, text, equal}
use plakar_edge.Base.Int.{pos}
use plakar_edge.Client.Fetch.{Download}
use plakar_edge.Client.{ok, plain, Client, answered}
use plakar_edge.Config.{Config}
use plakar_edge.Hooks.{regular}
use plakar_edge.Protocol.{WorkItem, ExecReply, reply_info, reply_success}
use plakar_edge.Run.Host.{
  Host, Command, replies, errors, ran, beat, take_chunk, send_chunk, ScriptRun,
}
use plakar_edge.Run.Job.{Job}
use plakar_edge.Run.Last.{run_work-IsFinished}
use plakar_edge.Run.Calm.{IsFinished}
use plakar_edge.Run.Work.{new_job, run_work}

abbrev pub test_config : Config
test_config = record {
  api_url = text "https://api.example.com";
  state_dir = text "/var/lib/edge";
  plaklet_bin = [];
  pkg_dir = text "/var/lib/edge/pkg";
  poll_hold = pos 30;
  max_parallel = pos 1;
  listen = [];
  metrics = false;
  tags = [];
  scripts_dir = text "/etc/edge/scripts";
  ssh_auth_sock = [];
}

abbrev test_item : WorkItem
test_item = record {
  work_id = 7 ∷ [];
  op = text "backup";
  task_config =
      (text "hooks.pre_job", text "freeze.sh") ∷ (text "hooks.post_job", text "thaw.sh") ∷ [];
  source = none;
  target = none;
}

abbrev test_client : Client
test_client = record { base_url = text "https://api.example.com"; token = text "t" }

-- The second script fails.
abbrev test_script : Command → ScriptRun
test_script c = record {
  output = text "done\n" ∷ [];
  failure = elim (equal c.program (text "/etc/edge/scripts/thaw.sh")) [
    | true ↦ some (plain (text "exit status 1"))
    | false ↦ none
  ];
}

abbrev test_reply : Bytes → ExecReply
test_reply kind = record { kind = kind; message = []; report = []; state = [] }

abbrev test_download : Download
test_download = record {
  created = ok (text "/tmp/x");
  written = [];
  copied = none;
  closed = none;
  renamed = none;
  removed = none;
}

abbrev test_host : Host
test_host = record {
  exchange = λ h r. answered (record { status = 200; status_line = text "200 OK"; payload = [] });
  meanwhile = λ h. beat ∷ take_chunk ∷ send_chunk ∷ [];
  make_dir = λ h. none;
  download = λ h p. test_download;
  stat_script = λ h path. regular;
  run_script = λ h c. test_script c;
  executable = λ h. ok (text "/usr/bin/plakar-edge");
  run_plaklet = λ h c p.
      ran
        (errors (text "warming up\n")
          ∷ replies (test_reply reply_info)
          ∷ replies (test_reply reply_success)
          ∷ [])
        none;
  goos = text "linux";
  goarch = text "amd64";
  uuid_string = λ u. u;
  quote = λ s. s;
  escape_path = λ s. s;
  escape_query = λ s. s;
  validate = λ p. none;
  filename = λ p. p.name;
}

abbrev test_run : Job
unfolding run_work new_job
test_run = (run_work test_host test_client test_config test_item (new_job [])).1

run_work-IsFinished_example : IsFinished test_run
unfolding test_run
run_work-IsFinished_example = run_work-IsFinished test_host test_client test_config test_item []
