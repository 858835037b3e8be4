-- ===== src/Run/Host.antt =====
-- The environment of a work, and the events that are recorded of it. Whatever the environment does
-- may depend on all that happened before: each of its answers is a function of the history.
use plakar_edge.Base.{Bool, List, Bytes, Option}
use plakar_edge.Client.Fetch.{Package, Download}
use plakar_edge.Client.{Error, Result, Request, Exchange}
use plakar_edge.Hooks.{Stat}
use plakar_edge.Protocol.{Uuid, Reply, ExecPayload, ExecReply}

-- A process to start: its program and arguments, its directory (empty: the edge's own), and what is
-- added to the edge's environment.
pub record Command : Type 0 where
  pub program : Bytes
  pub args : List Bytes
  pub dir : Bytes
  pub env : List Bytes

-- What a script does: the output that it writes, piece by piece, and the error of `cmd.Run`.
pub record ScriptRun : Type 0 where
  pub output : List Bytes
  pub failure : Option Error

-- What plaklet writes, in order: a reply to its standard output, or a piece to its standard error.
pub data Output : Type 0 where
  replies : ExecReply → Output
  errors : Bytes → Output

-- What becomes of plaklet: one of the calls that start and feed it fails, or it runs. Its reply stream
-- ends by an end of file or by a reply that cannot be decoded, which the code treats alike.
pub data PlakletRun : Type 0 where
  no_stdin : Error → PlakletRun
  no_stdout : Error → PlakletRun
  not_started : Error → PlakletRun
  -- The payload does not reach it; what it wrote to its standard error until it ended.
  not_fed : (stderr : List Bytes) → Error → PlakletRun
  ran : List Output → (wait : Option Error) → PlakletRun

pub data Event : Type 0 where
  -- A reply was posted; whether `clt.Reply` returned no error.
  posted : Reply → (delivered : Bool) → Event
  fetched : Package → Bytes → Option Error → Event
  -- `ensurePackages` is over; whether it returned no error.
  packages_done : (passed : Bool) → Event
  -- A hook that the task names was run, or refused.
  hook_done : (hook : Bytes) → (passed : Bool) → Event
  script_started : Command → Event
  -- Plaklet was to be started.
  plaklet_attempted : Command → ExecPayload → Event
  -- Plaklet is over, with the terminal reply that was held back, or an error.
  plaklet_ended : Result ExecReply → Event

-- The newest first.
abbrev pub History : Type 0
History = List Event

-- What the goroutines beside the work's own do when they get their turn: the keepalive sends its
-- reply, or the log streamer goes on with a round of its periodic flush.
pub data Turn : Type 0 where
  beat : Turn
  take_chunk : Turn
  send_chunk : Turn

pub record Host : Type 0 where
  -- The network and the control plane.
  pub exchange : History → Request → Exchange
  -- The turns of the other goroutines before the next action of the work.
  pub meanwhile : History → List Turn
  -- The file system.
  pub make_dir : History → Option Error
  pub download : History → Package → Download
  pub stat_script : History → Bytes → Stat
  -- Processes.
  pub run_script : History → Command → ScriptRun
  pub executable : History → Result Bytes
  pub run_plaklet : History → Command → ExecPayload → PlakletRun
  -- The build's platform, and functions of other packages: `UUID.String`, `%q`, the escapes of
  -- `net/url`, and `Validate` and `Filename` of `pkg.Package`.
  pub goos : Bytes
  pub goarch : Bytes
  pub uuid_string : Uuid → Bytes
  pub quote : Bytes → Bytes
  pub escape_path : Bytes → Bytes
  pub escape_query : Bytes → Bytes
  pub validate : Package → Option Error
  pub filename : Package → Bytes
