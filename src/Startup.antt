-- ===== src/Startup.antt =====
-- main.go: how the edge comes by its identity, in `main` up to the poll loop.
-- The disk's answers, the network, the JSON of the state file and `uuid.Parse` are arguments. `fatal`
-- ends the process, and is a result here.
pub mod Boot
pub mod Reboot
pub mod Retries
use plakar_edge.Base.{
  Bool, true, false, ◌&&◌, List, [], ◌∷◌, ◌++◌, Option, none, some, ℕ, Bytes, text, is_empty, leb,
  ltb, ◌==◌, if◌then◌else◌,
}
use plakar_edge.Client.Fetch.{Files, read, remove, put, clean}
use plakar_edge.Client.{
  Error, plain, wrapped, message, http_status, Result, ok, err, Request, Exchange, Client, Decoded,
  enroll, enroll_into_pool,
}
use plakar_edge.Config.{Config, state_path}
use plakar_edge.Protocol.{
  Uuid, SystemInfo, EnrollRequest, PoolEnrollRequest, EnrollResponse, edge_protocol_version,
}

-- `state`
pub record State : Type 0 where
  pub edge_id : Bytes
  pub token : Bytes

-- `poolEnrollmentKeyOrEnv`
unfoldable pub pool_enrollment_key_or_env : (flag_value env : Bytes) → Bytes
pool_enrollment_key_or_env flag_value env = if is_empty flag_value then env else flag_value

-- `checkEnrollFlags`
unfoldable pub check_enroll_flags : (pool_key key organization : Bytes) → Option Error
check_enroll_flags pool_key key organization =
    if is_empty pool_key
    then none
    else if is_empty key
    then (if is_empty organization
        then none
        else some (
            plain (
              text
                "-pool-enroll (or PLAKAR_EDGE_POOL_ENROLL_KEY) and -organization are mutually exclusive")))
    else some (
        plain
          (text "-pool-enroll (or PLAKAR_EDGE_POOL_ENROLL_KEY) and -enroll are mutually exclusive"))

-- The disk while the edge starts: whether the state file can be read, and the errors of each call of
-- `checkStateWritable` and `saveState`. A write that fails leaves some part of the file.
pub record Disk : Type 0 where
  pub unreadable : Option Error
  pub made : Option Error
  pub probe : Result Bytes
  pub probe_written : Option Error
  pub probe_synced : Option Error
  pub probe_closed : Option Error
  -- What a failed write leaves in the probe.
  pub probe_part : Bytes
  -- The error of the deferred `os.Remove`, which the code ignores.
  pub probe_removed : Option Error
  pub saved_dir : Option Error
  pub saved : Option Error
  pub part : Bytes

abbrev pub failing : Bytes → Option Error → Option Error → Option Error
failing what none rest = rest
failing what (some e) rest = some (wrapped what e)

abbrev pub probe_content : Disk → Bytes
probe_content d = elim d.probe_written [ some e ↦ d.probe_part | none ↦ text "{}" ]

-- Once the probe is there, its removal is tried whatever else fails.
abbrev pub probed : Disk → Result Bytes → Files → Option Error × Files
probed d (err e) fs = (some (wrapped (text "create file in state directory: ") e), fs)
probed d (ok path) fs = (
  failing (text "write file in state directory: ") d.probe_written (
      failing (text "sync file in state directory: ") d.probe_synced
        (failing (text "close file in state directory: ") d.probe_closed none)),
  clean d.probe_removed path (put path (probe_content d) fs),
)

-- `checkStateWritable`
unfoldable pub check_state_writable : Disk → Files → Option Error × Files
unfolding put remove
check_state_writable d fs = elim d.made [
  | some e ↦ (some (wrapped (text "create state directory: ") e), fs)
  | none ↦ probed d d.probe fs
]

-- What `loadState` finds: a state, no file (`os.IsNotExist`), or another error.
pub data Loaded : Type 0 where
  loaded : State → Loaded
  missing : Loaded
  unusable : Error → Loaded

-- How the start ends. `enrolling`: every attempt so far was in vain, and the next is due.
pub data Booted : Type 0 where
  resumed : State → Booted
  enrolled : State → Booted
  stopped : Booted
  fatal : Bytes → Booted
  enrolling : Booted

-- One round of the enrollment loop: whether the context has ended, what the network does, and whether
-- the context ends before the delay is over.
pub record Round : Type 0 where
  pub ended : Bool
  pub http : Request → Exchange
  pub ended_waiting : Bool

-- A 4xx is not retried.
abbrev pub is_definitive : Option ℕ → Bool
is_definitive none = false
is_definitive (some status) = leb 400 status && ltb status 500

abbrev pub is_conflict : Option ℕ → Bool
is_conflict none = false
is_conflict (some status) = status == 409

abbrev pub rejection : Error → Bytes
rejection e =
    text "enrollment rejected: "
    ++ (message e
        ++ (if is_conflict (http_status e)
            then text "; choose a different -name or remove the existing edge"
            else []))

module _ (encode : State → Bytes) (decode : Bytes → Result State) (uuid_string : Uuid → Bytes)
    (cfg : Config) where
  abbrev decoded : Result State → Loaded
  decoded (ok s) = loaded s
  decoded (err e) = unusable e

  abbrev found : Option Bytes → Loaded
  found none = missing
  found (some b) = decoded (decode b)

  -- `loadState`
  unfoldable pub load_state : Option Error → Files → Loaded
  unfolding state_path
  load_state (some e) fs = unusable e
  load_state none fs = found (read fs (state_path cfg))

  -- `saveState`
  unfoldable pub save_state : Disk → State → Files → Option Error × Files
  unfolding put state_path
  save_state d s fs = elim d.saved_dir [
    | some e ↦ (some e, fs)
    | none ↦ elim d.saved [
      | some e ↦ (some e, put (state_path cfg) d.part fs)
      | none ↦ (none, put (state_path cfg) (encode s) fs)
    ]
  ]

  abbrev pub state_of : EnrollResponse → State
  state_of resp = record { edge_id = uuid_string resp.edge_id; token = resp.token }

  abbrev pub persisted : State → Option Error × Files → Booted × Files
  persisted s (some e, fs) = (fatal (text "failed to persist identity: " ++ message e), fs)
  persisted s (none, fs) = (enrolled s, fs)

  -- What a round does with the answer of `send`.
  abbrev pub after_send :
      Disk → Result EnrollResponse → Bool → Files → (retry : Booted × Files) → Booted × Files
  after_send d (ok resp) waited fs retry =
      persisted (state_of resp) (save_state d (state_of resp) fs)
  after_send d (err e) waited fs retry =
      if is_definitive (http_status e)
      then (fatal (rejection e), fs)
      else if waited
      then (stopped, fs)
      else retry

  -- `enroll`
  unfoldable pub enroll_loop :
      ((Request → Exchange) → Result EnrollResponse) → Disk → List Round → Files → Booted × Files
  unfolding save_state
  enroll_loop send d [] fs = (enrolling, fs)
  enroll_loop send d (r ∷ rounds) fs =
      let retry = enroll_loop send d rounds fs in
      if r.ended then (stopped, fs) else after_send d (send r.http) r.ended_waiting fs retry
