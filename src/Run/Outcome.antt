-- ===== src/Run/Outcome.antt =====
-- `runWork` as a whole: what the control plane learns of a work's end, against what happened.
use plakar_edge.Base.{Bool, true, false, ◌&&◌, List, [], ◌∷◌, Bytes, text}
use plakar_edge.Client.{Result, Client}
use plakar_edge.Config.{Config}
use plakar_edge.Protocol.{WorkItem}
use plakar_edge.Run.Hook.{run_hook}
use plakar_edge.Run.Host.{Host}
use plakar_edge.Run.Job.{Job, M, keep_alive}
use plakar_edge.Run.Milestones.{Milestone, packaged, spawned, ended}
use plakar_edge.Run.Steps.{HookRun}

-- How a work may go, the newest milestone first. There is one end, and it comes last.
pub data IsRun (host : Host) (clt : Client) (cfg : Config) (item : WorkItem)
    : List Milestone → Type 0 where
  -- `ensurePackages` failed: neither a hook nor plaklet is run.
  no_packages : IsRun host clt cfg item (ended false ∷ packaged false ∷ [])
  -- It did not, and the pre-hook that the task names failed: nothing else is run.
  refused :
      {ms : List Milestone}
      → HookRun host clt cfg item (text "pre_job") (packaged true ∷ []) false ms
      → IsRun host clt cfg item (ended false ∷ ms)
  -- The pre-hook passed or none is named; plaklet had its turn; the post-hook went whatever plaklet
  -- said; and the work is a success just when plaklet and the post-hook are.
  carried_out :
      {ms ns : List Milestone} {p q : Bool}
      → HookRun host clt cfg item (text "pre_job") (packaged true ∷ []) true ms
      → HookRun host clt cfg item (text "post_job") (spawned p ∷ ms) q ns
      → IsRun host clt cfg item (ended (p && q) ∷ ns)

module _ (host : Host) (clt : Client) (cfg : Config) (item : WorkItem) where
  -- A hook under its keepalive.
  abbrev kept_hook : Bytes → Bytes → M (Result (Unit {0}))
  kept_hook msg hook = keep_alive host clt item.work_id msg (run_hook host clt cfg item hook)
