-- ===== src/Server.antt =====
-- server.go: what the supervision server answers, and when `main` of main.go makes it report ready.
-- `net/http` and the metrics registry are other packages: of the registry, it is an argument whether it
-- could be built.
pub mod Probes
use plakar_edge.Base.{ℕ, ◌≡◌, Bool, true, false, ◌&&◌, Bytes, text, equal, is_empty, if◌then◌else◌}

pub record Health : Type 0 where
  pub ready : Bool

pub record ServerConfig : Type 0 where
  pub addr : Bytes
  pub metrics : Bool

-- What a request to a path gets: nothing listens, no such path, the metrics, or a status with the field
-- `status` of the body.
pub data Answer : Type 0 where
  refused : Answer
  not_found : Answer
  metrics_page : Answer
  health_page : (code : ℕ) (status : Bytes) → Answer

-- `setReady`
unfoldable pub set_ready : Bool → Health → Health
set_ready ready h = record h { ready = ready }

-- `writeJSON`
unfoldable pub write_json : Bool → Answer
write_json ok = if ok then health_page 200 (text "ok") else health_page 503 (text "not_ready")

-- `startServer`: its handlers, by the path.
unfoldable pub serve : ServerConfig → (registry_built : Bool) → Health → Bytes → Answer
unfolding write_json
serve cfg registry_built h path =
    if is_empty cfg.addr
    then refused
    else if equal path (text "/health")
    then write_json true
    else if equal path (text "/ready")
    then write_json h.ready
    else if equal path (text "/metrics")
    then (if cfg.metrics && registry_built then metrics_page else not_found)
    else not_found

-- Where `main` is, once the server is up.
pub data Stage : Type 0 where
  -- No identity yet, or no ssh-agent.
  identifying : Stage
  -- Ready, and about to call `pollLoop`.
  online : Stage
  polling : Stage
  -- `pollLoop` polls no more, and waits for the works that still run.
  draining : Stage
  -- `pollLoop` has returned.
  returned : Stage
  leaving : Stage

pub record Daemon : Type 0 where
  pub stage : Stage
  pub health : Health

unfoldable pub new_daemon : Daemon
new_daemon = record { stage = identifying; health = record { ready = false } }

unfoldable pub go_online : Daemon → Daemon
unfolding set_ready
go_online d = record { stage = online; health = set_ready true d.health }

-- What `pollLoop` does leaves the health alone.
unfoldable pub enter : Stage → Daemon → Daemon
enter s d = record d { stage = s }

unfoldable pub go_offline : Daemon → Daemon
unfolding set_ready
go_offline d = record { stage = leaving; health = set_ready false d.health }

pub data Step : Daemon → Daemon → Type 0 where
  sets_ready : (d : Daemon) → d.stage ≡ identifying → Step d (go_online d)
  polls : (d : Daemon) → d.stage ≡ online → Step d (enter polling d)
  drains : (d : Daemon) → d.stage ≡ polling → Step d (enter draining d)
  returns : (d : Daemon) → d.stage ≡ draining → Step d (enter returned d)
  unsets_ready : (d : Daemon) → d.stage ≡ returned → Step d (go_offline d)

pub data Reach : Daemon → Type 0 where
  here : Reach new_daemon
  next : {d e : Daemon} → Reach d → Step d e → Reach e
