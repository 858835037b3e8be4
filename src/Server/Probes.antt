-- ===== src/Server/Probes.antt =====
-- The two probes of the supervision server, over the life of the daemon.
use plakar_edge.Base.{◌≡◌, refl, ap, ◌∙◌, ◌↔◌, Bool, true, false, text, equal, is_empty}
use plakar_edge.Server.{
  ServerConfig, health_page, write_json, serve, Stage, identifying, online, polling, draining,
  returned, leaving, Daemon, new_daemon, go_online, enter, go_offline, sets_ready, polls, drains,
  returns, unsets_ready, Reach, here, next,
}

-- `main` is between its two calls of `setReady`.
pub data IsUp : Stage → Type 0 where
  online_up : IsUp online
  polling_up : IsUp polling
  draining_up : IsUp draining
  returned_up : IsUp returned

abbrev is_up : Stage → Bool
is_up identifying = false
is_up online = true
is_up polling = true
is_up draining = true
is_up returned = true
is_up leaving = false

Reach-ready : {d : Daemon} → Reach d → d.health.ready ≡ is_up d.stage
unfolding new_daemon go_online enter go_offline
Reach-ready here = refl
Reach-ready (next r (sets_ready d e)) = refl
Reach-ready (next r (polls d e)) = Reach-ready r ∙ ap is_up e
Reach-ready (next r (drains d e)) = Reach-ready r ∙ ap is_up e
Reach-ready (next r (returns d e)) = Reach-ready r ∙ ap is_up e
Reach-ready (next r (unsets_ready d e)) = refl

ready_page-IsUp : (s : Stage) → (write_json (is_up s) ≡ health_page 200 (text "ok")) ↔ IsUp s
unfolding write_json
ready_page-IsUp identifying = (λ e. absurd (cc), elim [ ])
ready_page-IsUp online = (λ e. online_up, λ e. refl)
ready_page-IsUp polling = (λ e. polling_up, λ e. refl)
ready_page-IsUp draining = (λ e. draining_up, λ e. refl)
ready_page-IsUp returned = (λ e. returned_up, λ e. refl)
ready_page-IsUp leaving = (λ e. absurd (cc), elim [ ])

-- Wherever the daemon is, a server that listens answers the liveness probe with 200, and the readiness
-- probe with 200 exactly from the call of `setReady` before `pollLoop` to the one after it has returned:
-- while the daemon polls, and also while it polls no more and waits for the works that still run.
pub probes_iff :
    {d : Daemon}
    → Reach d
    → (cfg : ServerConfig) (registry_built : Bool) → is_empty cfg.addr ≡ false
    → (serve cfg registry_built d.health (text "/health") ≡ health_page 200 (text "ok"))
      × ((serve cfg registry_built d.health (text "/ready") ≡ health_page 200 (text "ok"))
          ↔ IsUp d.stage)
unfolding serve equal
probes_iff {d} r cfg registry_built listens =
    rw (listens, Reach-ready r) (unfold write_json in refl, ready_page-IsUp d.stage)
