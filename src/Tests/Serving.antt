-- ===== src/Tests/Serving.antt =====
-- The probes of a daemon that polls no more, and waits for its works.
use plakar_edge.Base.{◌≡◌, refl, ◌↔◌, true, text}
use plakar_edge.Server.Probes.{probes_iff, IsUp}
use plakar_edge.Server.{
  ServerConfig, health_page, serve, Daemon, polling, draining, new_daemon, go_online, enter, Reach,
  here, next, sets_ready, polls, drains,
}

abbrev a_server : ServerConfig
a_server = record { addr = text "127.0.0.1:9877"; metrics = true }

abbrev a_daemon : Daemon
unfolding new_daemon go_online enter
a_daemon = enter draining (enter polling (go_online new_daemon))

a_daemon-Reach : Reach a_daemon
unfolding a_daemon new_daemon go_online enter
a_daemon-Reach =
    next (next (next here (sets_ready new_daemon refl)) (polls (go_online new_daemon) refl))
      (drains (enter polling (go_online new_daemon)) refl)

probes_iff_example :
    (serve a_server true a_daemon.health (text "/health") ≡ health_page 200 (text "ok"))
    × ((serve a_server true a_daemon.health (text "/ready") ≡ health_page 200 (text "ok"))
        ↔ IsUp a_daemon.stage)
unfolding a_daemon
probes_iff_example = probes_iff a_daemon-Reach a_server true refl
