-- ===== src/Tests/SshAgent.antt =====
-- An agent that binds its socket, is killed and restarted, and ends with the daemon.
use plakar_edge.Base.{refl, true, false, none, text}
use plakar_edge.Agent.{
  Agent, removed, launch, bind, die, restart, leave, Reach, here, next, binds, dies, restarts,
  leaves, ends,
}
use plakar_edge.Agent.Tidy.{Tidy, Reach-Tidy}
use plakar_edge.Client.{ok}

abbrev launched : Agent
unfolding launch
launched = launch (ok (text "/usr/bin/ssh-agent")) (ok (text "/tmp/agent")) none removed

abbrev bound : Agent
unfolding launched bind
bound = bind launched

abbrev restarted : Agent
unfolding bound die restart
restarted = restart true none (die true bound)

abbrev ending : Agent
unfolding restarted
ending = record restarted { ended = true }

abbrev returned_agent : Agent
unfolding ending die
returned_agent = die false ending

abbrev over : Agent
unfolding returned_agent leave
over = leave removed returned_agent

over-Reach : Reach (ok (text "/usr/bin/ssh-agent")) (ok (text "/tmp/agent")) none removed over
unfolding launched bound restarted ending returned_agent over launch bind die restart leave
over-Reach =
    next
      (next
        (next
          (next (next (next here (binds launched refl refl)) (dies bound true refl refl))
            (restarts (die true bound) true none refl refl))
          (ends restarted refl))
        (dies ending false refl refl))
      (leaves returned_agent removed refl refl)

Reach-Tidy_example : Tidy over
unfolding over
Reach-Tidy_example = Reach-Tidy over-Reach
