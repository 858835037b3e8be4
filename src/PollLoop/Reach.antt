-- ===== src/PollLoop/Reach.antt =====
-- The loop and its works, interleaved: every order in which their steps may come.
use plakar_edge.Base.{◌≡◌, Bool, true, List, ◌∷◌, ◌++◌, Option}
use plakar_edge.Base.Int.{ℤ}
use plakar_edge.Client.{Result}
use plakar_edge.PollLoop.{
  Loop, Work, ready, polling, backing_off, new_loop, begin_poll, dispatch, resume, finish_work,
  release_slot,
}
use plakar_edge.Protocol.{WorkItem}

-- What the control plane and the network may answer a poll that reports so many slots.
abbrev pub Server : Type 1
Server = ℤ → Result (Option WorkItem) → Type 0

pub data Step (server : Server) : Loop → Loop → Type 0 where
  polls : (s : Loop) → s.phase ≡ ready → Step server s (begin_poll s)
  answers :
      (s : Loop) (reported : ℤ) (interrupted : Bool) (answer : Result (Option WorkItem))
      → s.phase ≡ polling reported interrupted
      → server reported answer
      → Step server s (dispatch interrupted answer s)
  resumes :
      (s : Loop) (ended : Bool)
      → s.phase ≡ backing_off
      → (ended ≡ true → s.shutdown ≡ true)
      → Step server s (resume ended s)
  -- `runWork` returns in any of the running goroutines.
  finishes :
      (s : Loop) (w : Work) (before after : List Work)
      → s.running ≡ before ++ w ∷ after
      → Step server s (finish_work w (before ++ after) s)
  releases :
      (s : Loop) (w : Work) (before after : List Work)
      → s.finishing ≡ before ++ w ∷ after
      → Step server s (release_slot (before ++ after) s)
  shuts_down : (s : Loop) → Step server s (record s { shutdown = true })

pub data Reach (server : Server) (max_parallel : ℤ) : Loop → Type 0 where
  here : Reach server max_parallel (new_loop max_parallel)
  next : {s t : Loop} → Reach server max_parallel s → Step server s t → Reach server max_parallel t

-- An invariant that every step keeps holds of every reachable state.
pub Reach-invariant {ℓ} :
    {server : Server} {max_parallel : ℤ} (P : Loop → Type ℓ)
    → P (new_loop max_parallel)
    → ((s t : Loop) → Step server s t → P s → P t)
    → {s : Loop} → Reach server max_parallel s
    → P s
Reach-invariant P start keeps here = start
Reach-invariant P start keeps (next r st) = keeps _ _ st (Reach-invariant P start keeps r)
