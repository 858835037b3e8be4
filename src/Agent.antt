-- ===== src/Agent.antt =====
-- sshagent.go: the ssh-agent that the edge runs for plaklet, on Unix. Its supervisor restarts it, and
-- `startSSHAgent` itself waits for the socket beside the supervisor.
-- What the operating system does, and which of the ready cases a `select` takes, is free.
pub mod Tidy
use plakar_edge.Base.{
  ◌≡◌, Bool, true, false, not, ◌&&◌, ◌++◌, [], Option, none, some, Bytes, text, if◌then◌else◌,
}
use plakar_edge.Client.{Error, plain, Result, ok, err}
use plakar_edge.Paths.{join}

-- The supervising goroutine: an agent's process runs, or it is about to be restarted, or the goroutine
-- returns and its deferred `os.RemoveAll` is due, or it has returned (or was never started).
pub data Supervisor : Type 0 where
  supervising : Supervisor
  sleeping : Supervisor
  returning : Supervisor
  gone : Supervisor

pub data Waiter : Type 0 where
  waiting : Waiter
  returned : Result Bytes → Waiter

-- What `os.RemoveAll` does: it removes the directory, or it fails, and perhaps leaves the socket too.
pub data Removal : Type 0 where
  removed : Removal
  not_removed : (socket_left : Bool) → Removal

pub record Agent : Type 0 where
  pub supervisor : Supervisor
  pub waiter : Waiter
  -- The socket's path.
  pub sock : Bytes
  -- The channel `exited` is closed.
  pub exited : Bool
  -- The private directory, and the socket in it, are there.
  pub dir : Bool
  pub socket : Bool
  -- The daemon's context has ended.
  pub ended : Bool
  -- A call of `os.RemoveAll` failed.
  pub unremoved : Bool
  -- The edge's process runs.
  pub running : Bool

abbrev pub not_launched : Error → Agent
not_launched e = record {
  supervisor = gone;
  waiter = returned (err e);
  sock = [];
  exited = false;
  dir = false;
  socket = false;
  ended = false;
  unremoved = false;
  running = true;
}

-- `os.RemoveAll`, which takes the socket with the directory.
unfoldable pub remove_all : Removal → Agent → Agent
remove_all removed a = record a { dir = false; socket = false }
remove_all (not_removed left) a = record a { socket = a.socket && left; unremoved = true }

-- `startSSHAgent` up to its goroutine: the lookup of the program, the directory, the first start, which
-- removes the directory again if it fails.
unfoldable pub launch : Result Bytes → Result Bytes → Option Error → Removal → Agent
unfolding remove_all
launch (err e) dir start r = not_launched e
launch (ok bin) (err e) start r = not_launched e
launch (ok bin) (ok dir) (some e) r = remove_all r (record (not_launched e) { dir = true })
launch (ok bin) (ok dir) none r = record {
  supervisor = supervising;
  waiter = waiting;
  sock = join dir (text "agent.sock");
  exited = false;
  dir = true;
  socket = false;
  ended = false;
  unremoved = false;
  running = true;
}

-- The agent binds its socket.
unfoldable pub bind : Agent → Agent
bind a = record a { socket = true }

-- The goroutine is over once its deferred `os.RemoveAll` has run.
unfoldable pub leave : Removal → Agent → Agent
unfolding remove_all
leave r a = record (remove_all r a) { supervisor = gone }

-- The process ends; it leaves its socket behind if it was killed.
unfoldable pub die : (killed : Bool) → Agent → Agent
die killed a =
    let b : Agent = record a { exited = true; socket = a.socket && killed } in
    if a.ended then record b { supervisor = returning } else record b { supervisor = sleeping }

-- After the second's sleep: the old socket is removed, if it can be, and the agent started again.
unfoldable pub restart : (unlinked : Bool) → Option Error → Agent → Agent
restart unlinked start a =
    let b : Agent = record a { socket = a.socket && not unlinked } in
    if a.ended then record a { supervisor = returning } else elim start [
      | some e ↦ record b { supervisor = returning }
      | none ↦ record b { supervisor = supervising }
    ]

-- The case that `select` takes.
pub data Choice : Type 0 where
  sees_exit : Choice
  sees_end : Choice
  sees_tick : (expired : Bool) → Choice

abbrev pub chosen : Choice → Bytes → Waiter
chosen sees_exit sock = returned (err (plain (text "ssh-agent exited before creating " ++ sock)))
chosen sees_end sock = returned (err (plain (text "context canceled")))
chosen (sees_tick true) sock = returned (err (plain (text "ssh-agent did not create " ++ sock)))
chosen (sees_tick false) sock = waiting

-- A round of the wait.
unfoldable pub await : Choice → Agent → Agent
await c a = record a { waiter = if a.socket then returned (ok a.sock) else chosen c a.sock }

-- Whether the case is ready.
abbrev pub IsReady : Choice → Agent → Type 0
IsReady sees_exit a = a.exited ≡ true
IsReady sees_end a = a.ended ≡ true
IsReady (sees_tick expired) a = Unit

-- The end of the edge's process, which waits for no goroutine, ends them all: no step follows it.
pub data Step : Agent → Agent → Type 0 where
  binds : (a : Agent) → a.running ≡ true → a.supervisor ≡ supervising → Step a (bind a)
  dies :
      (a : Agent) (killed : Bool)
      → a.running ≡ true
      → a.supervisor ≡ supervising
      → Step a (die killed a)
  restarts :
      (a : Agent) (unlinked : Bool) (start : Option Error)
      → a.running ≡ true
      → a.supervisor ≡ sleeping
      → Step a (restart unlinked start a)
  leaves :
      (a : Agent) (r : Removal) → a.running ≡ true → a.supervisor ≡ returning → Step a (leave r a)
  awaits :
      (a : Agent) (c : Choice)
      → a.running ≡ true
      → a.waiter ≡ waiting
      → IsReady c a
      → Step a (await c a)
  ends : (a : Agent) → a.running ≡ true → Step a (record a { ended = true })
  exits : (a : Agent) → a.running ≡ true → Step a (record a { running = false })

pub data Reach (bin dir : Result Bytes) (start : Option Error) (r : Removal) : Agent → Type 0 where
  here : Reach bin dir start r (launch bin dir start r)
  next : {a b : Agent} → Reach bin dir start r a → Step a b → Reach bin dir start r b
