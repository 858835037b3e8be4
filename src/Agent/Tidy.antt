-- ===== src/Agent/Tidy.antt =====
-- What the ssh-agent of sshagent.go has on the disk, over its whole life.
use plakar_edge.Base.{
  ◌≡◌, ◌≢◌, refl, sym, ◌∙◌, Bool, true, false, Option, none, some, Bytes, if_rule,
}
use plakar_edge.Agent.{
  Supervisor, supervising, sleeping, gone, Removal, removed, not_removed, Agent, remove_all, launch,
  bind, leave, die, restart, await, Step, binds, dies, restarts, leaves, awaits, ends, exits, Reach,
  here, next,
}
use plakar_edge.Client.{Error, Result, ok, err}

pub data Tidy (a : Agent) : Type 0 where
  -- The goroutine has not returned, and the directory is there.
  kept : a.supervisor ≢ gone → a.dir ≡ true → Tidy a
  -- None will run again, and nothing is left.
  cleared : a.supervisor ≡ gone → a.dir ≡ false → a.socket ≡ false → Tidy a
  -- None will run again, and what is left is what `os.RemoveAll` failed to remove.
  left_behind : a.supervisor ≡ gone → a.unremoved ≡ true → Tidy a

launch-Tidy :
    (bin dir : Result Bytes) (start : Option Error) (r : Removal) → Tidy (launch bin dir start r)
unfolding launch remove_all
launch-Tidy (err e) dir start r = cleared refl refl refl
launch-Tidy (ok bin) (err e) start r = cleared refl refl refl
launch-Tidy (ok bin) (ok dir) (some e) removed = cleared refl refl refl
launch-Tidy (ok bin) (ok dir) (some e) (not_removed left) = left_behind refl refl
launch-Tidy (ok bin) (ok dir) none r = kept (λ e. cc) refl

-- An agent that is not gone has its directory.
has_dir : (a : Agent) → a.supervisor ≢ gone → Tidy a → a.dir ≡ true
has_dir a h (kept n d) = d
has_dir a h (cleared g d s) = absurd (h g)
has_dir a h (left_behind g u) = absurd (h g)

die-Tidy : (killed : Bool) (a : Agent) → a.dir ≡ true → Tidy (die killed a)
unfolding die
die-Tidy killed a d = if_rule Tidy a.ended (kept (λ e. cc) d) (kept (λ e. cc) d)

restart-Tidy :
    (unlinked : Bool) (start : Option Error) (a : Agent)
    → a.dir ≡ true
    → Tidy (restart unlinked start a)
unfolding restart
restart-Tidy unlinked (some e) a d = if_rule Tidy a.ended (kept (λ e. cc) d) (kept (λ e. cc) d)
restart-Tidy unlinked none a d = if_rule Tidy a.ended (kept (λ e. cc) d) (kept (λ e. cc) d)

leave-Tidy : (r : Removal) (a : Agent) → Tidy (leave r a)
unfolding leave remove_all
leave-Tidy removed a = cleared refl refl refl
leave-Tidy (not_removed left) a = left_behind refl refl

-- A step of something else.
same-Tidy :
    (a b : Agent)
    → b.supervisor ≡ a.supervisor
    → b.dir ≡ a.dir
    → b.socket ≡ a.socket
    → b.unremoved ≡ a.unremoved
    → Tidy a
    → Tidy b
same-Tidy a b p q r s (kept n d) = kept (λ g. n (sym p ∙ g)) (q ∙ d)
same-Tidy a b p q r s (cleared g d c) = cleared (p ∙ g) (q ∙ d) (r ∙ c)
same-Tidy a b p q r s (left_behind g u) = left_behind (p ∙ g) (s ∙ u)

not_gone : (s t : Supervisor) → t ≢ gone → s ≡ t → s ≢ gone
not_gone s t h e = λ g. h (sym e ∙ g)

Step-Tidy : (a b : Agent) → Step a b → Tidy a → Tidy b
unfolding bind await
Step-Tidy a b (binds _ _ p) t =
    let n = not_gone a.supervisor supervising (λ e. cc) p in kept n (has_dir a n t)
Step-Tidy a b (dies _ killed _ p) t =
    die-Tidy killed a (has_dir a (not_gone a.supervisor supervising (λ e. cc) p) t)
Step-Tidy a b (restarts _ unlinked start _ p) t =
    restart-Tidy unlinked start a (has_dir a (not_gone a.supervisor sleeping (λ e. cc) p) t)
Step-Tidy a b (leaves _ r _ p) t = leave-Tidy r a
Step-Tidy a b (awaits _ c _ p r) t = same-Tidy a (await c a) refl refl refl refl t
Step-Tidy a b (ends _ _) t = same-Tidy a (record a { ended = true }) refl refl refl refl t
Step-Tidy a b (exits _ _) t = same-Tidy a (record a { running = false }) refl refl refl refl t

-- In every reachable state, in any interleaving and whichever calls fail: as long as the supervising
-- goroutine has not returned, the agent's private directory is there; and once it has returned, or was
-- never started, neither the directory nor the socket is left, unless a call of `os.RemoveAll` failed. A
-- process that exits before the goroutine has returned leaves the directory behind.
pub Reach-Tidy :
    {bin dir : Result Bytes} {start : Option Error} {r : Removal} {a : Agent}
    → Reach bin dir start r a
    → Tidy a
Reach-Tidy {bin} {dir} {start} {r} here = launch-Tidy bin dir start r
Reach-Tidy (next r st) = Step-Tidy _ _ st (Reach-Tidy r)
