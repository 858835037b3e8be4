-- ===== src/Run/Spawn.antt =====
-- What `spawnPlaklet` adds to the milestones of a work, and what it answers.
use plakar_edge.Base.{
  ℕ, suc, ◌+◌, ◌≤◌, ◌≡◌, refl, ap, ◌∙◌, true, List, [], ◌∷◌, Option, none, some, inl, inr, Bytes,
  if◌then◌else◌, Bool-cases, arith,
}
use plakar_edge.Client.{Error, Result, ok, err, Client}
use plakar_edge.Config.{Config}
use plakar_edge.Protocol.{WorkItem, ExecReply, ExecPayload}
use plakar_edge.Run.Host.{
  Host, Command, Output, replies, errors, PlakletRun, no_stdin, no_stdout, not_started, not_fed,
  ran, plaklet_attempted,
}
use plakar_edge.Run.Job.{Job, happens, write_log}
use plakar_edge.Run.Milestones.{
  spawned, plaklet_ok, milestones, so_far, yield-so_far, write_log-so_far, post-so_far,
}
use plakar_edge.Run.Plaklet.{
  is_terminal, reply_of, forward_reply, plaklet_command, payload, result_of, started, pump,
  write_all, run_plaklet, spawn_plaklet,
}
use plakar_edge.Run.Steps.{Quiet}

unfoldable pub terminals : List Output → ℕ
terminals [] = 0
terminals (replies r ∷ out) = if is_terminal r.kind then suc (terminals out) else terminals out
terminals (errors p ∷ out) = terminals out

abbrev pub outputs : PlakletRun → List Output
outputs (no_stdin e) = []
outputs (no_stdout e) = []
outputs (not_started e) = []
outputs (not_fed stderr e) = []
outputs (ran out wait) = out

-- Plaklet keeps to its protocol: it writes at most one terminal reply, however it is started.
abbrev pub IsTerse : Host → Type 0
IsTerse host =
    (h : _) (c : Command) (p : ExecPayload) → terminals (outputs (host.run_plaklet h c p)) ≤ 1

-- What is held back is a terminal reply.
abbrev pub Holds : Option ExecReply → Type 0
Holds none = Unit {0}
Holds (some r) = is_terminal r.kind ≡ true

abbrev count : Option ExecReply → ℕ
count none = 0
count (some r) = 1

-- The reply that plaklet leaves, if any, is terminal.
abbrev pub Ends : Result ExecReply → Type 0
Ends (ok r) = is_terminal r.kind ≡ true
Ends (err e) = Unit {0}

module _ (host : Host) (clt : Client) (cfg : Config) (item : WorkItem) where
  pump-so_far :
      (out : List Output) (held : Option ExecReply) (j : Job)
      → terminals out + count held ≤ 1
      → Holds held
      → let r = pump host clt cfg item out held j in Holds r.0 × (so_far r.1 ≡ so_far j)
  unfolding pump terminals
  pump-so_far [] held j few h = (h, refl)
  pump-so_far (errors p ∷ out) held j few h =
      let r = pump-so_far out held (write_log host clt item.work_id p j).1 few h in
      (r.0, r.1 ∙ write_log-so_far host clt item.work_id p j)
  pump-so_far (replies r ∷ out) none j few h = elim (Bool-cases (is_terminal r.kind)) [
    | inl e ↦ let few' = rw e at few in rw e (pump-so_far out (some r) j (omega (arith, few')) e)
    | inr e ↦
        let few' = rw e at few in
        let kept = post-so_far host clt item.work_id (reply_of r) j e in
        let ih = pump-so_far out none (forward_reply host clt cfg item r j).1 few' h in
        rw e (ih.0, ih.1 ∙ kept)
  ]
  pump-so_far (replies r ∷ out) (some t) j few h = elim (Bool-cases (is_terminal r.kind)) [
    | inl e ↦ let few' = rw e at few in absurd (omega (arith, few'))
    | inr e ↦
        let few' = rw e at few in
        let kept = post-so_far host clt item.work_id (reply_of r) j e in
        let ih = pump-so_far out (some t) (forward_reply host clt cfg item r j).1 few' h in
        rw e (ih.0, ih.1 ∙ kept)
  ]

  pub result_of-Ends :
      (wait : Option Error) (held : Option ExecReply)
      → Holds held
      → Ends (result_of host clt cfg item wait held)
  result_of-Ends wait (some r) h = h
  result_of-Ends none none h = tt
  result_of-Ends (some e) none h = tt

  write_all-so_far : (ps : List Bytes) → Quiet (write_all host clt cfg item ps)
  unfolding write_all
  write_all-so_far [] = λ j. refl
  write_all-so_far (p ∷ ps) = λ j.
      write_all-so_far ps (write_log host clt item.work_id p j).1
      ∙ write_log-so_far host clt item.work_id p j

  run_plaklet-so_far :
      (run : PlakletRun) (j : Job)
      → terminals (outputs run) ≤ 1
      → let r = run_plaklet host clt cfg item run j in Ends r.0 × (so_far r.1 ≡ so_far j)
  unfolding run_plaklet
  run_plaklet-so_far (no_stdin e) j few = (tt, refl)
  run_plaklet-so_far (no_stdout e) j few = (tt, refl)
  run_plaklet-so_far (not_started e) j few = (tt, refl)
  run_plaklet-so_far (not_fed stderr e) j few = (tt, write_all-so_far stderr j)
  run_plaklet-so_far (ran out wait) j few =
      let r = pump-so_far out none j (omega (arith, few)) tt in
      (result_of-Ends wait (pump host clt cfg item out none j).0 r.0, r.1)

  started-so_far :
      IsTerse host
      → (c : Result Command) (j : Job)
      → let r = started host clt cfg item c j in Ends r.0 × (so_far r.1 ≡ so_far j)
  unfolding milestones happens
  started-so_far terse (err e) j = (tt, refl)
  started-so_far terse (ok command) j =
      let p = payload host clt cfg item in
      let k = (happens host clt item.work_id (plaklet_attempted command p) j).1 in
      let r =
        run_plaklet-so_far (host.run_plaklet j.history command p) k (terse j.history command p) in
      (r.0, r.1 ∙ yield-so_far host clt item.work_id j)

  pub spawn_plaklet-so_far :
      IsTerse host
      → (j : Job)
      → let r = spawn_plaklet host clt cfg item j in
        Ends r.0 × (so_far r.1 ≡ spawned (plaklet_ok r.0) ∷ so_far j)
  unfolding spawn_plaklet milestones happens
  spawn_plaklet-so_far terse j =
      let c = plaklet_command host clt cfg item (host.executable j.history) in
      let s = started-so_far terse c j in
      let r = started host clt cfg item c j in
      (s.0, ap (◌∷◌ (spawned (plaklet_ok r.0))) (yield-so_far host clt item.work_id r.1 ∙ s.1))
