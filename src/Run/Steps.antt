-- ===== src/Run/Steps.antt =====
-- What `ensurePackages` and `runHook` add to the milestones of a work.
use plakar_edge.Base.{
  ◌≡◌, refl, sym, ap, ◌∙◌, Bool, true, false, List, [], ◌∷◌, ◌++◌, Option, none, some, Bytes, text,
  is_empty, if_rule, if_cases,
}
use plakar_edge.Client.Fetch.{Package, read}
use plakar_edge.Client.{Error, Result, ok, err, Client}
use plakar_edge.Config.{Config, plaklet_pkg_dir}
use plakar_edge.Paths.{join}
use plakar_edge.Hooks.{hook_script, resolve_hook_script, TailBuffer, write}
use plakar_edge.Protocol.{WorkItem, Configuration, integration_of}
use plakar_edge.Run.Hook.{
  resolved, ran_script, copy_output, script_command, run_script, run_named, run_hook,
}
use plakar_edge.Run.Host.{Host, History, script_started}
use plakar_edge.Tags.{has}
use plakar_edge.Run.Job.{Job, M, ◌>>=◌, yield, happens, write_log, succeeded}
use plakar_edge.Run.Milestones.{
  Milestone, packaged, scripted, hooked, milestones, so_far, yield-so_far, write_log-so_far,
}
use plakar_edge.Run.Packages.{
  is_there, fetch, ensure_file, made, valid_then, and_then, package_of, package_key, ensure_each,
  ensure_all, ensure_packages,
}

abbrev pub no_failure : Option Error → Bool
no_failure none = true
no_failure (some e) = false

-- How a hook goes. The directory of the scripts and the script itself answer by the history `h` so far.
pub data HookRun (host : Host) (clt : Client) (cfg : Config) (item : WorkItem) (hook : Bytes)
    (ms : List Milestone) : Bool → List Milestone → Type 0 where
  -- The task names none.
  no_hook : is_empty (hook_script item hook) ≡ true → HookRun host clt cfg item hook ms true ms
  -- It names one that does not resolve, and no script is started.
  unresolved :
      (h : History) (e : Error)
      → is_empty (hook_script item hook) ≡ false
      → resolve_hook_script host.quote (host.stat_script h) cfg.scripts_dir (hook_script item hook)
        ≡ err e
      → HookRun host clt cfg item hook ms false (hooked hook false ∷ ms)
  -- The script that it names is started, and passes just when it has no error.
  ran_hook :
      (h : History) (path : Bytes)
      → is_empty (hook_script item hook) ≡ false
      → resolve_hook_script host.quote (host.stat_script h) cfg.scripts_dir (hook_script item hook)
        ≡ ok path
      → {b : Bool}
      → no_failure (host.run_script h (script_command host clt cfg item hook path)).failure ≡ b
      → HookRun host clt cfg item hook ms b (hooked hook b ∷ scripted path ∷ ms)

-- A step that adds nothing.
abbrev pub Quiet : {A : Type 0} → M A → Type 0
Quiet m = (j : Job) → so_far (m j).1 ≡ so_far j

Quiet-bind :
    {A B : Type 0} (m : M A) (f : A → M B) → Quiet m → ((a : A) → Quiet (f a)) → Quiet (m >>= f)
Quiet-bind m f p q j = q (m j).0 (m j).1 ∙ p j

module _ (host : Host) (clt : Client) (cfg : Config) (item : WorkItem) where
  fetch-so_far :
      (p : Package) (dst : Bytes) (j : Job) → so_far (fetch host clt cfg item p dst j).1 ≡ so_far j
  unfolding fetch milestones
  fetch-so_far p dst j = yield-so_far host clt item.work_id j

  ensure_file-so_far :
      (p : Package) (j : Job) → so_far (ensure_file host clt cfg item p j).1 ≡ so_far j
  unfolding ensure_file
  ensure_file-so_far p j =
      let dst = join (plaklet_pkg_dir cfg) (host.filename p) in
      if_rule {A = Result (Unit {0}) × Job} (λ r. so_far r.1 ≡ so_far j)
        (is_there (read j.files dst)) refl (fetch-so_far p dst j)

  copy_output-so_far :
      (ps : List Bytes) (t : TailBuffer) (j : Job)
      → so_far (copy_output host clt cfg item ps t j).1 ≡ so_far j
  unfolding copy_output
  copy_output-so_far [] t j = refl
  copy_output-so_far (p ∷ ps) t j =
      copy_output-so_far ps (write t p) (write_log host clt item.work_id p j).1
      ∙ write_log-so_far host clt item.work_id p j

  run_script-so_far :
      (hook name path : Bytes) (j : Job)
      → so_far (run_script host clt cfg item hook name path j).1 ≡ scripted path ∷ so_far j
  unfolding run_script milestones happens script_command
  run_script-so_far hook name path j =
      let line = text "running " ++ (hook ++ (text " hook " ++ (host.quote name ++ text "\n"))) in
      let k = (write_log host clt item.work_id line j).1 in
      let l =
        (happens host clt item.work_id (script_started (script_command host clt cfg item hook path))
          k).1 in
      copy_output-so_far
        (host.run_script j.history (script_command host clt cfg item hook path)).output
        (record { max = 4096; buf = [] }) l
      ∙ ap (◌∷◌ (scripted path))
          (yield-so_far host clt item.work_id k ∙ write_log-so_far host clt item.work_id line j)

  ran_script-passed :
      (name : Bytes) (f : Option Error) (t : TailBuffer)
      → succeeded (ran_script host clt cfg item name f t) ≡ no_failure f
  ran_script-passed name none t = refl
  ran_script-passed name (some e) t = refl

  run_script-passed :
      (hook name path : Bytes) (j : Job)
      → no_failure (host.run_script j.history (script_command host clt cfg item hook path)).failure
        ≡ succeeded (run_script host clt cfg item hook name path j).0
  unfolding run_script
  run_script-passed hook name path j = sym (ran_script-passed name _ _)

  valid_then-so_far :
      (v : Option Error) (rest : M (Result (Unit {0})))
      → Quiet rest
      → Quiet (valid_then host clt cfg item v rest)
  valid_then-so_far none rest q = q
  valid_then-so_far (some e) rest q = λ j. refl

  and_then-so_far :
      (r : Result (Unit {0})) (rest : M (Result (Unit {0})))
      → Quiet rest
      → Quiet (and_then host clt cfg item r rest)
  and_then-so_far (ok u) rest q = q
  and_then-so_far (err e) rest q = λ j. refl

  ensure_each-so_far :
      (seen : List Bytes) (confs : List (Option Configuration))
      → Quiet (ensure_each host clt cfg item seen confs)
  unfolding ensure_each
  ensure_each-so_far seen [] = λ j. refl
  ensure_each-so_far seen (none ∷ confs) = ensure_each-so_far seen confs
  ensure_each-so_far seen (some conf ∷ confs) =
      let p = package_of host clt cfg item (integration_of conf) in
      let skip = ensure_each-so_far seen confs in
      let seen' = package_key host clt cfg item p ∷ seen in
      let rest = ensure_each-so_far seen' confs in
      if_rule Quiet (is_empty p.name) skip (
        valid_then-so_far (host.validate p) _ (
          if_rule Quiet (has (package_key host clt cfg item p) seen) skip (
            Quiet-bind (ensure_file host clt cfg item p)
              (λ r. and_then host clt cfg item r (ensure_each host clt cfg item seen' confs))
              (ensure_file-so_far p)
              (λ r. and_then-so_far r (ensure_each host clt cfg item seen' confs) rest))))

  made-so_far :
      (d : Option Error) (rest : M (Result (Unit {0})))
      → Quiet rest
      → Quiet (made host clt cfg item d rest)
  made-so_far none rest q = q
  made-so_far (some e) rest q = λ j. refl

  ensure_all-so_far : Quiet (ensure_all host clt cfg item)
  unfolding ensure_all
  ensure_all-so_far j =
      made-so_far (host.make_dir j.history)
        (ensure_each host clt cfg item [] (item.source ∷ item.target ∷ []))
        (ensure_each-so_far [] (item.source ∷ item.target ∷ [])) j

  pub ensure_packages-so_far :
      (j : Job)
      → let r = ensure_packages host clt cfg item j in
        so_far r.1 ≡ packaged (succeeded r.0) ∷ so_far j
  unfolding ensure_packages milestones happens
  ensure_packages-so_far j =
      let r = ensure_all host clt cfg item j in
      ap (◌∷◌ (packaged (succeeded r.0)))
        (yield-so_far host clt item.work_id r.1 ∙ ensure_all-so_far j)

  resolved-HookRun :
      (hook : Bytes) (r : Result Bytes) (j : Job)
      → is_empty (hook_script item hook) ≡ false
      → resolve_hook_script host.quote
          (host.stat_script j.history)
          cfg.scripts_dir
          (hook_script item hook)
        ≡ r
      → let q = resolved host clt cfg item hook (hook_script item hook) r j in
        (ms : List Milestone)
        → ms ≡ so_far q.1
        → HookRun host clt cfg item hook
            (so_far j)
            (succeeded q.0)
            (hooked hook (succeeded q.0) ∷ ms)
  resolved-HookRun hook (err e) j n s ms q = rw q (unresolved j.history e n s)
  resolved-HookRun hook (ok path) j n s ms q =
      let name = hook_script item hook in
      rw (q ∙ run_script-so_far hook name path j)
        (ran_hook j.history path n s (run_script-passed hook name path j))

  run_named-HookRun :
      (hook : Bytes) (j : Job)
      → is_empty (hook_script item hook) ≡ false
      → let r = run_named host clt cfg item hook (hook_script item hook) j in
        HookRun host clt cfg item hook (so_far j) (succeeded r.0) (so_far r.1)
  unfolding run_named milestones happens
  run_named-HookRun hook j n =
      let path =
        resolve_hook_script host.quote (host.stat_script j.history) cfg.scripts_dir
          (hook_script item hook) in
      let r = resolved host clt cfg item hook (hook_script item hook) path j in
      resolved-HookRun hook path j n refl (so_far (yield host clt item.work_id r.1))
        (yield-so_far host clt item.work_id r.1)

  pub run_hook-HookRun :
      (hook : Bytes) (j : Job)
      → let r = run_hook host clt cfg item hook j in
        HookRun host clt cfg item hook (so_far j) (succeeded r.0) (so_far r.1)
  unfolding run_hook
  run_hook-HookRun hook j =
      let P : M (Result (Unit {0})) → Type 0 =
        λ m. HookRun host clt cfg item hook (so_far j) (succeeded (m j).0) (so_far (m j).1) in
      if_cases P (is_empty (hook_script item hook)) (λ t. no_hook t)
        (λ f. run_named-HookRun hook j f)
