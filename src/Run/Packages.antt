-- ===== src/Run/Packages.antt =====
-- `ensurePackages`: the connector packages of a work item, fetched if they are not there.
use plakar_edge.Base.{
  Bool, true, false, List, [], ◌∷◌, ◌++◌, Option, none, some, Bytes, text, is_empty, if◌then◌else◌,
}
use plakar_edge.Client.Fetch.{Package, read, fetch_package}
use plakar_edge.Client.{Error, wrapped, Result, ok, err, Client}
use plakar_edge.Config.{Config, plaklet_pkg_dir}
use plakar_edge.Paths.{join}
use plakar_edge.Protocol.{WorkItem, Configuration, integration_of, Integration}
use plakar_edge.Run.Host.{Host, fetched, packages_done}
use plakar_edge.Run.Job.{M, ◌>>=◌, ◌>>◌, return, yield, happens, succeeded}
use plakar_edge.Tags.{has}

-- `os.Stat(dst)` returns no error.
abbrev pub is_there : Option Bytes → Bool
is_there none = false
is_there (some b) = true

module _ (host : Host) (clt : Client) (cfg : Config) (item : WorkItem) where
  -- `clt.FetchPackage`, with the files and the history that it changes.
  unfoldable pub fetch : Package → Bytes → M (Option Error)
  unfolding happens
  fetch p dst j =
      let k = yield host clt item.work_id j in
      let r =
        fetch_package host.escape_path host.escape_query (host.exchange k.history)
          (host.download k.history p) clt p dst k.files in
      (r.0, record k { history = fetched p dst r.0 ∷ k.history; files = r.1 })

  unfoldable pub package_of : Integration → Package
  package_of i = record {
    name = i.name;
    version = i.version;
    operating_system = host.goos;
    architecture = host.goarch;
  }

  abbrev pub package_key : Package → Bytes
  package_key p = p.name ++ (text "@" ++ p.version)

  -- A package that is valid and was not seen before: fetch it unless it is in its place.
  unfoldable pub ensure_file : Package → M (Result (Unit {0}))
  unfolding fetch plaklet_pkg_dir
  ensure_file p j =
      let dst = join (plaklet_pkg_dir cfg) (host.filename p) in
      if is_there (read j.files dst)
      then (ok tt, j)
      else (do
        failure ← fetch p dst
        return (elim failure [
          | none ↦ ok tt
          | some e ↦
              err (wrapped (text "failed to fetch package " ++ (package_key p ++ text ": ")) e)
        ]))
          j

  abbrev pub valid_then : Option Error → M (Result (Unit {0})) → M (Result (Unit {0}))
  valid_then (some e) rest = return (err (wrapped (text "received invalid package: ") e))
  valid_then none rest = rest

  -- `if err := …; err != nil { return err }`, before the rest.
  abbrev pub and_then : Result (Unit {0}) → M (Result (Unit {0})) → M (Result (Unit {0}))
  and_then (ok u) rest = rest
  and_then (err e) rest = return (err e)

  -- The loop over the source and the target; `seen` holds the keys of the map.
  unfoldable pub ensure_each : List Bytes → List (Option Configuration) → M (Result (Unit {0}))
  unfolding ensure_file package_of
  ensure_each seen [] = return (ok tt)
  ensure_each seen (none ∷ confs) = ensure_each seen confs
  ensure_each seen (some conf ∷ confs) =
      let p = package_of (integration_of conf) in
      let skip = ensure_each seen confs in
      let rest = ensure_each (package_key p ∷ seen) confs in
      if is_empty p.name
      then skip
      else valid_then (host.validate p)
          (if has (package_key p) seen then skip else do done ← ensure_file p; and_then done rest)

  abbrev pub made : Option Error → M (Result (Unit {0})) → M (Result (Unit {0}))
  made (some e) rest = return (err (wrapped (text "cannot create integrations dir: ") e))
  made none rest = rest

  -- What `ensurePackages` does.
  unfoldable pub ensure_all : M (Result (Unit {0}))
  unfolding ensure_each
  ensure_all j = made (host.make_dir j.history) (ensure_each [] (item.source ∷ item.target ∷ [])) j

  -- `ensurePackages`, with the record of how it went.
  unfoldable pub ensure_packages : M (Result (Unit {0}))
  unfolding ensure_all
  ensure_packages = do
    r ← ensure_all
    happens host clt item.work_id (packages_done (succeeded r))
    return r
