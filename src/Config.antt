-- ===== src/Config.antt =====
-- main.go: `Config`, and the paths that it derives.
use plakar_edge.Base.{Bool, List, Bytes, text}
use plakar_edge.Base.Int.{ℤ}
use plakar_edge.Paths.{join}

pub record Config : Type 0 where
  pub api_url : Bytes
  pub state_dir : Bytes
  pub plaklet_bin : Bytes
  pub pkg_dir : Bytes
  pub poll_hold : ℤ
  pub max_parallel : ℤ
  pub listen : Bytes
  pub metrics : Bool
  pub tags : List Bytes
  pub scripts_dir : Bytes
  pub ssh_auth_sock : Bytes

-- `plakletPkgDir`, `plakletCacheDir`, `statePath`
unfoldable pub plaklet_pkg_dir : Config → Bytes
plaklet_pkg_dir c = join c.pkg_dir (text "integrations")

unfoldable pub plaklet_cache_dir : Config → Bytes
plaklet_cache_dir c = join c.pkg_dir (text "cache")

unfoldable pub state_path : Config → Bytes
state_path c = join c.state_dir (text "edge.json")
