-- ===== src/Paths.antt =====
-- `filepath.Clean` and `filepath.Join` of the standard library, on Unix, for the paths that the edge
-- builds from a directory and a name that it was given.
pub mod Inside
use mathlib.Core.List.{reverse}
use plakar_edge.Base.{
  Bool, true, false, ◌&&◌, not, List, [], ◌∷◌, ◌++◌, Bytes, text, equal, is_empty, ◌==◌,
  if◌then◌else◌,
}
use plakar_edge.Base.Trim.{split}

abbrev pub slash : Bytes
slash = text "/"

-- "..": drop the last name, if there is one; above the root there is nothing.
abbrev pub parent : Bool → List Bytes → List Bytes
parent true [] = []
parent false [] = text ".." ∷ []
parent rooted (top ∷ out) =
    if not rooted && equal top (text "..") then text ".." ∷ top ∷ out else out

-- One element of the path, onto the names so far, the last first.
unfoldable pub push_name : Bool → List Bytes → Bytes → List Bytes
push_name rooted out name =
    if is_empty name
    then out
    else if equal name (text ".")
    then out
    else if equal name (text "..")
    then parent rooted out
    else name ∷ out

unfoldable pub push_names : Bool → List Bytes → List Bytes → List Bytes
push_names rooted out [] = out
push_names rooted out (name ∷ names) = push_names rooted (push_name rooted out name) names

-- The names with a slash between them.
unfoldable pub join_names : List Bytes → Bytes
join_names [] = []
join_names (name ∷ []) = name
join_names (name ∷ next ∷ names) = name ++ (slash ++ join_names (next ∷ names))

abbrev pub is_rooted : Bytes → Bool
is_rooted [] = false
is_rooted (c ∷ s) = c == b'/'

abbrev pub or_dot : Bytes → Bytes
or_dot [] = text "."
or_dot (c ∷ s) = c ∷ s

-- `filepath.Clean`
unfoldable pub clean : Bytes → Bytes
unfolding push_names join_names split
clean p =
    let rooted = is_rooted p in
    let names = join_names (reverse (push_names rooted [] (split b'/' p))) in
    or_dot (if rooted then slash ++ names else names)

-- `filepath.Join(dir, name)`
unfoldable pub join : Bytes → Bytes → Bytes
unfolding clean
join dir name =
    if is_empty dir
    then (if is_empty name then [] else clean name)
    else if is_empty name
    then clean dir
    else clean (dir ++ (slash ++ name))
