-- ===== src/Hooks.antt =====
-- hooks.go: which script a hook runs, and the tail of its output.
pub mod Resolve
pub mod Tail
use plakar_edge.Base.{
  ℕ, ◌+◌, ◌-◌, ◌*◌, Bool, true, false, ◌||◌, List, [], ◌∷◌, ◌++◌, Bytes, text, equal, is_empty,
  contains_byte, length, drop, ltb, if◌then◌else◌,
}
use plakar_edge.Base.Trim.{trim_space}
use plakar_edge.Client.{Error, plain, wrapped, Result, ok, err}
use plakar_edge.Paths.{join}
use plakar_edge.Protocol.{WorkItem, index}

-- `hookScript`
unfoldable pub hook_script : WorkItem → Bytes → Bytes
unfolding index
hook_script item hook = index item.task_config (text "hooks." ++ hook)

-- What `os.Stat` tells of a path.
pub data Stat : Type 0 where
  stat_failed : Error → Stat
  regular : Stat
  not_regular : Stat

-- A name that could lead out of the directory.
unfoldable pub is_invalid_name : Bytes → Bool
is_invalid_name name =
    is_empty name
    || equal name (text ".")
    || equal name (text "..")
    || contains_byte b'/' name
    || contains_byte b'\\' name

-- `resolveHookScript`. `stat` is the file system's answer, `quote` is the format `%q`.
unfoldable pub resolve_hook_script :
    (quote : Bytes → Bytes) (stat : Bytes → Stat) (scripts_dir name : Bytes) → Result Bytes
resolve_hook_script quote stat scripts_dir name =
    if is_empty scripts_dir
    then err (plain (text "this edge has no -scripts-dir configured"))
    else if is_invalid_name name
    then err (
        plain (
          text "invalid script name "
          ++ (quote name
              ++ text ": a hook is a file name inside the scripts directory, not a path")))
    else elim (stat (join scripts_dir name)) [
      | stat_failed e ↦ err (wrapped (text "script " ++ (quote name ++ text ": ")) e)
      | not_regular ↦ err (plain (text "script " ++ (quote name ++ text " is not a regular file")))
      | regular ↦ ok (join scripts_dir name)
    ]

-- `tailBuffer`
pub record TailBuffer : Type 0 where
  pub max : ℕ
  pub buf : Bytes

unfoldable pub write : TailBuffer → Bytes → TailBuffer
write t p =
    let buf = t.buf ++ p in
    if ltb (2 * t.max) (length buf)
    then record t { buf = drop (length buf - t.max) buf }
    else record t { buf = buf }

unfoldable pub bytes : TailBuffer → Bytes
bytes t = if ltb t.max (length t.buf) then drop (length t.buf - t.max) t.buf else t.buf

abbrev pub output_max : ℕ
output_max = 512

-- `outputTail`, after the trim.
unfoldable pub render_tail : Bytes → Bytes
render_tail [] = []
render_tail (c ∷ s) =
    text ": "
    ++ (if ltb output_max (length (c ∷ s))
        then text "..." ++ drop (length (c ∷ s) - output_max) (c ∷ s)
        else c ∷ s)

unfoldable pub output_tail : Bytes → Bytes
unfolding render_tail
output_tail out = render_tail (trim_space out)
