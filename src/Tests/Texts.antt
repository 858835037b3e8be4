-- ===== src/Tests/Texts.antt =====
-- Tags, paths, hook names and the tail of an output.
use plakar_edge.Base.{
  ◌≤◌, ◌≡◌, refl, ◌↔◌, ◌||◌, [], ◌∷◌, ◌++◌, Bytes, text, All, length, contains_byte, ◌+◌,
}
use plakar_edge.Base.Trim.{trim_space}
use plakar_edge.Client.{ok}
use plakar_edge.Hooks.Resolve.{resolve_iff, Resolves}
use plakar_edge.Hooks.Tail.{writes, bytes-writes, Renders, output_tail-Renders}
use plakar_edge.Hooks.{Stat, regular, resolve_hook_script, bytes, output_tail, output_max}
use plakar_edge.Paths.Inside.{IsFileName}
use plakar_edge.Tags.Dedup.{dedup, edge_tags-dedup, IsDistinct, edge_tags-IsDistinct}
use plakar_edge.Tags.Parse.{IsTag, parse_tags-IsTag, parse_tags-append, parse_tags-write_tags}
use plakar_edge.Tags.{parse_tags, has, edge_tags}

abbrev a_flag : Bytes
a_flag = text "prod, eu ,prod"

abbrev a_variable : Bytes
a_variable = text "eu,ssd"

edge_tags-dedup_example :
    edge_tags a_flag a_variable ≡ dedup [] (parse_tags a_flag ++ parse_tags a_variable)
edge_tags-dedup_example = edge_tags-dedup a_flag a_variable

edge_tags-IsDistinct_example :
    IsDistinct (edge_tags a_flag a_variable)
    × ((u : Bytes)
        → has u (edge_tags a_flag a_variable)
          ≡ (has u (parse_tags a_flag) || has u (parse_tags a_variable)))
edge_tags-IsDistinct_example = edge_tags-IsDistinct a_flag a_variable

parse_tags-IsTag_example : All IsTag (parse_tags a_flag)
parse_tags-IsTag_example = parse_tags-IsTag a_flag

parse_tags-append_example :
    parse_tags (a_flag ++ (text "," ++ a_variable)) ≡ parse_tags a_flag ++ parse_tags a_variable
parse_tags-append_example = parse_tags-append a_flag a_variable

eu-IsTag : IsTag (text "eu")
unfolding trim_space contains_byte
eu-IsTag = record { nonempty = λ e. cc; trimmed = refl; no_comma = refl }

ssd-IsTag : IsTag (text "ssd")
unfolding trim_space contains_byte
ssd-IsTag = record { nonempty = λ e. cc; trimmed = refl; no_comma = refl }

parse_tags-write_tags_example : parse_tags (text "eu,ssd") ≡ text "eu" ∷ text "ssd" ∷ []
parse_tags-write_tags_example =
    parse_tags-write_tags (text "eu" ∷ text "ssd" ∷ []) (eu-IsTag, (ssd-IsTag, tt))

scripts-IsFileName : IsFileName (text "scripts")
unfolding contains_byte
scripts-IsFileName = record {
  nonempty = λ e. cc;
  no_slash = refl;
  not_dot = λ e. cc;
  not_dots = λ e. cc;
}

thaw-IsFileName : IsFileName (text "thaw.sh")
unfolding contains_byte
thaw-IsFileName = record {
  nonempty = λ e. cc;
  no_slash = refl;
  not_dot = λ e. cc;
  not_dots = λ e. cc;
}

abbrev as_is : Bytes → Bytes
as_is s = s

abbrev all_regular : Bytes → Stat
all_regular path = regular

resolve_iff_example :
    (resolve_hook_script as_is all_regular (text "/scripts") (text "thaw.sh")
      ≡ ok (text "/scripts/thaw.sh"))
    ↔ Resolves as_is all_regular (text "scripts" ∷ []) (text "thaw.sh") (text "/scripts/thaw.sh")
resolve_iff_example =
    resolve_iff as_is all_regular (text "scripts" ∷ []) (text "thaw.sh") (text "/scripts/thaw.sh")
      (scripts-IsFileName, tt)

bytes-writes_example :
    let t = writes (record { max = 4; buf = [] }) (text "abcdef" ∷ text "ghij" ∷ []) in
    (bytes t ≡ text "ghij") × (length t.buf ≤ 8)
bytes-writes_example = bytes-writes 4 (text "abcdef" ∷ text "ghij" ∷ [])

output_tail-Renders_example :
    Renders (trim_space (text " boom \n")) (output_tail (text " boom \n"))
    × (length (output_tail (text " boom \n")) ≤ output_max + 5)
output_tail-Renders_example = output_tail-Renders (text " boom \n")
