-- ===== src/Tags.antt =====
-- tags.go: the tags that the edge reports on every poll. A nil slice and an empty one are both [].
pub mod Parse
pub mod Dedup
use plakar_edge.Base.{
  ℕ, zero, suc, ◌+◌, Bool, true, false, ◌||◌, List, [], ◌∷◌, ◌++◌, Bytes, text, equal, is_empty,
  length, take, if◌then◌else◌,
}
use plakar_edge.Base.Trim.{trim_space, split}

-- The loop of `parseTags`.
unfoldable pub collect_tags : List Bytes → List Bytes
collect_tags [] = []
collect_tags (p ∷ parts) =
    if is_empty (trim_space p) then collect_tags parts else trim_space p ∷ collect_tags parts

-- `parseTags`
unfoldable pub parse_tags : Bytes → List Bytes
parse_tags raw = if is_empty raw then [] else collect_tags (split b',' raw)

-- The keys of the map `seen`.
unfoldable pub has : Bytes → List Bytes → Bool
has t [] = false
has t (s ∷ ss) = equal s t || has t ss

abbrev pub get_or : List Bytes → ℕ → Bytes → Bytes
get_or [] i d = d
get_or (x ∷ xs) zero d = x
get_or (x ∷ xs) (suc i) d = get_or xs i d

abbrev pub set : List Bytes → ℕ → Bytes → List Bytes
set [] i v = []
set (x ∷ xs) zero v = v ∷ xs
set (x ∷ xs) (suc i) v = x ∷ set xs i v

-- The loop of `edgeTags`. `tags` is `all[:0]`, so an append writes into the array that the loop reads:
-- `array` is that array, `i` the place that is read next, and `n` the length of `tags`.
unfoldable pub dedup_loop : ℕ → ℕ → List Bytes → ℕ → List Bytes → List Bytes
dedup_loop zero i seen n array = take n array
dedup_loop (suc rounds) i seen n array =
    let t = get_or array i [] in
    let again = dedup_loop rounds (i + 1) seen n array in
    let kept = dedup_loop rounds (i + 1) (t ∷ seen) (n + 1) (set array n t) in
    if has t seen then again else kept

-- `edgeTags`
unfoldable pub edge_tags : Bytes → Bytes → List Bytes
unfolding parse_tags dedup_loop
edge_tags flag_tags extra_tags =
    let all = parse_tags (flag_tags ++ (text "," ++ extra_tags)) in
    dedup_loop (length all) 0 [] 0 all
