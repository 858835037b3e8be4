-- ===== src/Tags/Parse.antt =====
-- About `parseTags` of tags.go.
use plakar_edge.Base.{
  ◌≡◌, ◌≢◌, refl, sym, ap, ◌∙◌, false, List, [], ◌∷◌, ◌++◌, inl, inr, Bytes, text, is_empty,
  contains_byte, All, Bool-cases,
}
use plakar_edge.Base.Trim.Laws.{
  trim_space-trim_space, contains_byte-trim_space, split-append, split-All, split_none,
}
use plakar_edge.Base.Trim.{trim_space, split}
use plakar_edge.Tags.{collect_tags, parse_tags}

-- A tag as `parseTags` answers it.
pub record IsTag (t : Bytes) : Type 0 where
  pub nonempty : t ≢ []
  pub trimmed : trim_space t ≡ t
  pub no_comma : contains_byte b',' t ≡ false

is_empty_of : (s : Bytes) → s ≢ [] → is_empty s ≡ false
is_empty_of [] h = absurd (h refl)
is_empty_of (c ∷ s) h = refl

nonempty_of : (s : Bytes) → is_empty s ≡ false → s ≢ []
nonempty_of [] e = cc
nonempty_of (c ∷ s) e = λ h. cc

collect_tags-IsTag :
    (parts : List Bytes)
    → All (λ p. contains_byte b',' p ≡ false) parts
    → All IsTag (collect_tags parts)
unfolding collect_tags
collect_tags-IsTag [] h = tt
collect_tags-IsTag (p ∷ parts) (c, h) = elim (Bool-cases (is_empty (trim_space p))) [
  | inl e ↦ rw e (collect_tags-IsTag parts h)
  | inr e ↦ rw e (
    record {
      nonempty = nonempty_of (trim_space p) e;
      trimmed = trim_space-trim_space p;
      no_comma = contains_byte-trim_space b',' p c;
    },
    collect_tags-IsTag parts h,
  )
]

-- Every tag that `parseTags` answers is not empty, has no space at either end and no comma.
pub parse_tags-IsTag : (raw : Bytes) → All IsTag (parse_tags raw)
unfolding parse_tags
parse_tags-IsTag [] = tt
parse_tags-IsTag (c ∷ raw) = collect_tags-IsTag (split b',' (c ∷ raw)) (split-All b',' (c ∷ raw))

collect_tags-append : (a b : List Bytes) → collect_tags (a ++ b) ≡ collect_tags a ++ collect_tags b
unfolding collect_tags
collect_tags-append [] b = refl
collect_tags-append (p ∷ a) b = elim (Bool-cases (is_empty (trim_space p))) [
  | inl e ↦ rw e (collect_tags-append a b)
  | inr e ↦ rw e (ap (◌∷◌ (trim_space p)) (collect_tags-append a b))
]

-- The test for the empty text only saves work.
parse_tags-split : (raw : Bytes) → parse_tags raw ≡ collect_tags (split b',' raw)
parse_tags-split [] = unfold parse_tags collect_tags split trim_space in refl
parse_tags-split (c ∷ raw) = unfold parse_tags in refl

-- Tags of two texts with a comma between them are those of the one and then those of the other.
pub parse_tags-append :
    (a b : Bytes) → parse_tags (a ++ (text "," ++ b)) ≡ parse_tags a ++ parse_tags b
parse_tags-append a b =
    parse_tags-split (a ++ (text "," ++ b))
    ∙ ap collect_tags (split-append b',' a b)
    ∙ collect_tags-append (split b',' a) (split b',' b)
    ∙ sym (rw (parse_tags-split a, parse_tags-split b))

-- Tags written with commas between them.
abbrev pub write_tags : List Bytes → Bytes
write_tags [] = []
write_tags (t ∷ []) = t
write_tags (t ∷ u ∷ ts) = t ++ (text "," ++ write_tags (u ∷ ts))

parse_tags-one : (t : Bytes) → IsTag t → parse_tags t ≡ t ∷ []
unfolding collect_tags
parse_tags-one t h =
    let full : is_empty (trim_space t) ≡ false = rw h.trimmed (is_empty_of t h.nonempty) in
    parse_tags-split t
    ∙ ap collect_tags (split_none b',' t h.no_comma)
    ∙ rw full (ap (λ r. r ∷ []) h.trimmed)

-- Clean tags written with commas between them read back as they are.
pub parse_tags-write_tags : (ts : List Bytes) → All IsTag ts → parse_tags (write_tags ts) ≡ ts
parse_tags-write_tags [] h = unfold parse_tags in refl
parse_tags-write_tags (t ∷ []) h = parse_tags-one t h.0
parse_tags-write_tags (t ∷ u ∷ ts) h =
    parse_tags-append t (write_tags (u ∷ ts))
    ∙ rw (parse_tags-one t h.0) (ap (◌∷◌ t) (parse_tags-write_tags (u ∷ ts) h.1))
