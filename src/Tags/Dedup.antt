-- ===== src/Tags/Dedup.antt =====
-- About `edgeTags` of tags.go, which filters in the array that it reads.
use mathlib.Core.List.{append_assoc, append-nil}
use plakar_edge.Base.{
  ℕ, suc, ◌+◌, ◌≡◌, refl, sym, ap, ◌∙◌, true, false, ◌||◌, List, [], ◌∷◌, ◌++◌, arith, inl, inr,
  Bytes, text, equal_iff, equal_refl, length, length-append, take-length, ◌&&◌, not, if◌then◌else◌,
  Bool-cases,
}
use plakar_edge.Tags.Parse.{parse_tags-append}
use plakar_edge.Tags.{parse_tags, has, get_or, set, dedup_loop, edge_tags}

-- The first of each tag, in order.
unfoldable pub dedup : List Bytes → List Bytes → List Bytes
dedup seen [] = []
dedup seen (t ∷ ts) =
    let again = dedup seen ts in
    let kept = t ∷ dedup (t ∷ seen) ts in if has t seen then again else kept

get_or-append :
    (xs : List Bytes) (t : Bytes) (ys : List Bytes) → get_or (xs ++ t ∷ ys) (length xs) [] ≡ t
get_or-append [] t ys = refl
get_or-append (x ∷ xs) t ys = get_or-append xs t ys

set-append :
    (xs : List Bytes) (t u : Bytes) (ys : List Bytes)
    → set (xs ++ u ∷ ys) (length xs) t ≡ xs ++ t ∷ ys
set-append [] t u ys = refl
set-append (x ∷ xs) t u ys = ap (◌∷◌ x) (set-append xs t u ys)

module _ (rounds i n : ℕ) (seen array : List Bytes) {t : Bytes} (here : get_or array i [] ≡ t) where
  loop_seen :
      has t seen ≡ true
      → dedup_loop (suc rounds) i seen n array ≡ dedup_loop rounds (i + 1) seen n array
  unfolding dedup_loop
  loop_seen e = rw (here, e)

  loop_new :
      has t seen ≡ false
      → dedup_loop (suc rounds) i seen n array
        ≡ dedup_loop rounds (i + 1) (t ∷ seen) (n + 1) (set array n t)
  unfolding dedup_loop
  loop_new e = rw (here, e)

-- The array while the loop runs: the tags kept, what has been read and is free, and what is to come.
record Layout (i n : ℕ) (array kept free rest : List Bytes) : Type 0 where
  pub at_i : i ≡ length kept + length free
  pub at_n : n ≡ length kept
  pub holds : array ≡ kept ++ (free ++ rest)

module _ {i n : ℕ} {array kept : List Bytes} where
  Layout-here :
      {t : Bytes} {rest : List Bytes} (free : List Bytes)
      → Layout i n array kept free (t ∷ rest)
      → get_or array i [] ≡ t
  Layout-here {t} {rest} free l =
      let e : i ≡ length (kept ++ free) = omega (arith, l.at_i, length-append kept free) in
      let h : array ≡ (kept ++ free) ++ t ∷ rest =
        l.holds ∙ sym (append_assoc kept free (t ∷ rest)) in
      rw (e, h) (get_or-append (kept ++ free) t rest)

  Layout-seen :
      {t : Bytes} {rest : List Bytes} (free : List Bytes)
      → Layout i n array kept free (t ∷ rest)
      → Layout (i + 1) n array kept (free ++ t ∷ []) rest
  Layout-seen {t} {rest} free l = record {
    at_i = omega (arith, l.at_i, length-append free (t ∷ []));
    at_n = l.at_n;
    holds = l.holds ∙ ap (λ r. kept ++ r) (sym (append_assoc free (t ∷ []) rest));
  }

  -- The write goes to the first free place, or to the place just read.
  Layout-new :
      {t : Bytes} {rest : List Bytes} (free : List Bytes)
      → Layout i n array kept free (t ∷ rest)
      → (free' : List Bytes) × Layout (i + 1) (n + 1) (set array n t) (kept ++ t ∷ []) free' rest
  Layout-new {t} {rest} [] l = (
    [],
    record {
      at_i = omega (arith, l.at_i, length-append kept (t ∷ []));
      at_n = omega (arith, l.at_n, length-append kept (t ∷ []));
      holds =
          rw (l.at_n, l.holds) (set-append kept t t rest ∙ sym (append_assoc kept (t ∷ []) rest));
    },
  )
  Layout-new {t} {rest} (f ∷ free) l = (
    free ++ t ∷ [],
    record {
      at_i = omega (arith, l.at_i, length-append kept (t ∷ []), length-append free (t ∷ []));
      at_n = omega (arith, l.at_n, length-append kept (t ∷ []));
      holds =
          rw (l.at_n, l.holds)
            (set-append kept t f (free ++ t ∷ rest)
              ∙ ap (λ r. kept ++ t ∷ r) (sym (append_assoc free (t ∷ []) rest))
              ∙ sym (append_assoc kept (t ∷ []) ((free ++ t ∷ []) ++ rest)));
    },
  )

dedup_loop-Layout :
    (rest : List Bytes) (i n : ℕ) (seen array kept free : List Bytes)
    → Layout i n array kept free rest
    → dedup_loop (length rest) i seen n array ≡ kept ++ dedup seen rest
unfolding dedup
dedup_loop-Layout [] i n seen array kept free l =
    unfold dedup_loop in
    rw (l.at_n, l.holds) (take-length kept (free ++ []) ∙ sym (append-nil kept))
dedup_loop-Layout (t ∷ rest) i n seen array kept free l = elim (Bool-cases (has t seen)) [
  | inl e ↦
      loop_seen (length rest) i n seen array (Layout-here free l) e
      ∙ rw e
          (dedup_loop-Layout rest (i + 1) n seen array kept (free ++ t ∷ []) (Layout-seen free l))
  | inr e ↦
      let (free', l') = Layout-new free l in
      loop_new (length rest) i n seen array (Layout-here free l) e
      ∙ rw e (
          dedup_loop-Layout rest (i + 1) (n + 1) (t ∷ seen) (set array n t) (kept ++ t ∷ []) free'
            l'
          ∙ append_assoc kept (t ∷ []) (dedup (t ∷ seen) rest))
]

-- Filtering in place answers the first of each tag, the flag's before the variable's.
pub edge_tags-dedup :
    (flag_tags extra_tags : Bytes)
    → edge_tags flag_tags extra_tags ≡ dedup [] (parse_tags flag_tags ++ parse_tags extra_tags)
unfolding edge_tags
edge_tags-dedup flag_tags extra_tags =
    let all = parse_tags (flag_tags ++ (text "," ++ extra_tags)) in
    dedup_loop-Layout all 0 0 [] all [] []
      (record { at_i = omega arith; at_n = refl; holds = refl })
    ∙ ap (dedup []) (parse_tags-append flag_tags extra_tags)

-- No tag occurs twice.
abbrev pub IsDistinct : List Bytes → Type 0
IsDistinct [] = Unit
IsDistinct (t ∷ ts) = (has t ts ≡ false) × IsDistinct ts

has-append : (u : Bytes) (a b : List Bytes) → has u (a ++ b) ≡ (has u a || has u b)
unfolding has
has-append u [] b = refl
has-append u (t ∷ a) b = ground (arith, has-append u a b)

has-dedup :
    (u : Bytes) (seen ts : List Bytes) → has u (dedup seen ts) ≡ (has u ts && not (has u seen))
unfolding has dedup
has-dedup u seen [] = refl
has-dedup u seen (t ∷ ts) =
    ground (arith, has-dedup u seen ts, has-dedup u (t ∷ seen) ts, equal_iff t u)

dedup-IsDistinct : (seen ts : List Bytes) → IsDistinct (dedup seen ts)
unfolding dedup
dedup-IsDistinct seen [] = tt
dedup-IsDistinct seen (t ∷ ts) = elim (Bool-cases (has t seen)) [
  | inl e ↦ rw e (dedup-IsDistinct seen ts)
  | inr e ↦ rw e (
    unfold has in ground (arith, has-dedup t (t ∷ seen) ts, equal_refl t),
    dedup-IsDistinct (t ∷ seen) ts,
  )
]

-- Every tag of the flag and of the variable is reported, once, and no other.
pub edge_tags-IsDistinct :
    (flag_tags extra_tags : Bytes)
    → IsDistinct (edge_tags flag_tags extra_tags)
      × ((u : Bytes)
          → has u (edge_tags flag_tags extra_tags)
            ≡ (has u (parse_tags flag_tags) || has u (parse_tags extra_tags)))
edge_tags-IsDistinct flag_tags extra_tags =
    let all = parse_tags flag_tags ++ parse_tags extra_tags in
    rw (edge_tags-dedup flag_tags extra_tags) (
      dedup-IsDistinct [] all,
      λ u.
          unfold has in
          ground (
            arith,
            has-dedup u [] all,
            has-append u (parse_tags flag_tags) (parse_tags extra_tags),
          ),
    )
