-- ===== src/Paths/Inside.antt =====
-- Where `filepath.Join` leads from an absolute directory and a plain name.
use mathlib.Core.List.{reverse, reverse-cons, reverse-reverse, append_assoc, append-nil}
use plakar_edge.Base.{
  ◌≡◌, ◌≢◌, refl, sym, ap, ◌∙◌, true, false, List, [], ◌∷◌, ◌++◌, arith, inl, inr, Bytes, text,
  equal, equal_iff, contains_byte, All, All-append, ◌==◌, Bool-cases,
}
use plakar_edge.Base.Trim.{split_onto}
use plakar_edge.Paths.{slash, push_name, push_names, join_names, or_dot, clean, join}

-- A name of one file: no separator, and none of "", "." and "..".
pub record IsFileName (name : Bytes) : Type 0 where
  pub nonempty : name ≢ []
  pub no_slash : contains_byte b'/' name ≡ false
  pub not_dot : name ≢ text "."
  pub not_dots : name ≢ text ".."

-- An absolute, clean path: these names, each behind a slash.
abbrev pub behind : List Bytes → Bytes
behind [] = []
behind (name ∷ names) = slash ++ (name ++ behind names)

abbrev pub absolute : List Bytes → Bytes
absolute [] = slash
absolute (name ∷ names) = behind (name ∷ names)

split_onto-name :
    (word name rest : Bytes)
    → contains_byte b'/' name ≡ false
    → split_onto b'/' word (name ++ rest) ≡ split_onto b'/' (reverse name ++ word) rest
unfolding split_onto contains_byte
split_onto-name word [] rest h = refl
split_onto-name word (c ∷ name) rest h =
    let other : c == b'/' ≡ false = ground arith in
    rw (split_onto, other)
      (split_onto-name (c ∷ word) name rest (ground arith)
        ∙ ap (λ w. split_onto b'/' w rest)
            (sym (
              ap (λ r. r ++ word) (reverse-cons c name)
              ∙ append_assoc (reverse name) (c ∷ []) word)))

split_onto-behind :
    (word : Bytes) (names : List Bytes)
    → All IsFileName names
    → split_onto b'/' word (behind names) ≡ reverse word ∷ names
unfolding split_onto
split_onto-behind word [] h = refl
split_onto-behind word (name ∷ names) (f, h) = ap (◌∷◌ (reverse word)) (
    split_onto-name [] name (behind names) f.no_slash
    ∙ split_onto-behind (reverse name ++ []) names h
    ∙ ap (λ r. r ∷ names) (ap reverse (append-nil (reverse name)) ∙ reverse-reverse name))

pub not_equal : (a b : Bytes) → a ≢ b → equal a b ≡ false
not_equal a b h = elim (Bool-cases (equal a b)) [
  | inl e ↦ absurd (h ((equal_iff a b).0 e))
  | inr e ↦ e
]

push_name-IsFileName :
    (out : List Bytes) (name : Bytes) → IsFileName name → push_name true out name ≡ name ∷ out
unfolding push_name
push_name-IsFileName out [] f = absurd (f.nonempty refl)
push_name-IsFileName out (c ∷ name) f =
    rw (not_equal (c ∷ name) (text ".") f.not_dot, not_equal (c ∷ name) (text "..") f.not_dots)

push_names-IsFileName :
    (out names : List Bytes)
    → All IsFileName names
    → push_names true out names ≡ reverse names ++ out
unfolding push_names
push_names-IsFileName out [] h = refl
push_names-IsFileName out (name ∷ names) (f, h) = rw (push_name-IsFileName out name f) (
    push_names-IsFileName (name ∷ out) names h
    ∙ sym (
        ap (λ r. r ++ out) (reverse-cons name names)
        ∙ append_assoc (reverse names) (name ∷ []) out))

join_names-behind :
    (name : Bytes) (names : List Bytes) → slash ++ join_names (name ∷ names) ≡ behind (name ∷ names)
unfolding join_names
join_names-behind name [] = ap (◌∷◌ b'/') (sym (append-nil name))
join_names-behind name (next ∷ names) =
    ap (λ r. slash ++ (name ++ r)) (join_names-behind next names)

-- The root's empty name in front, `push_names` gives the names back.
clean_names :
    (name : Bytes) (names : List Bytes)
    → All IsFileName (name ∷ names)
    → or_dot (slash ++ join_names (reverse (push_names true [] ([] ∷ name ∷ names))))
      ≡ absolute (name ∷ names)
unfolding push_names push_name
clean_names name names h =
    rw
      (
        push_names-IsFileName [] (name ∷ names) h,
        append-nil (reverse (name ∷ names)),
        reverse-reverse (name ∷ names),
      )
      (join_names-behind name names)

-- An absolute path of plain names is clean as it stands.
clean-behind :
    (name : Bytes) (names : List Bytes)
    → All IsFileName (name ∷ names)
    → clean (behind (name ∷ names)) ≡ absolute (name ∷ names)
unfolding clean
clean-behind name names h = rw (split_onto-behind [] (name ∷ names) h) (clean_names name names h)

behind-append :
    (names : List Bytes) (name : Bytes)
    → behind names ++ (slash ++ name) ≡ behind (names ++ name ∷ [])
behind-append [] name = ap (λ r. slash ++ r) (sym (append-nil name))
behind-append (n ∷ names) name =
    ap (λ r. slash ++ r)
      (append_assoc n (behind names) (slash ++ name) ∙ ap (λ r. n ++ r) (behind-append names name))

-- An empty name behind the root changes nothing.
clean-root :
    (name : Bytes) → IsFileName name → clean (slash ++ (slash ++ name)) ≡ absolute (name ∷ [])
unfolding clean split_onto push_names push_name
clean-root name f = rw (split_onto-one name f) (clean_names name [] (f, tt))
  where
    split_onto-one : (n : Bytes) → IsFileName n → split_onto b'/' [] n ≡ n ∷ []
    split_onto-one n g =
        ap (split_onto b'/' []) (sym (append-nil n))
        ∙ split_onto-name [] n [] g.no_slash
        ∙ ap (λ r. r ∷ []) (ap reverse (append-nil (reverse n)) ∙ reverse-reverse n)

-- Joining a plain name to an absolute directory gives that directory's names and then the name: it
-- never leads outside, nor below.
pub join-absolute :
    (names : List Bytes) (name : Bytes)
    → All IsFileName names
    → IsFileName name
    → join (absolute names) name ≡ absolute (names ++ name ∷ [])
unfolding join
join-absolute names [] h f = absurd (f.nonempty refl)
join-absolute [] (c ∷ name) h f = clean-root (c ∷ name) f
join-absolute (n ∷ names) (c ∷ name) h f =
    ap clean (behind-append (n ∷ names) (c ∷ name))
    ∙ clean-behind n (names ++ (c ∷ name) ∷ []) (h.0, All-append IsFileName names _ h.1 (f, tt))
