-- ===== src/Hooks/Resolve.antt =====
-- About `resolveHookScript` of hooks.go: the trust boundary between the task and the host.
use plakar_edge.Base.{
  ◌≡◌, ◌≢◌, refl, sym, ap, ◌∙◌, ◌↔◌, true, false, List, [], ◌∷◌, ◌++◌, arith, inl, inr, Bytes, text,
  equal, equal_iff, is_empty, contains_byte, All, Bool-cases,
}
use plakar_edge.Client.{ok}
use plakar_edge.Hooks.{
  Stat, stat_failed, regular, not_regular, is_invalid_name, resolve_hook_script,
}
use plakar_edge.Paths.Inside.{IsFileName, absolute, not_equal, join-absolute}
use plakar_edge.Paths.{join}

-- The names that the edge accepts: of one file, with no backslash either.
pub record IsScriptName (name : Bytes) : Type 0 where
  pub file_name : IsFileName name
  pub no_backslash : contains_byte b'\\' name ≡ false

unequal : (a b : Bytes) → equal a b ≡ false → a ≢ b
unequal a b h e = let t = (equal_iff a b).1 e in cc

valid-IsScriptName : (name : Bytes) → is_invalid_name name ≡ false → IsScriptName name
unfolding is_invalid_name
valid-IsScriptName [] h = absurd (cc)
valid-IsScriptName (c ∷ name) h = record {
  file_name = record {
    nonempty = λ e. cc;
    no_slash = ground arith;
    not_dot = unequal (c ∷ name) (text ".") (ground arith);
    not_dots = unequal (c ∷ name) (text "..") (ground arith);
  };
  no_backslash = ground arith;
}

IsScriptName-valid : (name : Bytes) → IsScriptName name → is_invalid_name name ≡ false
unfolding is_invalid_name
IsScriptName-valid [] n = absurd (n.file_name.nonempty refl)
IsScriptName-valid (c ∷ name) n = rw (
  not_equal (c ∷ name) (text ".") n.file_name.not_dot,
  not_equal (c ∷ name) (text "..") n.file_name.not_dots,
  n.file_name.no_slash,
  n.no_backslash,
)

absolute-nonempty : (names : List Bytes) → is_empty (absolute names) ≡ false
absolute-nonempty [] = refl
absolute-nonempty (name ∷ names) = refl

module _ (quote : Bytes → Bytes) (stat : Bytes → Stat) where
  abbrev pub Resolves : List Bytes → Bytes → Bytes → Type 0
  Resolves names name path =
      IsScriptName name × (path ≡ absolute (names ++ name ∷ [])) × (stat path ≡ regular)

  resolve_valid :
      (dir name path : Bytes) (st : Stat)
      → is_empty dir ≡ false
      → is_invalid_name name ≡ false
      → stat (join dir name) ≡ st
      → resolve_hook_script quote stat dir name ≡ ok path
      → (path ≡ join dir name) × (st ≡ regular)
  unfolding resolve_hook_script
  resolve_valid dir name path (stat_failed x) d v s e =
      let x = rw (resolve_hook_script, d, v, s) at e in cc
  resolve_valid dir name path not_regular d v s e =
      let x = rw (resolve_hook_script, d, v, s) at e in cc
  resolve_valid dir name path regular d v s e =
      let x = rw (resolve_hook_script, d, v, s) at e in (cc, refl)

  resolve_invalid :
      (dir name path : Bytes)
      → is_empty dir ≡ false
      → is_invalid_name name ≡ true
      → resolve_hook_script quote stat dir name ≢ ok path
  unfolding resolve_hook_script
  resolve_invalid dir name path d v e = let x = rw (d, v) at e in cc

  Resolves-join :
      (names : List Bytes) (name path : Bytes)
      → All IsFileName names
      → Resolves names name path
      → resolve_hook_script quote stat (absolute names) name ≡ ok path
  unfolding resolve_hook_script
  Resolves-join names name path h (n, p, s) =
      let j = join-absolute names name h n.file_name ∙ sym p in
      let s' : stat (join (absolute names) name) ≡ regular = ap stat j ∙ s in
      rw (absolute-nonempty names, IsScriptName-valid name n, s') (ap ok j)

  resolve-Resolves :
      (names : List Bytes) (name path : Bytes)
      → All IsFileName names
      → resolve_hook_script quote stat (absolute names) name ≡ ok path
      → Resolves names name path
  resolve-Resolves names name path h e = elim (Bool-cases (is_invalid_name name)) [
    | inl v ↦ absurd (resolve_invalid (absolute names) name path (absolute-nonempty names) v e)
    | inr v ↦
        let n = valid-IsScriptName name v in
        let found = resolve_valid (absolute names) name path _ (absolute-nonempty names) v refl e in
        (n, found.0 ∙ join-absolute names name h n.file_name, ap stat found.0 ∙ found.1)
  ]

  -- With the scripts directory absolute and clean, a hook resolves to a path exactly when its name is
  -- that of a single file, with no slash or backslash, and the path is that of the name in the
  -- directory itself, and names a regular file.
  pub resolve_iff :
      (names : List Bytes) (name path : Bytes)
      → All IsFileName names
      → (resolve_hook_script quote stat (absolute names) name ≡ ok path) ↔ Resolves names name path
  resolve_iff names name path h =
      (resolve-Resolves names name path h, Resolves-join names name path h)

  -- With no scripts directory every hook is refused.
  pub resolve_no_dir : (name path : Bytes) → resolve_hook_script quote stat [] name ≢ ok path
  unfolding resolve_hook_script
  resolve_no_dir name path e = cc
