-- ===== src/Base/Trim/Laws.antt =====
-- Laws of `trim_space` and `split`.
use mathlib.Core.List.{
  reverse, reverse-append, reverse-reverse, reverse-cons, append_assoc, append-nil,
}
use Prim.Native.Nat.{ℕ, zero, suc}
use mathlib.Core.Path.{◌≡◌, refl, sym, ap, ◌∙◌}
use mathlib.Core.Logic.{◌⊎◌, inl, inr}
use mathlib.Core.Bool.{true, false, ◌||◌}
use mathlib.Core.List.{[], ◌∷◌, ◌++◌}
use native.Mathlib.Omega.{arith}
use plakar_edge.Base.Tests.{◌==◌, Bool-cases}
use plakar_edge.Base.Text.{Bytes, contains_byte}
use plakar_edge.Base.Lists.{All}
use plakar_edge.Base.Trim.{leading_space, trailing_space, strip, trim_space, split_onto, split}

ℕ-cases : (n : ℕ) → (n ≡ 0) ⊎ ((k : ℕ) × (n ≡ suc k))
ℕ-cases zero = inl refl
ℕ-cases (suc k) = inr (k, refl)

module _ (space : Bytes → ℕ) where
  strip_stop : (c : ℕ) (s : Bytes) → space (c ∷ s) ≡ 0 → strip space 0 (c ∷ s) ≡ c ∷ s
  unfolding strip
  strip_stop c s e = rw (strip, e)

  strip_go :
      (c : ℕ) (s : Bytes) (k : ℕ) → space (c ∷ s) ≡ suc k → strip space 0 (c ∷ s) ≡ strip space k s
  unfolding strip
  strip_go c s k e = rw (strip, e)

  strip_nil : (k : ℕ) → strip space k [] ≡ []
  unfolding strip
  strip_nil zero = refl
  strip_nil (suc k) = refl

  strip_skip : (k c : ℕ) (s : Bytes) → strip space (suc k) (c ∷ s) ≡ strip space k s
  unfolding strip
  strip_skip k c s = refl

  strip_zero : (s : Bytes) → space s ≡ 0 → strip space 0 s ≡ s
  strip_zero [] e = strip_nil 0
  strip_zero (c ∷ s) e = strip_stop c s e

  -- What is left is an end of the text, and begins with no space.
  record Stripped (s r : Bytes) : Type 0 where
    pub gone : Bytes
    pub splits : s ≡ gone ++ r
    pub stops : space r ≡ 0

  Stripped-cons : (c : ℕ) {s r : Bytes} → Stripped s r → Stripped (c ∷ s) r
  Stripped-cons c h = record { gone = c ∷ h.gone; splits = ap (◌∷◌ c) h.splits; stops = h.stops }

  strip-Stripped : space [] ≡ 0 → (k : ℕ) (s : Bytes) → Stripped s (strip space k s)
  strip-Stripped z k [] = rw (strip_nil k) (record { gone = []; splits = refl; stops = z })
  strip-Stripped z (suc k) (c ∷ s) = rw (strip_skip k c s) (Stripped-cons c (strip-Stripped z k s))
  strip-Stripped z zero (c ∷ s) = elim (ℕ-cases (space (c ∷ s))) [
    | inl e ↦ rw (strip_stop c s e) (record { gone = []; splits = refl; stops = e })
    | inr (k, e) ↦ rw (strip_go c s k e) (Stripped-cons c (strip-Stripped z k s))
  ]

leading_space-prefix : (p q : Bytes) → leading_space (p ++ q) ≡ 0 → leading_space p ≡ 0
unfolding leading_space
leading_space-prefix [] q e = refl
leading_space-prefix (c ∷ []) [] e = e
leading_space-prefix (c ∷ []) (d ∷ []) e = ground arith
leading_space-prefix (c ∷ []) (d ∷ f ∷ q) e = ground arith
leading_space-prefix (c ∷ d ∷ []) [] e = e
leading_space-prefix (c ∷ d ∷ []) (f ∷ q) e = ground arith
leading_space-prefix (c ∷ d ∷ f ∷ p) q e = e

-- The parts of a trimmed text.
record Trimmed (s t : Bytes) : Type 0 where
  pub before : Bytes
  pub after : Bytes
  pub splits : s ≡ before ++ (t ++ after)
  pub leads : leading_space t ≡ 0
  pub trails : trailing_space (reverse t) ≡ 0

trim_space-Trimmed : (s : Bytes) → Trimmed s (trim_space s)
unfolding trim_space
trim_space-Trimmed s =
    let front = strip-Stripped leading_space (unfold leading_space in refl) 0 s in
    let kept = strip leading_space 0 s in
    let back = strip-Stripped trailing_space (unfold trailing_space in refl) 0 (reverse kept) in
    let rest = strip trailing_space 0 (reverse kept) in
    let whole : kept ≡ reverse rest ++ reverse back.gone =
      sym (reverse-reverse kept) ∙ ap reverse back.splits ∙ reverse-append back.gone rest in
    record {
      before = front.gone;
      after = reverse back.gone;
      splits = front.splits ∙ ap (λ r. front.gone ++ r) whole;
      leads = leading_space-prefix (reverse rest) (reverse back.gone) (rw whole at front.stops);
      trails = rw (reverse-reverse rest) back.stops;
    }

-- A text that neither begins nor ends with a space is left as it is.
trim_space_fixed :
    (t : Bytes) → leading_space t ≡ 0 → trailing_space (reverse t) ≡ 0 → trim_space t ≡ t
unfolding trim_space
trim_space_fixed t l r =
    rw (strip_zero leading_space t l, strip_zero trailing_space (reverse t) r) (reverse-reverse t)

pub trim_space-trim_space : (s : Bytes) → trim_space (trim_space s) ≡ trim_space s
trim_space-trim_space s =
    let t = trim_space-Trimmed s in trim_space_fixed (trim_space s) t.leads t.trails

contains_byte-append :
    (c : ℕ) (a b : Bytes) → contains_byte c (a ++ b) ≡ (contains_byte c a || contains_byte c b)
unfolding contains_byte
contains_byte-append c [] b = refl
contains_byte-append c (x ∷ a) b = ground (arith, contains_byte-append c a b)

-- Trimming brings in no byte.
pub contains_byte-trim_space :
    (c : ℕ) (s : Bytes) → contains_byte c s ≡ false → contains_byte c (trim_space s) ≡ false
contains_byte-trim_space c s h =
    let t = trim_space-Trimmed s in
    ground (
      arith,
      ap (contains_byte c) t.splits,
      contains_byte-append c t.before (trim_space s ++ t.after),
      contains_byte-append c (trim_space s) t.after,
    )

module _ (sep : ℕ) where
  split_onto_sep :
      (word : Bytes) (c : ℕ) (s : Bytes)
      → c == sep ≡ true
      → split_onto sep word (c ∷ s) ≡ reverse word ∷ split_onto sep [] s
  unfolding split_onto
  split_onto_sep word c s e = rw (split_onto, e)

  split_onto_other :
      (word : Bytes) (c : ℕ) (s : Bytes)
      → c == sep ≡ false
      → split_onto sep word (c ∷ s) ≡ split_onto sep (c ∷ word) s
  unfolding split_onto
  split_onto_other word c s e = rw (split_onto, e)

  split_onto_nil : (word : Bytes) → split_onto sep word [] ≡ reverse word ∷ []
  unfolding split_onto
  split_onto_nil word = refl

  split_onto-append :
      (word a b : Bytes)
      → split_onto sep word (a ++ sep ∷ b) ≡ split_onto sep word a ++ split_onto sep [] b
  split_onto-append word [] b = rw (split_onto_sep word sep b (ground arith), split_onto_nil word)
  split_onto-append word (c ∷ a) b = elim (Bool-cases (c == sep)) [
    | inl e ↦
        rw (split_onto_sep word c (a ++ sep ∷ b) e, split_onto_sep word c a e)
          (ap (◌∷◌ (reverse word)) (split_onto-append [] a b))
    | inr e ↦
        rw (split_onto_other word c (a ++ sep ∷ b) e, split_onto_other word c a e)
          (split_onto-append (c ∷ word) a b)
  ]

  -- Two texts with a separator between them are split one by one.
  pub split-append : (a b : Bytes) → split sep (a ++ sep ∷ b) ≡ split sep a ++ split sep b
  unfolding split
  split-append a b = split_onto-append [] a b

  contains_byte-reverse : (w : Bytes) → contains_byte sep (reverse w) ≡ contains_byte sep w
  unfolding contains_byte
  contains_byte-reverse [] = refl
  contains_byte-reverse (c ∷ w) = ground (
    arith,
    ap (contains_byte sep) (reverse-cons c w),
    contains_byte-append sep (reverse w) (c ∷ []),
    contains_byte-reverse w,
  )

  split_onto-All :
      (word s : Bytes)
      → contains_byte sep word ≡ false
      → All (λ w. contains_byte sep w ≡ false) (split_onto sep word s)
  split_onto-All word [] h = rw (split_onto_nil word) (contains_byte-reverse word ∙ h, tt)
  split_onto-All word (c ∷ s) h = elim (Bool-cases (c == sep)) [
    | inl e ↦
        rw (split_onto_sep word c s e)
          (contains_byte-reverse word ∙ h, split_onto-All [] s (unfold contains_byte in refl))
    | inr e ↦
        rw (split_onto_other word c s e)
          (split_onto-All (c ∷ word) s (unfold contains_byte in ground arith))
  ]

  -- No part holds the separator.
  pub split-All : (s : Bytes) → All (λ w. contains_byte sep w ≡ false) (split sep s)
  unfolding split
  split-All s = split_onto-All [] s (unfold contains_byte in refl)

  split_onto-none :
      (word s : Bytes)
      → contains_byte sep s ≡ false
      → split_onto sep word s ≡ (reverse word ++ s) ∷ []
  unfolding contains_byte
  split_onto-none word [] h =
      split_onto_nil word ∙ ap (λ r. r ∷ []) (sym (append-nil (reverse word)))
  split_onto-none word (c ∷ s) h =
      split_onto_other word c s (ground arith)
      ∙ split_onto-none (c ∷ word) s (ground arith)
      ∙ ap (λ r. r ∷ [])
          (ap (λ r. r ++ s) (reverse-cons c word) ∙ append_assoc (reverse word) (c ∷ []) s)

  -- A text with no separator is one part.
  pub split_none : (s : Bytes) → contains_byte sep s ≡ false → split sep s ≡ s ∷ []
  unfolding split
  split_none s h = split_onto-none [] s h
