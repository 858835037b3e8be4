-- ===== src/LogStream/Boundary.antt =====
-- About `runeBoundary` of logstream.go, on any bytes and on well-formed text.
use native.Mathlib.Decide.{dec_le}
use plakar_edge.Base.{
  ℕ, zero, suc, ◌+◌, ◌-◌, ◌≤◌, ◌<◌, ◌≡◌, ◌⊎◌, refl, sym, ap, ◌∙◌, Bool, true, false, [], ◌∷◌, ◌++◌,
  arith, Bytes, length, length-append, length-drop, take, drop, drop-drop, take-append_add,
  drop-append_add, take-before, if◌then◌else◌, ◌==◌, ==_iff, Bool-cases, inl, inr,
}
use plakar_edge.LogStream.{boundary_loop, rune_boundary}
use plakar_edge.LogStream.Utf8.{
  rune_start, full_rune, is_continuation, rune_length, IsRune, one, two, three, four, Utf8, nil,
  cons, Utf8-append, Utf8-rune, accepts-is_continuation, rune_length-rune_start,
}

-- `i + k`, which computes at a numeral `k`.
abbrev ahead : ℕ → ℕ → ℕ
ahead zero i = i
ahead (suc k) i = suc (ahead k i)

ahead_lem : (k i : ℕ) → ahead k i ≡ i + k
ahead_lem zero i = omega arith
ahead_lem (suc k) i = omega (arith, ahead_lem k i)

-- Where the byte at `i` begins a sequence.
boundary_loop_start :
    (tries i n : ℕ) (b : Bytes)
    → rune_start (drop i b) ≡ true
    → boundary_loop (suc tries) (suc i) b n ≡ (if full_rune (take (n - i) (drop i b)) then n else i)
unfolding boundary_loop
boundary_loop_start tries i n b h = ground arith

-- Where it does not.
boundary_loop_back :
    (tries i n : ℕ) (b : Bytes)
    → rune_start (drop i b) ≡ false
    → boundary_loop (suc tries) (suc i) b n ≡ boundary_loop tries i b n
unfolding boundary_loop
boundary_loop_back tries i n b h = ground arith

drop-suc : (m : ℕ) (b : Bytes) {x : ℕ} {xs : Bytes} → drop m b ≡ x ∷ xs → drop (suc m) b ≡ xs
drop-suc m b {x} {xs} e =
    let s : m + 1 ≡ suc m = omega arith in
    ap (λ k. drop k b) (sym s) ∙ sym (drop-drop 1 m b) ∙ ap (drop 1) e

module _ (b : Bytes) (n : ℕ) where
  skip :
      (tries m : ℕ) {c : ℕ} {xs : Bytes}
      → drop m b ≡ c ∷ xs
      → is_continuation c ≡ true
      → boundary_loop (suc tries) (suc m) b n ≡ boundary_loop tries m b n
  unfolding rune_start
  skip tries m e h = boundary_loop_back tries m n b (rw e (ground arith))

  settle :
      (tries m k c : ℕ) {xs : Bytes} (whole : Bool)
      → drop m b ≡ c ∷ xs
      → rune_start (c ∷ xs) ≡ true
      → n ≡ m + k
      → full_rune (take k (c ∷ xs)) ≡ whole
      → boundary_loop (suc tries) (suc m) b n ≡ (if whole then n else m)
  settle tries m k c whole e h l f =
      let s : n - m ≡ k = omega arith in
      boundary_loop_start tries m n b (rw e h) ∙ ap (λ t. if t then n else m) (rw (s, e) f)

  begins : (c : ℕ) (xs : Bytes) → 2 ≤ rune_length c → rune_start (c ∷ xs) ≡ true
  begins c xs h = rune_length-rune_start c xs h

  -- Inside the sequence `r`, which stands at `m`, the loop answers its end at its end, and else `m`.
  boundary_loop-rune :
      {r : Bytes} (rest : Bytes) (m k : ℕ)
      → IsRune r
      → drop m b ≡ r ++ rest
      → n ≡ m + k
      → 0 < k
      → k ≤ length r
      → boundary_loop 4 (ahead k m) b n ≡ (if k == length r then n else m)
  unfolding rune_start full_rune
  boundary_loop-rune rest m zero r e l p q = elim p [ ]
  boundary_loop-rune rest m (suc zero) (one c h) e l p q =
      settle 3 m 1 c true e (ground arith) l (ground arith)
  boundary_loop-rune rest m (suc (suc k)) (one c h) e l p q = absurd (omega arith)
  boundary_loop-rune rest m (suc zero) (two c d h i) e l p q =
      settle 3 m 1 c false e (begins c [] (omega arith)) l (ground arith)
  boundary_loop-rune rest m (suc (suc zero)) (two c d h i) e l p q =
      skip 3 (suc m) (drop-suc m b e) i
      ∙ settle 2 m 2 c true e (begins c [] (omega arith)) l (ground arith)
  boundary_loop-rune rest m (suc (suc (suc k))) (two c d h i) e l p q = absurd (omega arith)
  boundary_loop-rune rest m (suc zero) (three c d f h i j) e l p q =
      settle 3 m 1 c false e (begins c [] (omega arith)) l (ground arith)
  boundary_loop-rune rest m (suc (suc zero)) (three c d f h i j) e l p q =
      skip 3 (suc m) (drop-suc m b e) (accepts-is_continuation c d i)
      ∙ settle 2 m 2 c false e (begins c [] (omega arith)) l (ground arith)
  boundary_loop-rune rest m (suc (suc (suc zero))) (three c d f h i j) e l p q =
      skip 3 (suc (suc m)) (drop-suc (suc m) b (drop-suc m b e)) j
      ∙ skip 2 (suc m) (drop-suc m b e) (accepts-is_continuation c d i)
      ∙ settle 1 m 3 c true e (begins c [] (omega arith)) l (ground arith)
  boundary_loop-rune rest m (suc (suc (suc (suc k)))) (three c d f h i j) e l p q =
      absurd (omega arith)
  boundary_loop-rune rest m (suc zero) (four c d f g h i j o) e l p q =
      settle 3 m 1 c false e (begins c [] (omega arith)) l (ground arith)
  boundary_loop-rune rest m (suc (suc zero)) (four c d f g h i j o) e l p q =
      skip 3 (suc m) (drop-suc m b e) (accepts-is_continuation c d i)
      ∙ settle 2 m 2 c false e (begins c [] (omega arith)) l (ground arith)
  boundary_loop-rune rest m (suc (suc (suc zero))) (four c d f g h i j o) e l p q =
      skip 3 (suc (suc m)) (drop-suc (suc m) b (drop-suc m b e)) j
      ∙ skip 2 (suc m) (drop-suc m b e) (accepts-is_continuation c d i)
      ∙ settle 1 m 3 c false e (begins c [] (omega arith)) l (ground arith)
  boundary_loop-rune rest m (suc (suc (suc (suc zero)))) (four c d f g h i j o) e l p q =
      skip 3 (suc (suc (suc m))) (drop-suc (suc (suc m)) b (drop-suc (suc m) b (drop-suc m b e))) o
      ∙ skip 2 (suc (suc m)) (drop-suc (suc m) b (drop-suc m b e)) j
      ∙ skip 1 (suc m) (drop-suc m b e) (accepts-is_continuation c d i)
      ∙ settle 0 m 4 c true e (begins c [] (omega arith)) l (ground arith)
  boundary_loop-rune rest m (suc (suc (suc (suc (suc k))))) (four c d f g h i j o) e l p q =
      absurd (omega arith)

-- Where the sequence that holds the byte before `n` stands.
pub record Around (b : Bytes) (n : ℕ) : Type 0 where
  pub start : ℕ
  pub offset : ℕ
  pub rune : Bytes
  pub rest : Bytes
  pub is_rune : IsRune rune
  pub before : Utf8 (take start b)
  pub after : Utf8 rest
  pub start_le : start ≤ length b
  pub at_start : drop start b ≡ rune ++ rest
  pub position : n ≡ start + offset
  pub offset_pos : 0 < offset
  pub offset_le : offset ≤ length rune

Around-first :
    {r rest s : Bytes} (n : ℕ)
    → IsRune r
    → Utf8 rest
    → s ≡ r ++ rest
    → 0 < n
    → n ≤ length r
    → Around s n
Around-first {r} {rest} n h v e p q = record {
  start = 0;
  offset = n;
  rune = r;
  rest = rest;
  is_rune = h;
  before = nil;
  after = v;
  start_le = omega arith;
  at_start = e;
  position = omega arith;
  offset_pos = p;
  offset_le = q;
}

Around-later :
    {r rest s : Bytes} (n k : ℕ)
    → IsRune r
    → s ≡ r ++ rest
    → n ≡ length r + k
    → Around rest k
    → Around s n
Around-later {r} {rest} n k h e l a = record {
  start = length r + a.start;
  offset = a.offset;
  rune = a.rune;
  rest = a.rest;
  is_rune = a.is_rune;
  before = rw (e, take-append_add r rest a.start) (Utf8-append _ (Utf8-rune h) a.before);
  after = a.after;
  start_le = rw (e, length-append r rest) (omega (arith, a.start_le));
  at_start = rw (e, drop-append_add r rest a.start) a.at_start;
  position = omega (arith, a.position);
  offset_pos = a.offset_pos;
  offset_le = a.offset_le;
}

pub Utf8-Around : {b : Bytes} (n : ℕ) → Utf8 b → 0 < n → n ≤ length b → Around b n
Utf8-Around n nil p q = absurd (omega arith)
Utf8-Around n (cons r rest h v e) p q = elim (dec_le n (length r)) [
  | yes q' ↦ Around-first n h v e p q'
  | no q' ↦ Around-later n (n - length r) h e (omega arith) (
      Utf8-Around (n - length r) v (omega arith) (omega (arith, ap length e, length-append r rest)))
]

module _ {b : Bytes} {n : ℕ} (a : Around b n) where
  rune_boundary_found : rune_boundary b n ≡ (if a.offset == length a.rune then n else a.start)
  unfolding rune_boundary
  rune_boundary_found =
      let at_n : n ≡ ahead a.offset a.start = a.position ∙ sym (ahead_lem a.offset a.start) in
      ap (λ i. boundary_loop 4 i b n) at_n
      ∙ boundary_loop-rune b n a.rest a.start a.offset a.is_rune a.at_start a.position a.offset_pos
          a.offset_le

  -- The cut falls at the end of the sequence if that is `n`, and otherwise at its beginning.
  rune_boundary_cases :
      ((rune_boundary b n ≡ n) × (a.offset ≡ length a.rune)) ⊎ (rune_boundary b n ≡ a.start)
  rune_boundary_cases = elim (Bool-cases (a.offset == length a.rune)) [
    | inl whole ↦ inl (rune_boundary_found ∙ rw whole, (==_iff _ _).0 whole)
    | inr part ↦ inr (rune_boundary_found ∙ rw part)
  ]

  rune_boundary-Around : Utf8 (take (rune_boundary b n) b) × Utf8 (drop (rune_boundary b n) b)
  rune_boundary-Around = elim rune_boundary_cases [
    | inl (e, l) ↦
        let cut = take-before a.start a.offset b a.rune a.rest a.at_start l a.start_le in
        rw (e, a.position)
          (rw cut.0 (Utf8-append _ a.before (Utf8-rune a.is_rune)), rw cut.1 a.after)
    | inr e ↦ rw e (a.before, rw a.at_start (cons a.rune a.rest a.is_rune a.after refl))
  ]

-- Cutting well-formed text at a rune boundary leaves well-formed text on both sides, wherever the
-- limit falls in it.
pub rune_boundary-Utf8 :
    (b : Bytes) (n : ℕ)
    → Utf8 b
    → 0 < n
    → n ≤ length b
    → Utf8 (take (rune_boundary b n) b) × Utf8 (drop (rune_boundary b n) b)
rune_boundary-Utf8 b n u p q = rune_boundary-Around (Utf8-Around n u p q)

-- Four bytes are never the beginning of a longer sequence.
full_rune-take : (xs : Bytes) → 4 ≤ length xs → full_rune (take 4 xs) ≡ true
unfolding full_rune
full_rune-take (c ∷ d ∷ e ∷ f ∷ xs) h = ground arith
full_rune-take [] h = absurd (omega arith)
full_rune-take (c ∷ []) h = absurd (omega arith)
full_rune-take (c ∷ d ∷ []) h = absurd (omega arith)
full_rune-take (c ∷ d ∷ e ∷ []) h = absurd (omega arith)

round_bounds :
    (tries i n : ℕ) (b : Bytes)
    → suc tries ≤ 4
    → n + suc tries ≡ suc i + 4
    → n ≤ length b
    → let k = if full_rune (take (n - i) (drop i b)) then n else i in (k ≤ n) × (n ≤ k + 3)
round_bounds zero i n b t p l =
    let four : n - i ≡ 4 = omega arith in
    let full = full_rune-take (drop i b) (omega (arith, length-drop i b)) in
    rw (four, full) (omega arith)
round_bounds (suc tries) i n b t p l = ground arith

boundary_loop_bounds :
    (tries i n : ℕ) (b : Bytes)
    → tries ≤ 4
    → n + tries ≡ i + 4
    → n ≤ length b
    → (boundary_loop tries i b n ≤ n) × (n ≤ boundary_loop tries i b n + 3)
unfolding boundary_loop
boundary_loop_bounds zero i n b t p l = omega arith
boundary_loop_bounds (suc tries) zero n b t p l = omega arith
boundary_loop_bounds (suc tries) (suc i) n b t p l = elim (Bool-cases (rune_start (drop i b))) [
  | inl yes' ↦ rw (boundary_loop_start tries i n b yes') (round_bounds tries i n b t p l)
  | inr no' ↦
      rw (boundary_loop_back tries i n b no')
        (boundary_loop_bounds tries i n b (omega arith) (omega arith) l)
]

-- On any bytes the cut is at most three below the limit.
pub rune_boundary_bounds :
    (b : Bytes) (n : ℕ) → n ≤ length b → (rune_boundary b n ≤ n) × (n ≤ rune_boundary b n + 3)
unfolding rune_boundary
rune_boundary_bounds b n l = boundary_loop_bounds 4 n n b (omega arith) refl l
