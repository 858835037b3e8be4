-- ===== src/PollLoop/Owned.antt =====
-- The entries of `cancels`: which works own them, in every state of `pollLoop`.
use plakar_edge.Base.{
  ℕ, ◌≤◌, ◌<◌, ◌≡◌, ◌≢◌, refl, sym, ◌⊎◌, inl, inr, Bool, true, false, List, [], ◌∷◌, ◌++◌, Option,
  none, some, arith, All, Bool-cases, equal, equal_iff,
}
use plakar_edge.Base.Int.{ℤ}
use plakar_edge.Client.{Result, ok, err, is_unauthorized_error}
use plakar_edge.PollLoop.{
  ready, Loop, Work, new_loop, begin_poll, lookup_cancel, delete_cancel, op_cancel, start_work,
  dispatch, resume, cancel_entry, finish_work, release_slot,
}
use plakar_edge.PollLoop.Reach.{
  Server, Step, polls, answers, resumes, finishes, releases, shuts_down, Reach, Reach-invariant,
}
use plakar_edge.Protocol.{WorkItem, Uuid}

-- Some work of the list has this id and context.
abbrev pub Holds : List Work → Uuid × ℕ → Type 0
Holds [] e = ⊥
Holds (w ∷ ws) (id, c) = ((w.work_id ≡ id) × (w.context ≡ c)) ⊎ Holds ws (id, c)

-- The newest first, and all below the next.
abbrev pub Descending : ℕ → List Work → Type 0
Descending n [] = Unit
Descending n (w ∷ ws) = (w.context < n) × Descending w.context ws

pub record Inv (s : Loop) : Type 0 where
  pub owned : All (Holds s.running) s.cancels
  pub distinct : Descending s.next_context s.running

pub Descending-mono : {m n : ℕ} (ws : List Work) → m ≤ n → Descending m ws → Descending n ws
Descending-mono [] h d = tt
Descending-mono (w ∷ ws) h d = (omega arith, d.1)

Descending-take_out :
    (n : ℕ) (before after : List Work) (w : Work)
    → Descending n (before ++ w ∷ after)
    → Descending n (before ++ after)
Descending-take_out n [] after w d = Descending-mono {m = w.context} {n = n} after (omega arith) d.1
Descending-take_out n (b ∷ before) after w d =
    (d.0, Descending-take_out b.context before after w d.1)

Holds-take_out :
    (before after : List Work) (w : Work) (id : Uuid) (c : ℕ)
    → w.work_id ≢ id
    → Holds (before ++ w ∷ after) (id, c)
    → Holds (before ++ after) (id, c)
Holds-take_out [] after w id c h (inl e) = absurd (h e.0)
Holds-take_out [] after w id c h (inr t) = t
Holds-take_out (b ∷ before) after w id c h (inl e) = inl e
Holds-take_out (b ∷ before) after w id c h (inr t) = inr (Holds-take_out before after w id c h t)

-- What is left of `cancels` has another id.
All-delete_cancel {ℓ κ} :
    (P : Uuid × ℕ → Type ℓ) (Q : Uuid × ℕ → Type κ) (id : Uuid) (m : List (Uuid × ℕ))
    → ((k : Uuid) (c : ℕ) → id ≢ k → P (k, c) → Q (k, c))
    → All P m
    → All Q (delete_cancel id m)
unfolding delete_cancel
All-delete_cancel P Q id [] f a = tt
All-delete_cancel P Q id ((k, c) ∷ m) f a = elim (Bool-cases (equal k id)) [
  | inl e ↦ rw e (All-delete_cancel P Q id m f a.1)
  | inr e ↦
      rw e (
        f k c (λ q. let p = (equal_iff k id).1 (sym q) in cc) a.0,
        All-delete_cancel P Q id m f a.1,
      )
]

pub lookup_cancel-All {ℓ} :
    (P : Uuid × ℕ → Type ℓ) (id : Uuid) (m : List (Uuid × ℕ)) (c : ℕ)
    → All P m
    → lookup_cancel id m ≡ some c
    → P (id, c)
unfolding lookup_cancel
lookup_cancel-All P id [] c a h = cc
lookup_cancel-All P id ((k, d) ∷ m) c a h = elim (Bool-cases (equal k id)) [
  | inl e ↦
      let q : k ≡ id = (equal_iff k id).0 e in let r : d ≡ c = ground arith in rw (← q, ← r) a.0
  | inr e ↦ lookup_cancel-All P id m c a.1 (rw e at h)
]

module _ {s : Loop} (v : Inv s) where
  start_work-Inv : (item : WorkItem) → Inv (start_work item (record s { phase = ready }))
  unfolding start_work
  start_work-Inv item =
      let held =
        Holds ((record { work_id = item.work_id; context = s.next_context }) ∷ s.running) in
      record {
        owned = (
          inl (refl, refl),
          All-delete_cancel (Holds s.running) held item.work_id s.cancels (λ k c h x. inr x)
              v.owned,
        );
        distinct = (omega arith, v.distinct);
      }

  cancel_entry-Inv : (id : Uuid) → Inv (cancel_entry id (record s { phase = ready }))
  unfolding cancel_entry
  cancel_entry-Inv id = record {
    owned =
        All-delete_cancel (Holds s.running) (Holds s.running) id s.cancels (λ k c h x. x) v.owned;
    distinct = v.distinct;
  }

  dispatch-Inv :
      (interrupted : Bool) (answer : Result (Option WorkItem)) → Inv (dispatch interrupted answer s)
  unfolding dispatch
  dispatch-Inv interrupted (ok none) = record { owned = v.owned; distinct = v.distinct }
  dispatch-Inv interrupted (ok (some item)) = elim (Bool-cases (equal item.op op_cancel)) [
    | inl e ↦ rw e (cancel_entry-Inv item.work_id)
    | inr e ↦ rw e (start_work-Inv item)
  ]
  dispatch-Inv true (err e) = record { owned = v.owned; distinct = v.distinct }
  dispatch-Inv false (err e) = elim (Bool-cases s.shutdown) [
    | inl h ↦ rw h (record { owned = v.owned; distinct = v.distinct })
    | inr h ↦ elim (Bool-cases (is_unauthorized_error e)) [
      | inl u ↦ rw (h, u) (record { owned = v.owned; distinct = v.distinct })
      | inr u ↦ rw (h, u) (record { owned = v.owned; distinct = v.distinct })
    ]
  ]

  finish_work-Inv :
      (w : Work) (before after : List Work)
      → s.running ≡ before ++ w ∷ after
      → Inv (finish_work w (before ++ after) s)
  unfolding finish_work
  finish_work-Inv w before after e = record {
    owned =
        All-delete_cancel (Holds s.running) (Holds (before ++ after)) w.work_id s.cancels
          (λ k c h x. Holds-take_out before after w k c h (rw e at x)) v.owned;
    distinct = Descending-take_out s.next_context before after w (rw e at v.distinct);
  }

Step-Inv : {server : Server} (s t : Loop) → Step server s t → Inv s → Inv t
unfolding begin_poll resume release_slot
Step-Inv s t (polls _ p) v = elim (Bool-cases s.shutdown) [
  | inl e ↦ rw e (record { owned = v.owned; distinct = v.distinct })
  | inr e ↦ rw e (record { owned = v.owned; distinct = v.distinct })
]
Step-Inv s t (answers _ r i a p h) v = dispatch-Inv v i a
Step-Inv s t (resumes _ true p h) v = record { owned = v.owned; distinct = v.distinct }
Step-Inv s t (resumes _ false p h) v = record { owned = v.owned; distinct = v.distinct }
Step-Inv s t (finishes _ w before after e) v = finish_work-Inv v w before after e
Step-Inv s t (releases _ w before after e) v = record { owned = v.owned; distinct = v.distinct }
Step-Inv s t (shuts_down _) v = record { owned = v.owned; distinct = v.distinct }

new_loop-Inv : (m : ℤ) → Inv (new_loop m)
unfolding new_loop
new_loop-Inv m = record { owned = tt; distinct = tt }

pub Reach-Inv : {server : Server} {m : ℤ} {s : Loop} → Reach server m s → Inv s
Reach-Inv {m = m} r = Reach-invariant Inv (new_loop-Inv m) Step-Inv r
