-- ===== src/PollLoop/Cancel.antt =====
-- Which contexts `pollLoop` ends: at a cancel item, and when a work is over.
use plakar_edge.Base.{
  ℕ, ◌<◌, ◌≡◌, ◌≢◌, refl, sym, ap, ◌⊎◌, inl, inr, Bool, List, [], ◌∷◌, ◌++◌, none, some, arith, All,
  Bool-cases, Option-cases, equal, equal_iff,
}
use plakar_edge.Base.Int.{ℤ}
use plakar_edge.Client.{ok}
use plakar_edge.PollLoop.{
  ready, Loop, Work, lookup_cancel, delete_cancel, op_cancel, dispatch, cancel_entry, finish_work,
}
use plakar_edge.PollLoop.Reach.{Server, Reach}
use plakar_edge.Protocol.{WorkItem, Uuid}
use plakar_edge.PollLoop.Owned.{
  Holds, Descending, Inv, Descending-mono, lookup_cancel-All, Reach-Inv,
}

-- The work `w` of the list, with this id, and no other work shares its context.
pub record Picks (ws : List Work) (id : Uuid) (c : ℕ) : Type 0 where
  pub before : List Work
  pub work : Work
  pub after : List Work
  pub at_work : ws ≡ before ++ work ∷ after
  pub its_id : work.work_id ≡ id
  pub its_context : work.context ≡ c
  pub others : All (λ w. w.context ≢ c) (before ++ after)

Descending-All : (n : ℕ) (ws : List Work) → Descending n ws → All (λ w. w.context < n) ws
Descending-All n [] d = tt
Descending-All n (w ∷ ws) d =
    (d.0, Descending-All n ws (Descending-mono {m = w.context} {n = n} ws (omega arith) d.1))

Holds-lt : (n : ℕ) (ws : List Work) (id : Uuid) (c : ℕ) → Descending n ws → Holds ws (id, c) → c < n
Holds-lt n [] id c d h = absurd h
Holds-lt n (w ∷ ws) id c d (inl e) = omega (arith, e.1, d.0)
Holds-lt n (w ∷ ws) id c d (inr t) = omega (arith, Holds-lt w.context ws id c d.1 t, d.0)

All-impl : (c : ℕ) (ws : List Work) → All (λ w. w.context < c) ws → All (λ w. w.context ≢ c) ws
All-impl c [] a = tt
All-impl c (w ∷ ws) a = (omega arith, All-impl c ws a.1)

Holds-Picks :
    (n : ℕ) (ws : List Work) (id : Uuid) (c : ℕ)
    → Descending n ws
    → Holds ws (id, c)
    → Picks ws id c
Holds-Picks n [] id c d h = absurd h
Holds-Picks n (w ∷ ws) id c d (inl e) = record {
  before = [];
  work = w;
  after = ws;
  at_work = refl;
  its_id = e.0;
  its_context = e.1;
  others = rw (← e.1) (All-impl w.context ws (Descending-All w.context ws d.1));
}
Holds-Picks n (w ∷ ws) id c d (inr t) =
    let p = Holds-Picks w.context ws id c d.1 t in
    let l = Holds-lt w.context ws id c d.1 t in
    record {
      before = w ∷ p.before;
      work = p.work;
      after = p.after;
      at_work = ap (◌∷◌ w) p.at_work;
      its_id = p.its_id;
      its_context = p.its_context;
      others = (omega arith, p.others);
    }

-- What taking the entry of `id` out does to the canceled contexts.
abbrev pub EndsOnly : Uuid → Loop → Loop → Type 0
EndsOnly id s t =
    ((lookup_cancel id s.cancels ≡ none) × (t.canceled ≡ s.canceled))
    ⊎ ((c : ℕ) × (lookup_cancel id s.cancels ≡ some c)
        × (t.canceled ≡ c ∷ s.canceled)
        × Picks s.running id c)

cancel_entry-EndsOnly : (id : Uuid) (s : Loop) → Inv s → EndsOnly id s (cancel_entry id s)
unfolding cancel_entry
cancel_entry-EndsOnly id s v = elim (Option-cases (lookup_cancel id s.cancels)) [
  | inl e ↦ inl (e, rw (e, cancel_entry))
  | inr (c, e) ↦ inr (
    c,
    e,
    rw (e, cancel_entry),
    Holds-Picks s.next_context s.running id c v.distinct
        (lookup_cancel-All (Holds s.running) id s.cancels c v.owned e),
  )
]

lookup-delete_cancel :
    (id : Uuid) (m : List (Uuid × ℕ)) → lookup_cancel id (delete_cancel id m) ≡ none
unfolding lookup_cancel delete_cancel
lookup-delete_cancel id [] = refl
lookup-delete_cancel id ((k, c) ∷ m) = elim (Bool-cases (equal k id)) [
  | inl e ↦ rw e (lookup-delete_cancel id m)
  | inr e ↦ rw (e, e) (lookup-delete_cancel id m)
]

-- A cancel item ends the context that is registered under its id, and no other; if none is registered
-- it ends none. The context is that of exactly one work, which is running, has the item's id and shares
-- its context with no other running work. The id is registered no more, no work is started and no slot
-- is taken.
pub cancel-EndsOnly :
    {server : Server} {m : ℤ} {s : Loop}
    → Reach server m s
    → (interrupted : Bool) (item : WorkItem) → item.op ≡ op_cancel
    → let t = dispatch interrupted (ok (some item)) s in
      EndsOnly item.work_id s t
      × (lookup_cancel item.work_id t.cancels ≡ none)
      × (t.running ≡ s.running)
      × (t.slots ≡ s.slots)
unfolding dispatch
cancel-EndsOnly {s = s} r interrupted item e =
    let v = Reach-Inv r in
    let at_rest : Inv (record s { phase = ready }) = record {
      owned = v.owned;
      distinct = v.distinct;
    } in
    rw ((equal_iff item.op op_cancel).1 e) (
      cancel_entry-EndsOnly item.work_id (record s { phase = ready }) at_rest,
      unfold cancel_entry in lookup-delete_cancel item.work_id s.cancels,
      unfold cancel_entry in refl,
      unfold cancel_entry in refl,
    )

not-Holds : (ws : List Work) (id : Uuid) (c : ℕ) → All (λ o. o.work_id ≢ id) ws → ¬ Holds ws (id, c)
not-Holds [] id c a h = h
not-Holds (w ∷ ws) id c a (inl e) = a.0 e.0
not-Holds (w ∷ ws) id c a (inr t) = not-Holds ws id c a.1 t

Holds-alone :
    (before after : List Work) (w : Work) (c : ℕ)
    → All (λ o. o.work_id ≢ w.work_id) (before ++ after)
    → Holds (before ++ w ∷ after) (w.work_id, c)
    → c ≡ w.context
Holds-alone [] after w c a (inl e) = sym e.1
Holds-alone [] after w c a (inr t) = absurd (not-Holds after w.work_id c a t)
Holds-alone (b ∷ before) after w c a (inl e) = absurd (a.0 e.0)
Holds-alone (b ∷ before) after w c a (inr t) = Holds-alone before after w c a.1 t

-- A work that ends takes no other work's context with it, as long as no other running work has its id.
pub finish_work-EndsOnly :
    {server : Server} {m : ℤ} {s : Loop}
    → Reach server m s
    → (w : Work) (before after : List Work) → s.running ≡ before ++ w ∷ after
    → All (λ o. o.work_id ≢ w.work_id) (before ++ after)
    → let t = finish_work w (before ++ after) s in
      (t.canceled ≡ s.canceled) ⊎ (t.canceled ≡ w.context ∷ s.canceled)
unfolding finish_work
finish_work-EndsOnly {s = s} r w before after e alone =
    let v = Reach-Inv r in
    elim (Option-cases (lookup_cancel w.work_id s.cancels)) [
      | inl h ↦ inl (unfold cancel_entry in rw (h, cancel_entry))
      | inr (c, h) ↦
          let held : Holds (before ++ w ∷ after) (w.work_id, c) =
            rw e at (lookup_cancel-All (Holds s.running) w.work_id s.cancels c v.owned h) in
          inr (rw (finish_work, cancel_entry, h, Holds-alone before after w c alone held))
    ]
