-- ===== src/PollLoop/Slots.antt =====
-- The slots of `pollLoop`: what holds one, and what a poll in flight reported.
use plakar_edge.Base.{
  ℕ, suc, ◌+◌, ◌≡◌, refl, ap, Bool, true, false, List, ◌∷◌, ◌++◌, Option, none, some, arith, inl,
  inr, length, length-append, if◌then◌else◌, Bool-cases, equal,
}
use plakar_edge.Base.Int.{ℤ, pos, negsuc, pos_part, neg_part, ◌+ℤ◌, ◌≤ℤ◌, int_laws}
use plakar_edge.Client.{Error, Result, ok, err, is_unauthorized_error}
use plakar_edge.PollLoop.{
  Phase, ready, polling, backing_off, returned, exited, Loop, Work, capacity, new_loop, begin_poll,
  op_cancel, interrupt, is_one, start_work, dispatch, resume, finish_work, release_slot,
}
use plakar_edge.PollLoop.Reach.{
  Server, Step, polls, answers, resumes, finishes, releases, shuts_down, Reach, Reach-invariant,
}
use plakar_edge.Protocol.{WorkItem}

-- The works that hold a slot.
abbrev pub works : Loop → ℕ
works s = length s.running + length s.finishing

-- A poll in flight that was not interrupted reported what is free, if it reported none, unless the
-- daemon is shutting down; and it never reported more than is free.
abbrev pub IsAwake : Phase → Bool → ℤ → Type 0
IsAwake (polling reported interrupted) shutdown slots =
    (reported ≤ℤ slots)
    × (interrupted ≡ false → shutdown ≡ false → reported ≤ℤ pos 0 → slots ≤ℤ pos 0)
IsAwake ready shutdown slots = Unit
IsAwake backing_off shutdown slots = Unit
IsAwake returned shutdown slots = Unit
IsAwake exited shutdown slots = Unit

pub record Inv (max_parallel : ℤ) (s : Loop) : Type 0 where
  pub balanced : s.slots +ℤ pos (works s) ≡ capacity max_parallel
  pub awake : IsAwake s.phase s.shutdown s.slots

take-balanced :
    (slots : ℤ) (n : ℕ) (cap : ℤ) → slots +ℤ pos n ≡ cap → slots +ℤ negsuc 0 +ℤ pos (suc n) ≡ cap
take-balanced slots n cap e = omega (int_laws, ap pos_part e, ap neg_part e)

give-balanced :
    (slots : ℤ) (n : ℕ) (cap : ℤ) → slots +ℤ pos (suc n) ≡ cap → slots +ℤ pos 1 +ℤ pos n ≡ cap
give-balanced slots n cap e = omega (int_laws, ap pos_part e, ap neg_part e)

-- Taking one element out of a list.
length-take_out {ℓ} :
    {A : Type ℓ} {xs : List A} (before after : List A) (w : A)
    → xs ≡ before ++ w ∷ after
    → length xs ≡ suc (length (before ++ after))
length-take_out before after w e =
    omega (arith, ap length e, length-append before (w ∷ after), length-append before after)

not_one : (x : ℤ) → is_one x ≡ false → x ≤ℤ pos 1 → x ≤ℤ pos 0
not_one (pos n) e h = ground arith
not_one (negsuc n) e h = omega arith

-- Only the step from none free to one can leave a poll with an outdated report, and it interrupts.
polling-IsAwake :
    (reported slots : ℤ) (interrupted shutdown one : Bool)
    → is_one (slots +ℤ pos 1) ≡ one
    → IsAwake (polling reported interrupted) shutdown slots
    → IsAwake
        (if one
          then interrupt shutdown (polling reported interrupted)
          else polling reported interrupted)
        shutdown
        (slots +ℤ pos 1)
polling-IsAwake reported slots interrupted shutdown true o (l, a) =
    (omega int_laws, λ i h r. ground arith)
polling-IsAwake reported slots interrupted shutdown false o (l, a) =
    (omega int_laws, λ i h r. let z = a i h r in not_one (slots +ℤ pos 1) o (omega int_laws))

release-IsAwake :
    (p : Phase) (shutdown : Bool) (slots : ℤ)
    → IsAwake p shutdown slots
    → IsAwake
        (if is_one (slots +ℤ pos 1) then interrupt shutdown p else p)
        shutdown
        (slots +ℤ pos 1)
release-IsAwake (polling reported interrupted) shutdown slots a =
    polling-IsAwake reported slots interrupted shutdown _ refl a
release-IsAwake ready shutdown slots a = ground arith
release-IsAwake backing_off shutdown slots a = ground arith
release-IsAwake returned shutdown slots a = ground arith
release-IsAwake exited shutdown slots a = ground arith

shutdown-IsAwake :
    (p : Phase) (shutdown : Bool) (slots : ℤ) → IsAwake p shutdown slots → IsAwake p true slots
shutdown-IsAwake (polling reported interrupted) shutdown slots a = (a.0, λ i h. cc)
shutdown-IsAwake ready shutdown slots a = tt
shutdown-IsAwake backing_off shutdown slots a = tt
shutdown-IsAwake returned shutdown slots a = tt
shutdown-IsAwake exited shutdown slots a = tt

module _ {m : ℤ} {s : Loop} (v : Inv m s) where
  begin_poll-Inv : Inv m (begin_poll s)
  unfolding begin_poll
  begin_poll-Inv = elim (Bool-cases s.shutdown) [
    | inl e ↦ rw e (record { balanced = v.balanced; awake = tt })
    | inr e ↦ rw e (record { balanced = v.balanced; awake = (omega arith, λ _ _ h. h) })
  ]

  ready-Inv : Inv m (record s { phase = ready })
  ready-Inv = record { balanced = v.balanced; awake = tt }

  start_work-Inv : (item : WorkItem) → Inv m (start_work item (record s { phase = ready }))
  unfolding start_work
  start_work-Inv item = record {
    balanced =
        let e : suc (length s.running) + length s.finishing ≡ suc (works s) = omega arith in
        rw e (take-balanced s.slots (works s) (capacity m) v.balanced);
    awake = tt;
  }

  failed-Inv : (interrupted : Bool) (e : Error) → Inv m (dispatch interrupted (err e) s)
  unfolding dispatch
  failed-Inv true e = ready-Inv
  failed-Inv false e = elim (Bool-cases s.shutdown) [
    | inl h ↦ rw h (record { balanced = v.balanced; awake = tt })
    | inr h ↦ elim (Bool-cases (is_unauthorized_error e)) [
      | inl u ↦ rw (h, u) (record { balanced = v.balanced; awake = tt })
      | inr u ↦ rw (h, u) (record { balanced = v.balanced; awake = tt })
    ]
  ]

  dispatch-Inv :
      (interrupted : Bool) (answer : Result (Option WorkItem))
      → Inv m (dispatch interrupted answer s)
  unfolding dispatch
  dispatch-Inv interrupted (err e) = failed-Inv interrupted e
  dispatch-Inv interrupted (ok none) = ready-Inv
  dispatch-Inv interrupted (ok (some item)) = elim (Bool-cases (equal item.op op_cancel)) [
    | inl e ↦ rw e (record { balanced = v.balanced; awake = tt })
    | inr e ↦ rw e (start_work-Inv item)
  ]

  resume-Inv : (ended : Bool) → Inv m (resume ended s)
  unfolding resume
  resume-Inv true = record { balanced = v.balanced; awake = tt }
  resume-Inv false = ready-Inv

  finish_work-Inv :
      (w : Work) (before after : List Work)
      → s.running ≡ before ++ w ∷ after
      → Inv m (finish_work w (before ++ after) s)
  unfolding finish_work
  finish_work-Inv w before after e = record {
    balanced =
        let l : length (before ++ after) + suc (length s.finishing) ≡ works s =
          omega (arith, length-take_out before after w e) in
        rw l v.balanced;
    awake = v.awake;
  }

  release_slot-Inv :
      (w : Work) (before after : List Work)
      → s.finishing ≡ before ++ w ∷ after
      → Inv m (release_slot (before ++ after) s)
  unfolding release_slot
  release_slot-Inv w before after e = record {
    balanced =
        let l : works s ≡ suc (length s.running + length (before ++ after)) =
          omega (arith, length-take_out before after w e) in
        give-balanced s.slots _ (capacity m) (rw (← l) v.balanced);
    awake = release-IsAwake s.phase s.shutdown s.slots v.awake;
  }

  shuts_down-Inv : Inv m (record s { shutdown = true })
  shuts_down-Inv = record {
    balanced = v.balanced;
    awake = shutdown-IsAwake s.phase s.shutdown s.slots v.awake;
  }

pub new_loop-Inv : (m : ℤ) → Inv m (new_loop m)
unfolding new_loop
new_loop-Inv m = record { balanced = omega int_laws; awake = tt }

pub Step-Inv : {server : Server} (m : ℤ) (s t : Loop) → Step server s t → Inv m s → Inv m t
Step-Inv m s t (polls _ p) v = begin_poll-Inv v
Step-Inv m s t (answers _ r i a p h) v = dispatch-Inv v i a
Step-Inv m s t (resumes _ e p h) v = resume-Inv v e
Step-Inv m s t (finishes _ w before after e) v = finish_work-Inv v w before after e
Step-Inv m s t (releases _ w before after e) v = release_slot-Inv v w before after e
Step-Inv m s t (shuts_down _) v = shuts_down-Inv v

Reach-Inv : {server : Server} {m : ℤ} {s : Loop} → Reach server m s → Inv m s
Reach-Inv {m = m} r = Reach-invariant (Inv m) (new_loop-Inv m) (Step-Inv m) r

-- In every reachable state, whatever the control plane answers, the free slots and the works that hold
-- one add up to the capacity: no slot is lost, and none is given back twice.
pub slots-balanced :
    {server : Server} {m : ℤ} {s : Loop} → Reach server m s → s.slots +ℤ pos (works s) ≡ capacity m
slots-balanced r = (Reach-Inv r).balanced

-- In every reachable state, a poll in flight that has not been interrupted, and that reported no free
-- slot, still finds none free, unless the daemon is shutting down: a slot never becomes free behind
-- the back of a poll that can only be answered with a cancel.
pub polling-awake :
    {server : Server} {m : ℤ} {s : Loop}
    → Reach server m s
    → (reported : ℤ) → s.phase ≡ polling reported false
    → s.shutdown ≡ false
    → reported ≤ℤ pos 0
    → s.slots ≤ℤ pos 0
polling-awake r reported p d h = let a = rw p at (Reach-Inv r).awake in a.1 refl d h
