-- ===== src/Tests/Loop.antt =====
-- A loop with one slot that has started a work, polls again, and is told to cancel it.
use plakar_edge.Base.{◌≡◌, refl, false, [], ◌∷◌, Option, none, some, text, equal, ◌⊎◌}
use plakar_edge.Base.Int.{ℤ, pos, ◌+ℤ◌, ◌≤ℤ◌, int_laws}
use plakar_edge.Client.{Result, ok}
use plakar_edge.PollLoop.Cancel.{EndsOnly, cancel-EndsOnly, finish_work-EndsOnly}
use plakar_edge.PollLoop.Parallel.{IsHonest, works-le-capacity}
use plakar_edge.PollLoop.Reach.{polls, answers, Reach, here, next}
use plakar_edge.PollLoop.Slots.{works, slots-balanced, polling-awake}
use plakar_edge.PollLoop.{
  Loop, Work, new_loop, begin_poll, dispatch, finish_work, lookup_cancel, op_cancel, capacity,
}
use plakar_edge.Protocol.{WorkItem}

abbrev a_work : WorkItem
a_work = record {
  work_id = 7 ∷ [];
  op = text "backup";
  task_config = [];
  source = none;
  target = none;
}

abbrev a_cancel : WorkItem
a_cancel = record a_work { op = op_cancel }

-- A control plane with one work to do, and its cancel.
data Plane : ℤ → Result (Option WorkItem) → Type 0 where
  to_do : Plane (pos 1) (ok (some a_work))
  to_cancel : (reported : ℤ) → Plane reported (ok (some a_cancel))

Plane-IsHonest : IsHonest Plane
unfolding equal
Plane-IsHonest = λ reported item answer new. honest answer new
  where
    honest :
        {reported : ℤ} {item : WorkItem}
        → Plane reported (ok (some item))
        → equal item.op op_cancel ≡ false
        → pos 1 ≤ℤ reported
    honest to_do new = omega int_laws
    honest (to_cancel r) new = cc

-- The loop with one slot, after one work was started and while it polls again.
abbrev started : Loop
unfolding new_loop begin_poll dispatch
started = begin_poll (dispatch false (ok (some a_work)) (begin_poll (new_loop (pos 1))))

started-Reach : Reach Plane (pos 1) started
unfolding started new_loop begin_poll dispatch equal capacity
started-Reach =
    next
      (next (next here (polls (new_loop (pos 1)) refl))
        (answers (begin_poll (new_loop (pos 1))) (pos 1) false (ok (some a_work)) refl to_do))
      (polls (dispatch false (ok (some a_work)) (begin_poll (new_loop (pos 1)))) refl)

slots-balanced_example : started.slots +ℤ pos (works started) ≡ capacity (pos 1)
unfolding started
slots-balanced_example = slots-balanced {server = Plane} {m = pos 1} {s = started} started-Reach

polling-awake_example : started.slots ≤ℤ pos 0
unfolding started new_loop begin_poll dispatch equal capacity ◌+ℤ◌
polling-awake_example =
    polling-awake {server = Plane} {m = pos 1} {s = started} started-Reach (pos 0) refl refl
      (omega int_laws)

works-le-capacity_example : pos (works started) ≤ℤ capacity (pos 1)
unfolding started
works-le-capacity_example =
    works-le-capacity Plane Plane-IsHonest (pos 1) {s = started} started-Reach

cancel-EndsOnly_example :
    let t = dispatch false (ok (some a_cancel)) started in
    EndsOnly (7 ∷ []) started t
    × (lookup_cancel (7 ∷ []) t.cancels ≡ none)
    × (t.running ≡ started.running)
    × (t.slots ≡ started.slots)
unfolding started
cancel-EndsOnly_example =
    cancel-EndsOnly {server = Plane} {m = pos 1} {s = started} started-Reach false a_cancel refl

abbrev the_work : Work
the_work = record { work_id = 7 ∷ []; context = 0 }

finish_work-EndsOnly_example :
    let t = finish_work the_work [] started in
    (t.canceled ≡ started.canceled) ⊎ (t.canceled ≡ 0 ∷ started.canceled)
unfolding started new_loop begin_poll dispatch equal capacity
finish_work-EndsOnly_example =
    finish_work-EndsOnly {server = Plane} {m = pos 1} {s = started} started-Reach the_work [] []
      refl tt
