-- ===== src/PollLoop.antt =====
-- main.go: `pollLoop`, the edge's main loop, with the works that it runs beside it.
-- The loop's thread and each work's goroutine meet under one mutex; a section that holds it, or an
-- atomic operation on `slots`, is one step below. Only `dispatch` takes three in one: the end of the
-- poll, the take of the slot and the registration of the cancel function. Contexts are numbered in the
-- order in which the loop makes them.
pub mod Reach
pub mod Slots
pub mod Parallel
pub mod Owned
pub mod Cancel
use plakar_edge.Base.{
  ℕ, suc, ◌+◌, Bool, true, false, not, ◌&&◌, ◌||◌, List, [], ◌∷◌, ◌++◌, Option, none, some, Bytes,
  text, equal, ◌==◌, if◌then◌else◌,
}
use plakar_edge.Base.Int.{ℤ, pos, negsuc, ◌+ℤ◌, ltb_ℤ}
use plakar_edge.Client.{Error, Result, ok, err, is_unauthorized_error}
use plakar_edge.Protocol.{WorkItem, Uuid}

-- Where the loop's thread is. `polling` has a poll in flight, which reported so many free slots, and
-- may have been interrupted: `interruptPoll` is set exactly then.
pub data Phase : Type 0 where
  ready : Phase
  polling : (reported : ℤ) (interrupted : Bool) → Phase
  backing_off : Phase
  returned : Phase
  -- `fatal`: the process has exited.
  exited : Phase

-- A work's goroutine: its item's id, and its context.
pub record Work : Type 0 where
  pub work_id : Uuid
  pub context : ℕ

pub record Loop : Type 0 where
  pub phase : Phase
  pub slots : ℤ
  -- `cancels`: the context that a work id's cancel function ends.
  pub cancels : List (Uuid × ℕ)
  -- Goroutines inside `runWork`, and those past it that have not given their slot back.
  pub running : List Work
  pub finishing : List Work
  -- Contexts that were canceled.
  pub canceled : List ℕ
  pub next_context : ℕ
  -- Whether the daemon's own context has ended.
  pub shutdown : Bool

-- `max(cfg.MaxParallel, 1)`
unfoldable pub capacity : ℤ → ℤ
capacity max_parallel = if ltb_ℤ max_parallel (pos 1) then pos 1 else max_parallel

unfoldable pub new_loop : ℤ → Loop
unfolding capacity
new_loop max_parallel = record {
  phase = ready;
  slots = capacity max_parallel;
  cancels = [];
  running = [];
  finishing = [];
  canceled = [];
  next_context = 0;
  shutdown = false;
}

-- The head of the loop: return, or report the free slots and poll.
unfoldable pub begin_poll : Loop → Loop
begin_poll s =
    if s.shutdown then record s { phase = returned } else record s { phase = polling s.slots false }

-- `cancels[id]`, and `delete(cancels, id)`.
unfoldable pub lookup_cancel : Uuid → List (Uuid × ℕ) → Option ℕ
lookup_cancel id [] = none
lookup_cancel id ((k, c) ∷ m) = if equal k id then some c else lookup_cancel id m

unfoldable pub delete_cancel : Uuid → List (Uuid × ℕ) → List (Uuid × ℕ)
delete_cancel id [] = []
delete_cancel id ((k, c) ∷ m) =
    if equal k id then delete_cancel id m else (k, c) ∷ delete_cancel id m

-- Take an entry of `cancels` out, and call its cancel function if there is one.
unfoldable pub cancel_entry : Uuid → Loop → Loop
unfolding lookup_cancel delete_cancel
cancel_entry id s = record s {
  cancels = delete_cancel id s.cancels;
  canceled = elim (lookup_cancel id s.cancels) [ none ↦ s.canceled | some c ↦ c ∷ s.canceled ];
}

-- A new work: a slot less, a context of its own, and a goroutine.
unfoldable pub start_work : WorkItem → Loop → Loop
unfolding delete_cancel
start_work item s = record s {
  slots = s.slots +ℤ negsuc 0;
  cancels = (item.work_id, s.next_context) ∷ delete_cancel item.work_id s.cancels;
  running = (record { work_id = item.work_id; context = s.next_context }) ∷ s.running;
  next_context = suc s.next_context;
}

abbrev pub op_cancel : Bytes
op_cancel = text "cancel"

-- What the loop does with the answer of `clt.Poll`.
unfoldable pub dispatch : Bool → Result (Option WorkItem) → Loop → Loop
unfolding start_work cancel_entry
dispatch interrupted (err e) s =
    if interrupted
    then record s { phase = ready }
    else if s.shutdown
    then record s { phase = returned }
    else if is_unauthorized_error e
    then record s { phase = exited }
    else record s { phase = backing_off }
dispatch interrupted (ok none) s = record s { phase = ready }
dispatch interrupted (ok (some item)) s =
    if equal item.op op_cancel
    then cancel_entry item.work_id (record s { phase = ready })
    else start_work item (record s { phase = ready })

-- After the backoff, or the end of the daemon's context, whichever comes first.
unfoldable pub resume : Bool → Loop → Loop
resume ended s = if ended then record s { phase = returned } else record s { phase = ready }

-- The goroutine after `runWork`: it takes its own entry out of `cancels`.
unfoldable pub finish_work : Work → List Work → Loop → Loop
unfolding cancel_entry
finish_work w rest s =
    cancel_entry w.work_id (record s { running = rest; finishing = w ∷ s.finishing })

-- `interruptPoll(pollInterrupted)`. A context that ended before keeps its own cause.
abbrev pub interrupt : Bool → Phase → Phase
interrupt ended (polling reported interrupted) = polling reported (interrupted || not ended)
interrupt ended ready = ready
interrupt ended backing_off = backing_off
interrupt ended returned = returned
interrupt ended exited = exited

abbrev pub is_one : ℤ → Bool
is_one (pos n) = n == 1
is_one (negsuc n) = false

-- ... and gives its slot back, interrupting a poll that reported none.
unfoldable pub release_slot : List Work → Loop → Loop
release_slot rest s =
    let slots : ℤ = s.slots +ℤ pos 1 in
    record s {
      slots = slots;
      finishing = rest;
      phase = if is_one slots then interrupt s.shutdown s.phase else s.phase;
    }
