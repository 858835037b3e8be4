-- ===== src/PollLoop/Parallel.antt =====
-- The bound on the works that run at once.
use plakar_edge.Base.{◌≡◌, ap, Bool, false, Option, none, some, arith, inl, inr, Bool-cases, equal}
use plakar_edge.Base.Int.{ℤ, pos, pos_part, neg_part, ◌≤ℤ◌, int_laws}
use plakar_edge.Client.{Result, ok, err}
use plakar_edge.PollLoop.{
  polling, Loop, capacity, new_loop, begin_poll, op_cancel, dispatch, resume, finish_work,
  release_slot,
}
use plakar_edge.PollLoop.Reach.{
  Server, Step, polls, answers, resumes, finishes, releases, shuts_down, Reach, Reach-invariant,
}
use plakar_edge.PollLoop.Slots.{Inv, works, IsAwake, Step-Inv, new_loop-Inv}
use plakar_edge.Protocol.{WorkItem}

-- A server that sends a new work only to a poll that reports a free slot.
abbrev pub IsHonest : Server → Type 0
IsHonest server =
    (reported : ℤ) (item : WorkItem)
    → server reported (ok (some item))
    → equal item.op op_cancel ≡ false
    → pos 1 ≤ℤ reported

abbrev NonNeg : Loop → Type 0
NonNeg s = pos 0 ≤ℤ s.slots

module _ (server : Server) (honest : IsHonest server) (m : ℤ) where
  dispatch-NonNeg :
      (s : Loop) (reported : ℤ) (interrupted : Bool) (answer : Result (Option WorkItem))
      → server reported answer
      → reported ≤ℤ s.slots
      → NonNeg s
      → NonNeg (dispatch interrupted answer s)
  unfolding dispatch
  dispatch-NonNeg s reported interrupted (err e) h l v = ground arith
  dispatch-NonNeg s reported interrupted (ok none) h l v = v
  dispatch-NonNeg s reported interrupted (ok (some item)) h l v =
      elim (Bool-cases (equal item.op op_cancel)) [
        | inl e ↦ rw e v
        | inr e ↦ let p = honest reported item h e in rw e (omega int_laws)
      ]

  reported_le :
      (s : Loop) (reported : ℤ) (interrupted : Bool)
      → s.phase ≡ polling reported interrupted
      → IsAwake s.phase s.shutdown s.slots
      → reported ≤ℤ s.slots
  reported_le s reported interrupted e a = (rw e at a).0

  Step-NonNeg : (s t : Loop) → Step server s t → Inv m s → NonNeg s → NonNeg t
  unfolding begin_poll resume finish_work release_slot
  Step-NonNeg s t (polls _ p) v n = ground arith
  Step-NonNeg s t (answers _ r i a p h) v n =
      dispatch-NonNeg s r i a h (reported_le s r i p v.awake) n
  Step-NonNeg s t (resumes _ e p h) v n = ground arith
  Step-NonNeg s t (finishes _ w before after e) v n = n
  Step-NonNeg s t (releases _ w before after e) v n = omega int_laws
  Step-NonNeg s t (shuts_down _) v n = n

  capacity_pos : pos 1 ≤ℤ capacity m
  unfolding capacity
  capacity_pos = ground arith

  -- With a control plane that sends a new work only to a poll that reports a free slot, the edge never
  -- runs more works at once than its capacity, which is at least one.
  pub works-le-capacity : {s : Loop} → Reach server m s → pos (works s) ≤ℤ capacity m
  works-le-capacity {s} r =
      let kept =
        Reach-invariant (λ t. Inv m t × NonNeg t)
          (new_loop-Inv m, unfold new_loop in omega (arith, capacity_pos))
          (λ t u st v. (Step-Inv m t u st v.0, Step-NonNeg t u st v.0 v.1)) r in
      let e = kept.0.balanced in let n = kept.1 in omega (int_laws, ap pos_part e, ap neg_part e)
