-- ===== src/Startup/Retries.antt =====
-- The enrollment loop: which answers are retried, and which end it.
use plakar_edge.Base.{
  ℕ, ◌≤◌, ◌<◌, ◌⊎◌, inl, inr, arith, leb, Bool-cases, ◌≡◌, refl, ap, true, false, List, [], ◌∷◌,
  ◌++◌, Option, none, some, Bytes, if_cases, All,
}
use plakar_edge.Client.Fetch.Atomic.{
  IsInstalled, read-put, IsFresh, TakesBack, unchanged, clean-TakesBack,
}
use plakar_edge.Client.Fetch.{Files}
use plakar_edge.Client.{Error, Result, ok, err, http_status, Request, Exchange}
use plakar_edge.Config.{Config, state_path}
use plakar_edge.Protocol.{Uuid, EnrollResponse}
use plakar_edge.Startup.{
  State, Disk, probe_content, probed, check_state_writable, Booted, enrolled, stopped, fatal,
  enrolling, Round, save_state, state_of, persisted, after_send, enroll_loop, is_definitive,
}

-- A 4xx, for which the control plane is not asked again.
pub data IsRefusal (e : Error) : Type 0 where
  refusal : (status : ℕ) → http_status e ≡ some status → 400 ≤ status → status < 500 → IsRefusal e

-- A failure that may pass: there was no answer, or its status is not a 4xx.
pub data MayPass (e : Error) : Type 0 where
  unreachable : http_status e ≡ none → MayPass e
  other_status :
      (status : ℕ) → http_status e ≡ some status → (status < 400) ⊎ (500 ≤ status) → MayPass e

definitive-IsRefusal :
    (e : Error) (o : Option ℕ) → http_status e ≡ o → is_definitive o ≡ true → IsRefusal e
definitive-IsRefusal e none q t = absurd (cc)
definitive-IsRefusal e (some status) q t = refusal status q (ground arith) (ground arith)

transient-MayPass :
    (e : Error) (o : Option ℕ) → http_status e ≡ o → is_definitive o ≡ false → MayPass e
transient-MayPass e none q t = unreachable q
transient-MayPass e (some status) q t =
    other_status status q (elim (Bool-cases (leb 400 status)) [
      | inl l ↦ inr (ground arith)
      | inr l ↦ inl (ground arith)
    ])

module _ (encode : State → Bytes) (decode : Bytes → Result State) (uuid_string : Uuid → Bytes)
    (cfg : Config) (send : (Request → Exchange) → Result EnrollResponse) (d : Disk) where
  abbrev pub IsTransient : Result EnrollResponse → Type 0
  IsTransient (ok resp) = ⊥
  IsTransient (err e) = MayPass e

  -- A round after which the next one comes.
  pub record IsRetried (r : Round) : Type 0 where
    pub running : r.ended ≡ false
    pub transient : IsTransient (send r.http)
    pub waited : r.ended_waiting ≡ false

  -- How the identity `s` is saved: `gs` are the files that are left.
  pub data Saves (s : State) (fs : Files) : Booted × Files → Type 0 where
    saved :
        {gs : Files}
        → d.saved_dir ≡ none
        → d.saved ≡ none
        → IsInstalled (state_path cfg) (encode s) fs gs
        → Saves s fs (enrolled s, gs)
    no_directory : (e : Error) (msg : Bytes) → d.saved_dir ≡ some e → Saves s fs (fatal msg, fs)
    not_written :
        (e : Error) (msg : Bytes) {gs : Files}
        → d.saved_dir ≡ none
        → d.saved ≡ some e
        → IsInstalled (state_path cfg) d.part fs gs
        → Saves s fs (fatal msg, gs)

  persisted-Saves :
      (s : State) (fs : Files) (dir write : Option Error)
      → d.saved_dir ≡ dir
      → d.saved ≡ write
      → Saves s fs (
          persisted encode decode uuid_string cfg s
            (save_state encode decode uuid_string cfg d s fs))
  unfolding save_state
  persisted-Saves s fs (some e) write p q = rw p (no_directory e _ refl)
  persisted-Saves s fs none (some e) p q =
      rw (p, q) (not_written e _ refl refl (λ f. read-put (state_path cfg) d.part f fs))
  persisted-Saves s fs none none p q =
      rw (p, q) (saved refl refl (λ f. read-put (state_path cfg) (encode s) f fs))

  -- A round that ends the loop, by what it leaves.
  pub data Decides (r : Round) (fs : Files) : Booted × Files → Type 0 where
    ended : r.ended ≡ true → Decides r fs (stopped, fs)
    ended_waiting :
        r.ended ≡ false
        → IsTransient (send r.http)
        → r.ended_waiting ≡ true
        → Decides r fs (stopped, fs)
    rejected :
        (e : Error) (msg : Bytes)
        → r.ended ≡ false
        → send r.http ≡ err e
        → IsRefusal e
        → Decides r fs (fatal msg, fs)
    accepted :
        (resp : EnrollResponse) {out : Booted × Files}
        → r.ended ≡ false
        → send r.http ≡ ok resp
        → Saves (record { edge_id = uuid_string resp.edge_id; token = resp.token }) fs out
        → Decides r fs out

  pub data Ends (rounds : List Round) (fs : Files) : Booted × Files → Type 0 where
    in_vain : All IsRetried rounds → Ends rounds fs (enrolling, fs)
    decided :
        (before : List Round) (r : Round) (after : List Round) {out : Booted × Files}
        → rounds ≡ before ++ r ∷ after
        → All IsRetried before
        → Decides r fs out
        → Ends rounds fs out

  retried-Ends :
      (r : Round) (rounds : List Round) (fs : Files) {out : Booted × Files}
      → IsRetried r
      → Ends rounds fs out
      → Ends (r ∷ rounds) fs out
  retried-Ends r rounds fs h (in_vain hs) = in_vain (h, hs)
  retried-Ends r rounds fs h (decided before q after e hs x) =
      decided (r ∷ before) q after (ap (◌∷◌ r) e) (h, hs) x

  after_send-Ends :
      (r : Round) (rounds : List Round) (fs : Files) (retry : Booted × Files)
      (answer : Result EnrollResponse)
      → send r.http ≡ answer
      → r.ended ≡ false
      → Ends rounds fs retry
      → Ends
          (r ∷ rounds)
          fs
          (after_send encode decode uuid_string cfg d answer r.ended_waiting fs retry)
  after_send-Ends r rounds fs retry (ok resp) e running rest =
      let s = state_of encode decode uuid_string cfg resp in
      let saves = persisted-Saves s fs d.saved_dir d.saved refl refl in
      decided [] r rounds refl tt (accepted resp running e saves)
  after_send-Ends r rounds fs retry (err x) e running rest =
      if_cases (Ends (r ∷ rounds) fs) (is_definitive (http_status x))
        (λ t.
          decided [] r rounds refl tt (rejected x _ running e (definitive-IsRefusal x _ refl t)))
        (λ t.
          let passes : IsTransient (send r.http) = rw e (transient-MayPass x _ refl t) in
          if_cases (Ends (r ∷ rounds) fs) r.ended_waiting
            (λ w. decided [] r rounds refl tt (ended_waiting running passes w))
            (λ w.
              retried-Ends r rounds fs
                (record { running = running; transient = passes; waited = w }) rest))

  -- Enrollment goes through failures that may pass (no answer, or a status that is not a 4xx), round
  -- after round, and leaves the disk alone. The first other round decides: the context has ended, and
  -- the start is over; the control plane refuses with a 4xx, and that is fatal; or it accepts, and then
  -- the state file holds the identity that it gave, every other file is as before, and the edge is
  -- enrolled, unless a call of `saveState` fails, which is fatal.
  pub enroll_loop-Ends :
      (rounds : List Round) (fs : Files)
      → Ends rounds fs (enroll_loop encode decode uuid_string cfg send d rounds fs)
  unfolding enroll_loop
  enroll_loop-Ends [] fs = in_vain tt
  enroll_loop-Ends (r ∷ rounds) fs =
      if_cases (Ends (r ∷ rounds) fs) r.ended (λ t. decided [] r rounds refl tt (ended t))
        (λ t. after_send-Ends r rounds fs _ (send r.http) refl t (enroll_loop-Ends rounds fs))

probed-TakesBack :
    (d : Disk) (t : Result Bytes) (fs : Files)
    → d.probe ≡ t
    → IsFresh fs t
    → TakesBack d.probe d.probe_removed fs (probed d t fs).1
probed-TakesBack d (err e) fs q h = unchanged (λ f. refl)
probed-TakesBack d (ok path) fs q h =
    clean-TakesBack d.probe d.probe_removed d.probe_removed path (probe_content d) fs q refl h

-- The test of the state directory leaves every file as it was, whichever of its calls fails, when the
-- probe has the name of no file; only if the removal of the probe itself fails, the probe stays, and
-- every other file is as it was.
pub check_state_writable-TakesBack :
    (d : Disk) (fs : Files)
    → IsFresh fs d.probe
    → TakesBack d.probe d.probe_removed fs (check_state_writable d fs).1
unfolding check_state_writable
check_state_writable-TakesBack d fs fresh = made d.made refl
  where
    made :
        (o : Option Error)
        → d.made ≡ o
        → TakesBack d.probe d.probe_removed fs (check_state_writable d fs).1
    made (some e) h = rw h (unchanged (λ f. refl))
    made none h = rw h (probed-TakesBack d d.probe fs refl fresh)
