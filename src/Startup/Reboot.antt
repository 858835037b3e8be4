-- ===== src/Startup/Reboot.antt =====
-- Two starts of an edge, one after the other: what the second finds of the first.
use plakar_edge.Base.{
  ◌≡◌, refl, ap, ◌∙◌, ◌⊎◌, inl, inr, Bool, true, false, List, [], ◌∷◌, Option, none, some, Bytes,
  is_empty, Bool-cases, if_rule, equal_refl,
}
use plakar_edge.Client.Fetch.Atomic.{read-put}
use plakar_edge.Client.Fetch.{Files, read, put}
use plakar_edge.Client.{Error, Result, ok, err, http_status, Request, Exchange, Decoded}
use plakar_edge.Config.{Config, state_path}
use plakar_edge.LogStream.Utf8.{Utf8}
use plakar_edge.Protocol.{Uuid, EnrollResponse}
use plakar_edge.Startup.Boot.{
  Flags, Variables, Machine, if_writable, first_into_pool, with_id, first_into_organization,
  identity, checked, boot,
}
use plakar_edge.Startup.{
  State, pool_enrollment_key_or_env, check_enroll_flags, Disk, check_state_writable, Loaded, loaded,
  missing, unusable, Booted, resumed, enrolled, stopped, fatal, enrolling, Round, load_state,
  save_state, state_of, persisted, after_send, enroll_loop, is_definitive,
}

-- The start got this identity: it was there, or the control plane gave it.
abbrev pub Settled : State → Booted → Type 0
Settled s b = (b ≡ resumed s) ⊎ (b ≡ enrolled s)

module _ (encode : State → Bytes) (decode : Bytes → Result State) (uuid_string : Uuid → Bytes)
    (cfg : Config)
    (round_trip : (s : State) → Utf8 s.edge_id → Utf8 s.token → decode (encode s) ≡ ok s) where
  -- Whoever reads the state file now finds this identity.
  abbrev Finds : State → Files → Type 0
  Finds s fs = load_state encode decode uuid_string cfg none fs ≡ loaded s

  -- The identity is in the state file: it was read there, or it has been written.
  abbrev Keeps : Booted × Files → Type 0
  Keeps (resumed s, fs) = Finds s fs
  Keeps (enrolled s, fs) = read fs (state_path cfg) ≡ some (encode s)
  Keeps (stopped, fs) = Unit
  Keeps (fatal msg, fs) = Unit
  Keeps (enrolling, fs) = Unit

  put-read :
      (s : State) (fs : Files)
      → read (put (state_path cfg) (encode s) fs) (state_path cfg) ≡ some (encode s)
  put-read s fs =
      rw (read-put (state_path cfg) (encode s) (state_path cfg) fs, equal_refl (state_path cfg))

  read-Finds :
      (s : State) (fs : Files)
      → Utf8 s.edge_id
      → Utf8 s.token
      → read fs (state_path cfg) ≡ some (encode s)
      → Finds s fs
  unfolding load_state
  read-Finds s fs i t e = rw (e, round_trip s i t)

  persisted-Keeps :
      (s : State) (d : Disk) (fs : Files) (dir write : Option Error)
      → d.saved_dir ≡ dir
      → d.saved ≡ write
      → Keeps (
          persisted encode decode uuid_string cfg s
            (save_state encode decode uuid_string cfg d s fs))
  unfolding save_state
  persisted-Keeps s d fs (some e) write p q = rw p tt
  persisted-Keeps s d fs none (some e) p q = rw (p, q) tt
  persisted-Keeps s d fs none none p q = rw (p, q) (put-read s fs)

  after_send-Keeps :
      (d : Disk) (r : Result EnrollResponse) (waited : Bool) (fs : Files) (retry : Booted × Files)
      → Keeps retry
      → Keeps (after_send encode decode uuid_string cfg d r waited fs retry)
  after_send-Keeps d (ok resp) waited fs retry h =
      persisted-Keeps (state_of encode decode uuid_string cfg resp) d fs d.saved_dir d.saved refl
        refl
  after_send-Keeps d (err e) waited fs retry h =
      if_rule Keeps (is_definitive (http_status e)) tt (if_rule Keeps waited tt h)

  enroll_loop-Keeps :
      (send : (Request → Exchange) → Result EnrollResponse) (d : Disk) (rounds : List Round)
      (fs : Files)
      → Keeps (enroll_loop encode decode uuid_string cfg send d rounds fs)
  unfolding enroll_loop
  enroll_loop-Keeps send d [] fs = tt
  enroll_loop-Keeps send d (r ∷ rounds) fs = if_rule Keeps r.ended tt (
      after_send-Keeps d (send r.http) r.ended_waiting fs
        (enroll_loop encode decode uuid_string cfg send d rounds fs)
        (enroll_loop-Keeps send d rounds fs))

  readable :
      (s : State) (u : Option Error) (fs : Files)
      → load_state encode decode uuid_string cfg u fs ≡ loaded s
      → Finds s fs
  unfolding load_state
  readable s none fs h = h
  readable s (some x) fs h = absurd (cc)

  module _ (parse_uuid : Bytes → Result Uuid) (quote : Bytes → Bytes)
      (decode_response : Bytes → Decoded EnrollResponse) (m : Machine) where
    if_writable-Keeps :
        (d : Disk) (c : Option Error × Files) (go : Files → Booted × Files)
        → ((fs : Files) → Keeps (go fs))
        → Keeps
            (if_writable encode decode uuid_string parse_uuid quote decode_response cfg m d c go)
    if_writable-Keeps d (some e, fs) go h = tt
    if_writable-Keeps d (none, fs) go h = h fs

    with_id-Keeps :
        (id : Result Uuid) (key name : Bytes) (d : Disk) (rounds : List Round) (fs : Files)
        → Keeps (
            with_id encode decode uuid_string parse_uuid quote decode_response cfg m id key name d
              rounds fs)
    with_id-Keeps (err e) key name d rounds fs = tt
    with_id-Keeps (ok org) key name d rounds fs =
        if_writable-Keeps d (check_state_writable d fs) _ (enroll_loop-Keeps _ d rounds)

    first_into_organization-Keeps :
        (key organization : Option Bytes) (name : Bytes) (d : Disk) (rounds : List Round)
        (fs : Files)
        → Keeps (
            first_into_organization encode decode uuid_string parse_uuid quote decode_response cfg m
              key organization name d rounds fs)
    unfolding first_into_organization
    first_into_organization-Keeps none organization name d rounds fs = tt
    first_into_organization-Keeps (some key) none name d rounds fs = tt
    first_into_organization-Keeps (some key) (some organization) name d rounds fs =
        with_id-Keeps (parse_uuid organization) key name d rounds fs

    first_into_pool-Keeps :
        (key name : Bytes) (d : Disk) (rounds : List Round) (fs : Files)
        → Keeps (
            first_into_pool encode decode uuid_string parse_uuid quote decode_response cfg m key
              name d rounds fs)
    unfolding first_into_pool
    first_into_pool-Keeps key name d rounds fs =
        if_writable-Keeps d (check_state_writable d fs) _ (enroll_loop-Keeps _ d rounds)

    identity-Keeps :
        (l : Loaded) (pool_key : Bytes) (flags : Flags) (env : Variables) (d : Disk)
        (rounds : List Round) (fs : Files)
        → load_state encode decode uuid_string cfg d.unreadable fs ≡ l
        → Keeps (
            identity encode decode uuid_string parse_uuid quote decode_response cfg m l pool_key
              flags env d rounds fs)
    identity-Keeps (loaded s) pool_key flags env d rounds fs e = readable s d.unreadable fs e
    identity-Keeps (unusable x) pool_key flags env d rounds fs e = tt
    identity-Keeps missing pool_key flags env d rounds fs e =
        if_rule Keeps (is_empty pool_key) (first_into_organization-Keeps _ _ _ d rounds fs)
          (first_into_pool-Keeps pool_key _ d rounds fs)

    abbrev booted : Flags → Variables → Disk → List Round → Files → Booted × Files
    booted = boot encode decode uuid_string parse_uuid quote decode_response cfg m

    checked-Keeps :
        (c : Option Error) (rest : Booted × Files) (fs : Files)
        → Keeps rest
        → Keeps (checked encode decode uuid_string parse_uuid quote decode_response cfg m c rest fs)
    checked-Keeps none rest fs h = h
    checked-Keeps (some e) rest fs h = tt

    boot-Keeps :
        (flags : Flags) (env : Variables) (d : Disk) (rounds : List Round) (fs : Files)
        → Keeps (booted flags env d rounds fs)
    unfolding boot
    boot-Keeps flags env d rounds fs =
        if_rule Keeps (is_empty cfg.api_url) tt
          (checked-Keeps _ _ fs (identity-Keeps _ _ flags env d rounds fs refl))

    -- Only `identity` settles on one.
    Finds-booted :
        (s : State) (flags : Flags) (env : Variables) (d : Disk) (rounds : List Round) (fs : Files)
        → is_empty cfg.api_url ≡ false
        → check_enroll_flags
            (pool_enrollment_key_or_env flags.pool_key env.pool_key)
            flags.key
            flags.organization
          ≡ none
        → d.unreadable ≡ none
        → Finds s fs
        → booted flags env d rounds fs ≡ (resumed s, fs)
    unfolding boot
    Finds-booted s flags env d rounds fs url ok_flags readable found =
        rw (url, ok_flags, readable, found)

    Settled-Finds :
        (s : State) (b : Booted × Files)
        → Utf8 s.edge_id
        → Utf8 s.token
        → Keeps b
        → Settled s b.0
        → Finds s b.1
    Settled-Finds s (resumed t, fs) i u h (inl e) = let x : t ≡ s = cc in rw (← x) h
    Settled-Finds s (enrolled t, fs) i u h (inl e) = absurd (cc)
    Settled-Finds s (stopped, fs) i u h (inl e) = absurd (cc)
    Settled-Finds s (fatal msg, fs) i u h (inl e) = absurd (cc)
    Settled-Finds s (enrolling, fs) i u h (inl e) = absurd (cc)
    Settled-Finds s (resumed t, fs) i u h (inr e) = absurd (cc)
    Settled-Finds s (enrolled t, fs) i u h (inr e) =
        let x : t ≡ s = cc in read-Finds s fs i u (h ∙ ap (λ v. some (encode v)) x)
    Settled-Finds s (stopped, fs) i u h (inr e) = absurd (cc)
    Settled-Finds s (fatal msg, fs) i u h (inr e) = absurd (cc)
    Settled-Finds s (enrolling, fs) i u h (inr e) = absurd (cc)

    no_url :
        (s : State) (flags : Flags) (env : Variables) (d : Disk) (rounds : List Round) (fs : Files)
        → is_empty cfg.api_url ≡ true
        → Settled s (booted flags env d rounds fs).0
        → ⊥
    unfolding boot
    no_url s flags env d rounds fs u (inl e) = let x = rw u at e in cc
    no_url s flags env d rounds fs u (inr e) = let x = rw u at e in cc

    -- An edge that got an identity, enrolled or resumed, has it at the next start: whatever the network
    -- then does, it resumes as the same edge and writes nothing. This holds when the next start's
    -- enrollment flags are ones that `checkEnrollFlags` does not refuse, when the state file can be read,
    -- and when the identity's id and token are well-formed UTF-8; the state file's JSON is assumed to
    -- read back such a state as it was written.
    pub boot-boot :
        (s : State) (flags : Flags) (env : Variables) (d : Disk) (rounds : List Round) (fs : Files)
        → let b = booted flags env d rounds fs in
          Utf8 s.edge_id
          → Utf8 s.token
          → Settled s b.0
          → (flags' : Flags) (env' : Variables) (d' : Disk) (rounds' : List Round)
          → check_enroll_flags
              (pool_enrollment_key_or_env flags'.pool_key env'.pool_key)
              flags'.key
              flags'.organization
            ≡ none
          → d'.unreadable ≡ none
          → booted flags' env' d' rounds' b.1 ≡ (resumed s, b.1)
    boot-boot s flags env d rounds fs i t settled flags' env' d' rounds' accepted readable' =
        let b = booted flags env d rounds fs in
        elim (Bool-cases (is_empty cfg.api_url)) [
          | inl u ↦ absurd (no_url s flags env d rounds fs u settled)
          | inr u ↦
              Finds-booted s flags' env' d' rounds' b.1 u accepted readable'
                (Settled-Finds s b i t (boot-Keeps flags env d rounds fs) settled)
        ]
