-- ===== src/Client/Fetch/Atomic.antt =====
-- What `FetchPackage` leaves on the disk, on every path through it.
use plakar_edge.Base.{
  ◌≡◌, refl, sym, ap, ◌∙◌, [], ◌∷◌, Option, none, some, arith, inl, inr, Bytes, equal, equal_iff,
  ◌==◌, ==_iff, if◌then◌else◌, Bool-cases,
}
use plakar_edge.Client.Fetch.{
  Package, Files, read, remove, put, Download, clean, install, store, receive, package_request,
  fetch_package,
}
use plakar_edge.Client.{
  Error, Result, ok, err, Request, Response, Exchange, failed, answered, Client,
}

read-remove :
    (f g : Bytes) (fs : Files) → read (remove f fs) g ≡ (if equal f g then none else read fs g)
unfolding read remove
read-remove f g [] = ground arith
read-remove f g ((h, b) ∷ fs) =
    ground (arith, read-remove f g fs, equal_iff f g, equal_iff h f, equal_iff h g)

pub read-put :
    (f : Bytes) (b : Bytes) (g : Bytes) (fs : Files)
    → read (put f b fs) g ≡ (if equal f g then some b else read fs g)
unfolding put read
read-put f b g fs = ground (arith, read-remove f g fs)

-- Every file is as before.
abbrev pub IsUnchanged : Files → Files → Type 0
IsUnchanged fs gs = (f : Bytes) → read gs f ≡ read fs f

-- The file `dst` holds `b`, and every other file is as before.
abbrev pub IsInstalled : Bytes → Bytes → Files → Files → Type 0
IsInstalled dst b fs gs = (f : Bytes) → read gs f ≡ (if equal dst f then some b else read fs f)

-- A temporary file, created as `created` says, is taken back: every file is as before, unless the
-- removal failed, and then only that file is added.
pub data TakesBack (created : Result Bytes) (removed : Option Error) (fs gs : Files) : Type 0 where
  unchanged : IsUnchanged fs gs → TakesBack created removed fs gs
  left :
      (temp b : Bytes) (e : Error)
      → created ≡ ok temp
      → removed ≡ some e
      → IsInstalled temp b fs gs
      → TakesBack created removed fs gs

-- What a fetch leaves, by its answer.
abbrev pub Leaves : Download → Exchange → Bytes → Files → Option Error × Files → Type 0
Leaves d x dst fs (some e, gs) = TakesBack d.created d.removed fs gs
Leaves d (failed msg) dst fs (none, gs) = ⊥
Leaves d (answered r) dst fs (none, gs) = (r.status ≡ 200) × IsInstalled dst r.payload fs gs

-- Removing the temporary file undoes its creation.
pub removed-IsUnchanged :
    (temp b : Bytes) (fs : Files)
    → read fs temp ≡ none
    → IsUnchanged fs (remove temp (put temp b fs))
removed-IsUnchanged temp b fs fresh g =
    read-remove temp g (put temp b fs) ∙ elim (Bool-cases (equal temp g)) [
      | inl e ↦ rw e (sym (ap (read fs) (sym ((equal_iff temp g).0 e)) ∙ fresh))
      | inr e ↦ rw e (read-put temp b g fs ∙ rw e)
    ]

pub clean-TakesBack :
    (created : Result Bytes) (removed r : Option Error) (temp b : Bytes) (fs : Files)
    → created ≡ ok temp
    → removed ≡ r
    → read fs temp ≡ none
    → TakesBack created removed fs (clean r temp (put temp b fs))
clean-TakesBack created removed none temp b fs c q fresh =
    unchanged (removed-IsUnchanged temp b fs fresh)
clean-TakesBack created removed (some e) temp b fs c q fresh =
    left temp b e c q (λ f. read-put temp b f fs)

move-IsInstalled :
    (temp dst b : Bytes) (fs : Files)
    → read fs temp ≡ none
    → IsInstalled dst b fs (put dst b (remove temp (put temp b fs)))
move-IsInstalled temp dst b fs fresh g =
    read-put dst b g (remove temp (put temp b fs))
    ∙ ap (λ o. if equal dst g then some b else o) (removed-IsUnchanged temp b fs fresh g)

install-Leaves :
    (d : Download) (temp dst : Bytes) (r : Response) (fs : Files) (c l n : Option Error)
    → d.copied ≡ c
    → d.closed ≡ l
    → d.renamed ≡ n
    → d.created ≡ ok temp
    → r.status ≡ 200
    → read fs temp ≡ none
    → Leaves d (answered r) dst fs (install d temp dst r.payload fs)
unfolding install
install-Leaves d temp dst r fs (some e) l n ec el en k s fresh =
    rw ec (clean-TakesBack d.created d.removed d.removed temp d.written fs k refl fresh)
install-Leaves d temp dst r fs none (some e) n ec el en k s fresh =
    rw (ec, el) (clean-TakesBack d.created d.removed d.removed temp r.payload fs k refl fresh)
install-Leaves d temp dst r fs none none (some e) ec el en k s fresh =
    rw (ec, el, en) (clean-TakesBack d.created d.removed d.removed temp r.payload fs k refl fresh)
install-Leaves d temp dst r fs none none none ec el en k s fresh =
    rw (ec, el, en) (s, move-IsInstalled temp dst r.payload fs fresh)

-- The name that `os.CreateTemp` chooses is that of no file yet.
abbrev pub IsFresh : Files → Result Bytes → Type 0
IsFresh fs (err e) = Unit
IsFresh fs (ok temp) = read fs temp ≡ none

store-Leaves :
    (d : Download) (t : Result Bytes) (dst : Bytes) (r : Response) (fs : Files)
    → d.created ≡ t
    → r.status ≡ 200
    → IsFresh fs t
    → Leaves d (answered r) dst fs (store d t dst r.payload fs)
store-Leaves d (err e) dst r fs k s fresh = unchanged (λ f. refl)
store-Leaves d (ok temp) dst r fs k s fresh =
    install-Leaves d temp dst r fs d.copied d.closed d.renamed refl refl refl k s fresh

receive-Leaves :
    (d : Download) (p : Package) (dst : Bytes) (x : Exchange) (fs : Files)
    → IsFresh fs d.created
    → Leaves d x dst fs (receive d p dst x fs)
unfolding receive
receive-Leaves d p dst (failed msg) fs fresh = unchanged (λ f. refl)
receive-Leaves d p dst (answered r) fs fresh = elim (Bool-cases (r.status == 200)) [
  | inl e ↦ rw e (store-Leaves d d.created dst r fs refl ((==_iff r.status 200).0 e) fresh)
  | inr e ↦ rw e (unchanged (λ f. refl))
]

-- A fetch that fails, at whichever call, leaves every file as it was: no part of a package, and no
-- temporary file, unless the removal of that file itself fails, and then every other file is as it was.
-- A fetch that succeeds was answered 200, leaves the whole body in its place, and every other file as it
-- was. The temporary file is assumed to get a name that no file has.
pub fetch_package-Leaves :
    (escape_path escape_query : Bytes → Bytes) (http : Request → Exchange) (d : Download)
    (c : Client) (p : Package) (dst : Bytes) (fs : Files)
    → IsFresh fs d.created
    → Leaves d
        (http (package_request escape_path escape_query c p))
        dst
        fs
        (fetch_package escape_path escape_query http d c p dst fs)
unfolding fetch_package
fetch_package-Leaves escape_path escape_query http d c p dst fs fresh =
    receive-Leaves d p dst (http (package_request escape_path escape_query c p)) fs fresh
