-- ===== src/Client/Fetch.antt =====
-- client.go: `FetchPackage`, which writes a package beside its place and moves it there when it is
-- whole. A directory is a list of file names with their contents.
pub mod Atomic
use plakar_edge.Base.{
  ℕ, ◌≡◌, ◌≢◌, refl, sym, ap, ◌∙◌, ◌⊎◌, inl, inr, Bool, true, false, List, [], ◌∷◌, ◌++◌, Option,
  none, some, arith, Bytes, text, equal, equal_iff, equal_refl, ◌==◌, if◌then◌else◌, Bool-cases,
}
use plakar_edge.Client.{
  Error, plain, Result, ok, err, Request, nothing, Exchange, failed, answered, Client, request,
  refusal,
}

-- `pkg.Package`, of another repository.
pub record Package : Type 0 where
  pub name : Bytes
  pub version : Bytes
  pub operating_system : Bytes
  pub architecture : Bytes

abbrev pub Files : Type 0
Files = List (Bytes × Bytes)

unfoldable pub read : Files → Bytes → Option Bytes
read [] f = none
read ((g, b) ∷ fs) f = if equal g f then some b else read fs f

unfoldable pub remove : Bytes → Files → Files
remove f [] = []
remove f ((g, b) ∷ fs) = if equal g f then remove f fs else (g, b) ∷ remove f fs

unfoldable pub put : Bytes → Bytes → Files → Files
unfolding remove
put f b fs = (f, b) ∷ remove f fs

-- What the file system does with the download: the name that `os.CreateTemp` chose, how much of the
-- body `io.Copy` wrote before an error, and the errors of each call.
pub record Download : Type 0 where
  pub created : Result Bytes
  pub written : Bytes
  pub copied : Option Error
  pub closed : Option Error
  pub renamed : Option Error
  -- The error of `os.Remove`, which the code ignores.
  pub removed : Option Error

-- `os.Remove`, which takes nothing away when it fails.
abbrev pub clean : (removed : Option Error) → Bytes → Files → Files
clean none temp fs = remove temp fs
clean (some e) temp fs = fs

-- Each failure removes the temporary file, if it can.
abbrev pub or_remove :
    Download → Option Error → Bytes → Files → Option Error × Files → Option Error × Files
or_remove d (some e) temp fs rest = (some e, clean d.removed temp fs)
or_remove d none temp fs rest = rest

-- What `io.Copy` leaves in the file: all of the body, if it answers no error.
abbrev pub part_of : Download → Bytes → Bytes
part_of d payload = elim d.copied [ some e ↦ d.written | none ↦ payload ]

-- The end of `FetchPackage`, with the temporary file open.
unfoldable pub install : Download → Bytes → Bytes → Bytes → Files → Option Error × Files
unfolding put
install d temp dst payload fs =
    let part = put temp (part_of d payload) fs in
    or_remove d d.copied temp part (
      or_remove d d.closed temp part
        (or_remove d d.renamed temp part (none, put dst (part_of d payload) (remove temp part))))

abbrev pub store : Download → Result Bytes → Bytes → Bytes → Files → Option Error × Files
store d (err e) dst payload fs = (some e, fs)
store d (ok temp) dst payload fs = install d temp dst payload fs

abbrev pub what_failed : Package → Bytes
what_failed p = text "fetch package " ++ (p.name ++ (text "@" ++ p.version))

-- From the exchange on: only a 200 is a package.
unfoldable pub receive : Download → Package → Bytes → Exchange → Files → Option Error × Files
unfolding install
receive d p dst (failed msg) fs = (some (plain msg), fs)
receive d p dst (answered r) fs =
    if r.status == 200
    then store d d.created dst r.payload fs
    else (some (refusal (what_failed p) r), fs)

-- `escape_path` and `escape_query` are `url.PathEscape` and `url.QueryEscape`.
unfoldable pub package_request :
    (escape_path escape_query : Bytes → Bytes) → Client → Package → Request
package_request escape_path escape_query c p =
    request c (text "GET")
      (text "/api/v1/edge/packages/"
        ++ (escape_path p.name
            ++ (text "/"
                ++ (escape_path p.version
                    ++ (text "?os="
                        ++ (escape_query p.operating_system
                            ++ (text "&arch=" ++ escape_query p.architecture)))))))
      nothing

-- `FetchPackage`
unfoldable pub fetch_package :
    (escape_path escape_query : Bytes → Bytes) (http : Request → Exchange)
    → Download
    → Client
    → Package
    → Bytes
    → Files
    → Option Error × Files
unfolding receive package_request
fetch_package escape_path escape_query http d c p dst fs =
    receive d p dst (http (package_request escape_path escape_query c p)) fs
