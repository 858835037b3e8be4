-- ===== src/Client/Calls.antt =====
-- How an answer of the control plane reads for the caller.
use plakar_edge.Base.{
  ℕ, ◌≡◌, ◌≢◌, ◌↔◌, ◌⊎◌, refl, ◌∙◌, Bool, true, false, Option, none, some, arith, Bytes, text, leb,
  if◌then◌else◌,
}
use plakar_edge.Client.{
  http_status, Result, ok, err, Request, Exchange, failed, answered, Decoded, value, eof, malformed,
  Client, do_status, refusal, poll, decode_into, poll_answer, request, polls, rejects, zero_item,
  is_unauthorized_error, status_no_content,
}
use plakar_edge.Protocol.{PollRequest, WorkItem}

-- The status of an error that the control plane answered with.
abbrev pub refused_with : Exchange → Option ℕ
refused_with (failed msg) = none
refused_with (answered r) = if leb 400 r.status then some r.status else none

abbrev pub error_status {ℓ} : {A : Type ℓ} → Result A → Option ℕ
error_status (ok a) = none
error_status (err e) = http_status e

decode_into-error_status {ℓ} :
    {A : Type ℓ} (path : Bytes) (zero : A) (d : Decoded A)
    → error_status (decode_into path zero d) ≡ none
unfolding http_status
decode_into-error_status path zero (value a) = refl
decode_into-error_status path zero eof = refl
decode_into-error_status path zero (malformed msg) = refl

-- `doStatus` answers an `HTTPError` exactly when the control plane answered 400 or above, and then with
-- that status: no other failure of `doStatus` carries one.
pub do_status-refused_with {ℓ} :
    {A : Type ℓ} (method path : Bytes) (zero : A) (decode : Option (Bytes → Decoded A))
    (x : Exchange)
    → error_status (do_status method path zero decode x).1 ≡ refused_with x
unfolding do_status refusal http_status
do_status-refused_with method path zero decode (failed msg) = refl
do_status-refused_with method path zero none (answered r) = ground arith
do_status-refused_with method path zero (some d) (answered r) =
    ground (arith, decode_into-error_status path zero (d r.payload))

-- `isUnauthorizedError` on the error of a call: the answer was 401 or 403.
abbrev pub IsRejection : Exchange → Type 0
IsRejection (failed msg) = ⊥
IsRejection (answered r) = (r.status ≡ 401) ⊎ (r.status ≡ 403)

abbrev pub is_rejected {ℓ} : {A : Type ℓ} → Result A → Bool
is_rejected (ok a) = false
is_rejected (err e) = is_unauthorized_error e

is_rejected-error_status {ℓ} :
    {A : Type ℓ} (r : Result A) → is_rejected r ≡ rejects (error_status r)
unfolding is_unauthorized_error
is_rejected-error_status (ok a) = refl
is_rejected-error_status (err x) = refl

poll_answer-error_status :
    (http : Request → Exchange) (c : Client) (r : ℕ × Result WorkItem)
    → error_status (poll_answer http c r) ≡ error_status r.1
poll_answer-error_status http c (status, err e) = refl
poll_answer-error_status http c (status, ok item) = ground arith

rejects_iff : (x : Exchange) → (rejects (refused_with x) ≡ true) ↔ IsRejection x
rejects_iff (failed msg) = (λ e. cc, λ h. absurd h)
rejects_iff (answered r) = ground arith

abbrev pub poll_path : Bytes
poll_path = text "/api/v1/edge/poll"

abbrev pub HasNoContent : Exchange → Type 0
HasNoContent (failed msg) = ⊥
HasNoContent (answered r) = r.status ≡ status_no_content

module _ (http : Request → Exchange) (c : Client) where
  -- What becomes of a poll on the wire.
  abbrev pub polled : PollRequest → Exchange
  polled req = http (request c (text "POST") poll_path (polls req))

  poll-refused_with :
      (decode : Bytes → Decoded WorkItem) (req : PollRequest)
      → error_status (poll http c decode req) ≡ refused_with (polled req)
  unfolding poll
  poll-refused_with decode req =
      poll_answer-error_status http c
        (do_status (text "POST") poll_path zero_item (some decode) (polled req))
      ∙ do_status-refused_with (text "POST") poll_path zero_item (some decode) (polled req)

  -- A poll fails as unauthorized exactly when the control plane answered it 401 or 403.
  pub poll_rejected_iff :
      (decode : Bytes → Decoded WorkItem) (req : PollRequest)
      → (is_rejected (poll http c decode req) ≡ true) ↔ IsRejection (polled req)
  poll_rejected_iff decode req =
      rw (is_rejected-error_status (poll http c decode req), poll-refused_with decode req)
        (rejects_iff (polled req))

  poll_answer-ne_none :
      (status : ℕ) (r : Result WorkItem)
      → status ≢ status_no_content
      → poll_answer http c (status, r) ≢ ok none
  poll_answer-ne_none status (err e) h = λ x. cc
  poll_answer-ne_none status (ok item) h = λ x. ground arith

  no_work_iff :
      (decode : Bytes → Decoded WorkItem) (x : Exchange)
      → (poll_answer http c (do_status (text "POST") poll_path zero_item (some decode) x) ≡ ok none)
        ↔ HasNoContent x
  unfolding do_status
  no_work_iff decode (failed msg) = (λ e. cc, λ h. absurd h)
  no_work_iff decode (answered r) = (
    λ e. ground (
      arith,
      poll_answer-ne_none r.status (err (refusal (text "POST /api/v1/edge/poll") r)),
      poll_answer-ne_none r.status (decode_into poll_path zero_item (decode r.payload)),
    ),
    λ e. ground arith,
  )

  -- A poll reports no work exactly when it was answered 204; a failure never reads as no work.
  pub poll_no_work_iff :
      (decode : Bytes → Decoded WorkItem) (req : PollRequest)
      → (poll http c decode req ≡ ok none) ↔ HasNoContent (polled req)
  unfolding poll
  poll_no_work_iff decode req = no_work_iff decode (polled req)
