-- ===== src/Client.antt =====
-- client.go: `Client`, which talks to the control plane's edge API.
-- A request carries the value that the code encodes as its JSON body. What comes back over the wire
-- is an `Exchange`, and `json.Decoder` is an argument.
pub mod Calls
pub mod Fetch
use mathlib.Core.List.{reverse}
use plakar_edge.Base.{
  ℕ, ◌≤◌, Bool, true, false, ◌&&◌, ◌||◌, not, List, [], ◌∷◌, ◌++◌, Option, none, some, Bytes, text,
  equal, is_empty, take, leb, ltb, ◌==◌, if◌then◌else◌,
}
use plakar_edge.Base.Int.{ℤ, pos}
use plakar_edge.Base.Trim.{trim_space, strip, leading_space, trailing_space}
use plakar_edge.Protocol.{
  EnrollRequest, PoolEnrollRequest, EnrollResponse, PollRequest, WorkItem, Uuid, Reply,
}

-- Go errors: an `HTTPError`, any other error with its text, and one wrapped behind a text (`%w`).
pub data Error : Type 0 where
  http_error : (status : ℕ) (msg : Bytes) → Error
  plain : Bytes → Error
  wrapped : Bytes → Error → Error

-- `Error()`
unfoldable pub message : Error → Bytes
message (http_error status msg) = msg
message (plain msg) = msg
message (wrapped msg e) = msg ++ message e

-- `errors.As(err, &he)`: the status of the `HTTPError` in the chain.
unfoldable pub http_status : Error → Option ℕ
http_status (http_error status msg) = some status
http_status (plain msg) = none
http_status (wrapped msg e) = http_status e

pub data Result {ℓ} (A : Type ℓ) : Type ℓ where
  ok : A → Result A
  err : Error → Result A

pub data Body : Type 0 where
  nothing : Body
  enrolls : EnrollRequest → Body
  enrolls_into_pool : PoolEnrollRequest → Body
  polls : PollRequest → Body
  replies : Reply → Body

pub record Request : Type 0 where
  pub method : Bytes
  pub url : Bytes
  pub body : Body
  -- "application/json", or empty.
  pub content_type : Bytes
  -- "Bearer " and the token, or empty.
  pub authorization : Bytes

pub record Response : Type 0 where
  pub status : ℕ
  -- `resp.Status`, the code with its text.
  pub status_line : Bytes
  pub payload : Bytes

-- What becomes of a request: no answer (a network error, a context that ended), or a response.
pub data Exchange : Type 0 where
  failed : Bytes → Exchange
  answered : Response → Exchange

-- What `json.Decoder.Decode` makes of a body.
pub data Decoded {ℓ} (A : Type ℓ) : Type ℓ where
  value : A → Decoded A
  eof : Decoded A
  malformed : Bytes → Decoded A

pub record Client : Type 0 where
  pub base_url : Bytes
  pub token : Bytes

-- `strings.TrimRight(s, "/")`, on the text read backwards.
unfoldable pub trim_slashes : Bytes → Bytes
trim_slashes [] = []
trim_slashes (c ∷ s) = elim (c == b'/') [ true ↦ trim_slashes s | false ↦ c ∷ s ]

unfoldable pub new_client : Bytes → Client
unfolding trim_slashes
new_client url = record { base_url = reverse (trim_slashes (reverse url)); token = [] }

unfoldable pub set_token : Client → Bytes → Client
set_token c token = record c { token = token }

-- The `Authorization` header: none before the edge is enrolled.
unfoldable pub authorization : Client → Bytes
authorization c = if is_empty c.token then [] else text "Bearer " ++ c.token

abbrev has_body : Body → Bool
has_body nothing = false
has_body _ = true

unfoldable pub request : Client → Bytes → Bytes → Body → Request
unfolding authorization
request c method path body = record {
  method = method;
  url = c.base_url ++ path;
  body = body;
  content_type = if has_body body then text "application/json" else [];
  authorization = authorization c;
}

abbrev pub status_no_content : ℕ
status_no_content = 204

-- The error of a response of 400 and above: its status and the first 4096 bytes of its body.
unfoldable pub refusal : Bytes → Response → Error
refusal what r =
    http_error r.status
      (what ++ (text ": " ++ (r.status_line ++ (text ": " ++ trim_space (take 4096 r.payload)))))

-- `out` was given, as the zero value `zero`; an empty body leaves it so.
abbrev pub decode_into {ℓ} : {A : Type ℓ} → Bytes → A → Decoded A → Result A
decode_into path zero (value a) = ok a
decode_into path zero eof = ok zero
decode_into path zero (malformed msg) =
    err (wrapped (text "decode " ++ (path ++ text " response: ")) (plain msg))

-- `doStatus`, from the exchange on: the status and the result. `decode` is none where the caller
-- passes no `out`.
unfoldable pub do_status {ℓ} :
    {A : Type ℓ} (method path : Bytes) → A → Option (Bytes → Decoded A) → Exchange → ℕ × Result A
do_status method path zero decode (failed msg) = (0, err (plain msg))
do_status method path zero decode (answered r) =
    if leb 400 r.status
    then (r.status, err (refusal (method ++ (text " " ++ path)) r))
    else elim decode [
      | none ↦ (r.status, ok zero)
      | some d ↦
          if r.status == status_no_content
          then (r.status, ok zero)
          else (r.status, decode_into path zero (d r.payload))
    ]

-- A zero `EnrollResponse` and a zero `WorkItem`, which an empty body leaves.
abbrev nil_uuid : Uuid
nil_uuid = 0 ∷ 0 ∷ 0 ∷ 0 ∷ 0 ∷ 0 ∷ 0 ∷ 0 ∷ 0 ∷ 0 ∷ 0 ∷ 0 ∷ 0 ∷ 0 ∷ 0 ∷ 0 ∷ []

abbrev pub zero_response : EnrollResponse
zero_response = record {
  edge_id = nil_uuid;
  token = [];
  protocol_version = pos 0;
  supported = false;
}

abbrev pub zero_item : WorkItem
zero_item = record { work_id = nil_uuid; op = []; task_config = []; source = none; target = none }

abbrev post : Bytes
post = text "POST"

-- The calls. `http` is what the network and the control plane make of a request.
module _ (http : Request → Exchange) (c : Client) where
  -- `Enroll`
  unfoldable pub enroll : (Bytes → Decoded EnrollResponse) → EnrollRequest → Result EnrollResponse
  enroll decode req =
      let path = text "/api/v1/edge/enroll" in
      (do_status post path zero_response (some decode) (http (request c post path (enrolls req)))).1

  -- `EnrollIntoPool`
  unfoldable pub enroll_into_pool :
      (Bytes → Decoded EnrollResponse) → PoolEnrollRequest → Result EnrollResponse
  enroll_into_pool decode req =
      let path = text "/api/v1/edge/pools/enroll" in
      (do_status post path zero_response (some decode)
        (http (request c post path (enrolls_into_pool req)))).1

  abbrev pub poll_answer : ℕ × Result WorkItem → Result (Option WorkItem)
  poll_answer (status, err e) = err e
  poll_answer (status, ok item) = if status == status_no_content then ok none else ok (some item)

  -- `Poll`; its timeout is one of the ways in which an exchange fails.
  unfoldable pub poll : (Bytes → Decoded WorkItem) → PollRequest → Result (Option WorkItem)
  poll decode req =
      let path = text "/api/v1/edge/poll" in
      poll_answer
        (do_status post path zero_item (some decode) (http (request c post path (polls req))))

  -- `Reply`; `uuid_string` is `UUID.String`.
  unfoldable pub reply : (Uuid → Bytes) → Uuid → Reply → Result (Unit {0})
  reply uuid_string work_id r =
      let path = text "/api/v1/edge/" ++ (uuid_string work_id ++ text "/reply") in
      (do_status post path tt none (http (request c post path (replies r)))).1

abbrev pub rejects : Option ℕ → Bool
rejects none = false
rejects (some status) = status == 401 || status == 403

-- main.go: `isUnauthorizedError`.
unfoldable pub is_unauthorized_error : Error → Bool
unfolding http_status
is_unauthorized_error e = rejects (http_status e)
