-- ===== src/Core.antt =====
-- `CoreHTTPClient` and `_retry_delay` of `src/webex_kms_sdk/core.py`.
pub mod Retry
pub mod Headers
pub mod Log
pub mod Paths
use webex_kms_sdk.Base.{
  ℕ, zero, suc, ◌+◌, ◌*◌, ◌^◌, String, ◌<>◌, Bool, true, false, not, ◌||◌, Option, none, some, List,
  [], ◌∷◌, eqb, if◌then◌else◌, string_eq,
}
use webex_kms_sdk.Dict.{Dict, lookup, insert}
use webex_kms_sdk.Number.{ℤ, pos, negsuc, Float, finite, infinite, minus_infinite, nan, seconds}
use webex_kms_sdk.Exceptions.{Exception, Result, ok, err, Action}
use webex_kms_sdk.Text.{nonempty}
use webex_kms_sdk.Json.{Json, Python}
use webex_kms_sdk.Config.{Config}
use webex_kms_sdk.Http.{Request, Response, Traffic, slept, closed, Net, record_traffic, send}

-- The shared client: its token and configuration. The HTTP session is the `Net` of each call.
pub record CoreHttpClient : Type 0 where
  pub access_token : String
  pub config : Config

-- `status_code in RETRYABLE_STATUSES`
abbrev pub is_retryable : ℕ → Bool
is_retryable s = eqb s 423 || eqb s 429 || eqb s 502 || eqb s 503 || eqb s 504

-- `x > 0`
abbrev pub float_positive : Float → Bool
float_positive (finite (pos n)) = not (eqb n 0)
float_positive infinite = true
float_positive _ = false

-- `float(retry_after)`, and 0.0 on a ValueError, if it is above 0.
abbrev pub positive_seconds : Option Float → Option Float
positive_seconds none = none
positive_seconds (some x) = if float_positive x then some x else none

-- The delay of a `Retry-After` header that the program honours.
unfoldable pub server_delay : Python → Response → Option Float
server_delay py r =
    if eqb r.status_code 423 || eqb r.status_code 429
    then elim (lookup "Retry-After" r.headers) [
      | none ↦ none
      | some header ↦ if nonempty header then positive_seconds (py.float_of header) else none
    ]
    else none

-- `_retry_delay`
unfoldable pub retry_delay : Python → Response → ℕ → ℕ → Float
retry_delay py r base_delay attempt = elim (server_delay py r) [
  | some s ↦ s
  | none ↦ finite (pos (base_delay * 2 ^ attempt))
]

-- `headers.update(extra)`, and the merge of `**default_headers`.
unfoldable pub update_headers : Dict String String → Dict String String → Dict String String
update_headers headers [] = headers
update_headers headers ((k, v) ∷ extra) = update_headers (insert k v headers) extra

-- `CoreHTTPClient.auth_headers`
unfoldable pub auth_headers : CoreHttpClient → Dict String String → Dict String String
auth_headers core extra =
    update_headers
      (update_headers
        (("Authorization", "Bearer " <> core.access_token)
          ∷ ("Content-Type", "application/json")
          ∷ [])
        core.config.default_headers)
      extra

-- `self.config.retry_base_delay or 1.0`
abbrev pub base_delay : Config → ℕ
base_delay c = if eqb c.retry_base_delay 0 then seconds 1 else c.retry_base_delay

-- What the loop does before the next attempt.
abbrev pub back_off : Response → Float → Net → Net
back_off r delay w = record_traffic (slept delay) (record_traffic (closed r) w)

module _ (py : Python) where
  -- The loop of `request_url`, at an attempt with so many attempts left after it.
  unfoldable pub attempt_request : Request → ℕ → ℕ → ℕ → Action Net Response
  attempt_request q delay attempt zero w = send q w
  attempt_request q delay attempt (suc left) w =
      let (reply, w') = send q w in
      elim reply [
        | err e ↦ (err e, w')
        | ok r ↦
            let again =
              attempt_request q delay (attempt + 1) left
                (back_off r (retry_delay py r delay attempt) w') in
            if is_retryable r.status_code then again else (ok r, w')
      ]

  -- `CoreHTTPClient.request_url`
  unfoldable pub request_url :
      CoreHttpClient
      → String
      → String
      → Dict String String
      → Option Json
      → Dict String String
      → Action Net Response
  request_url core method url params body headers =
      attempt_request
        (record {
          method = method;
          url = url;
          params = params;
          body = body;
          headers = auth_headers core headers;
        })
        (base_delay core.config) 0 core.config.max_retries
