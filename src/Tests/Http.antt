-- ===== src/Tests/Http.antt =====
-- The theorems on requests and their errors at concrete inputs.
use webex_kms_sdk.Base.{◌≡◌, refl, true, ◌||◌, eqb, none, some, [], ◌∷◌, string_eq}
use webex_kms_sdk.Dict.{lookup}
use webex_kms_sdk.Exceptions.{ok}
use webex_kms_sdk.Json.{null, string, array, object, nil, cons, field, end}
use webex_kms_sdk.Text.{lstrip, rstrip}
use webex_kms_sdk.Core.Log.{redact_for_log, is_clean, is_clean-redact_for_log}
use webex_kms_sdk.Core.Paths.{join_path}
use webex_kms_sdk.Http.{Net}
use webex_kms_sdk.Core.{auth_headers, base_delay, request_url}
use webex_kms_sdk.Core.Retry.{IsRetried, request_url-IsRetried}
use webex_kms_sdk.Core.Headers.{lookup-auth_headers}
use webex_kms_sdk.Errors.{
  api_error_from_response, is_auth_error, is_forbidden, is_not_found, is_conflict, is_gone,
  is_locked, is_precondition_required, is_rate_limited, is_server_error,
}
use webex_kms_sdk.Errors.Laws.{api_error_from_response_kinds}
use webex_kms_sdk.Tests.Fixtures.{toy_python, toy_core, reply}

abbrev busy_then_fine : Net
busy_then_fine = record {
  replies = ok (reply 503 (ok null)) ∷ ok (reply 200 (ok null)) ∷ [];
  log = [];
}

request_url-IsRetried_example :
    IsRetried toy_python
      (record {
        method = "GET";
        url = "u";
        params = [];
        body = none;
        headers = auth_headers toy_core [];
      })
      (base_delay toy_core.config)
      0
      3
      busy_then_fine
      (request_url toy_python toy_core "GET" "u" [] none [] busy_then_fine)
request_url-IsRetried_example =
    request_url-IsRetried toy_python toy_core "GET" "u" [] none [] busy_then_fine

-- A request can replace the content type, and leaves the token.
lookup-auth_headers_example :
    lookup "Content-Type" (auth_headers toy_core (("Content-Type", "text/plain") ∷ []))
    ≡ some "text/plain"
unfolding string_eq
lookup-auth_headers_example =
    lookup-auth_headers "Content-Type" toy_core (("Content-Type", "text/plain") ∷ [])

api_error_from_response_kinds_example :
    let e = api_error_from_response toy_python (reply 429 (ok null)) in
    (is_auth_error e ≡ eqb 429 401)
    × (is_forbidden e ≡ eqb 429 403)
    × (is_not_found e ≡ eqb 429 404)
    × (is_conflict e ≡ eqb 429 409)
    × (is_gone e ≡ eqb 429 410)
    × (is_locked e ≡ eqb 429 423)
    × (is_precondition_required e ≡ eqb 429 428)
    × (is_rate_limited e ≡ eqb 429 429)
    × (is_server_error e ≡ (eqb 429 500 || eqb 429 502 || eqb 429 503 || eqb 429 504))
api_error_from_response_kinds_example =
    api_error_from_response_kinds toy_python (reply 429 (ok null))

is_clean-redact_for_log_example :
    is_clean
      (λ s. s)
      (redact_for_log
        (λ s. s)
        (array (cons (object (field "token" (string "secret text") (field "id" null end))) nil)))
    ≡ true
is_clean-redact_for_log_example =
    is_clean-redact_for_log (λ s. s)
      (array (cons (object (field "token" (string "secret text") (field "id" null end))) nil))

-- One slash joins a base URL and a path.
join_path_test :
    join_path "https://webexapis.com/v1/" "/people/me" ≡ "https://webexapis.com/v1/people/me"
unfolding join_path lstrip rstrip
join_path_test = refl
