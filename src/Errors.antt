-- ===== src/Errors.antt =====
-- `api_error_from_response` and the `is_…` predicates of `src/webex_kms_sdk/errors.py`.
pub mod Laws
use webex_kms_sdk.Base.{
  ℕ, String, ◌<>◌, Bool, true, false, ◌||◌, Option, none, some, eqb, if◌then◌else◌, string_eq,
}
use webex_kms_sdk.Dict.{lookup}
use webex_kms_sdk.Number.{Float, decimal}
use webex_kms_sdk.Exceptions.{
  ApiKind, plain, rate_limit, auth, forbidden, not_found, conflict, gone, locked,
  precondition_required, server, ApiError, Exception, api_error, Result, ok, err,
}
use webex_kms_sdk.Text.{nonempty}
use webex_kms_sdk.Json.{Json, Fields, end, object, Python, get, text_or_empty}
use webex_kms_sdk.Http.{Response}

-- The `match` on the status code.
unfoldable pub kind_of_status : ℕ → ApiKind
kind_of_status s =
    if eqb s 401
    then auth
    else if eqb s 403
    then forbidden
    else if eqb s 404
    then not_found
    else if eqb s 409
    then conflict
    else if eqb s 410
    then gone
    else if eqb s 423
    then locked
    else if eqb s 428
    then precondition_required
    else if eqb s 429
    then rate_limit
    else if eqb s 500 || eqb s 502 || eqb s 503 || eqb s 504
    then server
    else plain

-- The dict that the body holds, or the empty one: `{}` on a ValueError, and no fields are read of a
-- body that is no dict.
abbrev pub body_fields : Result Json → Fields
body_fields (ok (object fs)) = fs
body_fields _ = end

-- `api_error_from_response`
unfoldable pub api_error_from_response : Python → Response → Exception
api_error_from_response py r =
    let parsed = body_fields r.json in
    api_error (kind_of_status r.status_code) (record {
      status_code = r.status_code;
      status = decimal r.status_code <> (" " <> r.reason_phrase);
      message = text_or_empty py (get "message" parsed);
      tracking_id = text_or_empty py (get "trackingId" parsed);
      retry_after = elim (lookup "Retry-After" r.headers) [
        | none ↦ none
        | some header ↦ if nonempty header then py.float_of header else none
      ];
      raw_body = r.content;
    })

-- `isinstance(err, C)`, for a subclass of `APIError`
abbrev pub has_kind : (ApiKind → Bool) → Exception → Bool
has_kind p (api_error k _) = p k
has_kind p _ = false

unfoldable pub is_rate_limited : Exception → Bool
is_rate_limited = has_kind (λ k. elim k [ rate_limit ↦ true | _ ↦ false ])

unfoldable pub is_not_found : Exception → Bool
is_not_found = has_kind (λ k. elim k [ not_found ↦ true | _ ↦ false ])

unfoldable pub is_auth_error : Exception → Bool
is_auth_error = has_kind (λ k. elim k [ auth ↦ true | _ ↦ false ])

unfoldable pub is_forbidden : Exception → Bool
is_forbidden = has_kind (λ k. elim k [ forbidden ↦ true | _ ↦ false ])

unfoldable pub is_conflict : Exception → Bool
is_conflict = has_kind (λ k. elim k [ conflict ↦ true | _ ↦ false ])

unfoldable pub is_gone : Exception → Bool
is_gone = has_kind (λ k. elim k [ gone ↦ true | _ ↦ false ])

unfoldable pub is_locked : Exception → Bool
is_locked = has_kind (λ k. elim k [ locked ↦ true | _ ↦ false ])

unfoldable pub is_precondition_required : Exception → Bool
is_precondition_required = has_kind (λ k. elim k [ precondition_required ↦ true | _ ↦ false ])

unfoldable pub is_server_error : Exception → Bool
is_server_error = has_kind (λ k. elim k [ server ↦ true | _ ↦ false ])
