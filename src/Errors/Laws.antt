-- ===== src/Errors/Laws.antt =====
-- How the status of a response decides the class of its error.
use webex_kms_sdk.Base.{◌≡◌, ◌||◌, eqb, arith}
use webex_kms_sdk.Json.{Python}
use webex_kms_sdk.Http.{Response}
use webex_kms_sdk.Errors.{
  kind_of_status, api_error_from_response, is_rate_limited, is_not_found, is_auth_error,
  is_forbidden, is_conflict, is_gone, is_locked, is_precondition_required, is_server_error,
}

-- The predicates tell the statuses apart: each holds of the error of a response exactly when the
-- response has the status that the predicate is named for.
pub api_error_from_response_kinds :
    (py : Python) (r : Response)
    → let e = api_error_from_response py r in
      (is_auth_error e ≡ eqb r.status_code 401)
      × (is_forbidden e ≡ eqb r.status_code 403)
      × (is_not_found e ≡ eqb r.status_code 404)
      × (is_conflict e ≡ eqb r.status_code 409)
      × (is_gone e ≡ eqb r.status_code 410)
      × (is_locked e ≡ eqb r.status_code 423)
      × (is_precondition_required e ≡ eqb r.status_code 428)
      × (is_rate_limited e ≡ eqb r.status_code 429)
      × (is_server_error e ≡ (
          eqb r.status_code 500
          || eqb r.status_code 502
          || eqb r.status_code 503
          || eqb r.status_code 504))
unfolding api_error_from_response kind_of_status is_rate_limited is_not_found is_auth_error
    is_forbidden is_conflict is_gone is_locked is_precondition_required is_server_error
api_error_from_response_kinds py r = ground arith
