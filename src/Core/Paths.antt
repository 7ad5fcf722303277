-- ===== src/Core/Paths.antt =====
-- `CoreHTTPClient.request`, `CoreHTTPClient.parse_json` and the construction of the client, of
-- `src/webex_kms_sdk/core.py`.
use webex_kms_sdk.Base.{String, ◌<>◌, Option, leb, if◌then◌else◌}
use webex_kms_sdk.Dict.{Dict}
use webex_kms_sdk.Exceptions.{value_error, Result, ok, err, Action}
use webex_kms_sdk.Text.{nonempty, lstrip, rstrip}
use webex_kms_sdk.Json.{Json, Python}
use webex_kms_sdk.Config.{Config}
use webex_kms_sdk.Http.{Response, Net}
use webex_kms_sdk.Errors.{api_error_from_response}
use webex_kms_sdk.Core.{CoreHttpClient, request_url}

-- `CoreHTTPClient.__init__`
unfoldable pub new_core : String → Config → Result CoreHttpClient
new_core access_token config =
    if nonempty access_token
    then ok (record { access_token = access_token; config = config })
    else err (value_error "access token cannot be empty")

-- The base URL and the path, with one slash between them.
unfoldable pub join_path : String → String → String
join_path base_url path = rstrip "/" base_url <> ("/" <> lstrip "/" path)

module _ (py : Python) where
  -- `CoreHTTPClient.request`
  unfoldable pub request :
      CoreHttpClient
      → String
      → String
      → Dict String String
      → Option Json
      → Dict String String
      → Action Net Response
  request core method path params body headers =
      request_url py core method (join_path core.config.base_url path) params body headers

  -- `CoreHTTPClient.parse_json`
  unfoldable pub parse_json : Response → Result Json
  parse_json r = if leb 400 r.status_code then err (api_error_from_response py r) else r.json
