-- ===== src/Core/Headers.antt =====
-- Which value each request header has.
use webex_kms_sdk.Base.{
  String, ◌<>◌, ◌≡◌, refl, ◌∙◌, ap, Option, none, some, [], ◌∷◌, ◌==◌, string_eq, if◌then◌else◌,
}
use webex_kms_sdk.Dict.{Dict, lookup, insert, lookup-insert}
use webex_kms_sdk.Core.{CoreHttpClient, update_headers, auth_headers}

-- The last value that a list of pairs gives a key, or the old one.
abbrev pub last_value : String → Dict String String → Option String → Option String
last_value k [] old = old
last_value k ((j, v) ∷ d) old = last_value k d (if k == j then some v else old)

lookup-update_headers :
    (k : String) (headers extra : Dict String String)
    → lookup k (update_headers headers extra) ≡ last_value k extra (lookup k headers)
unfolding update_headers
lookup-update_headers k headers [] = refl
lookup-update_headers k headers ((j, v) ∷ extra) =
    lookup-update_headers k (insert j v headers) extra
    ∙ ap (last_value k extra) (lookup-insert k j v headers)

built_in :
    (k token : String)
    → lookup k (("Authorization", "Bearer " <> token) ∷ ("Content-Type", "application/json") ∷ [])
      ≡ (if k == "Authorization"
          then some ("Bearer " <> token)
          else if k == "Content-Type"
          then some "application/json"
          else none)
unfolding lookup
built_in k token = refl

-- A header has the value that the request gives it; else that of the configured defaults; else
-- the bearer token or the content type of the program; else none.
pub lookup-auth_headers :
    (k : String) (core : CoreHttpClient) (extra : Dict String String)
    → lookup k (auth_headers core extra)
      ≡ last_value k extra (
          last_value k core.config.default_headers (
            if k == "Authorization"
            then some ("Bearer " <> core.access_token)
            else if k == "Content-Type"
            then some "application/json"
            else none))
unfolding auth_headers
lookup-auth_headers k core extra =
    lookup-update_headers k _ extra
    ∙ ap (last_value k extra) (
        lookup-update_headers k _ core.config.default_headers
        ∙ ap (last_value k core.config.default_headers) (built_in k core.access_token))
