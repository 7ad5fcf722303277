-- ===== src/Encryption/Kms/Requests.antt =====
-- The requests for user and cluster metadata, and the sending of one KMS message, of
-- `src/webex_kms_sdk/encryption.py`.
use webex_kms_sdk.Base.{
  ℕ, ◌+◌, String, ◌<>◌, Bool, Option, none, some, List, [], ◌∷◌, map, eqb, ltb, string_eq,
  if◌then◌else◌,
}
use webex_kms_sdk.Number.{decimal, seconds}
use webex_kms_sdk.Exceptions.{kms_protocol_error, Result, ok, err, Action, and_then, bind_result}
use webex_kms_sdk.Text.{nonempty}
use webex_kms_sdk.Json.{
  Json, object, string, array, Fields, end, field, Python, expect_dict, get, iterate, from_list,
  to_text, text_or_empty,
}
use webex_kms_sdk.Models.Jwk.{Key}
use webex_kms_sdk.Http.{Response}
use webex_kms_sdk.Core.{CoreHttpClient}
use webex_kms_sdk.Errors.{api_error_from_response}
use webex_kms_sdk.Encryption.Crypto.{Crypto}
use webex_kms_sdk.Encryption.Identity.{decode_webex_id}
use webex_kms_sdk.Encryption.State.{EcdhContext}
use webex_kms_sdk.Encryption.Session.{Session, World, on_client, request}

-- `KMSInfo`
pub record KmsInfo : Type 0 where
  pub kms_cluster : String
  pub rsa_public_key : Json

-- `ECDH_TTL_SECONDS`
abbrev pub ecdh_ttl : ℕ
ecdh_ttl = seconds 3600

-- `time.time() - created_at < ECDH_TTL_SECONDS`, with the exact difference
abbrev pub is_fresh : ℕ → EcdhContext → Bool
is_fresh now context = ltb now (context.created_at + ecdh_ttl)

-- `response.status_code != 200`, raised, and the dict of the body
abbrev pub dict_of_response : Python → Response → Result Fields
dict_of_response py r =
    if eqb r.status_code 200
    then bind_result r.json expect_dict
    else err (api_error_from_response py r)

-- The `client` field of a KMS request.
abbrev pub client_block : String → String → String → Json
client_block client_id user_id token = object (
    field "clientId" (string client_id) (
      field "credential"
        (object (field "userId" (string user_id) (field "bearer" (string token) end))) end))

abbrev pub with_destination : String → Fields → Fields
with_destination destination rest =
    if nonempty destination then field "destination" (string destination) rest else rest

-- `response_message.key.uri if … is not None else ""`
abbrev pub uri_of_key : Option Key → String
uri_of_key none = ""
uri_of_key (some key) = key.uri

module _ (py : Python) (crypto : Crypto) (world : World) (core : CoreHttpClient) where
  abbrev json_headers : List (String × String)
  json_headers = ("Accept", "application/json") ∷ []

  -- The URLs of the KMS service.
  abbrev pub kms_url : String → String
  kms_url path =
      "https://encryption-"
      <> (core.config.kms_default_cluster <> (".wbx2.com/encryption/api/v1/kms/" <> path))

  -- The user ID of a people/me response.
  abbrev pub user_id_of : Response → Result String
  user_id_of r = bind_result (dict_of_response py r) λ fs.
      let user_id = text_or_empty py (get "id" fs) in
      if nonempty user_id
      then ok user_id
      else err (kms_protocol_error "user ID is empty in people/me response")

  -- `self._user_id = user_id`, and the answer
  abbrev pub store_user_id : Result String → Action Session String
  store_user_id (err e) s = (err e, s)
  store_user_id (ok user_id) s = (ok user_id, on_client (λ c. record c { user_id = user_id }) s)

  -- The user ID that people/me gives.
  unfoldable pub fetch_user_id : Action Session String
  fetch_user_id s =
      and_then
        (request py crypto world core "GET" "https://webexapis.com/v1/people/me" none json_headers
          s)
        (λ r. store_user_id (user_id_of r))

  -- `EncryptionClient._get_user_id`
  unfoldable pub get_user_id : Action Session String
  get_user_id s = if nonempty s.client.user_id then (ok s.client.user_id, s) else fetch_user_id s

  abbrev pub kms_info_of : Fields → KmsInfo
  kms_info_of fs = record {
    kms_cluster = text_or_empty py (get "kmsCluster" fs);
    rsa_public_key = get "rsaPublicKey" fs;
  }

  -- `EncryptionClient._get_kms_info`
  unfoldable pub get_kms_info : String → Action Session KmsInfo
  get_kms_info user_id s =
      and_then
        (request py crypto world core "GET" (kms_url (decode_webex_id py user_id)) none json_headers
          s)
        (λ r t. (bind_result (dict_of_response py r) (λ fs. ok (kms_info_of fs)), t))

  -- The messages of the response to a KMS message: `none` where they come later.
  abbrev pub kms_messages_of : Response → Result (Option (List String))
  kms_messages_of r =
      if eqb r.status_code 202
      then ok none
      else if eqb r.status_code 200
      then bind_result r.json (λ v.
        bind_result (expect_dict v) λ fs.
          bind_result (iterate (get "kmsMessages" fs)) (λ vs. ok (some (map (to_text py) vs))))
      else err (
          kms_protocol_error
            ("KMS request failed with status " <> (decimal r.status_code <> (": " <> r.text))))

  -- `EncryptionClient._send_kms_message`
  unfoldable pub send_kms_message : String → String → Action Session (Option (List String))
  send_kms_message wrapped destination s =
      let envelope =
        field "kmsMessages" (array (from_list (string wrapped ∷ [])))
          (with_destination destination end) in
      and_then
        (request py crypto world core "POST" (kms_url "messages") (some (object envelope)) [] s)
        (λ r t. (kms_messages_of r, t))
