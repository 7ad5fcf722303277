-- ===== src/Models/KmsMessage.antt =====
-- `KMSMessage` of `src/webex_kms_sdk/models.py`.
use webex_kms_sdk.Base.{
  String, Bool, false, ◌||◌, Option, none, some, List, [], ◌∷◌, map, ◌==◌, string_eq,
}
use webex_kms_sdk.Number.{int_is_either}
use webex_kms_sdk.Exceptions.{Result, ok, bind_result}
use webex_kms_sdk.Json.{
  Json, integer, float, string, Fields, Python, get, as_dict, dicts, iterate, truncate, to_text,
  text_or_empty, dict_or_empty,
}
use webex_kms_sdk.Models.Jwk.{Jwk, Key, jwk_from_dict, key_from_dict}

pub record KmsMessage : Type 0 where
  pub method : String
  pub uri : String
  pub resource_uri : String
  pub request_id : String
  pub status : Json
  pub key : Option Key
  pub keys : List Key
  pub user_ids : List String
  pub key_uris : List String
  pub resource : Fields
  pub jwk : Option Jwk
  pub raw : Fields

-- `KMSMessage.is_success`. A `bool` is an `int` in Python, and neither 0 nor 1 is a success.
unfoldable pub is_success : KmsMessage → Result Bool
unfolding string_eq truncate
is_success m = elim m.status [
  | string s ↦ ok (s == "success" || (s == "200" || s == "201"))
  | integer z ↦ ok (int_is_either z 200 201)
  | float x ↦ bind_result (truncate x) (λ z. ok (int_is_either z 200 201))
  | _ ↦ ok false
]

module _ (py : Python) where
  -- `Key.from_dict(v) if isinstance(v, dict) else None`
  unfoldable pub optional_key : Option Fields → Result (Option Key)
  unfolding key_from_dict
  optional_key none = ok none
  optional_key (some fs) = bind_result (key_from_dict py fs) (λ k. ok (some k))

  -- `[Key.from_dict(k) for k in …]`
  unfoldable pub keys_from : List Fields → Result (List Key)
  unfolding key_from_dict
  keys_from [] = ok []
  keys_from (fs ∷ more) =
      bind_result (key_from_dict py fs) λ k. bind_result (keys_from more) λ ks. ok (k ∷ ks)

  -- `JWK.from_dict(v) if isinstance(v, dict) else None`
  unfoldable pub optional_jwk : Option Fields → Option Jwk
  unfolding jwk_from_dict
  optional_jwk none = none
  optional_jwk (some fs) = some (jwk_from_dict py fs)

  -- `KMSMessage.from_dict`
  unfoldable pub message_from_dict : Fields → Result KmsMessage
  unfolding optional_key keys_from optional_jwk iterate dicts to_text get
  message_from_dict fs = bind_result (optional_key (as_dict (get "key" fs))) λ key.
      bind_result (iterate (get "keys" fs)) λ keys_data.
        bind_result (keys_from (dicts keys_data)) λ keys.
          bind_result (iterate (get "userIds" fs)) λ user_ids.
            bind_result (iterate (get "keyUris" fs)) λ key_uris.
              bind_result (dict_or_empty py (get "resource" fs)) λ resource. ok (record {
                method = text_or_empty py (get "method" fs);
                uri = text_or_empty py (get "uri" fs);
                resource_uri = text_or_empty py (get "resourceUri" fs);
                request_id = text_or_empty py (get "requestId" fs);
                status = get "status" fs;
                key = key;
                keys = keys;
                user_ids = map (to_text py) user_ids;
                key_uris = map (to_text py) key_uris;
                resource = resource;
                jwk = optional_jwk (as_dict (get "jwk" fs));
                raw = fs;
              })
