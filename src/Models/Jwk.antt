-- ===== src/Models/Jwk.antt =====
-- `JWK` and `Key` of `src/webex_kms_sdk/models.py`.
pub mod Laws
use webex_kms_sdk.Base.{
  ℕ, String, ◌<>◌, Bool, true, false, List, [], ◌∷◌, ◌==◌, string_eq, if◌then◌else◌,
}
use webex_kms_sdk.Dict.{Dict, insert}
use webex_kms_sdk.Number.{Bytes}
use webex_kms_sdk.Exceptions.{Result, ok, err, value_error, bind_result}
use webex_kms_sdk.Text.{nonempty}
use webex_kms_sdk.Json.{
  Fields, end, field, string, object, Python, get, text_or_empty, dict_or_empty,
}

pub record Jwk : Type 0 where
  pub kty : String
  pub k : String
  pub crv : String
  pub x : String
  pub y : String
  pub d : String
  pub n : String
  pub e : String
  pub kid : String
  pub alg : String

pub record Key : Type 0 where
  pub uri : String
  pub jwk : Jwk

-- The class defaults, `JWK()`.
abbrev pub no_jwk : Jwk
no_jwk = record {
  kty = "";
  k = "";
  crv = "";
  x = "";
  y = "";
  d = "";
  n = "";
  e = "";
  kid = "";
  alg = "";
}

-- The loop over the pairs of names and values: only values that are not empty are stored.
unfoldable pub add_populated : List (String × String) → Dict String String → Dict String String
add_populated [] result = result
add_populated ((name, value) ∷ pairs) result =
    add_populated pairs (if nonempty value then insert name value result else result)

-- The pairs of names and values of `JWK.to_dict`, but for `kty`.
abbrev pub jwk_pairs : Bool → Jwk → List (String × String)
jwk_pairs include_private j =
    ("k", j.k)
    ∷ ("crv", j.crv)
    ∷ ("x", j.x)
    ∷ ("y", j.y)
    ∷ ("d", (if include_private then j.d else ""))
    ∷ ("n", j.n)
    ∷ ("e", j.e)
    ∷ ("kid", j.kid)
    ∷ ("alg", j.alg)
    ∷ []

-- `JWK.to_dict`
unfoldable pub jwk_to_dict : Bool → Jwk → Dict String String
jwk_to_dict include_private j = add_populated (jwk_pairs include_private j) (("kty", j.kty) ∷ [])

-- `JWK.symmetric_key`, with `_b64url_decode` as an argument.
unfoldable pub symmetric_key : Python → (String → Result Bytes) → Jwk → Result Bytes
symmetric_key py b64url_decode j =
    if j.kty == "oct"
    then if nonempty j.k
      then b64url_decode j.k
      else err (value_error "symmetric key value (k) is empty")
    else err (
        value_error (("key type is " <> py.quoted j.kty) <> ", expected \"oct\" for symmetric key"))

-- A dict of texts, as `json` sees it.
unfoldable pub text_fields : Dict String String → Fields
text_fields [] = end
text_fields ((k, v) ∷ d) = field k (string v) (text_fields d)

-- `Key.to_dict`
unfoldable pub key_to_dict : Key → Fields
unfolding text_fields jwk_to_dict
key_to_dict key =
    field "uri" (string key.uri) (field "jwk" (object (text_fields (jwk_to_dict true key.jwk))) end)

module _ (py : Python) where
  -- `JWK.from_dict`
  unfoldable pub jwk_from_dict : Fields → Jwk
  unfolding get text_or_empty
  jwk_from_dict fs = record {
    kty = text_or_empty py (get "kty" fs);
    k = text_or_empty py (get "k" fs);
    crv = text_or_empty py (get "crv" fs);
    x = text_or_empty py (get "x" fs);
    y = text_or_empty py (get "y" fs);
    d = text_or_empty py (get "d" fs);
    n = text_or_empty py (get "n" fs);
    e = text_or_empty py (get "e" fs);
    kid = text_or_empty py (get "kid" fs);
    alg = text_or_empty py (get "alg" fs);
  }

  -- `Key.from_dict`
  unfoldable pub key_from_dict : Fields → Result Key
  unfolding jwk_from_dict dict_or_empty
  key_from_dict fs =
      bind_result (dict_or_empty py (get "jwk" fs))
        λ jwk. ok (record { uri = text_or_empty py (get "uri" fs); jwk = jwk_from_dict jwk })
