-- ===== src/Tests/Fixtures.antt =====
-- A small stand-in for each parameter of the model, and the data of the tests.
use webex_kms_sdk.Base.{ℕ, String, ◌<>◌, true, false, none, some, [], ◌∷◌, eqb}
use webex_kms_sdk.Number.{pos, Bytes}
use webex_kms_sdk.Exceptions.{Result, ok, err, json_decode_error, value_error, foreign}
use webex_kms_sdk.Json.{Json, integer, string, array, object, nil, cons, Fields, end, field, Python}
use webex_kms_sdk.Models.Jwk.{Jwk, no_jwk, Key}
use webex_kms_sdk.Config.{default_config}
use webex_kms_sdk.Http.{Response}
use webex_kms_sdk.Core.{CoreHttpClient}
use webex_kms_sdk.Encryption.Base64.{codes}
use webex_kms_sdk.Encryption.Crypto.{Crypto, Params, EcPrivateKey}
use webex_kms_sdk.Encryption.State.{
  EcdhContext, waiting, PendingRequest, EncryptionClient, initial_client,
}
use webex_kms_sdk.Encryption.Session.{Session, World}

-- The answer of the KMS to a retrieve request, and an answer with a number for `keys`.
abbrev pub key_fields : Fields
key_fields =
    field "uri" (string "kms://a/keys/1")
      (field "jwk" (object (field "kty" (string "oct") (field "k" (string "AQID") end))) end)

abbrev pub answer_fields : Fields
answer_fields =
    field "requestId" (string "r1")
      (field "status" (string "success") (field "key" (object key_fields) end))

abbrev pub malformed_fields : Fields
malformed_fields = field "keys" (integer (pos 1)) end

-- Bytes that start with 77 are the malformed answer, none are no JSON, and the others the answer.
abbrev pub toy_loads_bytes : Bytes → Result Json
toy_loads_bytes [] = err (json_decode_error "Expecting value")
toy_loads_bytes (b ∷ _) = elim (eqb b 77) [
  | true ↦ ok (object malformed_fields)
  | false ↦ ok (object answer_fields)
]

abbrev pub toy_python : Python
toy_python = record {
  repr = λ v. "";
  quoted = λ s. "'" <> (s <> "'");
  dict_of = λ xs. err (value_error "dictionary update sequence");
  int_of = λ s. err (value_error "invalid literal for int()");
  loads = λ s. err (json_decode_error "Expecting value");
  loads_bytes = toy_loads_bytes;
  encode = codes;
  decode = λ bs. ok "";
  decode_ignore = λ bs. "";
  dumps = λ v. "{}";
  float_of = λ s. none;
}

abbrev pub toy_deserialize : String → Params → Result Bytes
toy_deserialize String.[] key = err (foreign "Invalid format")
toy_deserialize (String.◌∷◌ _ _) key = ok (b'{' ∷ [])

abbrev pub toy_crypto : Crypto
toy_crypto = record {
  deserialize = toy_deserialize;
  serialize = λ payload header key. ok "wrapped";
  ec_public_key = λ x y. ok (x, y);
  exchange = λ key server. ok (1 ∷ []);
  hkdf = λ bs. bs;
  rsa_public_key = λ e n. ok (record { n = n; e = e });
}

abbrev pub toy_private_key : EcPrivateKey
toy_private_key = record { x = 1; y = 2; private_value = 3 }

abbrev pub toy_world : World
toy_world = record {
  clock = λ n. n;
  random = λ n. n ∷ [];
  key_pair = λ n. toy_private_key;
  arrivals = λ n. [];
  join = λ n task s. (err (value_error "no task"), s);
}

abbrev pub toy_core : CoreHttpClient
toy_core = record { access_token = "token"; config = default_config }

abbrev pub toy_context : EcdhContext
toy_context = record {
  local_private_key = toy_private_key;
  shared_secret = 7 ∷ [];
  ecdh_key_uri = "";
  kms_cluster = "kms-a.wbx2.com";
  created_at = 0;
}

abbrev pub toy_jwk : Jwk
toy_jwk = record no_jwk { kty = "oct"; k = "AQID" }

abbrev pub toy_key : Key
toy_key = record { uri = "kms://a/keys/1"; jwk = toy_jwk }

-- A client with one request that waits.
abbrev pub toy_pending : PendingRequest
toy_pending = record { future = 0; ecdh_private_key = none }

abbrev pub waiting_client : EncryptionClient
waiting_client = record initial_client {
  pending_requests = ("r1", toy_pending) ∷ [];
  futures = (0, waiting) ∷ [];
  next_future = 1;
}

abbrev pub reply : ℕ → Result Json → Response
reply status json = record {
  status_code = status;
  reason_phrase = "";
  headers = [];
  text = "";
  content = [];
  json = json;
}

-- A client that has a context, before a network that answers one KMS message.
abbrev pub ready_client : EncryptionClient
ready_client = record initial_client { ecdh_context = some toy_context; user_id = "me" }

abbrev pub kms_reply : Response
kms_reply = reply 200 (ok (object (field "kmsMessages" (array (cons (string "jwe") nil)) end)))

abbrev pub ready_session : Session
ready_session = record {
  client = ready_client;
  net = record { replies = ok kms_reply ∷ []; log = [] };
  ticks = 1;
}
