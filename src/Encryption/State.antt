-- ===== src/Encryption/State.antt =====
-- The state of `EncryptionClient` of `src/webex_kms_sdk/encryption.py`. A future is named by a
-- number: the pending table and the call that waits share it.
use webex_kms_sdk.Base.{
  ℕ, ◌+◌, String, Bool, true, false, Option, none, some, List, [], ◌∷◌, string_eq, nat_eq,
  if◌then◌else◌,
}
use webex_kms_sdk.Dict.{Dict, insert, erase}
use webex_kms_sdk.Number.{Bytes}
use webex_kms_sdk.Text.{nonempty, or_text}
use webex_kms_sdk.Models.Jwk.{Key}
use webex_kms_sdk.Encryption.Crypto.{EcPrivateKey}

pub record EcdhContext : Type 0 where
  pub local_private_key : EcPrivateKey
  pub shared_secret : Bytes
  pub ecdh_key_uri : String
  pub kms_cluster : String
  pub created_at : ℕ

pub data FutureState : Type 0 where
  waiting : FutureState
  resolved : Bytes → FutureState
  cancelled : FutureState

-- `PendingKMSRequest`
pub record PendingRequest : Type 0 where
  pub future : ℕ
  pub ecdh_private_key : Option EcPrivateKey

pub record EncryptionClient : Type 0 where
  pub key_cache : Dict String Key
  pub inflight_keys : Dict String ℕ
  pub pending_requests : Dict String PendingRequest
  pub ecdh_context : Option EcdhContext
  pub device_url : String
  pub user_id : String
  pub futures : Dict ℕ FutureState
  pub next_future : ℕ

-- `EncryptionClient.__init__`
abbrev pub initial_client : EncryptionClient
initial_client = record {
  key_cache = [];
  inflight_keys = [];
  pending_requests = [];
  ecdh_context = none;
  device_url = "";
  user_id = "";
  futures = [];
  next_future = 0;
}

-- `EncryptionClient.set_device_info`
unfoldable pub set_device_info : String → String → EncryptionClient → EncryptionClient
set_device_info device_url user_id c = record c { device_url = device_url; user_id = user_id }

-- `EncryptionClient._get_client_id`
unfoldable pub get_client_id : EncryptionClient → String
get_client_id c = or_text c.device_url "webex-kms-sdk-client"

-- `EncryptionClient.cache_key`, of a key
unfoldable pub cache_key : Key → EncryptionClient → EncryptionClient
cache_key key c =
    if nonempty key.uri then record c { key_cache = insert key.uri key c.key_cache } else c

-- `cache_key(k)` for each key of a list
unfoldable pub cache_keys : List Key → EncryptionClient → EncryptionClient
cache_keys [] c = c
cache_keys (key ∷ keys) c = cache_keys keys (cache_key key c)

-- `not future.done()`. A future that was never made is not waited for.
abbrev pub is_waiting : Option FutureState → Bool
is_waiting (some waiting) = true
is_waiting _ = false

-- `EncryptionClient._register_pending_request`, with the new future
unfoldable pub register_pending_request :
    String → Option EcPrivateKey → EncryptionClient → ℕ × EncryptionClient
register_pending_request request_id private_key c =
    let future = c.next_future in
    (
      future,
      record c {
        pending_requests =
            insert request_id (record { future = future; ecdh_private_key = private_key })
              c.pending_requests;
        futures = insert future waiting c.futures;
        next_future = future + 1;
      },
    )

-- `EncryptionClient._unregister_pending_request`
unfoldable pub unregister_pending_request : String → EncryptionClient → EncryptionClient
unregister_pending_request request_id c = record c {
  pending_requests = erase request_id c.pending_requests;
}
