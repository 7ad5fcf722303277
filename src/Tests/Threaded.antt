-- ===== src/Tests/Threaded.antt =====
-- The theorems on the threaded client at concrete inputs.
use webex_kms_sdk.Base.{ℕ, ◌+◌, nat_eq, refl, true, false, none, some, [], ◌∷◌}
use webex_kms_sdk.Exceptions.{ok, err, value_error}
use webex_kms_sdk.Threaded.{AsyncClient, ThreadedSession}
use webex_kms_sdk.Threaded.Life.{phase}
use webex_kms_sdk.Threaded.Calls.{connects, closes, fetches, perform, Specified, perform-Specified}
use webex_kms_sdk.Threaded.Leak.{performed, IsLeaked, close_loop_thread}
use webex_kms_sdk.Tests.Fixtures.{toy_key}

-- A client that counts its calls.
abbrev toy_webex : AsyncClient ℕ
toy_webex = record {
  create = λ token config. ok 0;
  set_custom_websocket_url = λ url n. ok n;
  connect = λ n. (ok tt, n + 1);
  aclose = λ n. (ok tt, n + 1);
  get_key = λ key_uri n. (ok toy_key, n + 1);
  decrypt_text = λ key_uri text n. (err (value_error "ciphertext is required"), n);
}

abbrev fresh_session : ThreadedSession ℕ
fresh_session = record {
  facade = record {
    access_token = "token";
    config = none;
    custom_websocket_url = "";
    thread = none;
    loop = none;
    loop_thread_id = none;
    client = none;
    startup_error = none;
    connected = false;
    closed = false;
  };
  alive = [];
  next_thread = 1;
}

-- A client whose thread, 1, is alive.
abbrev open_session : ThreadedSession ℕ
open_session = record {
  facade = record fresh_session.facade {
    thread = some 1;
    loop = some 1;
    loop_thread_id = some 1;
    client = some 0;
    connected = true;
  };
  alive = 1 ∷ [];
  next_thread = 2;
}

perform-Specified_example :
    Specified toy_webex
      (connects 0)
      fresh_session
      (phase fresh_session)
      (perform toy_webex (connects 0) fresh_session).0
      (phase (perform toy_webex (connects 0) fresh_session).1)
perform-Specified_example = perform-Specified toy_webex (connects 0) fresh_session

close_loop_thread_example :
    IsLeaked
      (performed toy_webex (closes 1 ∷ closes 0 ∷ fetches 0 "kms://a/keys/1" ∷ []) open_session)
unfolding nat_eq
close_loop_thread_example =
    close_loop_thread toy_webex 1 (closes 0 ∷ fetches 0 "kms://a/keys/1" ∷ []) open_session refl
      refl refl
