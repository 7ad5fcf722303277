-- ===== src/Tests/Sharing.antt =====
-- The theorems on callers of `get_key` at once, at concrete inputs.
use webex_kms_sdk.Base.{ℕ, ◌≡◌, refl, some, [], string_eq, nat_eq}
use webex_kms_sdk.Text.{strip_prefix, split_once}
use webex_kms_sdk.Dict.{lookup, insert}
use webex_kms_sdk.Encryption.State.{initial_client}
use webex_kms_sdk.Encryption.Uri.{parse_kms_uri}
use webex_kms_sdk.Encryption.Sharing.{Callers, ask, join_or_create, Steps, done, then_step, asks}
use webex_kms_sdk.Encryption.Sharing.Shared.{Steps-shared}
use webex_kms_sdk.Encryption.Sharing.Progress.{IsAnswered, Steps-IsAnswered}
use webex_kms_sdk.Tests.Fixtures.{toy_python, toy_crypto, toy_world, toy_core}

abbrev no_callers : Callers
no_callers = record {
  client = initial_client;
  running = [];
  outcomes = [];
  waiting = [];
  answers = [];
  next_task = 0;
}

-- Callers 1 and 2 ask for the same key.
abbrev two_callers : Callers
two_callers =
    ask toy_python toy_crypto toy_world toy_core 2 "kms://a/keys/1"
      (ask toy_python toy_crypto toy_world toy_core 1 "kms://a/keys/1" no_callers)

two_ask : Steps toy_python toy_crypto toy_world toy_core no_callers two_callers
two_ask = then_step (then_step done (asks 1 "kms://a/keys/1")) (asks 2 "kms://a/keys/1")

Steps-shared_example :
    Path ℕ 0 0 × (lookup "kms://a/keys/1" two_callers.client.inflight_keys ≡ some 0)
unfolding ask lookup insert join_or_create parse_kms_uri string_eq nat_eq strip_prefix split_once
Steps-shared_example =
    Steps-shared toy_python toy_crypto toy_world toy_core no_callers two_callers 0 0
      "kms://a/keys/1" refl two_ask refl refl

Steps-IsAnswered_example :
    IsAnswered toy_python toy_crypto toy_world toy_core two_callers 2 0 "kms://a/keys/1"
unfolding ask lookup insert join_or_create parse_kms_uri string_eq nat_eq strip_prefix split_once
Steps-IsAnswered_example =
    Steps-IsAnswered toy_python toy_crypto toy_world toy_core no_callers two_callers 2 0
      "kms://a/keys/1" refl refl two_ask refl
