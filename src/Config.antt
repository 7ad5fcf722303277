-- ===== src/Config.antt =====
-- `Config` of `src/webex_kms_sdk/config.py`. Times are whole multiples of the float unit and not
-- negative, so a natural number holds each; retry counts are not negative either.
use webex_kms_sdk.Base.{ℕ, String, Bool, false, []}
use webex_kms_sdk.Dict.{Dict}
use webex_kms_sdk.Number.{seconds}

pub record Config : Type 0 where
  pub base_url : String
  pub timeout : ℕ
  pub default_headers : Dict String String
  pub max_retries : ℕ
  pub retry_base_delay : ℕ
  pub wdm_url : String
  pub device_ephemeral : Bool
  pub device_ephemeral_ttl : ℕ
  pub mercury_force_close_delay : ℕ
  pub mercury_ping_interval : ℕ
  pub mercury_pong_timeout : ℕ
  pub mercury_backoff_time_max : ℕ
  pub mercury_backoff_time_reset : ℕ
  pub mercury_max_retries : ℕ
  pub mercury_initial_connection_max_retries : ℕ
  pub mercury_fallback_websocket_url : String
  pub kms_default_cluster : String
  pub kms_http_timeout : ℕ
  pub kms_response_timeout : ℕ
  pub disable_key_cache : Bool

-- `Config()`
abbrev pub default_config : Config
default_config = record {
  base_url = "https://webexapis.com/v1";
  timeout = seconds 30;
  default_headers = [];
  max_retries = 3;
  retry_base_delay = seconds 1;
  wdm_url = "https://wdm-a.wbx2.com/wdm/api/v1/devices";
  device_ephemeral = false;
  device_ephemeral_ttl = 86400;
  mercury_force_close_delay = seconds 10;
  mercury_ping_interval = seconds 30;
  mercury_pong_timeout = seconds 10;
  mercury_backoff_time_max = seconds 32;
  mercury_backoff_time_reset = seconds 1;
  mercury_max_retries = 3;
  mercury_initial_connection_max_retries = 5;
  mercury_fallback_websocket_url = "wss://mercury-connection-a.wbx2.com/mercury/device";
  kms_default_cluster = "a";
  kms_http_timeout = seconds 10;
  kms_response_timeout = seconds 30;
  disable_key_cache = false;
}
