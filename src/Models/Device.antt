-- ===== src/Models/Device.antt =====
-- `Device` of `src/webex_kms_sdk/models.py`.
use webex_kms_sdk.Base.{String}
use webex_kms_sdk.Json.{Fields, Python, get, text_or_empty}

pub record Device : Type 0 where
  pub url : String
  pub web_socket_url : String
  pub user_id : String
  pub device_type : String
  pub raw : Fields
  pub etag : String

-- `Device.from_dict`
unfoldable pub device_from_dict : Python → Fields → String → Device
unfolding get text_or_empty
device_from_dict py fs etag = record {
  url = text_or_empty py (get "url" fs);
  web_socket_url = text_or_empty py (get "webSocketUrl" fs);
  user_id = text_or_empty py (get "userId" fs);
  device_type = text_or_empty py (get "deviceType" fs);
  raw = fs;
  etag = etag;
}
