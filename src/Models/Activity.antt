-- ===== src/Models/Activity.antt =====
-- `ConversationObject` and `Activity` of `src/webex_kms_sdk/models.py`.
use webex_kms_sdk.Base.{String, Option, none}
use webex_kms_sdk.Exceptions.{Result, ok, bind_result}
use webex_kms_sdk.Json.{Fields, Python, get, text_or_empty, dict_or_empty}

pub record ConversationObject : Type 0 where
  pub object_type : String
  pub display_name : String
  pub content : String
  pub content_type : String
  pub id : String
  pub url : String
  pub published : String
  pub raw : Fields

pub record Activity : Type 0 where
  pub id : String
  pub object_type : String
  pub url : String
  pub published : String
  pub verb : String
  pub actor : Fields
  pub object : Fields
  pub target : Fields
  pub client_temp_id : String
  pub encryption_key_url : String
  pub content : String
  pub decrypted_object : Option ConversationObject
  pub message_type : String
  pub raw_data : Fields

module _ (py : Python) where
  -- `ConversationObject.from_dict`
  unfoldable pub object_from_dict : Fields → ConversationObject
  unfolding get text_or_empty
  object_from_dict fs = record {
    object_type = text_or_empty py (get "objectType" fs);
    display_name = text_or_empty py (get "displayName" fs);
    content = text_or_empty py (get "content" fs);
    content_type = text_or_empty py (get "contentType" fs);
    id = text_or_empty py (get "id" fs);
    url = text_or_empty py (get "url" fs);
    published = text_or_empty py (get "published" fs);
    raw = fs;
  }

  -- `Activity.from_dict`
  unfoldable pub activity_from_dict : Fields → Fields → Result Activity
  unfolding get text_or_empty dict_or_empty
  activity_from_dict fs raw_data = bind_result (dict_or_empty py (get "actor" fs)) λ actor.
      bind_result (dict_or_empty py (get "object" fs)) λ object.
        bind_result (dict_or_empty py (get "target" fs)) λ target. ok (record {
          id = text_or_empty py (get "id" fs);
          object_type = text_or_empty py (get "objectType" fs);
          url = text_or_empty py (get "url" fs);
          published = text_or_empty py (get "published" fs);
          verb = text_or_empty py (get "verb" fs);
          actor = actor;
          object = object;
          target = target;
          client_temp_id = text_or_empty py (get "clientTempId" fs);
          encryption_key_url = text_or_empty py (get "encryptionKeyUrl" fs);
          content = "";
          decrypted_object = none;
          message_type = text_or_empty py (get "verb" fs);
          raw_data = raw_data;
        })
