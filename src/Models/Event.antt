-- ===== src/Models/Event.antt =====
-- `MercuryEvent` of `src/webex_kms_sdk/models.py`.
use webex_kms_sdk.Base.{String, Bool, Option, none, some, ◌==◌, string_eq, if◌then◌else◌}
use webex_kms_sdk.Number.{ℤ}
use webex_kms_sdk.Exceptions.{Result, ok, bind_result}
use webex_kms_sdk.Json.{
  Json, Fields, end, Python, get, truthy, as_dict, as_text, text_or_empty, dict_or_empty,
  int_or_zero,
}

pub record MercuryEvent : Type 0 where
  pub id : String
  pub payload : Fields
  pub timestamp : ℤ
  pub tracking_id : String
  pub alert_type : String
  pub sequence_number : ℤ
  pub filter_message : Bool
  pub ws_write_timestamp : ℤ
  pub headers : Fields
  pub event_type : String
  pub activity_type : String
  pub websocket_error : String
  pub resource_type : String
  pub actor_id : String
  pub org_id : String
  pub resource : Fields
  pub raw : Fields

-- `x = v` if v is a `str`, else x stays.
unfoldable pub override : Json → String → String
override v old = elim (as_text v) [ none ↦ old | some s ↦ s ]

-- `MercuryEvent.apply_header_overrides`. On empty headers both lookups miss, as the early return.
unfoldable pub apply_header_overrides : MercuryEvent → MercuryEvent
unfolding get override
apply_header_overrides ev = record ev {
  tracking_id = override (get "trackingId" ev.headers) ev.tracking_id;
  id = override (get "id" ev.headers) ev.id;
}

-- The part of `extract_metadata` on `activity["actor"]`.
unfoldable pub extract_actor : Option Fields → MercuryEvent → MercuryEvent
unfolding get override
extract_actor none ev = ev
extract_actor (some actor) ev = record ev {
  actor_id = override (get "id" actor) ev.actor_id;
  org_id = override (get "orgId" actor) ev.org_id;
}

-- The part of `extract_metadata` on `activity["object"]`.
unfoldable pub extract_object : Option Fields → MercuryEvent → MercuryEvent
unfolding get override
extract_object none ev = ev
extract_object (some obj) ev = record ev {
  resource = obj;
  resource_type = override (get "objectType" obj) ev.resource_type;
}

-- The part of `extract_metadata` on `self.data["activity"]`.
unfoldable pub extract_activity : Option Fields → MercuryEvent → MercuryEvent
unfolding get override extract_actor extract_object
extract_activity none ev = ev
extract_activity (some activity) ev =
    let verbed = record ev { activity_type = override (get "verb" activity) ev.activity_type } in
    extract_object (as_dict (get "object" activity))
      (extract_actor (as_dict (get "actor" activity)) verbed)

-- `MercuryEvent.extract_metadata`
unfoldable pub extract_metadata : MercuryEvent → MercuryEvent
unfolding get override extract_activity string_eq
extract_metadata ev =
    let typed = record ev { event_type = override (get "eventType" ev.payload) ev.event_type } in
    if typed.event_type == "conversation.activity"
    then extract_activity (as_dict (get "activity" ev.payload)) typed
    else typed

-- `MercuryEvent.from_dict`
unfoldable pub event_from_dict : Python → Fields → Result MercuryEvent
unfolding get text_or_empty dict_or_empty int_or_zero apply_header_overrides extract_metadata
event_from_dict py fs = bind_result (dict_or_empty py (get "data" fs)) λ payload.
    bind_result (int_or_zero py (get "timestamp" fs)) λ timestamp.
      bind_result (int_or_zero py (get "sequenceNumber" fs)) λ sequence_number.
        bind_result (int_or_zero py (get "wsWriteTimestamp" fs)) λ ws_write_timestamp.
          bind_result (dict_or_empty py (get "headers" fs)) λ headers.
            let event : MercuryEvent = record {
              id = text_or_empty py (get "id" fs);
              payload = payload;
              timestamp = timestamp;
              tracking_id = text_or_empty py (get "trackingId" fs);
              alert_type = text_or_empty py (get "alertType" fs);
              sequence_number = sequence_number;
              filter_message = truthy (get "filterMessage" fs);
              ws_write_timestamp = ws_write_timestamp;
              headers = headers;
              event_type = "";
              activity_type = "";
              websocket_error = "";
              resource_type = "";
              actor_id = "";
              org_id = "";
              resource = end;
              raw = fs;
            } in
            ok (extract_metadata (apply_header_overrides event))
