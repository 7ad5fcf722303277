-- ===== src/Mercury.antt =====
-- The handler registry and the dispatch of events of `src/webex_kms_sdk/mercury.py`. A handler is a
-- number, its identity; dispatch gives the calls that are scheduled, in order.
pub mod Handlers
pub mod Client
pub mod Authentication
pub mod Connection
pub mod Loops
pub mod Growth
pub mod Attempt
pub mod Delays
pub mod Backoff
pub mod Live
pub mod Steps
pub mod Runs
pub mod Lost
use webex_kms_sdk.Base.{
  ℕ, String, ◌<>◌, Bool, true, false, not, ◌||◌, Option, none, some, List, [], ◌∷◌, ◌++◌, map, ◌==◌,
  string_eq, nat_eq, is_empty, if◌then◌else◌,
}
use webex_kms_sdk.Dict.{Dict, lookup, insert, erase}
use webex_kms_sdk.Text.{nonempty}
use webex_kms_sdk.Models.Event.{MercuryEvent, apply_header_overrides, extract_metadata}

abbrev pub Registry : Type 0
Registry = Dict String (List ℕ)

-- `self._handlers.get(event_type, [])`
abbrev pub listed : Option (List ℕ) → List ℕ
listed none = []
listed (some handlers) = handlers

unfoldable pub handlers_for : String → Registry → List ℕ
handlers_for event_type registry = listed (lookup event_type registry)

-- `MercuryClient.on`
unfoldable pub on : String → Option ℕ → Registry → Registry
on event_type none registry = registry
on event_type (some handler) registry =
    insert event_type (handlers_for event_type registry ++ (handler ∷ [])) registry

-- `[entry for entry in handlers if entry is not handler]`
unfoldable pub without : ℕ → List ℕ → List ℕ
without handler [] = []
without handler (entry ∷ entries) =
    let rest = without handler entries in if entry == handler then rest else entry ∷ rest

-- An entry that has become empty is removed.
abbrev pub store_handlers : String → List ℕ → Registry → Registry
store_handlers event_type [] registry = erase event_type registry
store_handlers event_type (h ∷ hs) registry = insert event_type (h ∷ hs) registry

-- `MercuryClient.off`
unfoldable pub off : String → ℕ → Registry → Registry
off event_type handler registry =
    if is_empty (handlers_for event_type registry)
    then registry
    else store_handlers event_type (without handler (handlers_for event_type registry)) registry

-- `MercuryClient.clear_handlers`
unfoldable pub clear_handlers : String → Registry → Registry
clear_handlers event_type registry = erase event_type registry

-- The calls of the handlers with an event.
abbrev pub calls : List ℕ → MercuryEvent → List (ℕ × MercuryEvent)
calls handlers ev = map (λ h. (h, ev)) handlers

-- `MercuryClient._dispatch_event`
unfoldable pub dispatch_event : Registry → MercuryEvent → List (ℕ × MercuryEvent)
dispatch_event registry ev =
    let activity_handlers =
      if ev.event_type == "conversation.activity"
      then (if nonempty ev.activity_type
          then handlers_for ("activity:" <> ev.activity_type) registry
          else [])
      else [] in
    calls (handlers_for ev.event_type registry ++ (activity_handlers ++ handlers_for "*" registry))
      ev

-- `MercuryClient._handle_conversation_activity`
unfoldable pub handle_conversation_activity : Registry → MercuryEvent → List (ℕ × MercuryEvent)
handle_conversation_activity registry ev =
    if ev.activity_type == "post" || ev.activity_type == "share"
    then calls (handlers_for "message.created" registry)
        (record ev { event_type = "message.created" })
    else []

abbrev pub is_state_event : String → Bool
is_state_event t = t == "mercury.buffer_state" || t == "mercury.registration_status"

-- `MercuryClient.process_event`
unfoldable pub process_event : Registry → MercuryEvent → List (ℕ × MercuryEvent)
process_event registry raw =
    let ev = extract_metadata (apply_header_overrides raw) in
    if is_state_event ev.event_type
    then []
    else if ev.event_type == "conversation.activity"
    then handle_conversation_activity registry ev ++ dispatch_event registry ev
    else dispatch_event registry ev
