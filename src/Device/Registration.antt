-- ===== src/Device/Registration.antt =====
-- Histories of calls of a device client, and what its accessors give.
use webex_kms_sdk.Base.{
  String, ℕ, ◌≡◌, refl, ap, ◌∙◌, inl, inr, Bool, true, false, Bool-cases, Option-cases, Option,
  none, some, List, [], ◌∷◌, is_some,
}
use webex_kms_sdk.Exceptions.{Exception, Result, ok, err, and_then}
use webex_kms_sdk.Json.{Python}
use webex_kms_sdk.Models.Device.{Device}
use webex_kms_sdk.Http.{Response, Net}
use webex_kms_sdk.Core.{CoreHttpClient}
use webex_kms_sdk.Device.{
  DeviceClient, initial_device, DeviceSession, DeviceWorld, begin_register, call_callbacks,
  finish_register, finish_reply, registration_reply, device_request, complete_register,
  register_from, register, unregister, refresh, ensure_registered, take_device, get_websocket_url,
  on_registered,
}
use webex_kms_sdk.Device.Laws.{
  IsSound, initial_device-IsSound, and_then-IsSound, register-IsSound, unregister-IsSound,
  refresh-IsSound, ensure_registered-IsSound, on_registered-IsSound,
}

-- The calls that change the client. Each accessor registers on demand.
pub data DeviceCall : Type 0 where
  registers unregisters refreshes reads : DeviceCall
  listens : ℕ → DeviceCall

module _ (py : Python) (world : DeviceWorld) (core : CoreHttpClient) where
  abbrev pub perform : DeviceCall → DeviceSession → DeviceSession
  perform registers s = (register py world core s).1
  perform unregisters s = (unregister py world core s).1
  perform refreshes s = (refresh py world core s).1
  perform reads s = (get_websocket_url py world core s).1
  perform (listens f) s = (on_registered py world core f s).1

  abbrev pub history : List DeviceCall → DeviceSession → DeviceSession
  history [] s = s
  history (call ∷ calls) s = history calls (perform call s)

  take_device-IsSound :
      {A : Type 0} (f : Device → A) (o : Option Device) (t : DeviceSession)
      → IsSound py t.client
      → IsSound py (take_device py world core f o t).1.client
  take_device-IsSound f none t h = h
  take_device-IsSound f (some d) t h = h

  perform-IsSound :
      (call : DeviceCall) (s : DeviceSession)
      → IsSound py s.client
      → IsSound py (perform call s).client
  unfolding get_websocket_url
  perform-IsSound registers s h = register-IsSound py world core s h
  perform-IsSound unregisters s h = unregister-IsSound py world core s h
  perform-IsSound refreshes s h = refresh-IsSound py world core s h
  perform-IsSound reads s h =
      and_then-IsSound py world core (ensure_registered py world core s)
        (λ _ t. take_device py world core (λ d. d.web_socket_url) t.client.device t)
        (ensure_registered-IsSound py world core s h)
        (λ _ t. take_device-IsSound (λ d. d.web_socket_url) t.client.device t)
  perform-IsSound (listens f) s h = on_registered-IsSound py world core f s h

  history-IsSound :
      (calls : List DeviceCall) (s : DeviceSession)
      → IsSound py s.client
      → IsSound py (history calls s).client
  history-IsSound [] s h = h
  history-IsSound (call ∷ calls) s h =
      history-IsSound calls (perform call s) (perform-IsSound call s h)

  -- After any calls from a new client, whatever the network answers and whatever the callbacks
  -- raise, the client says that it is registered exactly when it stores a device, and the device is
  -- the one that its raw data reads as.
  pub history-initial-IsSound :
      (calls : List DeviceCall) (w : Net)
      → IsSound py (history calls (record { client = initial_device; net = w; ticks = 0 })).client
  history-initial-IsSound calls w = history-IsSound calls _ (initial_device-IsSound py)

  ensure_registered_stored :
      (s : DeviceSession) (d : Device)
      → s.client.device ≡ some d
      → Path (Result (Unit {0}) × DeviceSession) (ensure_registered py world core s) (ok tt, s)
  unfolding ensure_registered
  ensure_registered_stored s d e = rw e

  pub register_stored :
      (s : DeviceSession) (d : Device)
      → s.client.device ≡ some d
      → Path (Result (Unit {0}) × DeviceSession) (register py world core s) (ok tt, s)
  unfolding register begin_register
  register_stored s d e = ap (λ o. register_from py world core (begun o) s) e
    where
      begun : Option Device → Bool × DeviceClient
      begun o = elim o [
        | some _ ↦ (false, s.client)
        | none ↦ (true, record s.client { registering = true })
      ]

  pub get_websocket_url_stored :
      (s : DeviceSession) (d : Device)
      → s.client.device ≡ some d
      → Path
          (Result String × DeviceSession)
          (get_websocket_url py world core s)
          (ok d.web_socket_url, s)
  unfolding get_websocket_url
  get_websocket_url_stored s d e =
      ap
        (λ (out : Result (Unit {0}) × DeviceSession).
          and_then out (λ _ t. take_device py world core (λ x. x.web_socket_url) t.client.device t))
        (ensure_registered_stored s d e)
      ∙ ap (λ o. take_device py world core (λ x. x.web_socket_url) o s) e

  -- A call that returns has stored a device.
  abbrev HasDevice : Result (Unit {0}) × DeviceSession → Type 0
  HasDevice (ok _, s) = is_some s.client.device ≡ true
  HasDevice (err e, s) = Unit

  call_callbacks-HasDevice :
      (fs : List ℕ) (s : DeviceSession)
      → is_some s.client.device ≡ true
      → HasDevice (call_callbacks py world core fs s)
  unfolding call_callbacks
  call_callbacks-HasDevice [] s h = h
  call_callbacks-HasDevice (f ∷ fs) s h = elim (Option-cases (world.raises f)) [
    | inl e ↦ rw (e, call_callbacks) (call_callbacks-HasDevice fs _ h)
    | inr (x, e) ↦ rw (e, call_callbacks) tt
  ]

  finish_reply-HasDevice :
      (out : Result Response × DeviceSession) → HasDevice (finish_reply py world core out)
  finish_reply-HasDevice (r, t) = by_reply (registration_reply py world core r)
    where
      by_reply : (d : Result Device) → HasDevice (finish_register py world core d t)
      by_reply (err e) = tt
      by_reply (ok d) = call_callbacks-HasDevice t.client.callbacks _ refl

  begin_register-HasDevice :
      (c : DeviceClient) → (begin_register c).0 ≡ false → is_some c.device ≡ true
  unfolding begin_register
  begin_register-HasDevice c h = by_device c.device refl
    where
      by_device : (o : Option Device) → c.device ≡ o → is_some o ≡ true
      by_device (some d) e = refl
      by_device none e = absurd (let k : true ≡ false = rw (e, begin_register) at h in cc)

  register_from-HasDevice :
      (b : Bool × DeviceClient) (s : DeviceSession)
      → (b.0 ≡ false → is_some s.client.device ≡ true)
      → HasDevice (register_from py world core b s)
  unfolding complete_register
  register_from-HasDevice (true, c) s k =
      finish_reply-HasDevice (device_request py world core "POST" _ _ _ _ _)
  register_from-HasDevice (false, c) s k = k refl

  register-HasDevice : (s : DeviceSession) → HasDevice (register py world core s)
  unfolding register
  register-HasDevice s =
      register_from-HasDevice (begin_register s.client) s (begin_register-HasDevice s.client)

  ensure_registered-HasDevice : (s : DeviceSession) → HasDevice (ensure_registered py world core s)
  unfolding ensure_registered
  ensure_registered-HasDevice s = elim (Bool-cases (is_some s.client.device)) [
    | inl e ↦ rw (e, ensure_registered) e
    | inr e ↦ rw (e, ensure_registered) (register-HasDevice s)
  ]

  -- What an accessor gives, of what the registration on demand gave.
  pub data Read {A : Type 0} (f : Device → A) (ensured : Result (Unit {0}) × DeviceSession)
      : Result A × DeviceSession → Type 0 where
    failed : (e : Exception) → ensured.0 ≡ err e → Read f ensured (err e, ensured.1)
    given :
        (d : Device)
        → ensured.0 ≡ ok tt
        → ensured.1.client.device ≡ some d
        → Read f ensured (ok (f d), ensured.1)

  take-Read :
      {A : Type 0} (f : Device → A) (ensured : Result (Unit {0}) × DeviceSession)
      → HasDevice ensured
      → Read f ensured (and_then ensured (λ _ t. take_device py world core f t.client.device t))
  take-Read f (err e, t) h = failed e refl
  take-Read f (ok tt, t) h = by_device t.client.device refl
    where
      by_device :
          (o : Option Device)
          → t.client.device ≡ o
          → Read f (ok tt, t) (take_device py world core f o t)
      by_device (some d) e = given d refl e
      by_device none e = absurd (let k : false ≡ true = rw e at h in cc)

  -- `get_websocket_url` raises only what the registration on demand raised: its `assert` never
  -- fails. Where the registration returns, it gives the URL of the device that is stored then.
  pub get_websocket_url-Read :
      (s : DeviceSession)
      → Read
          (λ d. d.web_socket_url)
          (ensure_registered py world core s)
          (get_websocket_url py world core s)
  unfolding get_websocket_url
  get_websocket_url-Read s =
      take-Read (λ d. d.web_socket_url) (ensure_registered py world core s)
        (ensure_registered-HasDevice s)
