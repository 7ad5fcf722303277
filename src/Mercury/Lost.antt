-- ===== src/Mercury/Lost.antt =====
-- What happens after a connection is lost: the reconnection, and the URL it takes of the device.
use webex_kms_sdk.Base.{
  ℕ, ◌+◌, String, not, ◌&&◌, sym, subst, ◌≡◌, refl, ap, ◌∙◌, inl, inr, Bool, true, false,
  Bool-cases, some, List, [], ◌∷◌, ◌++◌, ==_refl, contains, nat_eq, if◌then◌else◌, arith,
}
use webex_kms_sdk.Text.{nonempty}
use webex_kms_sdk.Exceptions.{Result, ok, and_then}
use webex_kms_sdk.Json.{Python}
use webex_kms_sdk.Core.{CoreHttpClient}
use webex_kms_sdk.Models.Device.{Device}
use webex_kms_sdk.Device.{
  DeviceSession, DeviceWorld, register, get_websocket_url, get_device_url, get_user_id,
}
use webex_kms_sdk.Device.Registration.{register_stored, get_websocket_url_stored}
use webex_kms_sdk.Mercury.Client.{
  DeviceProvider, MercurySession, MercuryWorld, call_provider, on_mercury,
}
use webex_kms_sdk.Mercury.Loops.{set_disconnected}
use webex_kms_sdk.Mercury.Connection.{
  or_fallback_url, cancel, clear_connection, close_socket, is_running, start_reconnect,
  handle_connection_error, disconnect, reconnect_url_found, reconnect_url_of, get_reconnect_url,
}

-- The device client as the provider of a Mercury client.
abbrev pub device_provider : Python → DeviceWorld → CoreHttpClient → DeviceProvider DeviceSession
device_provider py world core = record {
  register = register py world core;
  get_websocket_url = get_websocket_url py world core;
  get_device_url = get_device_url py world core;
  get_user_id = get_user_id py world core;
}

contains-snoc : (t : ℕ) (ts : List ℕ) → contains (ts ++ (t ∷ [])) t ≡ true
contains-snoc t [] = let h = ==_refl t in ground arith
contains-snoc t (x ∷ ts) = let h = contains-snoc t ts in ground arith

module _ {P : Type 0} where
  start_reconnect_running :
      (s : MercurySession P)
      → is_running (start_reconnect s).client.reconnect_task (start_reconnect s) ≡ true
  unfolding start_reconnect
  start_reconnect_running s = by_task (is_running s.client.reconnect_task s) refl
    where
      by_task :
          (b : Bool)
          → is_running s.client.reconnect_task s ≡ b
          → (let u = if b then s else record s {
            client = record s.client { reconnect_task = some s.next_task };
            next_task = s.next_task + 1;
            running = s.running ++ (s.next_task ∷ []);
          } in
              is_running u.client.reconnect_task u)
            ≡ true
      by_task true e = e
      by_task false e = contains-snoc s.next_task s.running

  start_reconnect_flags :
      (s : MercurySession P)
      → ((start_reconnect s).client.connected ≡ s.client.connected)
        × ((start_reconnect s).client.connecting ≡ s.client.connecting)
  unfolding start_reconnect
  start_reconnect_flags s = elim (Bool-cases (is_running s.client.reconnect_task s)) [
    | inl e ↦ rw (e, start_reconnect) (refl, refl)
    | inr e ↦ rw (e, start_reconnect) (refl, refl)
  ]

  failed_connection :
      (s : MercurySession P)
      → s.client.connected ≡ true
      → s.client.closing ≡ false
      → handle_connection_error s ≡ start_reconnect (set_disconnected s)
  unfolding handle_connection_error
  failed_connection s h k =
      let test : (s.client.connected && not s.client.closing) ≡ true =
        ap (λ b. b && not s.client.closing) h ∙ ap not k in
      ap (λ b. if b then start_reconnect (set_disconnected s) else set_disconnected s) test

  module _ (world : MercuryWorld) where
    disconnect_down :
        (t : MercurySession P)
        → t.client.connected ≡ false
        → t.client.connecting ≡ false
        → Path (Result (Unit {0}) × MercurySession P) (disconnect world t) (ok tt, t)
    unfolding disconnect
    disconnect_down t h k =
        let test : (not t.client.connected && not t.client.connecting) ≡ true =
          ap (λ b. not b && not t.client.connecting) h ∙ ap not k in
        ap
          (λ b.
            if◌then◌else◌ {A = Result (Unit {0}) × MercurySession P} b (ok tt, t)
              (close_socket world t.client.ws (
                cancel t.client.ping_task
                  (cancel t.client.reader_task (on_mercury clear_connection t)))))
          test

    -- When an established connection of a client that is neither closing nor connecting fails, a
    -- reconnection is running, and a `disconnect` before that has begun to connect changes nothing:
    -- it neither cancels the reconnection nor marks the client as closing.
    pub disconnect-handle_connection_error :
        (s : MercurySession P)
        → s.client.connected ≡ true
        → s.client.closing ≡ false
        → s.client.connecting ≡ false
        → Path
            (Result (Unit {0}) × MercurySession P)
            (disconnect world (handle_connection_error s))
            (ok tt, handle_connection_error s)
          × (is_running
                (handle_connection_error s).client.reconnect_task
                (handle_connection_error s)
              ≡ true)
    disconnect-handle_connection_error s h k c =
        let lost = set_disconnected s in
        let flags = start_reconnect_flags lost in
        subst
          (λ t.
            Path (Result (Unit {0}) × MercurySession P) (disconnect world t) (ok tt, t)
            × (is_running t.client.reconnect_task t ≡ true))
          (sym (failed_connection s h k))
          (
            disconnect_down (start_reconnect lost) flags.0 (flags.1 ∙ c),
            start_reconnect_running lost,
          )

-- Without a custom URL, and where the device client is the provider and stores a device, the URL for
-- a reconnection is the URL of that device, or the fallback where that is empty, and no state
-- changes: the registration sends nothing.
pub get_reconnect_url_stored :
    (py : Python) (dworld : DeviceWorld) (world : MercuryWorld) (core : CoreHttpClient)
    (s : MercurySession DeviceSession) (d : Device)
    → nonempty s.client.custom_websocket_url ≡ false
    → s.client.device_provider ≡ some (device_provider py dworld core)
    → s.provider.client.device ≡ some d
    → Path
        (Result String × MercurySession DeviceSession)
        (get_reconnect_url py world core s)
        (ok (or_fallback_url core.config d.web_socket_url), s)
unfolding get_reconnect_url
get_reconnect_url_stored py dworld world core s d c p h =
    ap
      (λ b.
        if◌then◌else◌ {A = Result String × MercurySession DeviceSession} b
          (ok s.client.custom_websocket_url, s)
          (reconnect_url_of py world core s.client.device_provider s))
      c
    ∙ ap (λ q. reconnect_url_of py world core q s) p
    ∙ ap
        (λ (out : Result (Unit {0}) × DeviceSession). found (
          and_then (out.0, with_provider out.1)
            (λ _ t. call_provider (get_websocket_url py dworld core) t)))
        (register_stored py dworld core s.provider d h)
    ∙ ap (λ (out : Result String × DeviceSession). found (out.0, with_provider out.1))
        (get_websocket_url_stored py dworld core s.provider d h)
  where
    with_provider : DeviceSession → MercurySession DeviceSession
    with_provider q = record s { provider = q }

    found :
        Result String × MercurySession DeviceSession → Result String × MercurySession DeviceSession
    found out = reconnect_url_found py world core out
