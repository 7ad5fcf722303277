-- ===== src/Mercury/Runs.antt =====
-- The reconnection of `MercuryClient`, and every run of its calls and background tasks.
use webex_kms_sdk.Base.{refl, ℕ, String, ◌≡◌, true, false, Option, none, some, if-either}
use webex_kms_sdk.Text.{nonempty}
use webex_kms_sdk.Exceptions.{Result, ok, err, Action, and_then}
use webex_kms_sdk.Json.{Python}
use webex_kms_sdk.Core.{CoreHttpClient}
use webex_kms_sdk.Mercury.{Registry}
use webex_kms_sdk.Mercury.Client.{
  DeviceProvider, MercurySession, MercuryWorld, set_device_provider, set_custom_websocket_url,
  call_provider, on_mercury,
}
use webex_kms_sdk.Mercury.Connection.{
  connect, close_socket, disconnect, reconnect_url_found, reconnect_url_of, get_reconnect_url,
  reconnect_to, reconnect,
}
use webex_kms_sdk.Mercury.Loops.{reader_loop, ping_round}
use webex_kms_sdk.Mercury.Growth.{Grows, Grows-refl, Grows-trans, and_then-Grows_on}
use webex_kms_sdk.Mercury.Live.{
  IsTrue, IsTrue-down, IsTrue-Rests, call_provider-Grows, and_then-IsTrue, IsTrue-stop,
  connect_with_backoff-IsTrue, connect-IsTrue,
}
use webex_kms_sdk.Mercury.Steps.{
  disconnect-IsTrue, reader_loop-IsTrue, ping_round-IsTrue, close_socket-Grows,
}

module _ {P : Type 0} (py : Python) (world : MercuryWorld) (core : CoreHttpClient) where
  and_then_kept :
      {A B : Type 0} (s : MercurySession P) (out : Result A × MercurySession P)
      (f : A → Action (MercurySession P) B)
      → Grows s out.1
      → ((a : A) (t : MercurySession P) → Grows t (f a t).1)
      → Grows s (and_then out f).1
  and_then_kept s out f g h = and_then-Grows_on s out f g (λ a t k. Grows-trans s t _ k (h a t))

  reconnect_url_found-Grows :
      (s : MercurySession P) (out : Result String × MercurySession P)
      → Grows s out.1
      → Grows s (reconnect_url_found py world core out).1
  reconnect_url_found-Grows s (ok url, t) g = g
  reconnect_url_found-Grows s (err e, t) g = g

  reconnect_url_of-Grows :
      (p : Option (DeviceProvider P)) (s : MercurySession P)
      → Grows s (reconnect_url_of py world core p s).1
  reconnect_url_of-Grows none s = Grows-refl s
  reconnect_url_of-Grows (some p) s = reconnect_url_found-Grows s _ (
      and_then_kept s (call_provider p.register s) _ (call_provider-Grows py p.register s)
        (λ _ t. call_provider-Grows py p.get_websocket_url t))

  get_reconnect_url-Grows : (s : MercurySession P) → Grows s (get_reconnect_url py world core s).1
  unfolding get_reconnect_url
  get_reconnect_url-Grows s =
      if-either (λ (out : Result String × MercurySession P). Grows s out.1)
        (nonempty s.client.custom_websocket_url) (Grows-refl s)
        (reconnect_url_of-Grows s.client.device_provider s)

  reconnect_to-IsTrue :
      (url : String) (s : MercurySession P)
      → s.client.connected ≡ false
      → IsTrue py (reconnect_to py world core url s).1
  reconnect_to-IsTrue url s h =
      if-either (λ (out : Result (Unit {0}) × MercurySession P). IsTrue py out.1) (nonempty url)
        (IsTrue-stop py world core _ (connect_with_backoff-IsTrue py world core url s h))
        (IsTrue-down py _ h)

  reconnect-IsTrue :
      (s : MercurySession P) → s.client.connected ≡ false → IsTrue py (reconnect py world core s).1
  unfolding reconnect
  reconnect-IsTrue s h =
      and_then-IsTrue py begun (close_socket world s.client.ws begun) _ h
        (close_socket-Grows world s.client.ws begun)
        λ _ t k.
          and_then-IsTrue py t (get_reconnect_url py world core t) _ k (get_reconnect_url-Grows t)
            reconnect_to-IsTrue
    where
      begun : MercurySession P
      begun = on_mercury (λ c. record c { ws = none; connecting = true }) s

  -- A step: a call of the client, or what a background task does at once. A reconnection starts
  -- while the client is not connected.
  pub data Step (s : MercurySession P) : MercurySession P → Type 0 where
    connects : Step s (connect py world core s).1
    disconnects : Step s (disconnect world s).1
    reads : (task : ℕ) → Step s (reader_loop py task s).1
    pings : (task : ℕ) → Step s (ping_round world task s).1
    reconnects : s.client.connected ≡ false → Step s (reconnect py world core s).1
    provides : (p : DeviceProvider P) → Step s (on_mercury (set_device_provider p) s)
    redirects : (url : String) → Step s (on_mercury (set_custom_websocket_url url) s)
    listens : (handlers : Registry) → Step s (on_mercury (λ c. record c { handlers = handlers }) s)

  pub data Steps (s : MercurySession P) : MercurySession P → Type 0 where
    done : Steps s s
    then_step : {t u : MercurySession P} → Steps s t → Step t u → Steps s u

  Step-IsTrue : (s t : MercurySession P) → Step s t → IsTrue py s → IsTrue py t
  unfolding set_device_provider set_custom_websocket_url
  Step-IsTrue s _ connects h = connect-IsTrue py world core s h
  Step-IsTrue s _ disconnects h = disconnect-IsTrue py world s h
  Step-IsTrue s _ (reads task) h = reader_loop-IsTrue py task s h
  Step-IsTrue s _ (pings task) h = ping_round-IsTrue py world task s h
  Step-IsTrue s _ (reconnects k) h = reconnect-IsTrue s k
  Step-IsTrue s _ (provides p) h =
      IsTrue-Rests py s (on_mercury (set_device_provider p) s)
        (record {
          ws = refl;
          connected = refl;
          connecting = refl;
          has_connected = refl;
          log = refl;
        })
        h
  Step-IsTrue s _ (redirects url) h =
      IsTrue-Rests py s (on_mercury (set_custom_websocket_url url) s)
        (record {
          ws = refl;
          connected = refl;
          connecting = refl;
          has_connected = refl;
          log = refl;
        })
        h
  Step-IsTrue s _ (listens hs) h =
      IsTrue-Rests py s (on_mercury (λ c. record c { handlers = hs }) s)
        (record {
          ws = refl;
          connected = refl;
          connecting = refl;
          has_connected = refl;
          log = refl;
        })
        h

  -- After any steps from a session that is not connected, where a reconnection starts only while the
  -- client is not connected: a client that says that it is connected has a websocket on which
  -- Mercury confirmed the authorization, connects to no other, and remembers that it has connected.
  pub Steps-IsTrue : (s t : MercurySession P) → s.client.connected ≡ false → Steps s t → IsTrue py t
  Steps-IsTrue s _ h done = IsTrue-down py s h
  Steps-IsTrue s _ h (then_step {t} {u} run step) = Step-IsTrue t u step (Steps-IsTrue s t h run)
