-- ===== src/Mercury/Live.antt =====
-- The connection state of `MercuryClient` under any sequence of its calls and background tasks.
use mathlib.Core.List.{append-nil}
use webex_kms_sdk.Base.{
  ℕ, String, subst, ◌≡◌, refl, sym, ap, ◌∙◌, inl, inr, Bool, true, false, Bool-cases, Option, none,
  some, [], if◌then◌else◌,
}
use webex_kms_sdk.Text.{nonempty}
use webex_kms_sdk.Exceptions.{is_exception, runtime_error, Result, ok, err, Action, and_then}
use webex_kms_sdk.Json.{Python}
use webex_kms_sdk.Core.{CoreHttpClient}
use webex_kms_sdk.Mercury.Client.{
  DeviceProvider, MercuryClient, MercurySession, MercuryWorld, call_provider, on_mercury,
}
use webex_kms_sdk.Mercury.Authentication.{publish_connection}
use webex_kms_sdk.Mercury.Connection.{
  stop_connecting, connect_with_backoff, connect_device, connect_provider, connect_selected,
  connect_settled, connect,
}
use webex_kms_sdk.Mercury.Growth.{Confirmed, Confirmed-Grows, Grows}
use webex_kms_sdk.Mercury.Backoff.{
  Ended, connects, gives_up, interrupted, connect_with_backoff-IsBackedOff,
}

-- A websocket on which Mercury confirmed the authorization, of a client that connects to no other.
pub record IsLive {P : Type 0} (py : Python) (s : MercurySession P) : Type 0 where
  pub socket : ℕ
  pub stored : s.client.ws ≡ some socket
  pub seen : Confirmed py socket s.log
  pub settled : s.client.connecting ≡ false
  pub remembered : s.client.has_connected ≡ true

module _ {P : Type 0} (py : Python) where
  -- A client that says that it is connected has such a websocket.
  abbrev pub IsTrue : MercurySession P → Type 0
  IsTrue s = s.client.connected ≡ true → IsLive py s

  pub IsTrue-down : (s : MercurySession P) → s.client.connected ≡ false → IsTrue s
  IsTrue-down s h k = absurd (let q : true ≡ false = sym k ∙ h in cc)

  -- The fields that the connection state rests on, and the log, stay.
  pub record Rests (s t : MercurySession P) : Type 0 where
    pub ws : t.client.ws ≡ s.client.ws
    pub connected : t.client.connected ≡ s.client.connected
    pub connecting : t.client.connecting ≡ s.client.connecting
    pub has_connected : t.client.has_connected ≡ s.client.has_connected
    pub log : t.log ≡ s.log

  pub IsTrue-Rests : (s t : MercurySession P) → Rests s t → IsTrue s → IsTrue t
  IsTrue-Rests s t r h k =
      let live = h (sym r.connected ∙ k) in
      record {
        socket = live.socket;
        stored = r.ws ∙ live.stored;
        seen = subst (Confirmed py live.socket) (sym r.log) live.seen;
        settled = r.connecting ∙ live.settled;
        remembered = r.has_connected ∙ live.remembered;
      }

  pub IsTrue-Grows : (s t : MercurySession P) → Grows s t → IsTrue s → IsTrue t
  IsTrue-Grows s t g h k =
      let live = h (ap (λ c. c.connected) (sym g.client) ∙ k) in
      record {
        socket = live.socket;
        stored = ap (λ c. c.ws) g.client ∙ live.stored;
        seen = Confirmed-Grows py live.socket s t g live.seen;
        settled = ap (λ c. c.connecting) g.client ∙ live.settled;
        remembered = ap (λ c. c.has_connected) g.client ∙ live.remembered;
      }

  pub down-Grows :
      (s t : MercurySession P) → Grows s t → s.client.connected ≡ false → t.client.connected ≡ false
  down-Grows s t g h = ap (λ c. c.connected) g.client ∙ h

  IsTrue-Ended :
      (c : MercuryClient P) (attempts left retries : ℕ) (out : Result (Unit {0}) × MercurySession P)
      → c.connected ≡ false
      → Ended py c attempts left retries out
      → IsTrue out.1
  unfolding publish_connection
  IsTrue-Ended c attempts left retries _ h (connects ws t p q) =
      λ k. record { socket = ws; stored = refl; seen = q; settled = refl; remembered = refl }
  IsTrue-Ended c attempts left retries _ h (gives_up e n t p q r) =
      IsTrue-down (stop_connecting t) (ap (λ x. x.connected) r ∙ h)
  IsTrue-Ended c attempts left retries _ h (interrupted e t p r) =
      IsTrue-down t (ap (λ x. x.connected) r ∙ h)

  pub call_provider-Grows :
      {A : Type 0} (call : Action P A) (s : MercurySession P) → Grows s (call_provider call s).1
  call_provider-Grows call s = record {
    client = refl;
    more = [];
    log = sym (append-nil s.log);
    no_waits = refl;
  }

  pub and_then-IsTrue :
      {A B : Type 0} (s : MercurySession P) (out : Result A × MercurySession P)
      (f : A → Action (MercurySession P) B)
      → s.client.connected ≡ false
      → Grows s out.1
      → ((a : A) (t : MercurySession P) → t.client.connected ≡ false → IsTrue (f a t).1)
      → IsTrue (and_then out f).1
  and_then-IsTrue s (ok a, t) f h g k = k a t (down-Grows s t g h)
  and_then-IsTrue s (err e, t) f h g k = IsTrue-down t (down-Grows s t g h)

  module _ (world : MercuryWorld) (core : CoreHttpClient) where
    pub connect_with_backoff-IsTrue :
        (url : String) (s : MercurySession P)
        → s.client.connected ≡ false
        → IsTrue (connect_with_backoff py world core url s).1
    connect_with_backoff-IsTrue url s h =
        IsTrue-Ended s.client _ _ _ (connect_with_backoff py world core url s) h
          (connect_with_backoff-IsBackedOff py world core url s).ended

    connect_device-IsTrue :
        (url : String) (s : MercurySession P)
        → s.client.connected ≡ false
        → IsTrue (connect_device py world core url s).1
    connect_device-IsTrue url s h = elim (Bool-cases (nonempty url)) [
      | inl e ↦ rw e (connect_with_backoff-IsTrue url s h)
      | inr e ↦ rw e (IsTrue-down s h)
    ]

    connect_provider-IsTrue :
        (p : Option (DeviceProvider P)) (s : MercurySession P)
        → s.client.connected ≡ false
        → IsTrue (connect_provider py world core p s).1
    connect_provider-IsTrue none s h = IsTrue-down s h
    connect_provider-IsTrue (some p) s h =
        and_then-IsTrue s (call_provider p.register s) _ h (call_provider-Grows p.register s)
          λ _ t k.
            and_then-IsTrue t (call_provider p.get_websocket_url t) _ k
              (call_provider-Grows p.get_websocket_url t) connect_device-IsTrue

    pub connect_selected-IsTrue :
        (s : MercurySession P)
        → s.client.connected ≡ false
        → IsTrue (connect_selected py world core s).1
    connect_selected-IsTrue s h = by_url (nonempty s.client.custom_websocket_url)
      where
        by_url :
            (b : Bool)
            → IsTrue
                (if b
                  then connect_with_backoff py world core s.client.custom_websocket_url s
                  else connect_provider py world core s.client.device_provider s).1
        by_url true = connect_with_backoff-IsTrue s.client.custom_websocket_url s h
        by_url false = connect_provider-IsTrue s.client.device_provider s h

    pub IsTrue-stop : (s : MercurySession P) → IsTrue s → IsTrue (stop_connecting s)
    IsTrue-stop s h k =
        let live = h k in
        record {
          socket = live.socket;
          stored = live.stored;
          seen = live.seen;
          settled = refl;
          remembered = live.remembered;
        }

    pub connect_settled-IsTrue :
        (out : Result (Unit {0}) × MercurySession P)
        → IsTrue out.1
        → IsTrue (connect_settled py world core out).1
    connect_settled-IsTrue (ok _, s) h = h
    connect_settled-IsTrue (err e, s) h = by_kind (is_exception e)
      where
        by_kind : (b : Bool) → IsTrue (if b then stop_connecting s else s)
        by_kind true = IsTrue-stop s h
        by_kind false = h

    pub connect-IsTrue : (s : MercurySession P) → IsTrue s → IsTrue (connect py world core s).1
    unfolding connect
    connect-IsTrue s h = by_flags s.client.connected s.client.connecting refl
      where
        begun : MercurySession P
        begun = on_mercury (λ c. record c { connecting = true; closing = false }) s

        by_flags :
            (b c : Bool)
            → s.client.connected ≡ b
            → IsTrue
                (if b
                  then (ok tt, s)
                  else if c
                  then (err (runtime_error "connection attempt already in progress"), s)
                  else connect_settled py world core (connect_selected py world core begun)).1
        by_flags true c e = h
        by_flags false true e = h
        by_flags false false e = connect_settled-IsTrue _ (connect_selected-IsTrue begun e)
