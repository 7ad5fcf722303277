-- ===== src/Device/Laws.antt =====
-- What holds of the device client after any calls.
use webex_kms_sdk.Base.{
  ℕ, ◌+◌, String, ◌≡◌, ◌||◌, eqb, refl, sym, subst, ◌∙◌, inl, inr, Bool, true, false, Bool-cases,
  Option-cases, Option, none, some, some-inj, List, [], ◌∷◌, is_some, arith,
}
use webex_kms_sdk.Exceptions.{is_exception, Result, ok, err, Action, and_then, bind_result-eq-ok}
use webex_kms_sdk.Json.{Fields, Python, expect_dict}
use webex_kms_sdk.Models.Device.{Device, device_from_dict}
use webex_kms_sdk.Http.{Response}
use webex_kms_sdk.Core.{CoreHttpClient}
use webex_kms_sdk.Device.{
  DeviceClient, initial_device, DeviceSession, DeviceWorld, device_of_body, registered_device,
  refreshed_device, etag_of, registration_failed, registration_reply, begin_register,
  call_callbacks, device_request, finish_reply, finish_register, complete_register, register_from,
  notify, register, clear_device, unregister, device_with_url, store_refreshed, refresh_headers,
  refresh, ensure_registered, on_registered,
}

-- The device is what reading its raw data gives.
abbrev pub IsRead : Python → Device → Type 0
IsRead py d = device_from_dict py d.raw d.etag ≡ d

-- The flag says whether a device is stored, and the device is what reading its raw data gives.
pub record IsSound (py : Python) (c : DeviceClient) : Type 0 where
  pub flag : c.registered ≡ is_some c.device
  pub stored : (d : Device) → c.device ≡ some d → IsRead py d

module _ (py : Python) where
  pub device_from_dict-IsRead :
      (fs : Fields) (etag : String) → IsRead py (device_from_dict py fs etag)
  unfolding device_from_dict
  device_from_dict-IsRead fs etag = refl

  device_of_body-IsRead : (r : Response) (d : Device) → device_of_body py r ≡ ok d → IsRead py d
  device_of_body-IsRead r d h =
      let (v, e, h1) = bind_result-eq-ok r.json _ h in
      let (fs, f, h2) = bind_result-eq-ok (expect_dict v) _ h1 in
      subst (IsRead py) (ok-inj h2) (device_from_dict-IsRead fs (etag_of r))
    where
      ok-inj : {a b : Device} → Path (Result Device) (ok a) (ok b) → a ≡ b
      ok-inj q = cc

  registered_device-IsRead :
      (r : Response) (d : Device) → registered_device py r ≡ ok d → IsRead py d
  registered_device-IsRead r d h = ground (arith, device_of_body-IsRead r d)

  refreshed_device-IsRead :
      (r : Response) (d : Device)
      → Path (Result (Option Device)) (refreshed_device py r) (ok (some d))
      → IsRead py d
  refreshed_device-IsRead r d h = by_body (device_of_body py r) refl
    where
      by_body : (b : Result Device) → device_of_body py r ≡ b → IsRead py d
      by_body (err e) q = ground arith
      by_body (ok d') q = let k = device_of_body-IsRead r d' q in ground arith

  pub IsSound-publish :
      (c c' : DeviceClient) (d : Device)
      → c'.device ≡ some d
      → c'.registered ≡ true
      → IsRead py d
      → IsSound py c'
  IsSound-publish c c' d e f h = record {
    flag = rw (e, f);
    stored = λ d' q. let k : d ≡ d' = some-inj d d' (sym e ∙ q) in subst (IsRead py) k h;
  }

  -- Nothing but the two fields matters.
  IsSound-same :
      (c c' : DeviceClient)
      → c'.device ≡ c.device
      → c'.registered ≡ c.registered
      → IsSound py c
      → IsSound py c'
  IsSound-same c c' e f h = record {
    flag = rw (e, f) h.flag;
    stored = λ d q. h.stored d (sym e ∙ q);
  }

  pub initial_device-IsSound : IsSound py initial_device
  initial_device-IsSound = record {
    flag = refl;
    stored = λ d q. absurd (let k : none ≡ some d = q in cc);
  }

  module _ (world : DeviceWorld) (core : CoreHttpClient) where
    call_callbacks-IsSound :
        (fs : List ℕ) (s : DeviceSession)
        → IsSound py s.client
        → IsSound py (call_callbacks py world core fs s).1.client
    unfolding call_callbacks
    call_callbacks-IsSound [] s h = h
    call_callbacks-IsSound (f ∷ fs) s h =
        let h' = IsSound-same s.client _ refl refl h in
        elim (Option-cases (world.raises f)) [
          | inl e ↦ rw (e, call_callbacks) (call_callbacks-IsSound fs _ h')
          | inr (x, e) ↦ rw (e, call_callbacks) h'
        ]

    finish_register-IsSound :
        (r : Result Device) (s : DeviceSession)
        → ((d : Device) → r ≡ ok d → IsRead py d)
        → IsSound py s.client
        → IsSound py (finish_register py world core r s).1.client
    finish_register-IsSound (err e) s k h = elim (Bool-cases (is_exception e)) [
      | inl t ↦ rw (t, registration_failed) (IsSound-same s.client _ refl refl h)
      | inr t ↦ rw (t, registration_failed) h
    ]
    finish_register-IsSound (ok d) s k h =
        call_callbacks-IsSound s.client.callbacks _
          (IsSound-publish s.client _ d refl refl (k d refl))

    registration_reply-IsRead :
        (r : Result Response) (d : Device) → registration_reply py world core r ≡ ok d → IsRead py d
    registration_reply-IsRead (err e) d q = absurd (cc)
    registration_reply-IsRead (ok r) d q = registered_device-IsRead r d q

    finish_reply-IsSound :
        (out : Result Response × DeviceSession)
        → IsSound py out.1.client
        → IsSound py (finish_reply py world core out).1.client
    finish_reply-IsSound (r, t) h =
        finish_register-IsSound (registration_reply py world core r) t
          (λ d q. registration_reply-IsRead r d q) h

    complete_register-IsSound :
        (s : DeviceSession)
        → IsSound py s.client
        → IsSound py (complete_register py world core s).1.client
    unfolding complete_register
    complete_register-IsSound s h =
        finish_reply-IsSound
          (device_request py world core "POST" core.config.wdm_url _ _ _
            (record s { ticks = s.ticks + 1 }))
          h

    begin_register-IsSound : (c : DeviceClient) → IsSound py c → IsSound py (begin_register c).1
    unfolding begin_register
    begin_register-IsSound c h = elim (Option-cases c.device) [
      | inl e ↦
          rw (e, begin_register) (IsSound-same c (record c { registering = true }) refl refl h)
      | inr (d, e) ↦ rw (e, begin_register) h
    ]

    register_from-IsSound :
        (b : Bool × DeviceClient) (s : DeviceSession)
        → IsSound py b.1
        → IsSound py s.client
        → IsSound py (register_from py world core b s).1.client
    register_from-IsSound (true, c) s k h = complete_register-IsSound _ k
    register_from-IsSound (false, c) s k h = h

    pub register-IsSound :
        (s : DeviceSession) → IsSound py s.client → IsSound py (register py world core s).1.client
    unfolding register
    register-IsSound s h =
        register_from-IsSound (begin_register s.client) s (begin_register-IsSound s.client h) h

    pub and_then-IsSound :
        {A B : Type 0} (out : Result A × DeviceSession) (f : A → Action DeviceSession B)
        → IsSound py out.1.client
        → ((a : A) (t : DeviceSession) → IsSound py t.client → IsSound py (f a t).1.client)
        → IsSound py (and_then out f).1.client
    and_then-IsSound (ok a, t) f h k = k a t h
    and_then-IsSound (err e, t) f h k = h

    clear_device-IsSound :
        (r : Response) (t : DeviceSession)
        → IsSound py t.client
        → IsSound py (clear_device py world core r t).1.client
    clear_device-IsSound r t h =
        elim (Bool-cases (eqb r.status_code 200 || eqb r.status_code 204)) [
          | inl e ↦
              rw (e, clear_device)
                (record { flag = refl; stored = λ d q. absurd (let k : none ≡ some d = q in cc) })
          | inr e ↦ rw (e, clear_device) h
        ]

    pub unregister-IsSound :
        (s : DeviceSession) → IsSound py s.client → IsSound py (unregister py world core s).1.client
    unfolding unregister
    unregister-IsSound s h = elim (Option-cases (device_with_url s.client.device)) [
      | inl e ↦ rw (e, unregister) h
      | inr (d, e) ↦
          rw (e, unregister)
            (and_then-IsSound (device_request py world core "DELETE" d.url [] none [] s)
              (clear_device py world core) h clear_device-IsSound)
    ]

    store_refreshed-IsSound :
        (o : Result (Option Device)) (t : DeviceSession)
        → ((d : Device) → Path (Result (Option Device)) o (ok (some d)) → IsRead py d)
        → IsSound py t.client
        → IsSound py (store_refreshed py world core o t).1.client
    store_refreshed-IsSound (err e) t k h = h
    store_refreshed-IsSound (ok none) t k h = h
    store_refreshed-IsSound (ok (some d)) t k h = IsSound-publish t.client _ d refl refl (k d refl)

    pub refresh-IsSound :
        (s : DeviceSession) → IsSound py s.client → IsSound py (refresh py world core s).1.client
    unfolding refresh
    refresh-IsSound s h = elim (Option-cases (device_with_url s.client.device)) [
      | inl e ↦ rw (e, refresh) h
      | inr (d, e) ↦
          rw (e, refresh)
            (and_then-IsSound
              (device_request py world core "PUT" d.url [] none (refresh_headers d) s)
              (λ r. store_refreshed py world core (refreshed_device py r)) h
              (λ r t.
                store_refreshed-IsSound (refreshed_device py r) t (refreshed_device-IsRead r)))
    ]

    pub ensure_registered-IsSound :
        (s : DeviceSession)
        → IsSound py s.client
        → IsSound py (ensure_registered py world core s).1.client
    unfolding ensure_registered
    ensure_registered-IsSound s h = elim (Bool-cases (is_some s.client.device)) [
      | inl e ↦ rw (e, ensure_registered) h
      | inr e ↦ rw (e, ensure_registered) (register-IsSound s h)
    ]

    notify-IsSound :
        (b : Bool) (f : ℕ) (t : DeviceSession)
        → IsSound py t.client
        → IsSound py (notify py world core b f t).1.client
    notify-IsSound true f t h = call_callbacks-IsSound (f ∷ []) t h
    notify-IsSound false f t h = h

    pub on_registered-IsSound :
        (f : ℕ) (s : DeviceSession)
        → IsSound py s.client
        → IsSound py (on_registered py world core f s).1.client
    unfolding on_registered
    on_registered-IsSound f s h =
        notify-IsSound s.client.registered f _ (IsSound-same s.client _ refl refl h)
