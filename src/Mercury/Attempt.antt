-- ===== src/Mercury/Attempt.antt =====
-- What one connection attempt of `MercuryClient` does to the client and to the log.
use mathlib.Core.List.{append-nil}
use webex_kms_sdk.Base.{
  ℕ, String, ◌≡◌, refl, sym, Bool, true, false, List, [], ◌∷◌, length, if◌then◌else◌,
}
use webex_kms_sdk.Dict.{Dict}
use webex_kms_sdk.Exceptions.{
  Exception, is_type_error, is_exception, Result, ok, err, Action, and_then,
}
use webex_kms_sdk.Json.{Python}
use webex_kms_sdk.Core.{CoreHttpClient}
use webex_kms_sdk.Mercury.Client.{
  Frame, dialled, received, closed_socket, MercurySession, MercuryWorld, log_action, take_frame,
  frames_of, now, on_wire, opened, dial, retry_legacy, websockets_connect,
}
use webex_kms_sdk.Mercury.Authentication.{
  Verdict, confirmed, unclear, refused, frame_verdict, connect_headers, prepare_websocket_url,
  send_initial_ping, wait_for_confirmation, authenticate_connection, publish_connection,
  settle_connection, attempt_connection,
}
use webex_kms_sdk.Mercury.Growth.{
  Confirmed, here, Confirmed-before, Confirmed-Grows, Grows, Grows-refl, Grows-trans,
  log_action-Grows,
}

module _ {P : Type 0} where
  module _ (world : MercuryWorld) where
    opened-Grows : (r : Result (List Frame)) (s : MercurySession P) → Grows s (opened world r s).1
    opened-Grows (ok fs) s = record {
      client = refl;
      more = [];
      log = sym (append-nil s.log);
      no_waits = refl;
    }
    opened-Grows (err e) s = Grows-refl s

    dial-Grows :
        (url : String) (headers : Dict String String) (s : MercurySession P)
        → Grows s (dial world url headers s).1
    dial-Grows url headers s =
        Grows-trans s (log_action (dialled url headers) s) _
          (log_action-Grows (dialled url headers) s refl)
          (opened-Grows (world.dials (length s.log)) (log_action (dialled url headers) s))

    retry_legacy-Grows :
        (url : String) (headers : Dict String String) (s : MercurySession P)
        (out : Result ℕ × MercurySession P)
        → Grows s out.1
        → Grows s (retry_legacy world url headers out).1
    retry_legacy-Grows url headers s (ok ws, t) g = g
    retry_legacy-Grows url headers s (err e, t) g = by_kind (is_type_error e)
      where
        by_kind : (b : Bool) → Grows s (if b then dial world url headers t else (err e, t)).1
        by_kind true = Grows-trans s t _ g (dial-Grows url headers t)
        by_kind false = g

    websockets_connect-Grows :
        (url : String) (headers : Dict String String) (s : MercurySession P)
        → Grows s (websockets_connect world url headers s).1
    unfolding websockets_connect
    websockets_connect-Grows url headers s =
        retry_legacy-Grows url headers s (dial world url headers s) (dial-Grows url headers s)

  -- The call extends the log, and where it returns the websocket is confirmed.
  pub record IsAuthenticated (py : Python) (ws : ℕ) (s : MercurySession P)
      (out : Result (Unit {0}) × MercurySession P) : Type 0 where
    pub grows : Grows s out.1
    pub seen : Path (Result (Unit {0})) out.0 (ok tt) → Confirmed py ws out.1.log

  module _ (py : Python) (world : MercuryWorld) (core : CoreHttpClient) (ws : ℕ) where
    IsAuthenticated-after :
        (s t : MercurySession P) (out : Result (Unit {0}) × MercurySession P)
        → Grows s t
        → IsAuthenticated py ws t out
        → IsAuthenticated py ws s out
    IsAuthenticated-after s t out g a = record {
      grows = Grows-trans s t out.1 g a.grows;
      seen = a.seen;
    }

    IsAuthenticated-raised :
        (s t : MercurySession P) (e : Exception) → Grows s t → IsAuthenticated py ws s (err e, t)
    IsAuthenticated-raised s t e g = record {
      grows = g;
      seen = λ h. absurd (let k : Path (Result (Unit {0})) (err e) (ok tt) = h in cc);
    }

    take_frame-Grows :
        (f : Frame) (fs : List Frame) (s : MercurySession P) → Grows s (take_frame ws f fs s)
    take_frame-Grows f fs s = record {
      client = refl;
      more = received ws f ∷ [];
      log = refl;
      no_waits = refl;
    }

    send_initial_ping-Grows :
        (s : MercurySession P) → Grows s (send_initial_ping py world core ws s).1
    unfolding send_initial_ping
    send_initial_ping-Grows s = record { client = refl; more = _ ∷ []; log = refl; no_waits = refl }

    wait-IsAuthenticated :
        (fs : List Frame) (s : MercurySession P)
        → IsAuthenticated py ws s (wait_for_confirmation py world core ws fs s)
    unfolding wait_for_confirmation
    wait-IsAuthenticated [] s = IsAuthenticated-raised s s _ (Grows-refl s)
    wait-IsAuthenticated (f ∷ fs) s =
        by_verdict (frame_verdict py f) refl (wait-IsAuthenticated fs (take_frame ws f fs s))
      where
        by_verdict :
            (v : Verdict)
            → frame_verdict py f ≡ v
            → IsAuthenticated py ws
                (take_frame ws f fs s)
                (wait_for_confirmation py world core ws fs (take_frame ws f fs s))
            → IsAuthenticated py ws s (wait_for_confirmation py world core ws (f ∷ fs) s)
        by_verdict confirmed e rest =
            rw (e, wait_for_confirmation)
              (record {
                grows =
                    Grows-trans s (take_frame ws f fs s) _ (take_frame-Grows f fs s)
                      (send_initial_ping-Grows (take_frame ws f fs s));
                seen = λ h.
                    Confirmed-Grows py ws (take_frame ws f fs s) _
                      (send_initial_ping-Grows (take_frame ws f fs s))
                      (Confirmed-before py ws s.log _ (here f [] e));
              })
        by_verdict (refused x) e rest =
            rw (e, wait_for_confirmation)
              (IsAuthenticated-raised s (take_frame ws f fs s) x (take_frame-Grows f fs s))
        by_verdict unclear e rest =
            rw (e, wait_for_confirmation)
              (IsAuthenticated-after s (take_frame ws f fs s) _ (take_frame-Grows f fs s) rest)

    and_then-IsAuthenticated :
        {A : Type 0} (s : MercurySession P) (out : Result A × MercurySession P)
        (f : A → Action (MercurySession P) (Unit {0}))
        → Grows s out.1
        → ((a : A) (t : MercurySession P) → IsAuthenticated py ws t (f a t))
        → IsAuthenticated py ws s (and_then out f)
    and_then-IsAuthenticated s (ok a, t) f g h = IsAuthenticated-after s t _ g (h a t)
    and_then-IsAuthenticated s (err e, t) f g h = IsAuthenticated-raised s t e g

    authenticate_connection-IsAuthenticated :
        (s : MercurySession P)
        → IsAuthenticated py ws s (authenticate_connection py world core ws s)
    unfolding authenticate_connection
    authenticate_connection-IsAuthenticated s =
        and_then-IsAuthenticated s (on_wire world _ _) _
          (record { client = refl; more = _ ∷ []; log = refl; no_waits = refl })
          (λ _ t. wait-IsAuthenticated (frames_of ws t) t)

  -- An attempt that fails leaves the client as it is. One that succeeds publishes a websocket on
  -- which Mercury confirmed the authorization. Neither waits between attempts.
  pub data Attempted (py : Python) (s : MercurySession P)
      : Result (Unit {0}) × MercurySession P → Type 0 where
    failed : (e : Exception) (t : MercurySession P) → Grows s t → Attempted py s (err e, t)
    published :
        (ws : ℕ) (t : MercurySession P)
        → Grows s t
        → Confirmed py ws t.log
        → Attempted py s (ok tt, publish_connection ws t)

  module _ (py : Python) (world : MercuryWorld) (core : CoreHttpClient) where
    settle_connection-Attempted :
        (ws : ℕ) (s : MercurySession P) (out : Result (Unit {0}) × MercurySession P)
        → IsAuthenticated py ws s out
        → Attempted py s (settle_connection py world core ws out)
    settle_connection-Attempted ws s (ok tt, t) a = published ws t a.grows (a.seen refl)
    settle_connection-Attempted ws s (err e, t) a = by_kind (is_exception e)
      where
        closing : Result (Unit {0}) × MercurySession P
        closing = on_wire world (closed_socket ws) t

        by_close :
            (out : Result (Unit {0}) × MercurySession P)
            → Grows s out.1
            → Attempted py s (and_then out (λ _ u. (err e, u)))
        by_close (ok _, u) g = failed e u g
        by_close (err x, u) g = failed x u g

        by_kind :
            (b : Bool)
            → Attempted py s (if b then and_then closing (λ _ u. (err e, u)) else (err e, t))
        by_kind true =
            by_close closing
              (Grows-trans s t _ a.grows (log_action-Grows (closed_socket ws) t refl))
        by_kind false = failed e t a.grows

    and_then-Attempted :
        {A : Type 0} (s : MercurySession P) (out : Result A × MercurySession P)
        (f : A → Action (MercurySession P) (Unit {0}))
        → Grows s out.1
        → ((a : A) (t : MercurySession P) → Grows s t → Attempted py s (f a t))
        → Attempted py s (and_then out f)
    and_then-Attempted s (ok a, t) f g h = h a t g
    and_then-Attempted s (err e, t) f g h = failed e t g

    pub attempt_connection-Attempted :
        (url : String) (s : MercurySession P)
        → Attempted py s (attempt_connection py world core url s)
    unfolding attempt_connection prepare_websocket_url
    attempt_connection-Attempted url s =
        and_then-Attempted s (prepare_websocket_url py world core url s) _ (quiet s) λ prepared t g.
          and_then-Attempted s (websockets_connect world prepared (headers t) (later t)) _
            (Grows-trans s (later t) _ (Grows-trans s t (later t) g (quiet t))
              (websockets_connect-Grows world prepared (headers t) (later t)))
            λ ws v g2.
              settle_connection-Attempted ws s (authenticate_connection py world core ws v) (
                IsAuthenticated-after py world core ws s v _ g2
                  (authenticate_connection-IsAuthenticated py world core ws v))
      where
        later : MercurySession P → MercurySession P
        later t = (now world t).1

        headers : MercurySession P → Dict String String
        headers t = connect_headers core.access_token (now world t).0

        quiet : (t : MercurySession P) → Grows t (later t)
        quiet t = record { client = refl; more = []; log = sym (append-nil t.log); no_waits = refl }
