-- ===== src/Mercury/Steps.antt =====
-- What `disconnect` and the background loops of `MercuryClient` keep of a true connection state.
use mathlib.Core.List.{append-nil}
use webex_kms_sdk.Base.{
  ℕ, ◌≡◌, refl, sym, Bool, true, false, Option, none, some, List, [], ◌∷◌, not, ◌&&◌, if◌then◌else◌,
  if-either,
}
use webex_kms_sdk.Number.{decimal}
use webex_kms_sdk.Exceptions.{Exception, is_exception, Result, ok, err, and_then}
use webex_kms_sdk.Json.{Python}
use webex_kms_sdk.Models.Event.{MercuryEvent}
use webex_kms_sdk.Mercury.Client.{
  received, closed_socket, pinged, MercurySession, MercuryWorld, take_frame, frames_of, now,
  on_wire, Frame, on_mercury,
}
use webex_kms_sdk.Mercury.Connection.{
  cancel, close_socket, clear_connection, disconnect, is_running, start_reconnect,
  handle_connection_error,
}
use webex_kms_sdk.Mercury.Loops.{
  frame_mercury_event, set_disconnected, process_received, end_task, reader_failed, read_frames,
  read_socket, reader_loop, measure, ping_socket, ping, pinged_round, ping_round,
}
use webex_kms_sdk.Mercury.Growth.{Grows, Grows-refl, Grows-trans, log_action-Grows}
use webex_kms_sdk.Mercury.Live.{IsTrue, IsTrue-down, IsTrue-Grows, IsTrue-Rests, down-Grows}

module _ {P : Type 0} where
  abbrev IsDown : MercurySession P → Type 0
  IsDown s = s.client.connected ≡ false

  cancel-IsDown : (t : Option ℕ) (s : MercurySession P) → IsDown s → IsDown (cancel t s)
  cancel-IsDown none s h = h
  cancel-IsDown (some t) s h = h

  start_reconnect-IsDown : (s : MercurySession P) → IsDown s → IsDown (start_reconnect s)
  unfolding start_reconnect
  start_reconnect-IsDown s h = if-either IsDown (is_running s.client.reconnect_task s) h h

  handle_connection_error-IsDown : (s : MercurySession P) → IsDown (handle_connection_error s)
  unfolding handle_connection_error
  handle_connection_error-IsDown s =
      if-either IsDown (s.client.connected && not s.client.closing)
        (start_reconnect-IsDown (set_disconnected s) refl) refl

  pub close_socket-Grows :
      (world : MercuryWorld) (ws : Option ℕ) (s : MercurySession P)
      → Grows s (close_socket world ws s).1
  close_socket-Grows world none s = Grows-refl s
  close_socket-Grows world (some ws) s = log_action-Grows (closed_socket ws) s refl

  module _ (py : Python) where
    pub disconnect-IsTrue :
        (world : MercuryWorld) (s : MercurySession P)
        → IsTrue py s
        → IsTrue py (disconnect world s).1
    unfolding disconnect
    disconnect-IsTrue world s h =
        if-either (λ (out : Result (Unit {0}) × MercurySession P). IsTrue py out.1)
          (not s.client.connected && not s.client.connecting) h
          (IsTrue-down py _
            (down-Grows py _ _ (close_socket-Grows world s.client.ws cleared) cleared-IsDown))
      where
        cleared : MercurySession P
        cleared =
            cancel s.client.ping_task (cancel s.client.reader_task (on_mercury clear_connection s))

        cleared-IsDown : IsDown cleared
        cleared-IsDown =
            cancel-IsDown s.client.ping_task _ (cancel-IsDown s.client.reader_task _ refl)

    process_received-IsTrue :
        (ev : Option MercuryEvent) (s : MercurySession P)
        → IsTrue py s
        → IsTrue py (process_received ev s)
    process_received-IsTrue none s h = h
    process_received-IsTrue (some ev) s h =
        IsTrue-Grows py s (process_received (some ev) s)
          (record { client = refl; more = []; log = sym (append-nil s.log); no_waits = refl }) h

    reader_failed-IsTrue :
        (task : ℕ) (e : Exception) (s : MercurySession P) → IsTrue py (reader_failed task e s).1
    reader_failed-IsTrue task e s =
        if-either (λ (out : Result (Unit {0}) × MercurySession P). IsTrue py out.1) (is_exception e)
          (IsTrue-down py _ refl) (IsTrue-down py _ refl)

    read_frames-IsTrue :
        (task ws : ℕ) (fs : List Frame) (s : MercurySession P)
        → IsTrue py s
        → IsTrue py (read_frames py task ws fs s).1
    unfolding read_frames
    read_frames-IsTrue task ws [] s h = h
    read_frames-IsTrue task ws (f ∷ fs) s h = by_event (frame_mercury_event py f) (λ ev.
        read_frames-IsTrue task ws fs (process_received ev t) (
          process_received-IsTrue ev t (
            IsTrue-Grows py s t
              (record { client = refl; more = received ws f ∷ []; log = refl; no_waits = refl })
              h)))
      where
        t : MercurySession P
        t = take_frame ws f fs s

        by_event :
            (r : Result (Option MercuryEvent))
            → ((ev : Option MercuryEvent)
                → IsTrue py (read_frames py task ws fs (process_received ev t)).1)
            → IsTrue py
                (elim r as (λ x. Result (Unit {0}) × MercurySession P) [
                  | err e ↦ reader_failed task e t
                  | ok ev ↦ read_frames py task ws fs (process_received ev t)
                ]).1
        by_event (err e) k = reader_failed-IsTrue task e t
        by_event (ok ev) k = k ev

    pub reader_loop-IsTrue :
        (task : ℕ) (s : MercurySession P) → IsTrue py s → IsTrue py (reader_loop py task s).1
    unfolding reader_loop
    reader_loop-IsTrue task s h = by_socket s.client.ws
      where
        by_socket : (ws : Option ℕ) → IsTrue py (read_socket py task ws s).1
        by_socket none = IsTrue-down py _ refl
        by_socket (some ws) = read_frames-IsTrue task ws (frames_of ws s) s h

    now-Grows : (world : MercuryWorld) (s : MercurySession P) → Grows s (now world s).1
    now-Grows world s = record {
      client = refl;
      more = [];
      log = sym (append-nil s.log);
      no_waits = refl;
    }

    measure-IsTrue :
        (world : MercuryWorld) (n : ℕ) (s : MercurySession P)
        → IsTrue py s
        → IsTrue py (measure world n s).1
    measure-IsTrue world n s = IsTrue-Rests py s (measure world n s).1 (record {
      ws = refl;
      connected = refl;
      connecting = refl;
      has_connected = refl;
      log = refl;
    })

    ping_socket-IsTrue :
        (world : MercuryWorld) (ws : Option ℕ) (s : MercurySession P)
        → IsTrue py s
        → IsTrue py (ping_socket world ws s).1
    ping_socket-IsTrue world none s h = h
    ping_socket-IsTrue world (some ws) s h =
        by_pong (on_wire world (pinged ws (decimal (now world s).0)) t) (
          IsTrue-Grows py s _
            (Grows-trans s t _ (now-Grows world s) (log_action-Grows (pinged ws _) t refl)) h)
      where
        t : MercurySession P
        t = (now world s).1

        by_pong :
            (out : Result (Unit {0}) × MercurySession P)
            → IsTrue py out.1
            → IsTrue py (and_then out (λ _ u. measure world (now world s).0 u)).1
        by_pong (ok _, u) k = measure-IsTrue world (now world s).0 u k
        by_pong (err e, u) k = k

    pinged_round-IsTrue :
        (task : ℕ) (out : Result (Unit {0}) × MercurySession P)
        → IsTrue py out.1
        → IsTrue py (pinged_round task out).1
    pinged_round-IsTrue task (ok _, s) h = h
    pinged_round-IsTrue task (err e, s) h = by_kind (is_exception e)
      where
        ended : MercurySession P
        ended = end_task task (handle_connection_error s)

        by_kind :
            (b : Bool)
            → IsTrue py
                (if◌then◌else◌ {A = Result (Unit {0}) × MercurySession P} b
                  (ok tt, ended)
                  (err e, end_task task s)).1
        by_kind true = IsTrue-down py ended (handle_connection_error-IsDown s)
        by_kind false =
            IsTrue-Rests py s (end_task task s)
              (record {
                ws = refl;
                connected = refl;
                connecting = refl;
                has_connected = refl;
                log = refl;
              })
              h

    pub ping_round-IsTrue :
        (world : MercuryWorld) (task : ℕ) (s : MercurySession P)
        → IsTrue py s
        → IsTrue py (ping_round world task s).1
    unfolding ping_round ping
    ping_round-IsTrue world task s h =
        pinged_round-IsTrue task (ping world s) (ping_socket-IsTrue world s.client.ws s h)
