-- ===== src/Threaded.antt =====
-- `ThreadedWebexClient` of `src/webex_kms_sdk/threaded.py`. A thread is a number, and its loop has the
-- same number; the caller of an operation is the thread that it runs in. The async client is any
-- implementation of the calls that the facade makes of it, and each runs to its end on the loop.
pub mod Running
pub mod Life
pub mod Moves
pub mod Connecting
pub mod Calls
pub mod Leak
use webex_kms_sdk.Base.{
  ℕ, ◌+◌, String, Bool, true, false, not, ◌||◌, Option, none, some, List, [], ◌∷◌, ◌++◌, ◌==◌,
  nat_eq, contains, is_some, if◌then◌else◌,
}
use webex_kms_sdk.Exceptions.{
  Exception, foreign, cancelled_error, is_exception, runtime_error, value_error, Result, ok, err,
  Action, and_then, bind_result,
}
use webex_kms_sdk.Text.{nonempty}
use webex_kms_sdk.Models.Jwk.{Key}
use webex_kms_sdk.Config.{Config}
use webex_kms_sdk.Mercury.Connection.{remove_task}

-- What the facade calls of the async client: its construction, with the websocket URL if there is
-- one, and the coroutines that it runs on the loop.
pub record AsyncClient (C : Type 0) : Type 0 where
  pub create : String → Option Config → Result C
  pub set_custom_websocket_url : String → C → Result C
  pub connect : Action C (Unit {0})
  pub aclose : Action C (Unit {0})
  pub get_key : String → Action C Key
  pub decrypt_text : String → String → Action C String

pub record ThreadedWebexClient (C : Type 0) : Type 0 where
  pub access_token : String
  pub config : Option Config
  pub custom_websocket_url : String
  pub thread : Option ℕ
  pub loop : Option ℕ
  pub loop_thread_id : Option ℕ
  pub client : Option C
  pub startup_error : Option Exception
  pub connected : Bool
  pub closed : Bool

-- The facade, with the threads that are alive and the number of the next one.
pub record ThreadedSession (C : Type 0) : Type 0 where
  pub facade : ThreadedWebexClient C
  pub alive : List ℕ
  pub next_thread : ℕ

-- `ThreadedWebexClient.__init__`
unfoldable pub new_facade : {C : Type 0} → String → Option Config → Result (ThreadedWebexClient C)
new_facade access_token config =
    if nonempty access_token
    then ok (record {
      access_token = access_token;
      config = config;
      custom_websocket_url = "";
      thread = none;
      loop = none;
      loop_thread_id = none;
      client = none;
      startup_error = none;
      connected = false;
      closed = false;
    })
    else err (value_error "access token cannot be empty")

-- Whether the thread is there and alive.
abbrev pub is_alive : Option ℕ → List ℕ → Bool
is_alive none alive = false
is_alive (some t) alive = contains alive t

-- `threading.get_ident() == loop_thread_id`
abbrev pub is_loop_thread : ℕ → Option ℕ → Bool
is_loop_thread caller none = false
is_loop_thread caller (some t) = caller == t

abbrev pub stop_thread : Option ℕ → List ℕ → List ℕ
stop_thread none alive = alive
stop_thread (some t) alive = remove_task t alive

-- `loop is not None and thread is not None and thread.is_alive()`
abbrev pub has_loop : Option ℕ → Option ℕ → List ℕ → Bool
has_loop none thread alive = false
has_loop (some _) thread alive = is_alive thread alive

-- The caller of a client that has no running loop.
abbrev pub not_running : Bool → Exception
not_running true = runtime_error "threaded client is closed"
not_running false = runtime_error "threaded client is not connected"

-- `future.result()`, which raises for a cancelled coroutine a `concurrent.futures.CancelledError`,
-- without a text: other than the one of asyncio it is an `Exception`.
abbrev pub future_result : {A : Type 0} → Result A → Result A
future_result (err cancelled_error) = err (foreign "")
future_result r = r

module _ {C : Type 0} where
  abbrev pub on_facade :
      (ThreadedWebexClient C → ThreadedWebexClient C) → ThreadedSession C → ThreadedSession C
  on_facade f s = record s { facade = f s.facade }

  abbrev pub set_url_unless : Bool → Bool → String → Action (ThreadedSession C) (Unit {0})
  set_url_unless true closed url s =
      (err (runtime_error "custom websocket URL must be set before connect"), s)
  set_url_unless false true url s = (err (runtime_error "threaded client is closed"), s)
  set_url_unless false false url s =
      (ok tt, on_facade (λ c. record c { custom_websocket_url = url }) s)

  -- `ThreadedWebexClient.set_custom_websocket_url`
  unfoldable pub set_custom_url : String → Action (ThreadedSession C) (Unit {0})
  set_custom_url url s =
      set_url_unless (is_some s.facade.thread || s.facade.connected) s.facade.closed url s

  -- The state without a background thread.
  abbrev pub without_thread : ThreadedWebexClient C → ThreadedWebexClient C
  without_thread c = record c { thread = none; loop = none; loop_thread_id = none; client = none }

  -- `_require_client`, and a coroutine on the client.
  abbrev pub on_loop : {A : Type 0} → Action C A → Option C → Action (ThreadedSession C) A
  on_loop coro none s = (err (runtime_error "async client is not initialized"), s)
  on_loop coro (some c) s =
      let (r, d) = coro c in (future_result r, on_facade (λ f. record f { client = some d }) s)

  abbrev pub run_unless : {A : Type 0} → Bool → Bool → Action C A → Action (ThreadedSession C) A
  run_unless false own coro s = (err (not_running s.facade.closed), s)
  run_unless true true coro s =
      (err (runtime_error "cannot block on the threaded client from its background loop"), s)
  run_unless true false coro s = on_loop coro s.facade.client s

  -- `ThreadedWebexClient._run`
  unfoldable pub run : {A : Type 0} → ℕ → Action C A → Action (ThreadedSession C) A
  run caller coro s =
      run_unless (has_loop s.facade.loop s.facade.thread s.alive)
        (is_loop_thread caller s.facade.loop_thread_id) coro s

  module _ (webex : AsyncClient C) where
    -- The construction of the client in `_thread_main`.
    abbrev pub created : ThreadedWebexClient C → Result C
    created c = bind_result (webex.create c.access_token c.config) λ d.
        if nonempty c.custom_websocket_url
        then webex.set_custom_websocket_url c.custom_websocket_url d
        else ok d

    -- `_thread_main` up to `_ready.set()`, and what `_ensure_thread_started` does then.
    abbrev pub started : Result C → Action (ThreadedSession C) (Unit {0})
    started (err e) s = (
      err e,
      record s {
        facade = without_thread (record s.facade { startup_error = some e });
        next_thread = s.next_thread + 1;
      },
    )
    started (ok d) s = (
      ok tt,
      record s {
        facade = record s.facade {
          thread = some s.next_thread;
          loop = some s.next_thread;
          loop_thread_id = some s.next_thread;
          client = some d;
          startup_error = none;
        };
        alive = s.alive ++ (s.next_thread ∷ []);
        next_thread = s.next_thread + 1;
      },
    )

    abbrev pub start_unless : Option ℕ → Action (ThreadedSession C) (Unit {0})
    start_unless (some _) s = (ok tt, s)
    start_unless none s = started (created s.facade) s

    -- `ThreadedWebexClient._ensure_thread_started`
    unfoldable pub ensure_thread_started : Action (ThreadedSession C) (Unit {0})
    ensure_thread_started s = start_unless s.facade.thread s

    abbrev pub close_client : Option C → Action (ThreadedSession C) (Unit {0})
    close_client none s = (ok tt, s)
    close_client (some c) s = on_loop webex.aclose (some c) s

    abbrev pub cleared : ThreadedSession C → ThreadedSession C
    cleared = on_facade (λ c. record (without_thread c) { connected = false })

    -- The loop is stopped and its thread joined, whatever the shutdown did.
    abbrev pub joined :
        Result (Unit {0}) × ThreadedSession C → Result (Unit {0}) × ThreadedSession C
    joined (ok _, s) = (ok tt, cleared (record s { alive = stop_thread s.facade.thread s.alive }))
    joined (err e, s) = (err e, record s { alive = stop_thread s.facade.thread s.alive })

    abbrev pub shut_down : Bool → Bool → Action (ThreadedSession C) (Unit {0})
    shut_down false own s = (ok tt, cleared s)
    shut_down true true s =
        (err (runtime_error "cannot close threaded client from its background loop"), s)
    shut_down true false s = joined (close_client s.facade.client s)

    abbrev pub close_unless : Bool → ℕ → Action (ThreadedSession C) (Unit {0})
    close_unless true caller s = (ok tt, s)
    close_unless false caller s =
        shut_down (has_loop s.facade.loop s.facade.thread s.alive)
          (is_loop_thread caller s.facade.loop_thread_id)
          (on_facade (λ c. record c { closed = true }) s)

    -- `ThreadedWebexClient.close`, and `__exit__`
    unfoldable pub close : ℕ → Action (ThreadedSession C) (Unit {0})
    close caller s = close_unless s.facade.closed caller s

    abbrev pub connect_ended :
        ℕ → Result (Unit {0}) × ThreadedSession C → Result (Unit {0}) × ThreadedSession C
    connect_ended caller (ok _, s) = (ok tt, on_facade (λ c. record c { connected = true }) s)
    connect_ended caller (err e, s) =
        if is_exception e then and_then (close caller s) (λ _ t. (err e, t)) else (err e, s)

    abbrev pub connect_started :
        ℕ → Result (Unit {0}) × ThreadedSession C → Result (Unit {0}) × ThreadedSession C
    connect_started caller (err e, s) = (err e, s)
    connect_started caller (ok _, s) = connect_ended caller (run caller webex.connect s)

    abbrev pub connect_unless : Bool → Bool → ℕ → Action (ThreadedSession C) (Unit {0})
    connect_unless true connected caller s = (err (runtime_error "threaded client is closed"), s)
    connect_unless false true caller s = (ok tt, s)
    connect_unless false false caller s = connect_started caller (ensure_thread_started s)

    -- `ThreadedWebexClient.connect`, and `__enter__`
    unfoldable pub connect_threaded : ℕ → Action (ThreadedSession C) (Unit {0})
    connect_threaded caller s = connect_unless s.facade.closed s.facade.connected caller s

    -- `ThreadedWebexClient.get_key` and `ThreadedWebexClient.decrypt_text`
    unfoldable pub get_key_threaded : ℕ → String → Action (ThreadedSession C) Key
    get_key_threaded caller key_uri = run caller (webex.get_key key_uri)

    unfoldable pub decrypt_text_threaded : ℕ → String → String → Action (ThreadedSession C) String
    decrypt_text_threaded caller key_uri ciphertext =
        run caller (webex.decrypt_text key_uri ciphertext)
