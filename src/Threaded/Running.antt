-- ===== src/Threaded/Running.antt =====
-- What a coroutine on the loop of a threaded client gives, and what it keeps.
use webex_kms_sdk.Base.{ℕ, ◌≡◌, refl, Bool, true, false, not, ◌&&◌, Option, none, some, nat_eq}
use webex_kms_sdk.Exceptions.{
  Exception, api_error, kms_protocol_error, runtime_error, value_error, json_decode_error,
  unicode_error, type_error, attribute_error, overflow_error, foreign, timeout_error,
  cancelled_error, is_exception, Result, ok, err, Action,
}
use webex_kms_sdk.Threaded.{
  ThreadedSession, future_result, is_loop_thread, has_loop, on_loop, run_unless, run,
}
use webex_kms_sdk.Threaded.Life.{returns, Keeps, Keeps-refl, client_returns, gives}

-- What a blocked caller gets of a coroutine is a value or an exception, never the cancellation of
-- its own thread.
abbrev pub is_live : {A : Type 0} → Result A → Bool
is_live (ok _) = true
is_live (err e) = is_exception e

abbrev pub IsFaithful : {A : Type 0} → Result A → Type 0
IsFaithful r = (returns (future_result r) ≡ returns r) × (is_live (future_result r) ≡ true)

pub future_result-IsFaithful : {A : Type 0} (r : Result A) → IsFaithful r
future_result-IsFaithful (ok _) = (refl, refl)
future_result-IsFaithful {A} (err e) = by_kind e
  where
    by_kind : (e : Exception) → IsFaithful {A = A} (err e)
    by_kind (api_error k x) = (refl, refl)
    by_kind (kms_protocol_error m) = (refl, refl)
    by_kind (runtime_error m) = (refl, refl)
    by_kind (value_error m) = (refl, refl)
    by_kind (json_decode_error m) = (refl, refl)
    by_kind (unicode_error m) = (refl, refl)
    by_kind (type_error m) = (refl, refl)
    by_kind (attribute_error m) = (refl, refl)
    by_kind (overflow_error m) = (refl, refl)
    by_kind (foreign m) = (refl, refl)
    by_kind timeout_error = (refl, refl)
    by_kind cancelled_error = (refl, refl)

module _ {C : Type 0} where
  on_loop-Keeps :
      {A : Type 0} (coro : Action C A) (c : Option C) (s : ThreadedSession C)
      → Keeps s (on_loop coro c s).1
  on_loop-Keeps coro none s = Keeps-refl s
  on_loop-Keeps coro (some c) s = record { closed = refl; connected = refl; thread = refl }

  pub run-Keeps :
      {A : Type 0} (caller : ℕ) (coro : Action C A) (s : ThreadedSession C)
      → Keeps s (run caller coro s).1
  unfolding run
  run-Keeps caller coro s =
      by_loop (has_loop s.facade.loop s.facade.thread s.alive)
        (is_loop_thread caller s.facade.loop_thread_id)
    where
      by_loop : (l own : Bool) → Keeps s (run_unless l own coro s).1
      by_loop false own = Keeps-refl s
      by_loop true true = Keeps-refl s
      by_loop true false = on_loop-Keeps coro s.facade.client s

  -- Whether a call of the loop returns, and with which exceptions it does not.
  pub run-gives :
      {A : Type 0} (caller : ℕ) (coro : Action C A) (s : ThreadedSession C)
      → (returns (run caller coro s).0 ≡ gives caller coro s)
        × (is_live (run caller coro s).0 ≡ true)
  unfolding run
  run-gives caller coro s =
      by_loop (has_loop s.facade.loop s.facade.thread s.alive)
        (is_loop_thread caller s.facade.loop_thread_id)
    where
      by_closed :
          {A : Type 0} (b : Bool) (coro : Action C A) (s : ThreadedSession C)
          → s.facade.closed ≡ b
          → (returns (run_unless {A = A} false false coro s).0 ≡ false)
            × (is_live (run_unless {A = A} false false coro s).0 ≡ true)
      by_closed true coro s e = rw e (refl, refl)
      by_closed false coro s e = rw e (refl, refl)

      by_client :
          {A : Type 0} (coro : Action C A) (c : Option C)
          → (returns (on_loop coro c s).0 ≡ client_returns coro c)
            × (is_live (on_loop coro c s).0 ≡ true)
      by_client coro none = (refl, refl)
      by_client coro (some c) = future_result-IsFaithful (coro c).0

      by_loop :
          (l own : Bool)
          → (returns (run_unless l own coro s).0
              ≡ (l && (not own && client_returns coro s.facade.client)))
            × (is_live (run_unless l own coro s).0 ≡ true)
      by_loop false own = by_closed s.facade.closed coro s refl
      by_loop true true = (refl, refl)
      by_loop true false = by_client coro s.facade.client
